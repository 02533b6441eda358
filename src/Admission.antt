-- ===== src/Admission.antt =====
-- crates/agentive/src/model.rs (`ModelProvider`, `UsageEstimator`) and run/validation.rs
-- (`validate_context`): whether a provider may be asked a request. How a provider counts the tokens
-- of a request is its own; a provider is a value of the record below.
pub mod Estimate
use agentive.Base.{
  Text, codes, decimal, ℕ, ◌+◌, ◌/◌, ◌%◌, Bool, true, false, not, ◌&&◌, List, [], ◌∷◌, ◌++◌, any,
  Option, none, is_empty, byte_len, ltb, sat_add, sat_mul, u64_max, Result, ok, ◌>>=◌, ◌>>◌,
  reject_if, ok_or, map_err,
}
use agentive.Message.Types.{Message, MessageContent}
use agentive.Model.{
  AllOrError, ModelCapabilities, ModelRequest, ModelOutputFormat, StructuredOutputSupport,
}
use agentive.Errors.{RunError, context_limit, capability}

-- `ModelProvider` less its calls: `generate` and `stream` are events of the model (`Attempts`).
pub record Provider (V : Type 0) : Type 0 where
  pub routing_attempts : ℕ  -- u8
  pub capabilities : ModelCapabilities
  pub structured_output_support : StructuredOutputSupport
  pub conservative_context_token_bound : ModelRequest V → Result Text (Option ℕ)
  pub exact_context_token_count : ModelRequest V → Result Text (Option ℕ)

-- The tokens that `estimate_tokens` counts for one piece of content.
abbrev content_tokens : MessageContent → ℕ
content_tokens (MessageContent.text text) = byte_len text / 4 + 1
content_tokens (MessageContent.image source media_type) = 64

abbrev sum_tokens : List MessageContent → ℕ
sum_tokens [] = 0
sum_tokens (c ∷ cs) = content_tokens c + sum_tokens cs

abbrev base_tokens : {V : Type 0} → List (Message V) → ℕ
base_tokens [] = 0
base_tokens (m ∷ ms) = sum_tokens m.content + base_tokens ms

-- `UsageEstimator::estimate_tokens`, whose sum wraps around at 64 bits.
unfoldable pub estimate_tokens : {V : Type 0} → List (Message V) → AllOrError → ℕ → ℕ
estimate_tokens messages AllOrError.exact reserve =
    sat_add u64_max (base_tokens messages % (u64_max + 1)) reserve
estimate_tokens messages AllOrError.conservative reserve =
    sat_mul u64_max (sat_add u64_max (base_tokens messages % (u64_max + 1)) reserve) 2

abbrev unavailable : AllOrError → Text
unavailable AllOrError.exact = codes "exact provider/model context counter unavailable"
unavailable AllOrError.conservative = codes "conservative provider context bound unavailable"

-- `UsageEstimator::can_admit`
unfoldable pub can_admit :
    {V : Type 0}
    → AllOrError
    → ModelRequest V
    → ModelCapabilities
    → Option ℕ
    → Bool
    → Result Text (Unit {0})
can_admit mode request capabilities bound true = ok tt
can_admit mode request capabilities bound false = do
  limit ← ok_or capabilities.max_context_tokens (codes "provider context limit unknown")
  prompt_tokens ← ok_or bound (unavailable mode)
  let required = sat_add u64_max prompt_tokens request.max_output_tokens
  reject_if (ltb limit required) (
      codes "required "
      ++ (decimal required ++ (codes " tokens exceeds provider limit " ++ decimal limit)))

abbrev pub is_supported : {V : Type 0} → ModelOutputFormat V → StructuredOutputSupport → Bool
is_supported ModelOutputFormat.text _ = true
is_supported ModelOutputFormat.json StructuredOutputSupport.json = true
is_supported ModelOutputFormat.json StructuredOutputSupport.json_schema = true
is_supported (ModelOutputFormat.json_schema schema) StructuredOutputSupport.json_schema = true
is_supported _ _ = false

abbrev is_image : MessageContent → Bool
is_image (MessageContent.image source media_type) = true
is_image (MessageContent.text text) = false

abbrev pub has_image : {V : Type 0} → Message V → Bool
has_image m = any is_image m.content

-- The prompt's tokens, by the precision asked for, unless the check is left to the provider.
unfoldable pub prompt_bound :
    {V : Type 0} → Provider V → AllOrError → Bool → ModelRequest V → Result RunError (Option ℕ)
prompt_bound provider mode true request = ok none
prompt_bound provider AllOrError.exact false request =
    map_err context_limit (provider.exact_context_token_count request)
prompt_bound provider AllOrError.conservative false request =
    map_err context_limit (provider.conservative_context_token_bound request)

-- `validate_context`
unfoldable pub validate_context :
    {V : Type 0} → Provider V → AllOrError → Bool → ModelRequest V → Result RunError (Option ℕ)
validate_context provider mode opt_out request = do
  reject_if (not (is_empty request.tools) && not provider.capabilities.supports_tool_calls)
      (capability (codes "tool calls are not supported"))
  reject_if (not (is_supported request.output_format provider.structured_output_support))
      (capability (codes "requested structured output is not supported"))
  reject_if (any has_image request.messages && not provider.capabilities.supports_images)
      (capability (codes "images are not supported"))
  bound ← prompt_bound provider mode opt_out request
  map_err context_limit (can_admit mode request provider.capabilities bound opt_out)
  ok bound
