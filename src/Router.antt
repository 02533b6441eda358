-- ===== src/Router.antt =====
-- crates/agentive/src/model/router.rs: a primary provider with a fallback, seen as one provider.
pub mod Guarantees
use agentive.Base.{
  Text, ℕ, max, min, Bool, ◌&&◌, Option, none, some, Result, ok, ◌>>=◌, ◌==◌, if◌then◌else◌,
}
use agentive.Model.{ModelCapabilities, ModelRequest, StructuredOutputSupport}
use agentive.Admission.{Provider}

-- `common_bound`
pub common_bound : Option ℕ → Option ℕ → Result Text (Option ℕ)
common_bound (some primary) (some fallback) = ok (some (max primary fallback))
common_bound _ _ = ok none

-- `weakest_structured_support`
pub weakest_structured_support :
    StructuredOutputSupport → StructuredOutputSupport → StructuredOutputSupport
weakest_structured_support StructuredOutputSupport.json_schema StructuredOutputSupport.json_schema =
    StructuredOutputSupport.json_schema
weakest_structured_support StructuredOutputSupport.json StructuredOutputSupport.json =
    StructuredOutputSupport.json
weakest_structured_support StructuredOutputSupport.json StructuredOutputSupport.json_schema =
    StructuredOutputSupport.json
weakest_structured_support StructuredOutputSupport.json_schema StructuredOutputSupport.json =
    StructuredOutputSupport.json
weakest_structured_support _ _ = StructuredOutputSupport.no_support

abbrev min_limit : Option ℕ → Option ℕ → Option ℕ
min_limit (some primary) (some fallback) = some (min primary fallback)
min_limit _ _ = none

-- `guaranteed_capabilities`
pub guaranteed_capabilities : ModelCapabilities → ModelCapabilities → ModelCapabilities
guaranteed_capabilities primary fallback = record {
  supports_tool_calls = primary.supports_tool_calls && fallback.supports_tool_calls;
  supports_streaming = primary.supports_streaming && fallback.supports_streaming;
  supports_images = primary.supports_images && fallback.supports_images;
  max_context_tokens = min_limit primary.max_context_tokens fallback.max_context_tokens;
}

module _ {V : Type 0} where
  -- `FallbackProvider` as a `ModelProvider`
  unfoldable pub fallback_provider : Provider V → Provider V → Provider V
  unfolding common_bound weakest_structured_support guaranteed_capabilities
  fallback_provider primary fallback = record {
    routing_attempts = 2;
    capabilities = guaranteed_capabilities primary.capabilities fallback.capabilities;
    structured_output_support =
        weakest_structured_support primary.structured_output_support
          fallback.structured_output_support;
    conservative_context_token_bound = λ request. do
      a ← primary.conservative_context_token_bound request
      b ← fallback.conservative_context_token_bound request
      common_bound a b;
    exact_context_token_count = λ request. do
      a ← primary.exact_context_token_count request
      b ← fallback.exact_context_token_count request
      common_bound a b;
  }

  -- The provider that `generate` and `stream` go to, by the attempt's number.
  unfoldable pub routed : Provider V → Provider V → ℕ → Provider V
  routed primary fallback attempt = if attempt == 1 then primary else fallback
