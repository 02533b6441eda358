-- ===== src/Attempts.antt =====
-- crates/agentive/src/run/effects.rs: the attempts of one provider effect (`execute_provider`) and of
-- one tool invocation (`execute_tool_effect`). What the provider, the tool, the clock and a
-- cancellation do is given by functions of the attempt's number.
pub mod Loop
pub mod Outcome
pub mod Affords
pub mod Tool
pub mod Delay
use agentive.Base.{
  Text, codes, ℕ, zero, suc, ◌+◌, ◌-◌, ◌*◌, ◌/◌, ◌%◌, ◌^◌, max, min, Bool, true, false, not, ◌&&◌,
  List, [], ◌∷◌, ◌++◌, Option, none, some, ltb, if◌then◌else◌, sat_add, sat_mul, clamp_to, u8_max,
  u32_max, u64_max, Result, ok, err, ◌>>=◌, ◌>>◌,
}
use agentive.Json.{Json, error_value}
use agentive.Model.{ModelRequest, ModelResponse, ModelTokenUsage}
use agentive.Errors.{
  RunError, cancelled, context_limit, ProviderError, is_retryable, is_safe_before_output, ToolError,
}
use agentive.Admission.{Provider, validate_context}
use agentive.Response.{validate_model_response}
use agentive.State.Types.{AgentRunState, ProviderAttempt, AgentEffectOutcome, ToolRuntimePolicy}
use agentive.State.Effects.{Wire, calls_used, next_model_token_reservation}

-- What becomes of one provider attempt: the run is cancelled or its deadline passes first, or the
-- provider answers (and the run may have been cancelled meanwhile), or it fails, having shown output
-- or not.
pub data ProviderEvent (V : Type 0) : Type 0 where
  interrupted : ProviderEvent V
  answered : ModelResponse V → (cancelled_meanwhile : Bool) → ProviderEvent V
  failed : ProviderError → (visible_delta : Bool) → ProviderEvent V

-- `waits n` says whether `wait_for_retry` after attempt `n` ends before a cancellation or the deadline.
pub record ProviderRun (V : Type 0) : Type 0 where
  pub events : ℕ → ProviderEvent V
  pub waits : ℕ → Bool

-- Whether one attempt would already exceed the token budget.
abbrev pub exceeds_tokens : Option ℕ → ℕ → ℕ → Bool
exceeds_tokens none reserved tokens = false
exceeds_tokens (some limit) reserved tokens = ltb (limit - reserved) tokens

abbrev pub token_attempts : Option ℕ → ℕ → ℕ → ℕ
token_attempts none reserved tokens = u32_max
token_attempts (some limit) reserved tokens = clamp_to u32_max ((limit - reserved) / max tokens 1)

-- The condition under which a failed attempt is repeated.
abbrev pub may_retry : ProviderError → Bool → ℕ → ℕ → Bool
may_retry error visible_delta attempt allowed =
    is_retryable error && is_safe_before_output error && not visible_delta && ltb attempt allowed

module _ {V : Type 0} where
  -- The tokens that one attempt of this effect reserves.
  unfoldable pub reservation :
      Wire V → AgentRunState V → ModelRequest V → Option ℕ → Result RunError ℕ
  reservation w s request prompt_tokens = elim s.plan.token_limit [
    | none ↦ ok (next_model_token_reservation w s)
    | some limit ↦ elim prompt_tokens [
      | none ↦ err (
          context_limit
            (codes "hard token budget requires a provider-specific token count or bound"))
      | some tokens ↦ ok (sat_add u64_max tokens request.max_output_tokens)
    ]
  ]

  -- `allowed_attempts`
  unfoldable pub allowed_attempts : AgentRunState V → ℕ → ℕ
  allowed_attempts s tokens =
      min (min s.plan.provider_max_attempts (s.budget.model_call_limit - calls_used s))
        (token_attempts s.plan.token_limit s.reserved_tokens tokens)

  -- The loop of `execute_provider`, from attempt `attempt` on; `none` means that the fuel ran out.
  unfoldable pub provider_loop :
      ProviderRun V
      → Text
      → ℕ
      → ℕ
      → ℕ
      → ℕ
      → List ProviderAttempt
      → Option (Result RunError (AgentEffectOutcome V))
  provider_loop run id tokens allowed zero attempt attempts = none
  provider_loop run id tokens allowed (suc fuel) attempt attempts = elim (run.events attempt) [
    | interrupted ↦ some (err cancelled)
    | answered response true ↦ some (err cancelled)
    | answered response false ↦ some (do
      validate_model_response response id
      ok (
          AgentEffectOutcome.provider response (
            attempts
            ++ record { attempt = attempt; usage = response.usage; reserved_tokens = tokens }
              ∷ [])))
    | failed error visible_delta ↦
        let recorded : List ProviderAttempt =
          attempts
          ++ record { attempt = attempt; usage = error.usage; reserved_tokens = tokens } ∷ [] in
        elim (may_retry error visible_delta attempt allowed) [
          | true ↦ elim (run.waits attempt) [
            | true ↦ provider_loop run id tokens allowed fuel (sat_add u8_max attempt 1) recorded
            | false ↦ some (err cancelled)
          ]
          | false ↦ some (ok (AgentEffectOutcome.provider_failed error recorded))
        ]
  ]

  -- `execute_provider`, from the reservation on.
  unfoldable pub make_attempts :
      Wire V
      → ProviderRun V
      → ℕ
      → AgentRunState V
      → ModelRequest V
      → Text
      → Option ℕ
      → Option (Result RunError (AgentEffectOutcome V))
  unfolding provider_loop reservation allowed_attempts
  make_attempts w run fuel s request id prompt_tokens =
      elim (reservation w s request prompt_tokens) [
        | err e ↦ some (err e)
        | ok tokens ↦ elim (exceeds_tokens s.plan.token_limit s.reserved_tokens tokens) [
          | true ↦ some (ok (AgentEffectOutcome.provider_budget_exhausted tokens))
          | false ↦ provider_loop run id tokens (allowed_attempts s tokens) fuel 1 []
        ]
      ]

  -- `execute_provider`
  unfoldable pub execute_provider :
      Wire V
      → Provider V
      → ProviderRun V
      → ℕ
      → AgentRunState V
      → ModelRequest V
      → Text
      → Option (Result RunError (AgentEffectOutcome V))
  unfolding make_attempts
  execute_provider w provider run fuel s request id =
      elim (validate_context provider s.plan.context_estimate s.plan.provider_enforced_limit_opt_out
        request) [
          | err e ↦ some (err e)
          | ok prompt_tokens ↦ make_attempts w run fuel s request id prompt_tokens
        ]

-- `retry_delay`, in milliseconds: the attempt's ceiling, and a hash of the identity's bytes below it.
abbrev pub retry_ceiling : ℕ → ℕ
retry_ceiling attempt = min (sat_mul u64_max 5 (2 ^ min (attempt - 1) 5)) 250

unfoldable pub hash_bytes : ℕ → List ℕ → ℕ
hash_bytes hash [] = hash
hash_bytes hash (b ∷ bs) =
    hash_bytes (((hash * 1099511628211) % (u64_max + 1) + b) % (u64_max + 1)) bs

-- A text's bytes in UTF-8.
abbrev utf8 : ℕ → List ℕ
utf8 c =
    if ltb c 128
    then c ∷ []
    else if ltb c 2048
    then (192 + c / 64) ∷ (128 + c % 64) ∷ []
    else if ltb c 65536
    then (224 + c / 4096) ∷ (128 + c / 64 % 64) ∷ (128 + c % 64) ∷ []
    else (240 + c / 262144) ∷ (128 + c / 4096 % 64) ∷ (128 + c / 64 % 64) ∷ (128 + c % 64) ∷ []

abbrev pub utf8_bytes : Text → List ℕ
utf8_bytes [] = []
utf8_bytes (c ∷ s) = utf8 c ++ utf8_bytes s

-- `retry_delay`
unfoldable pub retry_delay : Text → ℕ → ℕ
unfolding hash_bytes
retry_delay identity attempt =
    hash_bytes attempt (utf8_bytes identity) % sat_add u64_max (retry_ceiling attempt) 1

-- What becomes of one tool attempt.
pub data ToolEvent (V : Type 0) : Type 0 where
  interrupted : ToolEvent V
  panicked : ToolEvent V
  returned : V → ToolEvent V
  failed : ToolError → ToolEvent V

pub record ToolRun (V : Type 0) : Type 0 where
  pub events : ℕ → ToolEvent V
  pub waits : ℕ → Bool

module _ {V : Type 0} (j : Json V) where
  -- `panicked_tool_outcome`
  unfoldable pub panicked_tool_outcome : ℕ → AgentEffectOutcome V
  panicked_tool_outcome attempts =
      AgentEffectOutcome.tool
        (error_value j (codes "tool_panicked") (codes "tool execution failed")) attempts none

  -- The loop of `execute_tool_effect`, from attempt `attempt` on.
  unfoldable pub tool_loop :
      ToolRun V → ToolRuntimePolicy V → ℕ → ℕ → Option (Result RunError (AgentEffectOutcome V))
  unfolding panicked_tool_outcome
  tool_loop run policy zero attempt = none
  tool_loop run policy (suc fuel) attempt = elim (run.events attempt) [
    | interrupted ↦ some (err cancelled)
    | panicked ↦ some (ok (panicked_tool_outcome attempt))
    | returned output ↦ some (ok (AgentEffectOutcome.tool output attempt none))
    | failed error ↦
        elim (error.retryable && policy.idempotent && ltb attempt policy.max_attempts) [
          | true ↦ elim (run.waits attempt) [
            | true ↦ tool_loop run policy fuel (sat_add u8_max attempt 1)
            | false ↦ some (err cancelled)
          ]
          | false ↦
              some
                (ok (AgentEffectOutcome.tool (error_value j error.code error.message) attempt none))
        ]
  ]

  -- `execute_tool_effect`
  unfoldable pub execute_tool_effect :
      ToolRun V → ToolRuntimePolicy V → ℕ → Option (Result RunError (AgentEffectOutcome V))
  unfolding tool_loop
  execute_tool_effect run policy fuel = tool_loop run policy fuel 1
