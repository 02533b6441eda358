-- ===== src/Errors.antt =====
-- crates/agentive/src/errors.rs: failures of providers, tools and runs. Private diagnostics
-- (`source`) are never serialized and have no effect on a run; they are left out.
pub mod Codes
use agentive.Base.{Text, codes, decimal, ◌++◌, ℕ, Bool, true, false, Option, none, some, ok, err}
use agentive.Ids.{ToolErrorCode, parse_tool_error_code}
use agentive.Model.{ModelTokenUsage}

pub record ProviderRetryAdvice : Type 0 where
  pub retryable : Bool
  pub safe_before_output : Bool

pub data ProviderErrorKind : Type 0 where
  timeout authentication rate_limited transport : ProviderErrorKind
  invalid_request unavailable protocol unknown : ProviderErrorKind

pub record ProviderError : Type 0 where
  pub kind : ProviderErrorKind
  pub message : Text
  pub retry_advice : ProviderRetryAdvice
  pub usage : Option ModelTokenUsage

-- `ProviderError::new`
unfoldable pub new_provider_error : ProviderErrorKind → Text → Bool → ProviderError
new_provider_error kind message retryable = record {
  kind = kind;
  message = message;
  retry_advice = record { retryable = retryable; safe_before_output = retryable };
  usage = none;
}

-- `ProviderError::retryable`
unfoldable pub retryable_error : ProviderErrorKind → Text → ProviderError
unfolding new_provider_error
retryable_error kind message = new_provider_error kind message true

-- `ProviderError::terminal`
unfoldable pub terminal_error : ProviderErrorKind → Text → ProviderError
unfolding new_provider_error
terminal_error kind message = new_provider_error kind message false

-- `ProviderError::with_usage`
unfoldable pub with_usage : ProviderError → ModelTokenUsage → ProviderError
with_usage e usage = record e { usage = some usage }

-- `ProviderError::is_retryable`
abbrev pub is_retryable : ProviderError → Bool
is_retryable e = e.retry_advice.retryable

-- `ProviderError::is_safe_before_output`
abbrev pub is_safe_before_output : ProviderError → Bool
is_safe_before_output e = e.retry_advice.safe_before_output

pub record ToolError : Type 0 where
  pub code : ToolErrorCode
  pub message : Text
  pub retryable : Bool

-- `ToolErrorCode::parse(code).unwrap_or_else(..)`
unfoldable pub code_or_invalid : Text → ToolErrorCode
code_or_invalid code = elim (parse_tool_error_code code) [
  | ok c ↦ c
  | err e ↦ codes "invalid_tool_error_code"
]

-- `ToolError::terminal`
unfoldable pub terminal_tool_error : Text → Text → ToolError
unfolding code_or_invalid
terminal_tool_error code message = record {
  code = code_or_invalid code;
  message = message;
  retryable = false;
}

-- `ToolError::retryable`
unfoldable pub retryable_tool_error : Text → Text → ToolError
unfolding code_or_invalid
retryable_tool_error code message = record {
  code = code_or_invalid code;
  message = message;
  retryable = true;
}

pub data RunError : Type 0 where
  config : Text → RunError
  duplicate_tool_name : Text → RunError
  context_limit : Text → RunError
  capability : Text → RunError
  provider_protocol : Text → RunError
  provider : Text → RunError
  cancelled : RunError
  model_call_limit : ℕ → RunError
  tool : Text → RunError
  structured_output : Text → RunError

-- `RunError`'s message, as `thiserror` derives it
unfoldable pub display : RunError → Text
display (RunError.config message) = codes "invalid configuration: " ++ message
display (RunError.duplicate_tool_name name) = codes "duplicate tool name: " ++ name
display (RunError.context_limit message) = codes "context admission failed: " ++ message
display (RunError.capability message) = codes "provider capability requirement not met: " ++ message
display (RunError.provider_protocol message) = codes "provider protocol invalid: " ++ message
display (RunError.provider message) = codes "provider execution failed: " ++ message
display RunError.cancelled = codes "run cancelled"
display (RunError.model_call_limit limit) = codes "model-call limit reached: " ++ decimal limit
display (RunError.tool message) = codes "tool execution failed: " ++ message
display (RunError.structured_output message) = codes "structured output invalid: " ++ message
