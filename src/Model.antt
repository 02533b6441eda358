-- ===== src/Model.antt =====
-- crates/agentive/src/model.rs: provider requests, responses and capabilities.
use agentive.Base.{Text, ℕ, Bool, true, false, List, Option, none}
use agentive.Ids.{ToolName}
use agentive.Message.Types.{Message, CompiledInstructions}

pub record ModelTokenUsage : Type 0 where
  pub input : Option ℕ
  pub output : Option ℕ
  pub cached_input : Option ℕ
  pub reasoning : Option ℕ
  pub provider_total : Option ℕ

pub data AllOrError : Type 0 where
  exact conservative : AllOrError

pub record ProviderToolDescriptor (V : Type 0) : Type 0 where
  pub name : ToolName
  pub description : Text
  pub schema : V
  pub idempotent : Bool

-- `None` is `no_support`.
pub data StructuredOutputSupport : Type 0 where
  no_support json json_schema : StructuredOutputSupport

pub data ModelOutputFormat (V : Type 0) : Type 0 where
  text : ModelOutputFormat V
  json : ModelOutputFormat V
  json_schema : V → ModelOutputFormat V

pub record ModelRequest (V : Type 0) : Type 0 where
  pub instructions : CompiledInstructions
  pub messages : List (Message V)
  pub tools : List (ProviderToolDescriptor V)
  pub include_context : Bool
  pub model : Option Text
  pub max_output_tokens : ℕ
  pub output_format : ModelOutputFormat V
  pub invocation_id : Text

pub data ModelFinishReason : Type 0 where
  stop : ModelFinishReason
  tool_calls : ModelFinishReason
  error : Text → ModelFinishReason

pub record ModelToolCall (V : Type 0) : Type 0 where
  pub call_id : Text
  pub name : ToolName
  pub arguments : V
  pub provider_call_id : Option Text

pub record ModelResponse (V : Type 0) : Type 0 where
  pub text : Option Text
  pub tool_calls : List (ModelToolCall V)
  pub usage : Option ModelTokenUsage
  pub finish_reason : ModelFinishReason

pub data ModelStreamEvent (V : Type 0) : Type 0 where
  text_chunk : Text → ModelStreamEvent V
  tool_call_chunk : (call_id : Text) (name : ToolName) (fragment : Text) → ModelStreamEvent V
  usage : ModelTokenUsage → ModelStreamEvent V
  done : ModelResponse V → ModelStreamEvent V

pub record ModelCapabilities : Type 0 where
  pub supports_tool_calls : Bool
  pub supports_streaming : Bool
  pub supports_images : Bool
  pub max_context_tokens : Option ℕ

-- `ModelCapabilities::default`
unfoldable pub default_capabilities : ModelCapabilities
default_capabilities = record {
  supports_tool_calls = true;
  supports_streaming = false;
  supports_images = false;
  max_context_tokens = none;
}
