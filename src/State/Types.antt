-- ===== src/State/Types.antt =====
-- crates/agentive/src/state/types.rs and run/types.rs: the data of the run state machine.
use agentive.Base.{Text, text_eq, ℕ, Bool, List, Option, find}
use agentive.Ids.{ToolName, ToolInvocationId, IdempotencyKey}
use agentive.Message.Types.{Message, CompiledInstructions}
use agentive.Model.{
  AllOrError, ProviderToolDescriptor, ModelOutputFormat, ModelRequest, ModelToolCall, ModelResponse,
  ModelTokenUsage,
}
use agentive.Errors.{ProviderError}
use agentive.Usage.{RunUsage}

pub data RunStatus : Type 0 where
  pending running completed incomplete failed cancelled : RunStatus

pub data StateTransitionError : Type 0 where
  unexpected_effect : (received : Text) (expected : Option Text) → StateTransitionError

pub record AgentRunBudget : Type 0 where
  pub model_call_limit : ℕ  -- u32

pub record ToolRuntimePolicy (V : Type 0) : Type 0 where
  pub descriptor : ProviderToolDescriptor V
  pub idempotent : Bool
  pub max_attempts : ℕ  -- u8
  pub parallel_safe : Bool
  pub delegation : Bool

pub record AgentRunPlan (V : Type 0) : Type 0 where
  pub instructions : CompiledInstructions
  pub tools : List (ToolRuntimePolicy V)
  pub model : Option Text
  pub max_output_tokens : ℕ  -- u64
  pub output_format : ModelOutputFormat V
  pub provider_max_attempts : ℕ  -- u8
  pub max_parallel_tool_calls : ℕ  -- usize
  pub context_estimate : AllOrError
  pub provider_enforced_limit_opt_out : Bool
  pub deadline_ms : Option ℕ  -- u64
  pub delegation_depth : ℕ  -- u8
  pub max_delegation_depth : ℕ  -- u8
  pub token_limit : Option ℕ  -- u64

-- `AgentRunPlan::tool_policy`
abbrev pub tool_policy : {V : Type 0} → AgentRunPlan V → ToolName → Option (ToolRuntimePolicy V)
tool_policy plan name = find (λ policy. text_eq policy.descriptor.name name) plan.tools

pub record AgentRunState (V : Type 0) : Type 0 where
  pub run_id : Text
  pub plan : AgentRunPlan V
  pub history : List (Message V)
  pub usage : RunUsage
  pub budget : AgentRunBudget
  pub model_calls : ℕ  -- u32
  pub provider_calls_started : ℕ  -- u32
  pub elapsed_ms : ℕ  -- u64
  pub reserved_child_model_calls : ℕ  -- u32
  pub reserved_tokens : ℕ  -- u64
  pub pending_tools : List (ModelToolCall V)
  pub status : RunStatus
  pub text : Option Text
  pub error : Option Text

pub record DelegationBudget : Type 0 where
  pub model_call_limit : ℕ  -- u32
  pub token_limit : Option ℕ  -- u64

-- crates/agentive/src/tool/context.rs
pub record ToolInvocation : Type 0 where
  pub run_id : Text
  pub invocation_id : ToolInvocationId
  pub provider_call_id : Option Text
  pub tool_name : ToolName
  pub model_round : ℕ  -- u32
  pub idempotency_key : IdempotencyKey

pub record ToolEffectCall (V : Type 0) : Type 0 where
  pub invocation : ToolInvocation
  pub arguments : V
  pub policy : Option (ToolRuntimePolicy V)
  pub delegation_budget : Option DelegationBudget

pub data AgentRunEffect (V : Type 0) : Type 0 where
  provider_call :
      (effect_id : Text) (provider_call_id : Text) (round : ℕ) (request : ModelRequest V)
      → AgentRunEffect V
  tool_call :
      (effect_id : Text) (invocation : ToolInvocation) (arguments : V)
      (policy : Option (ToolRuntimePolicy V)) (delegation_budget : Option DelegationBudget)
      → AgentRunEffect V
  tool_batch : (effect_id : Text) (calls : List (ToolEffectCall V)) → AgentRunEffect V

-- crates/agentive/src/run/types.rs
pub record ProviderAttempt : Type 0 where
  pub attempt : ℕ  -- u8
  pub usage : Option ModelTokenUsage
  pub reserved_tokens : ℕ  -- u64

pub record ToolEffectResult (V : Type 0) : Type 0 where
  pub output : V
  pub attempts : ℕ  -- u8
  pub child_usage : Option RunUsage

pub data AgentEffectOutcome (V : Type 0) : Type 0 where
  provider : ModelResponse V → List ProviderAttempt → AgentEffectOutcome V
  provider_failed : ProviderError → List ProviderAttempt → AgentEffectOutcome V
  provider_budget_exhausted : (required_tokens : ℕ) → AgentEffectOutcome V
  tool : (output : V) (attempts : ℕ) (child_usage : Option RunUsage) → AgentEffectOutcome V
  tool_batch : List (ToolEffectResult V) → AgentEffectOutcome V
