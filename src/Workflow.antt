-- ===== src/Workflow.antt =====
-- crates/temporal/src/runtime/config.rs and activity.rs: the input of a durable run, its policy and
-- what an activity returns.
pub mod Executions
pub mod Redelivery
pub mod Fuel
pub mod Restarts
pub mod Continued
use agentive.Base.{
  Text, codes, text_eq, ℕ, Bool, true, false, not, ◌&&◌, ◌||◌, List, [], ◌∷◌, map, all, any,
  is_empty, length, leb, ltb, ◌==◌, if◌then◌else◌, u32_max, u64_max, Result, ok, err, ◌>>=◌, ◌>>◌,
  reject_if,
}
use agentive.State.Types.{AgentRunState, AgentRunEffect, AgentEffectOutcome, ToolEffectCall}

pub data TemporalRunConfigError : Type 0 where
  unsupported_schema_version : (received : ℕ) → TemporalRunConfigError
  zero_continuation_threshold : TemporalRunConfigError
  unsafe_durable_tool : (name : Text) → TemporalRunConfigError
  invalid_workflow_fingerprint : TemporalRunConfigError
  unsupported_workflow_fingerprint : (received : Text) → TemporalRunConfigError

abbrev pub adapter_schema_version : ℕ
adapter_schema_version = 1

abbrev pub workflow_fingerprint : Text
workflow_fingerprint = codes "agentive-temporal-workflow-v1"

abbrev is_portable : ℕ → Bool
is_portable c =
    (leb 97 c && leb c 122)
    || (leb 65 c && leb c 90)
    || (leb 48 c && leb c 57)
    || (c == 45)
    || (c == 95)
    || (c == 46)

-- `WorkflowFingerprint::parse`
unfoldable pub parse_workflow_fingerprint : Text → Result TemporalRunConfigError Text
parse_workflow_fingerprint value =
    if is_empty value || ltb 128 (length value) || not (all is_portable value)
    then err TemporalRunConfigError.invalid_workflow_fingerprint
    else ok value

pub record TemporalRunConfig : Type 0 where
  pub schema_version : ℕ  -- u16
  pub fingerprint : Text
  pub continue_as_new_after_effects : ℕ  -- u32
  pub durable_idempotent_tools : List Text
  pub durable_idempotent_provider : Bool

-- `TemporalRunConfig::default`
abbrev pub default_config : TemporalRunConfig
default_config = record {
  schema_version = adapter_schema_version;
  fingerprint = workflow_fingerprint;
  continue_as_new_after_effects = u32_max;
  durable_idempotent_tools = [];
  durable_idempotent_provider = false;
}

-- `TemporalRunConfig::new`
unfoldable pub new_config : ℕ → Result TemporalRunConfigError TemporalRunConfig
new_config continue_as_new_after_effects =
    if continue_as_new_after_effects == 0
    then err TemporalRunConfigError.zero_continuation_threshold
    else ok
        (record default_config { continue_as_new_after_effects = continue_as_new_after_effects })

abbrev pub allows : List Text → Text → Bool
allows tools name = any (text_eq name) tools

-- `TemporalRunConfig::allow_durable_idempotent_tool`
unfoldable pub allow_durable_idempotent_tool : TemporalRunConfig → Text → TemporalRunConfig
allow_durable_idempotent_tool config name =
    if allows config.durable_idempotent_tools name
    then config
    else record config { durable_idempotent_tools = name ∷ config.durable_idempotent_tools }

-- `TemporalRunConfig::allow_durable_idempotent_provider`
unfoldable pub allow_durable_idempotent_provider : TemporalRunConfig → TemporalRunConfig
allow_durable_idempotent_provider config = record config { durable_idempotent_provider = true }

-- `TemporalRunConfig::validate`
unfoldable pub validate : TemporalRunConfig → Result TemporalRunConfigError (Unit {0})
validate config = do
  reject_if (not (config.schema_version == adapter_schema_version))
      (TemporalRunConfigError.unsupported_schema_version config.schema_version)
  reject_if (not (text_eq config.fingerprint workflow_fingerprint))
      (TemporalRunConfigError.unsupported_workflow_fingerprint config.fingerprint)
  reject_if (config.continue_as_new_after_effects == 0)
      TemporalRunConfigError.zero_continuation_threshold

-- The loop of `TemporalRunConfig::validates_effect` over the names of tools.
unfoldable pub validate_tools : List Text → List Text → Result TemporalRunConfigError (Unit {0})
validate_tools tools [] = ok tt
validate_tools tools (name ∷ rest) =
    let more = validate_tools tools rest in
    if allows tools name then more else err (TemporalRunConfigError.unsafe_durable_tool name)

module _ {V : Type 0} where
  -- `TemporalRunConfig::activity_max_attempts`
  unfoldable pub activity_max_attempts : TemporalRunConfig → AgentRunEffect V → ℕ
  activity_max_attempts config (AgentRunEffect.provider_call _ _ _ _) =
      if config.durable_idempotent_provider then 2 else 1
  activity_max_attempts config (AgentRunEffect.tool_call _ _ _ _ _) = 2
  activity_max_attempts config (AgentRunEffect.tool_batch _ _) = 2

  -- The names of the tools that an effect calls.
  unfoldable pub tool_names : AgentRunEffect V → List Text
  tool_names (AgentRunEffect.provider_call _ _ _ _) = []
  tool_names (AgentRunEffect.tool_call _ invocation _ _ _) = invocation.tool_name ∷ []
  tool_names (AgentRunEffect.tool_batch _ calls) =
      map (λ (call : ToolEffectCall V). call.invocation.tool_name) calls

  -- `TemporalRunConfig::validates_effect`
  unfoldable pub validates_effect :
      TemporalRunConfig → AgentRunEffect V → Result TemporalRunConfigError (Unit {0})
  unfolding validate_tools tool_names
  validates_effect config effect =
      validate_tools config.durable_idempotent_tools (tool_names effect)

pub record TemporalWorkflowInput (V : Type 0) : Type 0 where
  pub state : AgentRunState V
  pub config : TemporalRunConfig
  pub completed_effects : ℕ  -- u64
  pub effects_in_execution : ℕ  -- u32

pub record TemporalRunSnapshot (V : Type 0) : Type 0 where
  pub state : AgentRunState V
  pub cursor : ℕ  -- u64

pub data EffectActivityOutput (V : Type 0) : Type 0 where
  reported : (outcome : AgentEffectOutcome V) (elapsed_ms : ℕ) → EffectActivityOutput V
  legacy : AgentEffectOutcome V → EffectActivityOutput V

module _ {V : Type 0} where
  -- `TemporalWorkflowInput::new`
  unfoldable pub new_input : AgentRunState V → TemporalRunConfig → TemporalWorkflowInput V
  new_input state config = record {
    state = state;
    config = config;
    completed_effects = 0;
    effects_in_execution = 0;
  }

  -- `EffectActivityOutput::into_parts`
  unfoldable pub into_parts : EffectActivityOutput V → AgentEffectOutcome V × ℕ
  into_parts (EffectActivityOutput.reported outcome elapsed_ms) = (outcome, elapsed_ms)
  into_parts (EffectActivityOutput.legacy outcome) = (outcome, 0)
