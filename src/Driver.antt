-- ===== src/Driver.antt =====
-- crates/agentive/src/run/local.rs, run/types.rs and run/agent.rs: the local run loop. What the loop
-- meets in its `n`-th round is a function of `n`; durations are whole milliseconds.
pub mod Bus
pub mod Rounds
pub mod Moves
pub mod Announced
pub mod Sound
pub mod Ends
use agentive.Base.{
  Text, codes, ℕ, zero, suc, Bool, true, false, not, List, [], ◌∷◌, ◌++◌, map, Option, none, some,
  is_some, is_empty, if◌then◌else◌, zip, u8_max, Result, ok, err,
}
use agentive.Ids.{ToolName}
use agentive.Message.Types.{Message}
use agentive.Model.{ModelRequest, ModelResponse, ModelTokenUsage}
use agentive.Errors.{RunError, ProviderError, provider_protocol, display}
use agentive.Usage
use agentive.Usage.{RunUsage}
use agentive.History.{validate_history}
use agentive.State.Types.{
  RunStatus, AgentRunState, AgentRunEffect, AgentEffectOutcome, ProviderAttempt, ToolInvocation,
  ToolEffectCall, ToolEffectResult, StateTransitionError,
}
use agentive.State.Effects.{
  Wire, next_effect, cancel, finish_if_exhausted, record_elapsed, is_exhausted,
}
use agentive.State.Commits.{effect_id, fail, commit_effect}
use agentive.Agent.{Agent, RunOptions, compile_messages, prepare_state}
use agentive.Execution.{Boundary, execute_effect}

pub data ModelStreamEvent (V : Type 0) : Type 0 where
  text_chunk : (text : Text) → ModelStreamEvent V
  tool_call_chunk :
      (call_id : Text) (name : ToolName) (arguments_fragment : Text) → ModelStreamEvent V
  usage : ModelTokenUsage → ModelStreamEvent V
  completed : ModelResponse V → ModelStreamEvent V

pub data RunEvent (V : Type 0) : Type 0 where
  child : (run_id : Text) (event : RunEvent V) → RunEvent V
  status_changed : RunStatus → RunEvent V
  model_call_started : (round : ℕ) → RunEvent V
  model_delta : (round : ℕ) (event : ModelStreamEvent V) → RunEvent V
  model_call_completed : (round : ℕ) (usage : Option ModelTokenUsage) → RunEvent V
  tool_invocation_started : (name : ToolName) (call_id : Text) → RunEvent V
  tool_invocation_completed :
      (name : ToolName) (call_id : Text) (attempt : ℕ) (succeeded : Bool) → RunEvent V

pub record RunRecord (V : Type 0) : Type 0 where
  pub model_call : ℕ  -- u32
  pub request : ModelRequest V
  pub response : Option (ModelResponse V)
  pub error : Option ProviderError
  pub attempts : List ProviderAttempt
  pub elapsed_ms : ℕ  -- u64

pub record RunResult (V : Type 0) : Type 0 where
  pub run_id : Text
  pub status : RunStatus
  pub text : Option Text
  pub history : List (Message V)
  pub usage : RunUsage
  pub records : List (RunRecord V)
  pub error : Option Text

-- What the handle of a run shares with its loop, and the events for its observers, in order.
pub record Shared (V : Type 0) : Type 0 where
  pub status : RunStatus
  pub events : List (RunEvent V)
  pub usage : RunUsage

-- What the loop meets: whether cancellation has been requested when a round starts, the outside of
-- its effect, the events sent meanwhile (a provider's deltas, events of child runs), and the time
-- when a record is made, when time is added, and since the start of the run.
pub record Environment (V : Type 0) : Type 0 where
  pub cancelled : ℕ → Bool
  pub boundary : ℕ → Boundary V
  pub observed : ℕ → List (RunEvent V)
  pub record_ms : ℕ → ℕ
  pub effect_ms : ℕ → ℕ
  pub run_ms : ℕ → ℕ
  -- `output.get("error").is_none()`
  pub has_no_error : V → Bool
  -- `StateTransitionError`'s message
  pub refusal : StateTransitionError → Text

-- What a round leads to: another round, or the end of the run.
pub data Step (V : Type 0) : Type 0 where
  goes_on : AgentRunState V → List (RunRecord V) → Shared V → Step V
  returns : Result RunError (RunResult V) → Shared V → Step V

module _ {V : Type 0} where
  -- `emit_event`: the event is noted, and sent in `start` (Rounds), where a full channel holds the run up.
  abbrev pub emit : Shared V → List (RunEvent V) → Shared V
  emit shared events = record shared { events = shared.events ++ events }

  -- `update_usage`
  abbrev pub update_usage : Shared V → RunUsage → Shared V
  update_usage shared known = record shared { usage = known }

  -- `status.set`, and the event of it.
  abbrev pub announce : Shared V → RunStatus → Shared V
  announce shared status =
      emit (record shared { status = status }) (RunEvent.status_changed status ∷ [])

  abbrev started : ToolInvocation → RunEvent V
  started invocation =
      RunEvent.tool_invocation_started invocation.tool_name invocation.invocation_id

  -- `emit_started`
  unfoldable pub emit_started : AgentRunEffect V → List (RunEvent V)
  emit_started (AgentRunEffect.provider_call _ _ round _) = RunEvent.model_call_started round ∷ []
  emit_started (AgentRunEffect.tool_call _ invocation _ _ _) = started invocation ∷ []
  emit_started (AgentRunEffect.tool_batch _ calls) =
      map (λ (call : ToolEffectCall V). started call.invocation) calls

  -- `emit_tool_completed`
  unfoldable pub emit_tool_completed : Environment V → ToolInvocation → ℕ → V → RunEvent V
  emit_tool_completed env invocation attempts output =
      RunEvent.tool_invocation_completed invocation.tool_name invocation.invocation_id attempts
        (env.has_no_error output)

  -- `emit_completed`
  unfoldable pub emit_completed :
      Environment V → AgentRunEffect V → AgentEffectOutcome V → List (RunEvent V)
  unfolding emit_tool_completed
  emit_completed env (AgentRunEffect.provider_call _ _ round _)
        (AgentEffectOutcome.provider response _) =
      RunEvent.model_call_completed round response.usage ∷ []
  emit_completed env (AgentRunEffect.tool_call _ invocation _ _ _)
        (AgentEffectOutcome.tool output attempts _) =
      emit_tool_completed env invocation attempts output ∷ []
  emit_completed env (AgentRunEffect.tool_batch _ calls) (AgentEffectOutcome.tool_batch outputs) =
      map
        (λ (entry : ToolEffectCall V × ToolEffectResult V).
          emit_tool_completed env entry.0.invocation entry.1.attempts entry.1.output)
        (zip calls outputs)
  emit_completed env _ _ = []

  -- `result_from_state`
  unfoldable pub result_from_state : AgentRunState V → List (RunRecord V) → RunResult V
  result_from_state s records = record {
    run_id = s.run_id;
    status = s.status;
    text = s.text;
    history = s.history;
    usage = s.usage;
    records = records;
    error = elim s.status [
      | RunStatus.incomplete ↦ some (codes "model call limit reached")
      | RunStatus.cancelled ↦ some (codes "run was cancelled")
      | _ ↦ s.error
    ];
  }

  -- `finish_cancelled`
  unfoldable pub finish_cancelled : AgentRunState V → List (RunRecord V) → Shared V → Step V
  unfolding result_from_state cancel
  finish_cancelled s records shared =
      let t = cancel s in
      returns (ok (result_from_state t records))
        (announce (update_usage shared t.usage) RunStatus.cancelled)

  -- `finish_with_usage`
  unfoldable pub finish_with_usage : AgentRunState V → List (RunRecord V) → Shared V → Step V
  unfolding result_from_state
  finish_with_usage s records shared =
      returns (ok (result_from_state s records)) (update_usage shared s.usage)

  -- The record that a round of a provider call leaves; an outcome of another kind is an error.
  unfoldable pub record_round :
      ℕ → AgentRunEffect V → AgentEffectOutcome V → Result RunError (List (RunRecord V))
  record_round elapsed_ms (AgentRunEffect.provider_call _ _ round request) outcome = elim outcome [
    | AgentEffectOutcome.provider response attempts ↦ ok (
        record {
          model_call = round;
          request = request;
          response = some response;
          error = none;
          attempts = attempts;
          elapsed_ms = elapsed_ms;
        }
        ∷ [])
    | AgentEffectOutcome.provider_failed error attempts ↦ ok (
        record {
          model_call = round;
          request = request;
          response = none;
          error = some error;
          attempts = attempts;
          elapsed_ms = elapsed_ms;
        }
        ∷ [])
    | AgentEffectOutcome.provider_budget_exhausted _ ↦ ok []
    | _ ↦ err (provider_protocol (codes "provider effect returned a tool outcome"))
  ]
  record_round elapsed_ms _ outcome = ok []

  -- `matches!(outcome, AgentEffectOutcome::ProviderFailed { .. })`
  abbrev pub is_provider_failure : AgentEffectOutcome V → Bool
  is_provider_failure (AgentEffectOutcome.provider_failed _ _) = true
  is_provider_failure _ = false

  abbrev pub is_provider_call : AgentRunEffect V → Bool
  is_provider_call (AgentRunEffect.provider_call _ _ _ _) = true
  is_provider_call _ = false

  -- The end of a run with a final text.
  abbrev pub completed_result : AgentRunState V → Text → List (RunRecord V) → RunResult V
  completed_result s text records = record {
    run_id = s.run_id;
    status = RunStatus.completed;
    text = some text;
    history = s.history;
    usage = s.usage;
    records = records;
    error = none;
  }
