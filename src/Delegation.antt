-- ===== src/Delegation.antt =====
-- crates/agentive/src/subagent.rs: a delegated run. How the child run ends, and serde's decoding of
-- the arguments and encoding of the result, are parameters.
pub mod Bounded
use agentive.Base.{
  Text, codes, is_blank, ℕ, Bool, true, false, ◌||◌, ◌==◌, leb, Option, none, some, if◌then◌else◌,
  sat_add, u8_max, clamp_to, usize_max, Result, ok, err,
}
use agentive.Json.{Json, error_value}
use agentive.Errors.{RunError, provider_protocol}
use agentive.Usage.{RunUsage}
use agentive.Agent.{RunOptions, default_options}
use agentive.State.Types.{RunStatus, DelegationBudget, AgentEffectOutcome}

-- How a child run ends for the parent that waits for it: with a result, with an error, or by the
-- parent's cancellation, with the usage known then.
pub data ChildEnd : Type 0 where
  finished : (status : RunStatus) (text : Option Text) (usage : RunUsage) → ChildEnd
  errored : (usage : RunUsage) → ChildEnd
  parent_cancelled : (usage : RunUsage) → ChildEnd

pub record DelegationResult : Type 0 where
  pub agent : Text
  pub run_id : Text
  pub status : RunStatus
  pub text : Option Text
  pub usage : RunUsage

-- `DelegationExecution`, less the shared handles.
pub record DelegationExecution : Type 0 where
  pub remaining : Option ℕ
  pub delegation_depth : ℕ
  pub max_delegation_depth : ℕ
  pub max_parallel_tool_calls : ℕ
  pub budget : Option DelegationBudget

pub record Codec (V : Type 0) : Type 0 where
  -- `decode_tool_call_args::<DelegationRequest>`: the task, or the error's text
  pub decode_task : V → Result Text Text
  -- `serde_json::to_value(DelegationResult)`
  pub encode_result : DelegationResult → Option V

-- `matches!(result.status, RunStatus::Completed | RunStatus::Incomplete)`
abbrev pub is_usable : RunStatus → Bool
is_usable RunStatus.completed = true
is_usable RunStatus.incomplete = true
is_usable _ = false

-- `budget.model_call_limit == 0 || budget.token_limit == Some(0)`
abbrev pub is_spent : DelegationBudget → Bool
is_spent budget =
    budget.model_call_limit == 0
    || elim budget.token_limit [ none ↦ false | some limit ↦ limit == 0 ]

module _ {V : Type 0} where
  -- `safe_error_with_optional_usage`
  unfoldable pub safe_error : Json V → Text → Text → Option RunUsage → AgentEffectOutcome V
  safe_error j code message child_usage =
      AgentEffectOutcome.tool (error_value j code message) 1 child_usage

  -- The options that the child run gets.
  unfoldable pub child_options : DelegationExecution → DelegationBudget → RunOptions V
  child_options execution budget = record default_options {
    deadline = execution.remaining;
    model_call_limit = clamp_to usize_max budget.model_call_limit;
    token_limit = budget.token_limit;
    max_parallel_tool_calls = execution.max_parallel_tool_calls;
    max_delegation_depth = execution.max_delegation_depth;
    delegation_depth = sat_add u8_max execution.delegation_depth 1;
  }

  -- What the parent makes of the end of the child run.
  unfoldable pub child_outcome :
      Json V → Codec V → Text → Text → ChildEnd → Result RunError (AgentEffectOutcome V)
  unfolding safe_error
  child_outcome j codec agent run_id (ChildEnd.finished status text usage) =
      if is_usable status
      then elim (codec.encode_result (record {
        agent = agent;
        run_id = run_id;
        status = status;
        text = text;
        usage = usage;
      })) [
        | some output ↦ ok (AgentEffectOutcome.tool output 1 (some usage))
        | none ↦ err (provider_protocol (codes "delegation result could not be encoded"))
      ]
      else ok
          (safe_error j (codes "delegation_failed") (codes "delegated agent failed") (some usage))
  child_outcome j codec agent run_id (ChildEnd.errored usage) =
      ok (safe_error j (codes "delegation_failed") (codes "delegated agent failed") (some usage))
  child_outcome j codec agent run_id (ChildEnd.parent_cancelled usage) =
      ok (
        safe_error j (codes "delegation_cancelled") (codes "delegation was cancelled") (some usage))

  -- `DelegationTool::execute`; `start` runs the child on a task under options, and gives its
  -- identity and its end.
  unfoldable pub execute_delegation :
      Json V
      → Codec V
      → Text
      → (Text → RunOptions V → Text × ChildEnd)
      → V
      → DelegationExecution
      → Result RunError (AgentEffectOutcome V)
  unfolding safe_error child_options child_outcome
  execute_delegation j codec agent start args execution = elim (codec.decode_task args) [
    | err message ↦ err (provider_protocol message)
    | ok task ↦
        if is_blank task
        then ok (
            safe_error j (codes "invalid_arguments") (codes "delegation task must not be blank")
              none)
        else if leb execution.max_delegation_depth execution.delegation_depth
        then ok (
            safe_error j (codes "delegation_depth_exceeded")
              (codes "delegation depth limit reached") none)
        else elim execution.budget [
          | none ↦ ok (
              safe_error j (codes "delegation_budget_exceeded")
                (codes "delegation budget is unavailable") none)
          | some budget ↦
              if is_spent budget
              then ok (
                  safe_error j (codes "delegation_budget_exceeded")
                    (codes "delegation budget is exhausted") none)
              else let (run_id, end) = start task (child_options execution budget) in
                child_outcome j codec agent run_id end
        ]
  ]
