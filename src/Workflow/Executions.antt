-- ===== src/Workflow/Executions.antt =====
-- crates/temporal/src/runtime/workflow.rs: one execution of the workflow, which may end by asking to be
-- continued as a new one. What the activities answer is a function of those that were started before.
use agentive.Base.{
  Text, ℕ, zero, suc, ◌-◌, min, Bool, List, ◌∷◌, Option, none, some, leb, if◌then◌else◌, sat_add,
  u32_max, u64_max, ok, err,
}
use agentive.State.Types.{AgentRunState, AgentRunEffect, StateTransitionError}
use agentive.State.Effects.{Wire, next_effect, finish_if_exhausted, record_elapsed, cancel}
use agentive.State.Commits.{commit_effect, effect_id}
use agentive.Workflow.{
  TemporalRunConfigError, validate, activity_max_attempts, validates_effect, TemporalWorkflowInput,
  TemporalRunSnapshot, EffectActivityOutput, into_parts,
}

-- An activity that the workflow starts, with its options.
pub record EffectActivity (V : Type 0) : Type 0 where
  pub state : AgentRunState V
  pub effect : AgentRunEffect V
  pub schedule_to_close_ms : ℕ
  pub max_attempts : ℕ

-- What the workflow gets of an activity; other failures of Temporal's are not told apart.
pub data ActivityEnd (V : Type 0) : Type 0 where
  completed : EffectActivityOutput V → ActivityEnd V
  cancelled failed : ActivityEnd V

pub data WorkflowEnd (V : Type 0) : Type 0 where
  returned : AgentRunState V → WorkflowEnd V
  continued : TemporalWorkflowInput V → WorkflowEnd V
  config_failure : TemporalRunConfigError → WorkflowEnd V
  state_failure : StateTransitionError → WorkflowEnd V
  unsupported_history activity_failure : WorkflowEnd V

-- The workflow's snapshot, and the activities that were started, the last one first.
pub record AgentiveWorkflow (V : Type 0) : Type 0 where
  pub snapshot : Option (TemporalRunSnapshot V)
  pub activities : List (EffectActivity V)

-- What the turns of the workflow's loop need of their surroundings: whether the history has the marker
-- of this version, and the activities.
pub record Worker (V : Type 0) : Type 0 where
  pub patched : Bool
  pub activity : List (EffectActivity V) → EffectActivity V → ActivityEnd V

pub data Turned (V : Type 0) : Type 0 where
  stops : WorkflowEnd V → AgentiveWorkflow V → Turned V
  goes_on : TemporalWorkflowInput V → AgentiveWorkflow V → Turned V

-- `DURABLE_SAFE_INFRASTRUCTURE_MAX_ATTEMPTS`
abbrev pub durable_safe_infrastructure_max_attempts : ℕ
durable_safe_infrastructure_max_attempts = 2

module _ {V : Type 0} where
  -- `effect_deadline`, in milliseconds.
  unfoldable pub effect_deadline : AgentRunState V → ℕ
  effect_deadline s = elim (s.plan.deadline_ms) [
    | none ↦ u64_max
    | some deadline ↦ deadline - s.elapsed_ms
  ]

  -- `update_snapshot`
  unfoldable pub update_snapshot : TemporalWorkflowInput V → AgentiveWorkflow V → AgentiveWorkflow V
  update_snapshot input workflow = record workflow {
    snapshot = some (record { state = input.state; cursor = input.completed_effects });
  }

module _ {V : Type 0} (w : Wire V) (worker : Worker V) where
  -- The outcome of an activity is committed.
  unfoldable pub commit_output :
      TemporalWorkflowInput V → Text → EffectActivityOutput V → AgentiveWorkflow V → Turned V
  unfolding commit_effect record_elapsed finish_if_exhausted update_snapshot into_parts
  commit_output input id output workflow =
      let (s, committed) = commit_effect w input.state id (into_parts output).0 in
      elim committed [
        | err e ↦ Turned.stops (WorkflowEnd.state_failure e) workflow
        | ok done ↦
            let later = record input {
              state = (finish_if_exhausted (record_elapsed s (into_parts output).1)).0;
              completed_effects = sat_add u64_max input.completed_effects 1;
              effects_in_execution = sat_add u32_max input.effects_in_execution 1;
            } in
            Turned.goes_on later (update_snapshot later workflow)
      ]

  -- The activity for an effect, and what follows from its end.
  unfoldable pub execute_activity :
      TemporalWorkflowInput V → AgentRunEffect V → AgentiveWorkflow V → Turned V
  unfolding commit_output activity_max_attempts effect_deadline update_snapshot cancel
  execute_activity input effect workflow =
      let started : EffectActivity V = record {
        state = input.state;
        effect = effect;
        schedule_to_close_ms = effect_deadline input.state;
        max_attempts =
            min (activity_max_attempts input.config effect)
              durable_safe_infrastructure_max_attempts;
      } in
      let after = record workflow { activities = started ∷ workflow.activities } in
      elim (worker.activity workflow.activities started) [
        | ActivityEnd.completed output ↦ commit_output input (effect_id effect) output after
        | ActivityEnd.cancelled ↦
            let last = record input { state = cancel input.state } in
            Turned.stops (WorkflowEnd.returned last.state) (update_snapshot last after)
        | ActivityEnd.failed ↦ Turned.stops WorkflowEnd.activity_failure after
      ]

  -- What follows the loop: `finish_if_exhausted` once more.
  unfoldable pub finish : TemporalWorkflowInput V → AgentiveWorkflow V → Turned V
  unfolding finish_if_exhausted update_snapshot
  finish input workflow =
      let last = record input { state = (finish_if_exhausted input.state).0 } in
      Turned.stops (WorkflowEnd.returned last.state) (update_snapshot last workflow)

  -- An effect that the run asks for, in the loop.
  unfoldable pub turn_effect :
      TemporalWorkflowInput V → AgentRunEffect V → AgentiveWorkflow V → Turned V
  unfolding execute_activity validates_effect
  turn_effect input effect workflow =
      if leb input.config.continue_as_new_after_effects input.effects_in_execution
      then Turned.stops (WorkflowEnd.continued (record input { effects_in_execution = 0 })) workflow
      else elim (validates_effect input.config effect) [
        | err e ↦ Turned.stops (WorkflowEnd.config_failure e) workflow
        | ok done ↦ execute_activity input effect workflow
      ]

  -- One turn of the loop of `AgentiveWorkflow::run`.
  unfoldable pub turn : TemporalWorkflowInput V → AgentiveWorkflow V → Turned V
  unfolding turn_effect finish finish_if_exhausted next_effect
  turn input workflow =
      let (s, exhausted) = finish_if_exhausted input.state in
      let here = record input { state = s } in
      if exhausted then finish here workflow else elim (next_effect s) [
        | none ↦ finish here workflow
        | some effect ↦ turn_effect here effect workflow
      ]

  unfoldable pub turns :
      ℕ → TemporalWorkflowInput V → AgentiveWorkflow V → Option (WorkflowEnd V × AgentiveWorkflow V)
  unfolding turn
  turns zero input workflow = none
  turns (suc fuel) input workflow = elim (turn input workflow) [
    | Turned.stops e last ↦ some (e, last)
    | Turned.goes_on later after ↦ turns fuel later after
  ]

  -- `AgentiveWorkflow::run`: one execution, whose workflow has no snapshot yet.
  unfoldable pub run :
      ℕ
      → TemporalWorkflowInput V
      → List (EffectActivity V)
      → Option (WorkflowEnd V × AgentiveWorkflow V)
  unfolding turns validate update_snapshot
  run fuel input before =
      let fresh : AgentiveWorkflow V = record { snapshot = none; activities = before } in
      elim (validate input.config) [
        | err e ↦ some (WorkflowEnd.config_failure e, fresh)
        | ok done ↦
            if worker.patched
            then turns fuel input (update_snapshot input fresh)
            else some (WorkflowEnd.unsupported_history, fresh)
      ]

  -- An execution and those that it is continued as, each with the same fuel.
  unfoldable pub run_chain :
      ℕ
      → ℕ
      → TemporalWorkflowInput V
      → List (EffectActivity V)
      → Option (WorkflowEnd V × AgentiveWorkflow V)
  unfolding run
  run_chain zero fuel input before = none
  run_chain (suc executions) fuel input before = elim (run fuel input before) [
    | none ↦ none
    | some (WorkflowEnd.continued next, last) ↦ run_chain executions fuel next last.activities
    | some (e, last) ↦ some (e, last)
  ]
