-- ===== src/Workflow/Redelivery.antt =====
-- crates/temporal/src/runtime: which activities a durable run starts.
use agentive.Base.{
  Text, ◌≡◌, refl, sym, ℕ, zero, suc, ◌+◌, ◌<◌, ◌≤◌, min, Bool, true, false, List, [], ◌∷◌, All,
  Option, none, some, leb, Result, ok, err, arith, subst, by_test, by_result,
}
use agentive.State.Types.{AgentRunState, AgentRunEffect}
use agentive.State.Effects.{Wire, next_effect, finish_if_exhausted}
use agentive.State.Commits.{commit_effect, effect_id}
use agentive.Workflow.{
  TemporalRunConfig, TemporalRunConfigError, validate, allows, activity_max_attempts, tool_names,
  validate_tools, validates_effect, TemporalWorkflowInput, EffectActivityOutput, into_parts,
}
use agentive.Workflow.Executions.{
  EffectActivity, ActivityEnd, WorkflowEnd, AgentiveWorkflow, Worker, Turned, effect_deadline,
  update_snapshot, commit_output, execute_activity, finish, turn_effect, turn, turns, run,
  run_chain,
}

abbrev pub is_provider_call : {V : Type 0} → AgentRunEffect V → Bool
is_provider_call (AgentRunEffect.provider_call _ _ _ _) = true
is_provider_call (AgentRunEffect.tool_call _ _ _ _ _) = false
is_provider_call (AgentRunEffect.tool_batch _ _) = false

-- An activity that a durable run may start: its effect is the one that its state asks for, its tools are
-- declared durable, it is delivered again at most once, and for a provider call only if the provider is
-- declared durable, and it closes when the run's deadline is reached.
pub record IsDurable {V : Type 0} (config : TemporalRunConfig) (a : EffectActivity V) : Type 0 where
  pub asked : next_effect a.state ≡ some a.effect
  pub tools : All (λ name. allows config.durable_idempotent_tools name ≡ true) (tool_names a.effect)
  pub at_least_once : 0 < a.max_attempts
  pub at_most_twice : a.max_attempts ≤ 2
  pub provider :
      is_provider_call a.effect ≡ true
      → 1 < a.max_attempts
      → config.durable_idempotent_provider ≡ true
  pub timely :
      (deadline : ℕ)
      → a.state.plan.deadline_ms ≡ some deadline
      → (0 < a.schedule_to_close_ms) × (a.state.elapsed_ms + a.schedule_to_close_ms ≡ deadline)

validated_tools :
    (tools names : List Text)
    → validate_tools tools names ≡ ok tt
    → All (λ name. allows tools name ≡ true) names
unfolding validate_tools
validated_tools tools [] h = tt
validated_tools tools (name ∷ rest) h = (ground arith, validated_tools tools rest (ground arith))

module _ {V : Type 0} where
  attempts_bounded :
      (config : TemporalRunConfig) (effect : AgentRunEffect V)
      → (0 < min (activity_max_attempts config effect) 2)
        × ((min (activity_max_attempts config effect) 2 ≤ 2)
            × (is_provider_call effect ≡ true
                → 1 < min (activity_max_attempts config effect) 2
                → config.durable_idempotent_provider ≡ true))
  unfolding activity_max_attempts
  attempts_bounded config (AgentRunEffect.provider_call _ _ _ _) = ground arith
  attempts_bounded config (AgentRunEffect.tool_call _ _ _ _ _) = ground arith
  attempts_bounded config (AgentRunEffect.tool_batch _ _) = ground arith

  -- A live run that is not ended by `finish_if_exhausted` has time left.
  time_left :
      (s : AgentRunState V) (effect : AgentRunEffect V) (deadline : ℕ)
      → (finish_if_exhausted s).1 ≡ false
      → next_effect s ≡ some effect
      → s.plan.deadline_ms ≡ some deadline
      → (0 < effect_deadline s) × (s.elapsed_ms + effect_deadline s ≡ deadline)
  unfolding finish_if_exhausted next_effect effect_deadline
  time_left s effect deadline h n e = ground arith

  pub unended :
      (s : AgentRunState V) → (finish_if_exhausted s).1 ≡ false → (finish_if_exhausted s).0 ≡ s
  unfolding finish_if_exhausted
  unended s h = ground arith

  -- What a turn leaves: activities that may be started, and an input of the same policy.
  abbrev Kept : TemporalRunConfig → Turned V → Type 0
  Kept config (Turned.stops (WorkflowEnd.continued next) last) =
      All (IsDurable config) last.activities × (next.config ≡ config)
  Kept config (Turned.stops _ last) = All (IsDurable config) last.activities
  Kept config (Turned.goes_on later after) =
      All (IsDurable config) after.activities × (later.config ≡ config)

module _ {V : Type 0} (w : Wire V) (worker : Worker V) where
  commit_output-Kept :
      (input : TemporalWorkflowInput V) (id : Text) (output : EffectActivityOutput V)
      (workflow : AgentiveWorkflow V)
      → All (IsDurable input.config) workflow.activities
      → Kept input.config (commit_output w worker input id output workflow)
  unfolding commit_output update_snapshot
  commit_output-Kept input id output workflow all =
      by_result (Kept input.config) (commit_effect w input.state id (into_parts output).0).1
        (λ e. all) (λ done. (all, refl))

  by_ending :
      (P : Turned V → Type 0) (ending : ActivityEnd V) {f : EffectActivityOutput V → Turned V}
      {x y : Turned V}
      → ((output : EffectActivityOutput V) → P (f output))
      → P x
      → P y
      → P (elim ending as (λ _. Turned V) [
        | ActivityEnd.completed output ↦ f output
        | ActivityEnd.cancelled ↦ x
        | ActivityEnd.failed ↦ y
      ])
  by_ending P (ActivityEnd.completed output) c x y = c output
  by_ending P ActivityEnd.cancelled c x y = x
  by_ending P ActivityEnd.failed c x y = y

  abbrev pub started_for : TemporalWorkflowInput V → AgentRunEffect V → EffectActivity V
  started_for input effect = record {
    state = input.state;
    effect = effect;
    schedule_to_close_ms = effect_deadline input.state;
    max_attempts = min (activity_max_attempts input.config effect) 2;
  }

  execute_activity-Kept :
      (input : TemporalWorkflowInput V) (effect : AgentRunEffect V) (workflow : AgentiveWorkflow V)
      → IsDurable input.config (started_for input effect)
      → All (IsDurable input.config) workflow.activities
      → Kept input.config (execute_activity w worker input effect workflow)
  unfolding execute_activity update_snapshot
  execute_activity-Kept input effect workflow durable all =
      by_ending (Kept input.config) (worker.activity workflow.activities (started_for input effect))
        (λ output.
          commit_output-Kept input (effect_id effect) output
            (record workflow { activities = started_for input effect ∷ workflow.activities })
            (durable, all))
        (durable, all) (durable, all)

  started-IsDurable :
      (input : TemporalWorkflowInput V) (effect : AgentRunEffect V)
      → (finish_if_exhausted input.state).1 ≡ false
      → next_effect input.state ≡ some effect
      → validates_effect input.config effect ≡ ok tt
      → IsDurable input.config (started_for input effect)
  unfolding validates_effect
  started-IsDurable input effect live asked valid =
      let (least, (most, provider)) = attempts_bounded input.config effect in
      record {
        asked = asked;
        tools = validated_tools input.config.durable_idempotent_tools (tool_names effect) valid;
        at_least_once = least;
        at_most_twice = most;
        provider = provider;
        timely = λ deadline e. time_left input.state effect deadline live asked e;
      }

  checked-Kept :
      (input : TemporalWorkflowInput V) (effect : AgentRunEffect V) (workflow : AgentiveWorkflow V)
      (checked : Result TemporalRunConfigError (Unit {0}))
      → validates_effect input.config effect ≡ checked
      → (finish_if_exhausted input.state).1 ≡ false
      → next_effect input.state ≡ some effect
      → All (IsDurable input.config) workflow.activities
      → Kept input.config (turn_effect w worker input effect workflow)
  unfolding turn_effect
  checked-Kept input effect workflow (err e) v live asked all = rw v (
      by_test (Kept input.config)
        (leb input.config.continue_as_new_after_effects input.effects_in_execution) (all, refl) all)
  checked-Kept input effect workflow (ok done) v live asked all = rw v (
      by_test (Kept input.config)
        (leb input.config.continue_as_new_after_effects input.effects_in_execution) (all, refl)
        (execute_activity-Kept input effect workflow (started-IsDurable input effect live asked v)
          all))

  finish-Kept :
      (input : TemporalWorkflowInput V) (workflow : AgentiveWorkflow V)
      → All (IsDurable input.config) workflow.activities
      → Kept input.config (finish w worker input workflow)
  unfolding finish update_snapshot
  finish-Kept input workflow all = all

  live-Kept :
      (input : TemporalWorkflowInput V) (workflow : AgentiveWorkflow V)
      (found : Option (AgentRunEffect V))
      → (finish_if_exhausted input.state).1 ≡ false
      → next_effect (finish_if_exhausted input.state).0 ≡ found
      → All (IsDurable input.config) workflow.activities
      → Kept input.config (turn w worker input workflow)
  unfolding turn
  live-Kept input workflow none live asked all =
      rw (live, asked)
        (finish-Kept (record input { state = (finish_if_exhausted input.state).0 }) workflow all)
  live-Kept input workflow (some effect) live asked all =
      let still : (finish_if_exhausted (finish_if_exhausted input.state).0).1 ≡ false =
        rw (unended input.state live) live in
      rw (live, asked)
        (checked-Kept (record input { state = (finish_if_exhausted input.state).0 }) effect workflow
          _ refl still asked all)

  turn-Kept :
      (input : TemporalWorkflowInput V) (workflow : AgentiveWorkflow V) (exhausted : Bool)
      → (finish_if_exhausted input.state).1 ≡ exhausted
      → All (IsDurable input.config) workflow.activities
      → Kept input.config (turn w worker input workflow)
  unfolding turn
  turn-Kept input workflow true over all =
      rw over
        (finish-Kept (record input { state = (finish_if_exhausted input.state).0 }) workflow all)
  turn-Kept input workflow false live all = live-Kept input workflow _ live refl all

  -- What an execution, or a chain of them, leaves.
  abbrev Left : TemporalRunConfig → Option (WorkflowEnd V × AgentiveWorkflow V) → Type 0
  Left config none = Unit
  Left config (some (e, last)) = Kept config (Turned.stops e last)

  turned-Kept :
      (fuel : ℕ) (config : TemporalRunConfig) (input : TemporalWorkflowInput V)
      (workflow : AgentiveWorkflow V)
      → input.config ≡ config
      → All (IsDurable config) workflow.activities
      → Left config (turns w worker fuel input workflow)
  unfolding turns
  turned-Kept zero config input workflow same all = tt
  turned-Kept (suc fuel) config input workflow same all =
      on (turn w worker input workflow)
        (subst (λ c. Kept c (turn w worker input workflow)) same
          (turn-Kept input workflow _ refl
            (subst (λ c. All (IsDurable c) workflow.activities) (sym same) all)))
        (turned-Kept fuel config)
    where
      on :
          (turned : Turned V)
          → Kept config turned
          → ((later : TemporalWorkflowInput V) (after : AgentiveWorkflow V)
              → later.config ≡ config
              → All (IsDurable config) after.activities
              → Left config (turns w worker fuel later after))
          → Left config (elim turned as (λ _. Option (WorkflowEnd V × AgentiveWorkflow V)) [
            | Turned.stops e last ↦ some (e, last)
            | Turned.goes_on later after ↦ turns w worker fuel later after
          ])
      on (Turned.stops e last) kept more = kept
      on (Turned.goes_on later after) (all, same) more = more later after same all

  run-Kept :
      (fuel : ℕ) (input : TemporalWorkflowInput V) (before : List (EffectActivity V))
      → All (IsDurable input.config) before
      → Left input.config (run w worker fuel input before)
  unfolding run update_snapshot
  run-Kept fuel input before all =
      by_result (Left input.config) (validate input.config) (λ e. all)
        (λ done.
          by_test (Left input.config) worker.patched
            (turned-Kept fuel input.config input _ refl all) all)

  chain-Kept :
      (executions fuel : ℕ) (config : TemporalRunConfig) (input : TemporalWorkflowInput V)
      (before : List (EffectActivity V))
      → input.config ≡ config
      → All (IsDurable config) before
      → Left config (run_chain w worker executions fuel input before)
  unfolding run_chain
  chain-Kept zero fuel config input before same all = tt
  chain-Kept (suc executions) fuel config input before same all =
      on (run w worker fuel input before)
        (subst (λ c. Left c (run w worker fuel input before)) same
          (run-Kept fuel input before (subst (λ c. All (IsDurable c) before) (sym same) all)))
        (chain-Kept executions fuel config)
    where
      on :
          (ran : Option (WorkflowEnd V × AgentiveWorkflow V))
          → Left config ran
          → ((next : TemporalWorkflowInput V) (so_far : List (EffectActivity V))
              → next.config ≡ config
              → All (IsDurable config) so_far
              → Left config (run_chain w worker executions fuel next so_far))
          → Left config (elim ran as (λ _. Option (WorkflowEnd V × AgentiveWorkflow V)) [
            | none ↦ none
            | some (WorkflowEnd.continued next, last) ↦
                run_chain w worker executions fuel next last.activities
            | some (e, last) ↦ some (e, last)
          ])
      on none kept more = tt
      on (some (WorkflowEnd.continued next, last)) (all, same) more =
          more next last.activities same all
      on (some (WorkflowEnd.returned s, last)) kept more = kept
      on (some (WorkflowEnd.config_failure e, last)) kept more = kept
      on (some (WorkflowEnd.state_failure e, last)) kept more = kept
      on (some (WorkflowEnd.unsupported_history, last)) kept more = kept
      on (some (WorkflowEnd.activity_failure, last)) kept more = kept

  activities_of :
      (config : TemporalRunConfig) (e : WorkflowEnd V) (last : AgentiveWorkflow V)
      → Kept config (Turned.stops e last)
      → All (IsDurable config) last.activities
  activities_of config (WorkflowEnd.continued next) last (all, same) = all
  activities_of config (WorkflowEnd.returned s) last all = all
  activities_of config (WorkflowEnd.config_failure e) last all = all
  activities_of config (WorkflowEnd.state_failure e) last all = all
  activities_of config WorkflowEnd.unsupported_history last all = all
  activities_of config WorkflowEnd.activity_failure last all = all

  -- Every activity that a chain of executions starts is for the effect that its state asks for, and calls
  -- only tools that the policy declares durable; it is tried twice at most, and a provider call only once
  -- unless the provider is declared durable; and it is given exactly the time that the deadline leaves.
  pub activities-IsDurable :
      (executions fuel : ℕ) (input : TemporalWorkflowInput V) (e : WorkflowEnd V)
      (last : AgentiveWorkflow V)
      → run_chain w worker executions fuel input [] ≡ some (e, last)
      → All (IsDurable input.config) last.activities
  activities-IsDurable executions fuel input e last h =
      activities_of input.config e last
        (subst (Left input.config) h (chain-Kept executions fuel input.config input [] refl tt))
