-- ===== src/Workflow/Continued.antt =====
-- crates/temporal/src/runtime/workflow.rs: where a run is continued as a new execution does not matter.
use mathlib.Core.WellFounded.{Acc}
use agentive.Base.{
  Text, ◌≡◌, refl, ap, sym, ◌∙◌, subst, ℕ, suc, ◌<◌, ◌≤◌, min, true, false, ◌⊎◌, inl, inr, List, [],
  ◌∷◌, Option, none, some, leb, sat_add, u32_max, u64_max, Result, ok, err, Bool-cases,
}
use agentive.State.Types.{AgentRunState, AgentRunEffect, StateTransitionError}
use agentive.State.Effects.{Wire, next_effect, finish_if_exhausted, record_elapsed, cancel}
use agentive.State.Commits.{commit_effect, effect_id}
use agentive.State.Elapsed.{commit_effect-record_elapsed}
use agentive.State.Termination.{Turn, After, run_ends}
use agentive.Workflow.{
  TemporalRunConfig, TemporalRunConfigError, validate, activity_max_attempts, validates_effect,
  new_input, EffectActivityOutput, into_parts,
}
use agentive.Workflow.Executions.{
  EffectActivity, ActivityEnd, WorkflowEnd, AgentiveWorkflow, Worker, Turned, effect_deadline,
  update_snapshot, commit_output, execute_activity, finish, turn_effect, turn, run_chain,
}
use agentive.Workflow.Redelivery.{unended}
use agentive.Workflow.Restarts.{
  config_of, input_of, shown, Ends, Settled, stopped, went_on, begins, alike_asking, asking_turn,
  attempts_same, ended_asks_nothing,
}
use agentive.Workflow.Fuel.{is_continued, Ran, follow, follow-run}

module _ {V : Type 0} (w : Wire V) (worker : Worker V) (base : TemporalRunConfig)
    (patched : worker.patched ≡ true) (valid : validate base ≡ ok tt) where
  module _ (s : AgentRunState V) (committed : ℕ) (activities : List (EffectActivity V))
      (effect : AgentRunEffect V) (live : (finish_if_exhausted s).1 ≡ false)
      (asked : next_effect s ≡ some effect) where
    abbrev started : EffectActivity V
    started = record {
      state = s;
      effect = effect;
      schedule_to_close_ms = effect_deadline s;
      max_attempts = min (activity_max_attempts base effect) 2;
    }

    pauses :
        (threshold k : ℕ)
        → leb threshold k ≡ true
        → turn w worker
            (input_of w worker base patched valid s committed threshold k)
            (shown w worker base patched valid s committed activities)
          ≡ Turned.stops
              (WorkflowEnd.continued (input_of w worker base patched valid s committed threshold 0))
              (shown w worker base patched valid s committed activities)
    unfolding turn_effect
    pauses threshold k over =
        asking_turn w worker base patched valid s effect committed threshold k
          (shown w worker base patched valid s committed activities) live asked
        ∙ rw (turn_effect, over) refl

    -- Before the execution is over, the turn executes the effect, if the policy allows it.
    refused :
        (e : TemporalRunConfigError) (threshold k : ℕ)
        → validates_effect base effect ≡ err e
        → leb threshold k ≡ false
        → turn w worker
            (input_of w worker base patched valid s committed threshold k)
            (shown w worker base patched valid s committed activities)
          ≡ Turned.stops
              (WorkflowEnd.config_failure e)
              (shown w worker base patched valid s committed activities)
    unfolding turn_effect validates_effect
    refused e threshold k v early =
        asking_turn w worker base patched valid s effect committed threshold k
          (shown w worker base patched valid s committed activities) live asked
        ∙ rw (turn_effect, early, v) refl

    executed :
        (threshold k : ℕ)
        → validates_effect base effect ≡ ok tt
        → leb threshold k ≡ false
        → turn w worker
            (input_of w worker base patched valid s committed threshold k)
            (shown w worker base patched valid s committed activities)
          ≡ execute_activity w worker
              (input_of w worker base patched valid s committed threshold k)
              effect
              (shown w worker base patched valid s committed activities)
    unfolding turn_effect validates_effect
    executed threshold k v early =
        asking_turn w worker base patched valid s effect committed threshold k
          (shown w worker base patched valid s committed activities) live asked
        ∙ rw (turn_effect, early, v) refl

    abbrev with_started : AgentiveWorkflow V
    with_started = record {
      snapshot = some (record { state = s; cursor = committed });
      activities = started ∷ activities;
    }

    was_cancelled :
        (threshold k : ℕ)
        → worker.activity activities started ≡ ActivityEnd.cancelled
        → execute_activity w worker
            (input_of w worker base patched valid s committed threshold k)
            effect
            (shown w worker base patched valid s committed activities)
          ≡ Turned.stops
              (WorkflowEnd.returned (cancel s))
              (shown w worker base patched valid (cancel s) committed (started ∷ activities))
    unfolding execute_activity update_snapshot
    was_cancelled threshold k e =
        rw (execute_activity, attempts_same w worker base patched valid threshold effect, e) refl

    was_failed :
        (threshold k : ℕ)
        → worker.activity activities started ≡ ActivityEnd.failed
        → execute_activity w worker
            (input_of w worker base patched valid s committed threshold k)
            effect
            (shown w worker base patched valid s committed activities)
          ≡ Turned.stops WorkflowEnd.activity_failure with_started
    unfolding execute_activity
    was_failed threshold k e =
        rw (execute_activity, attempts_same w worker base patched valid threshold effect, e) refl

    was_completed :
        (output : EffectActivityOutput V) (threshold k : ℕ)
        → worker.activity activities started ≡ ActivityEnd.completed output
        → execute_activity w worker
            (input_of w worker base patched valid s committed threshold k)
            effect
            (shown w worker base patched valid s committed activities)
          ≡ commit_output w worker
              (input_of w worker base patched valid s committed threshold k)
              (effect_id effect)
              output
              with_started
    unfolding execute_activity
    was_completed output threshold k e =
        rw (execute_activity, attempts_same w worker base patched valid threshold effect, e) refl

    was_rejected :
        (output : EffectActivityOutput V) (threshold k : ℕ) (e : StateTransitionError)
        → (commit_effect w s (effect_id effect) (into_parts output).0).1 ≡ err e
        → commit_output w worker
            (input_of w worker base patched valid s committed threshold k)
            (effect_id effect)
            output
            with_started
          ≡ Turned.stops (WorkflowEnd.state_failure e) with_started
    unfolding commit_output
    was_rejected output threshold k e c = rw (commit_output, c) refl

    abbrev after : EffectActivityOutput V → AgentRunState V
    after output =
        record_elapsed (commit_effect w s (effect_id effect) (into_parts output).0).0
          (into_parts output).1

    was_committed :
        (output : EffectActivityOutput V) (threshold k : ℕ)
        → (commit_effect w s (effect_id effect) (into_parts output).0).1 ≡ ok tt
        → commit_output w worker
            (input_of w worker base patched valid s committed threshold k)
            (effect_id effect)
            output
            with_started
          ≡ Turned.goes_on
              (input_of w worker base patched valid
                (finish_if_exhausted (after output)).0
                (sat_add u64_max committed 1)
                threshold
                (sat_add u32_max k 1))
              (shown w worker base patched valid
                (finish_if_exhausted (after output)).0
                (sat_add u64_max committed 1)
                (started ∷ activities))
    unfolding commit_output update_snapshot
    was_committed output threshold k c = rw (commit_output, c) refl

    -- What is settled after an effect is settled before it.
    asked_Settled :
        ((output : EffectActivityOutput V)
          → (commit_effect w s (effect_id effect) (into_parts output).0).1 ≡ ok tt
          → Settled w worker base patched valid
              (finish_if_exhausted (after output)).0
              (sat_add u64_max committed 1)
              (started ∷ activities))
        → Settled w worker base patched valid s committed activities
    asked_Settled more = checked (validates_effect base effect) refl
      where
        stops_with :
            (r : Ran w worker)
            → is_continued r.0 ≡ false
            → ((threshold k : ℕ)
                → leb threshold k ≡ false
                → turn w worker
                    (input_of w worker base patched valid s committed threshold k)
                    (shown w worker base patched valid s committed activities)
                  ≡ Turned.stops r.0 r.1)
            → Settled w worker base patched valid s committed activities
        stops_with r final t = record {
          r = r;
          final = final;
          alike =
              alike_asking w worker base patched valid s committed activities r pauses
                (λ threshold k positive early.
                  stopped w worker base patched valid _ _ r final (t threshold k early));
        }

        committed_or_not :
            (output : EffectActivityOutput V) (result : Result StateTransitionError (Unit {0}))
            → validates_effect base effect ≡ ok tt
            → worker.activity activities started ≡ ActivityEnd.completed output
            → (commit_effect w s (effect_id effect) (into_parts output).0).1 ≡ result
            → Settled w worker base patched valid s committed activities
        committed_or_not output (err e) v a c =
            stops_with (WorkflowEnd.state_failure e, with_started) refl
              (λ threshold k early.
                executed threshold k v early
                ∙ (was_completed output threshold k a ∙ was_rejected output threshold k e c))
        committed_or_not output (ok done) v a c =
            let next = more output c in
            record {
              r = next.r;
              final = next.final;
              alike =
                  alike_asking w worker base patched valid s committed activities next.r pauses
                    (λ threshold k positive early.
                      went_on w worker base patched valid _ _ _ _ next.r
                        (executed threshold k v early
                          ∙ (was_completed output threshold k a
                              ∙ was_committed output threshold k c))
                        (next.alike threshold (sat_add u32_max k 1) positive));
            }

        ended :
            (ending : ActivityEnd V)
            → validates_effect base effect ≡ ok tt
            → worker.activity activities started ≡ ending
            → Settled w worker base patched valid s committed activities
        ended (ActivityEnd.completed output) v a = committed_or_not output _ v a refl
        ended ActivityEnd.cancelled v a =
            stops_with
              (
                WorkflowEnd.returned (cancel s),
                shown w worker base patched valid (cancel s) committed (started ∷ activities),
              )
              refl (λ threshold k early. executed threshold k v early ∙ was_cancelled threshold k a)
        ended ActivityEnd.failed v a =
            stops_with (WorkflowEnd.activity_failure, with_started) refl
              (λ threshold k early. executed threshold k v early ∙ was_failed threshold k a)

        checked :
            (result : Result TemporalRunConfigError (Unit {0}))
            → validates_effect base effect ≡ result
            → Settled w worker base patched valid s committed activities
        checked (err e) v =
            stops_with
              (
                WorkflowEnd.config_failure e,
                shown w worker base patched valid s committed activities,
              )
              refl (λ threshold k early. refused e threshold k v early)
        checked (ok done) v = ended _ v refl

  -- A run that asks for nothing is returned at once.
  finished :
      (s : AgentRunState V) (committed : ℕ) (activities : List (EffectActivity V))
      → ((threshold k : ℕ)
          → turn w worker
              (input_of w worker base patched valid s committed threshold k)
              (shown w worker base patched valid s committed activities)
            ≡ finish w worker
                (record (input_of w worker base patched valid s committed threshold k) {
                  state = (finish_if_exhausted s).0;
                })
                (shown w worker base patched valid s committed activities))
      → Settled w worker base patched valid s committed activities
  unfolding finish update_snapshot
  finished s committed activities t =
      let last = (finish_if_exhausted (finish_if_exhausted s).0).0 in
      let r : Ran w worker =
        (WorkflowEnd.returned last, shown w worker base patched valid last committed activities) in
      record {
        r = r;
        final = refl;
        alike =
            λ threshold k positive. stopped w worker base patched valid _ _ r refl (t threshold k);
      }

  over_Settled :
      (s : AgentRunState V) (committed : ℕ) (activities : List (EffectActivity V))
      → (finish_if_exhausted s).1 ≡ true
      → Settled w worker base patched valid s committed activities
  unfolding turn
  over_Settled s committed activities over =
      finished s committed activities (λ threshold k. rw over refl)

  silent_Settled :
      (s : AgentRunState V) (committed : ℕ) (activities : List (EffectActivity V))
      → (finish_if_exhausted s).1 ≡ false
      → next_effect s ≡ none
      → Settled w worker base patched valid s committed activities
  unfolding turn
  silent_Settled s committed activities live asked =
      let still : next_effect (finish_if_exhausted s).0 ≡ none = rw (unended s live) asked in
      finished s committed activities (λ threshold k. rw (live, still) refl)

  accepted_Turn :
      (s : AgentRunState V) (id : Text) (output : EffectActivityOutput V)
      → (commit_effect w s id (into_parts output).0).1 ≡ ok tt
      → Turn w s
          (record_elapsed (commit_effect w s id (into_parts output).0).0 (into_parts output).1)
  accepted_Turn s id output c = record {
    elapsed = (into_parts output).1;
    id = id;
    outcome = (into_parts output).0;
    accepted =
        commit_effect-record_elapsed w (into_parts output).1 s id (into_parts output).0 ∙ (λ i. (
          record_elapsed (commit_effect w s id (into_parts output).0).0 (into_parts output).1,
          c i,
        ));
  }

  settled :
      (s : AgentRunState V) (committed : ℕ) (activities : List (EffectActivity V))
      → Acc (After w) s
      → Settled w worker base patched valid s committed activities
  settled s committed activities (Acc.intro _ later) = elim (Bool-cases (finish_if_exhausted s).1) [
    | inl over ↦ over_Settled s committed activities over
    | inr live ↦
        asks (next_effect s) live refl
          (λ t committed activities turn. settled t committed activities (later t turn))
  ]
    where
      asks :
          (found : Option (AgentRunEffect V))
          → (finish_if_exhausted s).1 ≡ false
          → next_effect s ≡ found
          → ((t : AgentRunState V) (committed : ℕ) (activities : List (EffectActivity V))
              → Turn w s t
              → Settled w worker base patched valid t committed activities)
          → Settled w worker base patched valid s committed activities
      asks none live asked rest = silent_Settled s committed activities live asked
      asks (some effect) live asked rest =
          asked_Settled s committed activities effect live asked (λ output c.
            next_Settled _ _ _ (Bool-cases _)
              (rest _ _ _ (accepted_Turn s (effect_id effect) output c)))
        where
          next_Settled :
              (t : AgentRunState V) (committed : ℕ) (activities : List (EffectActivity V))
              → ((finish_if_exhausted t).1 ≡ true) ⊎ ((finish_if_exhausted t).1 ≡ false)
              → Settled w worker base patched valid t committed activities
              → Settled w worker base patched valid (finish_if_exhausted t).0 committed activities
          next_Settled t committed activities (inl over) more =
              let (calm, silent) = ended_asks_nothing w worker base patched valid t over in
              silent_Settled _ committed activities calm silent
          next_Settled t committed activities (inr live) more =
              subst (λ u. Settled w worker base patched valid u committed activities)
                (sym (unended t live)) more

  -- How two chains of executions, with two thresholds, end from the same state.
  pub record EndsAlike (s : AgentRunState V) (first second : ℕ) : Type 0 where
    pub r : Ran w worker
    pub final : is_continued r.0 ≡ false
    pub executions : ℕ
    pub fuel : ℕ
    pub ended : run_chain w worker executions fuel (new_input s (config_of base first)) [] ≡ some r
    pub other_executions : ℕ
    pub other_fuel : ℕ
    pub other_ended :
        run_chain w worker other_executions other_fuel (new_input s (config_of base second)) []
        ≡ some r

  chained :
      (s : AgentRunState V) (threshold : ℕ) (r : Ran w worker)
      → 0 < threshold
      → (first : Ends w worker base patched valid
          (input_of w worker base patched valid s 0 threshold 0)
          (shown w worker base patched valid s 0 [])
          r)
      → run_chain w worker
          (suc first.executions)
          first.fuel
          (new_input s (config_of base threshold))
          []
        ≡ some r
  unfolding new_input
  chained s threshold r positive first =
      follow-run w worker first.executions first.fuel
        (input_of w worker base patched valid s 0 threshold 0) []
      ∙ (ap (follow w worker first.executions first.fuel)
            (begins w worker base patched valid s 0 [] threshold first.fuel positive)
          ∙ first.reached)

  -- A durable run ends, and where it is continued as a new execution does not matter: for any two
  -- thresholds but zero, chains of executions from the same state both end, in the same way, with the
  -- same state and snapshot and after the same activities. What an activity answers may depend on those
  -- that were started before it; the policy must be valid, the history have the marker of this version
  -- and the model-call limit be a `u32`.
  pub run_chain-alike :
      (s : AgentRunState V) (first second : ℕ)
      → s.budget.model_call_limit ≤ u32_max
      → 0 < first
      → 0 < second
      → EndsAlike s first second
  run_chain-alike s first second width positive positive' =
      let all = settled s 0 [] (run_ends w s width) in
      let one = all.alike first 0 positive in
      let other = all.alike second 0 positive' in
      record {
        r = all.r;
        final = all.final;
        executions = suc one.executions;
        fuel = one.fuel;
        ended = chained s first all.r positive one;
        other_executions = suc other.executions;
        other_fuel = other.fuel;
        other_ended = chained s second all.r positive' other;
      }
