-- ===== src/Workflow/Restarts.antt =====
-- crates/temporal/src/runtime/workflow.rs: how an execution, and its continuation, reach their end.
use agentive.Base.{
  ◌≡◌, refl, ap, ◌∙◌, ℕ, zero, suc, ◌<◌, true, false, inl, inr, List, none, some, leb,
  if◌then◌else◌, ok, arith, Bool-cases,
}
use agentive.State.Types.{AgentRunState, AgentRunEffect}
use agentive.State.Effects.{Wire, next_effect, finish_if_exhausted, cancel}
use agentive.Workflow.{TemporalRunConfig, validate, activity_max_attempts, TemporalWorkflowInput}
use agentive.Workflow.Executions.{
  EffectActivity, WorkflowEnd, AgentiveWorkflow, Worker, Turned, update_snapshot, turn_effect, turn,
  turns, run,
}
use agentive.Workflow.Redelivery.{unended}
use agentive.Workflow.Fuel.{is_continued, Ran, follow, follow-run, follow-more, chain-more}

-- The policy with another threshold.
abbrev pub config_of : TemporalRunConfig → ℕ → TemporalRunConfig
config_of base threshold = record base { continue_as_new_after_effects = threshold }

module _ {V : Type 0} (w : Wire V) (worker : Worker V) (base : TemporalRunConfig)
    (patched : worker.patched ≡ true) (valid : validate base ≡ ok tt) where
  abbrev pub input_of : AgentRunState V → ℕ → ℕ → ℕ → TemporalWorkflowInput V
  input_of s committed threshold k = record {
    state = s;
    config = config_of base threshold;
    completed_effects = committed;
    effects_in_execution = k;
  }

  abbrev pub shown : AgentRunState V → ℕ → List (EffectActivity V) → AgentiveWorkflow V
  shown s committed activities = record {
    snapshot = some (record { state = s; cursor = committed });
    activities = activities;
  }

  valid_of : (threshold : ℕ) → 0 < threshold → validate (config_of base threshold) ≡ ok tt
  unfolding validate
  valid_of threshold positive = ground (arith, valid)

  pub record Ends (input : TemporalWorkflowInput V) (workflow : AgentiveWorkflow V)
      (r : Ran w worker) : Type 0 where
    pub fuel : ℕ
    pub executions : ℕ
    pub reached : follow w worker executions fuel (turns w worker fuel input workflow) ≡ some r

  -- The end is the same, whatever the threshold and the effects so far in the execution.
  pub record Settled (s : AgentRunState V) (committed : ℕ) (activities : List (EffectActivity V))
      : Type 0 where
    pub r : Ran w worker
    pub final : is_continued r.0 ≡ false
    pub alike :
        (threshold k : ℕ)
        → 0 < threshold
        → Ends (input_of s committed threshold k) (shown s committed activities) r

  follow-final :
      (executions fuel : ℕ) (r : Ran w worker)
      → is_continued r.0 ≡ false
      → follow w worker executions fuel (some r) ≡ some r
  follow-final executions fuel (WorkflowEnd.continued next, last) h = absurd (ground arith)
  follow-final executions fuel (WorkflowEnd.returned s, last) h = refl
  follow-final executions fuel (WorkflowEnd.config_failure e, last) h = refl
  follow-final executions fuel (WorkflowEnd.state_failure e, last) h = refl
  follow-final executions fuel (WorkflowEnd.unsupported_history, last) h = refl
  follow-final executions fuel (WorkflowEnd.activity_failure, last) h = refl

  pub stopped :
      (input : TemporalWorkflowInput V) (workflow : AgentiveWorkflow V) (r : Ran w worker)
      → is_continued r.0 ≡ false
      → turn w worker input workflow ≡ Turned.stops r.0 r.1
      → Ends input workflow r
  unfolding turns
  stopped input workflow r final t = record {
    fuel = 1;
    executions = 0;
    reached = rw (turns, t) (follow-final 0 1 r final);
  }

  pub went_on :
      (input later : TemporalWorkflowInput V) (workflow after : AgentiveWorkflow V)
      (r : Ran w worker)
      → turn w worker input workflow ≡ Turned.goes_on later after
      → Ends later after r
      → Ends input workflow r
  unfolding turns
  went_on input later workflow after r t more = record {
    fuel = suc more.fuel;
    executions = more.executions;
    reached =
        rw (turns, t)
          (follow-more w worker more.executions more.fuel (turns w worker more.fuel later after) r
            (chain-more w worker more.executions more.fuel r) more.reached);
  }

  pub begins :
      (s : AgentRunState V) (committed : ℕ) (activities : List (EffectActivity V))
      (threshold fuel : ℕ)
      → 0 < threshold
      → run w worker fuel (input_of s committed threshold 0) activities
        ≡ turns w worker fuel (input_of s committed threshold 0) (shown s committed activities)
  unfolding run update_snapshot
  begins s committed activities threshold fuel positive =
      rw (run, valid_of threshold positive)
        (ap
          (λ present.
            if present
            then turns w worker fuel (input_of s committed threshold 0)
                (shown s committed activities)
            else some (
              WorkflowEnd.unsupported_history,
              record { snapshot = none; activities = activities },
            ))
          patched)

  -- A continuation reaches what the execution would reach that has not yet completed an effect.
  resumed :
      (s : AgentRunState V) (committed : ℕ) (activities : List (EffectActivity V)) (threshold k : ℕ)
      (r : Ran w worker) (fuel executions : ℕ)
      → 0 < threshold
      → turn w worker (input_of s committed threshold k) (shown s committed activities)
        ≡ Turned.stops
            (WorkflowEnd.continued (input_of s committed threshold 0))
            (shown s committed activities)
      → follow w worker executions fuel
          (turns w worker fuel (input_of s committed threshold 0) (shown s committed activities))
        ≡ some r
      → Ends (input_of s committed threshold k) (shown s committed activities) r
  unfolding turns
  resumed s committed activities threshold k r zero executions positive t h = absurd (ground arith)
  resumed s committed activities threshold k r (suc fuel) executions positive t h = record {
    fuel = suc fuel;
    executions = suc executions;
    reached =
        rw (turns, t)
          (follow-run w worker executions (suc fuel) (input_of s committed threshold 0) activities
            ∙ (ap (follow w worker executions (suc fuel))
                  (begins s committed activities threshold (suc fuel) positive)
                ∙ h));
  }

  -- A run that asks for an effect is alike, if it is so while its execution is not over.
  pub alike_asking :
      (s : AgentRunState V) (committed : ℕ) (activities : List (EffectActivity V))
      (r : Ran w worker)
      → ((threshold k : ℕ)
          → leb threshold k ≡ true
          → turn w worker (input_of s committed threshold k) (shown s committed activities)
            ≡ Turned.stops
                (WorkflowEnd.continued (input_of s committed threshold 0))
                (shown s committed activities))
      → ((threshold k : ℕ)
          → 0 < threshold
          → leb threshold k ≡ false
          → Ends (input_of s committed threshold k) (shown s committed activities) r)
      → (threshold k : ℕ) → 0 < threshold
      → Ends (input_of s committed threshold k) (shown s committed activities) r
  alike_asking s committed activities r pauses proceeds threshold k positive =
      elim (Bool-cases (leb threshold k)) [
        | inr early ↦ proceeds threshold k positive early
        | inl over ↦
            let first = proceeds threshold 0 positive (ground arith) in
            resumed s committed activities threshold k r first.fuel first.executions positive
              (pauses threshold k over) first.reached
      ]

  pub asking_turn :
      (s : AgentRunState V) (effect : AgentRunEffect V) (committed threshold k : ℕ)
      (workflow : AgentiveWorkflow V)
      → (finish_if_exhausted s).1 ≡ false
      → next_effect s ≡ some effect
      → turn w worker (input_of s committed threshold k) workflow
        ≡ turn_effect w worker (input_of s committed threshold k) effect workflow
  unfolding turn
  asking_turn s effect committed threshold k workflow live asked =
      let still : next_effect (finish_if_exhausted s).0 ≡ some effect = rw (unended s live) asked in
      rw (live, still)
        (ap (λ u. turn_effect w worker (input_of u committed threshold k) effect workflow)
          (unended s live))

  pub attempts_same :
      (threshold : ℕ) (effect : AgentRunEffect V)
      → activity_max_attempts (config_of base threshold) effect ≡ activity_max_attempts base effect
  unfolding activity_max_attempts
  attempts_same threshold (AgentRunEffect.provider_call _ _ _ _) = refl
  attempts_same threshold (AgentRunEffect.tool_call _ _ _ _ _) = refl
  attempts_same threshold (AgentRunEffect.tool_batch _ _) = refl

  pub ended_asks_nothing :
      (s : AgentRunState V)
      → (finish_if_exhausted s).1 ≡ true
      → ((finish_if_exhausted (finish_if_exhausted s).0).1 ≡ false)
        × (next_effect (finish_if_exhausted s).0 ≡ none)
  unfolding finish_if_exhausted next_effect cancel
  ended_asks_nothing s over = ground arith
