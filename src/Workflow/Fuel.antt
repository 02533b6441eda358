-- ===== src/Workflow/Fuel.antt =====
-- crates/temporal/src/runtime/workflow.rs: more fuel changes nothing of what a workflow has reached.
use agentive.Base.{
  ◌≡◌, refl, ap, sym, ◌∙◌, ℕ, zero, suc, Bool, true, false, List, Option, none, some, if◌then◌else◌,
  Result, ok, err, arith,
}
use agentive.State.Effects.{Wire}
use agentive.Workflow.{TemporalRunConfigError, validate, TemporalWorkflowInput}
use agentive.Workflow.Executions.{
  EffectActivity, WorkflowEnd, AgentiveWorkflow, Worker, Turned, turn, turns, run, run_chain,
}

abbrev pub is_continued : {V : Type 0} → WorkflowEnd V → Bool
is_continued (WorkflowEnd.continued next) = true
is_continued _ = false

module _ {V : Type 0} (w : Wire V) (worker : Worker V) where
  abbrev pub Ran : Type 0
  Ran = WorkflowEnd V × AgentiveWorkflow V

  -- How a chain goes on after one of its executions.
  abbrev pub follow : ℕ → ℕ → Option Ran → Option Ran
  follow executions fuel none = none
  follow executions fuel (some (WorkflowEnd.continued next, last)) =
      run_chain w worker executions fuel next last.activities
  follow executions fuel (some (WorkflowEnd.returned s, last)) = some (WorkflowEnd.returned s, last)
  follow executions fuel (some (WorkflowEnd.config_failure e, last)) =
      some (WorkflowEnd.config_failure e, last)
  follow executions fuel (some (WorkflowEnd.state_failure e, last)) =
      some (WorkflowEnd.state_failure e, last)
  follow executions fuel (some (WorkflowEnd.unsupported_history, last)) =
      some (WorkflowEnd.unsupported_history, last)
  follow executions fuel (some (WorkflowEnd.activity_failure, last)) =
      some (WorkflowEnd.activity_failure, last)

  pub follow-run :
      (executions fuel : ℕ) (input : TemporalWorkflowInput V) (before : List (EffectActivity V))
      → run_chain w worker (suc executions) fuel input before
        ≡ follow executions fuel (run w worker fuel input before)
  unfolding run_chain
  follow-run executions fuel input before = on (run w worker fuel input before)
    where
      on :
          (ran : Option Ran)
          → (elim ran as (λ _. Option Ran) [
            | none ↦ none
            | some (WorkflowEnd.continued next, last) ↦
                run_chain w worker executions fuel next last.activities
            | some (e, last) ↦ some (e, last)
          ])
            ≡ follow executions fuel ran
      on none = refl
      on (some (WorkflowEnd.continued next, last)) = refl
      on (some (WorkflowEnd.returned s, last)) = refl
      on (some (WorkflowEnd.config_failure e, last)) = refl
      on (some (WorkflowEnd.state_failure e, last)) = refl
      on (some (WorkflowEnd.unsupported_history, last)) = refl
      on (some (WorkflowEnd.activity_failure, last)) = refl

  -- More fuel does not change what has been reached.
  turns-more :
      (fuel : ℕ) (input : TemporalWorkflowInput V) (workflow : AgentiveWorkflow V) (r : Ran)
      → turns w worker fuel input workflow ≡ some r
      → turns w worker (suc fuel) input workflow ≡ some r
  unfolding turns
  turns-more zero input workflow r h = absurd (ground arith)
  turns-more (suc fuel) input workflow r h =
      on (turn w worker input workflow) refl (λ later after. turns-more fuel later after r)
    where
      on :
          (turned : Turned V)
          → turn w worker input workflow ≡ turned
          → ((later : TemporalWorkflowInput V) (after : AgentiveWorkflow V)
              → turns w worker fuel later after ≡ some r
              → turns w worker (suc fuel) later after ≡ some r)
          → turns w worker (suc (suc fuel)) input workflow ≡ some r
      on (Turned.stops e last) t more = rw (turns, t) (rw (turns, t) at h)
      on (Turned.goes_on later after) t more = rw (turns, t) (more later after (rw (turns, t) at h))

  begun :
      (checked : Result TemporalRunConfigError (Unit {0})) (patched : Bool)
      (fresh : AgentiveWorkflow V) (a b : Option Ran) (r : Ran)
      → (a ≡ some r → b ≡ some r)
      → (elim checked as (λ _. Option Ran) [
        | err e ↦ some (WorkflowEnd.config_failure e, fresh)
        | ok done ↦ if patched then a else some (WorkflowEnd.unsupported_history, fresh)
      ])
        ≡ some r
      → (elim checked as (λ _. Option Ran) [
        | err e ↦ some (WorkflowEnd.config_failure e, fresh)
        | ok done ↦ if patched then b else some (WorkflowEnd.unsupported_history, fresh)
      ])
        ≡ some r
  begun (err e) patched fresh a b r more h = h
  begun (ok done) true fresh a b r more h = more h
  begun (ok done) false fresh a b r more h = h

  run-more :
      (fuel : ℕ) (input : TemporalWorkflowInput V) (before : List (EffectActivity V)) (r : Ran)
      → run w worker fuel input before ≡ some r
      → run w worker (suc fuel) input before ≡ some r
  unfolding run
  run-more fuel input before r h =
      begun (validate input.config) worker.patched _ _ _ r (turns-more fuel input _ r) h

  pub follow-more :
      (executions fuel : ℕ) (ran : Option Ran) (r : Ran)
      → ((next : TemporalWorkflowInput V) (before : List (EffectActivity V))
          → run_chain w worker executions fuel next before ≡ some r
          → run_chain w worker executions (suc fuel) next before ≡ some r)
      → follow executions fuel ran ≡ some r
      → follow executions (suc fuel) ran ≡ some r
  follow-more executions fuel none r more h = h
  follow-more executions fuel (some (WorkflowEnd.continued next, last)) r more h =
      more next last.activities h
  follow-more executions fuel (some (WorkflowEnd.returned s, last)) r more h = h
  follow-more executions fuel (some (WorkflowEnd.config_failure e, last)) r more h = h
  follow-more executions fuel (some (WorkflowEnd.state_failure e, last)) r more h = h
  follow-more executions fuel (some (WorkflowEnd.unsupported_history, last)) r more h = h
  follow-more executions fuel (some (WorkflowEnd.activity_failure, last)) r more h = h

  first_of :
      (executions fuel : ℕ) (ran : Option Ran) (r : Ran)
      → follow executions fuel ran ≡ some r
      → (first : Ran) × (ran ≡ some first)
  first_of executions fuel none r h = absurd (ground arith)
  first_of executions fuel (some first) r h = (first, refl)

  pub chain-more :
      (executions fuel : ℕ) (r : Ran) (input : TemporalWorkflowInput V)
      (before : List (EffectActivity V))
      → run_chain w worker executions fuel input before ≡ some r
      → run_chain w worker executions (suc fuel) input before ≡ some r
  unfolding run_chain
  chain-more zero fuel r input before h = absurd (ground arith)
  chain-more (suc executions) fuel r input before h =
      let followed = sym (follow-run executions fuel input before) ∙ h in
      let (first, ran) = first_of executions fuel (run w worker fuel input before) r followed in
      follow-run executions (suc fuel) input before
      ∙ (ap (follow executions (suc fuel)) (run-more fuel input before first ran)
          ∙ follow-more executions fuel (some first) r (chain-more executions fuel r)
              (sym (ap (follow executions fuel) ran) ∙ followed))
