-- ===== src/Driver/Sound.antt =====
-- crates/agentive/src/run/local.rs: what one round of the loop leads to.
use agentive.Base.{
  Text, ◌≡◌, refl, sym, ◌∙◌, subst, ap, ℕ, ◌≤◌, ◌⊎◌, inl, inr, Bool, true, false, List, [], ◌++◌,
  Option, none, some, Result, ok, err, u8_max, u32_max, arith, by_test, by_result, if◌then◌else◌,
}
use agentive.Errors.{RunError}
use agentive.State.Types.{RunStatus, AgentRunState, AgentRunEffect, AgentEffectOutcome}
use agentive.State.Effects.{
  Wire, is_live, cancel, next_effect, finish_if_exhausted, record_elapsed, is_exhausted,
}
use agentive.State.Commits.{commit_effect, effect_id}
use agentive.State.Termination.{Turn}
use agentive.State.Terminal.{progress, Progress, ended, asks, exhausted, no_effect}
use agentive.Agent.{Agent, RunOptions}
use agentive.Execution.{execute_effect}
use agentive.Execution.Fits.{IsBytePlan, Fits}
use agentive.Execution.Answered.{execute_effect-Returned, executed_accepted}
use agentive.Driver.{
  RunEvent, RunRecord, RunResult, Shared, Environment, Step, goes_on, returns, emit, announce,
  update_usage, emit_started, emit_completed, completed_result, finish_cancelled, finish_with_usage,
  result_from_state, record_round, is_provider_failure,
}
use agentive.Driver.Rounds.{
  check_settled, stop_on_error, after_commit, complete_round, perform_round, round,
}
use agentive.Driver.Moves.{
  Left, open_run, ran_out, finished, failed, committed-Left, committed-keeps,
}
use agentive.Driver.Announced.{
  announced, AreQuiet, announced-last, announced-quiet, emit_started-AreQuiet,
  emit_completed-AreQuiet,
}

-- How the status of a result and the one that the handle shows go together. They are the same, but
-- for two cases: a run that ended because a budget left no room for a call is still shown as
-- running, and one that was over when a cancellation or the deadline was noticed is shown as
-- cancelled.
pub data Agrees : RunStatus → RunStatus → Type 0 where
  same : {result shown : RunStatus} → result ≡ shown → Agrees result shown
  unannounced :
      {result shown : RunStatus}
      → result ≡ RunStatus.incomplete
      → shown ≡ RunStatus.running
      → Agrees result shown
  overridden :
      {result shown : RunStatus}
      → (result ≡ RunStatus.completed) ⊎ (result ≡ RunStatus.incomplete)
      → shown ≡ RunStatus.cancelled
      → Agrees result shown

module _ {V : Type 0} where
  -- The observers were last told the status that the handle shows.
  abbrev pub IsTold : Shared V → Type 0
  IsTold shared = announced shared.events ≡ some shared.status

  -- A run between two rounds: it has no final text, and is live or has run out of budget.
  pub record IsOpen (s : AgentRunState V) (shared : Shared V) : Type 0 where
    pub bytes : IsBytePlan s.plan
    pub width : s.budget.model_call_limit ≤ u32_max
    pub no_text : s.text ≡ none
    pub status : (is_live s.status ≡ true) ⊎ (s.status ≡ RunStatus.incomplete)
    pub shown : shared.status ≡ RunStatus.running
    pub told : IsTold shared

  abbrev pub Ending : Result RunError (RunResult V) → RunStatus → Type 0
  Ending (ok result) shown = Agrees result.status shown
  Ending (err e) shown = (shown ≡ RunStatus.failed) ⊎ (shown ≡ RunStatus.running)

  -- What a round of a run leads to: another round after one accepted completion, or a return.
  abbrev pub Sound : Wire V → AgentRunState V → Step V → Type 0
  Sound w s (goes_on t records shared) = Turn w s t × IsOpen t shared
  Sound w s (returns result shared) = Ending result shared.status × IsTold shared

  abbrev pub SoundRound : Wire V → AgentRunState V → Option (Step V) → Type 0
  SoundRound w s none = ⊥
  SoundRound w s (some step) = Sound w s step

  announce-IsTold : (shared : Shared V) (status : RunStatus) → IsTold (announce shared status)
  announce-IsTold shared status = announced-last shared.events status

  emit-IsTold :
      (shared : Shared V) (events : List (RunEvent V))
      → AreQuiet events
      → IsTold shared
      → IsTold (emit shared events)
  emit-IsTold shared events quiet told = announced-quiet shared.events events quiet ∙ told

  cancelled-Agrees :
      (s : AgentRunState V)
      → (is_live s.status ≡ true)
        ⊎ ((s.status ≡ RunStatus.completed) ⊎ (s.status ≡ RunStatus.incomplete))
      → Agrees (cancel s).status RunStatus.cancelled
  unfolding cancel
  cancelled-Agrees s (inl live) = same (ground arith)
  cancelled-Agrees s (inr over) = overridden (ground arith) refl

module _ {V : Type 0} (w : Wire V) (s : AgentRunState V) where
  finish_cancelled-Sound :
      (t : AgentRunState V) (records : List (RunRecord V)) (shared : Shared V)
      → (is_live t.status ≡ true)
        ⊎ ((t.status ≡ RunStatus.completed) ⊎ (t.status ≡ RunStatus.incomplete))
      → Sound w s (finish_cancelled t records shared)
  unfolding finish_cancelled result_from_state
  finish_cancelled-Sound t records shared status = (
    cancelled-Agrees t status,
    announce-IsTold (update_usage shared (cancel t).usage) RunStatus.cancelled,
  )

  stop_on_error-Sound :
      (e : RunError) (t : AgentRunState V) (records : List (RunRecord V)) (shared : Shared V)
      → is_live t.status ≡ true
      → Sound w s (stop_on_error w e t records shared)
  unfolding stop_on_error
  stop_on_error-Sound RunError.cancelled t records shared live =
      finish_cancelled-Sound t records shared (inl live)
  stop_on_error-Sound (RunError.config _) t records shared live =
      (inl refl, announce-IsTold shared RunStatus.failed)
  stop_on_error-Sound (RunError.duplicate_tool_name _) t records shared live =
      (inl refl, announce-IsTold shared RunStatus.failed)
  stop_on_error-Sound (RunError.context_limit _) t records shared live =
      (inl refl, announce-IsTold shared RunStatus.failed)
  stop_on_error-Sound (RunError.capability _) t records shared live =
      (inl refl, announce-IsTold shared RunStatus.failed)
  stop_on_error-Sound (RunError.provider_protocol _) t records shared live =
      (inl refl, announce-IsTold shared RunStatus.failed)
  stop_on_error-Sound (RunError.provider _) t records shared live =
      (inl refl, announce-IsTold shared RunStatus.failed)
  stop_on_error-Sound (RunError.model_call_limit _) t records shared live =
      (inl refl, announce-IsTold shared RunStatus.failed)
  stop_on_error-Sound (RunError.tool _) t records shared live =
      (inl refl, announce-IsTold shared RunStatus.failed)
  stop_on_error-Sound (RunError.structured_output _) t records shared live =
      (inl refl, announce-IsTold shared RunStatus.failed)

module _ {V : Type 0} (w : Wire V) (env : Environment V) (agent : Agent V) (options : RunOptions V)
    (s : AgentRunState V) where
  module _ (t : AgentRunState V) (turn : Turn w s t) (bytes : IsBytePlan t.plan)
      (width : t.budget.model_call_limit ≤ u32_max) (n : ℕ) (effect : AgentRunEffect V)
      (outcome : AgentEffectOutcome V) (records : List (RunRecord V)) (shared : Shared V)
      (shown : shared.status ≡ RunStatus.running) (told : IsTold shared) where
    abbrev committed : Shared V
    committed = update_usage shared t.usage

    -- The last step of a round, by the text of the run.
    abbrev by_text : Option Text → Step V
    by_text none = goes_on t records committed
    by_text (some text) =
        returns (ok (completed_result t text records))
          (update_usage (announce committed RunStatus.completed) t.usage)

    -- The steps after a commit that was not a provider's failure.
    abbrev checked : Step V
    checked = elim (check_settled w effect t) as (λ _. Step V) [
      | err e ↦ returns (err e) committed
      | ok _ ↦
          if is_exhausted options.deadline (env.run_ms n)
          then finish_cancelled t records committed
          else by_text t.text
    ]

    checked-Sound :
        (is_live t.status ≡ true)
          ⊎ ((t.status ≡ RunStatus.completed) ⊎ (t.status ≡ RunStatus.incomplete))
        → (text : Option Text) → t.text ≡ text
        → Sound w s (by_text text)
        → Sound w s checked
    checked-Sound status text e sound =
        by_result (Sound w s) (check_settled w effect t) (λ e. (inr shown, told))
          λ _.
            by_test (Sound w s) (is_exhausted options.deadline (env.run_ms n))
              (finish_cancelled-Sound w s t records committed status)
              (subst (λ o. Sound w s (by_text o)) (sym e) sound)

    stays-IsOpen :
        (is_live t.status ≡ true) ⊎ (t.status ≡ RunStatus.incomplete)
        → t.text ≡ none
        → IsOpen t committed
    stays-IsOpen status no_text = record {
      bytes = bytes;
      width = width;
      no_text = no_text;
      status = status;
      shown = shown;
      told = told;
    }

    after_commit-Sound :
        {failure : Bool}
        → is_provider_failure outcome ≡ failure
        → Left t failure
        → Sound w s (after_commit w env agent options n effect outcome t records shared)
    unfolding after_commit
    after_commit-Sound f (failed status) =
        rw (after_commit, f) (same status, announced-last shared.events RunStatus.failed)
    after_commit-Sound f (open_run live no_text) =
        rw (after_commit, f)
          (checked-Sound (inl live) none no_text (turn, stays-IsOpen (inl live) no_text))
    after_commit-Sound f (ran_out status no_text) =
        rw (after_commit, f)
          (checked-Sound (inr (inr status)) none no_text (turn, stays-IsOpen (inr status) no_text))
    after_commit-Sound f (finished text status some_text) =
        rw (after_commit, f)
          (checked-Sound (inr (inl status)) (some text) some_text
            (same refl, announced-last shared.events RunStatus.completed))

  -- Every outcome of the effect's kind can be recorded.
  recorded :
      (ms : ℕ) (effect : AgentRunEffect V) (outcome : AgentEffectOutcome V)
      → Fits effect outcome
      → (more : List (RunRecord V)) × (record_round ms effect outcome ≡ ok more)
  unfolding record_round
  recorded ms (AgentRunEffect.provider_call _ _ _ _) (AgentEffectOutcome.provider _ _) f = (_, refl)
  recorded ms (AgentRunEffect.provider_call _ _ _ _) (AgentEffectOutcome.provider_failed _ _) f =
      (_, refl)
  recorded ms (AgentRunEffect.provider_call _ _ _ _)
        (AgentEffectOutcome.provider_budget_exhausted _) f =
      ([], refl)
  recorded ms (AgentRunEffect.provider_call _ _ _ _) (AgentEffectOutcome.tool _ _ _) f = absurd f
  recorded ms (AgentRunEffect.provider_call _ _ _ _) (AgentEffectOutcome.tool_batch _) f = absurd f
  recorded ms (AgentRunEffect.tool_call _ _ _ _ _) outcome f = ([], refl)
  recorded ms (AgentRunEffect.tool_batch _ _) outcome f = ([], refl)

  module _ (shared : Shared V) (runs : IsOpen s shared) (n : ℕ) (records : List (RunRecord V))
      (quiet : AreQuiet (env.observed n)) where
    complete_round-Sound :
        (effect : AgentRunEffect V) (outcome : AgentEffectOutcome V) (now : Shared V)
        → next_effect s ≡ some effect
        → execute_effect w agent (env.boundary n) u8_max s effect ≡ some (ok outcome)
        → now.status ≡ RunStatus.running
        → IsTold now
        → Sound w s (complete_round w env agent options n effect outcome s records now)
    unfolding complete_round record_elapsed
    complete_round-Sound effect outcome now asked h shown told =
        let (fits, answered) =
          executed_accepted w agent (env.boundary n) u8_max s effect outcome (env.effect_ms n)
            runs.bytes (omega arith) asked h in
        let t : AgentRunState V =
          (commit_effect w (record_elapsed s (env.effect_ms n)) (effect_id effect) outcome).0 in
        let accepted : commit_effect w (record_elapsed s (env.effect_ms n)) (effect_id effect)
              outcome
            ≡ (t, ok tt) =
          ap (λ r. (t, r.1)) answered in
        let turn : Turn w s t = record {
          elapsed = env.effect_ms n;
          id = effect_id effect;
          outcome = outcome;
          accepted = accepted;
        } in
        let (plan, budget) = committed-keeps w _ t _ outcome accepted in
        let (more, r) = recorded (env.record_ms n) effect outcome fits in
        rw (complete_round, r, ap (λ r. r.1) answered)
          (after_commit-Sound t turn (subst IsBytePlan (sym plan) runs.bytes)
            (subst (λ b. b.model_call_limit ≤ u32_max) (sym budget) runs.width) n effect outcome
            (records ++ more) (emit now (emit_completed env effect outcome)) shown
            (emit-IsTold now (emit_completed env effect outcome)
              (emit_completed-AreQuiet env effect outcome) told)
            refl (committed-Left w _ t _ outcome runs.no_text accepted))

    perform_round-Sound :
        (effect : AgentRunEffect V)
        → next_effect s ≡ some effect
        → is_live s.status ≡ true
        → SoundRound w s (perform_round w env agent options n effect s records shared)
    unfolding perform_round
    perform_round-Sound effect asked live =
        let (result, h) =
          execute_effect-Returned w agent (env.boundary n) u8_max s effect runs.bytes (omega arith)
            asked in
        ended_with result h
      where
        now : Shared V
        now = emit (emit shared (emit_started effect)) (env.observed n)

        now-IsTold : IsTold now
        now-IsTold =
            emit-IsTold (emit shared (emit_started effect)) (env.observed n) quiet
              (emit-IsTold shared (emit_started effect) (emit_started-AreQuiet effect) runs.told)

        ended_with :
            (result : Result RunError (AgentEffectOutcome V))
            → execute_effect w agent (env.boundary n) u8_max s effect ≡ some result
            → SoundRound w s (perform_round w env agent options n effect s records shared)
        ended_with (err e) h = rw (perform_round, h) (stop_on_error-Sound w s e s records now live)
        ended_with (ok outcome) h =
            rw (perform_round, h)
              (complete_round-Sound effect outcome now asked h runs.shown now-IsTold)

    -- The rest of a round, by the effect that is asked for, and by what the budgets have left.
    abbrev by_effect : AgentRunState V → Option (AgentRunEffect V) → Option (Step V)
    by_effect t none = some (finish_with_usage t records shared)
    by_effect t (some effect) = perform_round w env agent options n effect t records shared

    abbrev by_budget : AgentRunState V × Bool → Option (Step V)
    by_budget (t, over) =
        if over
        then some (finish_with_usage t records (announce shared t.status))
        else by_effect t (next_effect t)

    kept : (t : AgentRunState V) → finish_if_exhausted s ≡ (t, false) → t ≡ s
    unfolding finish_if_exhausted
    kept t e = ground arith

    asked_live : (effect : AgentRunEffect V) → next_effect s ≡ some effect → is_live s.status ≡ true
    unfolding next_effect
    asked_live effect e = ground arith

    out_of_budget : is_live s.status ≡ false → s.status ≡ RunStatus.incomplete
    out_of_budget over = elim runs.status [ inl live ↦ absurd (ground arith) | inr status ↦ status ]

    within-Sound :
        finish_if_exhausted s ≡ (s, false)
        → Progress s
        → SoundRound w s (by_effect s (next_effect s))
    unfolding finish_with_usage result_from_state
    within-Sound e (ended over) =
        subst (λ o. SoundRound w s (by_effect s o)) (sym (no_effect s over))
          (unannounced (out_of_budget over) runs.shown, runs.told)
    within-Sound e (asks effect asked) =
        subst (λ o. SoundRound w s (by_effect s o)) (sym asked)
          (perform_round-Sound effect asked (asked_live effect asked))
    within-Sound e (exhausted out over) = absurd (ground arith)

    budget-Sound :
        (t : AgentRunState V) (over : Bool)
        → finish_if_exhausted s ≡ (t, over)
        → SoundRound w s (by_budget (t, over))
    unfolding finish_with_usage result_from_state
    budget-Sound t true e = (same refl, announced-last shared.events t.status)
    budget-Sound t false e =
        subst (λ u. SoundRound w s (by_effect u (next_effect u))) (sym (kept t e))
          (within-Sound (e ∙ ap (λ u. (u, false)) (kept t e)) (progress s))

    -- A round always leads somewhere, and to nothing unexpected.
    pub round-Sound : SoundRound w s (round w env agent options n s records shared)
    unfolding round
    round-Sound =
        by_test (SoundRound w s) (env.cancelled n)
          (finish_cancelled-Sound w s s records shared
            (elim runs.status [ inl live ↦ inl live | inr over ↦ inr (inr over) ]))
          (budget-Sound (finish_if_exhausted s).0 (finish_if_exhausted s).1 refl)
