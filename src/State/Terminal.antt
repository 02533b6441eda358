-- ===== src/State/Terminal.antt =====
-- crates/agentive/src/state: a terminal run never moves again, and a live one is never stuck.
use agentive.Base.{
  Text, ◌≡◌, refl, inl, inr, Bool-cases, true, false, Option, none, some, List, [], ◌∷◌, err, arith,
}
use agentive.Model.{ModelToolCall}
use agentive.State.Types.{AgentRunState, AgentRunEffect, AgentEffectOutcome, unexpected_effect}
use agentive.State.Effects.{Wire, is_live, next_effect, pending_effect, cancel, finish_if_exhausted}
use agentive.State.Commits.{commit_effect, fail}
use agentive.State.Atomic.{Answers, commit_effect_atomic}

module _ {V : Type 0} where
  pub no_effect : (s : AgentRunState V) → is_live s.status ≡ false → next_effect s ≡ none
  unfolding next_effect
  no_effect s h = ground arith

  not_answered :
      (s : AgentRunState V) (id : Text) (outcome : AgentEffectOutcome V)
      → is_live s.status ≡ false
      → ¬ Answers s id outcome
  not_answered s id (AgentEffectOutcome.provider _ _) h a = ground (arith, a.live)
  not_answered s id (AgentEffectOutcome.provider_failed _ _) h a = ground (arith, a.live)
  not_answered s id (AgentEffectOutcome.provider_budget_exhausted _) h a = ground (arith, a.live)
  not_answered s id (AgentEffectOutcome.tool _ _ _) h a = ground (arith, a.live)
  not_answered s id (AgentEffectOutcome.tool_batch _) h a = ground (arith, a.live)

  -- In a terminal status a run asks for no effect, refuses every completion and stays as it is under
  -- it, and cancelling it, failing it or looking for exhausted budgets changes nothing.
  pub terminal_absorbing :
      (w : Wire V) (s : AgentRunState V) (id message : Text) (outcome : AgentEffectOutcome V)
      → is_live s.status ≡ false
      → (next_effect s ≡ none)
        × (commit_effect w s id outcome ≡ (s, err (unexpected_effect id none)))
        × (cancel s ≡ s)
        × (fail s message ≡ s)
        × (finish_if_exhausted s ≡ (s, false))
  unfolding cancel fail finish_if_exhausted
  terminal_absorbing w s id message outcome h = (
    no_effect s h,
    elim (commit_effect_atomic w s id outcome) [
      | inl (a, _) ↦ absurd (not_answered s id outcome h a)
      | inr (_, e) ↦ ground (arith, e, no_effect s h)
    ],
    ground arith,
    ground arith,
    ground arith,
  )

  -- What may be done with a run: nothing, for it has ended; an effect; or to end it, for a budget is
  -- exhausted.
  pub data Progress (s : AgentRunState V) : Type 0 where
    ended : is_live s.status ≡ false → Progress s
    asks : (effect : AgentRunEffect V) → next_effect s ≡ some effect → Progress s
    exhausted :
        (finish_if_exhausted s).1 ≡ true
        → is_live (finish_if_exhausted s).0.status ≡ false
        → Progress s

  Progress-at :
      (s : AgentRunState V) (pending : List (ModelToolCall V)) (effect : Option (AgentRunEffect V))
      → s.pending_tools ≡ pending
      → is_live s.status ≡ true
      → next_effect s ≡ effect
      → Progress s
  unfolding next_effect pending_effect finish_if_exhausted cancel
  Progress-at s pending (some effect) e h n = asks effect n
  Progress-at s [] none e h n = exhausted (ground arith) (ground arith)
  Progress-at s (c ∷ cs) none e h n = absurd (ground arith)

  -- A run is never stuck: unless it has ended, it asks for an effect, or `finish_if_exhausted` ends it.
  pub progress : (s : AgentRunState V) → Progress s
  progress s = elim (Bool-cases (is_live s.status)) [
    | inl live ↦ Progress-at s s.pending_tools (next_effect s) refl live refl
    | inr over ↦ ended over
  ]
