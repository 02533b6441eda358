-- ===== src/State/Budget/Remains.antt =====
-- crates/agentive/src/state/effects.rs: completing tool calls, delegations among them, always leaves
-- the run a provider call to answer with.
use agentive.Base.{
  Text, ◌≡◌, refl, ℕ, ◌-◌, ◌<◌, Option, none, some, ok, false, length, u32_max, arith,
}
use agentive.State.Types.{AgentRunState, AgentEffectOutcome}
use agentive.State.Effects.{Wire, no_provider_budget, is_exhausted, calls_used}
use agentive.State.Commits.{commit_effect}
use agentive.State.Accepted.{tool_accepted, batch_accepted}
use agentive.State.Budget.{InBudget}
use agentive.State.Budget.Shares.{one_calls, one_tokens, batch_calls, batch_tokens}
use agentive.State.Budget.Preserved.{Takes, Settled-Takes, SettledAll-Takes}

-- An outcome of tool calls, single or as a batch.
abbrev pub IsToolOutcome : {V : Type 0} → AgentEffectOutcome V → Type 0
IsToolOutcome (AgentEffectOutcome.tool _ _ _) = Unit {0}
IsToolOutcome (AgentEffectOutcome.tool_batch _) = Unit {0}
IsToolOutcome _ = ⊥

module _ {V : Type 0} (w : Wire V) where
  -- The limits leave room, read off the test.
  room_left :
      (s : AgentRunState V)
      → no_provider_budget s ≡ false
      → (0 < s.budget.model_call_limit - calls_used s)
        × (is_exhausted s.plan.token_limit s.reserved_tokens ≡ false)
  unfolding no_provider_budget
  room_left s h = ground arith

  tokens_left :
      (s t : AgentRunState V) (calls tokens : ℕ) (limit : Option ℕ)
      → s.plan.token_limit ≡ limit
      → Takes w s t calls tokens
      → is_exhausted limit s.reserved_tokens ≡ false
      → ((bound : ℕ)
          → limit ≡ some bound
          → 0 < bound - s.reserved_tokens
          → tokens < bound - s.reserved_tokens)
      → is_exhausted limit t.reserved_tokens ≡ false
  tokens_left s t calls tokens none e k h f = refl
  tokens_left s t calls tokens (some limit) e k h f = ground (arith, f limit refl (ground arith))

  still_room :
      (s t : AgentRunState V) (calls tokens : ℕ)
      → Takes w s t calls tokens
      → InBudget s
      → no_provider_budget s ≡ false
      → (0 < s.budget.model_call_limit - calls_used s
          → calls < s.budget.model_call_limit - calls_used s)
      → ((bound : ℕ)
          → s.plan.token_limit ≡ some bound
          → 0 < bound - s.reserved_tokens
          → tokens < bound - s.reserved_tokens)
      → no_provider_budget t ≡ false
  unfolding no_provider_budget
  still_room s t calls tokens k b open' f g = ground (
    arith,
    room_left s open',
    tokens_left s t calls tokens s.plan.token_limit refl k (room_left s open').1 g,
  )

  -- If the budgets are not overdrawn and allow a provider call, they allow one after the
  -- completion of tool calls is accepted, however many of the calls delegate and whether they run
  -- alone or as a batch; fewer than `u32::MAX` calls may be pending.
  pub tools_leave_budget :
      (s t : AgentRunState V) (id : Text) (outcome : AgentEffectOutcome V)
      → IsToolOutcome outcome
      → length s.pending_tools < u32_max
      → InBudget s
      → no_provider_budget s ≡ false
      → commit_effect w s id outcome ≡ (t, ok tt)
      → no_provider_budget t ≡ false
  tools_leave_budget s t id (AgentEffectOutcome.provider _ _) o few b n h = elim o [ ]
  tools_leave_budget s t id (AgentEffectOutcome.provider_failed _ _) o few b n h = elim o [ ]
  tools_leave_budget s t id (AgentEffectOutcome.provider_budget_exhausted _) o few b n h =
      elim o [ ]
  tools_leave_budget s t id (AgentEffectOutcome.tool output attempts child) o few b n h =
      let (_, (call, rest, p, r)) = tool_accepted w s t id output attempts child h in
      still_room s t _ _ (Settled-Takes w s t call rest output _ r) b n
        (one_calls s call rest p few).1 (λ bound e. (one_tokens s bound call rest e p few).1)
  tools_leave_budget s t id (AgentEffectOutcome.tool_batch outputs) o few b n h =
      let (_, all) = batch_accepted w s t id outputs h in
      still_room s t _ _ (SettledAll-Takes w s t _ all) b n (batch_calls s outputs few).1
        (λ bound e. (batch_tokens s bound outputs e few).1)
