-- ===== src/State/Budget.antt =====
-- crates/agentive/src/state: the model-call and token budgets of a run and of its children.
pub mod Shares
pub mod Preserved
pub mod Remains
use agentive.Base.{ℕ, ◌+◌, ◌≤◌, ◌<◌, max, Option, none, some, List, length, u32_max, u64_max}
use agentive.State.Types.{AgentRunState, AgentEffectOutcome, ProviderAttempt}
use agentive.State.Effects.{Wire}
use agentive.State.Commits.{provider_call_count, attempt_reservation}

-- A token budget of a width that `u64` has, of which `used` is spent or given away.
abbrev pub WithinTokens : Option ℕ → ℕ → Type 0
WithinTokens none used = Unit {0}
WithinTokens (some limit) used = (used ≤ limit) × (limit ≤ u64_max)

-- The budgets are not overdrawn: provider calls started by the run and those given to children fit
-- the limit, and so do reserved tokens.
pub record InBudget {V : Type 0} (s : AgentRunState V) : Type 0 where
  pub calls :
      max s.provider_calls_started s.model_calls + s.reserved_child_model_calls
      ≤ s.budget.model_call_limit
  pub width : s.budget.model_call_limit ≤ u32_max
  pub tokens : WithinTokens s.plan.token_limit s.reserved_tokens

-- What a provider effect used fits what was left.
pub record Affordable {V : Type 0} (w : Wire V) (s : AgentRunState V)
    (attempts : List ProviderAttempt) : Type 0 where
  pub calls :
      max s.provider_calls_started s.model_calls
        + s.reserved_child_model_calls
        + provider_call_count attempts
      ≤ s.budget.model_call_limit
  pub tokens :
      WithinTokens s.plan.token_limit (s.reserved_tokens + attempt_reservation w s attempts)

-- What the runtime guarantees of an outcome before it is committed; children's reservations are the
-- state machine's own.
abbrev pub IsAffordable : {V : Type 0} → Wire V → AgentRunState V → AgentEffectOutcome V → Type 0
IsAffordable w s (AgentEffectOutcome.provider _ attempts) = Affordable w s attempts
IsAffordable w s (AgentEffectOutcome.provider_failed _ attempts) = Affordable w s attempts
IsAffordable w s _ = Unit {0}
