-- ===== src/State/Budget/Preserved.antt =====
-- crates/agentive/src/state: no completion overdraws a budget, and delegation leaves a part of it.
use agentive.Base.{
  Text, sat_add, u64_max, ◌≡◌, refl, ap, max, ℕ, ◌+◌, ◌-◌, ◌≤◌, ◌<◌, Option, none, some, List, [],
  ◌∷◌, map, length, zip, u32_max, ok, arith,
}
use agentive.Model.{ModelToolCall}
use agentive.Errors.{ProviderError}
use agentive.State.Types.{
  AgentRunPlan, AgentRunState, AgentEffectOutcome, DelegationBudget, ToolEffectResult,
  ProviderAttempt,
}
use agentive.State.Effects.{Wire, delegation_budget_for, calls_used}
use agentive.State.Commits.{commit_effect}
use agentive.State.Frame.{
  Settled, Responded, provider_call_count-pos, reserved_calls, reserved_tokens_of,
}
use agentive.State.Accepted.{
  SettledAll, done, next, FailedAfter, response_accepted, failure_accepted, exhausted_accepted,
  tool_accepted, batch_accepted,
}
use agentive.State.Budget.{WithinTokens, InBudget, Affordable, IsAffordable}
use agentive.State.Budget.Shares.{
  total_calls, total_tokens, one_calls, one_tokens, batch_calls, batch_tokens,
}

module _ {V : Type 0} (w : Wire V) where
  -- A completion of tool calls that takes `calls` and `tokens` from the budgets.
  pub record Takes (s t : AgentRunState V) (calls tokens : ℕ) : Type 0 where
    pub plan : t.plan ≡ s.plan
    pub budget : t.budget ≡ s.budget
    pub status : t.status ≡ s.status
    pub started : t.provider_calls_started ≡ s.provider_calls_started
    pub model_calls : t.model_calls ≡ s.model_calls
    pub children : t.reserved_child_model_calls ≤ s.reserved_child_model_calls + calls
    pub reserved : t.reserved_tokens ≤ s.reserved_tokens + tokens

  pub Settled-Takes :
      (s t : AgentRunState V) (call : ModelToolCall V) (rest : List (ModelToolCall V)) (output : V)
      (reservation : Option DelegationBudget)
      → Settled w s t call rest output reservation
      → Takes s t (reserved_calls reservation) (reserved_tokens_of reservation)
  Settled-Takes s t call rest output reservation r = record {
    plan = r.keeps.plan;
    budget = r.keeps.budget;
    status = r.status;
    started = r.started;
    model_calls = r.model_calls;
    children = r.children;
    reserved = r.tokens;
  }

  pub SettledAll-Takes :
      (s t : AgentRunState V) (results : List (ToolEffectResult V × Option DelegationBudget))
      → SettledAll w s t results
      → Takes s t (total_calls results) (total_tokens results)
  SettledAll-Takes s t [] (done e) = ground arith
  SettledAll-Takes s t ((result, reservation) ∷ more) (next u call rest p r all) = ground (
    arith,
    Settled-Takes s u call rest result.output reservation r,
    SettledAll-Takes u t more all,
  )

  Takes-calls :
      (s t : AgentRunState V) (calls tokens : ℕ)
      → Takes s t calls tokens
      → InBudget s
      → (calls ≤ s.budget.model_call_limit - calls_used s)
      → max t.provider_calls_started t.model_calls + t.reserved_child_model_calls
        ≤ t.budget.model_call_limit
  Takes-calls s t calls tokens k b h = ground arith

  -- Whatever is left of the tokens bounds what a completion takes.
  abbrev TokensFit : AgentRunState V → Option ℕ → ℕ → Type 0
  TokensFit s none tokens = Unit {0}
  TokensFit s (some limit) tokens = tokens ≤ limit - s.reserved_tokens

  Takes-tokens :
      (s t : AgentRunState V) (calls tokens : ℕ) (limit : Option ℕ)
      → Takes s t calls tokens
      → WithinTokens limit s.reserved_tokens
      → TokensFit s limit tokens
      → WithinTokens limit t.reserved_tokens
  Takes-tokens s t calls tokens none k b h = tt
  Takes-tokens s t calls tokens (some limit) k b h = omega arith

  Takes-InBudget :
      (s t : AgentRunState V) (calls tokens : ℕ)
      → Takes s t calls tokens
      → InBudget s
      → calls ≤ s.budget.model_call_limit - calls_used s
      → TokensFit s s.plan.token_limit tokens
      → InBudget t
  Takes-InBudget s t calls tokens k b h f = record {
    calls = Takes-calls s t calls tokens k b h;
    width = ground arith;
    tokens =
        rw (ap (λ (p : AgentRunPlan V). p.token_limit) k.plan)
          (Takes-tokens s t calls tokens s.plan.token_limit k b.tokens f);
  }

  one_fits :
      (s : AgentRunState V) (call : ModelToolCall V) (rest : List (ModelToolCall V))
      (limit : Option ℕ)
      → s.plan.token_limit ≡ limit
      → s.pending_tools ≡ call ∷ rest
      → length s.pending_tools < u32_max
      → TokensFit s limit (reserved_tokens_of (delegation_budget_for s call))
  one_fits s call rest none e p h = tt
  one_fits s call rest (some limit) e p h = (one_tokens s limit call rest e p h).0

  batch_fits :
      (s : AgentRunState V) (outputs : List (ToolEffectResult V)) (limit : Option ℕ)
      → s.plan.token_limit ≡ limit
      → length s.pending_tools < u32_max
      → TokensFit s limit
          (total_tokens (zip outputs (map (delegation_budget_for s) s.pending_tools)))
  batch_fits s outputs none e h = tt
  batch_fits s outputs (some limit) e h = (batch_tokens s limit outputs e h).0

  spent_tokens :
      (limit : Option ℕ) (before after spent : ℕ)
      → after ≡ sat_add u64_max before spent
      → WithinTokens limit (before + spent)
      → WithinTokens limit after
  spent_tokens none before after spent e h = tt
  spent_tokens (some limit) before after spent e h = omega arith

  response-InBudget :
      (s t : AgentRunState V) (calls : List (ModelToolCall V)) (text : Option Text)
      (attempts : List ProviderAttempt)
      → Responded w s t calls text attempts
      → InBudget s
      → Affordable w s attempts
      → InBudget t
  response-InBudget s t calls text attempts r b a = record {
    calls = ground (arith, provider_call_count-pos attempts);
    width = ground arith;
    tokens =
        rw (ap (λ (p : AgentRunPlan V). p.token_limit) r.keeps.plan)
          (spent_tokens s.plan.token_limit s.reserved_tokens t.reserved_tokens _ r.tokens a.tokens);
  }

  failure-InBudget :
      (s t : AgentRunState V) (error : ProviderError) (attempts : List ProviderAttempt)
      → FailedAfter w s t error attempts
      → InBudget s
      → Affordable w s attempts
      → InBudget t
  failure-InBudget s t error attempts f b a = record {
    calls = ground (arith, f.final, f.counts, provider_call_count-pos attempts);
    width = ground (arith, f.final, f.counts);
    tokens =
        rw
          (
            ap (λ (u : AgentRunState V). u.plan.token_limit) f.final,
            ap (λ (u : AgentRunState V). u.reserved_tokens) f.final,
            ap (λ (p : AgentRunPlan V). p.token_limit) f.counts.keeps.plan,
          )
          (spent_tokens s.plan.token_limit s.reserved_tokens f.counted.reserved_tokens _
            f.counts.tokens a.tokens);
  }

  -- An accepted completion overdraws neither the model-call limit nor the token limit, if they
  -- were not overdrawn before, fewer than `u32::MAX` calls are pending, and the provider attempts
  -- that it reports were affordable.
  pub commit_effect-InBudget :
      (s t : AgentRunState V) (id : Text) (outcome : AgentEffectOutcome V)
      → length s.pending_tools < u32_max
      → IsAffordable w s outcome
      → commit_effect w s id outcome ≡ (t, ok tt)
      → InBudget s
      → InBudget t
  commit_effect-InBudget s t id (AgentEffectOutcome.provider response attempts) few a h b =
      response-InBudget s t response.tool_calls response.text attempts
        (response_accepted w s t id response attempts h).1 b a
  commit_effect-InBudget s t id (AgentEffectOutcome.provider_failed error attempts) few a h b =
      failure-InBudget s t error attempts (failure_accepted w s t id error attempts h).1 b a
  commit_effect-InBudget s t id (AgentEffectOutcome.provider_budget_exhausted tokens) few a h b =
      rw ((exhausted_accepted w s t id tokens h).1)
        (record { calls = b.calls; width = b.width; tokens = b.tokens })
  commit_effect-InBudget s t id (AgentEffectOutcome.tool output attempts child) few a h b =
      let (_, (call, rest, p, r)) = tool_accepted w s t id output attempts child h in
      Takes-InBudget s t _ _ (Settled-Takes s t call rest output _ r) b
        (one_calls s call rest p few).0 (one_fits s call rest s.plan.token_limit refl p few)
  commit_effect-InBudget s t id (AgentEffectOutcome.tool_batch outputs) few a h b =
      let (_, all) = batch_accepted w s t id outputs h in
      Takes-InBudget s t _ _ (SettledAll-Takes s t _ all) b (batch_calls s outputs few).0
        (batch_fits s outputs s.plan.token_limit refl few)
