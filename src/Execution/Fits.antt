-- ===== src/Execution/Fits.antt =====
-- crates/agentive/src/state: the kind of outcome that the next effect of a state wants.
use agentive.Base.{
  Text, text_eq_refl, ◌≡◌, refl, sym, subst, ℕ, ◌≤◌, Bool, true, false, inl, inr, List, [], ◌∷◌,
  map, find, All, Option, none, some, length, ok, u8_max, arith, by_test,
}
use agentive.Model.{ModelToolCall}
use agentive.State.Types.{
  AgentRunState, AgentRunPlan, AgentRunEffect, AgentEffectOutcome, ToolEffectCall,
  ToolRuntimePolicy,
}
use agentive.State.Effects.{
  is_live, is_batchable, no_provider_budget, next_effect, pending_effect, tool_effect_call,
}
use agentive.State.Commits.{effect_id, expect_effect, expect_batch}
use agentive.State.Asks.{AsksProvider, AsksTool, AsksBatch, provider_asked, tool_asked, batch_asked}
use agentive.State.Atomic.{Answers}
use agentive.Execution.Calls.{IsBytePolicy}

-- The attempts that a plan allows fit a `u8`, as they do in the source.
pub record IsBytePlan {V : Type 0} (plan : AgentRunPlan V) : Type 0 where
  pub provider : plan.provider_max_attempts ≤ u8_max
  pub tools : All (λ (p : ToolRuntimePolicy V). p.max_attempts ≤ u8_max) plan.tools

abbrev pub HasBytePolicies : {V : Type 0} → AgentRunEffect V → Type 0
HasBytePolicies (AgentRunEffect.provider_call _ _ _ _) = Unit {0}
HasBytePolicies (AgentRunEffect.tool_call _ _ _ policy _) = IsBytePolicy policy
HasBytePolicies (AgentRunEffect.tool_batch _ calls) =
    All (λ (c : ToolEffectCall _). IsBytePolicy c.policy) calls

module _ {V : Type 0} where
  found_policy :
      (tools : List (ToolRuntimePolicy V)) (test : ToolRuntimePolicy V → Bool)
      → All (λ (p : ToolRuntimePolicy V). p.max_attempts ≤ u8_max) tools
      → IsBytePolicy (find test tools)
  found_policy [] test all = tt
  found_policy (p ∷ ps) test (b, all) = by_test IsBytePolicy (test p) b (found_policy ps test all)

  call_policies :
      (s : AgentRunState V) (calls : List (ModelToolCall V))
      → IsBytePlan s.plan
      → All (λ (c : ToolEffectCall V). IsBytePolicy c.policy) (map (tool_effect_call s) calls)
  unfolding tool_effect_call
  call_policies s [] bytes = tt
  call_policies s (c ∷ cs) bytes =
      (found_policy s.plan.tools _ bytes.tools, call_policies s cs bytes)

  abbrev AllPolicies : Option (AgentRunEffect V) → Type 0
  AllPolicies none = Unit
  AllPolicies (some effect) = HasBytePolicies effect

  pending_policies :
      (s : AgentRunState V) (pending : List (ModelToolCall V))
      → IsBytePlan s.plan
      → AllPolicies (pending_effect s pending)
  unfolding pending_effect
  pending_policies s [] bytes = by_test AllPolicies (no_provider_budget s) tt tt
  pending_policies s (c ∷ cs) bytes =
      by_test AllPolicies (is_batchable s) (call_policies s s.pending_tools bytes)
        (found_policy s.plan.tools _ bytes.tools)

  pub next_policies :
      (s : AgentRunState V) (effect : AgentRunEffect V)
      → IsBytePlan s.plan
      → next_effect s ≡ some effect
      → HasBytePolicies effect
  unfolding next_effect
  next_policies s effect bytes h =
      subst AllPolicies h
        (by_test AllPolicies (is_live s.status) (pending_policies s s.pending_tools bytes) tt)

  -- The kind of an outcome is that of the effect, and a batch has as many results as calls.
  abbrev pub Fits : AgentRunEffect V → AgentEffectOutcome V → Type 0
  Fits (AgentRunEffect.provider_call _ _ _ _) (AgentEffectOutcome.provider _ _) = Unit
  Fits (AgentRunEffect.provider_call _ _ _ _) (AgentEffectOutcome.provider_failed _ _) = Unit
  Fits (AgentRunEffect.provider_call _ _ _ _) (AgentEffectOutcome.provider_budget_exhausted _) =
      Unit
  Fits (AgentRunEffect.tool_call _ _ _ _ _) (AgentEffectOutcome.tool _ _ _) = Unit
  Fits (AgentRunEffect.tool_batch _ calls) (AgentEffectOutcome.tool_batch outputs) =
      length outputs ≡ length calls
  Fits _ _ = ⊥

  asked_provider :
      (s : AgentRunState V) (id call_id : Text) (round : ℕ) (request : _)
      → next_effect s ≡ some (AgentRunEffect.provider_call id call_id round request)
      → AsksProvider s id
  unfolding expect_effect
  asked_provider s id call_id round request h = elim (provider_asked s id) [
    | inl (a, _) ↦ a
    | inr (_, e) ↦ absurd (ground (arith, e, expected))
  ]
    where
      expected : expect_effect s id true ≡ ok tt
      expected = rw (expect_effect, h, text_eq_refl id) refl

  asked_tool :
      (s : AgentRunState V) (id : Text) (invocation : _) (arguments : V) (policy : _) (budget : _)
      → next_effect s ≡ some (AgentRunEffect.tool_call id invocation arguments policy budget)
      → AsksTool s id
  unfolding expect_effect
  asked_tool s id invocation arguments policy budget h = elim (tool_asked s id) [
    | inl (a, _) ↦ a
    | inr (_, e) ↦ absurd (ground (arith, e, expected))
  ]
    where
      expected : expect_effect s id false ≡ ok tt
      expected = rw (expect_effect, h, text_eq_refl id) refl

  asked_batch :
      (s : AgentRunState V) (id : Text) (calls : List (ToolEffectCall V))
      → next_effect s ≡ some (AgentRunEffect.tool_batch id calls)
      → AsksBatch s id (length calls)
  unfolding expect_batch
  asked_batch s id calls h = elim (batch_asked s id (length calls)) [
    | inl (a, _) ↦ a
    | inr (_, e) ↦ absurd (ground (arith, e, expected))
  ]
    where
      expected : expect_batch s id (length calls) ≡ ok tt
      expected = rw (expect_batch, h, text_eq_refl id) (ground arith)

  -- An outcome that fits the next effect answers it.
  pub Fits-Answers :
      (s : AgentRunState V) (effect : AgentRunEffect V) (outcome : AgentEffectOutcome V)
      → next_effect s ≡ some effect
      → Fits effect outcome
      → Answers s (effect_id effect) outcome
  Fits-Answers s (AgentRunEffect.provider_call id c r q) (AgentEffectOutcome.provider _ _) h f =
      asked_provider s id c r q h
  Fits-Answers s (AgentRunEffect.provider_call id c r q) (AgentEffectOutcome.provider_failed _ _) h
        f =
      asked_provider s id c r q h
  Fits-Answers s (AgentRunEffect.provider_call id c r q)
        (AgentEffectOutcome.provider_budget_exhausted _) h f =
      asked_provider s id c r q h
  Fits-Answers s (AgentRunEffect.provider_call id c r q) (AgentEffectOutcome.tool _ _ _) h f =
      absurd f
  Fits-Answers s (AgentRunEffect.provider_call id c r q) (AgentEffectOutcome.tool_batch _) h f =
      absurd f
  Fits-Answers s (AgentRunEffect.tool_call id i a p b) (AgentEffectOutcome.tool _ _ _) h f =
      asked_tool s id i a p b h
  Fits-Answers s (AgentRunEffect.tool_call id i a p b) (AgentEffectOutcome.provider _ _) h f =
      absurd f
  Fits-Answers s (AgentRunEffect.tool_call id i a p b) (AgentEffectOutcome.provider_failed _ _) h
        f =
      absurd f
  Fits-Answers s (AgentRunEffect.tool_call id i a p b)
        (AgentEffectOutcome.provider_budget_exhausted _) h f =
      absurd f
  Fits-Answers s (AgentRunEffect.tool_call id i a p b) (AgentEffectOutcome.tool_batch _) h f =
      absurd f
  Fits-Answers s (AgentRunEffect.tool_batch id calls) (AgentEffectOutcome.tool_batch outputs) h f =
      subst (AsksBatch s id) (sym f) (asked_batch s id calls h)
  Fits-Answers s (AgentRunEffect.tool_batch id calls) (AgentEffectOutcome.provider _ _) h f =
      absurd f
  Fits-Answers s (AgentRunEffect.tool_batch id calls) (AgentEffectOutcome.provider_failed _ _) h f =
      absurd f
  Fits-Answers s (AgentRunEffect.tool_batch id calls)
        (AgentEffectOutcome.provider_budget_exhausted _) h f =
      absurd f
  Fits-Answers s (AgentRunEffect.tool_batch id calls) (AgentEffectOutcome.tool _ _ _) h f = absurd f
