-- ===== src/State/Accepted.antt =====
-- crates/agentive/src/state/commits.rs: what is known of a state that an accepted completion leaves.
use agentive.Base.{
  Text, ◌≡◌, refl, ap, subst, false, inl, inr, List, [], ◌∷◌, map, Option, some, ok, length, zip,
  arith, ℕ,
}
use agentive.Model.{ModelToolCall, ModelResponse}
use agentive.Errors.{ProviderError}
use agentive.Usage.{RunUsage}
use agentive.State.Types.{
  RunStatus, AgentRunState, DelegationBudget, ToolEffectCall, ToolEffectResult, ProviderAttempt,
  AgentEffectOutcome,
}
use agentive.State.Effects.{Wire, next_effect, delegation_budget_for, tool_effect_call}
use agentive.State.Commits.{
  commit_effect, commit_provider_response_with_attempts, commit_provider_failure,
  commit_budget_exhausted, commit_tool_result_with_usage, commit_tool_batch, commit_outputs,
  batch_reservations, settle_tool, count_provider_effect,
}
use agentive.State.Asks.{AsksProvider, AsksTool, AsksBatch, provider_asked, tool_asked, batch_asked}
use agentive.State.Frame.{
  Counted, Responded, Settled, respond-Responded, count_provider_effect-Counted,
  settle_tool-Settled,
}

module _ {V : Type 0} (w : Wire V) where
  pub response_accepted :
      (s t : AgentRunState V) (id : Text) (r : ModelResponse V) (attempts : List ProviderAttempt)
      → commit_effect w s id (AgentEffectOutcome.provider r attempts) ≡ (t, ok tt)
      → AsksProvider s id × Responded w s t r.tool_calls r.text attempts
  unfolding commit_effect commit_provider_response_with_attempts
  response_accepted s t id r attempts h = elim (provider_asked s id) [
    | inr (n, e) ↦ absurd (ground arith)
    | inl (a, e) ↦ (
      a,
      subst (λ u. Responded w s u r.tool_calls r.text attempts) (ground arith)
          (respond-Responded w s r.tool_calls r.text attempts r.usage),
    )
  ]

  -- What a failed provider effect leaves: its counters have moved, and the run has failed.
  pub record FailedAfter (s t : AgentRunState V) (error : ProviderError)
      (attempts : List ProviderAttempt) : Type 0 where
    pub counted : AgentRunState V
    pub counts : Counted w s counted attempts
    pub final : t ≡ record counted { status = RunStatus.failed; error = some error.message }

  pub failure_accepted :
      (s t : AgentRunState V) (id : Text) (error : ProviderError) (attempts : List ProviderAttempt)
      → commit_effect w s id (AgentEffectOutcome.provider_failed error attempts) ≡ (t, ok tt)
      → AsksProvider s id × FailedAfter s t error attempts
  unfolding commit_effect commit_provider_failure
  failure_accepted s t id error attempts h = elim (provider_asked s id) [
    | inr (n, e) ↦ absurd (ground arith)
    | inl (a, e) ↦ (
      a,
      record {
        counted = count_provider_effect w s attempts error.usage;
        counts = count_provider_effect-Counted w s attempts error.usage;
        final = ground (arith, a.live, count_provider_effect-Counted w s attempts error.usage);
      },
    )
  ]

  pub exhausted_accepted :
      (s t : AgentRunState V) (id : Text) (tokens : ℕ)
      → commit_effect w s id (AgentEffectOutcome.provider_budget_exhausted tokens) ≡ (t, ok tt)
      → AsksProvider s id
        × (t ≡ record s {
          status = RunStatus.incomplete;
          usage = record (s.usage) { complete = false };
        })
  unfolding commit_effect commit_budget_exhausted
  exhausted_accepted s t id tokens h = ground (arith, provider_asked s id)

  tool_accepted_at :
      (s t : AgentRunState V) (id : Text) (output : V) (child : Option RunUsage)
      (pending : List (ModelToolCall V))
      → s.pending_tools ≡ pending
      → commit_tool_result_with_usage w s id output child ≡ (t, ok tt)
      → (call : ModelToolCall V) × (rest : List (ModelToolCall V)) × (s.pending_tools ≡ call ∷ rest)
        × Settled w s t call rest output (delegation_budget_for s call)
  unfolding commit_tool_result_with_usage
  tool_accepted_at s t id output child [] e h = absurd (ground (arith, tool_asked s id))
  tool_accepted_at s t id output child (c ∷ cs) e h = (
    c,
    cs,
    e,
    subst (λ u. Settled w s u c cs output (delegation_budget_for s c))
        (ground (arith, tool_asked s id))
        (settle_tool-Settled w s c cs output child (delegation_budget_for s c)),
  )

  pub tool_accepted :
      (s t : AgentRunState V) (id : Text) (output : V) (attempts : ℕ) (child : Option RunUsage)
      → commit_effect w s id (AgentEffectOutcome.tool output attempts child) ≡ (t, ok tt)
      → AsksTool s id
        × ((call : ModelToolCall V) × (rest : List (ModelToolCall V)) × (s.pending_tools
              ≡ call ∷ rest)
            × Settled w s t call rest output (delegation_budget_for s call))
  unfolding commit_effect
  tool_accepted s t id output attempts child h = (
    unfold commit_tool_result_with_usage in ground (arith, tool_asked s id),
    tool_accepted_at s t id output child s.pending_tools refl h,
  )

  -- The results of a batch settle the pending calls one after the other, each with the reservation
  -- that was fixed for it.
  pub data SettledAll
      : AgentRunState V
        → AgentRunState V
        → List (ToolEffectResult V × Option DelegationBudget)
        → Type 0 where
    done : {s t : AgentRunState V} → t ≡ s → SettledAll s t []
    next :
        {s t : AgentRunState V} (u : AgentRunState V) (call : ModelToolCall V)
        (rest : List (ModelToolCall V)) {result : ToolEffectResult V}
        {reservation : Option DelegationBudget}
        {more : List (ToolEffectResult V × Option DelegationBudget)}
        → s.pending_tools ≡ call ∷ rest
        → Settled w s u call rest result.output reservation
        → SettledAll u t more
        → SettledAll s t ((result, reservation) ∷ more)

  outputs_accepted :
      (id : Text) (s t : AgentRunState V) (pending : List (ModelToolCall V))
      (results : List (ToolEffectResult V × Option DelegationBudget))
      → s.pending_tools ≡ pending
      → commit_outputs w id s results ≡ (t, ok tt)
      → SettledAll s t results
  unfolding commit_outputs
  outputs_accepted id s t pending [] e h = done (ground arith)
  outputs_accepted id s t [] ((result, reservation) ∷ more) e h = absurd (ground arith)
  outputs_accepted id s t (c ∷ cs) ((result, reservation) ∷ more) e h =
      let u = settle_tool w s c cs result.output result.child_usage reservation in
      next u c cs e (settle_tool-Settled w s c cs result.output result.child_usage reservation)
        (outputs_accepted id u t cs more refl (rw (e, commit_outputs) at h))

  budgets-map :
      (s : AgentRunState V) (calls : List (ModelToolCall V))
      → map (λ (call : ToolEffectCall V). call.delegation_budget) (map (tool_effect_call s) calls)
        ≡ map (delegation_budget_for s) calls
  unfolding tool_effect_call
  budgets-map s [] = refl
  budgets-map s (c ∷ cs) = ap (◌∷◌ (delegation_budget_for s c)) (budgets-map s cs)

  batch_reservations_at :
      (s : AgentRunState V) (id : Text) (count : ℕ) (pending : List (ModelToolCall V))
      → s.pending_tools ≡ pending
      → AsksBatch s id count
      → batch_reservations (next_effect s) ≡ map (delegation_budget_for s) s.pending_tools
  unfolding next_effect batch_reservations
  batch_reservations_at s id count [] e a = absurd (ground arith)
  batch_reservations_at s id count (c ∷ cs) e a = ground (arith, budgets-map s s.pending_tools)

  pub batch_accepted :
      (s t : AgentRunState V) (id : Text) (outputs : List (ToolEffectResult V))
      → commit_effect w s id (AgentEffectOutcome.tool_batch outputs) ≡ (t, ok tt)
      → AsksBatch s id (length outputs)
        × SettledAll s t (zip outputs (map (delegation_budget_for s) s.pending_tools))
  unfolding commit_effect commit_tool_batch
  batch_accepted s t id outputs h = elim (batch_asked s id (length outputs)) [
    | inr (n, e) ↦ absurd (ground arith)
    | inl (a, e) ↦ (
      a,
      rw (← batch_reservations_at s id (length outputs) s.pending_tools refl a)
          (outputs_accepted id s t s.pending_tools _ refl (rw (e, commit_tool_batch) at h)),
    )
  ]
