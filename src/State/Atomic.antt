-- ===== src/State/Atomic.antt =====
-- crates/agentive/src/state/commits.rs: a completion is applied whole or not at all.
use agentive.Base.{
  Text, ◌≡◌, ◌≤◌, refl, ap, ◌⊎◌, inl, inr, List, [], ◌∷◌, Option, ok, length, length-zip, arith,
}
use agentive.Model.{ModelToolCall}
use agentive.State.Types.{AgentRunState, DelegationBudget, AgentEffectOutcome, ToolEffectResult}
use agentive.State.Effects.{Wire, next_effect}
use agentive.State.Commits.{
  commit_effect, commit_provider_response_with_attempts, commit_provider_failure,
  commit_budget_exhausted, commit_tool_result_with_usage, commit_tool_batch, commit_outputs,
  batch_reservations, settle_tool,
}
use agentive.State.Asks.{
  AsksProvider, AsksTool, AsksBatch, Refusal, provider_asked, tool_asked, batch_asked,
}

-- An outcome answers what the state asks for: by kind, by identity, and a batch by its size.
abbrev pub Answers : {V : Type 0} → AgentRunState V → Text → AgentEffectOutcome V → Type 0
Answers s id (AgentEffectOutcome.provider _ _) = AsksProvider s id
Answers s id (AgentEffectOutcome.provider_failed _ _) = AsksProvider s id
Answers s id (AgentEffectOutcome.provider_budget_exhausted _) = AsksProvider s id
Answers s id (AgentEffectOutcome.tool _ _ _) = AsksTool s id
Answers s id (AgentEffectOutcome.tool_batch outputs) = AsksBatch s id (length outputs)

module _ {V : Type 0} (w : Wire V) where
  -- A batch with no more results than pending calls is committed to its end.
  commit_outputs_ok :
      (id : Text) (s : AgentRunState V) (pending : List (ModelToolCall V))
      (results : List (ToolEffectResult V × Option DelegationBudget))
      → s.pending_tools ≡ pending
      → length results ≤ length pending
      → (commit_outputs w id s results).1 ≡ ok tt
  unfolding commit_outputs
  commit_outputs_ok id s pending [] e h = refl
  commit_outputs_ok id s [] ((output, reservation) ∷ more) e h = absurd (omega arith)
  commit_outputs_ok id s (c ∷ cs) ((output, reservation) ∷ more) e h =
      rw (e, commit_outputs)
        (commit_outputs_ok id (settle_tool w s c cs output.output output.child_usage reservation) cs
          more refl (omega arith))

  commit_tool_batch_atomic :
      (s : AgentRunState V) (id : Text) (outputs : List (ToolEffectResult V))
      → (AsksBatch s id (length outputs) × ((commit_tool_batch w s id outputs).1 ≡ ok tt))
        ⊎ ((¬ AsksBatch s id (length outputs))
            × (commit_tool_batch w s id outputs ≡ (s, Refusal s id)))
  unfolding commit_tool_batch
  commit_tool_batch_atomic s id outputs = elim (batch_asked s id (length outputs)) [
    | inr (n, e) ↦ inr (n, rw (e, commit_tool_batch))
    | inl (a, e) ↦ inl (
      a,
      rw (e, commit_tool_batch)
          (commit_outputs_ok id s s.pending_tools _ refl
            (omega (arith, a.counted, length-zip outputs (batch_reservations (next_effect s))))),
    )
  ]

  -- A completion is accepted exactly when it answers the effect that the state asks for; any other
  -- one is refused, the refusal names the identity received and the one expected, and the state
  -- stays as it was.
  pub commit_effect_atomic :
      (s : AgentRunState V) (id : Text) (outcome : AgentEffectOutcome V)
      → (Answers s id outcome × ((commit_effect w s id outcome).1 ≡ ok tt))
        ⊎ ((¬ Answers s id outcome) × (commit_effect w s id outcome ≡ (s, Refusal s id)))
  unfolding commit_effect
  commit_effect_atomic s id (AgentEffectOutcome.provider response attempts) =
      unfold commit_provider_response_with_attempts in ground (arith, provider_asked s id)
  commit_effect_atomic s id (AgentEffectOutcome.provider_failed error attempts) =
      unfold commit_provider_failure in ground (arith, provider_asked s id)
  commit_effect_atomic s id (AgentEffectOutcome.provider_budget_exhausted tokens) =
      unfold commit_budget_exhausted in ground (arith, provider_asked s id)
  commit_effect_atomic s id (AgentEffectOutcome.tool output attempts child) =
      unfold commit_tool_result_with_usage in ground (arith, tool_asked s id)
  commit_effect_atomic s id (AgentEffectOutcome.tool_batch outputs) =
      commit_tool_batch_atomic s id outputs

  -- A completion that answers is accepted.
  pub answer_accepted :
      (s : AgentRunState V) (id : Text) (outcome : AgentEffectOutcome V)
      → Answers s id outcome
      → commit_effect w s id outcome ≡ ((commit_effect w s id outcome).0, ok tt)
  answer_accepted s id outcome a = elim (commit_effect_atomic s id outcome) [
    | inl (_, e) ↦ ap (λ r. ((commit_effect w s id outcome).0, r)) e
    | inr (n, _) ↦ absurd (n a)
  ]
