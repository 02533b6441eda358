-- ===== src/State/Once.antt =====
-- crates/agentive/src/state: a completed effect is not asked for again.
use agentive.Base.{
  Text, ◌≡◌, ◌≢◌, refl, subst, List, [], ◌∷◌, map, Option, some, ok, length, length-map, length-zip,
  All, arith,
}
use agentive.Model.{ModelToolCall}
use agentive.State.Types.{
  AgentRunState, AgentEffectOutcome, DelegationBudget, ToolEffectResult, ProviderAttempt,
}
use agentive.State.Effects.{Wire, next_effect, batch_effect_id, delegation_budget_for}
use agentive.State.Commits.{commit_effect, expected_id}
use agentive.State.Asks.{AsksProvider, AsksTool, first_id}
use agentive.State.Frame.{Settled, Responded}
use agentive.State.Accepted.{
  SettledAll, done, next, response_accepted, failure_accepted, exhausted_accepted, tool_accepted,
  batch_accepted,
}
use agentive.State.Identity.{
  expected, provider-ne-tool, provider-ne-batch, tool-ne-batch, tool_id-injective,
}

-- No two calls of the list have the same identifier.
abbrev pub DistinctCalls : {V : Type 0} → List (ModelToolCall V) → Type 0
DistinctCalls [] = Unit
DistinctCalls (call ∷ rest) =
    All (λ (other : ModelToolCall _). other.call_id ≢ call.call_id) rest × DistinctCalls rest

module _ {V : Type 0} (w : Wire V) where
  response_once :
      (s t : AgentRunState V) (id : Text) (calls : List (ModelToolCall V)) (text : Option Text)
      (attempts : List ProviderAttempt)
      → AsksProvider s id
      → Responded w s t calls text attempts
      → expected_id (next_effect t) ≢ some id
  response_once s t id [] text attempts a r e = ground (arith, expected t id e)
  response_once s t id (c ∷ cs) text attempts a r e = ground (
    arith,
    expected t id e,
    provider-ne-tool s.run_id s.model_calls c.call_id,
    provider-ne-batch s.run_id s.model_calls c.call_id,
  )

  Settled-once :
      (s t : AgentRunState V) (id : Text) (call : ModelToolCall V) (rest : List (ModelToolCall V))
      (output : V) (reservation : Option DelegationBudget)
      → AsksTool s id
      → DistinctCalls (call ∷ rest)
      → s.pending_tools ≡ call ∷ rest
      → Settled w s t call rest output reservation
      → expected_id (next_effect t) ≢ some id
  Settled-once s t id c [] output reservation a d p r e =
      ground (arith, expected t id e, provider-ne-tool s.run_id t.model_calls c.call_id)
  Settled-once s t id c (b ∷ bs) output reservation a d p r e = ground (
    arith,
    expected t id e,
    tool-ne-batch s.run_id c.call_id b.call_id,
    tool_id-injective s.run_id b.call_id c.call_id,
  )

  -- A batch that settles as many calls as are pending leaves none, in the same run.
  settled_all :
      (s t : AgentRunState V) (pending : List (ModelToolCall V))
      (results : List (ToolEffectResult V × Option DelegationBudget))
      → SettledAll w s t results
      → s.pending_tools ≡ pending
      → length results ≡ length pending
      → (t.pending_tools ≡ []) × (t.run_id ≡ s.run_id)
  settled_all s t [] [] (done e) p h = ground arith
  settled_all s t (c ∷ cs) [] (done e) p h = absurd (omega arith)
  settled_all s t [] ((result, reservation) ∷ more) (next u call rest q r all) p h =
      absurd (omega arith)
  settled_all s t (c ∷ cs) ((result, reservation) ∷ more) (next u call rest q r all) p h =
      ground (arith, settled_all u t cs more all (ground arith) (omega arith))

  batch_once :
      (s t : AgentRunState V) (id : Text) (pending : List (ModelToolCall V))
      → first_id (batch_effect_id s.run_id) s.pending_tools ≡ some id
      → s.pending_tools ≡ pending
      → (t.pending_tools ≡ []) × (t.run_id ≡ s.run_id)
      → expected_id (next_effect t) ≢ some id
  batch_once s t id [] n p r e = ground arith
  batch_once s t id (c ∷ cs) n p r e =
      ground (arith, expected t id e, provider-ne-batch s.run_id t.model_calls c.call_id)

  -- Once a completion has been accepted, the state does not expect the identity that it answered;
  -- the calls that were pending must have distinct identifiers.
  pub completed_once :
      (s t : AgentRunState V) (id : Text) (outcome : AgentEffectOutcome V)
      → DistinctCalls s.pending_tools
      → commit_effect w s id outcome ≡ (t, ok tt)
      → expected_id (next_effect t) ≢ some id
  completed_once s t id (AgentEffectOutcome.provider response attempts) d h e =
      let (a, r) = response_accepted w s t id response attempts h in
      response_once s t id response.tool_calls response.text attempts a r e
  completed_once s t id (AgentEffectOutcome.provider_failed error attempts) d h e =
      ground (arith, failure_accepted w s t id error attempts h, expected t id e)
  completed_once s t id (AgentEffectOutcome.provider_budget_exhausted tokens) d h e =
      ground (arith, exhausted_accepted w s t id tokens h, expected t id e)
  completed_once s t id (AgentEffectOutcome.tool output attempts child) d h e =
      let (a, (call, rest, p, r)) = tool_accepted w s t id output attempts child h in
      Settled-once s t id call rest output _ a (subst DistinctCalls p d) p r e
  completed_once s t id (AgentEffectOutcome.tool_batch outputs) d h e =
      let (a, all) = batch_accepted w s t id outputs h in
      batch_once s t id s.pending_tools a.named refl
        (settled_all s t s.pending_tools _ all refl (
          omega (
            arith,
            a.counted,
            length-zip outputs (map (delegation_budget_for s) s.pending_tools),
            length-map (delegation_budget_for s) s.pending_tools,
          )))
        e
