-- ===== src/Driver/Moves.antt =====
-- crates/agentive/src/state/commits.rs: the status and the text that a completion leaves, and that it
-- does not touch the plan.
use agentive.Base.{Text, ◌≡◌, ◌∙◌, Bool, true, false, List, [], ◌∷◌, Option, none, some, ok, arith}
use agentive.State.Types.{
  RunStatus, AgentRunState, AgentEffectOutcome, DelegationBudget, ToolEffectResult,
}
use agentive.State.Effects.{Wire, is_live}
use agentive.State.Commits.{commit_effect}
use agentive.Model.{ModelToolCall}
use agentive.State.Types.{ProviderAttempt}
use agentive.State.Frame.{Responded}
use agentive.State.Accepted.{
  SettledAll, done, next, response_accepted, failure_accepted, exhausted_accepted, tool_accepted,
  batch_accepted,
}
use agentive.State.Budget.Preserved.{SettledAll-Takes}
use agentive.Driver.{is_provider_failure}

-- How a completion may leave a run: live or incomplete without a final text, completed with one, or
-- failed, which a provider failure does and nothing else.
pub data Left {V : Type 0} (t : AgentRunState V) : Bool → Type 0 where
  open_run : is_live t.status ≡ true → t.text ≡ none → Left t false
  ran_out : t.status ≡ RunStatus.incomplete → t.text ≡ none → Left t false
  finished : (text : Text) → t.status ≡ RunStatus.completed → t.text ≡ some text → Left t false
  failed : t.status ≡ RunStatus.failed → Left t true

module _ {V : Type 0} (w : Wire V) where
  Responded-Left :
      (s t : AgentRunState V) (calls : List (ModelToolCall V)) (text : Option Text)
      (attempts : List ProviderAttempt)
      → s.text ≡ none
      → Responded w s t calls text attempts
      → Left t false
  Responded-Left s t [] none attempts before r = ran_out r.status (ground (arith, r.final_text))
  Responded-Left s t [] (some text) attempts before r = finished text r.status r.final_text
  Responded-Left s t (c ∷ cs) text attempts before r =
      open_run (ground (arith, r.status)) (ground (arith, r.final_text))

  settled_same :
      (s t : AgentRunState V) (results : List (ToolEffectResult V × Option DelegationBudget))
      → SettledAll w s t results
      → (t.status ≡ s.status) × (t.text ≡ s.text)
  settled_same s t [] (done e) = ground arith
  settled_same s t ((result, reservation) ∷ more) (next u call rest p r all) =
      let (status, text) = settled_same u t more all in (status ∙ r.status, text ∙ r.text)

  pub committed-Left :
      (s t : AgentRunState V) (id : Text) (outcome : AgentEffectOutcome V)
      → s.text ≡ none
      → commit_effect w s id outcome ≡ (t, ok tt)
      → Left t (is_provider_failure outcome)
  committed-Left s t id (AgentEffectOutcome.provider response attempts) before h =
      let (a, r) = response_accepted w s t id response attempts h in
      Responded-Left s t response.tool_calls response.text attempts before r
  committed-Left s t id (AgentEffectOutcome.provider_failed error attempts) before h =
      let (a, f) = failure_accepted w s t id error attempts h in failed (ground (arith, f.final))
  committed-Left s t id (AgentEffectOutcome.provider_budget_exhausted tokens) before h =
      let (a, e) = exhausted_accepted w s t id tokens h in ran_out (ground arith) (ground arith)
  committed-Left s t id (AgentEffectOutcome.tool output attempts child) before h =
      let (a, (call, rest, p, r)) = tool_accepted w s t id output attempts child h in
      open_run (ground (arith, a.live, r.status)) (r.text ∙ before)
  committed-Left s t id (AgentEffectOutcome.tool_batch outputs) before h =
      let (a, all) = batch_accepted w s t id outputs h in
      let (status, text) = settled_same s t _ all in
      open_run (ground (arith, a.live, status)) (text ∙ before)

  pub committed-keeps :
      (s t : AgentRunState V) (id : Text) (outcome : AgentEffectOutcome V)
      → commit_effect w s id outcome ≡ (t, ok tt)
      → (t.plan ≡ s.plan) × (t.budget ≡ s.budget)
  committed-keeps s t id (AgentEffectOutcome.provider response attempts) h =
      let (a, r) = response_accepted w s t id response attempts h in (r.keeps.plan, r.keeps.budget)
  committed-keeps s t id (AgentEffectOutcome.provider_failed error attempts) h =
      let (a, f) = failure_accepted w s t id error attempts h in
      ground (arith, f.final, f.counts.keeps)
  committed-keeps s t id (AgentEffectOutcome.provider_budget_exhausted tokens) h =
      let (a, e) = exhausted_accepted w s t id tokens h in ground (arith, e)
  committed-keeps s t id (AgentEffectOutcome.tool output attempts child) h =
      let (a, (call, rest, p, r)) = tool_accepted w s t id output attempts child h in
      (r.keeps.plan, r.keeps.budget)
  committed-keeps s t id (AgentEffectOutcome.tool_batch outputs) h =
      let (a, all) = batch_accepted w s t id outputs h in
      let taken = SettledAll-Takes w s t _ all in (taken.plan, taken.budget)
