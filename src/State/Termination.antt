-- ===== src/State/Termination.antt =====
-- crates/agentive/src/state: a run cannot go on for ever.
use mathlib.Core.WellFounded.{Acc}
use agentive.Base.{
  Text, ◌≡◌, ap, ℕ, zero, suc, ◌+◌, ◌-◌, ◌<◌, ◌≤◌, max, ◌⊎◌, inl, inr, Option, List, [], ◌∷◌, ok,
  length, map, zip, length-zip, length-map, u32_max, if◌then◌else◌, arith,
}
use agentive.State.Types.{AgentRunState, AgentEffectOutcome, ToolEffectResult, DelegationBudget}
use agentive.State.Effects.{
  Wire, is_live, is_batchable, no_provider_budget, record_elapsed, delegation_budget_for,
}
use agentive.State.Commits.{commit_effect}
use agentive.State.Asks.{AsksProvider, AsksBatch}
use agentive.State.Accepted.{
  SettledAll, done, next, response_accepted, failure_accepted, exhausted_accepted, tool_accepted,
  batch_accepted,
}
use agentive.State.Frame.{provider_call_count-pos}
use agentive.State.Budget.Preserved.{SettledAll-Takes}

module _ {V : Type 0} (w : Wire V) where
  -- One turn of a driver: time is added, and an effect is completed.
  pub record Turn (s t : AgentRunState V) : Type 0 where
    pub elapsed : ℕ
    pub id : Text
    pub outcome : AgentEffectOutcome V
    pub accepted : commit_effect w (record_elapsed s elapsed) id outcome ≡ (t, ok tt)

  -- Provider calls that the limit still allows, and what is to be done before the next of them.
  abbrev calls_left : AgentRunState V → ℕ
  calls_left s = s.budget.model_call_limit - max s.provider_calls_started s.model_calls

  abbrev work_left : AgentRunState V → ℕ
  work_left s = length s.pending_tools + (if is_live s.status then 1 else 0)

  abbrev Falls : AgentRunState V → AgentRunState V → Type 0
  Falls s t =
      (t.budget ≡ s.budget)
      × ((calls_left t < calls_left s)
          ⊎ ((calls_left t ≡ calls_left s) × (work_left t < work_left s)))

  asked_room :
      (s : AgentRunState V) (id : Text)
      → AsksProvider s id
      → s.budget.model_call_limit ≤ u32_max
      → max s.provider_calls_started s.model_calls < s.budget.model_call_limit
  unfolding no_provider_budget
  asked_room s id a width = ground arith

  SettledAll-length :
      (s t : AgentRunState V) (results : List (ToolEffectResult V × Option DelegationBudget))
      → SettledAll w s t results
      → length t.pending_tools + length results ≡ length s.pending_tools
  SettledAll-length s t [] (done e) = ground arith
  SettledAll-length s t ((result, reservation) ∷ more) (next u call rest p r all) =
      omega (arith, SettledAll-length u t more all, ap length p, ap length r.pending_tools)

  batch-Falls :
      (s t : AgentRunState V) (results : List (ToolEffectResult V × Option DelegationBudget))
      → SettledAll w s t results
      → 0 < length results
      → Falls s t
  batch-Falls s t results all some' =
      ground (arith, SettledAll-Takes w s t results all, SettledAll-length s t results all)

  nonempty_batch :
      (s : AgentRunState V) (outputs : List (ToolEffectResult V)) (id : Text)
      → AsksBatch s id (length outputs)
      → 0 < length (zip outputs (map (delegation_budget_for s) s.pending_tools))
  unfolding is_batchable
  nonempty_batch s outputs id a = ground (
    arith,
    length-zip outputs (map (delegation_budget_for s) s.pending_tools),
    length-map (delegation_budget_for s) s.pending_tools,
  )

  commit-Falls :
      (s t : AgentRunState V) (id : Text) (outcome : AgentEffectOutcome V)
      → s.budget.model_call_limit ≤ u32_max
      → commit_effect w s id outcome ≡ (t, ok tt)
      → Falls s t
  commit-Falls s t id (AgentEffectOutcome.provider response attempts) width h =
      let (a, r) = response_accepted w s t id response attempts h in
      ground (arith, asked_room s id a width, provider_call_count-pos attempts)
  commit-Falls s t id (AgentEffectOutcome.provider_failed error attempts) width h =
      let (a, f) = failure_accepted w s t id error attempts h in
      ground (arith, asked_room s id a width, provider_call_count-pos attempts, f.final, f.counts)
  commit-Falls s t id (AgentEffectOutcome.provider_budget_exhausted tokens) width h =
      let (a, e) = exhausted_accepted w s t id tokens h in ground (arith, a.live)
  commit-Falls s t id (AgentEffectOutcome.tool output attempts child) width h =
      let (a, (call, rest, p, r)) = tool_accepted w s t id output attempts child h in ground arith
  commit-Falls s t id (AgentEffectOutcome.tool_batch outputs) width h =
      let (a, all) = batch_accepted w s t id outputs h in
      batch-Falls s t _ all (nonempty_batch s outputs id a)

  Turn-Falls : (s t : AgentRunState V) → s.budget.model_call_limit ≤ u32_max → Turn s t → Falls s t
  Turn-Falls s t width turn =
      unfold record_elapsed in
      commit-Falls (record_elapsed s turn.elapsed) t turn.id turn.outcome width turn.accepted

  -- Turns run backwards: a state is accessible if every sequence of turns from it is finite.
  abbrev pub After : AgentRunState V → AgentRunState V → Type 0
  After t s = Turn s t

  ends_within :
      (calls work : ℕ) (s : AgentRunState V)
      → s.budget.model_call_limit ≤ u32_max
      → calls_left s < calls
      → work_left s < work
      → Acc After s
  ends_within zero work s width hc hw = elim hc [ ]
  ends_within (suc calls) zero s width hc hw = elim hw [ ]
  ends_within (suc calls) (suc work) s width hc hw = Acc.intro s λ t turn.
      let (budget, fall) = Turn-Falls s t width turn in
      let width' : t.budget.model_call_limit ≤ u32_max = ground arith in
      elim fall [
        | inl fewer ↦ ends_within calls (suc (work_left t)) t width' (omega arith) (omega arith)
        | inr (same, less) ↦ ends_within (suc calls) work t width' (omega arith) (omega arith)
      ]

  -- From any state whose model-call limit is a `u32`, no sequence of accepted completions goes on
  -- for ever, whatever the provider and the tools answer and however many calls a response has.
  pub run_ends : (s : AgentRunState V) → s.budget.model_call_limit ≤ u32_max → Acc After s
  run_ends s width =
      ends_within (suc (calls_left s)) (suc (work_left s)) s width (omega arith) (omega arith)
