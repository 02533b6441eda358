-- ===== src/State/Budget/Shares.antt =====
-- crates/agentive/src/state/effects.rs: the shares of `delegation_budget_for` never exceed what is
-- left, and leave a part to the parent.
use agentive.Base.{
  ◌≡◌, subst, inl, inr, Bool-cases, ℕ, suc, ◌+◌, ◌-◌, ◌*◌, ◌/◌, ◌≤◌, ◌<◌, Option, some, List, [],
  ◌∷◌, map, length, zip, count_if, count_if-le-length, u32_max, arith, Bool, true, false,
  if◌then◌else◌,
}
use agentive.Model.{ModelToolCall}
use agentive.State.Types.{AgentRunState, DelegationBudget, ToolEffectResult}
use agentive.State.Effects.{delegates, divisor, calls_used, delegation_budget_for}
use agentive.State.Frame.{reserved_calls, reserved_tokens_of}

-- `k` shares of one part in `k + 1` leave something over.
shares_leave_rest : (k room : ℕ) → 0 < room → k * (room / (k + 1)) < room
shares_leave_rest k room h = grind arith

shares_fit : (k room : ℕ) → k * (room / (k + 1)) ≤ room
shares_fit k room = grind arith

share_in_shares : (count share : ℕ) → 1 ≤ count → share ≤ count * share
share_in_shares count share h = grind arith

all_shares :
    (count divisor room taken : ℕ)
    → divisor ≡ count + 1
    → taken ≤ count * (room / divisor)
    → (taken ≤ room) × (0 < room → taken < room)
all_shares count divisor room taken e h =
    let bound : taken ≤ count * (room / (count + 1)) =
      subst (λ d. taken ≤ count * (room / d)) e h in
    (omega (arith, shares_fit count room), λ pos. omega (arith, shares_leave_rest count room pos))

-- What a list of reservations takes from the calls and from the tokens.
abbrev pub total_calls : {V : Type 0} → List (ToolEffectResult V × Option DelegationBudget) → ℕ
total_calls [] = 0
total_calls ((result, reservation) ∷ more) = reserved_calls reservation + total_calls more

abbrev pub total_tokens : {V : Type 0} → List (ToolEffectResult V × Option DelegationBudget) → ℕ
total_tokens [] = 0
total_tokens ((result, reservation) ∷ more) = reserved_tokens_of reservation + total_tokens more

add_share :
    (b : Bool) (count share one rest : ℕ)
    → one ≡ (if b then share else 0)
    → rest ≤ count * share
    → one + rest ≤ (if b then suc count else count) * share
add_share true count share one rest e h = omega arith
add_share false count share one rest e h = omega arith

module _ {V : Type 0} (s : AgentRunState V) where
  -- A call that delegates gets one share of the calls left, and any other nothing.
  calls_of_one :
      (call : ModelToolCall V)
      → reserved_calls (delegation_budget_for s call) ≡ (
          if delegates s.plan call
          then (s.budget.model_call_limit - calls_used s) / divisor s
          else 0)
  unfolding delegation_budget_for
  calls_of_one call = ground arith

  tokens_of_one :
      (limit : ℕ) (call : ModelToolCall V)
      → s.plan.token_limit ≡ some limit
      → reserved_tokens_of (delegation_budget_for s call)
        ≡ (if delegates s.plan call then (limit - s.reserved_tokens) / divisor s else 0)
  unfolding delegation_budget_for
  tokens_of_one limit call e = ground arith

  calls_of_all :
      (outputs : List (ToolEffectResult V)) (calls : List (ModelToolCall V))
      → total_calls (zip outputs (map (delegation_budget_for s) calls))
        ≤ count_if (delegates s.plan) calls
          * ((s.budget.model_call_limit - calls_used s) / divisor s)
  calls_of_all [] calls = omega arith
  calls_of_all (o ∷ os) [] = omega arith
  calls_of_all (o ∷ os) (c ∷ cs) =
      add_share (delegates s.plan c) _ _ _ _ (calls_of_one c) (calls_of_all os cs)

  tokens_of_all :
      (limit : ℕ) (outputs : List (ToolEffectResult V)) (calls : List (ModelToolCall V))
      → s.plan.token_limit ≡ some limit
      → total_tokens (zip outputs (map (delegation_budget_for s) calls))
        ≤ count_if (delegates s.plan) calls * ((limit - s.reserved_tokens) / divisor s)
  tokens_of_all limit [] calls e = omega arith
  tokens_of_all limit (o ∷ os) [] e = omega arith
  tokens_of_all limit (o ∷ os) (c ∷ cs) e =
      add_share (delegates s.plan c) _ _ _ _ (tokens_of_one limit c e) (tokens_of_all limit os cs e)

  divisor_lem :
      length s.pending_tools < u32_max → divisor s ≡ count_if (delegates s.plan) s.pending_tools + 1
  unfolding divisor
  divisor_lem h = omega (arith, count_if-le-length (delegates s.plan) s.pending_tools)

  -- A batch takes no more of the calls than are left, and not all of them.
  pub batch_calls :
      (outputs : List (ToolEffectResult V))
      → length s.pending_tools < u32_max
      → let taken = total_calls (zip outputs (map (delegation_budget_for s) s.pending_tools)) in
        let room = s.budget.model_call_limit - calls_used s in
        (taken ≤ room) × (0 < room → taken < room)
  batch_calls outputs h = all_shares _ _ _ _ (divisor_lem h) (calls_of_all outputs s.pending_tools)

  pub batch_tokens :
      (limit : ℕ) (outputs : List (ToolEffectResult V))
      → s.plan.token_limit ≡ some limit
      → length s.pending_tools < u32_max
      → let taken = total_tokens (zip outputs (map (delegation_budget_for s) s.pending_tools)) in
        let room = limit - s.reserved_tokens in (taken ≤ room) × (0 < room → taken < room)
  batch_tokens limit outputs e h =
      all_shares _ _ _ _ (divisor_lem h) (tokens_of_all limit outputs s.pending_tools e)

  -- So does a single call that is pending.
  one_share :
      (room taken : ℕ) (call : ModelToolCall V) (rest : List (ModelToolCall V))
      → s.pending_tools ≡ call ∷ rest
      → length s.pending_tools < u32_max
      → taken ≡ (if delegates s.plan call then room / divisor s else 0)
      → (taken ≤ room) × (0 < room → taken < room)
  one_share room taken call rest p h e = elim (Bool-cases (delegates s.plan call)) [
    | inr idle ↦ let nothing : taken ≡ 0 = ground arith in (omega arith, λ pos. omega arith)
    | inl busy ↦
        let counted : 1 ≤ count_if (delegates s.plan) s.pending_tools =
          rw (p, busy) (omega arith) in
        let share : taken ≡ room / divisor s = ground arith in
        all_shares _ _ _ _ (divisor_lem h)
          (omega (arith, share_in_shares _ (room / divisor s) counted))
  ]

  pub one_calls :
      (call : ModelToolCall V) (rest : List (ModelToolCall V))
      → s.pending_tools ≡ call ∷ rest
      → length s.pending_tools < u32_max
      → let taken = reserved_calls (delegation_budget_for s call) in
        let room = s.budget.model_call_limit - calls_used s in
        (taken ≤ room) × (0 < room → taken < room)
  one_calls call rest p h = one_share _ _ call rest p h (calls_of_one call)

  pub one_tokens :
      (limit : ℕ) (call : ModelToolCall V) (rest : List (ModelToolCall V))
      → s.plan.token_limit ≡ some limit
      → s.pending_tools ≡ call ∷ rest
      → length s.pending_tools < u32_max
      → let taken = reserved_tokens_of (delegation_budget_for s call) in
        let room = limit - s.reserved_tokens in (taken ≤ room) × (0 < room → taken < room)
  one_tokens limit call rest e p h = one_share _ _ call rest p h (tokens_of_one limit call e)
