-- ===== src/Delegation/Bounded.antt =====
-- crates/agentive/src/subagent.rs: when a child run is started, and with what limits.
use agentive.Base.{
  Text, String, codes, is_blank, ◌≡◌, ◌≢◌, refl, ap, ◌⊎◌, inl, inr, ==_iff, leb→le, ℕ, ◌==◌, ◌||◌,
  ◌≤◌, ◌<◌, Bool, true, false, leb, Option, none, some, Result, ok, err, u8_max, arith,
}
use agentive.Json.{Json}
use agentive.Errors.{RunError, provider_protocol}
use agentive.Agent.{RunOptions}
use agentive.State.Types.{DelegationBudget, AgentEffectOutcome}
use agentive.Delegation.{
  ChildEnd, Codec, safe_error, DelegationExecution, is_spent, child_options, child_outcome,
  execute_delegation,
}

-- What a child run may use of what its parent has reserved for it.
pub record IsWithin {V : Type 0} (execution : DelegationExecution) (budget : DelegationBudget)
    (options : RunOptions V) : Type 0 where
  pub some_calls : 0 < options.model_call_limit
  pub calls : options.model_call_limit ≤ budget.model_call_limit
  pub tokens : options.token_limit ≡ budget.token_limit
  pub some_tokens : options.token_limit ≢ some 0
  pub deadline : options.deadline ≡ execution.remaining
  pub deeper : execution.delegation_depth < options.delegation_depth
  pub depth : options.delegation_depth ≤ execution.max_delegation_depth
  pub same_depth_limit : options.max_delegation_depth ≡ execution.max_delegation_depth

module _ {V : Type 0} (j : Json V) (codec : Codec V) (agent : Text) (args : V)
    (execution : DelegationExecution) where
  abbrev Start : Type 0
  Start = Text → RunOptions V → Text × ChildEnd

  abbrev delegated : Start → Result RunError (AgentEffectOutcome V)
  delegated start = execute_delegation j codec agent start args execution

  abbrev safe : String → String → Result RunError (AgentEffectOutcome V)
  safe code message = ok (safe_error j (codes code) (codes message) none)

  -- Why no child run is started, and the answer then.
  pub data Refuses : Result RunError (AgentEffectOutcome V) → Type 0 where
    undecoded :
        (message : Text)
        → codec.decode_task args ≡ err message
        → Refuses (err (provider_protocol message))
    blank_task :
        (task : Text)
        → codec.decode_task args ≡ ok task
        → is_blank task ≡ true
        → Refuses (safe "invalid_arguments" "delegation task must not be blank")
    too_deep :
        execution.max_delegation_depth ≤ execution.delegation_depth
        → Refuses (safe "delegation_depth_exceeded" "delegation depth limit reached")
    no_budget :
        execution.budget ≡ none
        → Refuses (safe "delegation_budget_exceeded" "delegation budget is unavailable")
    spent_budget :
        (budget : DelegationBudget)
        → execution.budget ≡ some budget
        → (budget.model_call_limit ≡ 0) ⊎ (budget.token_limit ≡ some 0)
        → Refuses (safe "delegation_budget_exceeded" "delegation budget is exhausted")

  -- A delegation starts no child run, for one of these reasons, and has one answer whatever such a run
  -- would do; or it starts one, on the task of its arguments, within the limits that its parent has
  -- reserved.
  pub data Delegates : Type 0 where
    refused :
        (answer : Result RunError (AgentEffectOutcome V))
        → Refuses answer
        → ((start : Start) → delegated start ≡ answer)
        → Delegates
    started :
        (task : Text) (budget : DelegationBudget)
        → codec.decode_task args ≡ ok task
        → is_blank task ≡ false
        → execution.budget ≡ some budget
        → IsWithin {V = V} execution budget (child_options execution budget)
        → ((start : Start)
            → delegated start
              ≡ child_outcome j codec agent
                  (start task (child_options execution budget)).0
                  (start task (child_options execution budget)).1)
        → Delegates

  -- A budget is spent when it has no call, or no token.
  no_token :
      (limit : Option ℕ) → (elim limit [ none ↦ false | some n ↦ n == 0 ]) ≡ true → limit ≡ some 0
  no_token none h = absurd (ground arith)
  no_token (some n) h = ap some ((==_iff n 0).0 h)

  some_token :
      (limit : Option ℕ) → (elim limit [ none ↦ false | some n ↦ n == 0 ]) ≡ false → limit ≢ some 0
  some_token none h e = absurd (ground arith)
  some_token (some n) h e = absurd (ground (arith, h, e))

  spent_how :
      (calls tokens : Bool) (budget : DelegationBudget)
      → (budget.model_call_limit == 0) ≡ calls
      → (elim budget.token_limit [ none ↦ false | some n ↦ n == 0 ]) ≡ tokens
      → (calls || tokens) ≡ true
      → (budget.model_call_limit ≡ 0) ⊎ (budget.token_limit ≡ some 0)
  spent_how true tokens budget c t h = inl ((==_iff budget.model_call_limit 0).0 c)
  spent_how false true budget c t h = inr (no_token budget.token_limit t)
  spent_how false false budget c t h = absurd (ground arith)

  unspent_tokens : (calls tokens : Bool) → (calls || tokens) ≡ false → tokens ≡ false
  unspent_tokens true tokens h = absurd (ground arith)
  unspent_tokens false tokens h = h

  child-IsWithin :
      (budget : DelegationBudget)
      → is_spent budget ≡ false
      → leb execution.max_delegation_depth execution.delegation_depth ≡ false
      → execution.max_delegation_depth ≤ u8_max
      → IsWithin {V = V} execution budget (child_options execution budget)
  unfolding child_options
  child-IsWithin budget spent deep width = record {
    some_calls = ground arith;
    calls = omega arith;
    tokens = refl;
    some_tokens =
        some_token budget.token_limit (unspent_tokens (budget.model_call_limit == 0) _ spent);
    deadline = refl;
    deeper = ground arith;
    depth = ground arith;
    same_depth_limit = refl;
  }

  by_budget :
      (task : Text) (budget : Option DelegationBudget) (spent : Bool)
      → codec.decode_task args ≡ ok task
      → is_blank task ≡ false
      → leb execution.max_delegation_depth execution.delegation_depth ≡ false
      → execution.max_delegation_depth ≤ u8_max
      → execution.budget ≡ budget
      → elim budget [ none ↦ true | some b ↦ is_spent b ] ≡ spent
      → Delegates
  unfolding execute_delegation
  by_budget task none spent d b l width e f =
      refused (safe "delegation_budget_exceeded" "delegation budget is unavailable")
        (Refuses.no_budget e) (λ start. rw (execute_delegation, d, b, l, e) refl)
  by_budget task (some budget) true d b l width e f =
      refused (safe "delegation_budget_exceeded" "delegation budget is exhausted")
        (Refuses.spent_budget budget e (spent_how _ _ budget refl refl f))
        (λ start. rw (execute_delegation, d, b, l, e, f) refl)
  by_budget task (some budget) false d b l width e f =
      started task budget d b e (child-IsWithin budget f l width)
        (λ start. rw (execute_delegation, d, b, l, e, f) refl)

  by_task :
      (decoded : Result Text Text) (blank deep : Bool)
      → codec.decode_task args ≡ decoded
      → elim decoded [ err _ ↦ true | ok task ↦ is_blank task ] ≡ blank
      → leb execution.max_delegation_depth execution.delegation_depth ≡ deep
      → execution.max_delegation_depth ≤ u8_max
      → Delegates
  unfolding execute_delegation
  by_task (err message) blank deep d b l width =
      refused (err (provider_protocol message)) (Refuses.undecoded message d)
        (λ start. rw (execute_delegation, d) refl)
  by_task (ok task) true deep d b l width =
      refused (safe "invalid_arguments" "delegation task must not be blank")
        (Refuses.blank_task task d b) (λ start. rw (execute_delegation, d, b) refl)
  by_task (ok task) false true d b l width =
      refused (safe "delegation_depth_exceeded" "delegation depth limit reached")
        (Refuses.too_deep (leb→le execution.max_delegation_depth execution.delegation_depth l))
        (λ start. rw (execute_delegation, d, b, l) refl)
  by_task (ok task) false false d b l width =
      by_budget task execution.budget _ d b l width refl refl

  -- A delegated child run is started only for a task that is not blank, below the depth limit and
  -- with a budget that has a call and, if tokens are limited, a token; its limits are then those that
  -- the parent reserved, and it runs one level deeper within the same limit of depth. Otherwise no
  -- child is started, the answer names the reason, which holds, and does not depend on what a child
  -- would do. The depth limit fits a `u8`.
  pub delegation_bounded : execution.max_delegation_depth ≤ u8_max → Delegates
  delegation_bounded width = by_task _ _ _ refl refl refl width
