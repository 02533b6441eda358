-- ===== src/Admission/Estimate.antt =====
-- crates/agentive/src/model.rs: the estimate of a conversation's tokens.
use agentive.Base.{u64_max, ◌≡◌, ℕ, ◌≤◌, ◌+◌, List, [], ◌∷◌, ◌++◌, arith}
use agentive.Message.Types.{Message}
use agentive.Model.{AllOrError}
use agentive.Admission.{estimate_tokens, base_tokens}

base_tokens-append :
    {V : Type 0} (xs ys : List (Message V))
    → base_tokens (xs ++ ys) ≡ base_tokens xs + base_tokens ys
base_tokens-append [] ys = omega arith
base_tokens-append (x ∷ xs) ys = omega (arith, base_tokens-append xs ys)

-- The estimate of a conversation does not fall as messages are added, in either mode, and the
-- conservative one is never below the exact one; the tokens of all messages must fit 64 bits.
pub estimate_grows :
    {V : Type 0} (xs ys : List (Message V)) (mode : AllOrError) (reserve : ℕ)
    → base_tokens (xs ++ ys) ≤ u64_max
    → (estimate_tokens xs mode reserve ≤ estimate_tokens (xs ++ ys) mode reserve)
      × (estimate_tokens xs AllOrError.exact reserve ≤ estimate_tokens xs mode reserve)
unfolding estimate_tokens
estimate_grows xs ys AllOrError.exact reserve h = omega (arith, base_tokens-append xs ys)
estimate_grows xs ys AllOrError.conservative reserve h = omega (arith, base_tokens-append xs ys)
