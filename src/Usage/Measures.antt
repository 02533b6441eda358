-- ===== src/Usage/Measures.antt =====
-- crates/agentive/src/usage.rs: the algebra of single measurements.
use agentive.Base.{ℕ, ◌≡◌, Option, some, arith}
use agentive.Usage.{TokenUsage, merge, merge_opt}

merge_opt_assoc : (a b c : Option ℕ) → merge_opt (merge_opt a b) c ≡ merge_opt a (merge_opt b c)
unfolding merge_opt
merge_opt_assoc (some a) (some b) (some c) = ground arith
merge_opt_assoc a b c = ground arith

merge_opt_comm : (a b : Option ℕ) → merge_opt a b ≡ merge_opt b a
unfolding merge_opt
merge_opt_comm a b = ground arith

pub merge_assoc : (a b c : TokenUsage) → merge (merge a b) c ≡ merge a (merge b c)
unfolding merge
merge_assoc a b c = ground (
  arith,
  merge_opt_assoc a.input b.input c.input,
  merge_opt_assoc a.output b.output c.output,
  merge_opt_assoc a.cached_input b.cached_input c.cached_input,
  merge_opt_assoc a.reasoning b.reasoning c.reasoning,
  merge_opt_assoc a.provider_total b.provider_total c.provider_total,
)

pub merge_comm : (a b : TokenUsage) → merge a b ≡ merge b a
unfolding merge
merge_comm a b = ground (
  arith,
  merge_opt_comm a.input b.input,
  merge_opt_comm a.output b.output,
  merge_opt_comm a.cached_input b.cached_input,
  merge_opt_comm a.reasoning b.reasoning,
  merge_opt_comm a.provider_total b.provider_total,
)
