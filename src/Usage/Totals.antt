-- ===== src/Usage/Totals.antt =====
-- crates/agentive/src/usage.rs: what the aggregate of a run is, over every recorded call.
use mathlib.Core.List.{append-nil}
use agentive.Base.{
  Text, ◌≡◌, ◌∙◌, ap, refl, true, false, List, [], ◌∷◌, ◌++◌, Option, none, some, All, is_empty,
  if◌then◌else◌, arith,
}
use agentive.Model.{ModelTokenUsage}
use agentive.Usage.{
  TokenUsage, ModelCallUsage, RunUsage, unknown, from_model, merge, merge_opt, merge_opt,
  is_complete, new, add_call, merge_child,
}
use agentive.Usage.Measures.{merge_assoc}

-- The sum of a measurement and of those of the calls after it.
abbrev total_from : TokenUsage → List ModelCallUsage → TokenUsage
total_from acc [] = acc
total_from acc (c ∷ cs) = total_from (merge acc c.usage) cs

-- The sum over all calls: unknown in each field that some call leaves unknown.
abbrev pub total : List ModelCallUsage → TokenUsage
total [] = unknown
total (c ∷ cs) = total_from c.usage cs

-- While usage counts as complete, every call reported every field, and the aggregate is the sum.
pub record IsSound (u : RunUsage) : Type 0 where
  pub exact : u.complete ≡ true → u.aggregate ≡ total u.model_calls
  pub known : u.complete ≡ true → All (λ c. is_complete c.usage ≡ true) u.model_calls

total_from-merge :
    (a b : TokenUsage) (cs : List ModelCallUsage)
    → total_from (merge a b) cs ≡ merge a (total_from b cs)
total_from-merge a b [] = refl
total_from-merge a b (c ∷ cs) =
    rw (merge_assoc a b c.usage) (total_from-merge a (merge b c.usage) cs)

total_from-append :
    (acc : TokenUsage) (xs : List ModelCallUsage) (c : ModelCallUsage) (ys : List ModelCallUsage)
    → total_from acc (xs ++ c ∷ ys) ≡ merge (total_from acc xs) (total_from c.usage ys)
total_from-append acc [] c ys = total_from-merge acc c.usage ys
total_from-append acc (x ∷ xs) c ys = total_from-append (merge acc x.usage) xs c ys

All-append :
    (P : ModelCallUsage → Type 0) (xs ys : List ModelCallUsage)
    → All P xs
    → All P ys
    → All P (xs ++ ys)
All-append P [] ys p q = q
All-append P (x ∷ xs) ys p q = (p.0, All-append P xs ys p.1 q)

-- A run that recorded nothing counts as complete.
pub new-IsSound : IsSound new
unfolding new
new-IsSound = record { exact = λ h. refl; known = λ h. tt }

-- Appending whole lists of calls keeps a sum a sum.
total_of_lists :
    (a b : TokenUsage) (xs ys : List ModelCallUsage)
    → a ≡ total xs
    → b ≡ total ys
    → (if is_empty ys then a else if is_empty xs then b else merge a b) ≡ total (xs ++ ys)
total_of_lists a b xs [] p q = rw (append-nil xs) p
total_of_lists a b [] (y ∷ ys) p q = q
total_of_lists a b (x ∷ xs) (y ∷ ys) p q = rw (p, q, total_from-append x.usage xs y ys)

-- Recording a call, whether or not the provider measured it, keeps usage sound: as long as it
-- counts as complete, its aggregate is the sum over the recorded calls, and each of them is
-- measured in every field.
pub add_call-IsSound :
    (r : RunUsage) (model : Text) (usage : Option ModelTokenUsage)
    → IsSound r
    → IsSound (add_call r model usage)
unfolding add_call
add_call-IsSound r model none s = record { exact = λ h. ground arith; known = λ h. ground arith }
add_call-IsSound r model (some u) s = record {
  exact =
      λ h. total_of_lists r.aggregate (from_model u) r.model_calls _ (s.exact (ground arith)) refl;
  known = λ h. All-append _ r.model_calls _ (s.known (ground arith)) (ground arith, tt);
}

-- Merging the usage of a child run that is sound keeps sound usage sound: as long as it counts as
-- complete, its aggregate is the sum over all recorded calls, each measured in every field.
pub merge_child-IsSound :
    (r child : RunUsage) → IsSound r → IsSound child → IsSound (merge_child r child)
unfolding merge_child
merge_child-IsSound r child s t = record {
  exact = λ h.
      total_of_lists r.aggregate child.aggregate r.model_calls child.model_calls
        (s.exact (ground arith)) (t.exact (ground arith));
  known = λ h.
      All-append _ r.model_calls child.model_calls (s.known (ground arith))
        (t.known (ground arith));
}

merge-unknown : (a : TokenUsage) → merge a unknown ≡ unknown
unfolding merge merge_opt
merge-unknown a = ground arith

total-unknown :
    (c : ModelCallUsage) (xs : List ModelCallUsage) (model : Text)
    → total ((c ∷ xs) ++ record { model = model; usage = unknown } ∷ []) ≡ unknown
total-unknown c xs model =
    total_from-append c.usage xs (record { model = model; usage = unknown }) []
    ∙ merge-unknown (total_from c.usage xs)

-- If usage is sound and complete and has a recorded call, then after an unmeasured call its
-- aggregate is the sum of the earlier calls alone, the sum over all recorded calls is unknown in
-- every field, and the usage is not complete.
pub add_call_unmeasured :
    (r : RunUsage) (c : ModelCallUsage) (cs : List ModelCallUsage) (model : Text)
    → IsSound r
    → r.complete ≡ true
    → r.model_calls ≡ c ∷ cs
    → let after = add_call r model none in
      (after.aggregate ≡ total (c ∷ cs))
      × (total after.model_calls ≡ unknown)
      × (after.complete ≡ false)
unfolding add_call
add_call_unmeasured r c cs model s done e = (
  s.exact done ∙ ap total e,
  ap (λ calls. total (calls ++ record { model = model; usage = unknown } ∷ [])) e
      ∙ total-unknown c cs model,
  refl,
)
