-- ===== src/Tests/Joins.antt =====
-- Joined futures, where the first in order to fail is the one whose error is given.
use agentive.Base.{◌≡◌, refl, List, [], ◌∷◌, map, Result, ok, err, arith}
use agentive.Errors.{RunError}
use agentive.Execution.{Join}

module _ {A : Type 0} where
  abbrev add_value : A → Result RunError (List A) → Result RunError (List A)
  add_value a (ok values) = ok (a ∷ values)
  add_value a (err e) = err e

  unfoldable pub in_order : List (Result RunError A) → Result RunError (List A)
  in_order [] = ok []
  in_order (ok a ∷ rest) = add_value a (in_order rest)
  in_order (err e ∷ rest) = err e

  pub values_in_order :
      (rs : List (Result RunError A)) (values : List A)
      → in_order rs ≡ ok values
      → rs ≡ map ok values
  unfolding in_order
  values_in_order [] values h = ground arith
  values_in_order (ok a ∷ rest) [] h = ground arith
  values_in_order (ok a ∷ rest) (v ∷ vs) h = ground (arith, values_in_order rest vs)
  values_in_order (err e ∷ rest) values h = ground arith

  pub succeeds_in_order : (values : List A) → in_order (map ok values) ≡ ok values
  unfolding in_order
  succeeds_in_order [] = refl
  succeeds_in_order (a ∷ values) = rw (succeeds_in_order values) refl

abbrev pub join : {A : Type 0} → Join A
join = record { try_join_all = in_order; values = values_in_order; succeeds = succeeds_in_order }
