-- ===== src/Base/Cases.antt =====
-- A predicate of a value that is chosen by a test, an option or a result.
use mathlib.Core.Bool.{Bool, true, false}
use mathlib.Core.Option.{Option, none, some}
use mathlib.Core.Path.{◌≡◌, refl}
use native.Mathlib.Omega.{arith}
use agentive.Base.Tests.{◌>>◌, if◌then◌else◌, Result, ok, err, reject_if, ok_or}

module _ {ℓ κ} {A : Type ℓ} (P : A → Type κ) where
  pub by_test : (test : Bool) {x y : A} → P x → P y → P (if test then x else y)
  by_test true p q = p
  by_test false p q = q

  pub by_option :
      {B : Type 0} (o : Option B) {x : A} {f : B → A}
      → P x
      → ((b : B) → P (f b))
      → P (elim o as (λ _. A) [ none ↦ x | some b ↦ f b ])
  by_option none p q = p
  by_option (some b) p q = q b

  pub by_result :
      {E B : Type 0} (r : Result E B) {f : E → A} {g : B → A}
      → ((e : E) → P (f e))
      → ((b : B) → P (g b))
      → P (elim r as (λ _. A) [ err e ↦ f e | ok b ↦ g b ])
  by_result (err e) p q = p e
  by_result (ok b) p q = q b

module _ {E A : Type 0} where
  pub ok_or-some : (o : Option A) (e : E) (a : A) → ok_or o e ≡ ok a → o ≡ some a
  ok_or-some none e a h = absurd (ground arith)
  ok_or-some (some b) e a h = ground arith

-- A chain goes on after a check that has passed.
pub passed :
    {E A : Type 0} (test : Bool) (e : E) (next : Result E A) (last : A)
    → (reject_if test e >> next) ≡ ok last
    → (test ≡ false) × (next ≡ ok last)
passed true e next last h = absurd (ground arith)
passed false e next last h = (refl, h)

pub ok-injective : {E A : Type 0} {a b : A} → Path (Result E A) (ok a) (ok b) → a ≡ b
ok-injective e = ground arith
