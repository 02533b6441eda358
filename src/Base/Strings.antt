-- ===== src/Base/Strings.antt =====
-- Rust's `String` as the list of its code points. `==` on texts, decimal rendering of a number
-- as by `format!("{n}")`, and the two facts that the effect identities rest on.
use Prim.Native.Nat.{ℕ, zero, suc, ◌+◌, ◌-◌, ◌*◌, ◌/◌, ◌%◌, ◌<◌}
use Prim.Native.Char.{code}
use Prim.Native.String.{String}
use mathlib.Core.Path.{◌≡◌, refl, ap, sym, ◌∙◌}
use mathlib.Core.Logic.{◌↔◌, inl, inr}
use mathlib.Core.Bool.{Bool, true, false, ◌&&◌, ◌||◌}
use mathlib.Core.List.{List, [], ◌∷◌, ◌++◌}
use native.Mathlib.Omega.{arith}
use agentive.Base.Tests.{ltb, leb, ◌==◌, Bool-cases, if◌then◌else◌}
use agentive.Base.Lists.{all}

abbrev pub Text : Type 0
Text = List ℕ

-- The text of a literal.
abbrev pub codes : String → Text
codes String.[] = []
codes (String.◌∷◌ c s) = code c ∷ codes s

abbrev pub text_eq : Text → Text → Bool
text_eq [] [] = true
text_eq (a ∷ s) (b ∷ t) = a == b && text_eq s t
text_eq _ _ = false

pub text_eq→eq : (s t : Text) → text_eq s t ≡ true → s ≡ t
text_eq→eq [] [] h = refl
text_eq→eq (a ∷ s) (b ∷ t) h = ground (arith, text_eq→eq s t)
text_eq→eq [] (b ∷ t) h = ground arith
text_eq→eq (a ∷ s) [] h = ground arith

pub text_eq_refl : (s : Text) → text_eq s s ≡ true
text_eq_refl [] = refl
text_eq_refl (a ∷ s) = ground (arith, text_eq_refl s)

pub text_eq_iff : (s t : Text) → (text_eq s t ≡ true) ↔ (s ≡ t)
text_eq_iff s t = (text_eq→eq s t, λ e. ground (arith, text_eq_refl s))

-- Unicode `White_Space`, by which `str::trim` goes.
pub is_whitespace : ℕ → Bool
is_whitespace c =
    (leb 9 c && leb c 13)
    || c == 32
    || c == 133
    || c == 160
    || c == 5760
    || (leb 8192 c && leb c 8202)
    || c == 8232
    || c == 8233
    || c == 8239
    || c == 8287
    || c == 12288

-- `text.trim().is_empty()`: nothing is left exactly when every character is white space.
unfoldable pub is_blank : Text → Bool
unfolding is_whitespace
is_blank s = all is_whitespace s

-- The number of bytes of a code point in UTF-8, and `text.len()`.
abbrev pub utf8_width : ℕ → ℕ
utf8_width c = if ltb c 128 then 1 else if ltb c 2048 then 2 else if ltb c 65536 then 3 else 4

abbrev pub byte_len : Text → ℕ
byte_len [] = 0
byte_len (c ∷ s) = utf8_width c + byte_len s

pub append-cancel : (r s t : Text) → r ++ s ≡ r ++ t → s ≡ t
append-cancel [] s t h = h
append-cancel (c ∷ r) s t h = append-cancel r s t (ground arith)

-- Decimal digits, most significant first, with fuel for at least as many digits.
decimal_digits : ℕ → ℕ → Text
decimal_digits zero n = []
decimal_digits (suc fuel) n =
    let front = decimal_digits fuel (n / 10) in
    if ltb n 10 then (48 + n) ∷ [] else front ++ (48 + n % 10) ∷ []

unfoldable pub decimal : ℕ → Text
unfolding decimal_digits
decimal n = decimal_digits (suc n) n

decimal_value : ℕ → Text → ℕ
decimal_value acc [] = acc
decimal_value acc (c ∷ s) = decimal_value (acc * 10 + (c - 48)) s

decimal_value-append :
    (acc : ℕ) (s : Text) (c : ℕ)
    → decimal_value acc (s ++ c ∷ []) ≡ decimal_value acc s * 10 + (c - 48)
unfolding decimal_value
decimal_value-append acc [] c = refl
decimal_value-append acc (d ∷ s) c = decimal_value-append (acc * 10 + (d - 48)) s c

decimal_value-decimal_digits : (fuel n : ℕ) → n < fuel → decimal_value 0 (decimal_digits fuel n) ≡ n
unfolding decimal_digits
decimal_value-decimal_digits zero n h = elim h [ ]
decimal_value-decimal_digits (suc fuel) n h = elim (Bool-cases (ltb n 10)) [
  | inl small ↦ rw small (unfold decimal_value in omega arith)
  | inr large ↦ rw large (
      decimal_value-append 0 (decimal_digits fuel (n / 10)) (48 + n % 10)
      ∙ omega (arith, decimal_value-decimal_digits fuel (n / 10) (ground arith)))
]

-- Different numbers are rendered differently.
pub decimal-injective : (m n : ℕ) → decimal m ≡ decimal n → m ≡ n
unfolding decimal
decimal-injective m n h =
    sym (decimal_value-decimal_digits (suc m) m (omega arith))
    ∙ ap (decimal_value 0) h
    ∙ decimal_value-decimal_digits (suc n) n (omega arith)
