-- ===== src/Base/Saturating.antt =====
-- Saturating arithmetic on unsigned machine integers. `a.saturating_sub(b)` is `-` on ℕ.
use Prim.Native.Nat.{ℕ, ◌+◌, ◌*◌, min}
use mathlib.Core.Path.{◌≡◌}
use native.Mathlib.Omega.{arith}

abbrev pub u8_max : ℕ
u8_max = 255

abbrev pub u32_max : ℕ
u32_max = 4294967295

abbrev pub u64_max : ℕ
u64_max = 18446744073709551615

-- `a.saturating_add(b)` at the width whose greatest value is `top`.
abbrev pub sat_add : ℕ → ℕ → ℕ → ℕ
sat_add top a b = min (a + b) top

-- `a.saturating_mul(b)`.
abbrev pub sat_mul : ℕ → ℕ → ℕ → ℕ
sat_mul top a b = min (a * b) top

-- `u32::try_from(n).unwrap_or(u32::MAX)`, and so for the other widths.
abbrev pub clamp_to : ℕ → ℕ → ℕ
clamp_to top n = min n top

pub sat_add_assoc :
    (top a b c : ℕ) → sat_add top (sat_add top a b) c ≡ sat_add top a (sat_add top b c)
sat_add_assoc top a b c = omega arith

pub sat_add_comm : (top a b : ℕ) → sat_add top a b ≡ sat_add top b a
sat_add_comm top a b = omega arith

-- The width of `usize` on a 64-bit target.
abbrev pub usize_max : ℕ
usize_max = 18446744073709551615
