-- ===== src/Attempts/Delay.antt =====
-- crates/agentive/src/run/effects.rs: the delay before a tool is tried again, as one formula.
use native.Mathlib.Nat.{pow-suc, pow-le-pow_right}
use agentive.Base.{
  Text, ◌≡◌, refl, ap, sym, subst, ◌∙◌, ℕ, zero, suc, ◌+◌, ◌*◌, ◌-◌, ◌%◌, ◌^◌, ◌≤◌, min, List, [],
  ◌∷◌, length, u8_max, u64_max, sat_add, sat_mul, arith,
}
use agentive.Attempts.{retry_ceiling, hash_bytes, utf8_bytes, retry_delay}

abbrev pub prime : ℕ
prime = 1099511628211

-- The bytes as the digits of a number in base `prime`, the last byte the lowest.
abbrev pub digits : List ℕ → ℕ
digits [] = 0
digits (b ∷ bs) = b * prime ^ length bs + digits bs

-- The same after a leading digit.
abbrev pub with_leading : ℕ → List ℕ → ℕ
with_leading first bs = first * prime ^ length bs + digits bs

wrapped_step :
    (hash byte : ℕ)
    → (hash % (u64_max + 1) * prime % (u64_max + 1) + byte) % (u64_max + 1)
      ≡ (hash * prime + byte) % (u64_max + 1)
wrapped_step hash byte = omega arith

shifted :
    (hash byte power rest : ℕ)
    → (hash * prime + byte) * power + rest ≡ hash * (power * prime) + (byte * power + rest)
shifted hash byte power rest = grind arith

-- Wrapping at every byte is wrapping once.
hash_bytes_lem :
    (hash : ℕ) (bytes : List ℕ)
    → hash_bytes (hash % (u64_max + 1)) bytes ≡ with_leading hash bytes % (u64_max + 1)
unfolding hash_bytes
hash_bytes_lem hash [] = ap (λ n. n % (u64_max + 1)) (omega arith)
hash_bytes_lem hash (b ∷ bs) =
    ap (λ h. hash_bytes h bs) (wrapped_step hash b)
    ∙ (hash_bytes_lem (hash * prime + b) bs
        ∙ ap (λ n. n % (u64_max + 1))
            (shifted hash b (prime ^ length bs) (digits bs)
              ∙ ap (λ p. hash * p + digits (b ∷ bs)) (sym (pow-suc prime (length bs)))))

-- `MAX_MS` is never reached, since the doubling stops before.
doubled : (k : ℕ) → min (sat_mul u64_max 5 (2 ^ min k 5)) 250 ≡ min (5 * 2 ^ k) 160
doubled zero = refl
doubled (suc zero) = refl
doubled (suc (suc zero)) = refl
doubled (suc (suc (suc zero))) = refl
doubled (suc (suc (suc (suc zero)))) = refl
doubled (suc (suc (suc (suc (suc k))))) =
    let five : min (suc (suc (suc (suc (suc k))))) 5 ≡ 5 = omega arith in
    let large : 2 ^ 5 ≤ 2 ^ suc (suc (suc (suc (suc k)))) =
      pow-le-pow_right (omega arith) {i = 5} (omega arith) in
    rw five (omega (arith, large))

-- The delay before another attempt is the number whose digits in base 1099511628211 are the attempt
-- and the bytes of the identity, modulo 2 ^ 64, and then reduced to at most a ceiling. The ceiling is
-- 5 milliseconds after the first attempt, doubles with every further one and stays at 160: the source's
-- maximum of 250 is never reached. The attempt is a `u8`.
pub retry_delay_exact :
    (identity : Text) (attempt : ℕ)
    → attempt ≤ u8_max
    → retry_delay identity attempt
      ≡ with_leading attempt (utf8_bytes identity) % 2 ^ 64 % (min (5 * 2 ^ (attempt - 1)) 160 + 1)
unfolding retry_delay
retry_delay_exact identity attempt width =
    let small : attempt % (u64_max + 1) ≡ attempt = omega arith in
    let hash : hash_bytes attempt (utf8_bytes identity)
        ≡ with_leading attempt (utf8_bytes identity) % 2 ^ 64 =
      subst
        (λ h.
          hash_bytes h (utf8_bytes identity) ≡ with_leading attempt (utf8_bytes identity) % 2 ^ 64)
        small (hash_bytes_lem attempt (utf8_bytes identity)) in
    let room : sat_add u64_max (retry_ceiling attempt) 1 ≡ min (5 * 2 ^ (attempt - 1)) 160 + 1 =
      omega (arith, doubled (attempt - 1)) in
    λ i. hash i % room i
