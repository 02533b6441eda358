-- ===== src/Payload/Hex.antt =====
-- crates/temporal/src/payload.rs: hexadecimal digests and fingerprints.
use agentive.Base.{
  sym, ap, ◌∙◌, ◌&&◌, ok-injective, codes, ◌↔◌, ◌-◌, zero, suc, not, ◌||◌, ◌==◌, leb, if◌then◌else◌,
  Result, ok, err, Text, ◌≡◌, refl, ℕ, ◌+◌, ◌*◌, ◌<◌, ◌/◌, ◌%◌, Bool, true, false, [], ◌∷◌, all,
  All, length, arith,
}
use agentive.Payload.{Bytes, PayloadError, hex, hex_digit, is_hex_char}

pub hex-length : (bytes : Bytes) → length (hex bytes) ≡ 2 * length bytes
unfolding hex
hex-length [] = refl
hex-length (b ∷ bs) = omega (arith, hex-length bs)

pub hex-chars : (bytes : Bytes) → All (λ b. b < 256) bytes → all is_hex_char (hex bytes) ≡ true
unfolding hex
hex-chars [] h = refl
hex-chars (b ∷ bs) (h, hs) = ground (arith, hex-chars bs hs)

-- `u8::from_str_radix` of two hexadecimal characters.
abbrev hex_value : ℕ → ℕ
hex_value c = if leb c 57 then c - 48 else c - 87

abbrev from_hex : Text → Bytes
from_hex [] = []
from_hex (a ∷ []) = []
from_hex (a ∷ b ∷ rest) = (hex_value a * 16 + hex_value b) ∷ from_hex rest

-- `PipelineFingerprint::parse`
unfoldable pub parse_fingerprint : Text → Result PayloadError Bytes
parse_fingerprint value =
    if not (length value == 64) || not (all is_hex_char value)
    then err (
        PayloadError.invalid_input (codes "pipeline fingerprint")
          (codes "must be 64 lowercase hexadecimal characters"))
    else ok (from_hex value)

from_hex-hex : (bytes : Bytes) → All (λ b. b < 256) bytes → from_hex (hex bytes) ≡ bytes
unfolding hex
from_hex-hex [] h = refl
from_hex-hex (b ∷ bs) (h, hs) = ground (arith, from_hex-hex bs hs)

digit_value : (c : ℕ) → is_hex_char c ≡ true → (hex_digit (hex_value c) ≡ c) × (hex_value c < 16)
digit_value c h = ground arith

high_digit : (u v : ℕ) → v < 16 → (u * 16 + v) / 16 ≡ u
high_digit u v h = omega arith

low_digit : (u v : ℕ) → v < 16 → (u * 16 + v) % 16 ≡ v
low_digit u v h = omega arith

both : (p q : Bool) → (p && q) ≡ true → (p ≡ true) × (q ≡ true)
both true q h = (refl, h)
both false q h = absurd (ground arith)

hex-from_hex :
    (n : ℕ) (value : Text)
    → length value ≡ 2 * n
    → all is_hex_char value ≡ true
    → hex (from_hex value) ≡ value
unfolding hex
hex-from_hex n [] e h = refl
hex-from_hex n (a ∷ []) e h = absurd (omega arith)
hex-from_hex zero (a ∷ b ∷ rest) e h = absurd (omega arith)
hex-from_hex (suc n) (a ∷ b ∷ rest) e h =
    let (ha, h1) = both (is_hex_char a) (is_hex_char b && all is_hex_char rest) h in
    let (hb, h2) = both (is_hex_char b) (all is_hex_char rest) h1 in
    let (da, _) = digit_value a ha in
    let (db, small) = digit_value b hb in
    rw
      (
        high_digit (hex_value a) (hex_value b) small,
        low_digit (hex_value a) (hex_value b) small,
        da,
        db,
        hex-from_hex n rest (omega arith) h2,
      )
      refl

size_of : (n : ℕ) → (n == 64) ≡ true → n ≡ 2 * 32
size_of n e = ground arith

checked :
    {A E : Type 0} (refused : Bool) (e : E) (a b : A)
    → (if refused then err e else ok a) ≡ ok b
    → (refused ≡ false) × (a ≡ b)
checked true e a b h = absurd (ground arith)
checked false e a b h = (refl, ok-injective h)

both_hold : (p q : Bool) → (not p || not q) ≡ false → (p ≡ true) × (q ≡ true)
both_hold true true h = (refl, refl)
both_hold true false h = absurd (ground arith)
both_hold false q h = absurd (ground arith)

parsed : (value : Text) (bytes : Bytes) → parse_fingerprint value ≡ ok bytes → value ≡ hex bytes
unfolding parse_fingerprint
parsed value bytes h =
    let (fine, same) =
      checked (not (length value == 64) || not (all is_hex_char value)) _ (from_hex value) bytes
        h in
    let (sized, good) = both_hold (length value == 64) (all is_hex_char value) fine in
    sym (hex-from_hex 32 value (size_of (length value) sized) good) ∙ ap hex same

-- A text is parsed as a fingerprint exactly when it is that fingerprint's own text; a fingerprint has
-- 32 bytes.
pub fingerprint_round_trip :
    (value : Text) (bytes : Bytes)
    → length bytes ≡ 32
    → All (λ b. b < 256) bytes
    → (parse_fingerprint value ≡ ok bytes) ↔ (value ≡ hex bytes)
unfolding parse_fingerprint
fingerprint_round_trip value bytes size small = (
  parsed value bytes,
  (λ e.
      let whole : length (hex bytes) ≡ 64 = omega (arith, hex-length bytes) in
      rw (e, whole, hex-chars bytes small, from_hex-hex bytes small) refl),
)
