-- ===== src/Payload/Memory.antt =====
-- crates/temporal/src/storage.rs: the contract of immutable storage, and `InMemoryStorage`, whose lock
-- is never poisoned.
use agentive.Base.{
  Text, codes, text_eq, text_eq_refl, text_eq_iff, ◌≡◌, refl, ℕ, ◌≤◌, false, List, [], ◌∷◌, Option,
  none, some, length, ltb, if◌then◌else◌, Result, ok, err, arith,
}
use agentive.Payload.{Bytes, PayloadError, StorageDriver, get, insert}

-- What `StorageDriver` promises: an object that was created is read back within a bound that it fits,
-- and what can be read stays as it is, whatever is created, under the same key or another.
pub record IsImmutable {S : Type 0} (driver : StorageDriver S) : Type 0 where
  pub reads_created :
      (key : Text) (bytes : Bytes) (limit : ℕ) (s t : S)
      → driver.create_immutable key bytes s ≡ (t, ok tt)
      → length bytes ≤ limit
      → driver.read key limit t ≡ ok bytes
  pub keeps :
      (key other : Text) (bytes more : Bytes) (limit : ℕ) (s : S)
      → driver.read key limit s ≡ ok bytes
      → driver.read key limit (driver.create_immutable other more s).0 ≡ ok bytes

abbrev Objects : Type 0
Objects = List (Text × Bytes)

-- `InMemoryStorage::create_immutable`
unfoldable pub create_immutable : Text → Bytes → Objects → Objects × Result PayloadError (Unit {0})
create_immutable key bytes objects = elim (get key objects) [
  | some existing ↦
      (objects, if text_eq existing bytes then ok tt else err PayloadError.immutable_conflict)
  | none ↦ (insert key bytes objects, ok tt)
]

-- `InMemoryStorage::read`
unfoldable pub read : Text → ℕ → Objects → Result PayloadError Bytes
read key max_bytes objects = elim (get key objects) [
  | none ↦ err PayloadError.missing_object
  | some bytes ↦
      if ltb max_bytes (length bytes)
      then err (PayloadError.size_limit (codes "stored payload"))
      else ok bytes
]

-- `InMemoryStorage`
abbrev pub memory : StorageDriver Objects
memory = record { create_immutable = create_immutable; read = read }

get-insert :
    (key : Text) (bytes : Bytes) (objects : Objects)
    → get key (insert key bytes objects) ≡ some bytes
get-insert key bytes [] = ground (arith, text_eq_refl key)
get-insert key bytes ((k, v) ∷ rest) = ground (arith, text_eq_refl key, get-insert key bytes rest)

get-insert_other :
    (key other : Text) (bytes more : Bytes) (objects : Objects)
    → get key objects ≡ some bytes
    → get other objects ≡ none
    → get key (insert other more objects) ≡ some bytes
get-insert_other key other bytes more [] h n = absurd (ground arith)
get-insert_other key other bytes more ((k, v) ∷ rest) h n =
    ground (arith, get-insert_other key other bytes more rest)

reads_at :
    (key : Text) (bytes : Bytes) (limit : ℕ) (s t : Objects) (found : Option Bytes)
    → get key s ≡ found
    → create_immutable key bytes s ≡ (t, ok tt)
    → length bytes ≤ limit
    → read key limit t ≡ ok bytes
unfolding create_immutable read
reads_at key bytes limit s t none e h fits =
    ground (arith, rw (create_immutable, e) at h, get-insert key bytes s)
reads_at key bytes limit s t (some existing) e h fits =
    ground (arith, rw (create_immutable, e) at h, text_eq_iff existing bytes)

readable :
    (key : Text) (bytes : Bytes) (limit : ℕ) (s : Objects) (found : Option Bytes)
    → get key s ≡ found
    → read key limit s ≡ ok bytes
    → (get key s ≡ some bytes) × (ltb limit (length bytes) ≡ false)
unfolding read
readable key bytes limit s none e h = absurd (ground (arith, rw (read, e) at h))
readable key bytes limit s (some existing) e h = ground (arith, e, rw (read, e) at h)

keeps_at :
    (key other : Text) (bytes more : Bytes) (limit : ℕ) (s : Objects) (found : Option Bytes)
    → get other s ≡ found
    → read key limit s ≡ ok bytes
    → read key limit (create_immutable other more s).0 ≡ ok bytes
unfolding create_immutable read
keeps_at key other bytes more limit s none e h =
    let (f, fits) = readable key bytes limit s _ refl h in
    rw (create_immutable, e) (ground (arith, fits, get-insert_other key other bytes more s f e))
keeps_at key other bytes more limit s (some existing) e h = rw (create_immutable, e) h

-- In-memory storage keeps the contract: an object that was created is read back within a bound that it
-- fits, and what can be read is never changed by a creation, under its own key or another.
pub memory-IsImmutable : IsImmutable memory
memory-IsImmutable = record {
  reads_created = λ key bytes limit s t h fits. reads_at key bytes limit s t _ refl h fits;
  keeps = λ key other bytes more limit s h. keeps_at key other bytes more limit s _ refl h;
}
