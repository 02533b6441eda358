-- ===== src/Payload.antt =====
-- crates/temporal/src/payload.rs, codec.rs, storage.rs and error.rs: payloads, their limits, codecs,
-- storage and the references to stored objects. Bytes are numbers below 256; `usize` has 64 bits, so
-- that conversions between `usize` and `u64` cannot fail.
pub mod Pipeline
pub mod Memory
pub mod RoundTrip
pub mod Ownership
pub mod Hex
use agentive.Base.{
  Text, codes, text_eq, ℕ, ◌+◌, ◌*◌, ◌/◌, ◌%◌, ◌-◌, Bool, true, false, not, ◌&&◌, ◌||◌, List, [],
  ◌∷◌, ◌++◌, map, all, any, find, Option, none, some, is_empty, length, ltb, leb, ◌==◌,
  if◌then◌else◌, Result, ok, err, ◌>>=◌, ◌>>◌, reject_if,
}

abbrev pub Bytes : Type 0
Bytes = List ℕ

pub data PayloadError : Type 0 where
  invalid_input : (kind : Text) (reason : Text) → PayloadError
  missing_object immutable_conflict integrity_mismatch : PayloadError
  size_limit : (kind : Text) → PayloadError
  unknown_storage pipeline_mismatch unknown_codec malformed_reference : PayloadError
  codec : Text → PayloadError
  io : (retryable : Bool) → PayloadError
  json : PayloadError

pub record Payload : Type 0 where
  pub content : Bytes
  pub metadata : List (Text × Bytes)

-- `BTreeMap::get` and `BTreeMap::insert`, where the order of the keys does not matter.
abbrev pub get : Text → List (Text × Bytes) → Option Bytes
get key [] = none
get key ((k, v) ∷ rest) = if text_eq key k then some v else get key rest

abbrev pub insert : Text → Bytes → List (Text × Bytes) → List (Text × Bytes)
insert key value [] = (key, value) ∷ []
insert key value ((k, v) ∷ rest) =
    let more = insert key value rest in if text_eq key k then (key, value) ∷ rest else (k, v) ∷ more

-- `Payload::new`
unfoldable pub new_payload : Bytes → Payload
new_payload content = record { content = content; metadata = [] }

-- `Payload::with_metadata`
unfoldable pub with_metadata : Payload → Text → Bytes → Payload
with_metadata p key value = record p { metadata = insert key value p.metadata }

-- `REFERENCE_MARKER` and its prefix
abbrev pub reference_marker : Bytes
reference_marker = codes "agentive.io/external-storage-v1"

abbrev pub reference_marker_prefix : Bytes
reference_marker_prefix = codes "agentive.io/external-storage-"

abbrev pub starts_with : Bytes → Bytes → Bool
starts_with bytes [] = true
starts_with [] (p ∷ ps) = false
starts_with (b ∷ bs) (p ∷ ps) = (b == p) && starts_with bs ps

-- `Payload::is_external_reference`
unfoldable pub is_external_reference : Payload → Bool
is_external_reference p = elim (get (codes "encoding") p.metadata) [
  | none ↦ false
  | some value ↦ text_eq value reference_marker
]

-- `Payload::claims_external_reference`
unfoldable pub claims_external_reference : Payload → Bool
claims_external_reference p = elim (get (codes "encoding") p.metadata) [
  | none ↦ false
  | some value ↦ starts_with value reference_marker_prefix
]

pub record PayloadLimits : Type 0 where
  pub decoded_payload_bytes : ℕ
  pub batch_bytes : ℕ

-- `PayloadLimits::default`
abbrev pub default_limits : PayloadLimits
default_limits = record { decoded_payload_bytes = 67108864; batch_bytes = 67108864 }

-- `PayloadLimits::new`
unfoldable pub new_limits : ℕ → ℕ → Result PayloadError PayloadLimits
new_limits decoded batch =
    if (decoded == 0) || (batch == 0)
    then err (PayloadError.invalid_input (codes "payload limits") (codes "limits must be nonzero"))
    else ok (record { decoded_payload_bytes = decoded; batch_bytes = batch })

abbrev is_id_char : ℕ → Bool
is_id_char c = (leb 97 c && leb c 122) || (leb 48 c && leb c 57) || (c == 45)

abbrev is_id : Text → Bool
is_id value = not (is_empty value) && leb (length value) 64 && all is_id_char value

-- `CodecId::new`
unfoldable pub new_codec_id : Text → Result PayloadError Text
new_codec_id value =
    if is_id value
    then ok value
    else err (
        PayloadError.invalid_input (codes "codec id")
          (codes "must be 1 to 64 lowercase ASCII letters, digits, or dashes"))

-- `StorageId::new`
unfoldable pub new_storage_id : Text → Result PayloadError Text
new_storage_id value =
    if is_id value
    then ok value
    else err (
        PayloadError.invalid_input (codes "storage id")
          (codes "must be 1 to 64 lowercase ASCII letters, digits, or dashes"))

-- `CodecVersion::new`
unfoldable pub new_codec_version : ℕ → Result PayloadError ℕ
new_codec_version value =
    if value == 0
    then err (PayloadError.invalid_input (codes "codec version") (codes "must be nonzero"))
    else ok value

pub record CodecDescriptor : Type 0 where
  pub id : Text
  pub encode_version : ℕ  -- u16
  pub decode_versions : List ℕ  -- in ascending order, each once

-- `BTreeSet::insert`
abbrev pub insert_version : ℕ → List ℕ → List ℕ
insert_version v [] = v ∷ []
insert_version v (u ∷ us) =
    let more = insert_version v us in
    if v == u then u ∷ us else if ltb v u then v ∷ u ∷ us else u ∷ more

abbrev pub version_set : List ℕ → List ℕ
version_set [] = []
version_set (v ∷ vs) = insert_version v (version_set vs)

-- `CodecDescriptor::accepts_decode_version`
abbrev pub contains : List ℕ → ℕ → Bool
contains versions version = any (λ v. v == version) versions

-- `CodecDescriptor::new`
unfoldable pub new_descriptor : Text → ℕ → List ℕ → Result PayloadError CodecDescriptor
new_descriptor id encode_version decode_versions =
    let versions = version_set decode_versions in
    if contains versions encode_version
    then ok (record { id = id; encode_version = encode_version; decode_versions = versions })
    else err (
        PayloadError.invalid_input (codes "codec descriptor")
          (codes "the encode version must be accepted for decoding"))

pub data CodecOutcome : Type 0 where
  applied : Bytes → CodecOutcome
  not_handled : CodecOutcome

-- `PayloadCodec`
pub record PayloadCodec : Type 0 where
  pub descriptor : Result PayloadError CodecDescriptor
  pub encode : Bytes → Result PayloadError CodecOutcome
  pub decode : ℕ → Bytes → ℕ → Result PayloadError Bytes

-- `StorageDriver`, over the state of the world of stores. An object's key is that of its identity.
pub record StorageDriver (S : Type 0) : Type 0 where
  pub create_immutable : Text → Bytes → S → S × Result PayloadError (Unit {0})
  pub read : Text → ℕ → S → Result PayloadError Bytes

abbrev hex_digit : ℕ → ℕ
hex_digit n = if ltb n 10 then 48 + n else 87 + n

-- `hex`
unfoldable pub hex : Bytes → Text
hex [] = []
hex (b ∷ bs) = hex_digit (b / 16) ∷ hex_digit (b % 16) ∷ hex bs

abbrev take_three : Text → Text
take_three (a ∷ b ∷ c ∷ rest) = a ∷ b ∷ c ∷ []
take_three text = text

-- `ObjectKey::v1_for`, from the text of an identity.
unfoldable pub v1_for : Text → Text
v1_for id = codes "v1/objects/" ++ (take_three id ++ (codes "/" ++ id))

abbrev pub is_hex_char : ℕ → Bool
is_hex_char c = (leb 48 c && leb c 57) || (leb 97 c && leb c 102)

pub record CodecUse : Type 0 where
  pub id : Text
  pub version : ℕ

pub record ExternalReference : Type 0 where
  pub version : ℕ  -- u8
  pub storage_id : Text
  pub object_id : Text
  pub encoded_size : ℕ  -- u64
  pub sha256 : Text
  pub codecs : List CodecUse
  pub pipeline_fingerprint : Text

-- What the crate takes from serde_json and from sha2.
pub record Formats : Type 0 where
  pub payload_to_vec : Payload → Result PayloadError Bytes
  pub payload_from_slice : Bytes → Option Payload
  pub reference_to_vec : ExternalReference → Result PayloadError Bytes
  pub reference_from_slice : Bytes → Option ExternalReference
  pub sha256 : Bytes → Bytes

module _ (f : Formats) where
  -- `ExternalReference::new`
  unfoldable pub new_reference : Text → Text → Bytes → List CodecUse → Bytes → ExternalReference
  unfolding hex
  new_reference storage_id object_id bytes codecs fingerprint = record {
    version = 1;
    storage_id = storage_id;
    object_id = object_id;
    encoded_size = length bytes;
    sha256 = hex (f.sha256 bytes);
    codecs = codecs;
    pipeline_fingerprint = hex fingerprint;
  }

  -- `ExternalReference::matches_bytes`
  unfoldable pub matches_bytes : ExternalReference → Bytes → Bool
  unfolding hex
  matches_bytes reference bytes = text_eq (hex (f.sha256 bytes)) reference.sha256

-- `ExternalReference::validate`
unfoldable pub validate_reference :
    ExternalReference → PayloadLimits → List Bytes → Result PayloadError (Unit {0})
unfolding hex
validate_reference reference limits fingerprints = do
  reject_if
      (not (reference.version == 1)
        || ((reference.encoded_size == 0) && not (is_empty reference.codecs)))
      PayloadError.malformed_reference
  reject_if (ltb limits.batch_bytes reference.encoded_size)
      (PayloadError.size_limit (codes "batch"))
  reject_if (not (length reference.sha256 == 64) || not (all is_hex_char reference.sha256))
      PayloadError.malformed_reference
  reject_if
      (not (
        any (λ fingerprint. text_eq reference.pipeline_fingerprint (hex fingerprint)) fingerprints))
      PayloadError.pipeline_mismatch
