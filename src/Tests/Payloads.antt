-- ===== src/Tests/Payloads.antt =====
-- Payloads that are stored and read back, on concrete values.
use agentive.Base.{
  Text, codes, text_eq, text_eq_iff, ◌≡◌, ◌↔◌, refl, sym, subst, ℕ, zero, suc, ◌≤◌, ◌<◌, Bool, true,
  false, ◌&&◌, List, [], ◌∷◌, All, Option, none, some, length, ltb, ◌==◌, if◌then◌else◌, Result, ok,
  err, ok-injective, arith,
}
use agentive.Payload.{
  Bytes, PayloadError, Payload, new_payload, with_metadata, reference_marker, applied, not_handled,
  PayloadCodec, StorageDriver, hex, v1_for, CodecUse, ExternalReference, Formats, new_reference,
  matches_bytes, validate_reference, is_external_reference,
}
use agentive.Payload.Pipeline.{
  PayloadPipeline, PayloadPipelineBuilder, build, claim_all, claim_versions, calculate,
  codecs_bytes, storage_of, prepare, transform, encode, store_prepared, reference_payload, decode,
  resolve, undo,
}
use agentive.Payload.Memory.{IsImmutable, memory, memory-IsImmutable, create_immutable, read}
use agentive.Payload.RoundTrip.{IsLawful, IsReversible, Fit, decode-encode}
use agentive.Payload.Ownership.{IsBuilt, build-IsBuilt}
use agentive.Payload.Hex.{parse_fingerprint, fingerprint_round_trip}

abbrev zeros : ℕ → Bytes
zeros zero = []
zeros (suc n) = 0 ∷ zeros n

zeros_small : (n : ℕ) → All (λ c. c < 256) (zeros n)
zeros_small zero = tt
zeros_small (suc n) = (ground arith, zeros_small n)

abbrev zero_text : Text
zero_text = codes "0000000000000000000000000000000000000000000000000000000000000000"

abbrev used : CodecUse
used = record { id = codes "x"; version = 1 }

-- The references of these tests differ in their sizes only.
abbrev reference : ℕ → ExternalReference
reference size = record {
  version = 1;
  storage_id = codes "s";
  object_id = codes "o";
  encoded_size = size;
  sha256 = zero_text;
  codecs = used ∷ [];
  pipeline_fingerprint = zero_text;
}

abbrev are_used : List CodecUse → Bool
are_used (u ∷ []) = text_eq u.id (codes "x") && (u.version == 1)
are_used codecs = false

abbrev is_reference : ExternalReference → Bool
is_reference r =
    (r.version == 1)
    && (text_eq r.storage_id (codes "s")
        && (text_eq r.object_id (codes "o")
            && (text_eq r.sha256 zero_text
                && (text_eq r.pipeline_fingerprint zero_text && are_used r.codecs))))

abbrev payload_bytes : Bytes → List (Text × Bytes) → Result PayloadError Bytes
payload_bytes content [] = ok content
payload_bytes content (entry ∷ more) = err PayloadError.json

abbrev with_entries : Bytes → List (Text × Bytes) → Payload
with_entries content metadata = record { content = content; metadata = metadata }

abbrev size_in : Bytes → Option ExternalReference
size_in (size ∷ []) = some (reference size)
size_in bytes = none

abbrev formats : Formats
formats = record {
  payload_to_vec = λ p. payload_bytes p.content p.metadata;
  payload_from_slice = λ bytes. some (with_entries bytes []);
  reference_to_vec =
      λ r. if is_reference r then ok (r.encoded_size ∷ []) else err PayloadError.json;
  reference_from_slice = size_in;
  sha256 = λ bytes. zeros 32;
}

payload_again :
    (content : Bytes) (metadata : List (Text × Bytes)) (b : Bytes)
    → payload_bytes content metadata ≡ ok b
    → some (with_entries b []) ≡ some (with_entries content metadata)
payload_again content [] b h = ground (arith, ok-injective h)
payload_again content (entry ∷ more) b h = absurd (ground arith)

are_the_used : (codecs : List CodecUse) → are_used codecs ≡ true → used ∷ [] ≡ codecs
are_the_used [] h = absurd (ground arith)
are_the_used (u ∷ v ∷ more) h = absurd (ground arith)
are_the_used (u ∷ []) h =
    let name : codes "x" ≡ u.id = sym ((text_eq_iff u.id (codes "x")).0 (ground arith)) in
    let one : 1 ≡ u.version = ground arith in λ i. record { id = name i; version = one i } ∷ []

reference_again :
    (r : ExternalReference) (b : Bytes)
    → (if is_reference r then ok (r.encoded_size ∷ []) else err PayloadError.json) ≡ ok b
    → size_in b ≡ some r
reference_again r b h =
    let same : is_reference r ≡ true = ground arith in
    let size : r.encoded_size ∷ [] ≡ b = ground arith in
    let version : 1 ≡ r.version = ground arith in
    let storage : codes "s" ≡ r.storage_id =
      sym ((text_eq_iff r.storage_id (codes "s")).0 (ground arith)) in
    let object : codes "o" ≡ r.object_id =
      sym ((text_eq_iff r.object_id (codes "o")).0 (ground arith)) in
    let digest : zero_text ≡ r.sha256 = sym ((text_eq_iff r.sha256 zero_text).0 (ground arith)) in
    let print : zero_text ≡ r.pipeline_fingerprint =
      sym ((text_eq_iff r.pipeline_fingerprint zero_text).0 (ground arith)) in
    let codecs : used ∷ [] ≡ r.codecs = are_the_used r.codecs (ground arith) in
    subst (λ bytes. size_in bytes ≡ some r) size
      (λ i. some (record {
        version = version i;
        storage_id = storage i;
        object_id = object i;
        encoded_size = r.encoded_size;
        sha256 = digest i;
        codecs = codecs i;
        pipeline_fingerprint = print i;
      }))

formats-IsLawful : IsLawful formats
formats-IsLawful = record {
  payloads = λ p b h. payload_again p.content p.metadata b h;
  references = reference_again;
  digest_length = λ b. refl;
  digest_bytes = λ b. zeros_small 32;
}

abbrev without_zero : Bytes → Bytes
without_zero [] = []
without_zero (b ∷ bs) = bs

abbrev within : ℕ → Bytes → Result PayloadError Bytes
within limit bytes =
    if ltb limit (length bytes)
    then err (PayloadError.size_limit (codes "decoded payload"))
    else ok bytes

-- A codec that writes a zero in front, and one that handles nothing.
abbrev padding : PayloadCodec
padding = record {
  descriptor = ok (record { id = codes "x"; encode_version = 1; decode_versions = 1 ∷ [] });
  encode = λ bytes. ok (applied (0 ∷ bytes));
  decode = λ version bytes limit. within limit (without_zero bytes);
}

abbrev unused : PayloadCodec
unused = record {
  descriptor = ok (record { id = codes "y"; encode_version = 2; decode_versions = 1 ∷ 2 ∷ [] });
  encode = λ bytes. ok not_handled;
  decode = λ version bytes limit. ok bytes;
}

unpadded :
    (bytes transformed : Bytes) (limit : ℕ)
    → padding.encode bytes ≡ ok (applied transformed)
    → length bytes ≤ limit
    → within limit (without_zero transformed) ≡ ok bytes
unpadded bytes transformed limit h fits =
    let same : 0 ∷ bytes ≡ transformed = ground arith in
    subst (λ t. within limit (without_zero t) ≡ ok bytes) same (ground arith)

padding-IsReversible : IsReversible padding
padding-IsReversible = record {
  described = record { id = codes "x"; encode_version = 1; decode_versions = 1 ∷ [] };
  descriptor = refl;
  readable = refl;
  reverses = unpadded;
}

unused-IsReversible : IsReversible unused
unused-IsReversible = record {
  described = record { id = codes "y"; encode_version = 2; decode_versions = 1 ∷ 2 ∷ [] };
  descriptor = refl;
  readable = refl;
  reverses = λ bytes transformed limit h fits. absurd (ground arith);
}

abbrev builder : PayloadPipelineBuilder (List (Text × Bytes))
builder = record {
  storages = (codes "s", memory) ∷ [];
  default_storage = some (codes "s");
  codecs = padding ∷ unused ∷ [];
  historical_fingerprints = [];
  limits = record { decoded_payload_bytes = 10; batch_bytes = 10 };
}

abbrev pipeline : PayloadPipeline (List (Text × Bytes))
pipeline = record {
  storages = builder.storages;
  default_storage = codes "s";
  codecs = builder.codecs;
  limits = builder.limits;
  fingerprint = zeros 32;
  accepted_fingerprints = zeros 32 ∷ [];
}

built : build formats builder ≡ ok pipeline
unfolding build claim_all claim_versions calculate codecs_bytes
built = refl

build-IsBuilt_example : IsBuilt pipeline
build-IsBuilt_example = build-IsBuilt formats builder pipeline built

default_driver :
    (driver : StorageDriver (List (Text × Bytes)))
    → storage_of pipeline.default_storage pipeline.storages ≡ some driver
    → IsImmutable driver
default_driver driver h =
    let same : memory ≡ driver = ground arith in subst IsImmutable same memory-IsImmutable

abbrev greeting : Payload
greeting = record { content = 7 ∷ 8 ∷ []; metadata = [] }

abbrev greeting_reference : Payload
greeting_reference = record {
  content = 3 ∷ [];
  metadata = (codes "encoding", reference_marker) ∷ [];
}

abbrev stores : List (Text × Bytes)
stores = (codes "v1/objects/o/o", 0 ∷ 7 ∷ 8 ∷ []) ∷ []

encoded : encode formats pipeline (codes "o") greeting [] ≡ (stores, ok greeting_reference)
unfolding encode prepare transform store_prepared reference_payload new_reference new_payload
    with_metadata v1_for hex create_immutable
encoded = refl

prepared :
    prepare formats pipeline greeting
    ≡ ok (record { bytes = 0 ∷ 7 ∷ 8 ∷ []; codecs = used ∷ []; decoded_size = 2 })
unfolding prepare transform
prepared = refl

greeting-Fit :
    (bytes : Bytes)
    → formats.payload_to_vec greeting ≡ ok bytes
    → Fit pipeline.limits.decoded_payload_bytes pipeline.codecs bytes
greeting-Fit bytes h =
    subst (Fit pipeline.limits.decoded_payload_bytes pipeline.codecs) (ok-injective h)
      (ground arith, tt)

decode-encode_example : decode formats pipeline greeting_reference stores ≡ ok greeting
decode-encode_example =
    decode-encode formats builder pipeline greeting
      (record { bytes = 0 ∷ 7 ∷ 8 ∷ []; codecs = used ∷ []; decoded_size = 2 }) (codes "o") []
      stores greeting_reference formats-IsLawful built default_driver
      (padding-IsReversible, (unused-IsReversible, tt)) prepared greeting-Fit (ground arith) encoded

fingerprint_round_trip_example :
    (parse_fingerprint zero_text ≡ ok (zeros 32)) ↔ (zero_text ≡ hex (zeros 32))
fingerprint_round_trip_example = fingerprint_round_trip zero_text (zeros 32) refl (zeros_small 32)

-- A codec that takes the first byte away.
abbrev trimming : PayloadCodec
trimming = record {
  descriptor = ok (record { id = codes "z"; encode_version = 1; decode_versions = 1 ∷ [] });
  encode = λ bytes. ok (applied (without_zero bytes));
  decode = λ version bytes limit. within limit (0 ∷ bytes);
}

abbrev narrow : PayloadPipeline (List (Text × Bytes))
narrow = record pipeline {
  codecs = padding ∷ trimming ∷ [];
  limits = record { decoded_payload_bytes = 2; batch_bytes = 2 };
}

abbrev narrow_formats : Formats
narrow_formats = record formats {
  reference_to_vec = λ r. ok (r.encoded_size ∷ []);
  reference_from_slice = λ bytes.
      some (record (reference 2) { codecs = used ∷ record { id = codes "z"; version = 1 } ∷ [] });
}

-- A payload that fits the limits, of which a form between two codecs does not, is encoded ...
between_forms_encoded : encode narrow_formats narrow (codes "o") greeting [] ≡ (
  (codes "v1/objects/o/o", 7 ∷ 8 ∷ []) ∷ [],
  ok (record { content = 2 ∷ []; metadata = (codes "encoding", reference_marker) ∷ [] }),
)
unfolding encode prepare transform store_prepared reference_payload new_reference new_payload
    with_metadata v1_for hex create_immutable
between_forms_encoded = refl

-- ... but is not decoded again.
between_forms_not_decoded :
    decode narrow_formats narrow
      (record { content = 2 ∷ []; metadata = (codes "encoding", reference_marker) ∷ [] })
      ((codes "v1/objects/o/o", 7 ∷ 8 ∷ []) ∷ [])
    ≡ err (PayloadError.size_limit (codes "decoded payload"))
unfolding decode resolve undo is_external_reference validate_reference matches_bytes v1_for hex read
between_forms_not_decoded = refl
