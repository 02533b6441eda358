-- ===== src/Payload/Pipeline.antt =====
-- crates/temporal/src/pipeline.rs and payload.rs: building a pipeline, encoding and decoding. The
-- identities of new objects, which the source draws at random, are inputs.
use agentive.Base.{
  Text, codes, text_eq, ℕ, ◌/◌, ◌%◌, Bool, false, not, ◌&&◌, ◌||◌, zip, List, [], ◌∷◌, ◌++◌, any,
  find, Option, none, some, is_some, length, ltb, ◌==◌, if◌then◌else◌, sat_add, usize_max, Result,
  ok, err, ◌>>=◌, ◌>>◌, reject_if, ok_or,
}
use agentive.Payload.{
  Bytes, PayloadError, Payload, new_payload, with_metadata, reference_marker, is_external_reference,
  claims_external_reference, PayloadLimits, contains, applied, not_handled, PayloadCodec,
  StorageDriver, v1_for, CodecUse, ExternalReference, Formats, new_reference, matches_bytes,
  validate_reference,
}

pub record PayloadPipeline (S : Type 0) : Type 0 where
  pub storages : List (Text × StorageDriver S)
  pub default_storage : Text
  pub codecs : List PayloadCodec
  pub limits : PayloadLimits
  pub fingerprint : Bytes
  pub accepted_fingerprints : List Bytes

pub record PayloadPipelineBuilder (S : Type 0) : Type 0 where
  pub storages : List (Text × StorageDriver S)
  pub default_storage : Option Text
  pub codecs : List PayloadCodec
  pub historical_fingerprints : List Bytes
  pub limits : PayloadLimits

abbrev pub Claims : Type 0
Claims = List (Text × ℕ)

-- `owners.contains`
abbrev pub is_claimed : Claims → Text → ℕ → Bool
is_claimed owners id version =
    any (λ (owner : Text × ℕ). text_eq owner.0 id && (owner.1 == version)) owners

-- A codec claims its versions; none of them may have been claimed.
unfoldable pub claim_versions : Claims → Text → List ℕ → Result PayloadError Claims
claim_versions owners id [] = ok owners
claim_versions owners id (v ∷ vs) =
    let more = claim_versions ((id, v) ∷ owners) id vs in
    if is_claimed owners id v
    then err (
        PayloadError.invalid_input (codes "codec registry")
          (codes "codec decode ownership overlaps"))
    else more

unfoldable pub claim_all : Claims → List PayloadCodec → Result PayloadError Claims
unfolding claim_versions
claim_all owners [] = ok owners
claim_all owners (codec ∷ rest) = do
  descriptor ← codec.descriptor
  more ← claim_versions owners descriptor.id descriptor.decode_versions
  claim_all more rest

-- `to_be_bytes` of a `u16`
abbrev be_bytes : ℕ → Bytes
be_bytes n = n / 256 % 256 ∷ n % 256 ∷ []

abbrev versions_bytes : List ℕ → Bytes
versions_bytes [] = []
versions_bytes (v ∷ vs) = be_bytes v ++ versions_bytes vs

-- What `PipelineFingerprint::calculate` hashes of the codecs.
unfoldable pub codecs_bytes : List PayloadCodec → Result PayloadError Bytes
codecs_bytes [] = ok []
codecs_bytes (codec ∷ rest) = do
  descriptor ← codec.descriptor
  more ← codecs_bytes rest
  ok (
      0
      ∷ (descriptor.id
          ++ (be_bytes descriptor.encode_version
              ++ (versions_bytes descriptor.decode_versions ++ more))))

-- `PipelineFingerprint::calculate`; identities are ASCII, so that their bytes are their codes.
unfoldable pub calculate : Formats → Text → List PayloadCodec → Result PayloadError Bytes
unfolding codecs_bytes
calculate f default_storage codecs = do
  bytes ← codecs_bytes codecs
  ok (f.sha256 (codes "agentive-temporal-pipeline-v1" ++ (0 ∷ default_storage ++ bytes)))

module _ {S : Type 0} where
  abbrev pub storage_of : Text → List (Text × StorageDriver S) → Option (StorageDriver S)
  storage_of id [] = none
  storage_of id ((key, driver) ∷ rest) = if text_eq key id then some driver else storage_of id rest

  -- `PayloadPipelineBuilder::storage`
  unfoldable pub add_storage :
      PayloadPipelineBuilder S
      → Text
      → StorageDriver S
      → Result PayloadError (PayloadPipelineBuilder S)
  add_storage b id driver =
      if is_some (storage_of id b.storages)
      then err (
          PayloadError.invalid_input (codes "storage registry")
            (codes "storage id is already registered"))
      else ok (record b { storages = (id, driver) ∷ b.storages })

  -- `PayloadPipelineBuilder::build`
  unfoldable pub build :
      Formats → PayloadPipelineBuilder S → Result PayloadError (PayloadPipeline S)
  unfolding claim_all calculate
  build f b = do
    default_storage ← ok_or b.default_storage (
        PayloadError.invalid_input (codes "storage registry")
          (codes "a default writer is required"))
    reject_if (not (is_some (storage_of default_storage b.storages))) (
        PayloadError.invalid_input (codes "storage registry")
          (codes "default writer is not registered"))
    owners ← claim_all [] b.codecs
    fingerprint ← calculate f default_storage b.codecs
    ok (record {
      storages = b.storages;
      default_storage = default_storage;
      codecs = b.codecs;
      limits = b.limits;
      fingerprint = fingerprint;
      accepted_fingerprints = fingerprint ∷ b.historical_fingerprints;
    })

pub record PreparedPayload : Type 0 where
  pub bytes : Bytes
  pub codecs : List CodecUse
  pub decoded_size : ℕ

-- The codecs' loop of `prepare`: the transformed bytes, and the codecs that were used, in order.
unfoldable pub transform : List PayloadCodec → Bytes → Result PayloadError (Bytes × List CodecUse)
transform [] bytes = ok (bytes, [])
transform (codec ∷ rest) bytes = codec.encode bytes >>= λ outcome. elim outcome [
  | applied transformed ↦ do
    descriptor ← codec.descriptor
    done ← transform rest transformed
    ok (done.0, record { id = descriptor.id; version = descriptor.encode_version } ∷ done.1)
  | not_handled ↦ transform rest bytes
]

-- Whether a codec decodes what was recorded.
abbrev pub decodes : CodecUse → PayloadCodec → Bool
decodes used codec = elim codec.descriptor [
  | err e ↦ false
  | ok descriptor ↦
      text_eq descriptor.id used.id && contains descriptor.decode_versions used.version
]

module _ {S : Type 0} (f : Formats) (pipeline : PayloadPipeline S) where
  -- `PayloadPipeline::prepare`
  unfoldable pub prepare : Payload → Result PayloadError PreparedPayload
  unfolding transform
  prepare payload = do
    bytes ← f.payload_to_vec payload
    reject_if (ltb pipeline.limits.decoded_payload_bytes (length bytes))
        (PayloadError.size_limit (codes "decoded payload"))
    done ← transform pipeline.codecs bytes
    reject_if (ltb pipeline.limits.batch_bytes (length done.0))
        (PayloadError.size_limit (codes "batch"))
    ok (record { bytes = done.0; codecs = done.1; decoded_size = length bytes })

  -- The reference payload of a stored object.
  unfoldable pub reference_payload : Text → PreparedPayload → Result PayloadError Payload
  unfolding new_reference new_payload with_metadata
  reference_payload object_id prepared = do
    bytes ← f.reference_to_vec (
        new_reference f pipeline.default_storage object_id prepared.bytes prepared.codecs
          pipeline.fingerprint)
    ok (with_metadata (new_payload bytes) (codes "encoding") reference_marker)

  -- `PayloadPipeline::store_prepared`
  unfoldable pub store_prepared : Text → PreparedPayload → S → S × Result PayloadError Payload
  unfolding reference_payload v1_for
  store_prepared object_id prepared s =
      elim (storage_of pipeline.default_storage pipeline.storages) [
        | none ↦ (s, err PayloadError.unknown_storage)
        | some driver ↦
            let (t, created) = driver.create_immutable (v1_for object_id) prepared.bytes s in
            (t, created >>= λ _. reference_payload object_id prepared)
      ]

  -- `PayloadPipeline::encode`
  unfoldable pub encode : Text → Payload → S → S × Result PayloadError Payload
  unfolding prepare store_prepared
  encode object_id payload s = elim (prepare payload) [
    | err e ↦ (s, err e)
    | ok prepared ↦ store_prepared object_id prepared s
  ]

  -- The codecs' loop of `decode`.
  unfoldable pub undo : List CodecUse → Bytes → Result PayloadError Bytes
  undo [] bytes = ok bytes
  undo (used ∷ rest) bytes = do
    codec ← ok_or (find (decodes used) pipeline.codecs) PayloadError.unknown_codec
    decoded ← codec.decode used.version bytes pipeline.limits.decoded_payload_bytes
    reject_if (ltb pipeline.limits.decoded_payload_bytes (length decoded))
        (PayloadError.size_limit (codes "decoded payload"))
    undo rest decoded

  abbrev pub reverse : List CodecUse → List CodecUse
  reverse [] = []
  reverse (u ∷ us) = reverse us ++ u ∷ []

  -- `decode`, for a payload that is a reference.
  unfoldable pub resolve : Payload → S → Result PayloadError Payload
  unfolding undo validate_reference matches_bytes v1_for
  resolve payload s = do
    reference ← ok_or (f.reference_from_slice payload.content) PayloadError.malformed_reference
    validate_reference reference pipeline.limits pipeline.accepted_fingerprints
    driver ← ok_or (storage_of reference.storage_id pipeline.storages) PayloadError.unknown_storage
    bytes ← driver.read (v1_for reference.object_id) reference.encoded_size s
    reject_if
        (not (length bytes == reference.encoded_size) || not (matches_bytes f reference bytes))
        PayloadError.integrity_mismatch
    decoded ← undo (reverse reference.codecs) bytes
    ok_or (f.payload_from_slice decoded) PayloadError.malformed_reference

  -- `PayloadPipeline::decode`
  unfoldable pub decode : Payload → S → Result PayloadError Payload
  unfolding resolve is_external_reference claims_external_reference
  decode payload s =
      if is_external_reference payload
      then resolve payload s
      else if claims_external_reference payload
      then err PayloadError.malformed_reference
      else ok payload

  -- The first pass of `encode_batch`, with the totals so far.
  unfoldable pub prepare_all : ℕ → ℕ → List Payload → Result PayloadError (List PreparedPayload)
  unfolding prepare
  prepare_all decoded_total stored_total [] = ok []
  prepare_all decoded_total stored_total (payload ∷ rest) = do
    prepared ← prepare payload
    reject_if
        (ltb pipeline.limits.batch_bytes (sat_add usize_max decoded_total prepared.decoded_size))
        (PayloadError.size_limit (codes "batch"))
    reject_if
        (ltb pipeline.limits.batch_bytes (sat_add usize_max stored_total (length prepared.bytes)))
        (PayloadError.size_limit (codes "batch"))
    more ←
        prepare_all (sat_add usize_max decoded_total prepared.decoded_size)
          (sat_add usize_max stored_total (length prepared.bytes)) rest
    ok (prepared ∷ more)

  -- The second pass of `encode_batch`, which stops at the first error.
  unfoldable pub store_all :
      List (Text × PreparedPayload) → S → S × Result PayloadError (List Payload)
  unfolding store_prepared
  store_all [] s = (s, ok [])
  store_all ((object_id, prepared) ∷ rest) s =
      let (t, stored) = store_prepared object_id prepared s in
      let (u, more) = store_all rest t in
      elim stored [
        | err e ↦ (t, err e)
        | ok first ↦ (u, more >>= λ payloads. ok (first ∷ payloads))
      ]

  -- `PayloadPipeline::encode_batch`; there are as many identities as payloads.
  unfoldable pub encode_batch :
      List Text → List Payload → S → S × Result PayloadError (List Payload)
  unfolding prepare_all store_all
  encode_batch object_ids payloads s = elim (prepare_all 0 0 payloads) [
    | err e ↦ (s, err e)
    | ok prepared ↦ store_all (zip object_ids prepared) s
  ]

  -- `decode`, over a batch in order, with the total so far.
  unfoldable pub decode_all : ℕ → List Payload → S → Result PayloadError (List Payload)
  unfolding decode
  decode_all decoded_total [] s = ok []
  decode_all decoded_total (payload ∷ rest) s = do
    decoded ← decode payload s
    bytes ← f.payload_to_vec decoded
    reject_if (ltb pipeline.limits.batch_bytes (sat_add usize_max decoded_total (length bytes)))
        (PayloadError.size_limit (codes "batch"))
    more ← decode_all (sat_add usize_max decoded_total (length bytes)) rest s
    ok (decoded ∷ more)

  abbrev size_of : ExternalReference → Result PayloadError ℕ
  size_of reference = ok reference.encoded_size

  -- The stored bytes that a payload of a batch stands for.
  unfoldable pub stored_size : Payload → Result PayloadError ℕ
  unfolding is_external_reference
  stored_size payload =
      if is_external_reference payload
      then (ok_or (f.reference_from_slice payload.content) PayloadError.malformed_reference
          >>= size_of)
      else ok (length payload.content)

  -- The first pass of `decode_batch`, with the total so far.
  unfoldable pub check_stored : ℕ → List Payload → Result PayloadError (Unit {0})
  unfolding stored_size
  check_stored stored_total [] = ok tt
  check_stored stored_total (payload ∷ rest) = do
    size ← stored_size payload
    reject_if (ltb pipeline.limits.batch_bytes (sat_add usize_max stored_total size))
        (PayloadError.size_limit (codes "batch"))
    check_stored (sat_add usize_max stored_total size) rest

  -- `PayloadPipeline::decode_batch`
  unfoldable pub decode_batch : List Payload → S → Result PayloadError (List Payload)
  unfolding check_stored decode_all
  decode_batch payloads s = do check_stored 0 payloads; decode_all 0 payloads s
