-- ===== src/Payload/RoundTrip.antt =====
-- crates/temporal/src/pipeline.rs: what is encoded is decoded again.
use agentive.Base.{
  Text, codes, text_eq, text_eq_refl, ◌≡◌, refl, ◌∙◌, ap, subst, ℕ, ◌≤◌, ◌<◌, true, false, List, [],
  ◌∷◌, ◌++◌, all, any, find, All, some, length, ltb, ◌==◌, Result, ok, err, ◌>>=◌, ok_or, arith,
  bind-eq-ok, ok-injective, passed,
}
use agentive.Payload.{
  Bytes, contains, PayloadError, Payload, is_external_reference, CodecDescriptor, CodecOutcome,
  applied, not_handled, PayloadCodec, StorageDriver, hex, v1_for, CodecUse, ExternalReference,
  Formats, new_reference, matches_bytes, validate_reference, is_hex_char, new_payload,
  with_metadata, reference_marker,
}
use agentive.Payload.Pipeline.{
  PayloadPipeline, PayloadPipelineBuilder, build, PreparedPayload, storage_of, transform, decodes,
  prepare, reference_payload, store_prepared, encode, undo, reverse, resolve, decode,
}
use agentive.Payload.Memory.{IsImmutable}
use agentive.Payload.Ownership.{IsFound, build-IsBuilt}
use agentive.Payload.Hex.{hex-length, hex-chars}

-- What serde_json and sha2 document: what is written is read back, and a digest has 32 bytes.
pub record IsLawful (f : Formats) : Type 0 where
  pub payloads :
      (p : Payload) (b : Bytes) → f.payload_to_vec p ≡ ok b → f.payload_from_slice b ≡ some p
  pub references :
      (r : ExternalReference) (b : Bytes)
      → f.reference_to_vec r ≡ ok b
      → f.reference_from_slice b ≡ some r
  pub digest_length : (b : Bytes) → length (f.sha256 b) ≡ 32
  pub digest_bytes : (b : Bytes) → All (λ c. c < 256) (f.sha256 b)

-- What `PayloadCodec` promises: it has a descriptor, by which it decodes what it writes, and what it has
-- transformed it turns back, within a limit that it fits.
pub record IsReversible (codec : PayloadCodec) : Type 0 where
  pub described : CodecDescriptor
  pub descriptor : codec.descriptor ≡ ok described
  pub readable : contains described.decode_versions described.encode_version ≡ true
  pub reverses :
      (bytes transformed : Bytes) (limit : ℕ)
      → codec.encode bytes ≡ ok (applied transformed)
      → length bytes ≤ limit
      → codec.decode described.encode_version transformed limit ≡ ok bytes

-- A codec of a pipeline that finds it by what it records.
record IsUsable {S : Type 0} (pipeline : PayloadPipeline S) (codec : PayloadCodec) : Type 0 where
  reversible : IsReversible codec
  owned :
      find
        (decodes
          (record { id = reversible.described.id; version = reversible.described.encode_version }))
        pipeline.codecs
      ≡ some codec

usable :
    {S : Type 0} (pipeline : PayloadPipeline S) (codecs : List PayloadCodec)
    → All IsReversible codecs
    → All (IsFound pipeline.codecs) codecs
    → All (IsUsable pipeline) codecs
usable pipeline [] reversible found = tt
usable pipeline (c ∷ cs) (r, rs) (found, founds) = (
  record {
    reversible = r;
    owned = found r.described r.described.encode_version r.descriptor r.readable;
  },
  usable pipeline cs rs founds,
)

-- Every form of the bytes that a codec transforms fits the limit.
abbrev pub Fit : ℕ → List PayloadCodec → Bytes → Type 0
Fit limit [] bytes = Unit
Fit limit (codec ∷ rest) bytes = elim (codec.encode bytes) as (λ _. Type 0) [
  | err e ↦ Unit
  | ok outcome ↦ elim outcome as (λ _. Type 0) [
    | not_handled ↦ Fit limit rest bytes
    | applied transformed ↦ (length bytes ≤ limit) × Fit limit rest transformed
  ]
]

module _ {S : Type 0} (f : Formats) (pipeline : PayloadPipeline S) where
  undo-append :
      (xs : List CodecUse) (u : CodecUse) (bytes between : Bytes)
      → undo f pipeline xs bytes ≡ ok between
      → undo f pipeline (xs ++ u ∷ []) bytes ≡ undo f pipeline (u ∷ []) between
  unfolding undo
  undo-append [] u bytes between h = ap (undo f pipeline (u ∷ [])) (ground (arith, h))
  undo-append (x ∷ xs) u bytes between h =
      let (codec, e, h1) =
        bind-eq-ok (ok_or (find (decodes x) pipeline.codecs) PayloadError.unknown_codec) _ h in
      let (decoded, d, h2) =
        bind-eq-ok (codec.decode x.version bytes pipeline.limits.decoded_payload_bytes) _ h1 in
      let (r, h3) = passed (ltb pipeline.limits.decoded_payload_bytes (length decoded)) _ _ _ h2 in
      rw (e, d, r) (undo-append xs u decoded between h3)

  -- One codec turns back what it has transformed.
  undo_one :
      (codec : PayloadCodec) (bytes transformed : Bytes) (c : IsUsable pipeline codec)
      → codec.encode bytes ≡ ok (applied transformed)
      → length bytes ≤ pipeline.limits.decoded_payload_bytes
      → undo f pipeline
          (record {
            id = c.reversible.described.id;
            version = c.reversible.described.encode_version;
          }
            ∷ [])
          transformed
        ≡ ok bytes
  unfolding undo
  undo_one codec bytes transformed c e fits =
      let small : ltb pipeline.limits.decoded_payload_bytes (length bytes) ≡ false =
        ground (arith) in
      rw
        (
          c.owned,
          c.reversible.reverses bytes transformed pipeline.limits.decoded_payload_bytes e fits,
          small,
        )
        refl

  transformed_by :
      (codec : PayloadCodec) (rest : List PayloadCodec) (bytes last : Bytes) (used : List CodecUse)
      (outcome : Result PayloadError CodecOutcome)
      → codec.encode bytes ≡ outcome
      → All (IsUsable pipeline) (codec ∷ rest)
      → Fit pipeline.limits.decoded_payload_bytes (codec ∷ rest) bytes
      → transform (codec ∷ rest) bytes ≡ ok (last, used)
      → ((next final : Bytes) (more : List CodecUse)
          → Fit pipeline.limits.decoded_payload_bytes rest next
          → transform rest next ≡ ok (final, more)
          → undo f pipeline (reverse f pipeline more) final ≡ ok next)
      → undo f pipeline (reverse f pipeline used) last ≡ ok bytes
  unfolding transform undo
  transformed_by codec rest bytes last used (err e) h all fit t later =
      absurd (ground (arith, rw h at t))
  transformed_by codec rest bytes last used (ok not_handled) h all fit t later =
      later bytes last used (rw h at fit) (rw h at t)
  transformed_by codec rest bytes last used (ok (applied next)) h (c, all) fit t later =
      let (done, e, made) =
        bind-eq-ok (transform rest next) _ (rw (h, c.reversible.descriptor) at t) in
      let (fits, fit_next) : (length bytes ≤ pipeline.limits.decoded_payload_bytes)
          × Fit pipeline.limits.decoded_payload_bytes rest next =
        rw h at fit in
      subst
        (λ (done : Bytes × List CodecUse).
          undo f pipeline (reverse f pipeline done.1) done.0 ≡ ok bytes)
        (ok-injective made)
        (undo-append (reverse f pipeline done.1) _ done.0 next (later next done.0 done.1 fit_next e)
          ∙ undo_one codec bytes next c h fits)

  undo-transform :
      (codecs : List PayloadCodec) (bytes last : Bytes) (used : List CodecUse)
      → All (IsUsable pipeline) codecs
      → Fit pipeline.limits.decoded_payload_bytes codecs bytes
      → transform codecs bytes ≡ ok (last, used)
      → undo f pipeline (reverse f pipeline used) last ≡ ok bytes
  unfolding transform undo
  undo-transform [] bytes last used all fit t =
      subst
        (λ (done : Bytes × List CodecUse).
          undo f pipeline (reverse f pipeline done.1) done.0 ≡ ok bytes)
        (ok-injective t) refl
  undo-transform (codec ∷ rest) bytes last used all fit t =
      transformed_by codec rest bytes last used _ refl all fit t
        (λ next final more fits e. undo-transform rest next final more all.1 fits e)

  -- What `prepare` has made of a payload.
  record IsPreparedOf (payload : Payload) (prepared : PreparedPayload) : Type 0 where
    bytes : Bytes
    serialized : f.payload_to_vec payload ≡ ok bytes
    transformed : transform pipeline.codecs bytes ≡ ok (prepared.bytes, prepared.codecs)
    bounded : ltb pipeline.limits.batch_bytes (length prepared.bytes) ≡ false

  prepared_of :
      (payload : Payload) (prepared : PreparedPayload)
      → prepare f pipeline payload ≡ ok prepared
      → IsPreparedOf payload prepared
  unfolding prepare
  prepared_of payload prepared h =
      let (bytes, e, h1) = bind-eq-ok (f.payload_to_vec payload) _ h in
      let (_, h2) = passed (ltb pipeline.limits.decoded_payload_bytes (length bytes)) _ _ _ h1 in
      let (done, d, h3) = bind-eq-ok (transform pipeline.codecs bytes) _ h2 in
      let (small, h4) = passed (ltb pipeline.limits.batch_bytes (length done.0)) _ _ _ h3 in
      let made : (record { bytes = done.0; codecs = done.1; decoded_size = length bytes })
          ≡ prepared =
        ok-injective h4 in
      subst (IsPreparedOf payload) made
        (record { bytes = bytes; serialized = e; transformed = d; bounded = small })

  -- The pipeline's own reference is valid, if something is stored and its own fingerprint is accepted.
  own_reference_valid :
      (object_id : Text) (prepared : PreparedPayload) (others : List Bytes)
      → IsLawful f
      → 0 < length prepared.bytes
      → ltb pipeline.limits.batch_bytes (length prepared.bytes) ≡ false
      → pipeline.accepted_fingerprints ≡ pipeline.fingerprint ∷ others
      → validate_reference
          (new_reference f pipeline.default_storage object_id prepared.bytes prepared.codecs
            pipeline.fingerprint)
          pipeline.limits
          pipeline.accepted_fingerprints
        ≡ ok tt
  unfolding validate_reference new_reference
  own_reference_valid object_id prepared others law stored small own =
      let size : length (hex (f.sha256 prepared.bytes)) ≡ 64 =
        ground (arith, hex-length (f.sha256 prepared.bytes), law.digest_length prepared.bytes) in
      let nonzero : (length prepared.bytes == 0) ≡ false = ground arith in
      let hexadecimal : all is_hex_char (hex (f.sha256 prepared.bytes)) ≡ true =
        hex-chars (f.sha256 prepared.bytes) (law.digest_bytes prepared.bytes) in
      let known : any (λ fingerprint. text_eq (hex pipeline.fingerprint) (hex fingerprint))
            pipeline.accepted_fingerprints
          ≡ true =
        rw (own) (ground (arith, text_eq_refl (hex pipeline.fingerprint))) in
      ground (arith, nonzero, size, hexadecimal, known)

  module _ (driver : StorageDriver S) (law : IsLawful f)
      (found : storage_of pipeline.default_storage pipeline.storages ≡ some driver)
      (immutable : IsImmutable driver) (others : List Bytes)
      (own : pipeline.accepted_fingerprints ≡ pipeline.fingerprint ∷ others)
      (codecs_usable : All (IsUsable pipeline) pipeline.codecs) where
    -- What `store_prepared` leaves.
    record IsStored (object_id : Text) (prepared : PreparedPayload) (s t : S) (q : Payload)
        : Type 0 where
      content : Bytes
      created : driver.create_immutable (v1_for object_id) prepared.bytes s ≡ (t, ok tt)
      referred :
          f.reference_to_vec (
            new_reference f pipeline.default_storage object_id prepared.bytes prepared.codecs
              pipeline.fingerprint)
          ≡ ok content
      made : with_metadata (new_payload content) (codes "encoding") reference_marker ≡ q

    store_prepared-IsStored :
        (object_id : Text) (prepared : PreparedPayload) (s t : S) (q : Payload)
        → store_prepared f pipeline object_id prepared s ≡ (t, ok q)
        → IsStored object_id prepared s t q
    unfolding store_prepared reference_payload
    store_prepared-IsStored object_id prepared s t q h =
        let h1 : (
          (driver.create_immutable (v1_for object_id) prepared.bytes s).0,
          (driver.create_immutable (v1_for object_id) prepared.bytes s).1 >>= λ _.
              reference_payload f pipeline object_id prepared,
        )
            ≡ (t, ok q) =
          rw (store_prepared, found) at h in
        let (_, created, h2) =
          bind-eq-ok (driver.create_immutable (v1_for object_id) prepared.bytes s).1 _
            (ap (λ r. r.1) h1) in
        let (content, referred, h3) = bind-eq-ok (f.reference_to_vec _) _ h2 in
        record {
          content = content;
          created = λ i. (ap (λ (r : S × Result PayloadError Payload). r.0) h1 i, created i);
          referred = referred;
          made = ok-injective h3;
        }

    -- A stored payload is resolved to the payload that was prepared.
    decode-stored :
        (payload : Payload) (prepared : PreparedPayload) (object_id : Text) (s t : S) (q : Payload)
        → (p : IsPreparedOf payload prepared)
        → Fit pipeline.limits.decoded_payload_bytes pipeline.codecs p.bytes
        → 0 < length prepared.bytes
        → IsStored object_id prepared s t q
        → decode f pipeline q t ≡ ok payload
    unfolding decode resolve is_external_reference with_metadata new_payload new_reference
        matches_bytes
    decode-stored payload prepared object_id s t q p fit stored k =
        let same : (length prepared.bytes == length prepared.bytes) ≡ true = ground arith in
        subst (λ u. decode f pipeline u t ≡ ok payload) k.made
          (rw
            (
              law.references _ k.content k.referred,
              own_reference_valid object_id prepared others law stored p.bounded own,
              found,
              immutable.reads_created (v1_for object_id) prepared.bytes (length prepared.bytes) s t
                  k.created (omega arith),
              same,
              text_eq_refl (hex (f.sha256 prepared.bytes)),
              undo-transform pipeline.codecs p.bytes prepared.bytes prepared.codecs codecs_usable
                  fit p.transformed,
              law.payloads payload p.bytes p.serialized,
            )
            refl)

    decode-prepared :
        (payload : Payload) (prepared : PreparedPayload) (object_id : Text) (s t : S) (q : Payload)
        → prepare f pipeline payload ≡ ok prepared
        → ((bytes : Bytes)
            → f.payload_to_vec payload ≡ ok bytes
            → Fit pipeline.limits.decoded_payload_bytes pipeline.codecs bytes)
        → 0 < length prepared.bytes
        → encode f pipeline object_id payload s ≡ (t, ok q)
        → decode f pipeline q t ≡ ok payload
    unfolding encode
    decode-prepared payload prepared object_id s t q e fit stored h =
        let p = prepared_of payload prepared e in
        decode-stored payload prepared object_id s t q p (fit p.bytes p.serialized) stored
          (store_prepared-IsStored object_id prepared s t q (rw (encode, e) at h))

-- What is encoded is decoded again, from the stores that encoding leaves: the reference that `encode`
-- gives resolves to the payload, in a pipeline that `build` gave. serde_json must read back what it
-- wrote, digests have 32 bytes, drivers keep objects as they are and codecs reverse what they applied.
-- Some bytes must be stored, and every form of the payload that a codec transforms, not only the first,
-- must fit the limit of decoded bytes.
pub decode-encode :
    {S : Type 0} (f : Formats) (b : PayloadPipelineBuilder S) (pipeline : PayloadPipeline S)
    (payload : Payload) (prepared : PreparedPayload) (object_id : Text) (s t : S) (q : Payload)
    → IsLawful f
    → build f b ≡ ok pipeline
    → ((driver : StorageDriver S)
        → storage_of pipeline.default_storage pipeline.storages ≡ some driver
        → IsImmutable driver)
    → All IsReversible pipeline.codecs
    → prepare f pipeline payload ≡ ok prepared
    → ((bytes : Bytes)
        → f.payload_to_vec payload ≡ ok bytes
        → Fit pipeline.limits.decoded_payload_bytes pipeline.codecs bytes)
    → 0 < length prepared.bytes
    → encode f pipeline object_id payload s ≡ (t, ok q)
    → decode f pipeline q t ≡ ok payload
decode-encode f b pipeline payload prepared object_id s t q law built immutable reversible e fit
      stored h =
    let whole = build-IsBuilt f b pipeline built in
    decode-prepared f pipeline whole.driver law whole.registered
      (immutable whole.driver whole.registered) whole.others whole.accepts_own
      (usable pipeline pipeline.codecs reversible whole.found) payload prepared object_id s t q e
      fit stored h
