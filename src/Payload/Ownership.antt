-- ===== src/Payload/Ownership.antt =====
-- crates/temporal/src/pipeline.rs: what a pipeline that was built is sure of.
use agentive.Base.{
  Text, text_eq_refl, text_eq_iff, ◌≡◌, refl, sym, ◌∙◌, subst, ℕ, true, false, not, List, [], ◌∷◌,
  find, All, Option, none, some, is_some, ok, ok_or, arith, bind-eq-ok, ok-injective, passed,
}
use agentive.Payload.{Bytes, CodecDescriptor, contains, PayloadCodec, StorageDriver, Formats}
use agentive.Payload.Pipeline.{
  PayloadPipeline, PayloadPipelineBuilder, Claims, is_claimed, claim_versions, claim_all, calculate,
  storage_of, build, decodes,
}

-- Claims are kept, and what is claimed was free before and is claimed after.
claims-grow :
    (owners more : Claims) (id : Text) (versions : List ℕ) (other : Text) (v : ℕ)
    → claim_versions owners id versions ≡ ok more
    → is_claimed owners other v ≡ true
    → is_claimed more other v ≡ true
unfolding claim_versions
claims-grow owners more id [] other v h c = ground (arith)
claims-grow owners more id (u ∷ us) other v h c =
    ground (arith, claims-grow ((id, u) ∷ owners) more id us other v)

claims-hold :
    (owners more : Claims) (id : Text) (versions : List ℕ) (v : ℕ)
    → claim_versions owners id versions ≡ ok more
    → contains versions v ≡ true
    → is_claimed more id v ≡ true
unfolding claim_versions
claims-hold owners more id [] v h c = absurd (ground arith)
claims-hold owners more id (u ∷ us) v h c = ground (
  arith,
  text_eq_refl id,
  claims-grow ((id, u) ∷ owners) more id us id v,
  claims-hold ((id, u) ∷ owners) more id us v,
)

claims-free :
    (owners more : Claims) (id : Text) (versions : List ℕ) (v : ℕ)
    → claim_versions owners id versions ≡ ok more
    → contains versions v ≡ true
    → is_claimed owners id v ≡ false
unfolding claim_versions
claims-free owners more id [] v h c = absurd (ground arith)
claims-free owners more id (u ∷ us) v h c =
    ground (arith, claims-free ((id, u) ∷ owners) more id us v)

-- A codec's claims, where the codec has a descriptor.
abbrev IsFree : Claims → PayloadCodec → Type 0
IsFree owners codec =
    (d : CodecDescriptor) (v : ℕ)
    → codec.descriptor ≡ ok d
    → contains d.decode_versions v ≡ true
    → is_claimed owners d.id v ≡ false

claims-IsFree :
    (owners more : Claims) (id : Text) (versions : List ℕ) (codecs : List PayloadCodec)
    → claim_versions owners id versions ≡ ok more
    → All (IsFree more) codecs
    → All (IsFree owners) codecs
claims-IsFree owners more id versions [] h all = tt
claims-IsFree owners more id versions (c ∷ cs) h (free, all) = (
  (λ d v e holds. ground (arith, free d v e holds, claims-grow owners more id versions d.id v h)),
  claims-IsFree owners more id versions cs h all,
)

claimed-IsFree :
    (owners final : Claims) (codecs : List PayloadCodec)
    → claim_all owners codecs ≡ ok final
    → All (IsFree owners) codecs
unfolding claim_all
claimed-IsFree owners final [] h = tt
claimed-IsFree owners final (c ∷ cs) h =
    let (d, e, h1) = bind-eq-ok c.descriptor _ h in
    let (more, claimed, h2) = bind-eq-ok (claim_versions owners d.id d.decode_versions) _ h1 in
    (
      (λ d' v e' holds.
          subst
            (λ (x : CodecDescriptor).
              contains x.decode_versions v ≡ true → is_claimed owners x.id v ≡ false)
            (ok-injective (sym e ∙ e'))
            (λ holds. claims-free owners more d.id d.decode_versions v claimed holds) holds),
      claims-IsFree owners more d.id d.decode_versions cs claimed (claimed-IsFree more final cs h2),
    )

-- Whatever version a codec decodes, the pipeline finds it by its identity and that version.
abbrev pub IsFound : List PayloadCodec → PayloadCodec → Type 0
IsFound codecs codec =
    (d : CodecDescriptor) (v : ℕ)
    → codec.descriptor ≡ ok d
    → contains d.decode_versions v ≡ true
    → find (decodes (record { id = d.id; version = v })) codecs ≡ some codec

-- Before codecs whose claims are free stands one that has no claim on what they decode.
found_after :
    (first : PayloadCodec) (d : CodecDescriptor) (owners more : Claims)
    (codecs all_codecs : List PayloadCodec)
    → first.descriptor ≡ ok d
    → claim_versions owners d.id d.decode_versions ≡ ok more
    → All (IsFree more) codecs
    → All (IsFound all_codecs) codecs
    → All (IsFound (first ∷ all_codecs)) codecs
found_after first d owners more [] rest e claimed free found = tt
found_after first d owners more (c ∷ cs) rest e claimed (free, frees) (found, founds) = (
  (λ d' v e' holds.
      let other : decodes (record { id = d'.id; version = v }) first ≡ false =
        not_decoded d' v (free d' v e' holds) in
      rw other (found d' v e' holds)),
  found_after first d owners more cs rest e claimed frees founds,
)
  where
    not_decoded :
        (d' : CodecDescriptor) (v : ℕ)
        → is_claimed more d'.id v ≡ false
        → decodes (record { id = d'.id; version = v }) first ≡ false
    not_decoded d' v unclaimed = rw e (
        ground
          (arith, text_eq_iff d.id d'.id, claims-hold owners more d.id d.decode_versions v claimed))

all_found :
    (owners final : Claims) (codecs : List PayloadCodec)
    → claim_all owners codecs ≡ ok final
    → All (IsFound codecs) codecs
unfolding claim_all
all_found owners final [] h = tt
all_found owners final (c ∷ cs) h =
    let (d, e, h1) = bind-eq-ok c.descriptor _ h in
    let (more, claimed, h2) = bind-eq-ok (claim_versions owners d.id d.decode_versions) _ h1 in
    (
      (λ d' v e' holds. rw (e') (ground (arith, holds, text_eq_refl d'.id))),
      found_after c d owners more cs cs e claimed (claimed-IsFree more final cs h2)
          (all_found more final cs h2),
    )

-- What a pipeline has when it has been built.
pub record IsBuilt {S : Type 0} (pipeline : PayloadPipeline S) : Type 0 where
  pub driver : StorageDriver S
  pub registered : storage_of pipeline.default_storage pipeline.storages ≡ some driver
  pub others : List Bytes
  pub accepts_own : pipeline.accepted_fingerprints ≡ pipeline.fingerprint ∷ others
  pub found : All (IsFound pipeline.codecs) pipeline.codecs

is_some-some : {A : Type 0} (o : Option A) → is_some o ≡ true → (a : A) × (o ≡ some a)
is_some-some none h = absurd (ground arith)
is_some-some (some a) h = (a, refl)

-- A pipeline that `build` gives has a registered default storage, accepts its own fingerprint, and each
-- of its codecs is the one that is found for its identity and any version that it decodes.
pub build-IsBuilt :
    {S : Type 0} (f : Formats) (b : PayloadPipelineBuilder S) (pipeline : PayloadPipeline S)
    → build f b ≡ ok pipeline
    → IsBuilt pipeline
unfolding build
build-IsBuilt f b pipeline h =
    let (id, e, h1) = bind-eq-ok (ok_or b.default_storage _) _ h in
    let (registered, h2) = passed (not (is_some (storage_of id b.storages))) _ _ _ h1 in
    let (owners, claimed, h3) = bind-eq-ok (claim_all [] b.codecs) _ h2 in
    let (fingerprint, hashed, h4) = bind-eq-ok (calculate f id b.codecs) _ h3 in
    let (driver, known) = is_some-some (storage_of id b.storages) (ground arith) in
    subst IsBuilt (ok-injective h4) (record {
      driver = driver;
      registered = known;
      others = b.historical_fingerprints;
      accepts_own = refl;
      found = all_found [] owners b.codecs claimed;
    })
