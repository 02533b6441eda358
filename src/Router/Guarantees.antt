-- ===== src/Router/Guarantees.antt =====
-- crates/agentive/src/model/router.rs: a request that the router admits can be sent to either provider.
use agentive.Base.{
  Text, ◌≡◌, ℕ, Bool, true, false, Option, none, Result, ok, err, arith, refl, ◌↔◌, ◌&&◌, not, any,
  is_empty, ◌>>=◌, map_err,
}
use agentive.Model.{
  AllOrError, ModelRequest, ModelOutputFormat, StructuredOutputSupport, ModelCapabilities,
}
use agentive.Errors.{context_limit}
use agentive.Admission.{
  Provider, validate_context, can_admit, is_supported, prompt_bound, has_image,
}
use agentive.Router.{
  fallback_provider, weakest_structured_support, common_bound, guaranteed_capabilities,
}

bound_lem :
    (a b bound : Option ℕ)
    → map_err context_limit (common_bound a b) ≡ ok bound
    → common_bound a b ≡ ok bound
unfolding common_bound
bound_lem a b bound h = ground arith

-- Two bounds that were both reported.
common_bounds :
    (x y : Result Text (Option ℕ)) (bound : Option ℕ)
    → map_err context_limit (x >>= λ a. y >>= λ b. common_bound a b) ≡ ok bound
    → (a : Option ℕ) × (b : Option ℕ) × (map_err context_limit x ≡ ok a)
      × (map_err context_limit y ≡ ok b)
      × (common_bound a b ≡ ok bound)
common_bounds (ok a) (ok b) bound h = (a, b, refl, refl, bound_lem a b bound h)
common_bounds (ok a) (err e) bound h = absurd (ground arith)
common_bounds (err e) y bound h = absurd (ground arith)

module _ {V : Type 0} where
  -- An output that the weakest support serves is served by both.
  supported_by_both :
      (format : ModelOutputFormat V) (a b : StructuredOutputSupport)
      → is_supported format (weakest_structured_support a b) ≡ true
      → (is_supported format a ≡ true) × (is_supported format b ≡ true)
  unfolding weakest_structured_support
  supported_by_both format a b h = ground arith

  -- A bound under which the least limit admits a request lets both admit it at their own bounds.
  admitted_by_both :
      (mode : AllOrError) (request : ModelRequest V) (c d : ModelCapabilities) (a b : Option ℕ)
      (bound : Option ℕ)
      → common_bound a b ≡ ok bound
      → can_admit mode request (guaranteed_capabilities c d) bound false ≡ ok tt
      → (can_admit mode request c a false ≡ ok tt) × (can_admit mode request d b false ≡ ok tt)
  unfolding can_admit common_bound guaranteed_capabilities
  admitted_by_both mode request c d a b bound e h = ground arith

  -- What a provider must offer for a request, apart from its tokens.
  pub record Offers (provider : Provider V) (request : ModelRequest V) : Type 0 where
    pub tools :
        (not (is_empty request.tools) && not provider.capabilities.supports_tool_calls) ≡ false
    pub output : is_supported request.output_format provider.structured_output_support ≡ true
    pub images :
        (any has_image request.messages && not provider.capabilities.supports_images) ≡ false

  -- The check passes exactly if the provider offers what is asked and its bound is admitted.
  admitted :
      (provider : Provider V) (mode : AllOrError) (opt_out : Bool) (request : ModelRequest V)
      (bound : Option ℕ)
      → (validate_context provider mode opt_out request ≡ ok bound) ↔ (
          Offers provider request
          × (prompt_bound provider mode opt_out request ≡ ok bound)
          × (can_admit mode request provider.capabilities bound opt_out ≡ ok tt))
  unfolding validate_context
  admitted provider mode opt_out request bound =
      (λ h. ground arith, λ (o, b, a). rw (o.tools, o.output, o.images, b, a))

  both_offer :
      (p f : Provider V) (request : ModelRequest V)
      → Offers (fallback_provider p f) request
      → Offers p request × Offers f request
  unfolding fallback_provider
  both_offer p f request o = ground (
    arith,
    supported_by_both request.output_format p.structured_output_support f.structured_output_support,
  )

  bound_of_both :
      (p f : Provider V) (mode : AllOrError) (request : ModelRequest V) (bound : Option ℕ)
      → prompt_bound (fallback_provider p f) mode false request ≡ ok bound
      → (a : Option ℕ) × (b : Option ℕ) × (prompt_bound p mode false request ≡ ok a)
        × (prompt_bound f mode false request ≡ ok b)
        × (common_bound a b ≡ ok bound)
  unfolding prompt_bound fallback_provider
  bound_of_both p f AllOrError.exact request bound h =
      common_bounds (p.exact_context_token_count request) (f.exact_context_token_count request)
        bound h
  bound_of_both p f AllOrError.conservative request bound h =
      common_bounds (p.conservative_context_token_bound request)
        (f.conservative_context_token_bound request) bound h

  -- A provider that would be asked this request itself.
  abbrev pub Admits : Provider V → AllOrError → Bool → ModelRequest V → Type 0
  Admits provider mode opt_out request =
      (bound : Option ℕ) × (validate_context provider mode opt_out request ≡ ok bound)

  -- Whatever the router admits, by either precision or under the opt-out, the primary and the
  -- fallback provider each admit by themselves.
  pub router-Admits_both :
      (primary fallback : Provider V) (mode : AllOrError) (opt_out : Bool)
      (request : ModelRequest V) {bound : Option ℕ}
      → validate_context (fallback_provider primary fallback) mode opt_out request ≡ ok bound
      → Admits primary mode opt_out request × Admits fallback mode opt_out request
  router-Admits_both p f mode true request {bound} h =
      let (o, _, _) = (admitted (fallback_provider p f) mode true request bound).0 h in
      let (op, of') = both_offer p f request o in
      (
        (
          none,
          (admitted p mode true request none).1
              (op, unfold prompt_bound in refl, unfold can_admit in refl),
        ),
        (
          none,
          (admitted f mode true request none).1
              (of', unfold prompt_bound in refl, unfold can_admit in refl),
        ),
      )
  router-Admits_both p f mode false request {bound} h =
      let (o, e, c) = (admitted (fallback_provider p f) mode false request bound).0 h in
      let (op, of') = both_offer p f request o in
      let (a, b, ea, eb, common) = bound_of_both p f mode request bound e in
      let (ca, cb) =
        admitted_by_both mode request p.capabilities f.capabilities a b bound common
          (unfold fallback_provider in c) in
      (
        (a, (admitted p mode false request a).1 (op, ea, ca)),
        (b, (admitted f mode false request b).1 (of', eb, cb)),
      )
