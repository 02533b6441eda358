-- ===== src/History/Canonical.antt =====
-- crates/agentive/src/run/validation.rs and state/commits.rs: the state machine never leaves a history
-- that the runtime would refuse.
use mathlib.Core.List.{append-nil}
use agentive.Base.{
  Text, text_eq, text_eq_refl, text_eq_iff, Bool, not, ◌||◌, ◌==◌, ◌↔◌, length, Result, reject_if,
  bind-eq-ok, ◌≡◌, refl, sym, ap, ◌∙◌, subst, true, false, List, [], ◌∷◌, ◌++◌, zip, any,
  length-map, All, ok, Option, none, some, arith,
}
use agentive.Json.{IsLawful}
use agentive.Errors.{RunError}
use agentive.Model.{ModelToolCall}
use agentive.State.Types.{
  AgentRunState, AgentEffectOutcome, ToolEffectResult, DelegationBudget, ProviderAttempt,
}
use agentive.State.Effects.{Wire}
use agentive.State.Commits.{commit_effect}
use agentive.State.Asks.{AsksProvider}
use agentive.State.Once.{DistinctCalls}
use agentive.State.Frame.{Responded, Settled, response_messages}
use agentive.State.Accepted.{
  SettledAll, done, next, response_accepted, failure_accepted, exhausted_accepted, tool_accepted,
  batch_accepted,
}
use agentive.Response.{validate_model_response}
use agentive.Response.Checked.{IsFreshCall, validated_calls}
use agentive.History.{Pending, pending_history_calls, validate_effect_state_history, differs}
use agentive.History.Steps.{
  keys, pending_history_calls-append, accept-assistant_tool_calls, accept-assistant_text,
  accept-tool_result,
}

neither : (p q : Bool) → (p || q) ≡ false → (p ≡ false) × (q ≡ false)
neither true q h = absurd (ground arith)
neither false q h = (refl, h)

refused_not :
    (refuses : Bool) (e : RunError)
    → Path (Result RunError (Unit {0})) (reject_if refuses e) (ok tt)
    → refuses ≡ false
refused_not true e h = absurd (ground arith)
refused_not false e h = refl

both_same : (p q : Bool) → (not p || not q) ≡ false → (p ≡ true) × (q ≡ true)
both_same true true h = (refl, refl)
both_same true false h = absurd (ground arith)
both_same false q h = absurd (ground arith)

module _ {V : Type 0} (w : Wire V) where
  -- The history is canonical, what it leaves unresolved are the pending calls in order, and their
  -- identifiers are distinct and not blank.
  pub record IsCanonical (s : AgentRunState V) : Type 0 where
    pub matches : pending_history_calls w.json [] s.history ≡ ok (keys s.pending_tools)
    pub fresh : All (IsFreshCall []) s.pending_tools
    pub distinct : DistinctCalls s.pending_tools

  -- A provider's response is committed after it was validated; JSON objects are asked of the
  -- arguments of its calls besides.
  abbrev pub IsValidated : Text → AgentEffectOutcome V → Type 0
  IsValidated id (AgentEffectOutcome.provider response _) =
      (validate_model_response response id ≡ ok tt)
      × All (λ (c : ModelToolCall V). w.json.is_object c.arguments ≡ true) response.tool_calls
  IsValidated id _ = Unit {0}

  pairs_agree : (calls : List (ModelToolCall V)) → any differs (zip calls (keys calls)) ≡ false
  pairs_agree [] = refl
  pairs_agree (c ∷ cs) = ground (arith, pairs_agree cs, text_eq_refl c.call_id, text_eq_refl c.name)

  agreeing_pairs :
      (calls : List (ModelToolCall V)) (pending : List Pending)
      → length pending ≡ length calls
      → any differs (zip calls pending) ≡ false
      → pending ≡ keys calls
  agreeing_pairs [] [] l h = refl
  agreeing_pairs [] (p ∷ ps) l h = absurd (omega (arith, l))
  agreeing_pairs (c ∷ cs) [] l h = absurd (omega (arith, l))
  agreeing_pairs (c ∷ cs) ((id, name) ∷ ps) l h =
      let (same, rest) = neither (differs (c, (id, name))) (any differs (zip cs ps)) h in
      let (ids, names) = both_same (text_eq c.call_id id) (text_eq c.name name) same in
      let e = (text_eq_iff c.call_id id).0 ids in
      let f = (text_eq_iff c.name name).0 names in
      λ i. (sym e i, sym f i) ∷ agreeing_pairs cs ps (omega (arith, l)) rest i

  checked_pairs :
      (s : AgentRunState V) (pending : List Pending)
      → pending_history_calls w.json [] s.history ≡ ok pending
      → validate_effect_state_history w.json s ≡ ok tt
      → pending ≡ keys s.pending_tools
  unfolding validate_effect_state_history
  checked_pairs s pending e h =
      let fine = refused_not _ _ (rw (validate_effect_state_history, e) at h) in
      let (sized, agree) = neither (not (length pending == length s.pending_tools)) _ fine in
      agreeing_pairs s.pending_tools pending (ground (arith, sized)) agree

  -- The check that is made before each effect accepts a state exactly when its history has the
  -- canonical form and the calls that it leaves unresolved are the pending calls: the same
  -- identifiers, of the same tools, in the same order and number.
  pub history_check_exact :
      (s : AgentRunState V)
      → (validate_effect_state_history w.json s ≡ ok tt)
        ↔ (pending_history_calls w.json [] s.history ≡ ok (keys s.pending_tools))
  unfolding validate_effect_state_history
  history_check_exact s = (
    (λ h.
        let (pending, e, _) = bind-eq-ok (pending_history_calls w.json [] s.history) _ h in
        e ∙ ap ok (checked_pairs s pending e h)),
    (λ e. rw e (
        ground (
          arith,
          pairs_agree s.pending_tools,
          length-map {B = Pending} (λ (c : ModelToolCall V). (c.call_id, c.name)) s.pending_tools,
        ))),
  )

  response_matches :
      (s : AgentRunState V) (calls : List (ModelToolCall V)) (text : Option Text)
      → pending_history_calls w.json [] s.history ≡ ok []
      → All (IsFreshCall []) calls
      → DistinctCalls calls
      → All (λ (c : ModelToolCall V). w.json.is_object c.arguments ≡ true) calls
      → pending_history_calls w.json [] (s.history ++ response_messages calls text)
        ≡ ok (keys calls)
  response_matches s (c ∷ cs) text m f d o =
      rw (pending_history_calls-append w.json [] s.history, m)
        (accept-assistant_tool_calls w.json c cs f o d)
  response_matches s [] (some text) m f d o =
      rw (pending_history_calls-append w.json [] s.history, m) (accept-assistant_text w.json text)
  response_matches s [] none m f d o = rw (append-nil s.history) m

  response-IsCanonical :
      (s t : AgentRunState V) (id : Text) (calls : List (ModelToolCall V)) (text : Option Text)
      (attempts : List ProviderAttempt)
      → AsksProvider s id
      → Responded w s t calls text attempts
      → All (IsFreshCall []) calls
      → DistinctCalls calls
      → All (λ (c : ModelToolCall V). w.json.is_object c.arguments ≡ true) calls
      → IsCanonical s
      → IsCanonical t
  response-IsCanonical s t id calls text attempts a r f d o c = record {
    matches =
        rw (r.history, r.pending_tools a.idle)
          (response_matches s calls text (c.matches ∙ ap (λ q. ok (keys q)) a.idle) f d o);
    fresh = subst (All (IsFreshCall [])) (sym (r.pending_tools a.idle)) f;
    distinct = subst DistinctCalls (sym (r.pending_tools a.idle)) d;
  }

  Settled-IsCanonical :
      (s t : AgentRunState V) (call : ModelToolCall V) (rest : List (ModelToolCall V)) (output : V)
      (reservation : Option DelegationBudget)
      → IsLawful w.json
      → s.pending_tools ≡ call ∷ rest
      → Settled w s t call rest output reservation
      → IsCanonical s
      → IsCanonical t
  Settled-IsCanonical s t call rest output reservation l p r c =
      let fresh : All (IsFreshCall []) (call ∷ rest) = subst (All (IsFreshCall [])) p c.fresh in
      let distinct : DistinctCalls (call ∷ rest) = subst DistinctCalls p c.distinct in
      record {
        matches =
            rw
              (
                r.history,
                r.pending_tools,
                pending_history_calls-append w.json [] s.history,
                c.matches,
                p,
              )
              (accept-tool_result w.json call.call_id call.name (keys rest) output l fresh.0.0);
        fresh = subst (All (IsFreshCall [])) (sym r.pending_tools) fresh.1;
        distinct = subst DistinctCalls (sym r.pending_tools) distinct.1;
      }

  SettledAll-IsCanonical :
      (s t : AgentRunState V) (results : List (ToolEffectResult V × Option DelegationBudget))
      → IsLawful w.json
      → SettledAll w s t results
      → IsCanonical s
      → IsCanonical t
  SettledAll-IsCanonical s t [] l (done e) c = subst IsCanonical (sym e) c
  SettledAll-IsCanonical s t ((result, reservation) ∷ more) l (next u call rest p r all) c =
      SettledAll-IsCanonical u t more l all
        (Settled-IsCanonical s u call rest result.output reservation l p r c)

  same-IsCanonical :
      (s t : AgentRunState V)
      → t.history ≡ s.history
      → t.pending_tools ≡ s.pending_tools
      → IsCanonical s
      → IsCanonical t
  same-IsCanonical s t h p c = record {
    matches = rw (h, p) c.matches;
    fresh = subst (All (IsFreshCall [])) (sym p) c.fresh;
    distinct = subst DistinctCalls (sym p) c.distinct;
  }

  -- An accepted completion keeps the state canonical: `pending_history_calls` accepts the history
  -- that it leaves, what that leaves unresolved are exactly the pending calls, and these have
  -- distinct identifiers that are not blank. A response must have been validated, and the
  -- arguments of its calls be JSON objects; JSON values must print as JSON.
  pub commit_effect-IsCanonical :
      (s t : AgentRunState V) (id : Text) (outcome : AgentEffectOutcome V)
      → IsLawful w.json
      → IsValidated id outcome
      → commit_effect w s id outcome ≡ (t, ok tt)
      → IsCanonical s
      → IsCanonical t
  commit_effect-IsCanonical s t id (AgentEffectOutcome.provider response attempts) l v h c =
      let (a, r) = response_accepted w s t id response attempts h in
      let (f, d) = validated_calls response id v.0 in
      response-IsCanonical s t id response.tool_calls response.text attempts a r f d v.1 c
  commit_effect-IsCanonical s t id (AgentEffectOutcome.provider_failed error attempts) l v h c =
      let (_, f) = failure_accepted w s t id error attempts h in
      same-IsCanonical s t (ground (arith, f.final, f.counts)) (ground (arith, f.final, f.counts)) c
  commit_effect-IsCanonical s t id (AgentEffectOutcome.provider_budget_exhausted n) l v h c =
      let (_, e) = exhausted_accepted w s t id n h in
      same-IsCanonical s t (ground arith) (ground arith) c
  commit_effect-IsCanonical s t id (AgentEffectOutcome.tool output attempts child) l v h c =
      let (_, (call, rest, p, r)) = tool_accepted w s t id output attempts child h in
      Settled-IsCanonical s t call rest output _ l p r c
  commit_effect-IsCanonical s t id (AgentEffectOutcome.tool_batch outputs) l v h c =
      SettledAll-IsCanonical s t _ l (batch_accepted w s t id outputs h).1 c
