-- ===== src/Response/Checked.antt =====
-- crates/agentive/src/run/validation.rs: what an accepted response is known to satisfy.
use agentive.Base.{
  Text, text_eq, text_eq_iff, is_blank, ◌≡◌, ◌≢◌, false, List, [], ◌∷◌, any, All, ok, arith,
}
use agentive.Model.{ModelResponse, ModelToolCall}
use agentive.State.Once.{DistinctCalls}
use agentive.Response.{check_calls, validate_model_response}

-- An identifier that is not blank and is none of `seen`.
abbrev pub IsFreshCall : {V : Type 0} → List Text → ModelToolCall V → Type 0
IsFreshCall seen call = (is_blank call.call_id ≡ false) × (any (text_eq call.call_id) seen ≡ false)

module _ {V : Type 0} where
  unseen_first :
      (first : Text) (seen : List Text) (calls : List (ModelToolCall V))
      → All (IsFreshCall (first ∷ seen)) calls
      → All (IsFreshCall seen) calls × All (λ (c : ModelToolCall V). c.call_id ≢ first) calls
  unseen_first first seen [] h = (tt, tt)
  unseen_first first seen (c ∷ cs) h =
      let (here, there) = unseen_first first seen cs h.1 in
      ((ground (arith, h.0), here), (λ e. ground (arith, h.0, text_eq_iff c.call_id first), there))

  checked :
      (pid : Text) (seen : List Text) (calls : List (ModelToolCall V))
      → check_calls pid seen calls ≡ ok tt
      → All (IsFreshCall seen) calls × DistinctCalls calls
  unfolding check_calls
  checked pid seen [] h = (tt, tt)
  checked pid seen (c ∷ cs) h =
      let (fresh, distinct) = checked pid (c.call_id ∷ seen) cs (ground arith) in
      let (old, apart) = unseen_first c.call_id seen cs fresh in
      (((ground arith, ground arith), old), (apart, distinct))

  -- The calls of an accepted response have identifiers that are distinct and not blank.
  pub validated_calls :
      (response : ModelResponse V) (pid : Text)
      → validate_model_response response pid ≡ ok tt
      → All (IsFreshCall []) response.tool_calls × DistinctCalls response.tool_calls
  unfolding validate_model_response
  validated_calls response pid h = checked pid [] response.tool_calls (ground arith)
