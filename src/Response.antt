-- ===== src/Response.antt =====
-- crates/agentive/src/run/validation.rs: what a provider response must satisfy to be committed.
pub mod Checked
use agentive.Base.{
  Text, codes, text_eq, is_blank, Bool, true, false, not, ◌&&◌, ◌||◌, List, [], ◌∷◌, any, Option,
  none, some, is_some, is_empty, if◌then◌else◌, Result, ok, err, ◌>>◌, reject_if,
}
use agentive.Model.{ModelResponse, ModelToolCall, ModelFinishReason}
use agentive.Errors.{RunError, provider_protocol}

abbrev is_blank_text : Option Text → Bool
is_blank_text none = false
is_blank_text (some text) = is_blank text

-- The match on the finish reason, and on whether no tool call was requested.
check_finish : ModelFinishReason → Bool → Result RunError (Unit {0})
check_finish ModelFinishReason.tool_calls true =
    err (provider_protocol (codes "tool-call finish reason contained no tool calls"))
check_finish ModelFinishReason.tool_calls false = ok tt
check_finish ModelFinishReason.stop true = ok tt
check_finish ModelFinishReason.stop false =
    err (provider_protocol (codes "provider finish reason did not match response content"))
check_finish (ModelFinishReason.error _) _ =
    err (provider_protocol (codes "provider finish reason did not match response content"))

abbrev is_stop : ModelFinishReason → Bool
is_stop ModelFinishReason.stop = true
is_stop _ = false

abbrev is_other_call : Option Text → Text → Bool
is_other_call none provider_call_id = false
is_other_call (some id) provider_call_id = not (text_eq id provider_call_id)

module _ {V : Type 0} where
  -- The loop over the calls, with the identifiers seen before.
  check_calls : Text → List Text → List (ModelToolCall V) → Result RunError (Unit {0})
  check_calls provider_call_id seen [] = ok tt
  check_calls provider_call_id seen (call ∷ rest) =
      let more = check_calls provider_call_id (call.call_id ∷ seen) rest in
      if is_blank call.call_id || any (text_eq call.call_id) seen
      then err (provider_protocol (codes "provider returned an invalid or duplicate tool-call id"))
      else if is_other_call call.provider_call_id provider_call_id
      then err (provider_protocol (codes "tool call was correlated to a different provider call"))
      else more

  -- `validate_model_response`
  unfoldable pub validate_model_response : ModelResponse V → Text → Result RunError (Unit {0})
  unfolding check_calls check_finish
  validate_model_response response provider_call_id = do
    reject_if (is_blank_text response.text)
        (provider_protocol (codes "provider response contained blank final text"))
    reject_if (is_some response.text && not (is_empty response.tool_calls))
        (provider_protocol (codes "provider response mixed final text with tool calls"))
    check_finish response.finish_reason (is_empty response.tool_calls)
    reject_if (is_stop response.finish_reason && not (is_some response.text))
        (provider_protocol (codes "provider stop response contained no final text"))
    check_calls provider_call_id [] response.tool_calls
