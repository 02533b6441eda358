-- ===== src/History/Objects.antt =====
-- crates/agentive/src/run/validation.rs: what becomes of a response that passes
-- `validate_model_response` with arguments that are not a JSON object.
use agentive.Base.{
  Text, ◌≡◌, refl, ap, ◌∙◌, Bool, true, not, Option, List, [], ◌∷◌, ◌++◌, map, any, ok, err, arith,
}
use agentive.Json.{Json}
use agentive.Message
use agentive.Model.{ModelToolCall, ModelResponse}
use agentive.State.Types.{AgentRunState, AgentEffectOutcome, ProviderAttempt}
use agentive.State.Effects.{Wire}
use agentive.State.Commits.{commit_effect, to_tool_call}
use agentive.State.Accepted.{response_accepted}
use agentive.State.Frame.{response_messages}
use agentive.Message.Types.{MessageRole}
use agentive.History.{
  accept_message, validate_message_shape, validate_effect_state_history, invalid_shape, is_bad_call,
}
use agentive.History.Steps.{keys, pending_history_calls-append}
use agentive.History.Canonical.{IsCanonical}

-- A call whose arguments are not a JSON object.
abbrev pub lacks_object : {V : Type 0} → Json V → ModelToolCall V → Bool
lacks_object j call = not (j.is_object call.arguments)

module _ {V : Type 0} (w : Wire V) where
  bad_calls :
      (calls : List (ModelToolCall V))
      → any (lacks_object w.json) calls ≡ true
      → any (is_bad_call w.json) (map to_tool_call calls) ≡ true
  bad_calls [] h = absurd (ground arith)
  bad_calls (c ∷ cs) h = ground (arith, bad_calls cs)

  refused :
      (calls : List (ModelToolCall V))
      → any (lacks_object w.json) calls ≡ true
      → accept_message w.json (Message.assistant_tool_calls (map to_tool_call calls)) []
        ≡ err (invalid_shape MessageRole.assistant)
  unfolding accept_message Message.assistant_tool_calls validate_message_shape
  refused calls h = ground (arith, bad_calls calls h)

  one_message :
      (calls : List (ModelToolCall V)) (text : Option Text)
      → any (lacks_object w.json) calls ≡ true
      → response_messages calls text ≡ Message.assistant_tool_calls (map to_tool_call calls) ∷ []
  one_message [] text bad = absurd (ground arith)
  one_message (c ∷ cs) text bad = refl

  -- A committed response with a call whose arguments are not a JSON object leaves a history that the
  -- runtime's check before the next effect refuses as an invalid assistant message, if the state
  -- before it was canonical.
  pub non_object_arguments_end_run :
      (s t : AgentRunState V) (id : Text) (response : ModelResponse V)
      (attempts : List ProviderAttempt)
      → any (lacks_object w.json) response.tool_calls ≡ true
      → commit_effect w s id (AgentEffectOutcome.provider response attempts) ≡ (t, ok tt)
      → IsCanonical w s
      → validate_effect_state_history w.json t ≡ err (invalid_shape MessageRole.assistant)
  unfolding validate_effect_state_history
  non_object_arguments_end_run s t id response attempts bad h c =
      let (a, r) = response_accepted w s t id response attempts h in
      rw
        (
          r.history
              ∙ ap (λ more. s.history ++ more) (one_message response.tool_calls response.text bad),
          pending_history_calls-append w.json [] s.history,
          c.matches ∙ ap (λ q. ok (keys q)) a.idle,
          refused response.tool_calls bad,
        )
        refl
