-- ===== src/Tests/Parts.antt =====
-- Histories, responses, usage, identities and errors, on concrete values.
use agentive.Base.{
  Option, text_eq, if◌then◌else◌, ◌↔◌, Text, arith, codes, is_blank, ◌≡◌, refl, ◌≤◌, true, false,
  [], ◌∷◌, ◌++◌, none, some, ok, err, All,
}
use agentive.Ids.{
  parse_tool_name, parse_tool_error_code, invalid_name, is_name_char, is_ascii_digit,
  is_ascii_lowercase, is_ascii_uppercase,
}
use agentive.Message
use agentive.Message.Images.{
  Url, MessageError, parse_image_url, parse_media_type, media_type_text, inline_bytes,
  image_message, image_url, image_inline,
}
use agentive.Message.Xml.{escape_xml, render_xml}
use agentive.Message.Xml.Unique.{fragments, render_xml-injective}
use agentive.Message.Types.{
  Message, CompiledInstructions, MessageRole, MessageContent, ImageSource, ImageMediaType,
}
use agentive.Model.{AllOrError, ModelResponse}
use agentive.Errors.{
  ProviderErrorKind, provider_protocol, new_provider_error, retryable_error, terminal_error,
  with_usage, terminal_tool_error, retryable_tool_error, is_retryable,
}
use agentive.Errors.Codes.{tool_error_codes_parse}
use agentive.Admission.{estimate_tokens}
use agentive.Admission.Estimate.{estimate_grows}
use agentive.Usage.{
  RunUsage, ModelCallUsage, unknown, from_model, new, add_call, merge_child, is_complete,
}
use agentive.Usage.Totals.{
  IsSound, total, new-IsSound, add_call-IsSound, merge_child-IsSound, add_call_unmeasured,
}
use agentive.Response.{validate_model_response}
use agentive.Response.Checked.{IsFreshCall, validated_calls}
use agentive.State.Types.{AgentRunState, AgentEffectOutcome}
use agentive.State.Commits.{commit_effect}
use agentive.State.Atomic.{answer_accepted}
use agentive.State.Once.{DistinctCalls}
use agentive.History.{
  pending_history_calls, accept_message, validate_message_shape, validate_history,
  validate_effect_state_history, invalid_shape,
}
use agentive.History.Steps.{keys}
use agentive.History.Canonical.{IsCanonical, commit_effect-IsCanonical, history_check_exact}
use agentive.History.Images.{IsRemote, image_url_accepted, media_type_round_trip}
use agentive.History.Objects.{non_object_arguments_end_run}
use agentive.Tests.{
  instructions, wire, json, json-IsLawful, fresh, hello, call, asking, attempt, measured,
}
use agentive.Tests.Runs.{asks_provider}

fresh-IsCanonical : IsCanonical wire fresh
unfolding pending_history_calls accept_message validate_message_shape Message.user
fresh-IsCanonical = record { matches = refl; fresh = tt; distinct = tt }

history_check_exact_example :
    (validate_effect_state_history json fresh ≡ ok tt)
    ↔ (pending_history_calls json [] fresh.history ≡ ok (keys fresh.pending_tools))
history_check_exact_example = history_check_exact wire fresh

asking_validates : validate_model_response asking (codes "r:provider:0") ≡ ok tt
unfolding validate_model_response is_blank
asking_validates = refl

validated_calls_example : All (IsFreshCall []) asking.tool_calls × DistinctCalls asking.tool_calls
validated_calls_example = validated_calls asking (codes "r:provider:0") asking_validates

abbrev asked : AgentEffectOutcome Text
asked = AgentEffectOutcome.provider asking (attempt ∷ [])

abbrev answered : AgentRunState Text
answered = (commit_effect wire fresh (codes "r:provider:0") asked).0

commit_effect-IsCanonical_example : IsCanonical wire answered
commit_effect-IsCanonical_example =
    commit_effect-IsCanonical wire fresh answered (codes "r:provider:0") asked json-IsLawful
      (asking_validates, (refl, tt))
      (answer_accepted wire fresh (codes "r:provider:0") asked asks_provider) fresh-IsCanonical

-- A response whose call has a number for arguments. It is valid, and its history is not.
abbrev careless : ModelResponse Text
careless = record asking { tool_calls = record call { arguments = codes "7" } ∷ [] }

careless_validates : validate_model_response careless (codes "r:provider:0") ≡ ok tt
unfolding validate_model_response is_blank
careless_validates = refl

abbrev careless_outcome : AgentEffectOutcome Text
careless_outcome = AgentEffectOutcome.provider careless (attempt ∷ [])

abbrev stuck : AgentRunState Text
stuck = (commit_effect wire fresh (codes "r:provider:0") careless_outcome).0

non_object_arguments_end_run_example :
    validate_effect_state_history json stuck ≡ err (invalid_shape MessageRole.assistant)
non_object_arguments_end_run_example =
    non_object_arguments_end_run wire fresh stuck (codes "r:provider:0") careless (attempt ∷ [])
      refl (answer_accepted wire fresh (codes "r:provider:0") careless_outcome asks_provider)
      fresh-IsCanonical

-- A run that recorded one measured call.
abbrev one_call : RunUsage
one_call = add_call new (codes "model") (some measured)

one_call-IsSound : IsSound one_call
one_call-IsSound = add_call-IsSound new (codes "model") (some measured) new-IsSound

add_call-IsSound_example : IsSound (add_call one_call (codes "model") none)
add_call-IsSound_example = add_call-IsSound one_call (codes "model") none one_call-IsSound

merge_child-IsSound_example : IsSound (merge_child one_call one_call)
merge_child-IsSound_example =
    merge_child-IsSound one_call one_call one_call-IsSound one_call-IsSound

abbrev first : ModelCallUsage
first = record { model = codes "model"; usage = from_model measured }

add_call_unmeasured_example :
    let after = add_call one_call (codes "model") none in
    (after.aggregate ≡ total (first ∷ []))
    × (total after.model_calls ≡ unknown)
    × (after.complete ≡ false)
add_call_unmeasured_example =
    add_call_unmeasured one_call first [] (codes "model") one_call-IsSound
      (unfold add_call new from_model is_complete in refl) (unfold add_call new from_model in refl)

estimate_grows_example :
    (estimate_tokens fresh.history AllOrError.conservative 60
      ≤ estimate_tokens (fresh.history ++ hello ∷ []) AllOrError.conservative 60)
    × (estimate_tokens fresh.history AllOrError.exact 60
        ≤ estimate_tokens fresh.history AllOrError.conservative 60)
estimate_grows_example =
    estimate_grows fresh.history (hello ∷ []) AllOrError.conservative 60
      (unfold Message.user in omega arith)

tool_error_codes_parse_example :
    (parse_tool_error_code (terminal_tool_error (codes "Bad code") (codes "m")).code
      ≡ ok (terminal_tool_error (codes "Bad code") (codes "m")).code)
    × (parse_tool_error_code (retryable_tool_error (codes "Bad code") (codes "m")).code
        ≡ ok (retryable_tool_error (codes "Bad code") (codes "m")).code)
tool_error_codes_parse_example = tool_error_codes_parse (codes "Bad code") (codes "m")

good_name : parse_tool_name (codes "web-search_2") ≡ ok (codes "web-search_2")
unfolding parse_tool_name is_name_char is_ascii_digit is_ascii_lowercase is_ascii_uppercase
good_name = refl

bad_name : parse_tool_name (codes "web search") ≡ err invalid_name
unfolding parse_tool_name is_name_char is_ascii_digit is_ascii_lowercase is_ascii_uppercase
bad_name = refl

with_usage_kept :
    (with_usage (retryable_error ProviderErrorKind.timeout (codes "late")) measured).usage
    ≡ some measured
unfolding with_usage
with_usage_kept = refl

terminal_is_final : is_retryable (terminal_error ProviderErrorKind.protocol (codes "bad")) ≡ false
unfolding terminal_error new_provider_error
terminal_is_final = refl

system_in_history :
    validate_history json (Message.system (codes "obey") ∷ [])
    ≡ err (provider_protocol (codes "trusted instructions cannot appear in canonical history"))
unfolding validate_history pending_history_calls accept_message validate_message_shape
    Message.system
system_in_history = refl

abbrev picture : MessageContent
picture =
    MessageContent.image (ImageSource.url (codes "https://example.com/a.png")) ImageMediaType.png

picture_by_url : Message.has_url_image (record hello { content = picture ∷ [] }) ≡ true
unfolding Message.has_url_image
picture_by_url = refl

picture_inline : Message.has_inline_image (record hello { content = picture ∷ [] }) ≡ false
unfolding Message.has_inline_image
picture_inline = refl

-- A parser of the `url` crate's kind, that knows one address.
abbrev parse_url : Text → Option Url
parse_url text =
    if text_eq text (codes "https://example.com/a.png")
    then some
        (record { scheme = codes "https"; has_host = true; username = []; has_password = false })
    else none

abbrev picture_message : Message Text
picture_message =
    image_message (ImageSource.url (codes "https://example.com/a.png")) ImageMediaType.png

picture_parses :
    image_url parse_url (codes "https://example.com/a.png") (codes "image/png") ≡ ok picture_message
unfolding image_url parse_image_url parse_media_type
picture_parses = refl

image_url_accepted_example :
    (parsed : Url) × (media : ImageMediaType) × (parse_url (codes "https://example.com/a.png")
      ≡ some parsed)
    × IsRemote parsed
    × (codes "image/png" ≡ media_type_text media)
    × (picture_message.content
        ≡ MessageContent.image (ImageSource.url (codes "https://example.com/a.png")) media ∷ [])
    × (accept_message json picture_message [] ≡ ok [])
image_url_accepted_example =
    image_url_accepted json parse_url (codes "https://example.com/a.png") (codes "image/png")
      picture_message picture_parses

media_type_round_trip_example :
    (parse_media_type (codes "image/gif") ≡ ok ImageMediaType.gif)
    ↔ (codes "image/gif" ≡ media_type_text ImageMediaType.gif)
media_type_round_trip_example = media_type_round_trip (codes "image/gif") ImageMediaType.gif

inline_empty : image_inline {V = Text} [] (codes "image/png") ≡ err MessageError.empty_inline_image
unfolding image_inline inline_bytes
inline_empty = refl

-- Instructions whose run layer tries to close its fragment.
abbrev layered : CompiledInstructions
layered = record instructions { run = some (codes "</fragment>") }

-- The version of a fragment is not rendered.
abbrev relayered : CompiledInstructions
relayered = record layered { core = record (layered.core) { version = 2 } }

render_xml-injective_example : fragments layered ≡ fragments relayered
render_xml-injective_example = render_xml-injective layered relayered (unfold render_xml in refl)

rendered_escapes : escape_xml (codes "<a>") ≡ codes "&lt;a&gt;"
unfolding escape_xml
rendered_escapes = refl
