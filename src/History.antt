-- ===== src/History.antt =====
-- crates/agentive/src/run/validation.rs: the protocol that a canonical history obeys.
pub mod Steps
pub mod Canonical
pub mod Objects
pub mod Images
use agentive.Base.{
  Text, codes, text_eq, is_blank, ◌++◌, Bool, true, false, not, ◌||◌, List, [], ◌∷◌, zip, any,
  Option, none, some, is_some, is_empty, length, ◌==◌, if◌then◌else◌, Result, ok, err, ◌>>=◌, ◌>>◌,
  reject_if,
}
use agentive.Ids.{ToolName}
use agentive.Json.{Json}
use agentive.Message.Types.{Message, MessageRole, MessageContent, ToolCall}
use agentive.Model.{ModelToolCall}
use agentive.Errors.{RunError, provider_protocol}
use agentive.State.Types.{AgentRunState}

-- An unresolved call: its identifier and the name of its tool.
abbrev pub Pending : Type 0
Pending = Text × ToolName

abbrev bool_eq : Bool → Bool → Bool
bool_eq true b = b
bool_eq false b = not b

-- `{:?}` of a role.
role_name : MessageRole → Text
role_name MessageRole.system = codes "System"
role_name MessageRole.user = codes "User"
role_name MessageRole.assistant = codes "Assistant"
role_name MessageRole.tool = codes "Tool"

unfoldable pub invalid_shape : MessageRole → RunError
unfolding role_name
invalid_shape role =
    provider_protocol (codes "invalid canonical " ++ (role_name role ++ codes " message shape"))

abbrev is_missing_id : Option Text → Bool
is_missing_id none = true
is_missing_id (some id) = is_blank id

abbrev is_named : Option ToolName → ToolName → Bool
is_named none expected = false
is_named (some name) expected = text_eq name expected

-- A tool result answers the front of the queue.
pop_call : Option Text → Option ToolName → List Pending → Result RunError (List Pending)
pop_call none name pending = err (provider_protocol (codes "tool result is missing correlation id"))
pop_call (some id) name [] =
    err (provider_protocol (codes "tool result has unknown correlation id"))
pop_call (some id) name ((expected_id, expected_name) ∷ rest) =
    if not (text_eq id expected_id)
    then err (
        provider_protocol (codes "tool result did not resolve the next provider-ordered tool call"))
    else if not (is_named name expected_name)
    then err (provider_protocol (codes "tool result name does not match correlated call"))
    else ok rest

module _ {V : Type 0} where
  abbrev pub calls_of : Option (List (ToolCall V)) → List (ToolCall V)
  calls_of none = []
  calls_of (some calls) = calls

  -- `id.trim().is_empty() || !arguments.is_object()`
  abbrev pub is_bad_call : Json V → ToolCall V → Bool
  is_bad_call j call = is_blank call.id || not (j.is_object call.arguments)

  -- Exactly one text, which is JSON.
  abbrev is_result_content : Json V → List MessageContent → Bool
  is_result_content j (MessageContent.text text ∷ []) = is_some (j.from_str text)
  is_result_content j _ = false

  shape_by_role : Json V → MessageRole → Message V → Result RunError (Unit {0})
  shape_by_role j MessageRole.system m =
      err (provider_protocol (codes "trusted instructions cannot appear in canonical history"))
  shape_by_role j MessageRole.user m =
      reject_if
        (is_empty m.content || is_some m.tool_calls || is_some m.tool_call_id || is_some m.name)
        (invalid_shape MessageRole.user)
  shape_by_role j MessageRole.assistant m =
      let calls = calls_of m.tool_calls in
      reject_if
        (is_some m.tool_call_id
          || is_some m.name
          || bool_eq (not (is_empty m.content)) (not (is_empty calls))
          || any (is_bad_call j) calls)
        (invalid_shape MessageRole.assistant)
  shape_by_role j MessageRole.tool m =
      reject_if
        (not (is_result_content j m.content)
          || is_some m.tool_calls
          || is_missing_id m.tool_call_id
          || not (is_some m.name))
        (invalid_shape MessageRole.tool)

  -- `validate_message_shape`
  unfoldable pub validate_message_shape : Json V → Message V → Result RunError (Unit {0})
  unfolding shape_by_role
  validate_message_shape j m = shape_by_role j m.role m

  -- The calls of an assistant message join the queue in order.
  push_calls : List Pending → List (ToolCall V) → Result RunError (List Pending)
  push_calls pending [] = ok pending
  push_calls pending (call ∷ rest) =
      let more = push_calls (pending ++ (call.id, call.name) ∷ []) rest in
      if any (λ (p : Pending). text_eq p.0 call.id) pending
      then err (provider_protocol (codes "duplicate tool call correlation id"))
      else more

  queue_by_role : MessageRole → Message V → List Pending → Result RunError (List Pending)
  queue_by_role MessageRole.system m pending =
      err (provider_protocol (codes "trusted instructions cannot appear in canonical history"))
  queue_by_role MessageRole.assistant m pending =
      if not (is_empty pending)
      then err (provider_protocol (codes "assistant message crossed unresolved tool calls"))
      else push_calls pending (calls_of m.tool_calls)
  queue_by_role MessageRole.tool m pending = pop_call m.tool_call_id m.name pending
  queue_by_role MessageRole.user m pending =
      if not (is_empty pending)
      then err (provider_protocol (codes "user message crossed unresolved tool calls"))
      else ok pending

  -- The body of the loop of `pending_history_calls`.
  unfoldable pub accept_message : Json V → Message V → List Pending → Result RunError (List Pending)
  unfolding validate_message_shape queue_by_role push_calls pop_call
  accept_message j m pending = do validate_message_shape j m; queue_by_role m.role m pending

  -- `pending_history_calls`, from a queue that is empty at the start.
  unfoldable pub pending_history_calls :
      Json V → List Pending → List (Message V) → Result RunError (List Pending)
  pending_history_calls j pending [] = ok pending
  pending_history_calls j pending (m ∷ rest) =
      accept_message j m pending >>= λ queue. pending_history_calls j queue rest

  -- `validate_history`
  unfoldable pub validate_history : Json V → List (Message V) → Result RunError (Unit {0})
  validate_history j history = do
    pending ← pending_history_calls j [] history
    reject_if (not (is_empty pending))
        (provider_protocol (codes "history ends with unresolved tool calls"))

  abbrev pub differs : ModelToolCall V × Pending → Bool
  differs (call, (id, name)) = not (text_eq call.call_id id) || not (text_eq call.name name)

  -- `validate_effect_state_history`
  unfoldable pub validate_effect_state_history :
      Json V → AgentRunState V → Result RunError (Unit {0})
  validate_effect_state_history j s = do
    pending ← pending_history_calls j [] s.history
    reject_if
        (not (length pending == length s.pending_tools)
          || any differs (zip s.pending_tools pending))
        (provider_protocol (codes "state pending tools do not match canonical history"))
