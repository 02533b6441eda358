-- ===== src/Ids.antt =====
-- crates/agentive/src/ids.rs: identities and validated names. The newtypes over `String` are the
-- text that they wrap; freshly generated identities (`Uuid::new_v4`) are inputs of the model.
use agentive.Base.{
  Text, byte_len, Result, ok, err, Bool, ◌&&◌, ◌||◌, ℕ, leb, ltb, ◌==◌, all, is_empty,
  if◌then◌else◌,
}

abbrev pub ToolName : Type 0
ToolName = Text

abbrev pub ToolInvocationId : Type 0
ToolInvocationId = Text

abbrev pub IdempotencyKey : Type 0
IdempotencyKey = Text

abbrev pub ToolErrorCode : Type 0
ToolErrorCode = Text

pub data ToolNameError : Type 0 where
  invalid_name : ToolNameError

pub data ToolErrorCodeError : Type 0 where
  invalid_code : ToolErrorCodeError

unfoldable pub is_ascii_digit : ℕ → Bool
is_ascii_digit c = leb b'0' c && leb c b'9'

unfoldable pub is_ascii_lowercase : ℕ → Bool
is_ascii_lowercase c = leb b'a' c && leb c b'z'

unfoldable pub is_ascii_uppercase : ℕ → Bool
is_ascii_uppercase c = leb b'A' c && leb c b'Z'

-- The characters of a tool name.
unfoldable pub is_name_char : ℕ → Bool
unfolding is_ascii_digit is_ascii_lowercase is_ascii_uppercase
is_name_char c =
    is_ascii_lowercase c || is_ascii_uppercase c || is_ascii_digit c || c == b'_' || c == b'-'

-- The characters of a tool error code.
unfoldable pub is_code_char : ℕ → Bool
unfolding is_ascii_digit is_ascii_lowercase
is_code_char c = is_ascii_lowercase c || is_ascii_digit c || c == b'_'

-- `ToolName::parse`
unfoldable pub parse_tool_name : Text → Result ToolNameError ToolName
unfolding is_name_char
parse_tool_name candidate =
    if is_empty candidate || ltb 64 (byte_len candidate)
    then err invalid_name
    else if all is_name_char candidate
    then ok candidate
    else err invalid_name

-- `ToolErrorCode::parse`
unfoldable pub parse_tool_error_code : Text → Result ToolErrorCodeError ToolErrorCode
unfolding is_code_char
parse_tool_error_code candidate =
    if is_empty candidate || ltb 64 (byte_len candidate)
    then err invalid_code
    else if all is_code_char candidate
    then ok candidate
    else err invalid_code
