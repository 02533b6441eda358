-- ===== src/Errors/Codes.antt =====
-- crates/agentive/src/errors.rs and ids.rs: the codes of tool errors.
use agentive.Base.{Text, ◌≡◌, refl, subst, sym, ap, ◌∙◌, codes, Result, ok, err, arith}
use agentive.Ids.{
  ToolErrorCode, ToolErrorCodeError, is_code_char, is_ascii_digit, is_ascii_lowercase,
  parse_tool_error_code,
}
use agentive.Errors.{code_or_invalid, terminal_tool_error, retryable_tool_error}

-- A code that is parsed is kept as it is.
parsed_same : (code parsed : Text) → parse_tool_error_code code ≡ ok parsed → code ≡ parsed
unfolding parse_tool_error_code
parsed_same code parsed h = ground arith

code_parses :
    (code : Text) (result : Result ToolErrorCodeError ToolErrorCode)
    → parse_tool_error_code code ≡ result
    → parse_tool_error_code (code_or_invalid code) ≡ ok (code_or_invalid code)
unfolding code_or_invalid
code_parses code (ok parsed) h =
    let kept : code_or_invalid code ≡ code =
      rw (code_or_invalid, h) (sym (parsed_same code parsed h)) in
    subst (λ c. parse_tool_error_code c ≡ ok c) (sym kept)
      (h ∙ ap ok (sym (parsed_same code parsed h)))
code_parses code (err e) h =
    let kept : code_or_invalid code ≡ codes "invalid_tool_error_code" =
      rw (code_or_invalid, h) refl in
    subst (λ c. parse_tool_error_code c ≡ ok c) (sym kept)
      (unfold parse_tool_error_code is_code_char is_ascii_digit is_ascii_lowercase in refl)

-- Every tool error that is built by `terminal` or by `retryable` has a code that parses, whatever
-- code was given.
pub tool_error_codes_parse :
    (code message : Text)
    → (parse_tool_error_code (terminal_tool_error code message).code
        ≡ ok (terminal_tool_error code message).code)
      × (parse_tool_error_code (retryable_tool_error code message).code
          ≡ ok (retryable_tool_error code message).code)
unfolding terminal_tool_error retryable_tool_error
tool_error_codes_parse code message = (code_parses code _ refl, code_parses code _ refl)
