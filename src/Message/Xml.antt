-- ===== src/Message/Xml.antt =====
-- crates/agentive/src/message.rs: instructions rendered as XML. A function that pushes onto a
-- `String` returns what it appends.
pub mod Unique
use agentive.Base.{
  Text, codes, ℕ, Bool, List, [], ◌∷◌, ◌++◌, Option, none, some, ◌==◌, if◌then◌else◌,
}
use agentive.Message.Types.{InstructionFragment, CompiledInstructions}

-- The match on a character in `escape_xml`: `&`, `<`, `>`, `"` and `'`.
abbrev pub escape_char : ℕ → Text
escape_char c =
    if c == 38
    then codes "&amp;"
    else if c == 60
    then codes "&lt;"
    else if c == 62
    then codes "&gt;"
    else if c == 34
    then codes "&quot;"
    else if c == 39
    then codes "&apos;"
    else c ∷ []

-- `escape_xml`
unfoldable pub escape_xml : Text → Text
escape_xml [] = []
escape_xml (c ∷ rest) = escape_char c ++ escape_xml rest

-- `render_instruction`
unfoldable pub render_instruction : Text → Text → Text
render_instruction key text =
    codes "<fragment key=\""
    ++ (escape_xml key ++ (codes "\">" ++ (escape_xml text ++ codes "</fragment>")))

abbrev pub render_optional : Text → Option Text → Text
render_optional key none = []
render_optional key (some text) = render_instruction key text

unfoldable pub render_features : List InstructionFragment → Text
render_features [] = []
render_features (f ∷ fs) = render_instruction f.key f.text ++ render_features fs

-- `CompiledInstructions::render_xml`
unfoldable pub render_xml : CompiledInstructions → Text
render_xml i =
    codes "<instructions>"
    ++ (render_instruction (codes "core") i.core.text
        ++ (render_optional (codes "agent") i.agent
            ++ (render_optional (codes "run") i.run
                ++ (render_features i.features ++ codes "</instructions>"))))
