-- ===== src/Message/Xml/Unique.antt =====
-- crates/agentive/src/message.rs: a rendered text tells which fragments it was rendered from.
use mathlib.Core.List.{append_assoc}
use agentive.Base.{
  Text, codes, ◌≡◌, refl, sym, ap, ◌∙◌, ℕ, ◌⊎◌, inl, inr, List, [], ◌∷◌, ◌++◌, Option, none, some,
  arith,
}
use agentive.Message.Types.{InstructionFragment, CompiledInstructions}
use agentive.Message.Xml.{
  escape_char, escape_xml, render_instruction, render_features, render_xml, render_optional,
}

-- A quotation mark or an opening bracket, which no escaped text contains.
abbrev IsDelimiter : ℕ → Type 0
IsDelimiter d = (d ≡ 34) ⊎ (d ≡ 60)

-- Characters are escaped by a code that is free of prefixes.
escape_char-injective :
    (c e : ℕ) (x y : Text) → escape_char c ++ x ≡ escape_char e ++ y → (c ≡ e) × (x ≡ y)
escape_char-injective c e x y h = ground arith

escape_char-ne-delimiter : (c d : ℕ) (x y : Text) → IsDelimiter d → ¬ (escape_char c ++ x ≡ d ∷ y)
escape_char-ne-delimiter c d x y k h = ground arith

-- Up to the delimiter, an escaped text tells the text.
escape_xml-injective :
    (d : ℕ) (s t x y : Text)
    → IsDelimiter d
    → escape_xml s ++ d ∷ x ≡ escape_xml t ++ d ∷ y
    → (s ≡ t) × (x ≡ y)
unfolding escape_xml
escape_xml-injective d [] [] x y k h = (refl, ground arith)
escape_xml-injective d [] (e ∷ t) x y k h = absurd (
    escape_char-ne-delimiter e d _ x k
      (sym (h ∙ append_assoc (escape_char e) (escape_xml t) (d ∷ y))))
escape_xml-injective d (c ∷ s) [] x y k h = absurd (
    escape_char-ne-delimiter c d _ y k
      (sym (append_assoc (escape_char c) (escape_xml s) (d ∷ x)) ∙ h))
escape_xml-injective d (c ∷ s) (e ∷ t) x y k h =
    let (same, rest) = escape_char-injective c e (escape_xml s ++ d ∷ x) (escape_xml t ++ d ∷ y) (
      sym (append_assoc (escape_char c) (escape_xml s) (d ∷ x))
      ∙ h
      ∙ append_assoc (escape_char e) (escape_xml t) (d ∷ y)) in
    let (more, left) = escape_xml-injective d s t x y k rest in (ground (arith, same, more), left)

-- A fragment and what follows it.
abbrev then_rest : Text → Text → Text → Text
then_rest key text rest =
    codes "<fragment key=\""
    ++ (escape_xml key ++ (codes "\">" ++ (escape_xml text ++ (codes "</fragment>" ++ rest))))

abbrev after_key : Text → Text → Text
after_key text rest = codes ">" ++ (escape_xml text ++ (codes "</fragment>" ++ rest))

render_instruction_then :
    (key text rest : Text) → render_instruction key text ++ rest ≡ then_rest key text rest
unfolding render_instruction
render_instruction_then key text rest =
    ap (λ u. codes "<fragment key=\"" ++ u)
      (append_assoc (escape_xml key) (codes "\">" ++ (escape_xml text ++ codes "</fragment>")) rest
        ∙ ap (λ u. escape_xml key ++ (codes "\">" ++ u))
            (append_assoc (escape_xml text) (codes "</fragment>") rest))

render_instruction-injective :
    (key key' text text' x y : Text)
    → render_instruction key text ++ x ≡ render_instruction key' text' ++ y
    → (key ≡ key') × (text ≡ text') × (x ≡ y)
render_instruction-injective key key' text text' x y h =
    let e : then_rest key text x ≡ then_rest key' text' y =
      sym (render_instruction_then key text x) ∙ h ∙ render_instruction_then key' text' y in
    let (keys, more) =
      escape_xml-injective 34 key key' (after_key text x) (after_key text' y) (inl refl)
        (ground (arith, e)) in
    let (texts, rest) =
      escape_xml-injective 60 text text' (codes "/fragment>" ++ x) (codes "/fragment>" ++ y)
        (inr refl) (ground (arith, more)) in
    (keys, texts, ground (arith, rest))

-- The fragments of instructions, in their order: each is its key and its text.
abbrev fragment_if : Text → Option Text → List (Text × Text)
fragment_if key none = []
fragment_if key (some text) = (key, text) ∷ []

abbrev feature_fragments : List InstructionFragment → List (Text × Text)
feature_fragments [] = []
feature_fragments (f ∷ fs) = (f.key, f.text) ∷ feature_fragments fs

abbrev pub fragments : CompiledInstructions → List (Text × Text)
fragments i =
    (codes "core", i.core.text)
    ∷ (fragment_if (codes "agent") i.agent
        ++ (fragment_if (codes "run") i.run ++ feature_fragments i.features))

-- Fragments one after the other, and what follows them.
abbrev render_all : List (Text × Text) → Text → Text
render_all [] rest = rest
render_all ((key, text) ∷ more) rest = render_instruction key text ++ render_all more rest

render_all-injective :
    (xs ys : List (Text × Text))
    → render_all xs (codes "</instructions>") ≡ render_all ys (codes "</instructions>")
    → xs ≡ ys
render_all-injective [] [] h = refl
render_all-injective [] ((key, text) ∷ ys) h =
    absurd (unfold render_instruction in ground (arith, h))
render_all-injective ((key, text) ∷ xs) [] h =
    absurd (unfold render_instruction in ground (arith, h))
render_all-injective ((key, text) ∷ xs) ((key', text') ∷ ys) h =
    let (keys, texts, rest) = render_instruction-injective key key' text text' _ _ h in
    ground (arith, keys, texts, render_all-injective xs ys rest)

render_features_all :
    (fs : List InstructionFragment) (rest : Text)
    → render_features fs ++ rest ≡ render_all (feature_fragments fs) rest
unfolding render_features
render_features_all [] rest = refl
render_features_all (f ∷ fs) rest =
    append_assoc (render_instruction f.key f.text) (render_features fs) rest
    ∙ ap (λ u. render_instruction f.key f.text ++ u) (render_features_all fs rest)

optional_all :
    (key : Text) (o : Option Text) (more : List (Text × Text)) (rest : Text)
    → render_all (fragment_if key o ++ more) rest ≡ render_optional key o ++ render_all more rest
optional_all key none more rest = refl
optional_all key (some text) more rest = refl

render_xml_all :
    (i : CompiledInstructions)
    → render_xml i ≡ codes "<instructions>" ++ render_all (fragments i) (codes "</instructions>")
unfolding render_xml
render_xml_all i =
    ap (λ u. codes "<instructions>" ++ (render_instruction (codes "core") i.core.text ++ u))
      (rw
        (
          render_features_all i.features (codes "</instructions>"),
          optional_all (codes "agent") i.agent
              (fragment_if (codes "run") i.run ++ feature_fragments i.features)
              (codes "</instructions>"),
          optional_all (codes "run") i.run (feature_fragments i.features) (codes "</instructions>"),
        )
        refl)

-- Instructions that are rendered to the same XML have the same fragments in the same order: no text
-- can pass for another fragment, or for a part of one.
pub render_xml-injective :
    (i k : CompiledInstructions) → render_xml i ≡ render_xml k → fragments i ≡ fragments k
render_xml-injective i k h =
    let e = sym (render_xml_all i) ∙ h ∙ render_xml_all k in
    render_all-injective (fragments i) (fragments k) (ground (arith, e))
