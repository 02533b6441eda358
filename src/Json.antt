-- ===== src/Json.antt =====
-- What the crates use of serde_json's `Value`, which is not part of the repository. `V` stands for
-- the type of values.
use agentive.Base.{Text, codes, Bool, true, List, [], ◌∷◌, Option, some, ◌≡◌}

pub record Json (V : Type 0) : Type 0 where
  -- `value.to_string()`
  pub to_string : V → Text
  -- `serde_json::from_str::<Value>(text).ok()`
  pub from_str : Text → Option V
  -- `value.is_object()`
  pub is_object : V → Bool
  -- the values that `json!` builds from texts and from members
  pub string : Text → V
  pub object : List (Text × V) → V

-- What serde_json documents of them: a value is printed as JSON that parses, and an object literal
-- is an object.
pub record IsLawful {V : Type 0} (j : Json V) : Type 0 where
  pub prints_json : (v : V) → (w : V) × (j.from_str (j.to_string v) ≡ some w)
  pub object-is_object : (members : List (Text × V)) → j.is_object (j.object members) ≡ true

module _ {V : Type 0} (j : Json V) where
  -- `json!({ "error": { "code": code, "message": message } })`
  unfoldable pub error_value : Text → Text → V
  error_value code message = j.object (
      (
        codes "error",
        j.object ((codes "code", j.string code) ∷ (codes "message", j.string message) ∷ []),
      )
      ∷ [])
