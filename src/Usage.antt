-- ===== src/Usage.antt =====
-- crates/agentive/src/usage.rs: token measurements and their aggregation over a run. `&mut self`
-- methods return the new value.
pub mod Measures
pub mod Totals
use agentive.Base.{
  Text, ℕ, Bool, true, false, ◌&&◌, List, [], ◌∷◌, ◌++◌, Option, none, some, is_some, is_empty,
  sat_add, u64_max, if◌then◌else◌,
}
use agentive.Model.{ModelTokenUsage}

pub record TokenUsage : Type 0 where
  pub input : Option ℕ
  pub output : Option ℕ
  pub cached_input : Option ℕ
  pub reasoning : Option ℕ
  pub provider_total : Option ℕ

-- `TokenUsage::unknown`
abbrev pub unknown : TokenUsage
unknown = record {
  input = none;
  output = none;
  cached_input = none;
  reasoning = none;
  provider_total = none;
}

-- `TokenUsage::from_model`
unfoldable pub from_model : ModelTokenUsage → TokenUsage
from_model u = record {
  input = u.input;
  output = u.output;
  cached_input = u.cached_input;
  reasoning = u.reasoning;
  provider_total = u.provider_total;
}

pub merge_opt : Option ℕ → Option ℕ → Option ℕ
merge_opt (some a) (some b) = some (sat_add u64_max a b)
merge_opt _ _ = none

-- `TokenUsage::merge`
pub merge : TokenUsage → TokenUsage → TokenUsage
merge u rhs = record {
  input = merge_opt u.input rhs.input;
  output = merge_opt u.output rhs.output;
  cached_input = merge_opt u.cached_input rhs.cached_input;
  reasoning = merge_opt u.reasoning rhs.reasoning;
  provider_total = merge_opt u.provider_total rhs.provider_total;
}

-- `TokenUsage::complete`
unfoldable pub is_complete : TokenUsage → Bool
is_complete u =
    is_some u.input
    && is_some u.output
    && is_some u.cached_input
    && is_some u.reasoning
    && is_some u.provider_total

pub record ModelCallUsage : Type 0 where
  pub model : Text
  pub usage : TokenUsage

pub record RunUsage : Type 0 where
  pub aggregate : TokenUsage
  pub complete : Bool
  pub model_calls : List ModelCallUsage

-- `RunUsage::new`
unfoldable pub new : RunUsage
new = record { aggregate = unknown; complete = true; model_calls = [] }

-- `RunUsage::add_call`
unfoldable pub add_call : RunUsage → Text → Option ModelTokenUsage → RunUsage
unfolding merge is_complete from_model
add_call r model (some usage) =
    let token_usage = from_model usage in
    record {
      aggregate = if is_empty r.model_calls then token_usage else merge r.aggregate token_usage;
      complete = r.complete && is_complete token_usage;
      model_calls = r.model_calls ++ record { model = model; usage = token_usage } ∷ [];
    }
add_call r model none = record {
  aggregate = r.aggregate;
  complete = false;
  model_calls = r.model_calls ++ record { model = model; usage = unknown } ∷ [];
}

-- `RunUsage::merge_child`
unfoldable pub merge_child : RunUsage → RunUsage → RunUsage
unfolding merge
merge_child r child = record {
  aggregate =
      if is_empty child.model_calls
      then r.aggregate
      else if is_empty r.model_calls
      then child.aggregate
      else merge r.aggregate child.aggregate;
  complete = r.complete && child.complete;
  model_calls = r.model_calls ++ child.model_calls;
}
