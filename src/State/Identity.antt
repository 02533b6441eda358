-- ===== src/State/Identity.antt =====
-- crates/agentive/src/state/effects.rs: effects of different kinds, rounds or calls of one run have
-- different identities.
use agentive.Base.{
  Text, codes, decimal, decimal-injective, append-cancel, ◌≡◌, ◌≢◌, refl, ◌⊎◌, true, [], ◌∷◌, ◌++◌,
  List, some, arith, ℕ,
}
use agentive.Model.{ModelToolCall}
use agentive.State.Types.{AgentRunState}
use agentive.State.Effects.{
  provider_effect_id, tool_effect_id, batch_effect_id, next_effect, is_live,
}
use agentive.State.Commits.{expected_id}
use agentive.State.Asks.{first_id}

pub provider-ne-tool : (r : Text) (n : ℕ) (c : Text) → provider_effect_id r n ≢ tool_effect_id r c
provider-ne-tool r n c e =
    ground (arith, append-cancel r (codes ":provider:" ++ decimal n) (codes ":tool:" ++ c) e)

pub provider-ne-batch : (r : Text) (n : ℕ) (c : Text) → provider_effect_id r n ≢ batch_effect_id r c
provider-ne-batch r n c e =
    ground (arith, append-cancel r (codes ":provider:" ++ decimal n) (codes ":tool-batch:" ++ c) e)

pub tool-ne-batch : (r : Text) (b c : Text) → tool_effect_id r b ≢ batch_effect_id r c
tool-ne-batch r b c e =
    ground (arith, append-cancel r (codes ":tool:" ++ b) (codes ":tool-batch:" ++ c) e)

pub tool_id-injective : (r b c : Text) → tool_effect_id r b ≡ tool_effect_id r c → b ≡ c
tool_id-injective r b c e =
    ground (arith, append-cancel r (codes ":tool:" ++ b) (codes ":tool:" ++ c) e)

pub provider_id-injective :
    (r : Text) (m n : ℕ) → provider_effect_id r m ≡ provider_effect_id r n → m ≡ n
provider_id-injective r m n e = decimal-injective m n (
    ground (
      arith,
      append-cancel r (codes ":provider:" ++ decimal m) (codes ":provider:" ++ decimal n) e,
    ))

-- The kinds of effect that a state may expect, with their identities.
abbrev pub Expects : {V : Type 0} → AgentRunState V → Text → Type 0
Expects s id =
    ((s.pending_tools ≡ []) × (id ≡ provider_effect_id s.run_id s.model_calls))
    ⊎ ((first_id (tool_effect_id s.run_id) s.pending_tools ≡ some id)
        ⊎ (first_id (batch_effect_id s.run_id) s.pending_tools ≡ some id))

expected_at :
    {V : Type 0} (s : AgentRunState V) (id : Text) (pending : List (ModelToolCall V))
    → s.pending_tools ≡ pending
    → expected_id (next_effect s) ≡ some id
    → (is_live s.status ≡ true) × Expects s id
unfolding next_effect
expected_at s id [] e h = ground arith
expected_at s id (c ∷ cs) e h = ground arith

pub expected :
    {V : Type 0} (s : AgentRunState V) (id : Text)
    → expected_id (next_effect s) ≡ some id
    → (is_live s.status ≡ true) × Expects s id
expected s id h = expected_at s id s.pending_tools refl h
