-- ===== src/State/Asks.antt =====
-- crates/agentive/src/state: which effect a state asks for, said without identities' format and
-- without the order of the tests in `next_effect`.
use agentive.Base.{
  Text, text_eq_iff, ◌≡◌, refl, ◌⊎◌, Option, none, some, true, false, List, [], ◌∷◌, Result, ok,
  err, length, length-map, arith, ℕ,
}
use agentive.Model.{ModelToolCall}
use agentive.State.Types.{AgentRunState, StateTransitionError, unexpected_effect}
use agentive.State.Effects.{
  is_live, no_provider_budget, is_batchable, provider_effect_id, tool_effect_id, batch_effect_id,
  next_effect, tool_effect_call,
}
use agentive.State.Commits.{expect_effect, expect_batch, expected_id}

module _ {V : Type 0} where
  -- The identity that the first pending call gives to its effect, if a call is pending.
  abbrev pub first_id : (Text → Text) → List (ModelToolCall V) → Option Text
  first_id name [] = none
  first_id name (call ∷ rest) = some (name call.call_id)

  -- The run is live, no tool call is pending, and the budget allows a provider call of identity `id`.
  pub record AsksProvider (s : AgentRunState V) (id : Text) : Type 0 where
    pub live : is_live s.status ≡ true
    pub idle : s.pending_tools ≡ []
    pub affordable : no_provider_budget s ≡ false
    pub named : id ≡ provider_effect_id s.run_id s.model_calls

  -- The run is live, and the first of its pending tool calls, of identity `id`, runs alone.
  pub record AsksTool (s : AgentRunState V) (id : Text) : Type 0 where
    pub live : is_live s.status ≡ true
    pub alone : is_batchable s ≡ false
    pub named : first_id (tool_effect_id s.run_id) s.pending_tools ≡ some id

  -- The run is live, and its pending tool calls, `count` in number, run as one batch.
  pub record AsksBatch (s : AgentRunState V) (id : Text) (count : ℕ) : Type 0 where
    pub live : is_live s.status ≡ true
    pub together : is_batchable s ≡ true
    pub named : first_id (batch_effect_id s.run_id) s.pending_tools ≡ some id
    pub counted : length s.pending_tools ≡ count

  abbrev pub Refusal : AgentRunState V → Text → Result StateTransitionError (Unit {0})
  Refusal s id = err (unexpected_effect id (expected_id (next_effect s)))

  provider_asked_at :
      (s : AgentRunState V) (id : Text) (pending : List (ModelToolCall V))
      → s.pending_tools ≡ pending
      → (AsksProvider s id × (expect_effect s id true ≡ ok tt))
        ⊎ ((¬ AsksProvider s id) × (expect_effect s id true ≡ Refusal s id))
  unfolding expect_effect next_effect
  provider_asked_at s id [] e =
      ground (arith, text_eq_iff (provider_effect_id s.run_id s.model_calls) id)
  provider_asked_at s id (c ∷ cs) e = ground arith

  tool_asked_at :
      (s : AgentRunState V) (id : Text) (pending : List (ModelToolCall V))
      → s.pending_tools ≡ pending
      → (AsksTool s id × (expect_effect s id false ≡ ok tt))
        ⊎ ((¬ AsksTool s id) × (expect_effect s id false ≡ Refusal s id))
  unfolding expect_effect next_effect
  tool_asked_at s id [] e = ground arith
  tool_asked_at s id (c ∷ cs) e = ground (arith, text_eq_iff (tool_effect_id s.run_id c.call_id) id)

  batch_asked_at :
      (s : AgentRunState V) (id : Text) (count : ℕ) (pending : List (ModelToolCall V))
      → s.pending_tools ≡ pending
      → (AsksBatch s id count × (expect_batch s id count ≡ ok tt))
        ⊎ ((¬ AsksBatch s id count) × (expect_batch s id count ≡ Refusal s id))
  unfolding expect_batch next_effect
  batch_asked_at s id count [] e = ground arith
  batch_asked_at s id count (c ∷ cs) e = ground (
    arith,
    text_eq_iff (batch_effect_id s.run_id c.call_id) id,
    length-map (tool_effect_call s) s.pending_tools,
  )

  -- Each kind of completion is expected exactly when the state asks for it, and is refused with
  -- the identity that is expected otherwise.
  pub provider_asked :
      (s : AgentRunState V) (id : Text)
      → (AsksProvider s id × (expect_effect s id true ≡ ok tt))
        ⊎ ((¬ AsksProvider s id) × (expect_effect s id true ≡ Refusal s id))
  provider_asked s id = provider_asked_at s id s.pending_tools refl

  pub tool_asked :
      (s : AgentRunState V) (id : Text)
      → (AsksTool s id × (expect_effect s id false ≡ ok tt))
        ⊎ ((¬ AsksTool s id) × (expect_effect s id false ≡ Refusal s id))
  tool_asked s id = tool_asked_at s id s.pending_tools refl

  pub batch_asked :
      (s : AgentRunState V) (id : Text) (count : ℕ)
      → (AsksBatch s id count × (expect_batch s id count ≡ ok tt))
        ⊎ ((¬ AsksBatch s id count) × (expect_batch s id count ≡ Refusal s id))
  batch_asked s id count = batch_asked_at s id count s.pending_tools refl
