-- ===== src/State/Commits.antt =====
-- crates/agentive/src/state/commits.rs: completing effects. A method on `&mut self` returns the
-- state that it leaves behind, beside its result.
use agentive.Base.{
  Text, codes, text_eq, ℕ, max, Bool, true, false, ◌&&◌, List, [], ◌∷◌, ◌++◌, map, Option, none,
  some, length, zip, ltb, ◌==◌, if◌then◌else◌, sat_add, sat_mul, clamp_to, u32_max, u64_max, Result,
  ok, err,
}
use agentive.Json.{error_value}
use agentive.Message
use agentive.Message.Types.{ToolCall}
use agentive.Model.{ModelTokenUsage, ModelToolCall, ModelResponse}
use agentive.Errors.{ProviderError}
use agentive.Usage
use agentive.Usage.{RunUsage}
use agentive.State.Types.{
  RunStatus, StateTransitionError, unexpected_effect, AgentRunState, DelegationBudget,
  ToolEffectCall, AgentRunEffect, ProviderAttempt, ToolEffectResult, AgentEffectOutcome,
}
use agentive.State.Effects.{
  Wire, is_live, next_effect, next_model_token_reservation, delegation_budget_for,
}

abbrev pub Transition : Type 0 → Type 0
Transition V = AgentRunState V × Result StateTransitionError (Unit {0})

-- `provider_call_count`
unfoldable pub provider_call_count : List ProviderAttempt → ℕ
provider_call_count attempts = max (clamp_to u32_max (length attempts)) 1

-- The total of positive reservations; none of them may be missing.
abbrev pub add_reservations : ℕ → List ProviderAttempt → Option ℕ
add_reservations total [] = some total
add_reservations total (a ∷ rest) =
    let more = add_reservations (sat_add u64_max total a.reserved_tokens) rest in
    if ltb 0 a.reserved_tokens then more else none

abbrev pub provider_derived : List ProviderAttempt → Option ℕ
provider_derived [] = none
provider_derived (a ∷ rest) = add_reservations 0 (a ∷ rest)

add_calls : RunUsage → List ProviderAttempt → RunUsage
add_calls usage [] = usage
add_calls usage (a ∷ rest) = add_calls (Usage.add_call usage (codes "model") a.usage) rest

abbrev merge_child_usage : RunUsage → Option RunUsage → RunUsage
merge_child_usage usage none = usage
merge_child_usage usage (some child) = Usage.merge_child usage child

module _ {V : Type 0} where
  -- `effect_id`
  abbrev pub effect_id : AgentRunEffect V → Text
  effect_id (AgentRunEffect.provider_call id _ _ _) = id
  effect_id (AgentRunEffect.tool_call id _ _ _ _) = id
  effect_id (AgentRunEffect.tool_batch id _) = id

  abbrev pub expected_id : Option (AgentRunEffect V) → Option Text
  expected_id none = none
  expected_id (some effect) = some (effect_id effect)

  -- Whether the effect is a provider call (or a single tool call) of the identity received.
  abbrev is_effect : Option (AgentRunEffect V) → Bool → Text → Bool
  is_effect (some (AgentRunEffect.provider_call id _ _ _)) true received = text_eq id received
  is_effect (some (AgentRunEffect.tool_call id _ _ _ _)) false received = text_eq id received
  is_effect _ _ _ = false

  abbrev is_batch : Option (AgentRunEffect V) → Text → ℕ → Bool
  is_batch (some (AgentRunEffect.tool_batch id calls)) received count =
      text_eq id received && (length calls == count)
  is_batch _ _ _ = false

  -- `AgentRunState::expect_effect`
  unfoldable pub expect_effect :
      AgentRunState V → Text → Bool → Result StateTransitionError (Unit {0})
  expect_effect s received provider =
      if is_effect (next_effect s) provider received
      then ok tt
      else err (unexpected_effect received (expected_id (next_effect s)))

  -- `AgentRunState::expect_batch`
  unfoldable pub expect_batch : AgentRunState V → Text → ℕ → Result StateTransitionError (Unit {0})
  expect_batch s received count =
      if is_batch (next_effect s) received count
      then ok tt
      else err (unexpected_effect received (expected_id (next_effect s)))

  -- `AgentRunState::fail`
  unfoldable pub fail : AgentRunState V → Text → AgentRunState V
  fail s message =
      if is_live s.status then record s { status = RunStatus.failed; error = some message } else s

  -- `AgentRunState::record_provider_attempts`
  unfoldable pub record_provider_attempts :
      AgentRunState V → List ProviderAttempt → Option ModelTokenUsage → AgentRunState V
  unfolding add_calls
  record_provider_attempts s [] legacy = record s {
    usage = Usage.add_call s.usage (codes "model") legacy;
  }
  record_provider_attempts s (a ∷ rest) legacy = record s { usage = add_calls s.usage (a ∷ rest) }

  -- What the attempts of one provider effect reserve.
  unfoldable pub attempt_reservation : Wire V → AgentRunState V → List ProviderAttempt → ℕ
  attempt_reservation w s attempts = elim (provider_derived attempts) [
    | some total ↦ total
    | none ↦ sat_mul u64_max (next_model_token_reservation w s) (provider_call_count attempts)
  ]

  -- `AgentRunState::reserve_provider_attempt_tokens`
  unfoldable pub reserve_provider_attempt_tokens :
      Wire V → AgentRunState V → List ProviderAttempt → AgentRunState V
  reserve_provider_attempt_tokens w s attempts = record s {
    reserved_tokens = sat_add u64_max s.reserved_tokens (attempt_reservation w s attempts);
  }

  -- The counters that a provider effect moves, whether it succeeded or failed.
  unfoldable pub count_provider_effect :
      Wire V → AgentRunState V → List ProviderAttempt → Option ModelTokenUsage → AgentRunState V
  unfolding reserve_provider_attempt_tokens record_provider_attempts
  count_provider_effect w s attempts usage =
      let reserved = reserve_provider_attempt_tokens w s attempts in
      record_provider_attempts
        (record reserved {
          provider_calls_started =
              sat_add u32_max (max reserved.provider_calls_started reserved.model_calls)
                (provider_call_count attempts);
          model_calls = sat_add u32_max reserved.model_calls 1;
        })
        attempts usage

  abbrev pub to_tool_call : ModelToolCall V → ToolCall V
  to_tool_call call = record { id = call.call_id; name = call.name; arguments = call.arguments }

  -- What a response adds to the run: tool calls, a final text, or neither.
  unfoldable pub settle_response :
      AgentRunState V → List (ModelToolCall V) → Option Text → AgentRunState V
  settle_response s (call ∷ rest) text = record s {
    history = s.history ++ Message.assistant_tool_calls (map to_tool_call (call ∷ rest)) ∷ [];
    pending_tools = call ∷ rest;
  }
  settle_response s [] (some text) = record s {
    history = s.history ++ Message.assistant_text text ∷ [];
    text = some text;
    status = RunStatus.completed;
  }
  settle_response s [] none = record s {
    status = RunStatus.incomplete;
    usage = record (s.usage) { complete = false };
  }

  -- `AgentRunState::commit_provider_response_with_attempts`
  unfoldable pub commit_provider_response_with_attempts :
      Wire V → AgentRunState V → Text → ModelResponse V → List ProviderAttempt → Transition V
  unfolding settle_response count_provider_effect
  commit_provider_response_with_attempts w s id response attempts = elim (expect_effect s id true) [
    | err e ↦ (s, err e)
    | ok _ ↦ (
      settle_response
          (count_provider_effect w (record s { status = RunStatus.running }) attempts
            response.usage)
          response.tool_calls response.text,
      ok tt,
    )
  ]

  -- `AgentRunState::commit_provider_response`
  unfoldable pub commit_provider_response :
      Wire V → AgentRunState V → Text → ModelResponse V → Transition V
  unfolding commit_provider_response_with_attempts
  commit_provider_response w s id response =
      commit_provider_response_with_attempts w s id response []

  -- `AgentRunState::commit_provider_failure`
  unfoldable pub commit_provider_failure :
      Wire V → AgentRunState V → Text → ProviderError → List ProviderAttempt → Transition V
  unfolding count_provider_effect fail
  commit_provider_failure w s id error attempts = elim (expect_effect s id true) [
    | err e ↦ (s, err e)
    | ok _ ↦ (fail (count_provider_effect w s attempts error.usage) error.message, ok tt)
  ]

  -- The branch of `commit_effect` for a refused reservation.
  unfoldable pub commit_budget_exhausted : AgentRunState V → Text → Transition V
  commit_budget_exhausted s id = elim (expect_effect s id true) [
    | err e ↦ (s, err e)
    | ok _ ↦ (
      record s { status = RunStatus.incomplete; usage = record (s.usage) { complete = false } },
      ok tt,
    )
  ]

  -- `AgentRunState::reserve_child`
  unfoldable pub reserve_child : AgentRunState V → Option DelegationBudget → AgentRunState V
  reserve_child s none = s
  reserve_child s (some reservation) = record s {
    reserved_child_model_calls =
        sat_add u32_max s.reserved_child_model_calls reservation.model_call_limit;
    reserved_tokens =
        sat_add u64_max s.reserved_tokens
          (elim reservation.token_limit [ none ↦ 0 | some tokens ↦ tokens ]);
  }

  -- The first pending call is answered: usage, reservation, history, and its removal.
  unfoldable pub settle_tool :
      Wire V
      → AgentRunState V
      → ModelToolCall V
      → List (ModelToolCall V)
      → V
      → Option RunUsage
      → Option DelegationBudget
      → AgentRunState V
  unfolding reserve_child
  settle_tool w s call rest output child_usage reservation =
      let reserved =
        reserve_child (record s { usage = merge_child_usage s.usage child_usage }) reservation in
      record reserved {
        history = reserved.history ++ Message.tool_result w.json call.call_id call.name output ∷ [];
        pending_tools = rest;
      }

  abbrev pub first_reservation : AgentRunState V → List (ModelToolCall V) → Option DelegationBudget
  first_reservation s [] = none
  first_reservation s (call ∷ rest) = delegation_budget_for s call

  -- `AgentRunState::commit_tool_result_with_usage`
  unfoldable pub commit_tool_result_with_usage :
      Wire V → AgentRunState V → Text → V → Option RunUsage → Transition V
  unfolding settle_tool
  commit_tool_result_with_usage w s id output child_usage = elim (expect_effect s id false) [
    | err e ↦ (s, err e)
    | ok _ ↦ elim s.pending_tools [
      | [] ↦ (s, err (unexpected_effect id none))
      | call ∷ rest ↦ (
        settle_tool w s call rest output child_usage (first_reservation s s.pending_tools),
        ok tt,
      )
    ]
  ]

  -- `AgentRunState::commit_tool_result`
  unfoldable pub commit_tool_result : Wire V → AgentRunState V → Text → V → Transition V
  unfolding commit_tool_result_with_usage
  commit_tool_result w s id output = commit_tool_result_with_usage w s id output none

  -- `AgentRunState::commit_tool_error`
  unfoldable pub commit_tool_error : Wire V → AgentRunState V → Text → Text → Text → Transition V
  unfolding commit_tool_result
  commit_tool_error w s id code message =
      commit_tool_result w s id (error_value w.json code message)

  -- The reservations of a batch are fixed before its first result is committed.
  unfoldable pub batch_reservations : Option (AgentRunEffect V) → List (Option DelegationBudget)
  batch_reservations (some (AgentRunEffect.tool_batch id calls)) =
      map (λ (call : ToolEffectCall V). call.delegation_budget) calls
  batch_reservations _ = []

  -- The loop of `commit_tool_batch`.
  unfoldable pub commit_outputs :
      Wire V
      → Text
      → AgentRunState V
      → List (ToolEffectResult V × Option DelegationBudget)
      → Transition V
  unfolding settle_tool
  commit_outputs w id s [] = (s, ok tt)
  commit_outputs w id s ((output, reservation) ∷ more) = elim s.pending_tools [
    | [] ↦ (s, err (unexpected_effect id none))
    | call ∷ rest ↦
        commit_outputs w id (settle_tool w s call rest output.output output.child_usage reservation)
          more
  ]

  -- `AgentRunState::commit_tool_batch`
  unfoldable pub commit_tool_batch :
      Wire V → AgentRunState V → Text → List (ToolEffectResult V) → Transition V
  unfolding commit_outputs batch_reservations
  commit_tool_batch w s id outputs = elim (expect_batch s id (length outputs)) [
    | err e ↦ (s, err e)
    | ok _ ↦ commit_outputs w id s (zip outputs (batch_reservations (next_effect s)))
  ]

  -- `AgentRunState::commit_effect`
  unfoldable pub commit_effect :
      Wire V → AgentRunState V → Text → AgentEffectOutcome V → Transition V
  commit_effect w s id (AgentEffectOutcome.provider response attempts) =
      commit_provider_response_with_attempts w s id response attempts
  commit_effect w s id (AgentEffectOutcome.provider_failed error attempts) =
      commit_provider_failure w s id error attempts
  commit_effect w s id (AgentEffectOutcome.provider_budget_exhausted _) =
      commit_budget_exhausted s id
  commit_effect w s id (AgentEffectOutcome.tool output _ child_usage) =
      commit_tool_result_with_usage w s id output child_usage
  commit_effect w s id (AgentEffectOutcome.tool_batch outputs) = commit_tool_batch w s id outputs
