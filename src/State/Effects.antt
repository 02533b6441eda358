-- ===== src/State/Effects.antt =====
-- crates/agentive/src/state/effects.rs: which effect a run asks for next, and its budget. A method
-- on `&mut self` returns the new state.
use agentive.Base.{
  Text, codes, decimal, ℕ, ◌-◌, ◌/◌, max, Bool, true, false, ◌&&◌, ◌||◌, List, [], ◌∷◌, ◌++◌, map,
  Option, none, some, is_empty, length, all, count_if, ltb, leb, if◌then◌else◌, sat_add, clamp_to,
  u32_max, u64_max,
}
use agentive.Json.{Json}
use agentive.Message.Types.{Message}
use agentive.Model.{ModelRequest, ModelToolCall, ModelOutputFormat, AllOrError}
use agentive.Usage
use agentive.State.Types.{
  RunStatus, AgentRunBudget, AgentRunPlan, AgentRunState, ToolRuntimePolicy, tool_policy,
  DelegationBudget, ToolEffectCall, AgentRunEffect,
}

-- What the state machine takes from serde: JSON values, and the length of a request that is
-- serialized by `serde_json::to_vec` (`none` if that fails).
pub record Wire (V : Type 0) : Type 0 where
  pub json : Json V
  pub request_len : ModelRequest V → Option ℕ

-- `matches!(status, RunStatus::Pending | RunStatus::Running)`
abbrev pub is_live : RunStatus → Bool
is_live RunStatus.pending = true
is_live RunStatus.running = true
is_live _ = false

-- `format!("{run_id}:provider:{round}")` and the identities of tool effects.
abbrev pub provider_effect_id : Text → ℕ → Text
provider_effect_id run_id round = run_id ++ (codes ":provider:" ++ decimal round)

abbrev pub tool_effect_id : Text → Text → Text
tool_effect_id run_id call_id = run_id ++ (codes ":tool:" ++ call_id)

abbrev pub batch_effect_id : Text → Text → Text
batch_effect_id run_id call_id = run_id ++ (codes ":tool-batch:" ++ call_id)

abbrev pub is_exhausted : Option ℕ → ℕ → Bool
is_exhausted none used = false
is_exhausted (some limit) used = leb limit used

module _ {V : Type 0} where
  -- `AgentRunState::with_plan`
  unfoldable pub with_plan :
      Text → List (Message V) → AgentRunBudget → AgentRunPlan V → AgentRunState V
  unfolding Usage.new
  with_plan run_id history budget plan = record {
    run_id = run_id;
    plan = plan;
    history = history;
    usage = Usage.new;
    budget = budget;
    model_calls = 0;
    provider_calls_started = 0;
    elapsed_ms = 0;
    reserved_child_model_calls = 0;
    reserved_tokens = 0;
    pending_tools = [];
    status = RunStatus.pending;
    text = none;
    error = none;
  }

  -- `AgentRunState::new`
  unfoldable pub new : Text → List (Message V) → AgentRunBudget → AgentRunState V
  unfolding with_plan
  new run_id history budget = with_plan run_id history budget (record {
    instructions = record {
      core = record { key = codes "sdk_core"; version = 1; text = codes "" };
      agent = none;
      run = none;
      features = [];
    };
    tools = [];
    model = none;
    max_output_tokens = 256;
    output_format = ModelOutputFormat.text;
    provider_max_attempts = 1;
    max_parallel_tool_calls = 4;
    context_estimate = AllOrError.exact;
    provider_enforced_limit_opt_out = false;
    deadline_ms = none;
    delegation_depth = 0;
    max_delegation_depth = 4;
    token_limit = none;
  })

  -- Provider calls that count against the limit: those started, and those given to children.
  abbrev pub calls_used : AgentRunState V → ℕ
  calls_used s =
      sat_add u32_max (max s.provider_calls_started s.model_calls) s.reserved_child_model_calls

  -- `AgentRunState::no_provider_budget`
  unfoldable pub no_provider_budget : AgentRunState V → Bool
  no_provider_budget s =
      leb s.budget.model_call_limit (calls_used s)
      || is_exhausted s.plan.token_limit s.reserved_tokens

  -- `tool_policy(name).is_some_and(|policy| policy.delegation)`, and for `parallel_safe`.
  abbrev policy_delegates : Option (ToolRuntimePolicy V) → Bool
  policy_delegates none = false
  policy_delegates (some policy) = policy.delegation

  abbrev policy_parallel_safe : Option (ToolRuntimePolicy V) → Bool
  policy_parallel_safe none = false
  policy_parallel_safe (some policy) = policy.parallel_safe

  abbrev pub delegates : AgentRunPlan V → ModelToolCall V → Bool
  delegates plan call = policy_delegates (tool_policy plan call.name)

  abbrev pub parallel_safe : AgentRunPlan V → ModelToolCall V → Bool
  parallel_safe plan call = policy_parallel_safe (tool_policy plan call.name)

  -- Each pending delegation gets an equal part, and one part stays with the parent.
  unfoldable pub divisor : AgentRunState V → ℕ
  divisor s = clamp_to u32_max (sat_add u64_max (count_if (delegates s.plan) s.pending_tools) 1)

  -- `AgentRunState::delegation_budget_for`
  unfoldable pub delegation_budget_for : AgentRunState V → ModelToolCall V → Option DelegationBudget
  unfolding divisor
  delegation_budget_for s call =
      if delegates s.plan call
      then some (record {
        model_call_limit = (s.budget.model_call_limit - calls_used s) / divisor s;
        token_limit = elim s.plan.token_limit [
          | none ↦ none
          | some limit ↦ some ((limit - s.reserved_tokens) / divisor s)
        ];
      })
      else none

  -- `AgentRunState::tool_effect_call`
  unfoldable pub tool_effect_call : AgentRunState V → ModelToolCall V → ToolEffectCall V
  tool_effect_call s call = record {
    invocation = record {
      run_id = s.run_id;
      invocation_id = tool_effect_id s.run_id call.call_id;
      provider_call_id = call.provider_call_id;
      tool_name = call.name;
      model_round = s.model_calls - 1;
      idempotency_key = s.run_id ++ (codes ":" ++ call.call_id);
    };
    arguments = call.arguments;
    policy = tool_policy s.plan call.name;
    delegation_budget = delegation_budget_for s call;
  }

  -- `AgentRunState::next_model_request`
  unfoldable pub next_model_request : AgentRunState V → Text → ModelRequest V
  next_model_request s effect_id = record {
    instructions = s.plan.instructions;
    messages = s.history;
    tools = map (λ (policy : ToolRuntimePolicy V). policy.descriptor) s.plan.tools;
    include_context = true;
    model = s.plan.model;
    max_output_tokens = s.plan.max_output_tokens;
    output_format = s.plan.output_format;
    invocation_id = effect_id;
  }

  -- Whether all pending calls may run as one batch.
  unfoldable pub is_batchable : AgentRunState V → Bool
  is_batchable s = ltb 1 (length s.pending_tools) && all (parallel_safe s.plan) s.pending_tools

  -- The effect of a live run, by its pending tool calls.
  unfoldable pub pending_effect :
      AgentRunState V → List (ModelToolCall V) → Option (AgentRunEffect V)
  unfolding is_batchable no_provider_budget
  pending_effect s (call ∷ rest) =
      if is_batchable s
      then some (
          AgentRunEffect.tool_batch (batch_effect_id s.run_id call.call_id)
            (map (tool_effect_call s) s.pending_tools))
      else some (
          AgentRunEffect.tool_call (tool_effect_id s.run_id call.call_id)
            (tool_effect_call s call).invocation call.arguments (tool_policy s.plan call.name)
            (delegation_budget_for s call))
  pending_effect s [] =
      let effect_id = provider_effect_id s.run_id s.model_calls in
      if no_provider_budget s
      then none
      else some (
          AgentRunEffect.provider_call effect_id effect_id s.model_calls
            (next_model_request s effect_id))

  -- `AgentRunState::next_effect`
  unfoldable pub next_effect : AgentRunState V → Option (AgentRunEffect V)
  unfolding pending_effect
  next_effect s = if is_live s.status then pending_effect s s.pending_tools else none

  -- `AgentRunState::cancel` (state/commits.rs)
  unfoldable pub cancel : AgentRunState V → AgentRunState V
  cancel s =
      if is_live s.status
      then record s { status = RunStatus.cancelled; usage = record (s.usage) { complete = false } }
      else s

  -- `AgentRunState::finish_if_exhausted`
  unfoldable pub finish_if_exhausted : AgentRunState V → AgentRunState V × Bool
  unfolding cancel no_provider_budget
  finish_if_exhausted s =
      if is_live s.status && is_exhausted s.plan.deadline_ms s.elapsed_ms
      then (cancel s, true)
      else if is_live s.status && is_empty s.pending_tools && no_provider_budget s
      then (
        record s { status = RunStatus.incomplete; usage = record (s.usage) { complete = false } },
        true,
      )
      else (s, false)

  -- `AgentRunState::record_elapsed`
  unfoldable pub record_elapsed : AgentRunState V → ℕ → AgentRunState V
  record_elapsed s elapsed_ms = record s { elapsed_ms = sat_add u64_max s.elapsed_ms elapsed_ms }

  -- `AgentRunState::next_model_token_reservation`
  unfoldable pub next_model_token_reservation : Wire V → AgentRunState V → ℕ
  unfolding next_model_request
  next_model_token_reservation w s =
      let request = next_model_request s (provider_effect_id s.run_id s.model_calls) in
      sat_add u64_max
        (elim (w.request_len request) [ none ↦ u64_max | some bytes ↦ clamp_to u64_max bytes ])
        s.plan.max_output_tokens
