-- ===== src/Tests/Drives.antt =====
-- Effects, delegations and whole runs, on concrete values.
use agentive.Base.{
  Option, Bool, ℕ, zero, suc, length, Text, codes, ◌≡◌, ◌↔◌, refl, true, false, List, [], ◌∷◌, none,
  some, ok, arith, if◌then◌else◌, ◌==◌, u8_max, is_blank, decimal,
}
use agentive.Model.{ModelResponse, ModelFinishReason}
use agentive.History.{
  validate_effect_state_history, validate_history, pending_history_calls, accept_message,
}
use agentive.Message
use agentive.State.Types.{
  RunStatus, AgentRunState, AgentRunEffect, AgentEffectOutcome, ToolEffectCall,
}
use agentive.State.Effects.{
  finish_if_exhausted, next_model_request, with_plan, delegation_budget_for, next_effect,
  record_elapsed, tool_effect_call,
}
use agentive.State.Commits.{
  commit_effect, commit_provider_response_with_attempts, commit_budget_exhausted, expect_effect,
  commit_tool_result_with_usage, provider_call_count,
}
use agentive.State.Elapsed.{commit_effect-record_elapsed}
use agentive.Attempts.{ProviderEvent, ToolEvent, execute_tool_effect, execute_provider}
use agentive.Agent.{
  Agent, RegisteredTool, RunOptions, default_options, prepare_state, compile_messages,
  prepared_plan, validate_state_plan,
}
use agentive.Agent.Prepared.{IsSized, IsReflexive, IsReady, prepare_state-IsReady}
use agentive.Delegation.{ChildEnd, DelegationExecution, Codec}
use agentive.Delegation.Bounded.{Delegates, delegation_bounded}
use agentive.Execution.{Boundary, perform, execute_effect}
use agentive.Execution.Fits.{IsBytePlan, Fits}
use agentive.Execution.Chunks.{Singly, batch_one_by_one}
use agentive.Execution.Answered.{Returned, execute_effect-Returned, executed_accepted}
use agentive.Driver.{Environment, RunEvent, ModelStreamEvent}
use agentive.Driver.Rounds.{start}
use agentive.Driver.Bus.{Observer, Waited, send_all}
use agentive.Driver.Ends.{RunEnds, start_ends, RunAnswers, run_answers}
use agentive.Admission.{validate_context, prompt_bound, can_admit, estimate_tokens}
use agentive.Response.{validate_model_response}
use agentive.Usage
use agentive.Tests.{wire, json, fresh, waiting, call, asking, hello}
use agentive.Tests.Joins.{join}
use agentive.Tests.Effects.{provider_of}

abbrev lookup : RegisteredTool Text
lookup = record {
  handle_name = codes "lookup";
  max_attempts = 3;
  parallel_safe = true;
  definition = record {
    name = codes "lookup";
    description = codes "find it";
    schema = codes "{}";
    idempotent = true;
  };
  delegation = none;
}

abbrev agent : Agent Text
agent = record { provider = provider_of 1000 10; tools = lookup ∷ []; agent_instructions = none }

abbrev final : ModelResponse Text
final = record {
  text = some (codes "done");
  tool_calls = [];
  usage = none;
  finish_reason = ModelFinishReason.stop;
}

abbrev codec : Codec Text
codec = record { decode_task = λ args. ok args; encode_result = λ result. some (codes "{}") }

-- The provider gives one response, and every tool succeeds.
abbrev boundary : ModelResponse Text → Boundary Text
boundary response = record {
  provider_run = record { events = λ n. ProviderEvent.answered response false; waits = λ n. true };
  tool_run =
      λ invocation. record { events = λ n. ToolEvent.returned (codes "{}"); waits = λ n. true };
  child_run = λ invocation task options. (codes "c", ChildEnd.errored fresh.usage);
  valid_arguments = λ arguments schema. true;
  codec = codec;
  join = join;
  effect_eq = λ a b. true;
  equality = record { instructions_eq = λ a b. true; tools_eq = λ a b. true };
}

abbrev equality-IsReflexive : IsReflexive (boundary asking).equality
equality-IsReflexive = record { instructions = λ i. refl; tools = λ ps. refl }

-- A tool is called in the first round of the provider, and the second one ends the run.
abbrev environment : Environment Text
environment = record {
  cancelled = λ n. false;
  boundary = λ n. boundary (if n == 0 then asking else final);
  observed = λ n. [];
  record_ms = λ n. 3;
  effect_ms = λ n. 4;
  run_ms = λ n. 5;
  has_no_error = λ output. true;
  refusal = λ e. codes "refused";
}

abbrev options : RunOptions Text
options = default_options

sized : IsSized agent options
unfolding default_options
sized = record {
  attempts = omega arith;
  routing = omega arith;
  tools = (omega arith, tt);
  tokens = tt;
}

-- One observer has dropped its receiver, and one takes what is sent.
abbrev observers : List Observer
observers = Observer.dropped ∷ Observer.receiving 0 9 ∷ []

start_ends_example :
    RunEnds wire environment agent options (λ n. tt) (codes "r") (codes "hello") observers
start_ends_example =
    start_ends wire environment agent options (λ n. tt) (codes "r") (codes "hello") observers sized

run_answers_example :
    RunAnswers wire environment agent options (λ n. tt) (codes "r") (codes "hello")
run_answers_example =
    run_answers wire environment agent options (λ n. tt) (codes "r") (codes "hello") sized

waiting-IsBytePlan : IsBytePlan waiting.plan
waiting-IsBytePlan = record { provider = omega arith; tools = (omega arith, tt) }

abbrev first_effect : AgentRunEffect Text
first_effect =
    AgentRunEffect.tool_call (codes "r:tool:a") (tool_effect_call waiting call).invocation
      (codes "{}") (tool_effect_call waiting call).policy
      (tool_effect_call waiting call).delegation_budget

waiting_asks : next_effect waiting ≡ some first_effect
unfolding next_effect tool_effect_call
waiting_asks = refl

execute_effect-Returned_example :
    Returned (execute_effect wire agent (boundary asking) u8_max waiting first_effect)
execute_effect-Returned_example =
    execute_effect-Returned wire agent (boundary asking) u8_max waiting first_effect
      waiting-IsBytePlan (omega arith) waiting_asks

abbrev outcome : AgentEffectOutcome Text
outcome = AgentEffectOutcome.tool (codes "{}") 1 none

waiting_executed :
    execute_effect wire agent (boundary asking) u8_max waiting first_effect ≡ some (ok outcome)
unfolding execute_effect validate_effect_state_history pending_history_calls accept_message
    Message.user Message.assistant_tool_calls is_blank validate_state_plan next_effect
    tool_effect_call execute_tool_effect
waiting_executed = refl

executed_accepted_example :
    Fits first_effect outcome
    × (commit_effect wire (record_elapsed waiting 7) (codes "r:tool:a") outcome
        ≡ (record_elapsed (commit_effect wire waiting (codes "r:tool:a") outcome).0 7, ok tt))
executed_accepted_example =
    executed_accepted wire agent (boundary asking) u8_max waiting first_effect outcome 7
      waiting-IsBytePlan (omega arith) waiting_asks waiting_executed

commit_effect-record_elapsed_example :
    commit_effect wire (record_elapsed waiting 7) (codes "r:tool:b") outcome ≡ (
      record_elapsed (commit_effect wire waiting (codes "r:tool:b") outcome).0 7,
      (commit_effect wire waiting (codes "r:tool:b") outcome).1,
    )
commit_effect-record_elapsed_example =
    commit_effect-record_elapsed wire 7 waiting (codes "r:tool:b") outcome

abbrev two_calls : List (ToolEffectCall Text)
two_calls = tool_effect_call waiting call ∷ tool_effect_call waiting call ∷ []

batch_one_by_one_example :
    (perform wire agent
        (boundary asking)
        u8_max
        waiting
        (AgentRunEffect.tool_batch (codes "b") two_calls)
      ≡ some (ok outcome))
    ↔ Singly wire agent (boundary asking) u8_max waiting two_calls outcome
batch_one_by_one_example =
    batch_one_by_one wire agent (boundary asking) u8_max waiting (codes "b") two_calls outcome

abbrev prepared_state : AgentRunState Text
prepared_state =
    with_plan (codes "r") (hello ∷ []) (record { model_call_limit = 6 })
      (prepared_plan agent options)

prepared : prepare_state json agent (codes "r") (hello ∷ []) options ≡ ok prepared_state
unfolding prepare_state validate_history pending_history_calls accept_message Message.user is_blank
    default_options
prepared = refl

prepare_state-IsReady_example : IsReady wire (boundary asking).equality agent prepared_state
prepare_state-IsReady_example =
    prepare_state-IsReady wire (boundary asking).equality agent (codes "r") (hello ∷ []) options
      prepared_state sized equality-IsReflexive prepared

abbrev delegated_execution : DelegationExecution
delegated_execution = record {
  remaining = none;
  delegation_depth = 1;
  max_delegation_depth = 4;
  max_parallel_tool_calls = 4;
  budget = some (record { model_call_limit = 2; token_limit = some 10 });
}

delegation_bounded_example :
    Delegates json codec (codes "helper") (codes "task") delegated_execution
delegation_bounded_example =
    delegation_bounded json codec (codes "helper") (codes "task") delegated_execution (omega arith)

-- What a run ends with, and what its handle shows then.
abbrev ends_with : Option (Waited Text) → Option (RunStatus × RunStatus)
ends_with (some (Waited.ended (ok result) shared)) = some (result.status, shared.status)
ends_with _ = none

run_completes :
    ends_with (start wire environment agent options 3 (codes "r") (codes "hello") observers)
    ≡ some (RunStatus.completed, RunStatus.completed)
unfolding start send_all prepare_state default_options validate_history pending_history_calls
    compile_messages accept_message Message.user Message.assistant_tool_calls Message.assistant_text
    Message.tool_result finish_if_exhausted with_plan next_effect execute_effect
    validate_effect_state_history validate_state_plan execute_provider validate_context
    next_model_request prompt_bound can_admit estimate_tokens validate_model_response commit_effect
    record_elapsed tool_effect_call execute_tool_effect is_blank Usage.add_call Usage.new
    commit_provider_response_with_attempts commit_budget_exhausted expect_effect decimal
    commit_tool_result_with_usage delegation_budget_for provider_call_count
run_completes = refl

-- A run whose token budget has no room for a call ends while it is shown as running.
exhausted_run_shown_running :
    ends_with (
      start wire environment agent
        (record options { token_limit = some 5 })
        2
        (codes "r")
        (codes "hello")
        observers)
    ≡ some (RunStatus.incomplete, RunStatus.running)
unfolding start send_all prepare_state default_options validate_history pending_history_calls
    compile_messages accept_message Message.user Message.assistant_tool_calls Message.assistant_text
    Message.tool_result finish_if_exhausted with_plan next_effect execute_effect
    validate_effect_state_history validate_state_plan execute_provider validate_context
    next_model_request prompt_bound can_admit estimate_tokens validate_model_response commit_effect
    record_elapsed tool_effect_call execute_tool_effect is_blank Usage.add_call Usage.new
    commit_provider_response_with_attempts commit_budget_exhausted expect_effect decimal
    commit_tool_result_with_usage delegation_budget_for provider_call_count
exhausted_run_shown_running = refl

-- A run that completed when its deadline had just passed is shown as cancelled.
late_run_shown_cancelled :
    ends_with (
      start wire
        (record environment { boundary = λ n. boundary final })
        agent
        (record options { deadline = some 5 })
        2
        (codes "r")
        (codes "hello")
        observers)
    ≡ some (RunStatus.completed, RunStatus.cancelled)
unfolding start send_all prepare_state default_options validate_history pending_history_calls
    compile_messages accept_message Message.user Message.assistant_tool_calls Message.assistant_text
    Message.tool_result finish_if_exhausted with_plan next_effect execute_effect
    validate_effect_state_history validate_state_plan execute_provider validate_context
    next_model_request prompt_bound can_admit estimate_tokens validate_model_response commit_effect
    record_elapsed tool_effect_call execute_tool_effect is_blank Usage.add_call Usage.new
    commit_provider_response_with_attempts commit_budget_exhausted expect_effect decimal
    commit_tool_result_with_usage delegation_budget_for provider_call_count
late_run_shown_cancelled = refl

abbrev deltas : ℕ → List (RunEvent Text)
deltas zero = []
deltas (suc n) = RunEvent.model_delta 0 (ModelStreamEvent.text_chunk (codes "a")) ∷ deltas n

abbrev is_stuck : Option (Waited Text) → Bool
is_stuck (some (Waited.stuck sent)) = length sent == 256
is_stuck _ = false

-- A run whose receiver is kept but not read stands still after 256 events.
unread_run_waits :
    is_stuck (
      start wire
        (record environment { observed = λ n. deltas 300 })
        agent
        options
        3
        (codes "r")
        (codes "hello")
        (Observer.receiving 0 0 ∷ []))
    ≡ true
unfolding start send_all prepare_state default_options validate_history pending_history_calls
    compile_messages accept_message Message.user Message.assistant_tool_calls Message.assistant_text
    Message.tool_result finish_if_exhausted with_plan next_effect execute_effect
    validate_effect_state_history validate_state_plan execute_provider validate_context
    next_model_request prompt_bound can_admit estimate_tokens validate_model_response commit_effect
    record_elapsed tool_effect_call execute_tool_effect is_blank Usage.add_call Usage.new
    commit_provider_response_with_attempts commit_budget_exhausted expect_effect decimal
    commit_tool_result_with_usage delegation_budget_for provider_call_count
unread_run_waits = refl
