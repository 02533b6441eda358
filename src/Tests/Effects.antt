-- ===== src/Tests/Effects.antt =====
-- Attempts of providers and tools, and providers behind a router, on concrete values.
use agentive.Base.{
  Option, Text, codes, is_blank, ◌≡◌, refl, ℕ, ◌%◌, ◌*◌, ◌^◌, ◌-◌, ◌+◌, min, true, false, [], ◌∷◌,
  none, some, ok, arith, if◌then◌else◌, ◌==◌,
}
use agentive.Message
use agentive.Model.{ModelRequest, AllOrError, StructuredOutputSupport}
use agentive.Errors.{ProviderError, ProviderErrorKind, ToolError}
use agentive.Response.{validate_model_response}
use agentive.State.Types.{AgentRunState, AgentEffectOutcome}
use agentive.State.Commits.{commit_effect}
use agentive.State.Atomic.{answer_accepted}
use agentive.State.Budget.{InBudget}
use agentive.Attempts.{
  ProviderEvent, ProviderRun, ToolEvent, ToolRun, reservation, allowed_attempts, provider_loop,
  execute_provider, make_attempts, tool_loop, execute_tool_effect, retry_delay, utf8_bytes,
}
use agentive.Attempts.Loop.{Returns}
use agentive.Attempts.Outcome.{Explains, execute_provider-Returns, execute_provider_reports}
use agentive.Attempts.Affords.{execute_commit-InBudget}
use agentive.Attempts.Delay.{with_leading, retry_delay_exact}
use agentive.Attempts.Tool.{Reports, execute_tool_effect-Reports, execute_tool_effect-Returns}
use agentive.Admission.{Provider, validate_context, can_admit, prompt_bound}
use agentive.Router.{fallback_provider}
use agentive.Router.Guarantees.{Admits, router-Admits_both}
use agentive.Tests.{wire, json, fresh, policy, asking, instructions}
use agentive.Tests.Runs.{asks_provider, fresh-InBudget}

-- A provider of a context limit, whose bound for any request is `tokens`.
abbrev pub provider_of : ℕ → ℕ → Provider Text
provider_of limit tokens = record {
  routing_attempts = 1;
  capabilities = record {
    supports_tool_calls = true;
    supports_streaming = false;
    supports_images = false;
    max_context_tokens = some limit;
  };
  structured_output_support = StructuredOutputSupport.json;
  conservative_context_token_bound = λ r. ok (some tokens);
  exact_context_token_count = λ r. ok (some tokens);
}

-- A provider that is limited at first and answers then.
abbrev busy : ProviderError
busy = record {
  kind = ProviderErrorKind.rate_limited;
  message = codes "busy";
  retry_advice = record { retryable = true; safe_before_output = true };
  usage = none;
}

abbrev second_answers : ℕ → ProviderEvent Text
second_answers n =
    if n == 1 then ProviderEvent.failed busy false else ProviderEvent.answered asking false

abbrev provider_run : ProviderRun Text
provider_run = record { events = second_answers; waits = λ n. true }

abbrev request : ModelRequest Text
request = record {
  instructions = instructions;
  messages = fresh.history;
  tools = [];
  include_context = true;
  model = none;
  max_output_tokens = 60;
  output_format = fresh.plan.output_format;
  invocation_id = codes "r:provider:0";
}

abbrev id : Text
id = codes "r:provider:0"

-- Two attempts, each of which reserves the prompt's 40 tokens and 60 for the output.
abbrev outcome : AgentEffectOutcome Text
outcome = AgentEffectOutcome.provider asking (
    record { attempt = 1; usage = none; reserved_tokens = 100 }
    ∷ record { attempt = 2; usage = asking.usage; reserved_tokens = 100 }
    ∷ [])

executes :
    execute_provider wire (provider_of 200 40) provider_run 2 fresh request id ≡ some (ok outcome)
unfolding execute_provider make_attempts provider_loop reservation allowed_attempts
    validate_model_response is_blank validate_context can_admit prompt_bound Message.user
executes = refl

execute_provider-Returns_example :
    Returns (execute_provider wire (provider_of 200 40) provider_run 2 fresh request id)
execute_provider-Returns_example =
    execute_provider-Returns wire provider_run (provider_of 200 40) 2 fresh request id (omega arith)
      (omega arith)

execute_provider_reports_example :
    (prompt : Option ℕ) × (tokens : ℕ) × ((validate_context
          (provider_of 200 40)
          AllOrError.exact
          false
          request
        ≡ ok prompt)
      × (reservation wire fresh request prompt ≡ ok tokens))
    × Explains provider_run fresh tokens id outcome
execute_provider_reports_example =
    execute_provider_reports wire provider_run (provider_of 200 40) 2 fresh request id outcome
      (omega arith) executes

abbrev answered : AgentRunState Text
answered = (commit_effect wire fresh id outcome).0

accepts : commit_effect wire fresh id outcome ≡ (answered, ok tt)
accepts = answer_accepted wire fresh id outcome asks_provider

execute_commit-InBudget_example : InBudget answered
execute_commit-InBudget_example =
    execute_commit-InBudget wire fresh (provider_of 200 40) provider_run 2 answered request id
      outcome (omega arith) (omega arith) asks_provider executes accepts fresh-InBudget

-- A tool that fails twice and succeeds then.
abbrev flaky : ToolError
flaky = record { code = codes "flaky"; message = codes "again"; retryable = true }

abbrev tool_run : ToolRun Text
tool_run = record {
  events = λ n. if n == 3 then ToolEvent.returned (codes "{}") else ToolEvent.failed flaky;
  waits = λ n. true;
}

abbrev tool_outcome : AgentEffectOutcome Text
tool_outcome = AgentEffectOutcome.tool (codes "{}") 3 none

executes_tool : execute_tool_effect json tool_run policy 3 ≡ some (ok tool_outcome)
unfolding execute_tool_effect tool_loop
executes_tool = refl

execute_tool_effect-Returns_example : Returns (execute_tool_effect json tool_run policy 3)
execute_tool_effect-Returns_example =
    execute_tool_effect-Returns json tool_run policy 3 (omega arith) (omega arith)

execute_tool_effect-Reports_example : Reports json tool_run policy tool_outcome
execute_tool_effect-Reports_example =
    execute_tool_effect-Reports json tool_run policy 3 tool_outcome (omega arith) executes_tool

retry_delay_exact_example :
    retry_delay (codes "r:tool:a") 2
    ≡ with_leading 2 (utf8_bytes (codes "r:tool:a")) % 2 ^ 64 % (min (5 * 2 ^ (2 - 1)) 160 + 1)
retry_delay_exact_example = retry_delay_exact (codes "r:tool:a") 2 (omega arith)

routes :
    validate_context
      (fallback_provider (provider_of 200 30) (provider_of 100 40))
      AllOrError.exact
      false
      request
    ≡ ok (some 40)
unfolding validate_context fallback_provider can_admit prompt_bound Message.user
routes = refl

router-Admits_both_example :
    Admits (provider_of 200 30) AllOrError.exact false request
    × Admits (provider_of 100 40) AllOrError.exact false request
router-Admits_both_example =
    router-Admits_both (provider_of 200 30) (provider_of 100 40) AllOrError.exact false request
      routes
