-- ===== src/Tests.antt =====
-- Concrete values for the tests: JSON values that are their own text, and a run of one tool.
mod Runs
mod Effects
mod Parts
mod Drives
mod Joins
mod Payloads
mod Workflows
use agentive.Base.{
  Text, codes, text_eq, ℕ, Bool, true, false, List, [], ◌∷◌, ◌++◌, Option, none, some, ◌≡◌, refl,
  ◌==◌,
}
use agentive.Json.{Json, IsLawful}
use agentive.Message
use agentive.Message.Types.{Message, CompiledInstructions}
use agentive.Model.{
  AllOrError, ModelFinishReason, ModelOutputFormat, ModelResponse, ModelToolCall, ModelTokenUsage,
}
use agentive.Usage
use agentive.State.Types.{
  AgentRunPlan, AgentRunState, RunStatus, ToolRuntimePolicy, ProviderAttempt,
}
use agentive.State.Effects.{Wire}

abbrev member_texts : List (Text × Text) → Text
member_texts [] = []
member_texts ((key, value) ∷ more) =
    codes "\"" ++ (key ++ (codes "\":" ++ (value ++ member_texts more)))

-- Whether a text starts with an opening brace.
abbrev opens : Text → Bool
opens [] = false
opens (c ∷ rest) = c == 123

abbrev pub json : Json Text
json = record {
  to_string = λ v. v;
  from_str = λ text. some text;
  is_object = opens;
  string = λ text. codes "\"" ++ (text ++ codes "\"");
  object = λ members. codes "{" ++ (member_texts members ++ codes "}");
}

pub json-IsLawful : IsLawful json
json-IsLawful = record { prints_json = λ v. (v, refl); object-is_object = λ members. refl }

abbrev pub wire : Wire Text
wire = record { json = json; request_len = λ request. some 40 }

abbrev pub policy : ToolRuntimePolicy Text
policy = record {
  descriptor = record {
    name = codes "lookup";
    description = codes "find it";
    schema = codes "{}";
    idempotent = true;
  };
  idempotent = true;
  max_attempts = 3;
  parallel_safe = false;
  delegation = true;
}

abbrev pub instructions : CompiledInstructions
instructions = record {
  core = record { key = codes "sdk_core"; version = 1; text = codes "" };
  agent = none;
  run = none;
  features = [];
}

abbrev pub plan : AgentRunPlan Text
plan = record {
  instructions = instructions;
  tools = policy ∷ [];
  model = none;
  max_output_tokens = 60;
  output_format = ModelOutputFormat.text;
  provider_max_attempts = 2;
  max_parallel_tool_calls = 4;
  context_estimate = AllOrError.exact;
  provider_enforced_limit_opt_out = false;
  deadline_ms = none;
  delegation_depth = 0;
  max_delegation_depth = 4;
  token_limit = some 1000;
}

abbrev pub hello : Message Text
hello = Message.user (codes "hello")

-- A run with five model calls, of which `calls` were made.
abbrev pub run_with :
    List (Message Text) → ℕ → List (ModelToolCall Text) → RunStatus → AgentRunState Text
run_with history calls pending status = record {
  run_id = codes "r";
  plan = plan;
  history = history;
  usage = record { aggregate = Usage.unknown; complete = true; model_calls = [] };
  budget = record { model_call_limit = 5 };
  model_calls = calls;
  provider_calls_started = calls;
  elapsed_ms = 0;
  reserved_child_model_calls = 0;
  reserved_tokens = 0;
  pending_tools = pending;
  status = status;
  text = none;
  error = none;
}

abbrev pub fresh : AgentRunState Text
fresh = run_with (hello ∷ []) 0 [] RunStatus.pending

abbrev pub call : ModelToolCall Text
call = record {
  call_id = codes "a";
  name = codes "lookup";
  arguments = codes "{}";
  provider_call_id = none;
}

-- A run that has one tool call to make, which delegates.
abbrev pub waiting : AgentRunState Text
waiting =
    run_with
      (hello
        ∷ Message.assistant_tool_calls
            (record { id = codes "a"; name = codes "lookup"; arguments = codes "{}" } ∷ [])
        ∷ [])
      1 (call ∷ []) RunStatus.running

abbrev pub over : AgentRunState Text
over = run_with [] 1 [] RunStatus.failed

abbrev pub measured : ModelTokenUsage
measured = record {
  input = some 3;
  output = some 4;
  cached_input = some 0;
  reasoning = some 0;
  provider_total = some 7;
}

abbrev pub asking : ModelResponse Text
asking = record {
  text = none;
  tool_calls = call ∷ [];
  usage = some measured;
  finish_reason = ModelFinishReason.tool_calls;
}

abbrev pub attempt : ProviderAttempt
attempt = record { attempt = 1; usage = some measured; reserved_tokens = 100 }
