-- ===== src/Tests/Workflows.antt =====
-- Durable runs, on concrete values.
use agentive.Base.{Text, codes, ◌≡◌, refl, true, [], ◌∷◌, All, some, ok, arith, u64_max, decimal}
use agentive.State.Types.{AgentRunEffect, AgentEffectOutcome}
use agentive.State.Effects.{next_effect, pending_effect, next_model_request, cancel}
use agentive.Workflow.{default_config, validate, new_input, EffectActivityOutput}
use agentive.Workflow.Executions.{ActivityEnd, WorkflowEnd, AgentiveWorkflow, Worker, run_chain}
use agentive.Workflow.Redelivery.{IsDurable, activities-IsDurable}
use agentive.Workflow.Continued.{EndsAlike, run_chain-alike}
use agentive.Tests.{wire, fresh, asking, attempt}

-- A worker on which every activity is cancelled.
abbrev worker : Worker Text
worker = record { patched = true; activity = λ before started. ActivityEnd.cancelled }

default_valid : validate default_config ≡ ok tt
unfolding validate
default_valid = refl

-- A worker whose provider asks for a tool call.
abbrev answering : Worker Text
answering = record {
  patched = true;
  activity = λ before started.
      ActivityEnd.completed
        (EffectActivityOutput.reported (AgentEffectOutcome.provider asking (attempt ∷ [])) 5);
}

run_chain-alike_example : EndsAlike wire answering default_config refl default_valid fresh 1 7
run_chain-alike_example =
    run_chain-alike wire answering default_config refl default_valid fresh 1 7 (ground arith)
      (ground arith) (ground arith)

abbrev first_effect : AgentRunEffect Text
first_effect =
    AgentRunEffect.provider_call (codes "r:provider:0") (codes "r:provider:0") 0
      (next_model_request fresh (codes "r:provider:0"))

abbrev last : AgentiveWorkflow Text
last = record {
  snapshot = some (record { state = cancel fresh; cursor = 0 });
  activities =
      record {
        state = fresh;
        effect = first_effect;
        schedule_to_close_ms = u64_max;
        max_attempts = 1;
      }
      ∷ [];
}

cancelled_at_once :
    run_chain wire worker 1 1 (new_input fresh default_config) []
    ≡ some (WorkflowEnd.returned (cancel fresh), last)
unfolding run_chain new_input next_effect pending_effect decimal
cancelled_at_once = refl

activities-IsDurable_example : All (IsDurable default_config) last.activities
unfolding new_input
activities-IsDurable_example =
    activities-IsDurable wire worker 1 1 (new_input fresh default_config)
      (WorkflowEnd.returned (cancel fresh)) last cancelled_at_once
