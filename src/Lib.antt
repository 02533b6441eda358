-- ===== src/Lib.antt =====
-- Verification of agentive, a Rust library that runs language-model agents as resumable effects.
--
-- A run is a serializable state (`AgentRunState`). It says which effect it needs next: a provider
-- call, a tool call or a batch of tool calls. A runtime executes the effect, with retries, and commits
-- the outcome, which moves the state on. Budgets bound model calls and tokens, and are shared with
-- child runs; the history that a provider sees is kept canonical.
--
-- The files, by the code they are about (paths in the repository):
--   Base       what the crates use of Rust's core library: texts as lists of code points, saturating
--              arithmetic, `Result`, and lemmas on lists
--   Ids        crates/agentive/src/ids.rs: validated names; random identities are inputs
--   Json       what is used of serde_json's `Value`, as a record of operations and their laws
--   Message    crates/agentive/src/message.rs: messages and their constructors; Images has image
--              messages, for which the `url` crate's parser is a parameter, and Xml `render_xml`
--   Model      crates/agentive/src/model.rs: requests, responses, capabilities
--   Errors     crates/agentive/src/errors.rs: provider, tool and run errors
--   Usage      crates/agentive/src/usage.rs: `TokenUsage` and `RunUsage`
--   State      crates/agentive/src/state/: Types has the data, Effects `next_effect` and the budgets,
--              Commits `commit_effect` and all it calls; Asks and Frame describe them, and the other
--              children prove what holds of them
--   History    crates/agentive/src/run/validation.rs: `validate_history`,
--              `validate_effect_state_history`, `validate_message_shape`
--   Response   crates/agentive/src/run/validation.rs: `validate_model_response`
--   Admission  crates/agentive/src/model.rs and run/validation.rs: `UsageEstimator`,
--              `validate_context`; a provider is a record of what it declares
--   Router     crates/agentive/src/model/router.rs: `FallbackProvider`
--   Attempts   crates/agentive/src/run/effects.rs: `execute_provider`, `execute_tool_effect`,
--              `retry_delay`
--   Execution  crates/agentive/src/run/effects.rs: `execute_effect`, `execute_one_tool` and batches;
--              Chunks is about batches, Calls and Answered about what is returned
--   Agent      crates/agentive/src/run/agent.rs: a built agent, `prepare_state`,
--              `validate_state_plan`, and the options of a run (run/types.rs)
--   Delegation crates/agentive/src/subagent.rs: `DelegationTool::execute`
--   Driver     crates/agentive/src/run/local.rs and run/agent.rs: events and results, and in Rounds
--              the loop of `execute_run` and the task of `start_with_observer`; Sound is about one
--              round and Ends about whole runs; Bus is the event bus of run/handle.rs, whose full channels
--              hold a run up
--   Payload    crates/temporal/src/payload.rs, codec.rs, storage.rs and error.rs: payloads, limits,
--              references and the traits of codecs and storage; Pipeline is pipeline.rs, Memory
--              `InMemoryStorage`, Hex fingerprints; Ownership is about `build`, RoundTrip about
--              encoding and decoding
--   Workflow   crates/temporal/src/runtime/config.rs and activity.rs: the policy of durable runs;
--              Executions is workflow.rs, the loop and its continuation as new executions; Redelivery
--              is about the activities that are started, Fuel, Restarts and Continued about how runs
--              end
--   Tests      concrete runs
--
-- A method on `&mut self` is a function that returns the new state beside its result. Integers are
-- natural numbers, with the saturation of the source written out at its width. The type `V` of JSON
-- values is a parameter, and so are the operations on it (`Json`) and the length of a serialized
-- request (`Wire`). The loops of the attempts run on fuel; as much fuel as attempts are allowed, and
-- one at least, is enough; the run loop gives its effects fuel for 255 attempts, the greatest `u8`, and
-- has fuel of its own for its rounds, which end. What a provider, a tool, a child run, the clock and a
-- cancellation do is given by functions of the attempt's or the round's number, so that a theorem holds
-- for all of them. `try_join_all` of the futures crate is a parameter with its documented laws.
--
-- Not modelled: the sending of a child's events to its parent's observers (they are an input of the
-- parent's round), the agent builder, schemas, structured results, serialization (crates/agentive);
-- filesystem storage, zstd, the codec server and the SDK's scheduling (crates/temporal); the Codex
-- provider (crates/codex); test support (crates/test); the tool macro (crates/macros). Logging,
-- private diagnostics and serialization formats have no effect on a run.
pub mod Base
pub mod Admission
pub mod Agent
pub mod Attempts
pub mod Delegation
pub mod Driver
pub mod Errors
pub mod Execution
pub mod History
pub mod Ids
pub mod Json
pub mod Message
pub mod Model
pub mod Payload
pub mod Response
pub mod Router
pub mod State
pub mod Usage
pub mod Workflow
pub mod Tests
