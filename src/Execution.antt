-- ===== src/Execution.antt =====
-- crates/agentive/src/run/effects.rs: `execute_effect` and `execute_one_tool`, from the state's checks
-- to the outcome. What happens outside the runtime during one effect is a `Boundary`.
pub mod Chunks
pub mod Calls
pub mod Fits
pub mod Answered
use agentive.Base.{
  Text, codes, ◌≡◌, text_eq, ℕ, suc, max, Bool, true, false, not, ◌&&◌, List, [], ◌∷◌, ◌++◌, map,
  find, Option, none, some, length, ◌==◌, if◌then◌else◌, ◌-◌, Result, ok, err, ◌>>=◌, ◌>>◌,
  reject_if,
}
use agentive.Ids.{ToolName}
use agentive.Json.{Json, error_value}
use agentive.Errors.{RunError, provider_protocol}
use agentive.History.{validate_effect_state_history}
use agentive.Agent.{Agent, Equality, RegisteredTool, RunOptions, validate_state_plan}
use agentive.Delegation.{ChildEnd, Codec, DelegationExecution, execute_delegation}
use agentive.Attempts.{ProviderRun, ToolRun, execute_provider, execute_tool_effect}
use agentive.State.Types.{
  AgentRunState, AgentRunEffect, AgentEffectOutcome, ToolInvocation, ToolRuntimePolicy,
  ToolEffectCall, ToolEffectResult, DelegationBudget,
}
use agentive.State.Effects.{Wire, next_effect}

-- `futures::future::try_join_all`: it gives the values of all futures, in order, if none of them fails,
-- and otherwise the error of one that does.
pub record Join (A : Type 0) : Type 0 where
  pub try_join_all : List (Result RunError A) → Result RunError (List A)
  pub values :
      (rs : List (Result RunError A)) (vs : List A) → try_join_all rs ≡ ok vs → rs ≡ map ok vs
  pub succeeds : (vs : List A) → try_join_all (map ok vs) ≡ ok vs

-- What is outside: the provider, each tool and each child run, by their invocation; the schemas of
-- arguments; the codes of serde; and how the futures of several tools are joined.
pub record Boundary (V : Type 0) : Type 0 where
  pub provider_run : ProviderRun V
  pub tool_run : ToolInvocation → ToolRun V
  pub child_run : ToolInvocation → Text → RunOptions V → Text × ChildEnd
  -- `validate_tool_arguments(arguments, schema).is_ok()`
  pub valid_arguments : V → V → Bool
  pub codec : Codec V
  pub join : Join (AgentEffectOutcome V)
  -- `#[derive(PartialEq)]` of effects and of plans
  pub effect_eq : AgentRunEffect V → AgentRunEffect V → Bool
  pub equality : Equality V

-- A computation that may run out of fuel or fail.
abbrev pub Answer : Type 0 → Type 0
Answer A = Option (Result RunError A)

module _ {A : Type 0} where
  -- The chunks of at most `n` entries, in order; `acc` is the chunk that is being filled.
  abbrev pub chunks_from : ℕ → List A → List A → List (List A)
  chunks_from n acc [] = elim acc [ [] ↦ [] | a ∷ more ↦ (a ∷ more) ∷ [] ]
  chunks_from n acc (x ∷ xs) =
      let full = chunks_from n (x ∷ []) xs in
      let more = chunks_from n (acc ++ x ∷ []) xs in if length acc == n then acc ∷ full else more

  -- `calls.chunks(n)`
  abbrev pub chunks : ℕ → List A → List (List A)
  chunks n xs = chunks_from n [] xs

  -- The answers of several computations, unless one of them runs out of fuel.
  unfoldable pub all_answers : List (Answer A) → Option (List (Result RunError A))
  all_answers [] = some []
  all_answers (none ∷ rest) = none
  all_answers (some r ∷ rest) = elim (all_answers rest) [ none ↦ none | some rs ↦ some (r ∷ rs) ]

module _ {V : Type 0} where
  -- The results of a chunk's outcomes, each of which must be a tool's.
  unfoldable pub collect_results :
      List (AgentEffectOutcome V) → Result RunError (List (ToolEffectResult V))
  collect_results [] = ok []
  collect_results (AgentEffectOutcome.tool output attempts child_usage ∷ rest) = do
    more ← collect_results rest
    ok (record { output = output; attempts = attempts; child_usage = child_usage } ∷ more)
  collect_results (_ ∷ rest) =
      err (provider_protocol (codes "tool batch member returned a non-tool outcome"))

  -- The outcome of a batch, of its calls' results.
  abbrev pub batch_outcome : Answer (List (ToolEffectResult V)) → Answer (AgentEffectOutcome V)
  batch_outcome none = none
  batch_outcome (some (err e)) = some (err e)
  batch_outcome (some (ok outputs)) = some (ok (AgentEffectOutcome.tool_batch outputs))

module _ {V : Type 0} (w : Wire V) where
  -- `not_found`
  unfoldable pub not_found : AgentEffectOutcome V
  not_found =
      AgentEffectOutcome.tool (error_value w.json (codes "tool_not_found") (codes "tool not found"))
        0 none

  -- `invalid_arguments`
  unfoldable pub invalid_arguments : AgentEffectOutcome V
  invalid_arguments =
      AgentEffectOutcome.tool
        (error_value w.json (codes "invalid_arguments")
          (codes "tool arguments do not match the declared schema"))
        0 none

  -- `ToolRuntimeContext`, for one tool call.
  abbrev pub delegation_execution : AgentRunState V → Option DelegationBudget → DelegationExecution
  delegation_execution s budget = record {
    remaining = elim s.plan.deadline_ms [
      | none ↦ none
      | some deadline ↦ some (deadline - s.elapsed_ms)
    ];
    delegation_depth = s.plan.delegation_depth;
    max_delegation_depth = s.plan.max_delegation_depth;
    max_parallel_tool_calls = s.plan.max_parallel_tool_calls;
    budget = budget;
  }

  -- `execute_one_tool`, once its registration has been found.
  unfoldable pub execute_registered :
      Boundary V
      → ℕ
      → ToolInvocation
      → V
      → ToolRuntimePolicy V
      → DelegationExecution
      → RegisteredTool V
      → Answer (AgentEffectOutcome V)
  unfolding invalid_arguments
  execute_registered b fuel invocation arguments policy execution registered =
      if not (b.valid_arguments arguments policy.descriptor.schema)
      then some (ok invalid_arguments)
      else elim registered.delegation [
        | some child ↦
            some
              (execute_delegation w.json b.codec child (b.child_run invocation) arguments execution)
        | none ↦ execute_tool_effect w.json (b.tool_run invocation) policy fuel
      ]

  -- `execute_one_tool`
  unfoldable pub execute_one_tool :
      Agent V
      → Boundary V
      → ℕ
      → ToolInvocation
      → V
      → Option (ToolRuntimePolicy V)
      → DelegationExecution
      → Answer (AgentEffectOutcome V)
  unfolding not_found execute_registered
  execute_one_tool agent b fuel invocation arguments policy execution = elim policy [
    | none ↦ some (ok not_found)
    | some policy ↦
        elim (find (λ (tool : RegisteredTool V). text_eq tool.handle_name invocation.tool_name)
          agent.tools) [
            | none ↦ some (ok not_found)
            | some registered ↦
                execute_registered b fuel invocation arguments policy execution registered
          ]
  ]

  -- One call of a batch, run by itself.
  unfoldable pub execute_call :
      Agent V → Boundary V → ℕ → AgentRunState V → ToolEffectCall V → Answer (AgentEffectOutcome V)
  unfolding execute_one_tool
  execute_call agent b fuel s call =
      execute_one_tool agent b fuel call.invocation call.arguments call.policy
        (delegation_execution s call.delegation_budget)

  -- One chunk of a batch: its calls run together.
  unfoldable pub execute_chunk :
      Agent V
      → Boundary V
      → ℕ
      → AgentRunState V
      → List (ToolEffectCall V)
      → Answer (List (ToolEffectResult V))
  unfolding all_answers collect_results execute_call
  execute_chunk agent b fuel s calls =
      elim (all_answers (map (execute_call agent b fuel s) calls)) [
        | none ↦ none
        | some results ↦ some (b.join.try_join_all results >>= λ outcomes. collect_results outcomes)
      ]

  -- The chunks of a batch, one after the other.
  unfoldable pub execute_chunks :
      Agent V
      → Boundary V
      → ℕ
      → AgentRunState V
      → List (List (ToolEffectCall V))
      → Answer (List (ToolEffectResult V))
  unfolding execute_chunk
  execute_chunks agent b fuel s [] = some (ok [])
  execute_chunks agent b fuel s (chunk ∷ rest) =
      let more = execute_chunks agent b fuel s rest in
      elim (execute_chunk agent b fuel s chunk) [
        | none ↦ none
        | some (err e) ↦ some (err e)
        | some (ok results) ↦ elim more [
          | none ↦ none
          | some (err e) ↦ some (err e)
          | some (ok after) ↦ some (ok (results ++ after))
        ]
      ]

  -- The match on the effect in `execute_effect`.
  unfoldable pub perform :
      Agent V → Boundary V → ℕ → AgentRunState V → AgentRunEffect V → Answer (AgentEffectOutcome V)
  unfolding execute_chunks execute_one_tool
  perform agent b fuel s (AgentRunEffect.provider_call id provider_call_id round request) =
      execute_provider w agent.provider b.provider_run fuel s request provider_call_id
  perform agent b fuel s (AgentRunEffect.tool_call id invocation arguments policy budget) =
      execute_one_tool agent b fuel invocation arguments policy (delegation_execution s budget)
  perform agent b fuel s (AgentRunEffect.tool_batch id calls) =
      batch_outcome
        (execute_chunks agent b fuel s (chunks (max s.plan.max_parallel_tool_calls 1) calls))

  abbrev is_next : Boundary V → Option (AgentRunEffect V) → AgentRunEffect V → Bool
  is_next b none effect = false
  is_next b (some next) effect = b.effect_eq next effect

  -- The checks that `execute_effect` makes before it acts.
  unfoldable pub check_effect :
      Agent V → Boundary V → AgentRunState V → AgentRunEffect V → Result RunError (Unit {0})
  check_effect agent b s effect = do
    validate_effect_state_history w.json s
    validate_state_plan b.equality agent s
    reject_if (not (is_next b (next_effect s) effect))
        (provider_protocol (codes "effect does not match the state's next effect"))

  -- `execute_effect`
  unfoldable pub execute_effect :
      Agent V → Boundary V → ℕ → AgentRunState V → AgentRunEffect V → Answer (AgentEffectOutcome V)
  unfolding perform check_effect
  execute_effect agent b fuel s effect = elim (check_effect agent b s effect) [
    | err e ↦ some (err e)
    | ok _ ↦ perform agent b fuel s effect
  ]
