-- ===== src/Execution/Calls.antt =====
-- crates/agentive/src/run/effects.rs: what `execute_one_tool` answers.
use agentive.Base.{
  codes, is_blank, leb, by_test, by_option, by_result, Text, text_eq, ◌≡◌, refl, ℕ, ◌≤◌, find,
  Option, none, some, Result, ok, err, u8_max, arith,
}
use agentive.Errors.{RunError}
use agentive.Agent.{Agent, RegisteredTool, RunOptions}
use agentive.Delegation.{
  ChildEnd, Codec, DelegationExecution, execute_delegation, child_outcome, is_usable, child_options,
  safe_error, is_spent,
}
use agentive.Attempts.{ToolRun, execute_tool_effect}
use agentive.Attempts.Tool
use agentive.Json.{Json, error_value}
use agentive.State.Types.{AgentEffectOutcome, ToolEffectResult, ToolInvocation, ToolRuntimePolicy}
use agentive.State.Effects.{Wire}
use agentive.Execution.{Boundary, Answer, execute_registered, execute_one_tool}
use agentive.Execution.Chunks.{tool_outcome}

-- An error, or the result of a tool.
pub data IsToolResult {V : Type 0} : Result RunError (AgentEffectOutcome V) → Type 0 where
  refused : (e : RunError) → IsToolResult (err e)
  gives : (r : ToolEffectResult V) → IsToolResult (ok (tool_outcome r))

-- A call returns: an error, or the result of a tool.
pub record AnswersTool {V : Type 0} (answer : Answer (AgentEffectOutcome V)) : Type 0 where
  pub result : Result RunError (AgentEffectOutcome V)
  pub returned : answer ≡ some result
  pub is_tool : IsToolResult result

-- The attempts that a policy allows, if there is one, fit a `u8`.
abbrev pub IsBytePolicy : {V : Type 0} → Option (ToolRuntimePolicy V) → Type 0
IsBytePolicy none = Unit
IsBytePolicy (some policy) = policy.max_attempts ≤ u8_max

module _ {V : Type 0} where
  now :
      (result : Result RunError (AgentEffectOutcome V))
      → IsToolResult result
      → AnswersTool (some result)
  now result t = record { result = result; returned = refl; is_tool = t }

  abbrev an_outcome :
      (output : V) (attempts : ℕ) (child : _)
      → IsToolResult (ok (AgentEffectOutcome.tool output attempts child))
  an_outcome output attempts child =
      gives (record { output = output; attempts = attempts; child_usage = child })

  an_error : (j : Json V) (code message : Text) → IsToolResult (ok (safe_error j code message none))
  unfolding safe_error
  an_error j code message = an_outcome (error_value j code message) 1 none

  reported-IsToolResult :
      (j : Json V) (run : ToolRun V) (policy : ToolRuntimePolicy V) (outcome : AgentEffectOutcome V)
      → Tool.Reports j run policy outcome
      → IsToolResult (ok outcome)
  reported-IsToolResult j run policy (AgentEffectOutcome.tool output attempts child) r =
      an_outcome output attempts child
  reported-IsToolResult j run policy (AgentEffectOutcome.provider _ _) r = absurd r
  reported-IsToolResult j run policy (AgentEffectOutcome.provider_failed _ _) r = absurd r
  reported-IsToolResult j run policy (AgentEffectOutcome.provider_budget_exhausted _) r = absurd r
  reported-IsToolResult j run policy (AgentEffectOutcome.tool_batch _) r = absurd r

  attempted-AnswersTool :
      (j : Json V) (run : ToolRun V) (policy : ToolRuntimePolicy V) (fuel : ℕ)
      (result : Result RunError (AgentEffectOutcome V))
      → policy.max_attempts ≤ u8_max
      → execute_tool_effect j run policy fuel ≡ some result
      → AnswersTool (execute_tool_effect j run policy fuel)
  attempted-AnswersTool j run policy fuel (err e) width h = record {
    result = err e;
    returned = h;
    is_tool = refused e;
  }
  attempted-AnswersTool j run policy fuel (ok outcome) width h = record {
    result = ok outcome;
    returned = h;
    is_tool =
        reported-IsToolResult j run policy outcome
          (Tool.execute_tool_effect-Reports j run policy fuel outcome width h);
  }

  ended-IsToolResult :
      (j : Json V) (codec : Codec V) (agent run_id : Text) (end : ChildEnd)
      → IsToolResult (child_outcome j codec agent run_id end)
  unfolding child_outcome
  ended-IsToolResult j codec agent run_id (ChildEnd.finished status text usage) =
      by_test IsToolResult (is_usable status)
        (by_option IsToolResult _ (refused _) (λ output. an_outcome output 1 (some usage)))
        (an_outcome _ 1 (some usage))
  ended-IsToolResult j codec agent run_id (ChildEnd.errored usage) = an_outcome _ _ _
  ended-IsToolResult j codec agent run_id (ChildEnd.parent_cancelled usage) = an_outcome _ _ _

  delegated-IsToolResult :
      (j : Json V) (codec : Codec V) (agent : Text) (start : Text → RunOptions V → Text × ChildEnd)
      (args : V) (execution : DelegationExecution)
      → IsToolResult (execute_delegation j codec agent start args execution)
  unfolding execute_delegation
  delegated-IsToolResult j codec agent start args execution =
      by_result IsToolResult (codec.decode_task args) (λ message. refused _)
        λ task.
          by_test IsToolResult (is_blank task)
            (an_error j (codes "invalid_arguments") (codes "delegation task must not be blank"))
            (by_test IsToolResult (leb execution.max_delegation_depth execution.delegation_depth)
              (an_error j (codes "delegation_depth_exceeded")
                (codes "delegation depth limit reached"))
              (by_option IsToolResult execution.budget
                (an_error j (codes "delegation_budget_exceeded")
                  (codes "delegation budget is unavailable"))
                λ budget.
                  by_test IsToolResult (is_spent budget)
                    (an_error j (codes "delegation_budget_exceeded")
                      (codes "delegation budget is exhausted"))
                    (let ended = start task (child_options execution budget) in
                      ended-IsToolResult j codec agent ended.0 ended.1)))

module _ {V : Type 0} (w : Wire V) (agent : Agent V) (b : Boundary V) (fuel : ℕ) where
  registered-AnswersTool :
      (invocation : ToolInvocation) (arguments : V) (policy : ToolRuntimePolicy V)
      (execution : DelegationExecution) (registered : RegisteredTool V)
      → policy.max_attempts ≤ u8_max
      → u8_max ≤ fuel
      → AnswersTool (execute_registered w b fuel invocation arguments policy execution registered)
  unfolding execute_registered
  registered-AnswersTool invocation arguments policy execution registered width enough =
      by_test AnswersTool _ (now _ (an_outcome _ 0 none)) (
        by_option AnswersTool registered.delegation
          (let (result, returned) =
              Tool.execute_tool_effect-Returns w.json (b.tool_run invocation) policy fuel width
                (omega arith) in
            attempted-AnswersTool w.json (b.tool_run invocation) policy fuel result width returned)
          (λ child. now _ (
            delegated-IsToolResult w.json b.codec child (b.child_run invocation) arguments
              execution)))

  -- A tool call always ends, in an error or in the result of a tool, whatever the tool or the child
  -- run does: its attempts fit a `u8`, and there is fuel for as many.
  pub one_tool-AnswersTool :
      (invocation : ToolInvocation) (arguments : V) (policy : Option (ToolRuntimePolicy V))
      (execution : DelegationExecution)
      → IsBytePolicy policy
      → u8_max ≤ fuel
      → AnswersTool (execute_one_tool w agent b fuel invocation arguments policy execution)
  unfolding execute_one_tool
  one_tool-AnswersTool invocation arguments none execution width enough =
      now _ (an_outcome _ 0 none)
  one_tool-AnswersTool invocation arguments (some policy) execution width enough =
      by_option AnswersTool
        (find (λ (tool : RegisteredTool V). text_eq tool.handle_name invocation.tool_name)
          agent.tools)
        (now _ (an_outcome _ 0 none))
        (λ registered.
          registered-AnswersTool invocation arguments policy execution registered width enough)
