-- ===== src/Attempts/Tool.antt =====
-- crates/agentive/src/run/effects.rs: `execute_tool_effect` always returns, and what it may return;
-- `retry_delay` stays below its ceiling.
use agentive.Base.{
  codes, ◌≡◌, refl, sym, subst, ◌∙◌, ℕ, zero, suc, ◌+◌, ◌≤◌, ◌<◌, ◌⊎◌, inl, inr, max, Bool, true,
  false, ◌&&◌, none, some, ltb, sat_add, u8_max, Result, ok, err, arith,
}
use agentive.Json.{Json, error_value}
use agentive.Errors.{RunError, cancelled, ToolError}
use agentive.State.Types.{ToolRuntimePolicy, AgentEffectOutcome}
use agentive.Attempts.{ToolEvent, ToolRun, panicked_tool_outcome, tool_loop, execute_tool_effect}
use agentive.Attempts.Loop.{Returns, some-injective}

-- What a model is shown of a tool's last attempt.
pub data Shows {V : Type 0} (j : Json V) : ToolEvent V → V → Type 0 where
  shows_output : (output : V) → Shows j (ToolEvent.returned output) output
  shows_panic :
      Shows j ToolEvent.panicked
        (error_value j (codes "tool_panicked") (codes "tool execution failed"))
  shows_error :
      (error : ToolError)
      → Shows j (ToolEvent.failed error) (error_value j error.code error.message)

-- A failure after which the tool may be called again.
pub data MayRepeat {V : Type 0} (policy : ToolRuntimePolicy V) : ToolEvent V → Type 0 where
  safe :
      (error : ToolError)
      → error.retryable ≡ true
      → policy.idempotent ≡ true
      → MayRepeat policy (ToolEvent.failed error)

pub record ToolReport {V : Type 0} (j : Json V) (run : ToolRun V) (policy : ToolRuntimePolicy V)
    (output : V) (attempts : ℕ) : Type 0 where
  pub made : 1 ≤ attempts
  pub bounded : attempts ≤ max 1 policy.max_attempts
  pub shown : Shows j (run.events attempts) output
  pub repeated : (n : ℕ) → 1 ≤ n → n < attempts → MayRepeat policy (run.events n)

-- An outcome of a tool's attempts.
abbrev pub Reports :
    {V : Type 0} → Json V → ToolRun V → ToolRuntimePolicy V → AgentEffectOutcome V → Type 0
Reports j run policy (AgentEffectOutcome.tool output attempts child) =
    (child ≡ none) × ToolReport j run policy output attempts
Reports j run policy _ = ⊥

module _ {V : Type 0} (j : Json V) (run : ToolRun V) (policy : ToolRuntimePolicy V) where
  -- How the loop stops after the `attempt`-th attempt.
  data Ends (attempt : ℕ) : Result RunError (AgentEffectOutcome V) → Type 0 where
    refused : (e : RunError) → Ends attempt (err e)
    shows :
        (output : V)
        → Shows j (run.events attempt) output
        → Ends attempt (ok (AgentEffectOutcome.tool output attempt none))

  record Stops (fuel attempt : ℕ) : Type 0 where
    result : Result RunError (AgentEffectOutcome V)
    returned : tool_loop j run policy (suc fuel) attempt ≡ some result
    ends : Ends attempt result

  record Repeats (fuel attempt : ℕ) : Type 0 where
    left : attempt < policy.max_attempts
    may : MayRepeat policy (run.events attempt)
    goes_on :
        tool_loop j run policy (suc fuel) attempt
        ≡ tool_loop j run policy fuel (sat_add u8_max attempt 1)

  stopped :
      (fuel attempt : ℕ) (event : ToolEvent V) (output : V)
      → run.events attempt ≡ event
      → Shows j event output
      → tool_loop j run policy (suc fuel) attempt
        ≡ some (ok (AgentEffectOutcome.tool output attempt none))
      → Stops fuel attempt
  stopped fuel attempt event output e shown returned = record {
    result = ok (AgentEffectOutcome.tool output attempt none);
    returned = returned;
    ends = shows output (subst (λ u. Shows j u output) (sym e) shown);
  }

  abbrev again_on : ToolError → ℕ → Bool
  again_on error attempt = error.retryable && policy.idempotent && ltb attempt policy.max_attempts

  failed_on :
      (fuel attempt : ℕ) (error : ToolError) (waits again : Bool)
      → run.events attempt ≡ ToolEvent.failed error
      → run.waits attempt ≡ waits
      → again_on error attempt ≡ again
      → Stops fuel attempt ⊎ Repeats fuel attempt
  unfolding tool_loop
  failed_on fuel attempt error waits false e f g = inl (
      stopped fuel attempt _ (error_value j error.code error.message) e (shows_error error)
        (rw (e, g, tool_loop) refl))
  failed_on fuel attempt error false true e f g = inl (record {
    result = err cancelled;
    returned = rw (e, g, f, tool_loop) refl;
    ends = refused cancelled;
  })
  failed_on fuel attempt error true true e f g = inr (record {
    left = ground arith;
    may = rw e (safe error (ground arith) (ground arith));
    goes_on = rw (e, g, f, tool_loop) refl;
  })

  step_on :
      (fuel attempt : ℕ) (event : ToolEvent V)
      → run.events attempt ≡ event
      → Stops fuel attempt ⊎ Repeats fuel attempt
  unfolding tool_loop panicked_tool_outcome
  step_on fuel attempt ToolEvent.interrupted e = inl (record {
    result = err cancelled;
    returned = rw (tool_loop, e) refl;
    ends = refused cancelled;
  })
  step_on fuel attempt ToolEvent.panicked e = inl (
      stopped fuel attempt _ (error_value j (codes "tool_panicked") (codes "tool execution failed"))
        e shows_panic (rw (tool_loop, e) refl))
  step_on fuel attempt (ToolEvent.returned output) e =
      inl (stopped fuel attempt _ output e (shows_output output) (rw (tool_loop, e) refl))
  step_on fuel attempt (ToolEvent.failed error) e =
      failed_on fuel attempt error (run.waits attempt) (again_on error attempt) e refl refl

  loop-Returns :
      (fuel attempt : ℕ)
      → policy.max_attempts ≤ u8_max
      → attempt ≤ max 1 policy.max_attempts
      → max 1 policy.max_attempts < fuel + attempt
      → Returns (tool_loop j run policy fuel attempt)
  loop-Returns zero attempt w b f = absurd (omega arith)
  loop-Returns (suc fuel) attempt w b f = elim (step_on fuel attempt (run.events attempt) refl) [
    | inl s ↦ (s.result, s.returned)
    | inr r ↦
        let (result, e) =
          loop-Returns fuel (sat_add u8_max attempt 1) w (ground (arith, r.left))
            (ground (arith, r.left)) in
        (result, r.goes_on ∙ e)
  ]

  -- What is known when `done` attempts were made and another one follows.
  abbrev AllRepeat : ℕ → Type 0
  AllRepeat done = (n : ℕ) → 1 ≤ n → n ≤ done → MayRepeat policy (run.events n)

  extend :
      (done : ℕ) → AllRepeat done → MayRepeat policy (run.events (suc done)) → AllRepeat (suc done)
  extend done earlier last n lower upper =
      let split : (n ≤ done) ⊎ (n ≡ suc done) = ground arith in
      elim split [
        | inl before ↦ earlier n lower before
        | inr same ↦ subst (λ m. MayRepeat policy (run.events m)) (sym same) last
      ]

  Ends-Reports :
      (done : ℕ) (result : Result RunError (AgentEffectOutcome V)) (outcome : AgentEffectOutcome V)
      → Ends (suc done) result
      → result ≡ ok outcome
      → done < max 1 policy.max_attempts
      → AllRepeat done
      → Reports j run policy outcome
  Ends-Reports done result outcome (refused e) h b all = absurd (ground arith)
  Ends-Reports done result outcome (shows output shown) h b all =
      let same : AgentEffectOutcome.tool output (suc done) none ≡ outcome = ground arith in
      subst (Reports j run policy) same (
        refl,
        record {
          made = omega arith;
          bounded = omega arith;
          shown = shown;
          repeated = λ n lower upper. all n lower (omega (arith, upper));
        },
      )

  loop-Reports :
      (fuel done : ℕ) (outcome : AgentEffectOutcome V)
      → policy.max_attempts ≤ u8_max
      → done < max 1 policy.max_attempts
      → AllRepeat done
      → tool_loop j run policy fuel (suc done) ≡ some (ok outcome)
      → Reports j run policy outcome
  unfolding tool_loop
  loop-Reports zero done outcome w b all h = absurd (ground arith)
  loop-Reports (suc fuel) done outcome w b all h =
      elim (step_on fuel (suc done) (run.events (suc done)) refl) [
        | inl s ↦
            Ends-Reports done s.result outcome s.ends (some-injective (sym s.returned ∙ h)) b all
        | inr r ↦
            loop-Reports fuel (suc done) outcome w (omega (arith, r.left)) (extend done all r.may) (
              subst (λ next. tool_loop j run policy fuel next ≡ some (ok outcome))
                (omega (arith, r.left)) (sym r.goes_on ∙ h))
      ]

  -- A tool effect always ends: with fuel for one attempt and for as many as its policy allows,
  -- which are a `u8`, it returns an outcome or an error, whatever the tool does.
  pub execute_tool_effect-Returns :
      (fuel : ℕ)
      → policy.max_attempts ≤ u8_max
      → max 1 policy.max_attempts ≤ fuel
      → Returns (execute_tool_effect j run policy fuel)
  unfolding execute_tool_effect
  execute_tool_effect-Returns fuel width enough =
      loop-Returns fuel 1 width (omega arith) (omega arith)

  -- What the outcome of a tool effect reports, for attempts that are a `u8`: it shows the last
  -- attempt's output, error or panic, and no child usage; at least one attempt was made and at
  -- most as many as the policy allows, or one; and every attempt before the last failed with a
  -- retryable error, of a tool that is idempotent.
  pub execute_tool_effect-Reports :
      (fuel : ℕ) (outcome : AgentEffectOutcome V)
      → policy.max_attempts ≤ u8_max
      → execute_tool_effect j run policy fuel ≡ some (ok outcome)
      → Reports j run policy outcome
  unfolding execute_tool_effect
  execute_tool_effect-Reports fuel outcome width h =
      loop-Reports fuel 0 outcome width (omega arith)
        (λ n lower upper. absurd (omega (arith, lower, upper))) h
