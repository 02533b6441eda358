-- ===== src/Driver/Announced.antt =====
-- crates/agentive/src/run/local.rs: the status that a run's events announced last.
use agentive.Base.{codes, ◌≡◌, refl, List, [], ◌∷◌, ◌++◌, map, zip, All, Option, none, some, arith}
use agentive.State.Types.{
  RunStatus, AgentRunEffect, AgentEffectOutcome, ToolEffectCall, ToolEffectResult,
}
use agentive.Driver.{RunEvent, Environment, emit_started, emit_completed, emit_tool_completed}

abbrev latest : Option RunStatus → Option RunStatus → Option RunStatus
latest earlier none = earlier
latest earlier (some status) = some status

module _ {V : Type 0} where
  abbrev announces : RunEvent V → Option RunStatus
  announces (RunEvent.status_changed status) = some status
  announces _ = none

  -- The status of the last `StatusChanged` event of the run itself.
  unfoldable pub announced : List (RunEvent V) → Option RunStatus
  announced [] = none
  announced (event ∷ more) = latest (announces event) (announced more)

  -- Events that announce no status of the run itself.
  abbrev pub AreQuiet : List (RunEvent V) → Type 0
  AreQuiet events = All (λ (event : RunEvent V). announces event ≡ none) events

  pub announced-last :
      (events : List (RunEvent V)) (status : RunStatus)
      → announced (events ++ RunEvent.status_changed status ∷ []) ≡ some status
  unfolding announced
  announced-last [] status = refl
  announced-last (event ∷ more) status = ground (arith, announced-last more status)

  quiet-none : (events : List (RunEvent V)) → AreQuiet events → announced events ≡ none
  unfolding announced
  quiet-none [] quiet = refl
  quiet-none (event ∷ more) (q, quiet) = ground (arith, quiet-none more quiet)

  pub announced-quiet :
      (events more : List (RunEvent V))
      → AreQuiet more
      → announced (events ++ more) ≡ announced events
  unfolding announced
  announced-quiet [] more quiet = quiet-none more quiet
  announced-quiet (event ∷ events) more quiet = ground (arith, announced-quiet events more quiet)

  started_calls-AreQuiet :
      (calls : List (ToolEffectCall V))
      → AreQuiet (emit_started (AgentRunEffect.tool_batch (codes "") calls))
  unfolding emit_started
  started_calls-AreQuiet [] = tt
  started_calls-AreQuiet (c ∷ cs) = (refl, started_calls-AreQuiet cs)

  pub emit_started-AreQuiet : (effect : AgentRunEffect V) → AreQuiet (emit_started effect)
  unfolding emit_started
  emit_started-AreQuiet (AgentRunEffect.provider_call _ _ _ _) = (refl, tt)
  emit_started-AreQuiet (AgentRunEffect.tool_call _ _ _ _ _) = (refl, tt)
  emit_started-AreQuiet (AgentRunEffect.tool_batch _ calls) = started_calls-AreQuiet calls

  completed_calls-AreQuiet :
      (env : Environment V) (entries : List (ToolEffectCall V × ToolEffectResult V))
      → AreQuiet (
          map
            (λ (entry : ToolEffectCall V × ToolEffectResult V).
              emit_tool_completed env entry.0.invocation entry.1.attempts entry.1.output)
            entries)
  unfolding emit_tool_completed
  completed_calls-AreQuiet env [] = tt
  completed_calls-AreQuiet env (e ∷ es) = (refl, completed_calls-AreQuiet env es)

  pub emit_completed-AreQuiet :
      (env : Environment V) (effect : AgentRunEffect V) (outcome : AgentEffectOutcome V)
      → AreQuiet (emit_completed env effect outcome)
  unfolding emit_completed emit_tool_completed
  emit_completed-AreQuiet env (AgentRunEffect.provider_call _ _ _ _)
        (AgentEffectOutcome.provider _ _) =
      (refl, tt)
  emit_completed-AreQuiet env (AgentRunEffect.provider_call _ _ _ _)
        (AgentEffectOutcome.provider_failed _ _) =
      tt
  emit_completed-AreQuiet env (AgentRunEffect.provider_call _ _ _ _)
        (AgentEffectOutcome.provider_budget_exhausted _) =
      tt
  emit_completed-AreQuiet env (AgentRunEffect.provider_call _ _ _ _)
        (AgentEffectOutcome.tool _ _ _) =
      tt
  emit_completed-AreQuiet env (AgentRunEffect.provider_call _ _ _ _)
        (AgentEffectOutcome.tool_batch _) =
      tt
  emit_completed-AreQuiet env (AgentRunEffect.tool_call _ _ _ _ _) (AgentEffectOutcome.tool _ _ _) =
      (refl, tt)
  emit_completed-AreQuiet env (AgentRunEffect.tool_call _ _ _ _ _)
        (AgentEffectOutcome.provider _ _) =
      tt
  emit_completed-AreQuiet env (AgentRunEffect.tool_call _ _ _ _ _)
        (AgentEffectOutcome.provider_failed _ _) =
      tt
  emit_completed-AreQuiet env (AgentRunEffect.tool_call _ _ _ _ _)
        (AgentEffectOutcome.provider_budget_exhausted _) =
      tt
  emit_completed-AreQuiet env (AgentRunEffect.tool_call _ _ _ _ _)
        (AgentEffectOutcome.tool_batch _) =
      tt
  emit_completed-AreQuiet env (AgentRunEffect.tool_batch _ calls)
        (AgentEffectOutcome.tool_batch outputs) =
      completed_calls-AreQuiet env (zip calls outputs)
  emit_completed-AreQuiet env (AgentRunEffect.tool_batch _ _) (AgentEffectOutcome.provider _ _) = tt
  emit_completed-AreQuiet env (AgentRunEffect.tool_batch _ _)
        (AgentEffectOutcome.provider_failed _ _) =
      tt
  emit_completed-AreQuiet env (AgentRunEffect.tool_batch _ _)
        (AgentEffectOutcome.provider_budget_exhausted _) =
      tt
  emit_completed-AreQuiet env (AgentRunEffect.tool_batch _ _) (AgentEffectOutcome.tool _ _ _) = tt
