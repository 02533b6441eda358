-- ===== src/Execution/Answered.antt =====
-- crates/agentive/src/run/effects.rs and state/commits.rs: `execute_effect` always returns, and an
-- outcome that it gives is accepted by the state machine.
use agentive.Base.{
  ◌>>=◌, by_result, Text, ◌≡◌, refl, sym, ap, ◌∙◌, subst, ℕ, ◌≤◌, max, List, [], ◌∷◌, ◌++◌, map,
  All, Option, some, Result, ok, err, u8_max, arith,
}
use agentive.Errors.{RunError}
use agentive.Agent.{Agent}
use agentive.Model.{ModelRequest}
use agentive.State.Types.{
  AgentRunState, AgentRunEffect, AgentEffectOutcome, ToolEffectCall, ToolEffectResult,
}
use agentive.State.Effects.{Wire, next_effect, record_elapsed}
use agentive.State.Commits.{effect_id, commit_effect}
use agentive.State.Atomic.{answer_accepted}
use agentive.State.Elapsed.{commit_effect-record_elapsed}
use agentive.Attempts.Loop.{some-injective}
use agentive.Attempts.Outcome.{Explains, execute_provider_reports, execute_provider-Returns}
use agentive.Execution.{
  Boundary, chunks, all_answers, collect_results, execute_call, execute_chunk, execute_chunks,
  delegation_execution, perform, batch_outcome, check_effect, execute_effect,
}
use agentive.Execution.Chunks.{concat, concat-chunks_from, Yields-length, batch_one_by_one}
use agentive.Execution.Calls.{IsToolResult, refused, gives, IsBytePolicy, one_tool-AnswersTool}
use agentive.Execution.Fits.{IsBytePlan, HasBytePolicies, Fits, Fits-Answers, next_policies}

abbrev pub Returned : {A : Type 0} → Option A → Type 0
Returned {A = A} answer = (result : A) × (answer ≡ some result)

All-append : {A : Type 0} (P : A → Type 0) (xs ys : List A) → All P (xs ++ ys) → All P xs × All P ys
All-append P [] ys all = (tt, all)
All-append P (x ∷ xs) ys (p, all) = let (front, back) = All-append P xs ys all in ((p, front), back)

module _ {V : Type 0} (w : Wire V) (agent : Agent V) (b : Boundary V) (fuel : ℕ)
    (s : AgentRunState V) where
  Explains-Fits :
      (tokens : ℕ) (id call_id : Text) (round : ℕ) (request : ModelRequest V)
      (outcome : AgentEffectOutcome V)
      → Explains b.provider_run s tokens call_id outcome
      → Fits (AgentRunEffect.provider_call id call_id round request) outcome
  Explains-Fits tokens id call_id round request (AgentEffectOutcome.provider _ _) e = tt
  Explains-Fits tokens id call_id round request (AgentEffectOutcome.provider_failed _ _) e = tt
  Explains-Fits tokens id call_id round request (AgentEffectOutcome.provider_budget_exhausted _) e =
      tt
  Explains-Fits tokens id call_id round request (AgentEffectOutcome.tool _ _ _) e = e.1
  Explains-Fits tokens id call_id round request (AgentEffectOutcome.tool_batch _) e = e.1

  result-Fits :
      (result : Result RunError (AgentEffectOutcome V)) (outcome : AgentEffectOutcome V)
      → IsToolResult result
      → result ≡ ok outcome
      → (r : ToolEffectResult V) × (outcome
          ≡ AgentEffectOutcome.tool r.output r.attempts r.child_usage)
  result-Fits result outcome (refused e) h = absurd (ground arith)
  result-Fits result outcome (gives r) h = (r, ground arith)

  -- What is done for an effect has the effect's kind.
  perform-Fits :
      (effect : AgentRunEffect V) (outcome : AgentEffectOutcome V)
      → IsBytePlan s.plan
      → HasBytePolicies effect
      → u8_max ≤ fuel
      → perform w agent b fuel s effect ≡ some (ok outcome)
      → Fits effect outcome
  unfolding perform
  perform-Fits (AgentRunEffect.provider_call id call_id round request) outcome bytes policies enough
        h =
      let (prompt, tokens, admitted, explained) =
        execute_provider_reports w b.provider_run agent.provider fuel s request call_id outcome
          bytes.provider h in
      Explains-Fits tokens id call_id round request outcome explained
  perform-Fits (AgentRunEffect.tool_call id invocation arguments policy budget) outcome bytes
        policies enough h =
      let first =
        one_tool-AnswersTool w agent b fuel invocation arguments policy
          (delegation_execution w s budget) policies enough in
      let (r, e) =
        result-Fits first.result outcome first.is_tool (some-injective (sym first.returned ∙ h)) in
      subst (Fits (AgentRunEffect.tool_call id invocation arguments policy budget)) (sym e) tt
  perform-Fits (AgentRunEffect.tool_batch id calls) outcome bytes policies enough h =
      let (results, e, y) = (batch_one_by_one w agent b fuel s id calls outcome).0 h in
      subst (Fits (AgentRunEffect.tool_batch id calls)) (sym e)
        (Yields-length w agent b fuel s calls results y)

  calls_return :
      (calls : List (ToolEffectCall V))
      → All (λ (c : ToolEffectCall V). IsBytePolicy c.policy) calls
      → u8_max ≤ fuel
      → Returned (all_answers (map (execute_call w agent b fuel s) calls))
  unfolding all_answers execute_call
  calls_return [] policies enough = ([], refl)
  calls_return (c ∷ cs) (p, ps) enough =
      let first =
        one_tool-AnswersTool w agent b fuel c.invocation c.arguments c.policy
          (delegation_execution w s c.delegation_budget) p enough in
      let (results, more) = calls_return cs ps enough in
      (first.result ∷ results, rw (first.returned, more) refl)

  abbrev AllByte : List (ToolEffectCall V) → Type 0
  AllByte calls = All (λ (c : ToolEffectCall V). IsBytePolicy c.policy) calls

  chunk_returns :
      (calls : List (ToolEffectCall V))
      → AllByte calls
      → u8_max ≤ fuel
      → Returned (execute_chunk w agent b fuel s calls)
  unfolding execute_chunk
  chunk_returns calls policies enough =
      let (results, e) = calls_return calls policies enough in
      (
        b.join.try_join_all results >>= λ outcomes. collect_results outcomes,
        rw (execute_chunk, e) refl,
      )

  joined_returns :
      (part : List (ToolEffectCall V)) (rest : List (List (ToolEffectCall V)))
      (one more : Result RunError (List (ToolEffectResult V)))
      → execute_chunk w agent b fuel s part ≡ some one
      → execute_chunks w agent b fuel s rest ≡ some more
      → Returned (execute_chunks w agent b fuel s (part ∷ rest))
  unfolding execute_chunks
  joined_returns part rest (err x) more e f = (err x, rw (execute_chunks, e) refl)
  joined_returns part rest (ok rs) (err x) e f = (err x, rw (execute_chunks, e, f) refl)
  joined_returns part rest (ok rs) (ok ts) e f = (ok (rs ++ ts), rw (execute_chunks, e, f) refl)

  chunks_return :
      (parts : List (List (ToolEffectCall V)))
      → AllByte (concat parts)
      → u8_max ≤ fuel
      → Returned (execute_chunks w agent b fuel s parts)
  unfolding execute_chunks
  chunks_return [] policies enough = (ok [], refl)
  chunks_return (part ∷ rest) policies enough =
      let (front, back) =
        All-append (λ (c : ToolEffectCall V). IsBytePolicy c.policy) part (concat rest) policies in
      let (one, e) = chunk_returns part front enough in
      let (more, f) = chunks_return rest back enough in joined_returns part rest one more e f

  batch_returns :
      (answer : Result RunError (List (ToolEffectResult V)))
      → Returned (batch_outcome (some answer))
  batch_returns (err e) = (err e, refl)
  batch_returns (ok outputs) = (ok (AgentEffectOutcome.tool_batch outputs), refl)

  perform-Returned :
      (effect : AgentRunEffect V)
      → IsBytePlan s.plan
      → HasBytePolicies effect
      → u8_max ≤ fuel
      → Returned (perform w agent b fuel s effect)
  unfolding perform
  perform-Returned (AgentRunEffect.provider_call id call_id round request) bytes policies enough =
      execute_provider-Returns w b.provider_run agent.provider fuel s request call_id bytes.provider
        (omega (arith, bytes.provider))
  perform-Returned (AgentRunEffect.tool_call id invocation arguments policy budget) bytes policies
        enough =
      let first =
        one_tool-AnswersTool w agent b fuel invocation arguments policy
          (delegation_execution w s budget) policies enough in
      (first.result, first.returned)
  perform-Returned (AgentRunEffect.tool_batch id calls) bytes policies enough =
      let n : ℕ = max s.plan.max_parallel_tool_calls 1 in
      let (answer, e) =
        chunks_return (chunks n calls)
          (subst AllByte (sym (concat-chunks_from n [] calls)) policies) enough in
      let (result, f) = batch_returns answer in (result, ap batch_outcome e ∙ f)

  -- `execute_effect` always returns, an outcome or an error, for the effect that the state asks for:
  -- whatever the provider, the tools and the child runs do, fuel for 255 attempts is enough, if the
  -- plan's attempts fit a `u8`.
  pub execute_effect-Returned :
      (effect : AgentRunEffect V)
      → IsBytePlan s.plan
      → u8_max ≤ fuel
      → next_effect s ≡ some effect
      → Returned (execute_effect w agent b fuel s effect)
  unfolding execute_effect
  execute_effect-Returned effect bytes enough asked =
      by_result Returned (check_effect w agent b s effect) (λ e. (err e, refl))
        (λ _. perform-Returned effect bytes (next_policies s effect bytes asked) enough)

  performed :
      (effect : AgentRunEffect V) (outcome : AgentEffectOutcome V)
      → execute_effect w agent b fuel s effect ≡ some (ok outcome)
      → perform w agent b fuel s effect ≡ some (ok outcome)
  unfolding execute_effect
  performed effect outcome h =
      by_result
        (λ answer. answer ≡ some (ok outcome) → perform w agent b fuel s effect ≡ some (ok outcome))
        (check_effect w agent b s effect) (λ e refused. absurd (ground (arith, refused)))
        (λ _ made. made) h

  -- An outcome that `execute_effect` gives for the effect that the state asks for is accepted by
  -- `commit_effect` under that effect's identity, also after time has been added: it is of the
  -- effect's kind, and a batch has a result for each call. The plan's attempts fit a `u8`.
  pub executed_accepted :
      (effect : AgentRunEffect V) (outcome : AgentEffectOutcome V) (elapsed : ℕ)
      → IsBytePlan s.plan
      → u8_max ≤ fuel
      → next_effect s ≡ some effect
      → execute_effect w agent b fuel s effect ≡ some (ok outcome)
      → Fits effect outcome
        × (commit_effect w (record_elapsed s elapsed) (effect_id effect) outcome
            ≡ (record_elapsed (commit_effect w s (effect_id effect) outcome).0 elapsed, ok tt))
  executed_accepted effect outcome elapsed bytes enough asked h =
      let fits =
        perform-Fits effect outcome bytes (next_policies s effect bytes asked) enough
          (performed effect outcome h) in
      (
        fits,
        commit_effect-record_elapsed w elapsed s (effect_id effect) outcome
            ∙ ap (λ t. (record_elapsed t.0 elapsed, t.1))
                (answer_accepted w s (effect_id effect) outcome
                  (Fits-Answers s effect outcome asked fits)),
      )
