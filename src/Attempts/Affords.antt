-- ===== src/Attempts/Affords.antt =====
-- crates/agentive/src/run/effects.rs and state/commits.rs: the attempts that `execute_provider` makes
-- fit the budgets, so committing its outcome overdraws none.
use agentive.Base.{
  Text, ◌≡◌, ◌≢◌, refl, ℕ, ◌+◌, ◌*◌, ◌-◌, ◌/◌, ◌≤◌, ◌<◌, max, min, false, List, [], ◌∷◌, All,
  length, Option, none, some, sat_add, u8_max, u32_max, u64_max, ok, arith,
}
use agentive.Model.{ModelRequest}
use agentive.State.Types.{AgentRunState, ProviderAttempt, AgentEffectOutcome}
use agentive.State.Effects.{Wire, no_provider_budget}
use agentive.State.Commits.{
  commit_effect, add_reservations, provider_call_count, attempt_reservation,
}
use agentive.State.Asks.{AsksProvider}
use agentive.State.Budget.{InBudget, Affordable, IsAffordable, WithinTokens}
use agentive.State.Budget.Preserved.{commit_effect-InBudget}
use agentive.Admission.{Provider}
use agentive.Attempts.{ProviderRun, reservation, exceeds_tokens, allowed_attempts, execute_provider}
use agentive.Attempts.Loop.{Finished}
use agentive.Attempts.Outcome.{Explains, execute_provider_reports}

-- Equal reservations add up.
add_equal :
    (tokens total : ℕ) (attempts : List ProviderAttempt)
    → 0 < tokens
    → total ≤ u64_max
    → All (λ (a : ProviderAttempt). a.reserved_tokens ≡ tokens) attempts
    → add_reservations total attempts ≡ some (min (total + length attempts * tokens) u64_max)
add_equal tokens total [] pos top h = ground arith
add_equal tokens total (a ∷ rest) pos top h =
    let more =
      add_equal tokens (sat_add u64_max total a.reserved_tokens) rest pos (omega arith) h.1 in
    ground (arith, more)

-- As many equal reservations as fit do fit.
quotient_fits : (count tokens room : ℕ) → count ≤ room / max tokens 1 → count * tokens ≤ room
quotient_fits count tokens room h = grind arith

one_fits : (tokens room : ℕ) → 0 < tokens → tokens ≤ room → 1 ≤ room / max tokens 1
one_fits tokens room pos h = grind arith

module _ {V : Type 0} (w : Wire V) (s : AgentRunState V) where
  reservation_of :
      (tokens : ℕ) (attempts : List ProviderAttempt)
      → 0 < tokens
      → 1 ≤ length attempts
      → All (λ (a : ProviderAttempt). a.reserved_tokens ≡ tokens) attempts
      → attempt_reservation w s attempts ≡ min (length attempts * tokens) u64_max
  unfolding attempt_reservation
  reservation_of tokens [] pos h all = absurd (omega arith)
  reservation_of tokens (a ∷ rest) pos h all =
      rw (attempt_reservation, add_equal tokens 0 (a ∷ rest) pos (omega arith) all) (omega arith)

  tokens_fit :
      (limit : Option ℕ) (tokens : ℕ) (attempts : List ProviderAttempt)
      → s.plan.token_limit ≡ limit
      → (limit ≢ none → 0 < tokens)
      → 1 ≤ length attempts
      → length attempts ≤ max 1 (allowed_attempts s tokens)
      → All (λ (a : ProviderAttempt). a.reserved_tokens ≡ tokens) attempts
      → exceeds_tokens limit s.reserved_tokens tokens ≡ false
      → WithinTokens limit s.reserved_tokens
      → WithinTokens limit (s.reserved_tokens + attempt_reservation w s attempts)
  unfolding allowed_attempts
  tokens_fit none tokens attempts e pos made fit all small b = tt
  tokens_fit (some limit) tokens attempts e pos made fit all small b =
      let room = limit - s.reserved_tokens in
      let pos : 0 < tokens = pos λ q. ground arith in
      let allows : length attempts ≤ room / max tokens 1 =
        ground (arith, one_fits tokens room pos) in
      omega (
        arith,
        quotient_fits (length attempts) tokens room allows,
        reservation_of tokens attempts pos made all,
      )

  calls_fit :
      (id : Text) (tokens : ℕ) (attempts : List ProviderAttempt)
      → AsksProvider s id
      → s.budget.model_call_limit ≤ u32_max
      → length attempts ≤ max 1 (allowed_attempts s tokens)
      → max s.provider_calls_started s.model_calls
          + s.reserved_child_model_calls
          + provider_call_count attempts
        ≤ s.budget.model_call_limit
  unfolding allowed_attempts provider_call_count no_provider_budget
  calls_fit id tokens attempts a width fit = ground (arith, a.affordable)

  reserves_some :
      (request : ModelRequest V) (prompt : Option ℕ) (tokens : ℕ)
      → 0 < request.max_output_tokens
      → reservation w s request prompt ≡ ok tokens
      → s.plan.token_limit ≢ none
      → 0 < tokens
  unfolding reservation
  reserves_some request prompt tokens pos e limited = ground arith

  Finished-affords :
      (run : ProviderRun V) (id : Text) (tokens : ℕ) (attempts : List ProviderAttempt)
      → (s.plan.token_limit ≢ none → 0 < tokens)
      → exceeds_tokens s.plan.token_limit s.reserved_tokens tokens ≡ false
      → AsksProvider s id
      → InBudget s
      → Finished run tokens (allowed_attempts s tokens) attempts
      → Affordable w s attempts
  Finished-affords run id tokens attempts pos small a b f =
      let counted = f.followed.counted in
      record {
        calls = calls_fit id tokens attempts a b.width (omega (arith, counted, f.bounded));
        tokens =
            tokens_fit s.plan.token_limit tokens attempts refl pos
              (omega (arith, counted, f.some_made)) (omega (arith, counted, f.bounded))
              f.followed.reserved small b.tokens;
      }

  explained_affords :
      (run : ProviderRun V) (id : Text) (tokens : ℕ) (outcome : AgentEffectOutcome V)
      → (s.plan.token_limit ≢ none → 0 < tokens)
      → AsksProvider s id
      → InBudget s
      → Explains run s tokens id outcome
      → IsAffordable w s outcome
  explained_affords run id tokens (AgentEffectOutcome.provider response attempts) pos a b (f, r) =
      Finished-affords run id tokens attempts pos f a b r.1
  explained_affords run id tokens (AgentEffectOutcome.provider_failed error attempts) pos a b
        (f, r) =
      Finished-affords run id tokens attempts pos f a b r
  explained_affords run id tokens (AgentEffectOutcome.provider_budget_exhausted required) pos a b
        r =
      tt
  explained_affords run id tokens (AgentEffectOutcome.tool output attempts child) pos a b r = tt
  explained_affords run id tokens (AgentEffectOutcome.tool_batch outputs) pos a b r = tt

  -- A provider effect that the runtime executes and the state machine commits overdraws no
  -- budget: if the run asks for the effect, its attempts are a `u8`, its budgets are not
  -- overdrawn, and the request reserves some output tokens, then the state that the accepted
  -- outcome leaves is not overdrawn either, however often the provider was tried.
  pub execute_commit-InBudget :
      (provider : Provider V) (run : ProviderRun V) (fuel : ℕ) (t : AgentRunState V)
      (request : ModelRequest V) (id : Text) (outcome : AgentEffectOutcome V)
      → s.plan.provider_max_attempts ≤ u8_max
      → 0 < request.max_output_tokens
      → AsksProvider s id
      → execute_provider w provider run fuel s request id ≡ some (ok outcome)
      → commit_effect w s id outcome ≡ (t, ok tt)
      → InBudget s
      → InBudget t
  execute_commit-InBudget provider run fuel t request id outcome width pos a e h b =
      let (prompt, tokens, (_, reserved), explained) =
        execute_provider_reports w run provider fuel s request id outcome width e in
      commit_effect-InBudget w s t id outcome (ground (arith, a.idle))
        (explained_affords run id tokens outcome (reserves_some request prompt tokens pos reserved)
          a b explained)
        h b
