-- ===== src/Attempts/Outcome.antt =====
-- crates/agentive/src/run/effects.rs: `execute_provider` returns, what its outcome reports, and that
-- committing the outcome overdraws no budget.
use agentive.Base.{
  Text, ◌≡◌, refl, sym, ◌∙◌, subst, ℕ, ◌≤◌, max, Bool, true, false, [], Option, some, u8_max,
  Result, ok, err, arith,
}
use agentive.Model.{ModelRequest}
use agentive.Errors.{RunError}
use agentive.State.Types.{AgentRunState, AgentEffectOutcome}
use agentive.State.Effects.{Wire}
use agentive.Admission.{Provider, validate_context}
use agentive.Attempts.{
  make_attempts, ProviderRun, reservation, exceeds_tokens, allowed_attempts, provider_loop,
  execute_provider, make_attempts,
}
use agentive.Attempts.Loop.{Returns, Reports, loop-Returns, loop-Reports}

-- What the outcome of a provider effect says, where each attempt reserves `tokens`.
abbrev pub Explains :
    {V : Type 0} → ProviderRun V → AgentRunState V → ℕ → Text → AgentEffectOutcome V → Type 0
Explains run s tokens id (AgentEffectOutcome.provider_budget_exhausted required) =
    (exceeds_tokens s.plan.token_limit s.reserved_tokens tokens ≡ true) × (required ≡ tokens)
Explains run s tokens id outcome =
    (exceeds_tokens s.plan.token_limit s.reserved_tokens tokens ≡ false)
    × Reports run tokens (allowed_attempts s tokens) id outcome

loop-Explains :
    {V : Type 0} (run : ProviderRun V) (s : AgentRunState V) (tokens : ℕ) (id : Text)
    (outcome : AgentEffectOutcome V)
    → exceeds_tokens s.plan.token_limit s.reserved_tokens tokens ≡ false
    → Reports run tokens (allowed_attempts s tokens) id outcome
    → Explains run s tokens id outcome
loop-Explains run s tokens id (AgentEffectOutcome.provider response attempts) f r = (f, r)
loop-Explains run s tokens id (AgentEffectOutcome.provider_failed error attempts) f r = (f, r)
loop-Explains run s tokens id (AgentEffectOutcome.provider_budget_exhausted required) f r = absurd r
loop-Explains run s tokens id (AgentEffectOutcome.tool output attempts child) f r = (f, r)
loop-Explains run s tokens id (AgentEffectOutcome.tool_batch outputs) f r = (f, r)

module _ {V : Type 0} (w : Wire V) (run : ProviderRun V) where
  allowed_width :
      (s : AgentRunState V) (tokens : ℕ) → allowed_attempts s tokens ≤ s.plan.provider_max_attempts
  unfolding allowed_attempts
  allowed_width s tokens = omega arith

  module _ (fuel : ℕ) (s : AgentRunState V) (request : ModelRequest V) (id : Text)
      (prompt : Option ℕ) where
    abbrev answer : Option (Result RunError (AgentEffectOutcome V))
    answer = make_attempts w run fuel s request id prompt

    -- The effect is refused, or exceeds the budget, or is attempted.
    data Start : Type 0 where
      refused :
          (e : RunError) → reservation w s request prompt ≡ err e → answer ≡ some (err e) → Start
      exceeds :
          (tokens : ℕ)
          → reservation w s request prompt ≡ ok tokens
          → exceeds_tokens s.plan.token_limit s.reserved_tokens tokens ≡ true
          → answer ≡ some (ok (AgentEffectOutcome.provider_budget_exhausted tokens))
          → Start
      attempts :
          (tokens : ℕ)
          → reservation w s request prompt ≡ ok tokens
          → exceeds_tokens s.plan.token_limit s.reserved_tokens tokens ≡ false
          → answer ≡ provider_loop run id tokens (allowed_attempts s tokens) fuel 1 []
          → Start

    start_with :
        (tokens : ℕ) (over : Bool)
        → reservation w s request prompt ≡ ok tokens
        → exceeds_tokens s.plan.token_limit s.reserved_tokens tokens ≡ over
        → Start
    unfolding make_attempts
    start_with tokens true e f = exceeds tokens e f (rw (make_attempts, e, f) refl)
    start_with tokens false e f = attempts tokens e f (rw (make_attempts, e, f) refl)

    start_at : (reserved : Result RunError ℕ) → reservation w s request prompt ≡ reserved → Start
    unfolding make_attempts
    start_at (err e) h = refused e h (rw (make_attempts, h) refl)
    start_at (ok tokens) h = start_with tokens _ h refl

    start : Start
    start = start_at (reservation w s request prompt) refl

    attempts_return :
        s.plan.provider_max_attempts ≤ u8_max
        → max 1 s.plan.provider_max_attempts ≤ fuel
        → Returns (make_attempts w run fuel s request id prompt)
    attempts_return width enough = elim start [
      | refused e _ h ↦ (err e, h)
      | exceeds tokens _ _ h ↦ (_, h)
      | attempts tokens _ _ h ↦
          let (result, r) =
            loop-Returns run id tokens (allowed_attempts s tokens) fuel 1 []
              (omega (arith, allowed_width s tokens)) (omega arith)
              (omega (arith, allowed_width s tokens)) in
          (result, h ∙ r)
    ]

    attempts_report :
        (outcome : AgentEffectOutcome V)
        → s.plan.provider_max_attempts ≤ u8_max
        → make_attempts w run fuel s request id prompt ≡ some (ok outcome)
        → (tokens : ℕ) × (reservation w s request prompt ≡ ok tokens)
          × Explains run s tokens id outcome
    attempts_report outcome width h = elim start [
      | refused e _ g ↦ absurd (ground (arith, g, h))
      | exceeds tokens e f g ↦
          let same : AgentEffectOutcome.provider_budget_exhausted tokens ≡ outcome =
            ground (arith, g, h) in
          (tokens, e, subst (Explains run s tokens id) same (f, refl))
      | attempts tokens e f g ↦ (
        tokens,
        e,
        loop-Explains run s tokens id outcome f (
            loop-Reports run id tokens (allowed_attempts s tokens) fuel 0 [] outcome
              (omega (arith, allowed_width s tokens)) (omega arith)
              (record {
                counted = refl;
                reserved = tt;
                repeated = λ n _ upper. absurd (omega (arith, upper));
              })
              (λ first. absurd (omega (arith, first))) (sym g ∙ h)),
      )
    ]

  module _ (provider : Provider V) (fuel : ℕ) (s : AgentRunState V) (request : ModelRequest V)
      (id : Text) where
    abbrev admission : Result RunError (Option ℕ)
    admission =
        validate_context provider s.plan.context_estimate s.plan.provider_enforced_limit_opt_out
          request

    Returns-on :
        (checked : Result RunError (Option ℕ))
        → admission ≡ checked
        → s.plan.provider_max_attempts ≤ u8_max
        → max 1 s.plan.provider_max_attempts ≤ fuel
        → Returns (execute_provider w provider run fuel s request id)
    unfolding execute_provider
    Returns-on (err e) h width enough = (err e, rw (execute_provider, h) refl)
    Returns-on (ok prompt) h width enough =
        let (result, r) = attempts_return fuel s request id prompt width enough in
        (result, rw (execute_provider, h) r)

    -- A provider effect always ends: with fuel for one attempt and for as many as the plan
    -- allows, which are a `u8`, it returns an outcome or an error, whatever the provider does.
    pub execute_provider-Returns :
        s.plan.provider_max_attempts ≤ u8_max
        → max 1 s.plan.provider_max_attempts ≤ fuel
        → Returns (execute_provider w provider run fuel s request id)
    execute_provider-Returns width enough = Returns-on admission refl width enough

    -- The provider admits the request, for a prompt of these tokens.
    abbrev Admitted : Option ℕ → ℕ → Type 0
    Admitted prompt tokens = (admission ≡ ok prompt) × (reservation w s request prompt ≡ ok tokens)

    reports_on :
        (checked : Result RunError (Option ℕ)) (outcome : AgentEffectOutcome V)
        → admission ≡ checked
        → s.plan.provider_max_attempts ≤ u8_max
        → execute_provider w provider run fuel s request id ≡ some (ok outcome)
        → (prompt : Option ℕ) × (tokens : ℕ) × Admitted prompt tokens
          × Explains run s tokens id outcome
    unfolding execute_provider
    reports_on (err e) outcome h width g =
        let refused : execute_provider w provider run fuel s request id ≡ some (err e) =
          rw (execute_provider, h) refl in
        absurd (ground (arith, g, refused))
    reports_on (ok prompt) outcome h width g =
        let made : execute_provider w provider run fuel s request id
            ≡ make_attempts w run fuel s request id prompt =
          rw (execute_provider, h) refl in
        let (tokens, e, explained) =
          attempts_report fuel s request id prompt outcome width (sym made ∙ g) in
        (prompt, tokens, (h, e), explained)

    -- What the outcome of a provider effect reports, for attempts that are a `u8`: the provider
    -- admits the request; and the outcome is a response that `validate_model_response` accepts,
    -- or a failure, with attempts that each reserve the effect's tokens, at least one and at
    -- most as many as the budgets allow, all but the last of which failed in a way that is
    -- retryable and safe, with no output shown; or it is the exhausted token budget, with the
    -- tokens required, and one attempt's reservation exceeds what is left of it, as it does in
    -- no other case.
    pub execute_provider_reports :
        (outcome : AgentEffectOutcome V)
        → s.plan.provider_max_attempts ≤ u8_max
        → execute_provider w provider run fuel s request id ≡ some (ok outcome)
        → (prompt : Option ℕ) × (tokens : ℕ) × Admitted prompt tokens
          × Explains run s tokens id outcome
    execute_provider_reports outcome width g = reports_on admission outcome refl width g
