-- ===== src/Attempts/Loop.antt =====
-- crates/agentive/src/run/effects.rs: `execute_provider` always returns, and what it may return.
use agentive.Base.{
  Text, ◌≡◌, refl, sym, subst, ◌∙◌, ℕ, zero, suc, ◌+◌, ◌≤◌, ◌<◌, ◌⊎◌, inl, inr, max, Bool, true,
  false, List, [], ◌∷◌, ◌++◌, All, length, length-append, ◌>>◌, Option, none, some, sat_add, u8_max,
  Result, ok, err, arith,
}
use agentive.Model.{ModelResponse}
use agentive.Errors.{RunError, cancelled, ProviderError, is_retryable, is_safe_before_output}
use agentive.Response.{validate_model_response}
use agentive.State.Types.{ProviderAttempt, AgentEffectOutcome}
use agentive.Attempts.{ProviderEvent, ProviderRun, may_retry, provider_loop}

-- A failure after which the provider may be asked again without any output being repeated.
pub data MayRepeat {V : Type 0} : ProviderEvent V → Type 0 where
  safe :
      (error : ProviderError)
      → is_retryable error ≡ true
      → is_safe_before_output error ≡ true
      → MayRepeat (ProviderEvent.failed error false)

-- Attempts, the last of which is the `last`-th, that each reserve `tokens`.
pub record Followed {V : Type 0} (run : ProviderRun V) (tokens last : ℕ)
    (attempts : List ProviderAttempt) : Type 0 where
  pub counted : length attempts ≡ last
  pub reserved : All (λ (a : ProviderAttempt). a.reserved_tokens ≡ tokens) attempts
  pub repeated : (n : ℕ) → 1 ≤ n → n < last → MayRepeat (run.events n)

-- Attempts of a finished effect: at least one, and at most as many as are allowed.
pub record Finished {V : Type 0} (run : ProviderRun V) (tokens allowed : ℕ)
    (attempts : List ProviderAttempt) : Type 0 where
  pub last : ℕ
  pub followed : Followed run tokens last attempts
  pub some_made : 1 ≤ last
  pub bounded : last ≤ max 1 allowed

push_reserved :
    (tokens : ℕ) (attempts : List ProviderAttempt) (a : ProviderAttempt)
    → a.reserved_tokens ≡ tokens
    → All (λ (b : ProviderAttempt). b.reserved_tokens ≡ tokens) attempts
    → All (λ (b : ProviderAttempt). b.reserved_tokens ≡ tokens) (attempts ++ a ∷ [])
push_reserved tokens [] a e h = (e, tt)
push_reserved tokens (b ∷ bs) a e h = (h.0, push_reserved tokens bs a e h.1)

-- What an outcome reports: a valid response or a failure, and its attempts.
abbrev pub Reports : {V : Type 0} → ProviderRun V → ℕ → ℕ → Text → AgentEffectOutcome V → Type 0
Reports run tokens allowed id (AgentEffectOutcome.provider response attempts) =
    (validate_model_response response id ≡ ok tt) × Finished run tokens allowed attempts
Reports run tokens allowed id (AgentEffectOutcome.provider_failed error attempts) =
    Finished run tokens allowed attempts
Reports run tokens allowed id _ = ⊥

pub some-injective : {A : Type 0} {x y : A} → some x ≡ some y → x ≡ y
some-injective e = ground arith

-- How the loop may stop after an attempt.
data Ends {V : Type 0} (id : Text) (attempts : List ProviderAttempt) (a : ProviderAttempt)
    : Result RunError (AgentEffectOutcome V) → Type 0 where
  refused : (e : RunError) → Ends id attempts a (err e)
  answers :
      (response : ModelResponse V)
      → validate_model_response response id ≡ ok tt
      → Ends id attempts a (ok (AgentEffectOutcome.provider response (attempts ++ a ∷ [])))
  fails :
      (error : ProviderError)
      → Ends id attempts a (ok (AgentEffectOutcome.provider_failed error (attempts ++ a ∷ [])))

-- A result of the loop, when there is one.
abbrev pub Returns : {V : Type 0} → Option (Result RunError (AgentEffectOutcome V)) → Type 0
Returns {V = V} answer = (result : Result RunError (AgentEffectOutcome V)) × (answer ≡ some result)

module _ {V : Type 0} (run : ProviderRun V) (id : Text) (tokens allowed : ℕ) where
  record Stops (fuel attempt : ℕ) (attempts : List ProviderAttempt) : Type 0 where
    result : Result RunError (AgentEffectOutcome V)
    returned : provider_loop run id tokens allowed (suc fuel) attempt attempts ≡ some result
    made : ProviderAttempt
    reserves : made.reserved_tokens ≡ tokens
    ends : Ends id attempts made result

  record Repeats (fuel attempt : ℕ) (attempts : List ProviderAttempt) : Type 0 where
    made : ProviderAttempt
    reserves : made.reserved_tokens ≡ tokens
    left : attempt < allowed
    may : MayRepeat (run.events attempt)
    goes_on :
        provider_loop run id tokens allowed (suc fuel) attempt attempts
        ≡ provider_loop run id tokens allowed fuel
            (sat_add u8_max attempt 1)
            (attempts ++ made ∷ [])

  validated :
      (response : ModelResponse V) (made : ProviderAttempt) (attempts : List ProviderAttempt)
      (checks : Result RunError (Unit {0}))
      → validate_model_response response id ≡ checks
      → Ends id attempts made
          (do checks; ok (AgentEffectOutcome.provider response (attempts ++ made ∷ [])))
  validated response made attempts (ok tt) e = answers response e
  validated response made attempts (err e) _ = refused e

  -- The attempt that a failure leaves behind.
  abbrev failed_attempt : ℕ → ProviderError → ProviderAttempt
  failed_attempt attempt error = record {
    attempt = attempt;
    usage = error.usage;
    reserved_tokens = tokens;
  }

  may_repeat :
      (error : ProviderError) (shown : Bool) (attempt : ℕ)
      → may_retry error shown attempt allowed ≡ true
      → MayRepeat {V = V} (ProviderEvent.failed error shown) × (attempt < allowed)
  may_repeat error true attempt h = absurd (ground arith)
  may_repeat error false attempt h = (safe error (ground arith) (ground arith), ground arith)

  failed_on :
      (fuel attempt : ℕ) (attempts : List ProviderAttempt) (error : ProviderError)
      (shown waits again : Bool)
      → run.events attempt ≡ ProviderEvent.failed error shown
      → run.waits attempt ≡ waits
      → may_retry error shown attempt allowed ≡ again
      → Stops fuel attempt attempts ⊎ Repeats fuel attempt attempts
  unfolding provider_loop
  failed_on fuel attempt attempts error shown waits false e f g = inl (record {
    result = _;
    returned = rw (e, g, provider_loop) refl;
    made = failed_attempt attempt error;
    reserves = refl;
    ends = fails error;
  })
  failed_on fuel attempt attempts error shown false true e f g = inl (record {
    result = _;
    returned = rw (e, g, f, provider_loop) refl;
    made = failed_attempt attempt error;
    reserves = refl;
    ends = refused cancelled;
  })
  failed_on fuel attempt attempts error shown true true e f g = inr (record {
    made = failed_attempt attempt error;
    reserves = refl;
    left = (may_repeat error shown attempt g).1;
    may = rw e ((may_repeat error shown attempt g).0);
    goes_on = rw (e, g, f, provider_loop) refl;
  })

  step_on :
      (fuel attempt : ℕ) (attempts : List ProviderAttempt) (event : ProviderEvent V) (waits : Bool)
      → run.events attempt ≡ event
      → run.waits attempt ≡ waits
      → Stops fuel attempt attempts ⊎ Repeats fuel attempt attempts
  unfolding provider_loop
  step_on fuel attempt attempts ProviderEvent.interrupted waits e f = inl (record {
    result = err cancelled;
    returned = rw (e, provider_loop) refl;
    made = record { attempt = attempt; usage = none; reserved_tokens = tokens };
    reserves = refl;
    ends = refused cancelled;
  })
  step_on fuel attempt attempts (ProviderEvent.answered response true) waits e f = inl (record {
    result = err cancelled;
    returned = rw (e, provider_loop) refl;
    made = record { attempt = attempt; usage = none; reserved_tokens = tokens };
    reserves = refl;
    ends = refused cancelled;
  })
  step_on fuel attempt attempts (ProviderEvent.answered response false) waits e f = inl (record {
    result = _;
    returned = rw (e, provider_loop) refl;
    made = record { attempt = attempt; usage = response.usage; reserved_tokens = tokens };
    reserves = refl;
    ends = validated response _ attempts _ refl;
  })
  step_on fuel attempt attempts (ProviderEvent.failed error shown) waits e f =
      failed_on fuel attempt attempts error shown waits (may_retry error shown attempt allowed) e f
        refl

  pub loop-Returns :
      (fuel attempt : ℕ) (attempts : List ProviderAttempt)
      → allowed ≤ u8_max
      → attempt ≤ max 1 allowed
      → max 1 allowed < fuel + attempt
      → Returns (provider_loop run id tokens allowed fuel attempt attempts)
  loop-Returns zero attempt attempts w b f = absurd (omega arith)
  loop-Returns (suc fuel) attempt attempts w b f =
      elim (step_on fuel attempt attempts (run.events attempt) (run.waits attempt) refl refl) [
        | inl s ↦ (s.result, s.returned)
        | inr r ↦
            let (result, e) =
              loop-Returns fuel (sat_add u8_max attempt 1) (attempts ++ r.made ∷ []) w
                (ground (arith, r.left)) (ground (arith, r.left)) in
            (result, r.goes_on ∙ e)
      ]

  repeated_before :
      (done n : ℕ)
      → ((m : ℕ) → 1 ≤ m → m < done → MayRepeat (run.events m))
      → (1 ≤ done → MayRepeat (run.events done))
      → 1 ≤ n
      → n < suc done
      → MayRepeat (run.events n)
  repeated_before done n earlier last lower upper =
      let split : (n < done) ⊎ (n ≡ done) = ground arith in
      elim split [
        | inl before ↦ earlier n lower before
        | inr same ↦ subst (λ m. MayRepeat (run.events m)) (sym same) (last (omega arith))
      ]

  push-Followed :
      (done : ℕ) (attempts : List ProviderAttempt) (made : ProviderAttempt)
      → Followed run tokens done attempts
      → made.reserved_tokens ≡ tokens
      → (1 ≤ done → MayRepeat (run.events done))
      → Followed run tokens (suc done) (attempts ++ made ∷ [])
  push-Followed done attempts made h e may = record {
    counted = omega (arith, length-append attempts (made ∷ []), h.counted);
    reserved = push_reserved tokens attempts made e h.reserved;
    repeated = λ n lower upper. repeated_before done n h.repeated may lower upper;
  }

  Ends-Reports :
      (attempts : List ProviderAttempt) (made : ProviderAttempt)
      (result : Result RunError (AgentEffectOutcome V)) (outcome : AgentEffectOutcome V)
      → Ends id attempts made result
      → result ≡ ok outcome
      → Finished run tokens allowed (attempts ++ made ∷ [])
      → Reports run tokens allowed id outcome
  Ends-Reports attempts made result outcome (refused e) h f = absurd (ground arith)
  Ends-Reports attempts made result outcome (answers response checks) h f =
      let same : AgentEffectOutcome.provider response (attempts ++ made ∷ []) ≡ outcome =
        ground arith in
      subst (Reports run tokens allowed id) same (checks, f)
  Ends-Reports attempts made result outcome (fails error) h f =
      let same : AgentEffectOutcome.provider_failed error (attempts ++ made ∷ []) ≡ outcome =
        ground arith in
      subst (Reports run tokens allowed id) same f

  -- `done` attempts were made, and each of them may be followed by another.
  pub loop-Reports :
      (fuel done : ℕ) (attempts : List ProviderAttempt) (outcome : AgentEffectOutcome V)
      → allowed ≤ u8_max
      → done < max 1 allowed
      → Followed run tokens done attempts
      → (1 ≤ done → MayRepeat (run.events done))
      → provider_loop run id tokens allowed fuel (suc done) attempts ≡ some (ok outcome)
      → Reports run tokens allowed id outcome
  unfolding provider_loop
  loop-Reports zero done attempts outcome w b f may h = absurd (ground arith)
  loop-Reports (suc fuel) done attempts outcome w b f may h =
      elim (step_on fuel (suc done) attempts (run.events (suc done)) (run.waits (suc done)) refl
        refl) [
          | inl s ↦
              Ends-Reports attempts s.made s.result outcome s.ends
                (some-injective (sym s.returned ∙ h))
                (record {
                  last = suc done;
                  followed = push-Followed done attempts s.made f s.reserves may;
                  some_made = omega arith;
                  bounded = omega arith;
                })
          | inr r ↦
              loop-Reports fuel (suc done) (attempts ++ r.made ∷ []) outcome w
                (omega (arith, r.left)) (push-Followed done attempts r.made f r.reserves may)
                (λ _. r.may)
                (subst
                  (λ next.
                    provider_loop run id tokens allowed fuel next (attempts ++ r.made ∷ [])
                    ≡ some (ok outcome))
                  (omega (arith, r.left)) (sym r.goes_on ∙ h))
        ]
