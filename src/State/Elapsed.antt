-- ===== src/State/Elapsed.antt =====
-- crates/agentive/src/state: adding time to a run and completing an effect, in either order.
use agentive.Base.{
  Text, ◌≡◌, true, false, refl, ap, ℕ, List, [], ◌∷◌, Option, none, some, zip, ok, err, arith, Bool,
  length,
}
use agentive.Model.{ModelToolCall, ModelTokenUsage, ModelResponse}
use agentive.State.Types.{
  RunStatus, AgentRunState, AgentEffectOutcome, DelegationBudget, ToolEffectResult, ProviderAttempt,
  unexpected_effect,
}
use agentive.Usage.{RunUsage}
use agentive.State.Effects.{
  Wire, pending_effect, next_effect, record_elapsed, tool_effect_call, delegation_budget_for,
  next_model_request, next_model_token_reservation,
}
use agentive.State.Commits.{
  Transition, first_reservation, commit_effect, commit_outputs, expect_effect, expect_batch,
  settle_tool, settle_response, count_provider_effect, fail, commit_provider_response_with_attempts,
  commit_provider_failure, commit_budget_exhausted, commit_tool_result_with_usage,
  commit_tool_batch, batch_reservations, attempt_reservation,
}

module _ {V : Type 0} (w : Wire V) (elapsed : ℕ) where
  -- A transition, with time added to the state that it leaves.
  abbrev later : Transition V → Transition V
  later (t, result) = (record_elapsed t elapsed, result)

  pending_later :
      (s : AgentRunState V) (pending : List (ModelToolCall V))
      → pending_effect (record_elapsed s elapsed) pending ≡ pending_effect s pending
  unfolding pending_effect record_elapsed next_model_request tool_effect_call delegation_budget_for
  pending_later s [] = refl
  pending_later s (c ∷ cs) = refl

  pub next_effect-record_elapsed :
      (s : AgentRunState V) → next_effect (record_elapsed s elapsed) ≡ next_effect s
  unfolding next_effect record_elapsed
  next_effect-record_elapsed s = rw (next_effect, pending_later s s.pending_tools) refl

  settled :
      (s : AgentRunState V) (call : ModelToolCall V) (rest : List (ModelToolCall V))
      (result : ToolEffectResult V) (reservation : Option DelegationBudget)
      → settle_tool w
          (record_elapsed s elapsed)
          call
          rest
          result.output
          result.child_usage
          reservation
        ≡ record_elapsed
            (settle_tool w s call rest result.output result.child_usage reservation)
            elapsed
  unfolding settle_tool record_elapsed
  settled s call rest result reservation = ground arith

  outputs_later :
      (id : Text) (s : AgentRunState V) (pending : List (ModelToolCall V))
      (results : List (ToolEffectResult V × Option DelegationBudget))
      → s.pending_tools ≡ pending
      → commit_outputs w id (record_elapsed s elapsed) results
        ≡ later (commit_outputs w id s results)
  unfolding commit_outputs record_elapsed
  outputs_later id s pending [] e = refl
  outputs_later id s [] ((result, reservation) ∷ more) e = ground arith
  outputs_later id s (c ∷ cs) ((result, reservation) ∷ more) e =
      rw (e, commit_outputs, settled s c cs result reservation)
        (outputs_later id (settle_tool w s c cs result.output result.child_usage reservation) cs
          more refl)

  respond_later :
      (s : AgentRunState V) (calls : List (ModelToolCall V)) (text : Option Text)
      → settle_response (record_elapsed s elapsed) calls text
        ≡ record_elapsed (settle_response s calls text) elapsed
  unfolding settle_response record_elapsed
  respond_later s [] none = refl
  respond_later s [] (some text) = refl
  respond_later s (c ∷ cs) text = refl

  counted_later :
      (s : AgentRunState V) (attempts : List ProviderAttempt) (usage : Option ModelTokenUsage)
      → count_provider_effect w (record_elapsed s elapsed) attempts usage
        ≡ record_elapsed (count_provider_effect w s attempts usage) elapsed
  unfolding count_provider_effect record_elapsed attempt_reservation next_model_token_reservation
  counted_later s [] usage = refl
  counted_later s (a ∷ more) usage = refl

  failed_later :
      (s : AgentRunState V) (message : Text)
      → fail (record_elapsed s elapsed) message ≡ record_elapsed (fail s message) elapsed
  unfolding fail record_elapsed
  failed_later s message = ground arith

  expected_later :
      (s : AgentRunState V) (id : Text) (provider : Bool)
      → expect_effect (record_elapsed s elapsed) id provider ≡ expect_effect s id provider
  unfolding expect_effect
  expected_later s id provider = rw (expect_effect, next_effect-record_elapsed s) refl

  batch_later :
      (s : AgentRunState V) (id : Text) (count : ℕ)
      → expect_batch (record_elapsed s elapsed) id count ≡ expect_batch s id count
  unfolding expect_batch
  batch_later s id count = rw (expect_batch, next_effect-record_elapsed s) refl

  provider_later :
      (s : AgentRunState V) (id : Text) (response : ModelResponse V)
      (attempts : List ProviderAttempt)
      → commit_provider_response_with_attempts w (record_elapsed s elapsed) id response attempts
        ≡ later (commit_provider_response_with_attempts w s id response attempts)
  unfolding commit_provider_response_with_attempts record_elapsed
  provider_later s id response attempts =
      let running : AgentRunState V = record s { status = RunStatus.running } in
      ground (
        arith,
        expected_later s id true,
        counted_later running attempts response.usage,
        respond_later (count_provider_effect w running attempts response.usage) response.tool_calls
            response.text,
      )

  exhausted_later :
      (s : AgentRunState V) (id : Text)
      → commit_budget_exhausted (record_elapsed s elapsed) id ≡ later (commit_budget_exhausted s id)
  unfolding commit_budget_exhausted record_elapsed
  exhausted_later s id = ground (arith, expected_later s id true)

  -- A tool's completion, where the pending calls are known.
  tool_known :
      (s : AgentRunState V) (id : Text) (result : ToolEffectResult V) (call : ModelToolCall V)
      (rest : List (ModelToolCall V))
      → s.pending_tools ≡ call ∷ rest
      → commit_tool_result_with_usage w s id result.output result.child_usage
        ≡ elim (expect_effect s id false) [
          | err e ↦ (s, err e)
          | ok _ ↦ (
            settle_tool w s call rest result.output result.child_usage
                (delegation_budget_for s call),
            ok tt,
          )
        ]
  unfolding commit_tool_result_with_usage
  tool_known s id result call rest e =
      ap
        (λ (pending : List (ModelToolCall V)).
          elim (expect_effect s id false) as (λ _. Transition V) [
            | err e ↦ (s, err e)
            | ok _ ↦ elim pending as (λ _. Transition V) [
              | [] ↦ (s, err (unexpected_effect id none))
              | call ∷ rest ↦ (
                settle_tool w s call rest result.output result.child_usage
                    (first_reservation s pending),
                ok tt,
              )
            ]
          ])
        e

  tool_later :
      (s : AgentRunState V) (id : Text) (output : V) (child : Option RunUsage)
      (pending : List (ModelToolCall V))
      → s.pending_tools ≡ pending
      → commit_tool_result_with_usage w (record_elapsed s elapsed) id output child
        ≡ later (commit_tool_result_with_usage w s id output child)
  unfolding commit_tool_result_with_usage record_elapsed
  tool_later s id output child [] e = ground (arith, expected_later s id false)
  tool_later s id output child (c ∷ cs) e =
      let result : ToolEffectResult V = record {
        output = output;
        attempts = 0;
        child_usage = child;
      } in
      unfold delegation_budget_for in
      ground (
        arith,
        tool_known s id result c cs e,
        tool_known (record_elapsed s elapsed) id result c cs e,
        expected_later s id false,
        settled s c cs result (delegation_budget_for s c),
      )

  batch_commit_later :
      (s : AgentRunState V) (id : Text) (outputs : List (ToolEffectResult V))
      → commit_tool_batch w (record_elapsed s elapsed) id outputs
        ≡ later (commit_tool_batch w s id outputs)
  unfolding commit_tool_batch
  batch_commit_later s id outputs = ground (
    arith,
    batch_later s id (length outputs),
    next_effect-record_elapsed s,
    outputs_later id s s.pending_tools (zip outputs (batch_reservations (next_effect s))) refl,
  )

  -- Time may be added before a completion or after it: the run is left in the same state with the same
  -- answer, whatever the completion and whether or not it is accepted.
  pub commit_effect-record_elapsed :
      (s : AgentRunState V) (id : Text) (outcome : AgentEffectOutcome V)
      → commit_effect w (record_elapsed s elapsed) id outcome ≡ later (commit_effect w s id outcome)
  unfolding commit_effect
  commit_effect-record_elapsed s id (AgentEffectOutcome.provider response attempts) =
      unfold commit_provider_response_with_attempts in provider_later s id response attempts
  commit_effect-record_elapsed s id (AgentEffectOutcome.provider_failed error attempts) =
      unfold commit_provider_failure in
      ground (
        arith,
        expected_later s id true,
        counted_later s attempts error.usage,
        failed_later (count_provider_effect w s attempts error.usage) error.message,
      )
  commit_effect-record_elapsed s id (AgentEffectOutcome.provider_budget_exhausted tokens) =
      exhausted_later s id
  commit_effect-record_elapsed s id (AgentEffectOutcome.tool output attempts child) =
      tool_later s id output child s.pending_tools refl
  commit_effect-record_elapsed s id (AgentEffectOutcome.tool_batch outputs) =
      batch_commit_later s id outputs
