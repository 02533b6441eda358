-- ===== src/State/Frame.antt =====
-- crates/agentive/src/state/commits.rs: what a completion changes and what it leaves alone.
use agentive.Base.{
  Text, ◌≡◌, ◌≤◌, ◌+◌, refl, max, List, [], ◌∷◌, ◌++◌, map, Option, none, some, sat_add, u32_max,
  u64_max, ℕ, arith,
}
use mathlib.Core.List.{append-nil}
use agentive.Message
use agentive.Message.Types.{Message}
use agentive.Model.{ModelToolCall, ModelTokenUsage}
use agentive.Usage.{RunUsage}
use agentive.State.Types.{RunStatus, AgentRunState, DelegationBudget, ProviderAttempt}
use agentive.State.Effects.{Wire, next_model_token_reservation}
use agentive.State.Commits.{
  provider_call_count, attempt_reservation, count_provider_effect, settle_response, settle_tool,
  to_tool_call,
}

-- What no completion changes.
pub record Keeps {V : Type 0} (s t : AgentRunState V) : Type 0 where
  pub run_id : t.run_id ≡ s.run_id
  pub plan : t.plan ≡ s.plan
  pub budget : t.budget ≡ s.budget
  pub elapsed_ms : t.elapsed_ms ≡ s.elapsed_ms

abbrev pub reserved_calls : Option DelegationBudget → ℕ
reserved_calls none = 0
reserved_calls (some budget) = budget.model_call_limit

abbrev pub reserved_tokens_of : Option DelegationBudget → ℕ
reserved_tokens_of none = 0
reserved_tokens_of (some budget) = elim budget.token_limit [ none ↦ 0 | some tokens ↦ tokens ]

-- Also an effect that reports no attempt counts as one call.
pub provider_call_count-pos : (attempts : List ProviderAttempt) → 1 ≤ provider_call_count attempts
unfolding provider_call_count
provider_call_count-pos attempts = omega arith

module _ {V : Type 0} where
  -- What the counters of a provider effect leave as it is, and where they end.
  pub record Counted (w : Wire V) (s t : AgentRunState V) (attempts : List ProviderAttempt)
      : Type 0 where
    pub keeps : Keeps s t
    pub history : t.history ≡ s.history
    pub pending_tools : t.pending_tools ≡ s.pending_tools
    pub status : t.status ≡ s.status
    pub text : t.text ≡ s.text
    pub model_calls : t.model_calls ≡ sat_add u32_max s.model_calls 1
    pub started :
        t.provider_calls_started
        ≡ sat_add u32_max
            (max s.provider_calls_started s.model_calls)
            (provider_call_count attempts)
    pub children : t.reserved_child_model_calls ≡ s.reserved_child_model_calls
    pub tokens :
        t.reserved_tokens ≡ sat_add u64_max s.reserved_tokens (attempt_reservation w s attempts)

  pub count_provider_effect-Counted :
      (w : Wire V) (s : AgentRunState V) (attempts : List ProviderAttempt)
      (usage : Option ModelTokenUsage)
      → Counted w s (count_provider_effect w s attempts usage) attempts
  unfolding count_provider_effect
  count_provider_effect-Counted w s [] usage = ground arith
  count_provider_effect-Counted w s (a ∷ rest) usage = ground arith

  -- The messages and the status that a response leads to.
  abbrev pub response_messages : List (ModelToolCall V) → Option Text → List (Message V)
  response_messages (call ∷ rest) text =
      Message.assistant_tool_calls (map to_tool_call (call ∷ rest)) ∷ []
  response_messages [] (some text) = Message.assistant_text text ∷ []
  response_messages [] none = []

  abbrev pub response_status : List (ModelToolCall V) → Option Text → RunStatus
  response_status (call ∷ rest) text = RunStatus.running
  response_status [] (some text) = RunStatus.completed
  response_status [] none = RunStatus.incomplete

  -- The text that a run has after a response: its final text, if that is what the response is.
  abbrev pub response_text : Option Text → List (ModelToolCall V) → Option Text → Option Text
  response_text before [] (some text) = some text
  response_text before _ _ = before

  pub record Responded (w : Wire V) (s t : AgentRunState V) (calls : List (ModelToolCall V))
      (text : Option Text) (attempts : List ProviderAttempt) : Type 0 where
    pub keeps : Keeps s t
    pub history : t.history ≡ s.history ++ response_messages calls text
    pub pending_tools : s.pending_tools ≡ [] → t.pending_tools ≡ calls
    pub status : t.status ≡ response_status calls text
    pub final_text : t.text ≡ response_text s.text calls text
    pub model_calls : t.model_calls ≡ sat_add u32_max s.model_calls 1
    pub started :
        t.provider_calls_started
        ≡ sat_add u32_max
            (max s.provider_calls_started s.model_calls)
            (provider_call_count attempts)
    pub children : t.reserved_child_model_calls ≡ s.reserved_child_model_calls
    pub tokens :
        t.reserved_tokens ≡ sat_add u64_max s.reserved_tokens (attempt_reservation w s attempts)

  attempt_reservation-status :
      (w : Wire V) (s : AgentRunState V) (status : RunStatus) (attempts : List ProviderAttempt)
      → attempt_reservation w (record s { status = status }) attempts
        ≡ attempt_reservation w s attempts
  unfolding attempt_reservation next_model_token_reservation
  attempt_reservation-status w s status attempts = refl

  settle-Responded :
      (w : Wire V) (s : AgentRunState V) (u : AgentRunState V) (calls : List (ModelToolCall V))
      (text : Option Text) (attempts : List ProviderAttempt)
      → Counted w (record s { status = RunStatus.running }) u attempts
      → Responded w s (settle_response u calls text) calls text attempts
  unfolding settle_response
  settle-Responded w s u (call ∷ rest) text attempts c =
      ground (arith, attempt_reservation-status w s RunStatus.running attempts)
  settle-Responded w s u [] (some text) attempts c =
      ground (arith, attempt_reservation-status w s RunStatus.running attempts)
  settle-Responded w s u [] none attempts c =
      ground
        (arith, attempt_reservation-status w s RunStatus.running attempts, append-nil s.history)

  pub respond-Responded :
      (w : Wire V) (s : AgentRunState V) (calls : List (ModelToolCall V)) (text : Option Text)
      (attempts : List ProviderAttempt) (usage : Option ModelTokenUsage)
      → Responded w s
          (settle_response
            (count_provider_effect w (record s { status = RunStatus.running }) attempts usage)
            calls
            text)
          calls
          text
          attempts
  respond-Responded w s calls text attempts usage =
      settle-Responded w s _ calls text attempts
        (count_provider_effect-Counted w (record s { status = RunStatus.running }) attempts usage)

  -- What the completion of one tool call changes, `call` being the first that is pending.
  pub record Settled (w : Wire V) (s t : AgentRunState V) (call : ModelToolCall V)
      (rest : List (ModelToolCall V)) (output : V) (reservation : Option DelegationBudget)
      : Type 0 where
    pub keeps : Keeps s t
    pub history :
        t.history ≡ s.history ++ Message.tool_result w.json call.call_id call.name output ∷ []
    pub pending_tools : t.pending_tools ≡ rest
    pub status : t.status ≡ s.status
    pub text : t.text ≡ s.text
    pub model_calls : t.model_calls ≡ s.model_calls
    pub started : t.provider_calls_started ≡ s.provider_calls_started
    pub children :
        t.reserved_child_model_calls ≤ s.reserved_child_model_calls + reserved_calls reservation
    pub tokens : t.reserved_tokens ≤ s.reserved_tokens + reserved_tokens_of reservation

  pub settle_tool-Settled :
      (w : Wire V) (s : AgentRunState V) (call : ModelToolCall V) (rest : List (ModelToolCall V))
      (output : V) (child_usage : Option RunUsage) (reservation : Option DelegationBudget)
      → Settled w s
          (settle_tool w s call rest output child_usage reservation)
          call
          rest
          output
          reservation
  unfolding settle_tool
  settle_tool-Settled w s call rest output child_usage none = ground arith
  settle_tool-Settled w s call rest output child_usage (some reservation) = ground arith
