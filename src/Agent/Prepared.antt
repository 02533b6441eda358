-- ===== src/Agent/Prepared.antt =====
-- crates/agentive/src/run/agent.rs: the states that an agent prepares.
use agentive.Base.{
  Text, ◌≡◌, refl, sym, subst, clamp_to, ℕ, ◌≤◌, true, List, [], ◌∷◌, map, All, Option, none, some,
  Result, ok, err, u8_max, u32_max, u64_max, arith,
}
use agentive.Json.{Json}
use agentive.Message.Types.{Message, CompiledInstructions}
use agentive.Errors.{RunError}
use agentive.History.{validate_history, pending_history_calls}
use agentive.History.Canonical.{IsCanonical}
use agentive.State.Types.{RunStatus, AgentRunState, ToolRuntimePolicy}
use agentive.State.Effects.{Wire, with_plan}
use agentive.State.Budget.{InBudget, WithinTokens}
use agentive.Execution.Fits.{IsBytePlan}
use agentive.Agent.{
  Agent, RegisteredTool, RunOptions, Equality, runtime_policy, compiled_instructions, prepared_plan,
  prepare_state, validate_state_plan,
}

abbrev IsSizedLimit : Option ℕ → Type 0
IsSizedLimit none = Unit
IsSizedLimit (some limit) = limit ≤ u64_max

-- The numbers of an agent and of a run's options have the widths that they have in the source.
pub record IsSized {V : Type 0} (agent : Agent V) (options : RunOptions V) : Type 0 where
  pub attempts : options.provider_max_attempts ≤ u8_max
  pub routing : agent.provider.routing_attempts ≤ u8_max
  pub tools : All (λ (tool : RegisteredTool V). tool.max_attempts ≤ u8_max) agent.tools
  pub tokens : IsSizedLimit options.token_limit

-- `==` of instructions and of tool policies is reflexive.
pub record IsReflexive {V : Type 0} (eq : Equality V) : Type 0 where
  pub instructions : (i : CompiledInstructions) → eq.instructions_eq i i ≡ true
  pub tools : (ps : List (ToolRuntimePolicy V)) → eq.tools_eq ps ps ≡ true

fits_limit : (limit : Option ℕ) → IsSizedLimit limit → WithinTokens limit 0
fits_limit none sized = tt
fits_limit (some limit) sized = (omega arith, sized)

module _ {V : Type 0} where
  policies_bytes :
      (tools : List (RegisteredTool V))
      → All (λ (tool : RegisteredTool V). tool.max_attempts ≤ u8_max) tools
      → All (λ (p : ToolRuntimePolicy V). p.max_attempts ≤ u8_max) (map runtime_policy tools)
  unfolding runtime_policy
  policies_bytes [] all = tt
  policies_bytes (t ∷ ts) (b, all) = (b, policies_bytes ts all)

  -- The plan that an agent freezes has the widths of the source.
  pub prepared_bytes :
      (agent : Agent V) (options : RunOptions V)
      → IsSized agent options
      → IsBytePlan (prepared_plan agent options)
  unfolding prepared_plan
  prepared_bytes agent options sized = record {
    provider = omega (arith, sized.attempts, sized.routing);
    tools = policies_bytes agent.tools sized.tools;
  }

  -- What a prepared state is, when there is one.
  pub record Prepares (j : Json V) (agent : Agent V) (run_id : Text) (history : List (Message V))
      (options : RunOptions V) (s : AgentRunState V) : Type 0 where
    pub valid : validate_history j history ≡ ok tt
    pub made :
        s
        ≡ with_plan run_id history
            (record { model_call_limit = clamp_to u32_max options.model_call_limit })
            (prepared_plan agent options)

  pub prepared :
      (j : Json V) (agent : Agent V) (run_id : Text) (history : List (Message V))
      (options : RunOptions V) (s : AgentRunState V) (checked : Result RunError (Unit {0}))
      → validate_history j history ≡ checked
      → prepare_state j agent run_id history options ≡ ok s
      → Prepares j agent run_id history options s
  unfolding prepare_state
  prepared j agent run_id history options s (err e) v h = absurd (ground (arith, v, h))
  prepared j agent run_id history options s (ok _) v h = record {
    valid = v;
    made = ground (arith, v, h);
  }

  drained :
      (j : Json V) (history : List (Message V)) (pending : Result RunError _)
      → pending_history_calls j [] history ≡ pending
      → validate_history j history ≡ ok tt
      → pending_history_calls j [] history ≡ ok []
  unfolding validate_history
  drained j history (err e) p v = absurd (ground (arith, p, v))
  drained j history (ok []) p v = p
  drained j history (ok (c ∷ cs)) p v = absurd (ground (arith, p, v))

  -- A state that is ready for its first effect: canonical, within its budgets, of the source's widths,
  -- accepted by the check of the plan, with no text, and pending.
  pub record IsReady (w : Wire V) (eq : Equality V) (agent : Agent V) (s : AgentRunState V)
      : Type 0 where
    pub canonical : IsCanonical w s
    pub within : InBudget s
    pub bytes : IsBytePlan s.plan
    pub planned : validate_state_plan eq agent s ≡ ok tt
    pub no_text : s.text ≡ none
    pub status : s.status ≡ RunStatus.pending

  with_plan-IsReady :
      (w : Wire V) (eq : Equality V) (agent : Agent V) (run_id : Text) (history : List (Message V))
      (options : RunOptions V)
      → IsSized agent options
      → IsReflexive eq
      → validate_history w.json history ≡ ok tt
      → IsReady w eq agent (
          with_plan run_id history
            (record { model_call_limit = clamp_to u32_max options.model_call_limit })
            (prepared_plan agent options))
  unfolding with_plan prepared_plan validate_state_plan compiled_instructions
  with_plan-IsReady w eq agent run_id history options sized law valid = record {
    canonical = record { matches = drained w.json history _ refl valid; fresh = tt; distinct = tt };
    within = record {
      calls = omega arith;
      width = omega arith;
      tokens = fits_limit options.token_limit sized.tokens;
    };
    bytes = prepared_bytes agent options sized;
    planned = rw (law.instructions _, law.tools _) refl;
    no_text = refl;
    status = refl;
  }

  -- A state that an agent prepares is ready for its first effect: its history is canonical, its budgets
  -- are not overdrawn, its attempts fit a `u8`, the agent's own check accepts its plan, and it is
  -- pending, with no text. The options' numbers have the widths of the source, and `==` is reflexive.
  pub prepare_state-IsReady :
      (w : Wire V) (eq : Equality V) (agent : Agent V) (run_id : Text) (history : List (Message V))
      (options : RunOptions V) (s : AgentRunState V)
      → IsSized agent options
      → IsReflexive eq
      → prepare_state w.json agent run_id history options ≡ ok s
      → IsReady w eq agent s
  prepare_state-IsReady w eq agent run_id history options s sized law h =
      let p = prepared w.json agent run_id history options s _ refl h in
      subst (IsReady w eq agent) (sym p.made)
        (with_plan-IsReady w eq agent run_id history options sized law p.valid)
