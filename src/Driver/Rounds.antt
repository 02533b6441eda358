-- ===== src/Driver/Rounds.antt =====
-- crates/agentive/src/run/local.rs and run/agent.rs: the rounds of the loop, and the run around it.
use agentive.Base.{
  Text, ℕ, zero, suc, not, ◌&&◌, List, [], ◌∷◌, ◌++◌, Option, none, some, is_empty, if◌then◌else◌,
  u8_max, Result, ok, err,
}
use agentive.Errors.{RunError, provider_protocol, display}
use agentive.Usage
use agentive.History.{validate_history}
use agentive.State.Types.{RunStatus, AgentRunState, AgentRunEffect, AgentEffectOutcome}
use agentive.State.Effects.{
  Wire, is_live, next_effect, finish_if_exhausted, record_elapsed, is_exhausted,
}
use agentive.State.Commits.{effect_id, fail, commit_effect}
use agentive.Agent.{Agent, RunOptions, compile_messages, prepare_state}
use agentive.Execution.{execute_effect}
use agentive.Driver.Bus.{Observer, Waited, send_all}
use agentive.Driver.{
  RunRecord, RunResult, Shared, Environment, Step, goes_on, returns, emit, update_usage, announce,
  emit_started, emit_completed, finish_cancelled, finish_with_usage, record_round,
  is_provider_failure, is_provider_call, completed_result,
}

module _ {V : Type 0} (w : Wire V) where
  -- The history is validated once a tool effect leaves no call pending.
  unfoldable pub check_settled : AgentRunEffect V → AgentRunState V → Result RunError (Unit {0})
  check_settled effect s =
      if not (is_provider_call effect) && is_empty s.pending_tools
      then validate_history w.json s.history
      else ok tt

  -- How a run ends by an error of its effect.
  unfoldable pub stop_on_error : RunError → AgentRunState V → List (RunRecord V) → Shared V → Step V
  unfolding finish_cancelled
  stop_on_error RunError.cancelled s records shared = finish_cancelled s records shared
  stop_on_error e s records shared =
      returns (err e) (announce (update_usage shared (fail s (display e)).usage) RunStatus.failed)

module _ {V : Type 0} (w : Wire V) (env : Environment V) (agent : Agent V)
    (options : RunOptions V) where
  -- The round, once its outcome has been committed.
  unfoldable pub after_commit :
      ℕ
      → AgentRunEffect V
      → AgentEffectOutcome V
      → AgentRunState V
      → List (RunRecord V)
      → Shared V
      → Step V
  unfolding finish_cancelled finish_with_usage check_settled
  after_commit n effect outcome s records shared =
      let committed = update_usage shared s.usage in
      if is_provider_failure outcome
      then finish_with_usage s records (announce committed RunStatus.failed)
      else elim (check_settled w effect s) [
        | err e ↦ returns (err e) committed
        | ok _ ↦
            if is_exhausted options.deadline (env.run_ms n)
            then finish_cancelled s records committed
            else elim s.text [
              | none ↦ goes_on s records committed
              | some text ↦
                  returns (ok (completed_result s text records))
                    (update_usage (announce committed RunStatus.completed) s.usage)
            ]
      ]

  -- The round, once its effect has an outcome.
  unfoldable pub complete_round :
      ℕ
      → AgentRunEffect V
      → AgentEffectOutcome V
      → AgentRunState V
      → List (RunRecord V)
      → Shared V
      → Step V
  unfolding record_round emit_completed after_commit
  complete_round n effect outcome s records shared =
      let shared = emit shared (emit_completed env effect outcome) in
      elim (record_round (env.record_ms n) effect outcome) [
        | err e ↦ returns (err e) shared
        | ok more ↦
            let (t, answer) =
              commit_effect w (record_elapsed s (env.effect_ms n)) (effect_id effect) outcome in
            elim answer [
              | err e ↦ returns (err (provider_protocol (env.refusal e))) shared
              | ok _ ↦ after_commit n effect outcome t (records ++ more) shared
            ]
      ]

  -- The round of an effect; `none` means that its attempts ran out of fuel.
  unfoldable pub perform_round :
      ℕ → AgentRunEffect V → AgentRunState V → List (RunRecord V) → Shared V → Option (Step V)
  unfolding emit_started complete_round stop_on_error
  perform_round n effect s records shared =
      let shared = emit (emit shared (emit_started effect)) (env.observed n) in
      elim (execute_effect w agent (env.boundary n) u8_max s effect) [
        | none ↦ none
        | some (err e) ↦ some (stop_on_error w e s records shared)
        | some (ok outcome) ↦ some (complete_round n effect outcome s records shared)
      ]

  -- The body of the loop of `execute_run`.
  unfoldable pub round : ℕ → AgentRunState V → List (RunRecord V) → Shared V → Option (Step V)
  unfolding finish_cancelled finish_with_usage perform_round
  round n s records shared =
      if env.cancelled n
      then some (finish_cancelled s records shared)
      else let (t, ended) = finish_if_exhausted s in
        if ended
        then some (finish_with_usage t records (announce shared t.status))
        else elim (next_effect t) [
          | none ↦ some (finish_with_usage t records shared)
          | some effect ↦ perform_round n effect t records shared
        ]

  -- The loop of `execute_run`, from round `n` on; `none` means that the fuel ran out.
  unfoldable pub run_loop :
      ℕ
      → ℕ
      → AgentRunState V
      → List (RunRecord V)
      → Shared V
      → Option (Result RunError (RunResult V) × Shared V)
  unfolding round
  run_loop zero n s records shared = none
  run_loop (suc fuel) n s records shared = elim (round n s records shared) [
    | none ↦ none
    | some (returns result shared) ↦ some (result, shared)
    | some (goes_on t records shared) ↦ run_loop fuel (suc n) t records shared
  ]

  -- `execute_run`
  unfoldable pub execute_run :
      ℕ → Text → Text → Shared V → Option (Result RunError (RunResult V) × Shared V)
  unfolding run_loop
  execute_run fuel run_id user_message shared =
      elim (prepare_state w.json agent run_id (compile_messages options user_message) options) [
        | err e ↦ some (err e, shared)
        | ok s ↦ run_loop fuel 0 s [] (announce shared RunStatus.running)
      ]

  -- What a new handle shares.
  abbrev pub new_shared : Shared V
  new_shared = record { status = RunStatus.pending; events = []; usage = Usage.new }

  -- What the spawned task of `Agent::start_with_observer` adds to an error.
  unfoldable pub settle_status : Result RunError (RunResult V) → Shared V → Shared V
  settle_status (ok result) shared = shared
  settle_status (err e) shared =
      if is_live shared.status then announce shared RunStatus.failed else shared

  -- `Agent::start_with_observer` without a parent, up to the answer of `RunHandle::wait`. Nothing that a
  -- run does depends on whether an event has been sent, but that it goes on once it has been: so the
  -- events of the run are found first, and are then sent, as far as the observers let them through.
  unfoldable pub start : ℕ → Text → Text → List Observer → Option (Waited V)
  unfolding execute_run settle_status send_all
  start fuel run_id user_message observers =
      elim (execute_run fuel run_id user_message new_shared) [
        | none ↦ none
        | some (result, shared) ↦
            let final = settle_status result shared in
            let (sent, through) = send_all observers 0 final.events in
            some (if through then Waited.ended result final else Waited.stuck sent)
      ]

  -- `Agent::run_with_options`, which drops the attached receiver; there can be no other.
  unfoldable pub run_with_options : ℕ → Text → Text → Option (Waited V)
  unfolding start
  run_with_options fuel run_id user_message = start fuel run_id user_message (Observer.dropped ∷ [])
