-- ===== src/Driver/Ends.antt =====
-- crates/agentive/src/run/local.rs and run/agent.rs: whether a run ends, and how.
use mathlib.Core.WellFounded.{Acc}
use agentive.Base.{
  by_test, Text, ◌≡◌, refl, sym, ap, subst, all, length, ◌∷◌, if◌then◌else◌, ℕ, suc, inl, inr, List,
  [], Option, none, some, Result, ok, err, arith,
}
use agentive.Errors.{RunError}
use agentive.State.Types.{RunStatus, AgentRunState}
use agentive.State.Effects.{Wire, is_live, with_plan}
use agentive.State.Termination.{Turn, After, run_ends}
use agentive.Agent.{Agent, RunOptions, prepare_state, compile_messages}
use agentive.Agent.Prepared.{IsSized, Prepares, prepared, prepared_bytes}
use agentive.Driver.{RunRecord, RunResult, Shared, Environment, Step, goes_on, returns, announce}
use agentive.Driver.Rounds.{
  round, run_loop, execute_run, start, run_with_options, settle_status, new_shared,
}
use agentive.Driver.Bus.{Observer, Waited, takes, send_all, send_all-takes}
use agentive.Driver.Announced.{AreQuiet, announced-last}
use agentive.Driver.Sound.{Agrees, IsOpen, IsTold, Ending, SoundRound, round-Sound}

module _ {V : Type 0} (w : Wire V) (env : Environment V) (agent : Agent V) (options : RunOptions V)
    (quiet : (n : ℕ) → AreQuiet (env.observed n)) where
  abbrev run_from :
      ℕ
      → ℕ
      → AgentRunState V
      → List (RunRecord V)
      → Shared V
      → Option (Result RunError (RunResult V) × Shared V)
  run_from fuel n s records shared = run_loop w env agent options fuel n s records shared

  -- The loop returns, and the handle goes together with the result.
  record LoopEnds (n : ℕ) (s : AgentRunState V) (records : List (RunRecord V)) (shared : Shared V)
      : Type 0 where
    fuel : ℕ
    result : Result RunError (RunResult V)
    final : Shared V
    returned : run_from fuel n s records shared ≡ some (result, final)
    ending : Ending result final.status
    told : IsTold final

  loop_on :
      (n : ℕ) (s : AgentRunState V) (records : List (RunRecord V)) (shared : Shared V)
      (step : Option (Step V))
      → round w env agent options n s records shared ≡ step
      → SoundRound w s step
      → ((t : AgentRunState V) (more : List (RunRecord V)) (now : Shared V)
          → Turn w s t
          → IsOpen t now
          → LoopEnds (suc n) t more now)
      → LoopEnds n s records shared
  unfolding run_loop
  loop_on n s records shared none e sound later = absurd sound
  loop_on n s records shared (some (returns result final)) e (ending, told) later = record {
    fuel = 1;
    result = result;
    final = final;
    returned = rw (run_loop, e) refl;
    ending = ending;
    told = told;
  }
  loop_on n s records shared (some (goes_on t more now)) e (turn, runs) later =
      let rest = later t more now turn runs in
      record {
        fuel = suc rest.fuel;
        result = rest.result;
        final = rest.final;
        returned = rw (run_loop, e) rest.returned;
        ending = rest.ending;
        told = rest.told;
      }

  loop_ends :
      (n : ℕ) (s : AgentRunState V) (records : List (RunRecord V)) (shared : Shared V)
      → Acc (After w) s
      → IsOpen s shared
      → LoopEnds n s records shared
  loop_ends n s records shared (Acc.intro _ after) runs =
      loop_on n s records shared _ refl
        (round-Sound w env agent options s shared runs n records (quiet n))
        (λ t more now turn still. loop_ends (suc n) t more now (after t turn) still)

  -- What the handle shows at the end, beside the result.
  abbrev pub Shows : Result RunError (RunResult V) → RunStatus → Type 0
  Shows (ok result) shown = Agrees result.status shown
  Shows (err e) shown = shown ≡ RunStatus.failed

  -- The run as it is when every event is sent.
  record FullRun (run_id user_message : Text) : Type 0 where
    fuel : ℕ
    result : Result RunError (RunResult V)
    before : Shared V
    executed :
        execute_run w env agent options fuel run_id user_message (new_shared w env agent options)
        ≡ some (result, before)
    shows : Shows result (settle_status w env agent options result before).status
    told : IsTold (settle_status w env agent options result before)

  -- The run ends, if every observer takes all its events but those that fit a channel; the observers
  -- were then last told what the handle shows. Otherwise the run stands still.
  pub record RunEnds (run_id user_message : Text) (observers : List Observer) : Type 0 where
    pub fuel : ℕ
    pub result : Result RunError (RunResult V)
    pub final : Shared V
    pub returned :
        start w env agent options fuel run_id user_message observers
        ≡ some (
            if all (takes (length final.events)) observers
            then Waited.ended result final
            else Waited.stuck (send_all observers 0 final.events).0)
    pub shows : Shows result final.status
    pub told : IsTold final

  abbrev Settled : Result RunError (RunResult V) → Shared V → Type 0
  Settled result final =
      Shows result (settle_status w env agent options result final).status
      × IsTold (settle_status w env agent options result final)

  settled :
      (result : Result RunError (RunResult V)) (final : Shared V)
      → Ending result final.status
      → IsTold final
      → Settled result final
  unfolding settle_status
  settled (ok result) final agrees told = (agrees, told)
  settled (err e) final (inl failed) told =
      by_test (λ (shared : Shared V). (shared.status ≡ RunStatus.failed) × IsTold shared)
        (is_live final.status) (refl, announced-last final.events RunStatus.failed) (failed, told)
  settled (err e) final (inr running) told =
      rw (settle_status, running) (refl, announced-last final.events RunStatus.failed)

  first-IsOpen :
      (run_id : Text) (history : _) (s : AgentRunState V)
      → IsSized agent options
      → Prepares w.json agent run_id history options s
      → IsOpen s (announce (new_shared w env agent options) RunStatus.running)
  unfolding with_plan
  first-IsOpen run_id history s sized p =
      subst (λ u. IsOpen u (announce (new_shared w env agent options) RunStatus.running))
        (sym p.made)
        (record {
          bytes = prepared_bytes agent options sized;
          width = omega arith;
          no_text = refl;
          status = inl refl;
          shown = refl;
          told = announced-last [] RunStatus.running;
        })

  prepared_ends :
      (run_id user_message : Text) (first : Result RunError (AgentRunState V))
      → prepare_state w.json agent run_id (compile_messages options user_message) options ≡ first
      → IsSized agent options
      → FullRun run_id user_message
  unfolding execute_run settle_status
  prepared_ends run_id user_message (err e) h sized = record {
    fuel = 0;
    result = err e;
    before = new_shared w env agent options;
    executed = rw (execute_run, h) refl;
    shows = refl;
    told = announced-last [] RunStatus.failed;
  }
  prepared_ends run_id user_message (ok s) h sized =
      let runs =
        first-IsOpen run_id _ s sized (prepared w.json agent run_id _ options s _ refl h) in
      let loop = loop_ends 0 s [] _ (run_ends w s runs.width) runs in
      let (shows, told) = settled loop.result loop.final loop.ending loop.told in
      record {
        fuel = loop.fuel;
        result = loop.result;
        before = loop.final;
        executed = rw (execute_run, h, loop.returned) refl;
        shows = shows;
        told = told;
      }

  -- Whatever the provider, the tools, child runs, the clock and cancellations do, a local run without a
  -- parent ends, with enough fuel for its rounds, if every observer drops its receiver or takes all
  -- events that are sent after it has joined but the last 256; otherwise it stands still at an event
  -- that is never sent. When it ends, the observers were last told the status that the handle shows. It
  -- is failed if the run ended in an error; otherwise it is the result's, unless the run ended because a
  -- budget left no room for a call, when it may still be running, or was over when a cancellation or
  -- the deadline was noticed, when it is cancelled. The numbers have the widths of the source, effects
  -- come to an end, and no status of the run itself is among the events of its effects.
  pub start_ends :
      (run_id user_message : Text) (observers : List Observer)
      → IsSized agent options
      → RunEnds run_id user_message observers
  unfolding start
  start_ends run_id user_message observers sized =
      let whole = prepared_ends run_id user_message _ refl sized in
      let final = settle_status w env agent options whole.result whole.before in
      record {
        fuel = whole.fuel;
        result = whole.result;
        final = final;
        returned =
            rw (start, whole.executed)
              (ap
                (λ through. some (
                  if through
                  then Waited.ended whole.result final
                  else Waited.stuck (send_all observers 0 final.events).0))
                (send_all-takes observers final.events));
        shows = whole.shows;
        told = whole.told;
      }

  -- How `run_with_options` ends.
  pub record RunAnswers (run_id user_message : Text) : Type 0 where
    pub fuel : ℕ
    pub result : Result RunError (RunResult V)
    pub final : Shared V
    pub returned :
        run_with_options w env agent options fuel run_id user_message
        ≡ some (Waited.ended result final)
    pub shows : Shows result final.status

  -- `run` and `run_with_options`, which drop the attached receiver, always end, with enough fuel for the
  -- rounds, whatever the provider, the tools, child runs, the clock and cancellations do, and however
  -- many events there are; the status goes together with the result as it does for `start`. The numbers
  -- have the widths of the source, effects come to an end, and no status of the run itself is among
  -- the events of its effects.
  pub run_answers :
      (run_id user_message : Text) → IsSized agent options → RunAnswers run_id user_message
  unfolding run_with_options
  run_answers run_id user_message sized =
      let ends = start_ends run_id user_message (Observer.dropped ∷ []) sized in
      record {
        fuel = ends.fuel;
        result = ends.result;
        final = ends.final;
        returned = ends.returned;
        shows = ends.shows;
      }
