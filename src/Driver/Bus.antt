-- ===== src/Driver/Bus.antt =====
-- crates/agentive/src/run/handle.rs: how a run's events reach its observers. An observer has a channel
-- of 256 events; when that is full, the run waits. A run that is no child has no parent's bus.
use agentive.Base.{
  ◌≡◌, refl, ap, ◌∙◌, ℕ, suc, ◌+◌, ◌≤◌, Bool, true, false, List, [], ◌∷◌, all, length, leb, ltb,
  if◌then◌else◌, Result, arith,
}
use agentive.Errors.{RunError}
use agentive.Driver.{RunEvent, RunResult, Shared}

-- What an observer does while the run goes on: it takes so many in all of the events that are sent after
-- it has joined and keeps its receiver, or it drops its receiver some time, when sending to it no longer waits. The
-- receiver that `EventBus::new` attaches joins at 0; one that is never read takes none.
pub data Observer : Type 0 where
  receiving : (joined taken : ℕ) → Observer
  dropped : Observer

-- `mpsc::channel(256)`
abbrev pub capacity : ℕ
capacity = 256

-- Whether the sending of the event of this number, counted from 0, completes.
abbrev pub completes : ℕ → Observer → Bool
completes n (Observer.receiving joined taken) = ltb n (joined + taken + capacity)
completes n Observer.dropped = true

-- `EventBus::emit` of one event after the other, with the number of the first: the events that are
-- sent before one whose sending never completes, and whether all are.
unfoldable pub send_all :
    {V : Type 0} → List Observer → ℕ → List (RunEvent V) → List (RunEvent V) × Bool
send_all observers n [] = ([], true)
send_all observers n (event ∷ events) =
    let (sent, through) = send_all observers (suc n) events in
    if all (completes n) observers then (event ∷ sent, through) else ([], false)

-- What becomes of a run for one who waits for its result: the run ends, or it stands still for ever
-- at an event after those that were sent.
pub data Waited (V : Type 0) : Type 0 where
  ended : Result RunError (RunResult V) → Shared V → Waited V
  stuck : (sent : List (RunEvent V)) → Waited V

-- A run of which an observer takes all events but those that fit its channel.
abbrev pub takes : ℕ → Observer → Bool
takes total (Observer.receiving joined taken) = leb total (joined + taken + capacity)
takes total Observer.dropped = true

one_more : (n : ℕ) (observer : Observer) → completes n observer ≡ takes (suc n) observer
one_more n (Observer.receiving joined taken) = ground arith
one_more n Observer.dropped = refl

all_more :
    (n : ℕ) (observers : List Observer)
    → all (completes n) observers ≡ all (takes (suc n)) observers
all_more n [] = refl
all_more n (o ∷ os) = ground (arith, one_more n o, all_more n os)

fewer_taken :
    (n m : ℕ) (observer : Observer) → n ≤ m → takes m observer ≡ true → takes n observer ≡ true
fewer_taken n m (Observer.receiving joined taken) l h = ground (arith, h)
fewer_taken n m Observer.dropped l h = refl

fewer_all :
    (n m : ℕ) (observers : List Observer)
    → n ≤ m
    → all (takes m) observers ≡ true
    → all (takes n) observers ≡ true
fewer_all n m [] l h = refl
fewer_all n m (o ∷ os) l h = ground (arith, fewer_taken n m o l, fewer_all n m os l)

none_taken : (os : List Observer) → all (takes 0) os ≡ true
none_taken [] = refl
none_taken (Observer.receiving joined taken ∷ os) = ground (arith, none_taken os)
none_taken (Observer.dropped ∷ os) = none_taken os

module _ {V : Type 0} (observers : List Observer) where
  sent_from :
      (n : ℕ) (events : List (RunEvent V)) (now : Bool)
      → all (takes n) observers ≡ true
      → all (completes n) observers ≡ now
      → (send_all observers n events).1 ≡ all (takes (n + length events)) observers
  unfolding send_all
  sent_from n [] now h e = ground (arith, h)
  sent_from n (event ∷ events) true h e =
      rw e
        (ground (arith, sent_from (suc n) events _ (ground (arith, e, all_more n observers)) refl))
  sent_from n (event ∷ events) false h e = rw e (
      ground
        (arith, e, all_more n observers, fewer_all (suc n) (n + length (event ∷ events)) observers))

  -- All events are sent if every observer takes all of them but those that fit its channel.
  pub send_all-takes :
      (events : List (RunEvent V))
      → (send_all observers 0 events).1 ≡ all (takes (length events)) observers
  send_all-takes events =
      sent_from 0 events _ (none_taken observers) refl
      ∙ ap (λ total. all (takes total) observers) (omega arith)
