-- ===== src/History/Steps.antt =====
-- crates/agentive/src/run/validation.rs: which messages the check of a history accepts.
use mathlib.Core.List.{append_assoc, append-nil}
use agentive.Base.{
  Text, text_eq, text_eq_iff, text_eq_refl, is_blank, ◌≡◌, ◌≢◌, refl, sym, ap, bind-ok, Bool, ◌||◌,
  ◌∙◌, true, false, List, [], ◌∷◌, ◌++◌, map, any, All, ok, ◌>>=◌, arith, inl, inr, Result-cases,
}
use agentive.Ids.{ToolName}
use agentive.Json.{Json, IsLawful}
use agentive.Message
use agentive.Message.Types.{Message}
use agentive.Model.{ModelToolCall}
use agentive.State.Once.{DistinctCalls}
use agentive.State.Commits.{to_tool_call}
use agentive.Response.Checked.{IsFreshCall}
use agentive.History.{Pending, accept_message, pending_history_calls, push_calls, is_bad_call}

-- The queue that pending calls make.
abbrev pub keys : {V : Type 0} → List (ModelToolCall V) → List Pending
keys calls = map (λ (c : ModelToolCall _). (c.call_id, c.name)) calls

module _ {V : Type 0} (j : Json V) where
  -- A message at the end is checked against the queue that the others leave.
  pub pending_history_calls-append :
      (queue : List Pending) (history : List (Message V)) (m : Message V)
      → pending_history_calls j queue (history ++ m ∷ [])
        ≡ (pending_history_calls j queue history >>= λ left. accept_message j m left)
  unfolding pending_history_calls
  pending_history_calls-append queue [] m = bind-ok (accept_message j m queue)
  pending_history_calls-append queue (x ∷ xs) m = elim (Result-cases (accept_message j x queue)) [
    | inl (e, bad) ↦ rw bad
    | inr (left, good) ↦ rw good (pending_history_calls-append left xs m)
  ]

  any-append :
      (p : Pending → Bool) (xs : List Pending) (y : Pending)
      → any p (xs ++ y ∷ []) ≡ (any p xs || p y)
  any-append p [] y = ground arith
  any-append p (x ∷ xs) y = ground (arith, any-append p xs y)

  abbrev IsNew : List Pending → ModelToolCall V → Type 0
  IsNew queue call = any (λ (p : Pending). text_eq p.0 call.call_id) queue ≡ false

  still-IsNew :
      (queue : List Pending) (first : ModelToolCall V) (calls : List (ModelToolCall V))
      → All (IsNew queue) calls
      → All (λ (c : ModelToolCall V). c.call_id ≢ first.call_id) calls
      → All (IsNew (queue ++ (first.call_id, first.name) ∷ [])) calls
  still-IsNew queue first [] n d = tt
  still-IsNew queue first (c ∷ cs) n d = (
    ground (
      arith,
      n.0,
      d.0,
      text_eq_iff first.call_id c.call_id,
      any-append (λ (p : Pending). text_eq p.0 c.call_id) queue (first.call_id, first.name),
    ),
    still-IsNew queue first cs n.1 d.1,
  )

  -- Distinct calls join the queue in order.
  push_calls_lem :
      (queue : List Pending) (calls : List (ModelToolCall V))
      → All (IsNew queue) calls
      → DistinctCalls calls
      → push_calls queue (map to_tool_call calls) ≡ ok (queue ++ keys calls)
  unfolding push_calls
  push_calls_lem queue [] n d = ap ok (sym (append-nil queue))
  push_calls_lem queue (c ∷ cs) n d = rw (n.0) (
      push_calls_lem (queue ++ (c.call_id, c.name) ∷ []) cs (still-IsNew queue c cs n.1 d.0) d.1
      ∙ ap ok (append_assoc queue ((c.call_id, c.name) ∷ []) (keys cs)))

  -- No call of the list is malformed.
  good_calls :
      (calls : List (ModelToolCall V))
      → All (IsFreshCall []) calls
      → All (λ (c : ModelToolCall V). j.is_object c.arguments ≡ true) calls
      → any (is_bad_call j) (map to_tool_call calls) ≡ false
  good_calls [] f o = refl
  good_calls (c ∷ cs) f o = ground (arith, good_calls cs f.1 o.1)

  none_pending : (calls : List (ModelToolCall V)) → All (IsNew []) calls
  none_pending [] = tt
  none_pending (c ∷ cs) = (refl, none_pending cs)

  -- A request of tool calls is accepted where none is unresolved, and queues its calls.
  pub accept-assistant_tool_calls :
      (call : ModelToolCall V) (rest : List (ModelToolCall V))
      → All (IsFreshCall []) (call ∷ rest)
      → All (λ (c : ModelToolCall V). j.is_object c.arguments ≡ true) (call ∷ rest)
      → DistinctCalls (call ∷ rest)
      → accept_message j (Message.assistant_tool_calls (map to_tool_call (call ∷ rest))) []
        ≡ ok (keys (call ∷ rest))
  unfolding accept_message Message.assistant_tool_calls
  accept-assistant_tool_calls c cs f o d =
      rw (good_calls (c ∷ cs) f o) (push_calls_lem [] (c ∷ cs) (none_pending (c ∷ cs)) d)

  -- A final text is accepted where no call is unresolved.
  pub accept-assistant_text :
      (text : Text) → accept_message j (Message.assistant_text text) [] ≡ ok []
  unfolding accept_message Message.assistant_text
  accept-assistant_text text = refl

  -- The result of the first unresolved call is accepted, and resolves it.
  pub accept-tool_result :
      (id : Text) (name : ToolName) (rest : List Pending) (output : V)
      → IsLawful j
      → is_blank id ≡ false
      → accept_message j (Message.tool_result j id name output) ((id, name) ∷ rest) ≡ ok rest
  unfolding accept_message Message.tool_result
  accept-tool_result id name rest output l b =
      ground (arith, (l.prints_json output).1, text_eq_refl id, text_eq_refl name)
