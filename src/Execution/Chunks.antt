-- ===== src/Execution/Chunks.antt =====
-- crates/agentive/src/run/effects.rs: a batch of tool calls, and its calls one by one.
use agentive.Base.{
  Text, ◌≡◌, ◌↔◌, refl, sym, ap, suc, subst, ℕ, List, [], ◌∷◌, ◌++◌, map, Option, none, some,
  Result, ok, err, length, arith, max,
}
use agentive.Errors.{RunError}
use agentive.Agent.{Agent}
use agentive.State.Types.{
  AgentRunState, AgentRunEffect, AgentEffectOutcome, ToolEffectCall, ToolEffectResult,
}
use agentive.State.Effects.{Wire}
use agentive.Execution.{
  Boundary, Answer, chunks_from, chunks, all_answers, execute_call, collect_results, execute_chunk,
  execute_chunks, perform, batch_outcome,
}

abbrev pub concat {ℓ} : {A : Type ℓ} → List (List A) → List A
concat [] = []
concat (xs ∷ more) = xs ++ concat more

append_assoc : {A : Type 0} (xs ys zs : List A) → (xs ++ ys) ++ zs ≡ xs ++ (ys ++ zs)
append_assoc [] ys zs = refl
append_assoc (x ∷ xs) ys zs = ap (◌∷◌ x) (append_assoc xs ys zs)

-- The chunks are the entries, in order.
pub concat-chunks_from :
    {A : Type 0} (n : ℕ) (acc xs : List A) → concat (chunks_from n acc xs) ≡ acc ++ xs
concat-chunks_from n [] [] = refl
concat-chunks_from n (a ∷ more) [] = ground (arith)
concat-chunks_from n acc (x ∷ xs) =
    let full = concat-chunks_from n (x ∷ []) xs in
    let more = concat-chunks_from n (acc ++ x ∷ []) xs in
    ground (arith, append_assoc acc (x ∷ []) xs)

abbrev pub tool_outcome : {V : Type 0} → ToolEffectResult V → AgentEffectOutcome V
tool_outcome r = AgentEffectOutcome.tool r.output r.attempts r.child_usage

module _ {V : Type 0} where
  results-ok :
      (outcomes : List (AgentEffectOutcome V)) (results : List (ToolEffectResult V))
      → collect_results outcomes ≡ ok results
      → outcomes ≡ map tool_outcome results
  unfolding collect_results
  results-ok [] results h = ground arith
  results-ok (AgentEffectOutcome.tool output attempts child ∷ rest) [] h = ground arith
  results-ok (AgentEffectOutcome.tool output attempts child ∷ rest) (r ∷ rs) h =
      ground (arith, results-ok rest rs)
  results-ok (AgentEffectOutcome.provider _ _ ∷ rest) results h = ground arith
  results-ok (AgentEffectOutcome.provider_failed _ _ ∷ rest) results h = ground arith
  results-ok (AgentEffectOutcome.provider_budget_exhausted _ ∷ rest) results h = ground arith
  results-ok (AgentEffectOutcome.tool_batch _ ∷ rest) results h = ground arith

  results-map :
      (results : List (ToolEffectResult V))
      → collect_results (map tool_outcome results) ≡ ok results
  unfolding collect_results
  results-map [] = refl
  results-map (r ∷ rs) = rw (results-map rs) refl

module _ {V : Type 0} (w : Wire V) (agent : Agent V) (b : Boundary V) (fuel : ℕ)
    (s : AgentRunState V) where
  -- Each call, run by itself, gives the result at its place.
  abbrev pub Yields : List (ToolEffectCall V) → List (ToolEffectResult V) → Type 0
  Yields [] [] = Unit
  Yields (c ∷ cs) (r ∷ rs) =
      (execute_call w agent b fuel s c ≡ some (ok (tool_outcome r))) × Yields cs rs
  Yields _ _ = ⊥

  abbrev joined : List (ToolEffectResult V) → Option (List (Result RunError (AgentEffectOutcome V)))
  joined results = some (map ok (map tool_outcome results))

  pub Yields-length :
      (calls : List (ToolEffectCall V)) (results : List (ToolEffectResult V))
      → Yields calls results
      → length results ≡ length calls
  Yields-length [] [] y = refl
  Yields-length [] (r ∷ rs) y = absurd y
  Yields-length (c ∷ cs) [] y = absurd y
  Yields-length (c ∷ cs) (r ∷ rs) (y, ys) = ap suc (Yields-length cs rs ys)

  answers-Yields :
      (calls : List (ToolEffectCall V)) (results : List (ToolEffectResult V))
      → all_answers (map (execute_call w agent b fuel s) calls) ≡ joined results
      → Yields calls results
  unfolding all_answers
  answers-Yields [] [] h = tt
  answers-Yields [] (r ∷ rs) h = ground arith
  answers-Yields (c ∷ cs) [] h = ground arith
  answers-Yields (c ∷ cs) (r ∷ rs) h = ground (arith, answers-Yields cs rs)

  Yields-answers :
      (calls : List (ToolEffectCall V)) (results : List (ToolEffectResult V))
      → Yields calls results
      → all_answers (map (execute_call w agent b fuel s) calls) ≡ joined results
  unfolding all_answers
  Yields-answers [] [] y = refl
  Yields-answers [] (r ∷ rs) y = absurd y
  Yields-answers (c ∷ cs) [] y = absurd y
  Yields-answers (c ∷ cs) (r ∷ rs) (y, ys) = rw (y, Yields-answers cs rs ys) refl

  chunk-Yields :
      (calls : List (ToolEffectCall V)) (results : List (ToolEffectResult V))
      (answers : Option (List (Result RunError (AgentEffectOutcome V))))
      → all_answers (map (execute_call w agent b fuel s) calls) ≡ answers
      → execute_chunk w agent b fuel s calls ≡ some (ok results)
      → Yields calls results
  unfolding execute_chunk
  chunk-Yields calls results none e h = absurd (ground (arith, rw (execute_chunk, e) at h))
  chunk-Yields calls results (some answers) e h = joined-Yields _ refl
    where
      joined-Yields :
          (outcomes : Result RunError (List (AgentEffectOutcome V)))
          → b.join.try_join_all answers ≡ outcomes
          → Yields calls results
      joined-Yields (err x) f = absurd (ground (arith, rw (execute_chunk, e, f) at h))
      joined-Yields (ok outcomes) f =
          let collected : collect_results outcomes ≡ ok results =
            ground (arith, rw (execute_chunk, e, f) at h) in
          answers-Yields calls results (
            ground (arith, b.join.values answers outcomes f, results-ok outcomes results collected))

  Yields-chunk :
      (calls : List (ToolEffectCall V)) (results : List (ToolEffectResult V))
      → Yields calls results
      → execute_chunk w agent b fuel s calls ≡ some (ok results)
  unfolding execute_chunk
  Yields-chunk calls results y =
      rw
        (
          execute_chunk,
          Yields-answers calls results y,
          b.join.succeeds (map tool_outcome results),
          results-map results,
        )
        refl

  Yields-append :
      (xs ys : List (ToolEffectCall V)) (rs ts : List (ToolEffectResult V))
      → Yields xs rs
      → Yields ys ts
      → Yields (xs ++ ys) (rs ++ ts)
  Yields-append [] ys [] ts y z = z
  Yields-append [] ys (r ∷ rs) ts y z = absurd y
  Yields-append (x ∷ xs) ys [] ts y z = absurd y
  Yields-append (x ∷ xs) ys (r ∷ rs) ts (y, more) z = (y, Yields-append xs ys rs ts more z)

  abbrev Splits :
      List (ToolEffectCall V) → List (ToolEffectCall V) → List (ToolEffectResult V) → Type 0
  Splits xs ys rs =
      (front : List (ToolEffectResult V)) × (back : List (ToolEffectResult V)) × (rs
        ≡ front ++ back)
      × Yields xs front
      × Yields ys back

  Yields-split :
      (xs ys : List (ToolEffectCall V)) (rs : List (ToolEffectResult V))
      → Yields (xs ++ ys) rs
      → Splits xs ys rs
  Yields-split [] ys rs y = ([], rs, refl, tt, y)
  Yields-split (x ∷ xs) ys [] y = absurd y
  Yields-split (x ∷ xs) ys (r ∷ rs) (y, more) =
      let (front, back, e, yf, yb) = Yields-split xs ys rs more in
      (r ∷ front, back, ap (◌∷◌ r) e, (y, yf), yb)

  chunks-Yields :
      (parts : List (List (ToolEffectCall V))) (results : List (ToolEffectResult V))
      → execute_chunks w agent b fuel s parts ≡ some (ok results)
      → Yields (concat parts) results
  unfolding execute_chunks
  chunks-Yields [] results h = ground arith
  chunks-Yields (part ∷ rest) results h = parts-Yields _ _ refl refl (chunks-Yields rest)
    where
      parts-Yields :
          (one more : Answer (List (ToolEffectResult V)))
          → execute_chunk w agent b fuel s part ≡ one
          → execute_chunks w agent b fuel s rest ≡ more
          → ((ts : List (ToolEffectResult V))
              → execute_chunks w agent b fuel s rest ≡ some (ok ts)
              → Yields (concat rest) ts)
          → Yields (concat (part ∷ rest)) results
      parts-Yields none more e f later = absurd (ground (arith, rw (execute_chunks, e) at h))
      parts-Yields (some (err x)) more e f later =
          absurd (ground (arith, rw (execute_chunks, e) at h))
      parts-Yields (some (ok rs)) none e f later =
          absurd (ground (arith, rw (execute_chunks, e, f) at h))
      parts-Yields (some (ok rs)) (some (err x)) e f later =
          absurd (ground (arith, rw (execute_chunks, e, f) at h))
      parts-Yields (some (ok rs)) (some (ok ts)) e f later =
          let all : rs ++ ts ≡ results = ground (arith, rw (execute_chunks, e, f) at h) in
          subst (Yields (part ++ concat rest)) all
            (Yields-append part (concat rest) rs ts (chunk-Yields part rs _ refl e) (later ts f))

  Yields-chunks :
      (parts : List (List (ToolEffectCall V))) (results : List (ToolEffectResult V))
      → Yields (concat parts) results
      → execute_chunks w agent b fuel s parts ≡ some (ok results)
  unfolding execute_chunks
  Yields-chunks [] [] y = refl
  Yields-chunks [] (r ∷ rs) y = absurd y
  Yields-chunks (part ∷ rest) results y =
      let (front, back, e, yf, yb) = Yields-split part (concat rest) results y in
      rw (execute_chunks, Yields-chunk part front yf, Yields-chunks rest back yb, e) refl

  abbrev pub Singly : List (ToolEffectCall V) → AgentEffectOutcome V → Type 0
  Singly calls outcome =
      (results : List (ToolEffectResult V)) × (outcome ≡ AgentEffectOutcome.tool_batch results)
      × Yields calls results

  -- A batch of tool calls succeeds exactly when each of its calls succeeds by itself, and then its
  -- outcome has the calls' own results in the calls' order, whatever number of calls may run together.
  pub batch_one_by_one :
      (id : Text) (calls : List (ToolEffectCall V)) (outcome : AgentEffectOutcome V)
      → (perform w agent b fuel s (AgentRunEffect.tool_batch id calls) ≡ some (ok outcome))
        ↔ Singly calls outcome
  unfolding perform
  batch_one_by_one id calls outcome =
      let n : ℕ = max s.plan.max_parallel_tool_calls 1 in
      let whole : concat (chunks n calls) ≡ calls = concat-chunks_from n [] calls in
      (
        (λ h. parts-Singly n whole _ refl h),
        (λ (results, e, y).
            rw
              (
                Yields-chunks (chunks n calls) results
                    (subst (λ cs. Yields cs results) (sym whole) y),
                e,
              )
              refl),
      )
    where
      parts-Singly :
          (n : ℕ) (whole : concat (chunks n calls) ≡ calls)
          (made : Answer (List (ToolEffectResult V)))
          → execute_chunks w agent b fuel s (chunks n calls) ≡ made
          → batch_outcome (execute_chunks w agent b fuel s (chunks n calls)) ≡ some (ok outcome)
          → Singly calls outcome
      parts-Singly n whole none e h = absurd (ground (arith, e, h))
      parts-Singly n whole (some (err x)) e h = absurd (ground (arith, e, h))
      parts-Singly n whole (some (ok results)) e h = (
        results,
        ground (arith, rw e at h),
        subst (λ cs. Yields cs results) whole (chunks-Yields (chunks n calls) results e),
      )
