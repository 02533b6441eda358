-- ===== src/Tests/Runs.antt =====
-- Runs of the state machine on concrete states.
use mathlib.Core.WellFounded.{Acc}
use agentive.Base.{
  Text, codes, decimal, ◌≡◌, ◌≢◌, refl, ◌⊎◌, [], ◌∷◌, none, some, ok, err, false, arith,
}
use agentive.State.Types.{AgentRunState, AgentEffectOutcome, unexpected_effect}
use agentive.State.Effects.{
  is_batchable, delegation_budget_for, divisor, next_effect, no_provider_budget, cancel,
  finish_if_exhausted,
}
use agentive.State.Commits.{
  commit_effect, provider_call_count, attempt_reservation, expected_id, fail,
}
use agentive.State.Asks.{AsksProvider, Refusal}
use agentive.State.Atomic.{Answers, commit_effect_atomic, answer_accepted}
use agentive.State.Once.{completed_once}
use agentive.State.Termination.{After, run_ends}
use agentive.State.Terminal.{Progress, progress, terminal_absorbing}
use agentive.State.Budget.{InBudget}
use agentive.State.Budget.Preserved.{commit_effect-InBudget}
use agentive.State.Budget.Remains.{tools_leave_budget}
use agentive.Tests.{wire, fresh, waiting, over, call, asking, attempt}

run_ends_example : Acc (After wire) fresh
run_ends_example = run_ends wire fresh (omega arith)

abbrev asked : AgentEffectOutcome Text
asked = AgentEffectOutcome.provider asking (attempt ∷ [])

commit_effect_atomic_example :
    (Answers fresh (codes "r:provider:0") asked
      × ((commit_effect wire fresh (codes "r:provider:0") asked).1 ≡ ok tt))
    ⊎ ((¬ Answers fresh (codes "r:provider:0") asked)
        × (commit_effect wire fresh (codes "r:provider:0") asked
            ≡ (fresh, Refusal fresh (codes "r:provider:0"))))
commit_effect_atomic_example = commit_effect_atomic wire fresh (codes "r:provider:0") asked

abbrev answered : AgentRunState Text
answered = (commit_effect wire fresh (codes "r:provider:0") asked).0

pub asks_provider : AsksProvider fresh (codes "r:provider:0")
unfolding decimal
asks_provider = record {
  live = refl;
  idle = refl;
  affordable = unfold no_provider_budget in refl;
  named = refl;
}

-- The provider's first answer is accepted.
accepts : commit_effect wire fresh (codes "r:provider:0") asked ≡ (answered, ok tt)
accepts = answer_accepted wire fresh (codes "r:provider:0") asked asks_provider

completed_once_example : expected_id (next_effect answered) ≢ some (codes "r:provider:0")
completed_once_example = completed_once wire fresh answered (codes "r:provider:0") asked tt accepts

pub fresh-InBudget : InBudget fresh
fresh-InBudget = record {
  calls = omega arith;
  width = omega arith;
  tokens = (omega arith, omega arith);
}

commit_effect-InBudget_example : InBudget answered
commit_effect-InBudget_example =
    commit_effect-InBudget wire fresh answered (codes "r:provider:0") asked (omega arith)
      (record {
        calls = unfold provider_call_count in omega arith;
        tokens = unfold attempt_reservation in (omega arith, omega arith);
      })
      accepts fresh-InBudget

-- The delegation returns what its child used.
abbrev found : AgentEffectOutcome Text
found = AgentEffectOutcome.tool (codes "{}") 1 none

abbrev resumed : AgentRunState Text
resumed = (commit_effect wire waiting (codes "r:tool:a") found).0

settles : commit_effect wire waiting (codes "r:tool:a") found ≡ (resumed, ok tt)
settles =
    answer_accepted wire waiting (codes "r:tool:a") found
      (record { live = refl; alone = unfold is_batchable in refl; named = refl })

waiting-InBudget : InBudget waiting
waiting-InBudget = record {
  calls = omega arith;
  width = omega arith;
  tokens = (omega arith, omega arith);
}

tools_leave_budget_example : no_provider_budget resumed ≡ false
tools_leave_budget_example =
    tools_leave_budget wire waiting resumed (codes "r:tool:a") found tt (omega arith)
      waiting-InBudget (unfold no_provider_budget in refl) settles

-- The child may make two of the four calls that are left, and use half of the tokens.
child_budget :
    delegation_budget_for waiting call
    ≡ some (record { model_call_limit = 2; token_limit = some 500 })
unfolding delegation_budget_for divisor
child_budget = refl

progress_example : Progress waiting
progress_example = progress waiting

terminal_absorbing_example :
    (next_effect over ≡ none)
    × (commit_effect wire over (codes "r:tool:a") found
        ≡ (over, err (unexpected_effect (codes "r:tool:a") none)))
    × (cancel over ≡ over)
    × (fail over (codes "late") ≡ over)
    × (finish_if_exhausted over ≡ (over, false))
terminal_absorbing_example =
    terminal_absorbing wire over (codes "r:tool:a") (codes "late") found refl
