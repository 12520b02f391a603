-- ===== src/Limits/Tests.antt =====
-- The limits at concrete runs, and the theorems at them.
use ai_team_os.Prelude.{
  ℕ, ◌+◌, ◌≤◌, ◌<◌, max, String, ◌≡◌, refl, ◌↔◌, ◌⊎◌, true, false, none, some, List, [], ◌∷◌,
  if◌then◌else◌, str_eq, arith, leb, ltb, lookup, insert,
}
use ai_team_os.Limits.Cost.{
  WorkflowCostGovernor, governor, assess_and_reserve, reserve_all, is_granted, grant_bound,
  at_limit, standard_role_limits, calls_of, assess_and_reserve_lem,
}
use ai_team_os.Limits.Reservations.{reservations_bounded}
use ai_team_os.Limits.Quota.{
  ToolExecutionContext, ToolQuota, new_quota, calls_for, reserve_each, let_through,
  reserve_each_lem,
}
use ai_team_os.Limits.Budget.{
  Cost, BudgetController, Use, Event, ask, answer, events, chat_ask, chat_answer,
}

abbrev fresh : WorkflowCostGovernor
fresh = governor "standard" none

-- Three planners ask at once; the third is refused.
abbrev requests : List (String × ℕ)
requests = ("planner", 0) ∷ ("planner", 0) ∷ ("planner", 0) ∷ []

planners : (reserve_all requests fresh).reserved_total ≡ 2
unfolding reserve_all governor lookup insert assess_and_reserve
planners = refl

assess_and_reserve_lem_example :
    ((is_granted (assess_and_reserve "planner" 3 fresh).1.decision ≡ true) ↔ (
      (max 3 fresh.reserved_total < grant_bound fresh.complexity fresh.hard_limit)
      × ((str_eq fresh.complexity "complex" ≡ true)
          ⊎ (at_limit (lookup "planner" standard_role_limits) (calls_of "planner" fresh.role_calls)
              ≡ false))))
    × (is_granted (assess_and_reserve "planner" 3 fresh).1.decision ≡ false
        → (assess_and_reserve "planner" 3 fresh).0 ≡ fresh)
    × (is_granted (assess_and_reserve "planner" 3 fresh).1.decision ≡ true
        → ((assess_and_reserve "planner" 3 fresh).0.reserved_total ≡ fresh.reserved_total + 1)
          × (calls_of "reviewer" (assess_and_reserve "planner" 3 fresh).0.role_calls
              ≡ calls_of "reviewer" fresh.role_calls
                + (if str_eq "planner" "reviewer" then 1 else 0)))
assess_and_reserve_lem_example = assess_and_reserve_lem fresh "planner" "reviewer" 3

reservations_bounded_example :
    ((reserve_all requests fresh).reserved_total ≤ grant_bound "standard" none)
    × ((role : String) (n : ℕ)
        → str_eq "standard" "complex" ≡ false
        → lookup role standard_role_limits ≡ some n
        → calls_of role (reserve_all requests fresh).role_calls ≤ n)
reservations_bounded_example = reservations_bounded "standard" none requests

abbrev context : String → ToolExecutionContext
context id = record {
  task_id = "t";
  subtask_id = id;
  role = "researcher";
  tool_call_budget = 2;
  max_evidence = 50;
  max_read_bytes = 2097152;
  approval_id = none;
  replay = false;
}

abbrev quota : ToolQuota
quota = new_quota (record {
  read_only_only = true;
  max_calls_per_subtask = 10;
  max_evidence_per_task = 200;
  max_read_bytes_per_task = 5242880;
})

abbrev contexts : List ToolExecutionContext
contexts = context "a" ∷ context "b" ∷ context "a" ∷ context "a" ∷ []

nothing_yet : calls_for "a" quota ≤ 10
unfolding calls_for lookup
nothing_yet = omega arith

reserve_each_lem_example :
    (calls_for "a" (reserve_each contexts quota)
      ≡ calls_for "a" quota + let_through "a" contexts quota)
    × (calls_for "a" quota ≤ 10 → calls_for "a" (reserve_each contexts quota) ≤ 10)
    × ((reserve_each contexts quota).policy ≡ quota.policy)
reserve_each_lem_example = reserve_each_lem contexts quota "a"

-- Costs in whole cents.
abbrev cents : Cost
cents = record {
  Amount = ℕ;
  add = λ a b. a + b;
  at_most = λ a b. leb a b;
  exceeds = λ a b. ltb b a;
}

abbrev budget : BudgetController cents
budget = record {
  token_budget = 1000;
  cost_budget = 50;
  used_tokens = 0;
  used_cost = 0;
  used_calls = 0;
  max_calls = 3;
}

abbrev one_use : Use cents
one_use = (100, 100, 10)

abbrev last_call : BudgetController cents
last_call = record budget { used_calls = 2 }

abbrev overlapping : List (Event cents)
overlapping = ask one_use ∷ ask one_use ∷ answer one_use ∷ answer one_use ∷ []

-- Two calls that overlap pass the limit by one.
one_too_many : (events cents 2 overlapping (last_call, 0)).0.used_calls ≡ 4
unfolding events chat_ask chat_answer
one_too_many = refl
