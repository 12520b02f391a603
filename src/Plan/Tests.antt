-- ===== src/Plan/Tests.antt =====
-- Plans that are accepted and refused, and the theorems at them.
use ai_team_os.Prelude.{
  min, take, ℕ, ◌*◌, ◌≤◌, String, Text, codes, ◌≡◌, ◌≢◌, refl, ◌↔◌, ◌⊎◌, true, Option, none, some,
  List, [], ◌∷◌, length, ok, err, lower, lookup, insert,
}
use ai_team_os.Plan.Schemas.{SubtaskSpec, Plan, fill_orchestration_contract}
use ai_team_os.Plan.Registry.{get, default_registry}
use ai_team_os.Plan.Complexity.{trivial, standard}
use ai_team_os.Plan.Shape.{
  capabilities_for_shape, route, marks, read_only_research, classify_task_shape,
}
use ai_team_os.Plan.Envelope.{
  ids_of, deterministic_simplification, PlanningEnvelope, for_task, is_read_only,
}
use ai_team_os.Plan.Repair.{simplification_valid}
use ai_team_os.Plan.Bounds.{for_task_lem}
use ai_team_os.Plan.Validator.Defs.{validate_plan, assert_acyclic, cyclic_dependency, over_budget}
use ai_team_os.Plan.Validator.Acyclic.{HasKnownDependencies, CanBeOrdered, assert_acyclic-ok_iff}
use ai_team_os.Plan.Validator.Checks.{validate_plan-ok_iff}
use ai_team_os.Plan.Validator.Spec.{IsValidPlan}
use ai_team_os.Plan.Recovery.Defs.{each_budget, specialist, bounded_plan_for_shape}
use ai_team_os.Plan.Recovery.Budget.{plan_size, recovery_valid_iff}

abbrev goal : Text
goal = codes "research and compare frameworks"

abbrev fallback : PlanningEnvelope
fallback = record {
  task_complexity = standard;
  task_shape = read_only_research;
  allowed_capabilities = [];
  max_subtasks = 0;
  min_subtasks = 0;
  allowed_subtask_types = [];
  available_tools = [];
  token_budget = 0;
  max_model_calls = 0;
}

abbrev envelope_or : Option PlanningEnvelope → PlanningEnvelope
envelope_or none = fallback
envelope_or (some e) = e

abbrev envelope_for : ℕ → PlanningEnvelope
envelope_for tokens = envelope_or (for_task goal standard ("fixture_repo_lookup" ∷ []) tokens 30)

abbrev no_plan : Plan
no_plan = record { goal = []; subtasks = [] }

abbrev plan_or : Option Plan → Plan
plan_or none = no_plan
plan_or (some p) = p

abbrev recovery_for : ℕ → Plan
recovery_for tokens = plan_or (bounded_plan_for_shape goal (envelope_for tokens))

made : for_task goal standard ("fixture_repo_lookup" ∷ []) 4000 30 ≡ some (envelope_for 4000)
unfolding for_task classify_task_shape lower marks
made = refl

planned : bounded_plan_for_shape goal (envelope_for 4000) ≡ some (recovery_for 4000)
unfolding for_task classify_task_shape bounded_plan_for_shape lower marks
planned = refl

abbrev step_named : String → List String → SubtaskSpec
step_named id deps =
    specialist id "step" goal deps "research" [] "facts" ("not empty" ∷ [])
      ("fixture_repo_lookup" ∷ []) 500 3

abbrev chain : List SubtaskSpec
chain = step_named "a" [] ∷ step_named "b" ("a" ∷ []) ∷ []

abbrev cycle : List SubtaskSpec
cycle = step_named "a" ("b" ∷ []) ∷ step_named "b" ("a" ∷ []) ∷ []

chain_known : HasKnownDependencies chain
unfolding fill_orchestration_contract
chain_known = (tt, ((refl, tt), tt))

chain_ordered : assert_acyclic chain ≡ ok tt
unfolding assert_acyclic fill_orchestration_contract lookup insert
chain_ordered = refl

cycle_found : assert_acyclic cycle ≡ err cyclic_dependency
unfolding assert_acyclic fill_orchestration_contract lookup insert
cycle_found = refl

for_task_lem_example :
    ((envelope_for 4000).min_subtasks ≤ (envelope_for 4000).max_subtasks)
    × ((envelope_for 4000).max_subtasks ≤ 6)
    × (is_read_only (envelope_for 4000).task_shape ≡ true → (envelope_for 4000).max_subtasks ≤ 3)
    × ((envelope_for 4000).max_model_calls ≤ 20)
    × ((envelope_for 4000).max_model_calls ≤ 30)
    × (standard ≢ trivial → (envelope_for 4000).allowed_capabilities ≢ [])
for_task_lem_example =
    for_task_lem goal standard ("fixture_repo_lookup" ∷ []) 4000 30 (envelope_for 4000) made

abbrev chain_plan : Plan
chain_plan = record { goal = goal; subtasks = chain }

chain_accepted : validate_plan chain_plan default_registry 4000 none ≡ ok tt
unfolding validate_plan fill_orchestration_contract lookup insert get default_registry
chain_accepted = refl

validate_plan-ok_iff_example :
    (validate_plan chain_plan default_registry 4000 none ≡ ok tt)
    ↔ IsValidPlan chain_plan default_registry 4000 none
validate_plan-ok_iff_example = validate_plan-ok_iff chain_plan default_registry 4000 none

assert_acyclic-ok_iff_example :
    ((assert_acyclic chain ≡ ok tt) ↔ CanBeOrdered chain)
    × ((assert_acyclic chain ≡ ok tt) ⊎ (assert_acyclic chain ≡ err cyclic_dependency))
assert_acyclic-ok_iff_example = assert_acyclic-ok_iff chain chain_known

recovery_valid_iff_example :
    (validate_plan (recovery_for 4000) default_registry 4000 (some (envelope_for 4000)) ≡ ok tt)
    ↔ (500 * plan_size standard ≤ 4000)
recovery_valid_iff_example =
    recovery_valid_iff goal goal standard ("fixture_repo_lookup" ∷ []) 4000 30 (envelope_for 4000)
      (recovery_for 4000) (λ h. cc) made planned

-- A budget below the floor of the two subtasks.
made_small : for_task goal standard ("fixture_repo_lookup" ∷ []) 900 30 ≡ some (envelope_for 900)
unfolding for_task classify_task_shape lower marks
made_small = refl

refused_small :
    validate_plan (recovery_for 900) default_registry 900 (some (envelope_for 900))
    ≡ err over_budget
unfolding for_task classify_task_shape bounded_plan_for_shape validate_plan lower marks
    fill_orchestration_contract lookup insert capabilities_for_shape route each_budget
refused_small = refl

abbrev one_only : PlanningEnvelope
one_only = record (envelope_for 4000) { max_subtasks = 1 }

simplified : ids_of (deterministic_simplification chain_plan one_only).subtasks ≡ "a" ∷ []
unfolding deterministic_simplification fill_orchestration_contract
simplified = refl

simplification_valid_example :
    IsValidPlan (deterministic_simplification chain_plan one_only) default_registry 4000 none
    × (length (deterministic_simplification chain_plan one_only).subtasks
        ≡ min (length chain) one_only.max_subtasks)
    × (ids_of (deterministic_simplification chain_plan one_only).subtasks
        ≡ ids_of (take one_only.max_subtasks chain))
simplification_valid_example =
    simplification_valid chain_plan one_only default_registry 4000
      ((validate_plan-ok_iff chain_plan default_registry 4000 none).0 chain_accepted)
