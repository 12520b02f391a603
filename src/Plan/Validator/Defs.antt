-- ===== src/Plan/Validator/Defs.antt =====
-- `validate_plan` and `_assert_acyclic` of app/core/plan_validator.py. The first check that fails
-- is the error.
use ai_team_os.Prelude.{
  ℕ, zero, suc, ◌+◌, ◌-◌, String, Bool, true, false, ◌||◌, Option, none, some, List, [], ◌∷◌, ◌++◌,
  map, if◌then◌else◌, str_eq, ltb, ◌==◌, length, elem, all, Result, ok, err, ◌>>=◌, ◌>>◌, require,
  refuse, for_each, Dict, lookup, insert,
}
use ai_team_os.Plan.Schemas.{AgentSpec, SubtaskSpec, Plan, capability_of}
use ai_team_os.Plan.Registry.{AgentRegistry, get}
use ai_team_os.Plan.Shape.{capability_value, route}
use ai_team_os.Plan.Envelope.{PlanningEnvelope, ids_of}

pub data PlanError : Type 0 where
  too_many_subtasks plan_too_complex plan_too_shallow duplicate_subtask_id : PlanError
  capability_not_allowed capability_unknown capability_role_mismatch : PlanError
  missing_dependency cyclic_dependency over_budget missing_output missing_acceptance : PlanError
  unknown_role role_not_executable role_disabled tools_not_allowed : PlanError
  -- not of the source: a `KeyError`, and the fuel of the loop
  key_error out_of_fuel : PlanError

abbrev pub Check : Type 0
Check = Result PlanError (Unit {0})

abbrev pub max_subtasks : ℕ
max_subtasks = 8

abbrev pub executable_roles : List String
executable_roles = "executor" ∷ "researcher" ∷ []

-- The two dicts of `_assert_acyclic`.
pub record Graph : Type 0 where
  pub indegree : Dict ℕ
  pub edges : Dict (List String)

-- {s.subtask_id: 0 for s in plan.subtasks}, and the same with empty lists.
unfoldable pub start_from : List SubtaskSpec → Graph → Graph
start_from [] g = g
start_from (s ∷ ss) g =
    start_from ss (record {
      indegree = insert s.subtask_id 0 g.indegree;
      edges = insert s.subtask_id [] g.edges;
    })

unfoldable pub start_graph : List SubtaskSpec → Graph
unfolding start_from
start_graph ss = start_from ss (record { indegree = []; edges = [] })

abbrev pub degree : String → Dict ℕ → ℕ
degree k d = elim (lookup k d) [ none ↦ 0 | some n ↦ n ]

abbrev pub targets : String → Dict (List String) → List String
targets k d = elim (lookup k d) [ none ↦ [] | some l ↦ l ]

-- edges[dep].append(id); indegree[id] += 1
abbrev pub grow : String → String → List String → Graph → Graph
grow dep id l g = record {
  indegree = insert id (degree id g.indegree + 1) g.indegree;
  edges = insert dep (l ++ id ∷ []) g.edges;
}

unfoldable pub add_edge : String → String → Graph → Result PlanError Graph
add_edge id dep g = elim (lookup dep g.edges) [
  | none ↦ err key_error
  | some l ↦ ok (grow dep id l g)
]

unfoldable pub add_dependencies : String → List String → Graph → Result PlanError Graph
unfolding add_edge
add_dependencies id [] g = ok g
add_dependencies id (d ∷ ds) g = add_edge id d g >>= add_dependencies id ds

unfoldable pub add_subtasks : List SubtaskSpec → Graph → Result PlanError Graph
unfolding add_dependencies
add_subtasks [] g = ok g
add_subtasks (s ∷ ss) g = add_dependencies s.subtask_id s.dependencies g >>= add_subtasks ss

-- [sid for sid, deg in indegree.items() if deg == 0]
unfoldable pub ready : Dict ℕ → List String
ready [] = []
ready ((k, n) ∷ d) = let rest = ready d in elim (n == 0) [ true ↦ k ∷ rest | false ↦ rest ]

-- The inner loop: lower the degree of each target, and queue it when it reaches 0.
unfoldable pub lower_targets : List String → Dict ℕ → List String → Dict ℕ × List String
lower_targets [] d queue = (d, queue)
lower_targets (v ∷ vs) d queue =
    let n = degree v d - 1 in
    lower_targets vs (insert v n d) (if n == 0 then queue ++ v ∷ [] else queue)

-- The outer loop, with fuel: the number of nodes that are taken from the queue.
unfoldable pub visit : ℕ → Dict (List String) → Dict ℕ → List String → ℕ → Result PlanError ℕ
unfolding lower_targets
visit zero edges d queue visited = err out_of_fuel
visit (suc fuel) edges d [] visited = ok visited
visit (suc fuel) edges d (node ∷ queue) visited =
    let (d', queue') = lower_targets (targets node edges) d queue in
    visit fuel edges d' queue' (visited + 1)

abbrev pub visit_all : Graph → Result PlanError ℕ
visit_all g = visit (length g.indegree + 1) g.edges g.indegree (ready g.indegree) 0

unfoldable pub assert_acyclic : List SubtaskSpec → Check
unfolding start_graph add_subtasks ready visit
assert_acyclic subtasks = do
  g ← add_subtasks subtasks (start_graph subtasks)
  visited ← visit_all g
  require (visited == length g.indegree) cyclic_dependency

-- len(set(ids)) != len(ids)
abbrev pub has_duplicate : List String → Bool
has_duplicate [] = false
has_duplicate (x ∷ xs) = elem x xs || has_duplicate xs

unfoldable pub total_budget : List SubtaskSpec → ℕ
total_budget [] = 0
total_budget (s ∷ ss) = s.token_budget + total_budget ss

abbrev pub check_count : List SubtaskSpec → Option PlanningEnvelope → Check
check_count ss none = ok tt
check_count ss (some e) = do
  refuse (ltb e.max_subtasks (length ss)) plan_too_complex
  refuse (ltb (length ss) e.min_subtasks) plan_too_shallow

abbrev pub check_route : SubtaskSpec → Option String → Check
check_route s none = err capability_unknown
check_route s (some role) = require (str_eq s.assigned_role role) capability_role_mismatch

unfoldable pub check_capability : Option PlanningEnvelope → SubtaskSpec → Check
check_capability none s = ok tt
check_capability (some e) s = do
  require (elem (capability_of s) (map capability_value e.allowed_capabilities))
      capability_not_allowed
  check_route s (route (capability_of s))

unfoldable pub check_links : Option PlanningEnvelope → List String → SubtaskSpec → Check
unfolding check_capability
check_links envelope ids s = do
  check_capability envelope s
  require (all (λ d. elem d ids) s.dependencies) missing_dependency

abbrev pub is_empty {ℓ} : {A : Type ℓ} → List A → Bool
is_empty [] = true
is_empty (x ∷ xs) = false

abbrev pub check_agent : SubtaskSpec → Option AgentSpec → Check
check_agent s none = err unknown_role
check_agent s (some agent) = do
  require (elem s.assigned_role executable_roles) role_not_executable
  require agent.enabled role_disabled
  require (all (λ t. elem t agent.allowed_tools) s.required_tools) tools_not_allowed

unfoldable pub check_subtask : AgentRegistry → SubtaskSpec → Check
check_subtask registry s = do
  refuse (is_empty s.expected_output) missing_output
  refuse (is_empty s.acceptance_criteria) missing_acceptance
  check_agent s (get s.assigned_role registry)

unfoldable pub validate_plan : Plan → AgentRegistry → ℕ → Option PlanningEnvelope → Check
unfolding check_links assert_acyclic total_budget check_subtask
validate_plan plan registry task_token_budget envelope = do
  refuse (ltb max_subtasks (length plan.subtasks)) too_many_subtasks
  check_count plan.subtasks envelope
  refuse (has_duplicate (ids_of plan.subtasks)) duplicate_subtask_id
  for_each (check_links envelope (ids_of plan.subtasks)) plan.subtasks
  assert_acyclic plan.subtasks
  refuse (ltb task_token_budget (total_budget plan.subtasks)) over_budget
  for_each (check_subtask registry) plan.subtasks
