-- ===== src/Plan/Envelope.antt =====
-- `PlanningEnvelope` and `deterministic_simplification` of app/core/orchestration.py.
use Prim.Native.Nat.{Ordering}
use Prim.Native.String.{compare}
use ai_team_os.Prelude.{
  ℕ, min, max, String, Text, Bool, true, false, ◌&&◌, Option, none, some, List, [], ◌∷◌, map,
  if◌then◌else◌, ltb, leb, length, take, elem, filter,
}
use ai_team_os.Plan.Schemas.{SubtaskSpec, Plan}
use ai_team_os.Plan.Complexity.{TaskComplexity, trivial, simple, standard, complex}
use ai_team_os.Plan.Shape.{
  TaskShape, read_only_research, code_analysis, direct_response, Capability, capability_value,
  classify_task_shape, capabilities_for_shape,
}

-- SUBTASK_LIMITS
abbrev pub min_limit : TaskComplexity → ℕ
min_limit trivial = 0
min_limit simple = 1
min_limit standard = 2
min_limit complex = 3

abbrev pub max_limit : TaskComplexity → ℕ
max_limit trivial = 1
max_limit simple = 2
max_limit standard = 4
max_limit complex = 6

pub record PlanningEnvelope : Type 0 where
  pub task_complexity : TaskComplexity
  pub task_shape : TaskShape
  pub allowed_capabilities : List Capability
  pub max_subtasks : ℕ
  pub min_subtasks : ℕ
  pub allowed_subtask_types : List String
  pub available_tools : List String
  pub token_budget : ℕ
  pub max_model_calls : ℕ

-- The order of texts by code points.
abbrev not_after : String → String → Bool
not_after a b = elim (compare a b) [ Ordering.gt ↦ false | _ ↦ true ]

unfoldable pub insert_tool : String → List String → List String
insert_tool t [] = t ∷ []
insert_tool t (u ∷ us) = if not_after t u then t ∷ u ∷ us else u ∷ insert_tool t us

-- sorted(available_tools)
unfoldable pub sort_tools : List String → List String
unfolding insert_tool
sort_tools [] = []
sort_tools (t ∷ ts) = insert_tool t (sort_tools ts)

abbrev pub is_trivial : TaskComplexity → Bool
is_trivial trivial = true
is_trivial _ = false

-- A direct response to a request that is not trivial becomes read-only research.
abbrev pub executable_shape : TaskComplexity → TaskShape → TaskShape
executable_shape complexity direct_response =
    if is_trivial complexity then direct_response else read_only_research
executable_shape complexity shape = shape

abbrev pub is_read_only : TaskShape → Bool
is_read_only read_only_research = true
is_read_only code_analysis = true
is_read_only _ = false

abbrev pub bounded_max : TaskComplexity → TaskShape → ℕ
bounded_max complexity shape =
    if is_read_only shape
    then min (max_limit complexity) (max 2 (min_limit complexity))
    else max_limit complexity

abbrev envelope_of : TaskComplexity → TaskShape → List String → ℕ → ℕ → PlanningEnvelope
envelope_of complexity shape tools token_budget max_model_calls = record {
  task_complexity = complexity;
  task_shape = shape;
  allowed_capabilities = capabilities_for_shape shape;
  max_subtasks = bounded_max complexity shape;
  min_subtasks = min_limit complexity;
  allowed_subtask_types = map capability_value (capabilities_for_shape shape);
  available_tools = sort_tools tools;
  token_budget = token_budget;
  max_model_calls = min max_model_calls 20;
}

-- The bounds that the fields of the model declare; the bound on calls is met by `min`.
abbrev fields_valid : PlanningEnvelope → Bool
fields_valid e =
    leb e.max_subtasks 6
    && leb e.min_subtasks 6
    && ltb 0 e.token_budget
    && ltb 0 e.max_model_calls
    && leb e.max_model_calls 20

-- `PlanningEnvelope.for_task`; `none` is the `ValidationError` of the model.
unfoldable pub for_task : Text → TaskComplexity → List String → ℕ → ℕ → Option PlanningEnvelope
for_task goal complexity available_tools token_budget max_model_calls =
    let shape = executable_shape complexity (classify_task_shape goal) in
    let e = envelope_of complexity shape available_tools token_budget max_model_calls in
    if fields_valid e then some e else none

abbrev pub keep_dependencies : List String → SubtaskSpec → SubtaskSpec
keep_dependencies kept_ids s = record s {
  dependencies = filter (λ d. elem d kept_ids) s.dependencies;
}

abbrev pub ids_of : List SubtaskSpec → List String
ids_of = map (λ s. s.subtask_id)

unfoldable pub deterministic_simplification : Plan → PlanningEnvelope → Plan
deterministic_simplification plan envelope =
    if leb (length plan.subtasks) envelope.max_subtasks
    then plan
    else let kept = take envelope.max_subtasks plan.subtasks in
      record plan { subtasks = map (keep_dependencies (ids_of kept)) kept }
