-- ===== src/Plan/Schemas.antt =====
-- `AgentSpec`, `SubtaskSpec` and `Plan` of app/core/schemas.py. Identifiers, roles and tools are
-- texts that are only compared; prose is a list of code points. The two schema dicts of an agent
-- are empty everywhere and are left out. Budgets are not negative.
use ai_team_os.Prelude.{ℕ, String, Text, Bool, Option, none, some, List, if◌then◌else◌, str_eq}

pub record AgentSpec : Type 0 where
  pub agent_id : String
  pub role_type : String
  pub display_name : String
  pub goal : String
  pub instructions : String
  pub allowed_tools : List String
  pub model_scenario : String
  pub token_limit : ℕ
  pub max_tool_calls : ℕ
  pub enabled : Bool

pub record SubtaskSpec : Type 0 where
  pub subtask_id : String
  pub title : Text
  pub objective : Text
  pub dependencies : List String
  pub assigned_role : String
  pub capability_required : Option String
  pub task_type : Option String
  pub input_refs : List String
  pub expected_output : Text
  pub deliverable : Option Text
  pub acceptance_criteria : List Text
  pub required_tools : List String
  pub token_budget : ℕ
  pub tool_call_budget : ℕ

abbrev pub or_else {ℓ} : {A : Type ℓ} → Option A → A → A
or_else none d = d
or_else (some a) d = a

-- `fill_orchestration_contract`, which runs after every construction.
unfoldable pub fill_orchestration_contract : SubtaskSpec → SubtaskSpec
fill_orchestration_contract s =
    let capability =
      or_else s.capability_required
        (if str_eq s.assigned_role "executor" then "code_change" else "research") in
    record s {
      capability_required = some capability;
      task_type = some (or_else s.task_type capability);
      deliverable = some (or_else s.deliverable s.expected_output);
    }

pub record Plan : Type 0 where
  pub goal : Text
  pub subtasks : List SubtaskSpec

-- `self.capability_required or "research"`, as the validator and the graph read it.
abbrev pub capability_of : SubtaskSpec → String
capability_of s = elim s.capability_required [
  | none ↦ "research"
  | some c ↦ if str_eq c "" then "research" else c
]
