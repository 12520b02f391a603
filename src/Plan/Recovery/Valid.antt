-- ===== src/Plan/Recovery/Valid.antt =====
-- The recovery plan passes the validator, unless the budget is too small for its floor of 500
-- tokens for each subtask.
use ai_team_os.Prelude.{
  ℕ, ◌+◌, ◌≤◌, String, Text, ◌≡◌, ◌≢◌, refl, sym, ap, ◌∙◌, Bool, true, false, some, List, [], ◌∷◌,
  str_eq, elem, All, arith, inr, not, ◌&&◌, if◌then◌else◌, subst,
}
use ai_team_os.Plan.Schemas.{AgentSpec, SubtaskSpec}
use ai_team_os.Plan.Registry.{get, default_registry, researcher_read_only_tools}
use ai_team_os.Plan.Complexity.{TaskComplexity}
use ai_team_os.Plan.Shape.{Capability, capabilities_for_shape, route}
use ai_team_os.Plan.Envelope.{PlanningEnvelope, for_task, min_limit, bounded_max}
use ai_team_os.Plan.Validator.Defs.{total_budget}
use ai_team_os.Plan.Validator.Spec.{IsValidPlan, IsExecutable}
use ai_team_os.Plan.Recovery.Defs.{
  research_tool, research_discovery, research_comparison, research_synthesis, analysis_tool,
  analysis_dependencies, analysis_risks, analysis_synthesis, uses_github,
}

-- What an envelope of `for_task` says of itself.
pub record IsOfTask (c : TaskComplexity) (tokens : ℕ) (e : PlanningEnvelope) : Type 0 where
  pub lower : e.min_subtasks ≡ min_limit c
  pub upper : e.max_subtasks ≡ bounded_max c e.task_shape
  pub budget : e.token_budget ≡ tokens
  pub allowed : e.allowed_capabilities ≡ capabilities_for_shape e.task_shape

pub for_task-IsOfTask :
    (goal : Text) (c : TaskComplexity) (tools : List String) (tokens calls : ℕ)
    (e : PlanningEnvelope)
    → for_task goal c tools tokens calls ≡ some e
    → IsOfTask c tokens e
unfolding for_task
for_task-IsOfTask goal c tools tokens calls e h = ground arith

researcher_agent :
    (a : AgentSpec) × (get "researcher" default_registry ≡ some a)
    × (a.enabled ≡ true)
    × (a.allowed_tools ≡ researcher_read_only_tools)
unfolding get default_registry
researcher_agent = (_, refl, refl, refl)

-- A subtask of the researcher whose tools are all its own.
executable :
    (s : SubtaskSpec)
    → s.assigned_role ≡ "researcher"
    → s.expected_output ≢ []
    → s.acceptance_criteria ≢ []
    → All (λ t. elem t researcher_read_only_tools ≡ true) s.required_tools
    → IsExecutable default_registry s
executable s r o c t =
    let (a, e, on, tools) = researcher_agent in
    record {
      output = o;
      criteria = c;
      agent = (
        a,
        ap (λ role. get role default_registry) r ∙ e,
        on,
        subst (λ (l : List String). All (λ t. elem t l ≡ true) s.required_tools) (sym tools) t,
      );
      role = inr r;
    }

pick : (P : String → Type 0) (b : Bool) (x y : String) → P x → P y → P (if b then x else y)
pick P true x y p q = p
pick P false x y p q = q

abbrev pub IsKnown : String → Type 0
IsKnown tool = elem tool researcher_read_only_tools ≡ true

pub research_tool-IsKnown : (goal : Text) (e : PlanningEnvelope) → IsKnown (research_tool goal e)
unfolding research_tool
research_tool-IsKnown goal e =
    pick IsKnown (elem "fixture_repo_lookup" e.available_tools && not (uses_github goal e))
      "fixture_repo_lookup" _ refl
      (pick IsKnown (uses_github goal e) "github_search_repositories" "local_list_directory" refl
        refl)

pub analysis_tool-IsKnown : (e : PlanningEnvelope) → IsKnown (analysis_tool e)
unfolding analysis_tool
analysis_tool-IsKnown e =
    pick IsKnown (elem "local_list_directory" e.available_tools) "local_list_directory"
      "fixture_repo_lookup" refl refl

-- The subtasks in the order of the lists, as numbers.
abbrev numbers : String → String → String → ℕ
numbers first second id = if str_eq id first then 0 else if str_eq id second then 1 else 2

module _ (goal : Text) (tokens : ℕ) (e : PlanningEnvelope) (tool : String) (b : ℕ)
    (known : IsKnown tool) where
  abbrev pub PlanIsValid : List SubtaskSpec → Type 0
  PlanIsValid ss =
      IsValidPlan (record { goal = goal; subtasks = ss }) default_registry tokens (some e)

  pub research_two :
      e.min_subtasks ≤ 2
      → 2 ≤ e.max_subtasks
      → e.allowed_capabilities ≡ Capability.research ∷ []
      → b + b ≤ tokens
      → PlanIsValid (research_discovery goal tool b ∷ research_comparison goal tool b ∷ [])
  unfolding research_discovery research_comparison route total_budget
  research_two lo hi caps afford = record {
    count = omega arith;
    in_envelope = (hi, lo);
    distinct = (refl, (refl, tt));
    fits = ((rw caps refl, refl), ((rw caps refl, refl), tt));
    known = (tt, ((refl, tt), tt));
    ordered = (numbers "research_discovery" "research_comparison", (tt, ((omega arith, tt), tt)));
    affordable = omega arith;
    executable = (
      executable (research_discovery goal tool b) refl (λ h. cc) (λ h. cc) (known, tt),
      (executable (research_comparison goal tool b) refl (λ h. cc) (λ h. cc) (known, tt), tt),
    );
  }

  pub research_three :
      e.min_subtasks ≤ 3
      → 3 ≤ e.max_subtasks
      → e.allowed_capabilities ≡ Capability.research ∷ []
      → b + b + b ≤ tokens
      → PlanIsValid (
          research_discovery goal tool b
          ∷ research_comparison goal tool b
          ∷ research_synthesis goal b
          ∷ [])
  unfolding research_discovery research_comparison research_synthesis route total_budget
  research_three lo hi caps afford = record {
    count = omega arith;
    in_envelope = (hi, lo);
    distinct = (refl, (refl, (refl, tt)));
    fits = ((rw caps refl, refl), ((rw caps refl, refl), ((rw caps refl, refl), tt)));
    known = (tt, ((refl, tt), ((refl, (refl, tt)), tt)));
    ordered = (
      numbers "research_discovery" "research_comparison",
      (tt, ((omega arith, tt), ((omega arith, (omega arith, tt)), tt))),
    );
    affordable = omega arith;
    executable = (
      executable (research_discovery goal tool b) refl (λ h. cc) (λ h. cc) (known, tt),
      (
        executable (research_comparison goal tool b) refl (λ h. cc) (λ h. cc) (known, tt),
        (executable (research_synthesis goal b) refl (λ h. cc) (λ h. cc) tt, tt),
      ),
    );
  }

  pub analysis_two :
      e.min_subtasks ≤ 2
      → 2 ≤ e.max_subtasks
      → e.allowed_capabilities ≡ Capability.analysis ∷ Capability.research ∷ []
      → b + b ≤ tokens
      → PlanIsValid (analysis_dependencies goal tool b ∷ analysis_risks goal tool b ∷ [])
  unfolding analysis_dependencies analysis_risks route total_budget
  analysis_two lo hi caps afford = record {
    count = omega arith;
    in_envelope = (hi, lo);
    distinct = (refl, (refl, tt));
    fits = ((rw caps refl, refl), ((rw caps refl, refl), tt));
    known = (tt, (tt, tt));
    ordered = (numbers "analysis_dependencies" "analysis_risks", (tt, (tt, tt)));
    affordable = omega arith;
    executable = (
      executable (analysis_dependencies goal tool b) refl (λ h. cc) (λ h. cc) (known, tt),
      (executable (analysis_risks goal tool b) refl (λ h. cc) (λ h. cc) (known, tt), tt),
    );
  }

  pub analysis_three :
      e.min_subtasks ≤ 3
      → 3 ≤ e.max_subtasks
      → e.allowed_capabilities ≡ Capability.analysis ∷ Capability.research ∷ []
      → b + b + b ≤ tokens
      → PlanIsValid (
          analysis_dependencies goal tool b
          ∷ analysis_risks goal tool b
          ∷ analysis_synthesis goal b
          ∷ [])
  unfolding analysis_dependencies analysis_risks analysis_synthesis route total_budget
  analysis_three lo hi caps afford = record {
    count = omega arith;
    in_envelope = (hi, lo);
    distinct = (refl, (refl, (refl, tt)));
    fits = ((rw caps refl, refl), ((rw caps refl, refl), ((rw caps refl, refl), tt)));
    known = (tt, (tt, ((refl, (refl, tt)), tt)));
    ordered = (
      numbers "analysis_dependencies" "analysis_risks",
      (tt, (tt, ((omega arith, (omega arith, tt)), tt))),
    );
    affordable = omega arith;
    executable = (
      executable (analysis_dependencies goal tool b) refl (λ h. cc) (λ h. cc) (known, tt),
      (
        executable (analysis_risks goal tool b) refl (λ h. cc) (λ h. cc) (known, tt),
        (executable (analysis_synthesis goal b) refl (λ h. cc) (λ h. cc) tt, tt),
      ),
    );
  }
