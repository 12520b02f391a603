-- ===== src/Plan/Validator/Spec.antt =====
-- What a valid plan is, without the checks that find it out.
use ai_team_os.Prelude.{
  ℕ, ◌≤◌, String, ◌≡◌, ◌≢◌, ◌⊎◌, true, false, Option, none, some, List, [], ◌∷◌, map, elem, length,
  All,
}
use ai_team_os.Plan.Schemas.{AgentSpec, SubtaskSpec, Plan, capability_of}
use ai_team_os.Plan.Registry.{AgentRegistry, get}
use ai_team_os.Plan.Shape.{capability_value, route}
use ai_team_os.Plan.Envelope.{PlanningEnvelope, ids_of}
use ai_team_os.Plan.Validator.Defs.{total_budget, max_subtasks}
use ai_team_os.Plan.Validator.Acyclic.{HasKnownDependencies, CanBeOrdered}

-- The ids of the subtasks are distinct, by recursion.
abbrev pub AreDistinct : List String → Type 0
AreDistinct [] = Unit
AreDistinct (x ∷ xs) = (elem x xs ≡ false) × AreDistinct xs

-- The capability of a subtask is one of the envelope's, and its role the one that serves it.
abbrev pub FitsEnvelope : Option PlanningEnvelope → SubtaskSpec → Type 0
FitsEnvelope none s = Unit
FitsEnvelope (some e) s =
    (elem (capability_of s) (map capability_value e.allowed_capabilities) ≡ true)
    × (route (capability_of s) ≡ some s.assigned_role)

-- The role of a subtask is registered, executable and enabled, and has every tool it needs; the
-- subtask has a product and an acceptance criterion.
pub record IsExecutable (registry : AgentRegistry) (s : SubtaskSpec) : Type 0 where
  pub output : s.expected_output ≢ []
  pub criteria : s.acceptance_criteria ≢ []
  pub agent :
      (a : AgentSpec) × (get s.assigned_role registry ≡ some a)
      × (a.enabled ≡ true)
      × All (λ t. elem t a.allowed_tools ≡ true) s.required_tools
  pub role : (s.assigned_role ≡ "executor") ⊎ (s.assigned_role ≡ "researcher")

abbrev pub FitsCount : List SubtaskSpec → Option PlanningEnvelope → Type 0
FitsCount ss none = Unit
FitsCount ss (some e) = (length ss ≤ e.max_subtasks) × (e.min_subtasks ≤ length ss)

pub record IsValidPlan (plan : Plan) (registry : AgentRegistry) (budget : ℕ)
    (envelope : Option PlanningEnvelope) : Type 0 where
  pub count : length plan.subtasks ≤ max_subtasks
  pub in_envelope : FitsCount plan.subtasks envelope
  pub distinct : AreDistinct (ids_of plan.subtasks)
  pub fits : All (FitsEnvelope envelope) plan.subtasks
  pub known : HasKnownDependencies plan.subtasks
  pub ordered : CanBeOrdered plan.subtasks
  pub affordable : total_budget plan.subtasks ≤ budget
  pub executable : All (IsExecutable registry) plan.subtasks
