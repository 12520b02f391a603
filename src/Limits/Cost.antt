-- ===== src/Limits/Cost.antt =====
-- `WorkflowCostGovernor` of app/core/workflow_cost.py. The lock makes each operation one step. A
-- reason keeps the values that the message is formatted with.
use ai_team_os.Prelude.{
  ℕ, ◌+◌, ◌-◌, ◌<◌, max, min, String, ◌≡◌, ◌↔◌, ◌⊎◌, Bool, true, false, Option, none, some, List,
  [], ◌∷◌, if◌then◌else◌, str_eq, eq_iff, leb, ◌==◌, Dict, lookup, insert, lookup-insert, arith,
}

pub data CostDecision : Type 0 where
  allow warning recovery stop : CostDecision

pub data Reason : Type 0 where
  hard_limit_reached : ℕ → Reason
  role_limit_reached : String → ℕ → Reason
  reuse_evidence above_target within_budget : Reason

pub record CostAssessment : Type 0 where
  pub decision : CostDecision
  pub calls_used : ℕ
  pub role_calls : ℕ
  pub estimated_remaining_calls : ℕ
  pub reason : Reason

abbrev pub standard_role_limits : Dict ℕ
standard_role_limits =
    ("supervisor", 2) ∷ ("planner", 2) ∷ ("researcher", 4) ∷ ("executor", 3) ∷ ("reviewer", 2) ∷ []

abbrev pub soft_threshold : ℕ
soft_threshold = 12

abbrev pub recovery_threshold : ℕ
recovery_threshold = 16

abbrev pub hard_threshold : ℕ
hard_threshold = 20

pub record WorkflowCostGovernor : Type 0 where
  pub complexity : String
  pub hard_limit : Option ℕ
  pub role_calls : Dict ℕ
  pub reserved_total : ℕ

-- `WorkflowCostGovernor.__init__`
unfoldable pub governor : String → Option ℕ → WorkflowCostGovernor
governor complexity hard_limit = record {
  complexity = complexity;
  hard_limit = hard_limit;
  role_calls = [];
  reserved_total = 0;
}

-- self._role_calls[role], of a `Counter`
unfoldable pub calls_of : String → Dict ℕ → ℕ
unfolding lookup
calls_of role calls = elim (lookup role calls) [ none ↦ 0 | some n ↦ n ]

-- `self.hard_limit or (...)`: a limit of zero counts as none.
unfoldable pub hard_of : String → Option ℕ → ℕ
hard_of complexity hard_limit =
    let default = if str_eq complexity "complex" then 32 else hard_threshold in
    elim hard_limit [ none ↦ default | some n ↦ if n == 0 then default else n ]

-- role_calls >= limit, of a role with a limit
abbrev pub at_limit : Option ℕ → ℕ → Bool
at_limit none n = false
at_limit (some limit) n = leb limit n

abbrev limit_or : Option ℕ → ℕ
limit_or none = 0
limit_or (some n) = n

abbrev assessment : ℕ → ℕ → CostDecision → ℕ → Reason → CostAssessment
assessment calls_used used d left why = record {
  decision = d;
  calls_used = calls_used;
  role_calls = used;
  estimated_remaining_calls = left;
  reason = why;
}

unfoldable pub assess : WorkflowCostGovernor → String → ℕ → CostAssessment
unfolding calls_of hard_of
assess g role calls_used =
    let used = calls_of role g.role_calls in
    let hard = hard_of g.complexity g.hard_limit in
    let limit = lookup role standard_role_limits in
    let says = assessment calls_used used in
    if leb hard calls_used
    then says stop 0 (hard_limit_reached hard)
    else if str_eq g.complexity "complex"
    then says allow (hard - calls_used) within_budget
    else if at_limit limit used
    then says recovery 0 (role_limit_reached role (limit_or limit))
    else if leb recovery_threshold calls_used
    then says recovery (hard - calls_used) reuse_evidence
    else if leb soft_threshold calls_used
    then says warning (hard - calls_used) above_target
    else says allow (hard - calls_used) within_budget

abbrev pub is_granted : CostDecision → Bool
is_granted allow = true
is_granted warning = true
is_granted _ = false

unfoldable pub record_call : String → WorkflowCostGovernor → WorkflowCostGovernor
unfolding calls_of insert
record_call role g = record g {
  role_calls = insert role (calls_of role g.role_calls + 1) g.role_calls;
}

unfoldable pub assess_and_reserve :
    String → ℕ → WorkflowCostGovernor → WorkflowCostGovernor × CostAssessment
unfolding assess record_call
assess_and_reserve role calls_used g =
    let a = assess g role (max calls_used g.reserved_total) in
    let counted = record_call role g in
    (
      if is_granted a.decision then record counted { reserved_total = g.reserved_total + 1 } else g,
      a,
    )

-- The requests of parallel branches, one after the other.
unfoldable pub reserve_all : List (String × ℕ) → WorkflowCostGovernor → WorkflowCostGovernor
reserve_all [] g = g
reserve_all ((role, used) ∷ rs) g = reserve_all rs (assess_and_reserve role used g).0

-- The most calls that a governor grants.
abbrev pub grant_bound : String → Option ℕ → ℕ
grant_bound complexity hard_limit =
    let hard = hard_of complexity hard_limit in
    if str_eq complexity "complex" then hard else min hard recovery_threshold

-- A call is granted exactly when the calls counted, which are at least those reserved, are below
-- the bound and the role is below its limit, if it has one and the work is not complex. A call
-- that is not granted changes nothing, and one that is counts for its role and for the total.
pub assess_and_reserve_lem :
    (g : WorkflowCostGovernor) (role other : String) (used : ℕ)
    → ((is_granted (assess_and_reserve role used g).1.decision ≡ true) ↔ (
        (max used g.reserved_total < grant_bound g.complexity g.hard_limit)
        × ((str_eq g.complexity "complex" ≡ true)
            ⊎ (at_limit (lookup role standard_role_limits) (calls_of role g.role_calls) ≡ false))))
      × (is_granted (assess_and_reserve role used g).1.decision ≡ false
          → (assess_and_reserve role used g).0 ≡ g)
      × (is_granted (assess_and_reserve role used g).1.decision ≡ true
          → ((assess_and_reserve role used g).0.reserved_total ≡ g.reserved_total + 1)
            × (calls_of other (assess_and_reserve role used g).0.role_calls
                ≡ calls_of other g.role_calls + (if str_eq role other then 1 else 0)))
unfolding assess_and_reserve calls_of
assess_and_reserve_lem g role other used = (
  (λ h. ground arith, λ h. ground arith),
  λ h. ground arith,
  λ h. (
    ground arith,
    ground (
      arith,
      lookup-insert role other (calls_of role g.role_calls + 1) g.role_calls,
      eq_iff role other,
    ),
  ),
)
