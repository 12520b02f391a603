-- ===== src/Plan/Validator/Checks.antt =====
-- What it means that a plan passes `validate_plan`.
use ai_team_os.Plan.Validator.Spec.{AreDistinct, FitsEnvelope, IsExecutable, FitsCount, IsValidPlan}
use ai_team_os.Prelude.{
  ℕ, String, ◌≡◌, ◌≢◌, refl, ◌↔◌, ◌⊎◌, Bool, true, false, Option, none, some, List, [], ◌∷◌, eq_iff,
  elem, length, all, All, arith, inl, inr, ltb, ok, >>-eq-ok, for_each, refuse, Option-cases,
}
use ai_team_os.Plan.Schemas.{AgentSpec, SubtaskSpec, Plan, capability_of}
use ai_team_os.Plan.Registry.{AgentRegistry, get}
use ai_team_os.Plan.Shape.{route}
use ai_team_os.Plan.Envelope.{PlanningEnvelope, ids_of}
use ai_team_os.Plan.Validator.Defs.{
  Check, check_count, check_capability, check_links, check_agent, check_subtask, assert_acyclic,
  has_duplicate, total_budget, validate_plan, max_subtasks, executable_roles, is_empty,
}
use ai_team_os.Plan.Validator.Acyclic.{assert_acyclic-ok_iff}

for_each-ok {ℓ} :
    {A : Type ℓ} (check : A → Check) (xs : List A)
    → (for_each check xs ≡ ok tt) ↔ All (λ x. check x ≡ ok tt) xs
for_each-ok check [] = (λ h. tt, λ h. refl)
for_each-ok check (x ∷ xs) = (
  λ h. let (a, b) = >>-eq-ok (check x) (for_each check xs) h in (a, (for_each-ok check xs).0 b),
  λ h. rw h.0 ((for_each-ok check xs).1 h.1),
)

All_iff {ℓ κ ι} :
    {A : Type ℓ} (P : A → Type κ) (Q : A → Type ι) (xs : List A)
    → ((x : A) → P x ↔ Q x)
    → All P xs ↔ All Q xs
All_iff P Q [] h = (λ a. tt, λ a. tt)
All_iff P Q (x ∷ xs) h =
    (λ a. ((h x).0 a.0, (All_iff P Q xs h).0 a.1), λ a. ((h x).1 a.0, (All_iff P Q xs h).1 a.1))

all-ok {ℓ} :
    {A : Type ℓ} (p : A → Bool) (xs : List A) → (all p xs ≡ true) ↔ All (λ x. p x ≡ true) xs
all-ok p [] = (λ h. tt, λ h. refl)
all-ok p (x ∷ xs) =
    (λ h. (ground arith, (all-ok p xs).0 (ground arith)), λ h. ground (arith, (all-ok p xs).1 h.1))

distinct_iff : (xs : List String) → (has_duplicate xs ≡ false) ↔ AreDistinct xs
distinct_iff [] = (λ h. tt, λ h. refl)
distinct_iff (x ∷ xs) = (
  λ h. (ground arith, (distinct_iff xs).0 (ground arith)),
  λ h. ground (arith, (distinct_iff xs).1 h.1),
)

check_capability-ok :
    (e : Option PlanningEnvelope) (s : SubtaskSpec)
    → (check_capability e s ≡ ok tt) ↔ FitsEnvelope e s
unfolding check_capability
check_capability-ok none s = (λ h. tt, λ h. refl)
check_capability-ok (some e) s = elim (Option-cases (route (capability_of s))) [
  | inl n ↦ ((λ h. absurd (ground arith)), λ h. absurd (ground arith))
  | inr (role, r) ↦ (
    (λ h. (ground arith, ground (arith, eq_iff s.assigned_role role))),
    λ h. ground (arith, eq_iff s.assigned_role role),
  )
]

check_links-ok :
    (e : Option PlanningEnvelope) (ids : List String) (s : SubtaskSpec)
    → (check_links e ids s ≡ ok tt)
      ↔ (FitsEnvelope e s × All (λ d. elem d ids ≡ true) s.dependencies)
unfolding check_links
check_links-ok e ids s = (
  λ h.
      let (a, b) = >>-eq-ok (check_capability e s) _ h in
      ((check_capability-ok e s).0 a, (all-ok (λ d. elem d ids) s.dependencies).0 (ground arith)),
  λ h.
      rw ((check_capability-ok e s).1 h.0)
        (ground (arith, (all-ok (λ d. elem d ids) s.dependencies).1 h.1)),
)

role_iff :
    (role : String)
    → (elem role executable_roles ≡ true) ↔ ((role ≡ "executor") ⊎ (role ≡ "researcher"))
role_iff role = (
  λ h. ground (arith, eq_iff role "executor", eq_iff role "researcher"),
  λ h. ground (arith, eq_iff role "executor", eq_iff role "researcher"),
)

check_agent-ok :
    (s : SubtaskSpec) (a : AgentSpec)
    → (check_agent s (some a) ≡ ok tt) ↔ (
        (elem s.assigned_role executable_roles ≡ true)
        × (a.enabled ≡ true)
        × (all (λ t. elem t a.allowed_tools) s.required_tools ≡ true))
check_agent-ok s a = (λ h. (ground arith, ground arith, ground arith), λ h. ground arith)

nonempty_iff {ℓ} : {A : Type ℓ} (xs : List A) → (is_empty xs ≡ false) ↔ (xs ≢ [])
nonempty_iff [] = (λ h. absurd (cc), λ h. absurd (h refl))
nonempty_iff (x ∷ xs) = (λ h e. cc, λ h. refl)

check_subtask-ok :
    (registry : AgentRegistry) (s : SubtaskSpec)
    → (check_subtask registry s ≡ ok tt) ↔ IsExecutable registry s
unfolding check_subtask
check_subtask-ok registry s = (
  λ h. elim (Option-cases (get s.assigned_role registry)) [
    | inl e ↦ absurd (ground arith)
    | inr (a, e) ↦
        let passed : check_agent s (some a) ≡ ok tt = ground arith in
        let (role, on, allowed) = (check_agent-ok s a).0 passed in
        record {
          output = (nonempty_iff s.expected_output).0 (ground arith);
          criteria = (nonempty_iff s.acceptance_criteria).0 (ground arith);
          agent = (a, e, on, (all-ok (λ t. elem t a.allowed_tools) s.required_tools).0 allowed);
          role = (role_iff s.assigned_role).0 role;
        }
  ],
  λ h.
      let (a, e, on, allowed) = h.agent in
      let passed = (check_agent-ok s a).1 (
        (role_iff s.assigned_role).1 h.role,
        on,
        (all-ok (λ t. elem t a.allowed_tools) s.required_tools).1 allowed,
      ) in
      rw
        (
          (nonempty_iff s.expected_output).1 h.output,
          (nonempty_iff s.acceptance_criteria).1 h.criteria,
          e,
        )
        passed,
)

count_iff :
    (ss : List SubtaskSpec) (e : Option PlanningEnvelope)
    → (check_count ss e ≡ ok tt) ↔ FitsCount ss e
count_iff ss none = (λ h. tt, λ h. refl)
count_iff ss (some e) = (λ h. (ground arith, ground arith), λ h. ground arith)

links_iff :
    (e : Option PlanningEnvelope) (ids : List String) (ss : List SubtaskSpec)
    → (for_each (check_links e ids) ss ≡ ok tt) ↔ (
        All (FitsEnvelope e) ss
        × All (λ (s : SubtaskSpec). All (λ d. elem d ids ≡ true) s.dependencies) ss)
links_iff e ids [] = (λ h. (tt, tt), λ h. refl)
links_iff e ids (s ∷ ss) = (
  λ h.
      let (a, b) = >>-eq-ok (check_links e ids s) (for_each (check_links e ids) ss) h in
      let (fit, known) = (check_links-ok e ids s).0 a in
      let (fits, knowns) = (links_iff e ids ss).0 b in ((fit, fits), (known, knowns)),
  λ h. rw ((check_links-ok e ids s).1 (h.0.0, h.1.0)) ((links_iff e ids ss).1 (h.0.1, h.1.1)),
)

IsExecutable-iff :
    (registry : AgentRegistry) (ss : List SubtaskSpec)
    → (for_each (check_subtask registry) ss ≡ ok tt) ↔ All (IsExecutable registry) ss
IsExecutable-iff registry ss =
    let each = for_each-ok (check_subtask registry) ss in
    let same =
      All_iff (λ s. check_subtask registry s ≡ ok tt) (IsExecutable registry) ss
        (check_subtask-ok registry) in
    (λ h. same.0 (each.0 h), λ h. each.1 (same.1 h))

-- `validate_plan` accepts a plan exactly when: it has at most eight subtasks, and as many as the
-- envelope allows; their ids are distinct; each has a capability of the envelope and the role
-- that serves it, and depends on subtasks of the plan only; the dependencies can be ordered; the
-- budgets sum to at most that of the task; and each subtask has a product, a criterion, and a
-- registered, executable, enabled role that may use its tools.
pub validate_plan-ok_iff :
    (plan : Plan) (registry : AgentRegistry) (budget : ℕ) (envelope : Option PlanningEnvelope)
    → (validate_plan plan registry budget envelope ≡ ok tt)
      ↔ IsValidPlan plan registry budget envelope
unfolding validate_plan
validate_plan-ok_iff plan registry budget envelope =
    let ss = plan.subtasks in
    (
      λ h.
          let (c1, h1) = >>-eq-ok (refuse (ltb max_subtasks (length ss)) _) _ h in
          let (c2, h2) = >>-eq-ok (check_count ss envelope) _ h1 in
          let (c3, h3) = >>-eq-ok (refuse (has_duplicate (ids_of ss)) _) _ h2 in
          let (c4, h4) = >>-eq-ok (for_each (check_links envelope (ids_of ss)) ss) _ h3 in
          let (c5, h5) = >>-eq-ok (assert_acyclic ss) _ h4 in
          let (c6, h6) = >>-eq-ok (refuse (ltb budget (total_budget ss)) _) _ h5 in
          let (fits, known) = (links_iff envelope (ids_of ss) ss).0 c4 in
          record {
            count = ground arith;
            in_envelope = (count_iff ss envelope).0 c2;
            distinct = (distinct_iff (ids_of ss)).0 (ground arith);
            fits = fits;
            known = known;
            ordered = (assert_acyclic-ok_iff ss known).0.0 c5;
            affordable = ground arith;
            executable = (IsExecutable-iff registry ss).0 h6;
          },
      λ v.
          let few : ltb max_subtasks (length ss) ≡ false = ground (arith, v.count) in
          let cheap : ltb budget (total_budget ss) ≡ false = ground (arith, v.affordable) in
          rw
            (
              few,
              (count_iff ss envelope).1 v.in_envelope,
              (distinct_iff (ids_of ss)).1 v.distinct,
              (links_iff envelope (ids_of ss) ss).1 (v.fits, v.known),
              (assert_acyclic-ok_iff ss v.known).0.1 v.ordered,
              cheap,
            )
            ((IsExecutable-iff registry ss).1 v.executable),
    )
