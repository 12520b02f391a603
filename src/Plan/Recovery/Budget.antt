-- ===== src/Plan/Recovery/Budget.antt =====
-- The recovery plan passes the validator exactly when the budget covers its floor of 500 tokens
-- for each subtask.
use ai_team_os.Prelude.{
  ℕ, ◌+◌, ◌*◌, ◌≤◌, max, String, Text, ◌≡◌, ◌≢◌, refl, ◌↔◌, ◌⊎◌, true, false, some, List, [], ◌∷◌,
  arith, inl, inr, leb, ok,
}
use ai_team_os.Plan.Schemas.{SubtaskSpec, Plan}
use ai_team_os.Plan.Registry.{default_registry}
use ai_team_os.Plan.Complexity.{TaskComplexity, trivial, simple, standard, complex}
use ai_team_os.Plan.Shape.{
  TaskShape, read_only_research, code_analysis, direct_response, code_change, windows_action,
  multi_step_delivery, Capability, capabilities_for_shape,
}
use ai_team_os.Plan.Envelope.{PlanningEnvelope, for_task, min_limit}
use ai_team_os.Plan.Validator.Defs.{validate_plan, total_budget}
use ai_team_os.Plan.Validator.Checks.{validate_plan-ok_iff}
use ai_team_os.Plan.Validator.Spec.{IsValidPlan}
use ai_team_os.Plan.Recovery.Defs.{
  each_budget, research_tool, research_plan, analysis_tool, analysis_plan, bounded_plan_for_shape,
  plan_by_shape,
}
use ai_team_os.Plan.Recovery.Valid.{
  IsOfTask, for_task-IsOfTask, research_tool-IsKnown, analysis_tool-IsKnown, research_two,
  research_three, analysis_two, analysis_three,
}

-- The number of subtasks of the plan is that of the smallest plan allowed, and at least two.
abbrev pub plan_size : TaskComplexity → ℕ
plan_size c = max (min_limit c) 2

abbrev Accepts : Text → List SubtaskSpec → ℕ → PlanningEnvelope → Type 0
Accepts goal ss tokens e =
    validate_plan (record { goal = goal; subtasks = ss }) default_registry tokens (some e) ≡ ok tt

abbrev accepted :
    (goal : Text) (ss : List SubtaskSpec) (tokens : ℕ) (e : PlanningEnvelope)
    → Accepts goal ss tokens e
      ↔ IsValidPlan (record { goal = goal; subtasks = ss }) default_registry tokens (some e)
accepted goal ss tokens e =
    validate_plan-ok_iff (record { goal = goal; subtasks = ss }) default_registry tokens (some e)

module _ (goal : Text) (tokens : ℕ) (e : PlanningEnvelope) (same : e.token_budget ≡ tokens) where
  floor_two : e.min_subtasks ≤ 2 → (each_budget e + each_budget e ≤ tokens) ↔ (1000 ≤ tokens)
  unfolding each_budget
  floor_two lo = (λ h. ground arith, λ h. ground arith)

  floor_three :
      e.min_subtasks ≡ 3
      → (each_budget e + each_budget e + each_budget e ≤ tokens) ↔ (1500 ≤ tokens)
  unfolding each_budget
  floor_three lo = (λ h. ground arith, λ h. ground arith)

  research_by_two :
      e.min_subtasks ≤ 2
      → 2 ≤ e.max_subtasks
      → e.allowed_capabilities ≡ Capability.research ∷ []
      → Accepts goal (research_plan goal e) tokens e ↔ (1000 ≤ tokens)
  unfolding research_plan total_budget
  research_by_two lo hi caps =
      let small : leb 3 e.min_subtasks ≡ false = ground arith in
      let ok_iff = accepted goal (research_plan goal e) tokens e in
      (
        λ h. (floor_two lo).0 (ground (arith, (ok_iff.0 h).affordable)),
        λ h. ok_iff.1 (
            rw small (
              research_two goal tokens e (research_tool goal e) (each_budget e)
                (research_tool-IsKnown goal e) lo hi caps ((floor_two lo).1 h))),
      )

  research_by_three :
      e.min_subtasks ≡ 3
      → 3 ≤ e.max_subtasks
      → e.allowed_capabilities ≡ Capability.research ∷ []
      → Accepts goal (research_plan goal e) tokens e ↔ (1500 ≤ tokens)
  unfolding research_plan total_budget
  research_by_three lo hi caps =
      let large : leb 3 e.min_subtasks ≡ true = ground arith in
      let ok_iff = accepted goal (research_plan goal e) tokens e in
      (
        λ h. (floor_three lo).0 (ground (arith, (ok_iff.0 h).affordable)),
        λ h. ok_iff.1 (
            rw large (
              research_three goal tokens e (research_tool goal e) (each_budget e)
                (research_tool-IsKnown goal e) (omega arith) hi caps ((floor_three lo).1 h))),
      )

  analysis_by_two :
      e.min_subtasks ≤ 2
      → 2 ≤ e.max_subtasks
      → e.allowed_capabilities ≡ Capability.analysis ∷ Capability.research ∷ []
      → Accepts goal (analysis_plan goal e) tokens e ↔ (1000 ≤ tokens)
  unfolding analysis_plan total_budget
  analysis_by_two lo hi caps =
      let small : leb 3 e.min_subtasks ≡ false = ground arith in
      let ok_iff = accepted goal (analysis_plan goal e) tokens e in
      (
        λ h. (floor_two lo).0 (ground (arith, (ok_iff.0 h).affordable)),
        λ h. ok_iff.1 (
            rw small (
              analysis_two goal tokens e (analysis_tool e) (each_budget e) (analysis_tool-IsKnown e)
                lo hi caps ((floor_two lo).1 h))),
      )

  analysis_by_three :
      e.min_subtasks ≡ 3
      → 3 ≤ e.max_subtasks
      → e.allowed_capabilities ≡ Capability.analysis ∷ Capability.research ∷ []
      → Accepts goal (analysis_plan goal e) tokens e ↔ (1500 ≤ tokens)
  unfolding analysis_plan total_budget
  analysis_by_three lo hi caps =
      let large : leb 3 e.min_subtasks ≡ true = ground arith in
      let ok_iff = accepted goal (analysis_plan goal e) tokens e in
      (
        λ h. (floor_three lo).0 (ground (arith, (ok_iff.0 h).affordable)),
        λ h. ok_iff.1 (
            rw large (
              analysis_three goal tokens e (analysis_tool e) (each_budget e)
                (analysis_tool-IsKnown e) (omega arith) hi caps ((floor_three lo).1 h))),
      )

  research_case :
      (c : TaskComplexity)
      → c ≢ trivial
      → IsOfTask c tokens e
      → e.task_shape ≡ read_only_research
      → Accepts goal (research_plan goal e) tokens e ↔ (500 * plan_size c ≤ tokens)
  unfolding capabilities_for_shape
  research_case trivial n f s = absurd (n refl)
  research_case simple n f s =
      research_by_two (omega (arith, f.lower)) (ground (arith, f.upper)) (ground (arith, f.allowed))
  research_case standard n f s =
      research_by_two (omega (arith, f.lower)) (ground (arith, f.upper)) (ground (arith, f.allowed))
  research_case complex n f s =
      research_by_three (omega (arith, f.lower)) (ground (arith, f.upper))
        (ground (arith, f.allowed))

  analysis_case :
      (c : TaskComplexity)
      → c ≢ trivial
      → IsOfTask c tokens e
      → e.task_shape ≡ code_analysis
      → Accepts goal (analysis_plan goal e) tokens e ↔ (500 * plan_size c ≤ tokens)
  unfolding capabilities_for_shape
  analysis_case trivial n f s = absurd (n refl)
  analysis_case simple n f s =
      analysis_by_two (omega (arith, f.lower)) (ground (arith, f.upper)) (ground (arith, f.allowed))
  analysis_case standard n f s =
      analysis_by_two (omega (arith, f.lower)) (ground (arith, f.upper)) (ground (arith, f.allowed))
  analysis_case complex n f s =
      analysis_by_three (omega (arith, f.lower)) (ground (arith, f.upper))
        (ground (arith, f.allowed))

-- The recovery plan of a shape, with the shape.
abbrev MadeBy : Text → PlanningEnvelope → TaskShape → Plan → Type 0
MadeBy goal e s p =
    ((s ≡ read_only_research) × (p ≡ record { goal = goal; subtasks = research_plan goal e }))
    ⊎ ((s ≡ code_analysis) × (p ≡ record { goal = goal; subtasks = analysis_plan goal e }))

Shape-cases :
    (goal : Text) (e : PlanningEnvelope) (s : TaskShape) (p : Plan)
    → plan_by_shape goal e s ≡ some p
    → MadeBy goal e s p
Shape-cases goal e read_only_research p h = inl (refl, cc h)
Shape-cases goal e code_analysis p h = inr (refl, cc h)
Shape-cases goal e direct_response p h = ground arith
Shape-cases goal e code_change p h = ground arith
Shape-cases goal e windows_action p h = ground arith
Shape-cases goal e multi_step_delivery p h = ground arith

-- For the envelope of a goal that is not trivial, a recovery plan passes the validator under the
-- default registry, with the budget of the task and within that envelope, exactly when the budget
-- is at least 500 tokens for each of its subtasks, which are two, and three for complex work.
pub recovery_valid_iff :
    (asked goal : Text) (c : TaskComplexity) (tools : List String) (tokens calls : ℕ)
    (e : PlanningEnvelope) (p : Plan)
    → c ≢ trivial
    → for_task asked c tools tokens calls ≡ some e
    → bounded_plan_for_shape goal e ≡ some p
    → (validate_plan p default_registry tokens (some e) ≡ ok tt) ↔ (500 * plan_size c ≤ tokens)
unfolding bounded_plan_for_shape
recovery_valid_iff asked goal c tools tokens calls e p n h b =
    let f = for_task-IsOfTask asked c tools tokens calls e h in
    elim (Shape-cases goal e e.task_shape p b) [
      | inl (s, q) ↦ rw q (research_case goal tokens e f.budget c n f s)
      | inr (s, q) ↦ rw q (analysis_case goal tokens e f.budget c n f s)
    ]
