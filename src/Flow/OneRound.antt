-- ===== src/Flow/OneRound.antt =====
-- A round of a valid plan: the run leaves the loop, or has fewer tries left.
use ai_team_os.Prelude.{
  ℕ, ◌≤◌, ◌<◌, String, ◌≡◌, ◌≢◌, refl, sym, subst, ap, ◌∙◌, ◌⊎◌, inl, inr, true, not, Option, none,
  some, List, [], ◌∷◌, map, any, is_nil, filter, All, All-imp, All-and, All-map, All-of-map,
  map-cong, map-map, eq_iff, arith, Option-cases, Bool-cases, ok,
}
use ai_team_os.Plan.Schemas.{Plan, SubtaskSpec}
use ai_team_os.Plan.Registry.{AgentRegistry}
use ai_team_os.Plan.Envelope.{PlanningEnvelope, ids_of}
use ai_team_os.Plan.Validator.Defs.{validate_plan}
use ai_team_os.Plan.Validator.Checks.{validate_plan-ok_iff}
use ai_team_os.Plan.Validator.Spec.{AreDistinct}
use ai_team_os.Flow.Defs.{SubtaskState, passed, active_rejected}
use ai_team_os.Flow.Reviewer.{max_rework_for}
use ai_team_os.Flow.Review.{Surroundings, review_all, ReplanReason}
use ai_team_os.Flow.Routes.{
  Route, to_plan, to_dispatch, to_finalize, to_fail_rework_limit, ready_among, active_pending,
  route_dispatch, route_after_review,
}
use ai_team_os.Flow.Retries.{no_blind_retry}
use ai_team_os.Flow.Progress.{IsSettled, AllPassed, valid_plan_progress}
use ai_team_os.Flow.Execute.{Workers}
use ai_team_os.Flow.Rounds.{
  Outcome, crashed, conflicted, clash, again, leaves, id_of, is_sent, go_to, round,
}
use ai_team_os.Flow.Conflicts.{cannot_run, clash-cannot_run}
use ai_team_os.Flow.Steps.{IsWithin}
use ai_team_os.Flow.Descent.{
  total, any-of-head, some_sent, after_round, one_round, round-IsSettled, round-spec, total_lem,
  executions, round-eq, round-conflicted, reviewed-eq, sent_waits,
}

-- The subtasks are those of the plan, settled, and within the limit of rework of the task.
pub record IsRunning (plan : Plan) (limit : ℕ) (ss : List SubtaskState) : Type 0 where
  pub specs : map (λ (s : SubtaskState). s.spec) ss ≡ plan.subtasks
  pub settled : All IsSettled ss
  pub within : All (IsWithin limit) ss

-- The run left the loop for a new plan, or because every subtask of the plan has passed, or by two
-- reasons to replan at once, which takes some `Cause`.
abbrev pub IsLeft : Type 0 → Outcome → Type 0
IsLeft Cause crashed = ⊥
IsLeft Cause conflicted = Cause
IsLeft Cause (again ss) = ⊥
IsLeft Cause (leaves route ss) = (route ≡ to_plan) ⊎ ((route ≡ to_finalize) × AllPassed ss)

-- The run left the loop, or goes on with fewer tries left.
abbrev pub Advances : Type 0 → Plan → ℕ → ℕ → Outcome → Type 0
Advances Cause plan limit tries crashed = ⊥
Advances Cause plan limit tries conflicted = Cause
Advances Cause plan limit tries (again ss) = IsRunning plan limit ss × (total limit ss < tries)
Advances Cause plan limit tries (leaves route ss) =
    (route ≡ to_plan) ⊎ ((route ≡ to_finalize) × AllPassed ss)

none_active :
    (table ss : List SubtaskState)
    → AllPassed ss
    → (is_nil (filter active_rejected ss) ≡ true) × (ready_among active_pending table ss ≡ some [])
unfolding ready_among
none_active table [] a = (refl, refl)
none_active table (s ∷ ss) a =
    let (x, y) = none_active table ss a.1 in (ground (arith, a.0, x), ground (arith, a.0, y))

-- When all have passed, nothing is dispatched again.
passed_leaves :
    (complexity : String) (replans : ℕ) (reason : Option ReplanReason) (ss : List SubtaskState)
    → AllPassed ss
    → route_after_review complexity replans reason ss ≢ some to_dispatch
unfolding route_after_review
passed_leaves c n (some r) ss a = λ h. cc h
passed_leaves c n none ss a =
    let (x, y) = none_active (filter (λ s. not s.superseded) ss) ss a in
    λ h. ground (arith, h, x, y)

ids-eq : (ss : List SubtaskState) → map id_of ss ≡ ids_of (map (λ (s : SubtaskState). s.spec) ss)
ids-eq ss = sym (map-map (λ (p : SubtaskSpec). p.subtask_id) (λ (s : SubtaskState). s.spec) ss)

sent_or_done :
    (ss : List SubtaskState) (ids : List String)
    → route_dispatch ss ≡ some ids
    → (any (is_sent ids) ss ≡ true) ⊎ (ids ≡ [])
unfolding route_dispatch
sent_or_done ss [] h = inr refl
sent_or_done ss (i ∷ ids) h =
    inl (any-of-head (i ∷ ids) i ss (some_sent ss ss i ids h) (ground (arith, eq_iff i i)))

module _ (plan : Plan) (registry : AgentRegistry) (budget : ℕ) (envelope : Option PlanningEnvelope)
    (valid : validate_plan plan registry budget envelope ≡ ok tt) where
  distinct_ids :
      (ss : List SubtaskState)
      → map (λ (s : SubtaskState). s.spec) ss ≡ plan.subtasks
      → AreDistinct (map id_of ss)
  distinct_ids ss same =
      subst AreDistinct (ap ids_of (sym same) ∙ sym (ids-eq ss))
        ((validate_plan-ok_iff plan registry budget envelope).0 valid).distinct

  module _ (w : Surroundings) (k : Workers) (replans : ℕ) (ss : List SubtaskState)
      (r : IsRunning plan (max_rework_for w.complexity) ss) (ids : List String)
      (Cause : Type 0) where
    abbrev allowed : ℕ
    allowed = max_rework_for w.complexity

    abbrev ts : List SubtaskState
    ts = executions w k replans ss ids

    abbrev rs : List SubtaskState
    rs = (review_all w ts).subtasks

    abbrev step : SubtaskState → SubtaskState
    step = after_round w k ss ts ids

    rs-IsSettled : All IsSettled rs
    rs-IsSettled =
        subst (All IsSettled) (sym (reviewed-eq w k replans ss ids))
          (All-map IsSettled step ss (All-imp _ _ ss (round-IsSettled w k ss ts ids) r.settled))

    rs-specs : map (λ (s : SubtaskState). s.spec) rs ≡ plan.subtasks
    rs-specs =
        ap (map (λ (s : SubtaskState). s.spec)) (reviewed-eq w k replans ss ids)
        ∙ map-map (λ (s : SubtaskState). s.spec) step ss
        ∙ map-cong _ _ ss (All-imp _ _ ss (round-spec w k ss ts ids) r.settled)
        ∙ r.specs

    still_passed : AllPassed ss → AllPassed rs
    still_passed passed_all = subst AllPassed (sym (reviewed-eq w k replans ss ids)) (
        All-map (λ (s : SubtaskState). s.runtime_status ≡ passed) step ss
          (All-imp _ _ ss (λ s (h, p). kept s h p) (All-and _ _ ss r.settled passed_all)))
      where
        kept :
            (s : SubtaskState)
            → IsSettled s
            → s.runtime_status ≡ passed
            → (step s).runtime_status ≡ passed
        kept s h p = elim (one_round w k ss ts ids s h) [
          | inl (e, x) ↦ absurd (ground (arith, sent_waits w k ss ts ids s e, p))
          | inr (e, x) ↦ ap (λ (t : SubtaskState). t.runtime_status) x ∙ p
        ]

    some-is_sent :
        route_dispatch ss ≡ some ids
        → route_after_review w.complexity replans (review_all w ts).replan_reason rs
          ≡ some to_dispatch
        → any (is_sent ids) ss ≡ true
    some-is_sent sent h = elim (sent_or_done ss ids sent) [
      | inl e ↦ e
      | inr nil ↦
          let done =
            (valid_plan_progress plan registry budget envelope ss w.complexity replans none valid
                r.specs r.settled).1
              (subst (λ l. route_dispatch ss ≡ some l) nil sent) in
          absurd (
            passed_leaves w.complexity replans (review_all w ts).replan_reason rs
              (still_passed done) h)
    ]

    -- Going back to dispatch.
    back :
        route_dispatch ss ≡ some ids
        → route_after_review w.complexity replans (review_all w ts).replan_reason rs
          ≡ some to_dispatch
        → IsRunning plan allowed rs × (total allowed rs < total allowed ss)
    back sent h =
        let retry = (no_blind_retry w ts replans).0 h in
        let again =
          All-of-map (λ s. active_rejected s ≡ true → s.rework_count ≤ allowed) step ss
            (subst (All (λ s. active_rejected s ≡ true → s.rework_count ≤ allowed))
              (reviewed-eq w k replans ss ids) (All-imp _ _ rs (λ s c u. (c u).below) retry)) in
        let (within, fewer, less) = total_lem w k ss ts ids allowed ss r.settled r.within again in
        (
          record {
            specs = rs-specs;
            settled = rs-IsSettled;
            within =
                subst (All (IsWithin allowed)) (sym (reviewed-eq w k replans ss ids))
                  (All-map (IsWithin allowed) step ss within);
          },
          subst (λ l. total allowed l < total allowed ss) (sym (reviewed-eq w k replans ss ids))
              (less (some-is_sent sent h)),
        )

    by_route :
        (route : Route)
        → route_dispatch ss ≡ some ids
        → route_after_review w.complexity replans (review_all w ts).replan_reason rs ≡ some route
        → Advances Cause plan allowed (total allowed ss) (go_to rs (some route))
    by_route to_dispatch sent h = back sent h
    by_route to_plan sent h = inl refl
    by_route to_finalize sent h = inr (
      refl,
      (valid_plan_progress plan registry budget envelope rs w.complexity replans
            (review_all w ts).replan_reason valid rs-specs rs-IsSettled).3
          h,
    )
    by_route to_fail_rework_limit sent h = absurd ((no_blind_retry w ts replans).1 h)

    routed :
        route_dispatch ss ≡ some ids
        → Advances Cause plan allowed
            (total allowed ss)
            (go_to rs (route_after_review w.complexity replans (review_all w ts).replan_reason rs))
    routed sent =
        elim (Option-cases
          (route_after_review w.complexity replans (review_all w ts).replan_reason rs)) [
            | inl n ↦ absurd (
                (valid_plan_progress plan registry budget envelope rs w.complexity replans
                    (review_all w ts).replan_reason valid rs-specs rs-IsSettled).2
                  n)
            | inr (route, e) ↦
                subst (λ o. Advances Cause plan allowed (total allowed ss) (go_to rs o)) (sym e)
                  (by_route route sent e)
          ]

  -- One round.
  pub round_lem :
      (Cause : Type 0) (w : Surroundings) (k : Workers) (replans : ℕ) (ss : List SubtaskState)
      → IsRunning plan (max_rework_for w.complexity) ss
      → (any (cannot_run k) plan.subtasks ≡ true → Cause)
      → Advances Cause plan
          (max_rework_for w.complexity)
          (total (max_rework_for w.complexity) ss)
          (round w k replans ss)
  round_lem Cause w k replans ss r cause = elim (Option-cases (route_dispatch ss)) [
    | inl n ↦ absurd (
        (valid_plan_progress plan registry budget envelope ss w.complexity replans none valid
            r.specs r.settled).0
          n)
    | inr (ids, e) ↦ elim (Bool-cases (clash k ids ss)) [
      | inl clashes ↦
          subst
            (Advances Cause plan (max_rework_for w.complexity)
              (total (max_rework_for w.complexity) ss))
            (sym (round-conflicted w k replans ss ids clashes e))
            (cause (
              subst (λ l. any (cannot_run k) l ≡ true) r.specs (clash-cannot_run k ids ss clashes)))
      | inr quiet ↦
          subst
            (Advances Cause plan (max_rework_for w.complexity)
              (total (max_rework_for w.complexity) ss))
            (sym (round-eq w k replans ss ids (distinct_ids ss r.specs) quiet e))
            (routed w k replans ss r ids Cause e)
    ]
  ]
