-- ===== src/Flow/Progress.antt =====
-- A run of a valid plan never waits for ever and is never finished early.
use ai_team_os.Prelude.{
  ℕ, suc, String, ◌≡◌, ◌≢◌, sym, subst, ◌↔◌, ◌⊎◌, inl, inr, Bool, true, false, not, Option, none,
  some, List, [], ◌∷◌, map, is_nil, filter, All, All-of-map, All-trivial, All-imp, All-and, arith,
  Bool-cases, ok,
}
use ai_team_os.Plan.Schemas.{Plan}
use ai_team_os.Plan.Registry.{AgentRegistry}
use ai_team_os.Plan.Envelope.{PlanningEnvelope}
use ai_team_os.Plan.Validator.Defs.{validate_plan}
use ai_team_os.Plan.Validator.Acyclic.{HasKnownDependencies, CanBeOrdered}
use ai_team_os.Plan.Validator.Checks.{validate_plan-ok_iff}
use ai_team_os.Plan.Validator.Spec.{IsValidPlan}
use ai_team_os.Flow.Defs.{
  SubtaskState, RuntimeStatus, pending, passed, rejected, is_passed, active_rejected,
}
use ai_team_os.Flow.Review.{ReplanReason}
use ai_team_os.Flow.Routes.{
  to_finalize, all_passed, ready_among, to_send, route_dispatch, active_pending, route_after_review,
}
use ai_team_os.Flow.Ready.{
  filter-all, Below, passed_or_blocked, ready_among-nil, IsBlocked, descend,
}

-- A subtask of the current plan that no execution is running, and whose review is done.
pub record IsSettled (s : SubtaskState) : Type 0 where
  pub active : s.superseded ≡ false
  pub settled :
      (s.runtime_status ≡ pending) ⊎ (s.runtime_status ≡ passed) ⊎ (s.runtime_status ≡ rejected)

abbrev pub AllPassed : List SubtaskState → Type 0
AllPassed = All (λ (s : SubtaskState). s.runtime_status ≡ passed)

-- The dependencies of each subtask of `ss` are known and come before it.
abbrev AreLinked : (String → ℕ) → List SubtaskState → Type 0
AreLinked number ss =
    All (λ (s : SubtaskState). All (Below number ss (number s.spec.subtask_id)) s.spec.dependencies)
      ss

passed_iff : (r : RuntimeStatus) → (is_passed r ≡ true) ↔ (r ≡ passed)
passed_iff r = ground arith

module _ (number : String → ℕ) (ss : List SubtaskState) (linked : AreLinked number ss) where
  never_missing : All (λ (s : SubtaskState). all_passed ss s.spec.dependencies ≢ none) ss
  never_missing =
      All-imp _ _ ss
        (λ s b.
          elim (passed_or_blocked number ss (λ t. Unit {0}) (number s.spec.subtask_id)
            s.spec.dependencies (All-trivial ss) b) [
              | inl e ↦ λ n. cc (e, n)
              | inr (e, t) ↦ λ n. cc (e, n)
            ])
        linked

  -- When every subtask that has not passed is admitted, the list of the ready ones is there, and is
  -- empty only when all have passed.
  ready_or_done :
      (admits : SubtaskState → Bool)
      → All (λ (s : SubtaskState). is_passed s.runtime_status ≡ false → admits s ≡ true) ss
      → (ids : List String) × (ready_among admits ss ss ≡ some ids)
        × (is_nil ids ≡ true → AllPassed ss)
  ready_or_done admits admitted =
      let (ids, e, blocked) = ready_among-nil admits ss ss never_missing in
      (ids, e, λ h. done (blocked h))
    where
      done :
          All
            (λ (s : SubtaskState). admits s ≡ true → all_passed ss s.spec.dependencies ≡ some false)
            ss
          → AllPassed ss
      done stuck =
          let all =
            All-imp _ (IsBlocked number admits ss) ss
              (λ s (l, (a, b)). record { links = l; admitted = a; blocked = b })
              (All-and _ _ ss linked (All-and _ _ ss admitted stuck)) in
          All-imp (IsBlocked number admits ss) (λ (s : SubtaskState). s.runtime_status ≡ passed) ss
            (λ s b.
              (passed_iff s.runtime_status).0
                (descend number admits ss all (suc (number s.spec.subtask_id)) s b (omega arith)))
            all

linked_of :
    (plan : Plan) (registry : AgentRegistry) (budget : ℕ) (envelope : Option PlanningEnvelope)
    (ss : List SubtaskState)
    → IsValidPlan plan registry budget envelope
    → map (λ (s : SubtaskState). s.spec) ss ≡ plan.subtasks
    → (number : String → ℕ) × AreLinked number ss
linked_of plan registry budget envelope ss v same =
    let specs = map (λ (s : SubtaskState). s.spec) ss in
    let known : HasKnownDependencies specs = subst HasKnownDependencies (sym same) v.known in
    let (number, order) : CanBeOrdered specs = subst CanBeOrdered (sym same) v.ordered in
    (
      number,
      All-of-map _ (λ (s : SubtaskState). s.spec) ss
          (All-imp _ _ specs (λ s (k, o). All-and _ _ s.dependencies k o)
            (All-and _ _ specs known order)),
    )

-- Of a settled subtask that has not passed.
sent_iff : (s : SubtaskState) → IsSettled s → is_passed s.runtime_status ≡ false → to_send s ≡ true
sent_iff s h u = ground (arith, h.active, h.settled)

waiting :
    (s : SubtaskState)
    → IsSettled s
    → active_rejected s ≡ false
    → is_passed s.runtime_status ≡ false
    → active_pending s ≡ true
waiting s h r u = ground (arith, h.active, h.settled)

none_rejected :
    (ss : List SubtaskState)
    → is_nil (filter active_rejected ss) ≡ true
    → All (λ s. active_rejected s ≡ false) ss
none_rejected [] h = tt
none_rejected (s ∷ ss) h = (ground arith, none_rejected ss (ground arith))

module _ (number : String → ℕ) (ss : List SubtaskState) (linked : AreLinked number ss) where
  dispatch_progress :
      All IsSettled ss → (route_dispatch ss ≢ none) × (route_dispatch ss ≡ some [] → AllPassed ss)
  unfolding route_dispatch
  dispatch_progress settled =
      let (ids, e, done) =
        ready_or_done number ss linked to_send (All-imp _ _ ss sent_iff settled) in
      (λ h. absurd (cc (e, h)), λ h. done (ground (arith, e, h)))

  review_progress :
      (complexity : String) (replans : ℕ) (reason : Option ReplanReason)
      → All IsSettled ss
      → (route_after_review complexity replans reason ss ≢ none)
        × (route_after_review complexity replans reason ss ≡ some to_finalize → AllPassed ss)
  unfolding route_after_review
  review_progress c n (some r) settled = (λ h. absurd (cc h), λ h. absurd (cc h))
  review_progress c n none settled = elim (Bool-cases (is_nil (filter active_rejected ss))) [
    | inr some_rejected ↦
        (λ h. ground (arith, some_rejected, h), λ h. absurd (ground (arith, some_rejected, h)))
    | inl none_now ↦
        let waits =
          All-imp _ _ ss (λ s (a, b). waiting s a b)
            (All-and _ _ ss settled (none_rejected ss none_now)) in
        let (ids, e, done) = ready_or_done number ss linked active_pending waits in
        let whole : filter (λ (s : SubtaskState). not s.superseded) ss ≡ ss =
          filter-all _ ss (All-imp _ _ ss (λ s h. ground (arith, h.active)) settled) in
        let found : ready_among active_pending (filter (λ (s : SubtaskState). not s.superseded) ss)
              ss
            ≡ some ids =
          subst (λ table. ready_among active_pending table ss ≡ some ids) (sym whole) e in
        (
          λ h. absurd (ground (arith, none_now, found, h)),
          λ h. done (ground (arith, none_now, found, h)),
        )
  ]

-- Let a plan have passed the validator, and its subtasks be settled: each is pending, passed or
-- rejected, and none is replaced. Then dispatch and the route after a review, with any reason to
-- replan, never miss a dependency; dispatch sends some subtask unless all have passed; and the
-- run is finished only when all have passed.
pub valid_plan_progress :
    (plan : Plan) (registry : AgentRegistry) (budget : ℕ) (envelope : Option PlanningEnvelope)
    (ss : List SubtaskState) (complexity : String) (replans : ℕ) (reason : Option ReplanReason)
    → validate_plan plan registry budget envelope ≡ ok tt
    → map (λ (s : SubtaskState). s.spec) ss ≡ plan.subtasks
    → All IsSettled ss
    → (route_dispatch ss ≢ none)
      × (route_dispatch ss ≡ some [] → AllPassed ss)
      × (route_after_review complexity replans reason ss ≢ none)
      × (route_after_review complexity replans reason ss ≡ some to_finalize → AllPassed ss)
valid_plan_progress plan registry budget envelope ss c n reason ok_plan same settled =
    let v = (validate_plan-ok_iff plan registry budget envelope).0 ok_plan in
    let (number, linked) = linked_of plan registry budget envelope ss v same in
    let (a, b) = dispatch_progress number ss linked settled in
    let (d, e) = review_progress number ss linked c n reason settled in (a, b, d, e)
