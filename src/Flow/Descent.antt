-- ===== src/Flow/Descent.antt =====
-- The subtasks after a round, and the tries that they have left.
use ai_team_os.Prelude.{
  ℕ, ◌+◌, ◌≤◌, ◌<◌, String, ◌≡◌, refl, sym, subst, ap, ◌∙◌, ◌⊎◌, inl, inr, true, false, ◌&&◌, some,
  List, [], ◌∷◌, map, if◌then◌else◌, elem, any, All, eq_iff, map-cong, map-map, str_eq, arith,
  Bool-cases,
}
use ai_team_os.Plan.Schemas.{SubtaskSpec}
use ai_team_os.Plan.Validator.Spec.{AreDistinct}
use ai_team_os.Flow.Defs.{SubtaskState, is_passed, active_rejected}
use ai_team_os.Flow.Review.{Surroundings, review_one, review_all}
use ai_team_os.Flow.Routes.{to_send, ready_among, route_after_review, route_dispatch}
use ai_team_os.Flow.Ready.{filter-all}
use ai_team_os.Flow.Progress.{IsSettled}
use ai_team_os.Flow.Merge.{merge_by-map}
use ai_team_os.Flow.Reducers.{merge_by}
use ai_team_os.Flow.Execute.{Workers, exec_subtask}
use ai_team_os.Flow.Rounds.{
  id_of, is_sent, joined, clash, conflicted, executed_round, execute, go_to, review_round,
  dispatched, round,
}
use ai_team_os.Flow.Steps.{
  IsTried, exec_subtask-spec, review_one-spec, sent-IsTried, unsent_stays, tried-IsSettled, weight,
  IsWithin, tried_lem,
}

abbrev pub total : ℕ → List SubtaskState → ℕ
total limit [] = 0
total limit (s ∷ ss) = weight limit s + total limit ss

pub any-of-head :
    (ids : List String) (i : String) (ss : List SubtaskState)
    → any (λ s. to_send s && str_eq (id_of s) i) ss ≡ true
    → elem i ids ≡ true
    → any (is_sent ids) ss ≡ true
any-of-head ids i [] h e = cc h
any-of-head ids i (s ∷ ss) h e =
    let named : str_eq (id_of s) i ≡ true → elem (id_of s) ids ≡ true =
      λ same. rw ((eq_iff (id_of s) i).0 same) e in
    ground (arith, h, named, any-of-head ids i ss)

pub some_sent :
    (table ss : List SubtaskState) (i : String) (ids : List String)
    → ready_among to_send table ss ≡ some (i ∷ ids)
    → any (λ s. to_send s && str_eq (id_of s) i) ss ≡ true
unfolding ready_among
some_sent table [] i ids h = cc h
some_sent table (s ∷ ss) i ids h = ground (arith, h, some_sent table ss i ids, eq_iff (id_of s) i)

-- A subtask after the executions.
pub executed_one : Workers → List SubtaskState → List String → SubtaskState → SubtaskState
executed_one k all ids s = if is_sent ids s then (exec_subtask k all s).0 else s

module _ (w : Surroundings) (k : Workers) (all after : List SubtaskState) (ids : List String) where
  -- The subtask after the round.
  pub after_round : SubtaskState → SubtaskState
  after_round s = review_one w after (executed_one k all ids s)

  pub one_round :
      (s : SubtaskState)
      → IsSettled s
      → ((is_sent ids s ≡ true) × IsTried s (after_round s))
        ⊎ ((is_sent ids s ≡ false) × (after_round s ≡ s))
  unfolding after_round executed_one
  one_round s h = elim (Bool-cases (is_sent ids s)) [
    | inl e ↦ inl (e, rw e (sent-IsTried w k all after s h.active))
    | inr e ↦ inr (e, rw e (unsent_stays w after s h))
  ]

  pub sent_waits : (s : SubtaskState) → is_sent ids s ≡ true → is_passed s.runtime_status ≡ false
  sent_waits s h = ground (arith, h)

  pub round-IsSettled : (s : SubtaskState) → IsSettled s → IsSettled (after_round s)
  round-IsSettled s h = elim (one_round s h) [
    | inl (e, x) ↦ tried-IsSettled s (after_round s) h x
    | inr (e, x) ↦ subst IsSettled (sym x) h
  ]

  pub round-spec : (s : SubtaskState) → IsSettled s → (after_round s).spec ≡ s.spec
  round-spec s h = elim (one_round s h) [
    | inl (e, x) ↦ x.spec
    | inr (e, x) ↦ ap (λ (t : SubtaskState). t.spec) x
  ]

  -- A round that may be followed by another one leaves fewer tries, if a subtask is sent.
  pub total_lem :
      (limit : ℕ) (ss : List SubtaskState)
      → All IsSettled ss
      → All (IsWithin limit) ss
      → All (λ s. active_rejected (after_round s) ≡ true → (after_round s).rework_count ≤ limit) ss
      → All (λ s. IsWithin limit (after_round s)) ss
        × (total limit (map after_round ss) ≤ total limit ss)
        × (any (is_sent ids) ss ≡ true → total limit (map after_round ss) < total limit ss)
  total_lem limit [] a b c = (tt, omega arith, λ h. absurd (cc h))
  total_lem limit (s ∷ ss) a b c =
      let (rest, fewer, less) = total_lem limit ss a.1 b.1 c.1 in
      elim (one_round s a.0) [
        | inl (e, x) ↦
            let (within, used) = tried_lem limit s (after_round s) a.0 b.0 (sent_waits s e) x c.0 in
            ((within, rest), omega (arith, used, fewer), λ h. omega (arith, used, fewer))
        | inr (e, x) ↦
            let same : weight limit (after_round s) ≡ weight limit s = ap (weight limit) x in
            (
              (subst (IsWithin limit) (sym x) b.0, rest),
              omega (arith, same, fewer),
              λ h. omega (arith, same, less (ground (arith, h, e))),
            )
      ]

-- A round as a function on each subtask.
module _ (w : Surroundings) (k : Workers) (replans : ℕ) (ss : List SubtaskState)
    (ids : List String) where
  pub executions : List SubtaskState
  executions = map (executed_one k ss ids) ss

  execute-eq : AreDistinct (map id_of ss) → joined k ids ss ≡ executions
  unfolding joined executions executed_one
  execute-eq d =
      merge_by-map id_of (λ s. (exec_subtask k ss s).0) (is_sent ids) ss
        (λ s. ap (λ x. x.subtask_id) (exec_subtask-spec k ss s)) d

  merged_all :
      (ts : List SubtaskState)
      → AreDistinct (map id_of ts)
      → merge_by id_of ts (map (review_one w ts) ts) ≡ map (review_one w ts) ts
  merged_all ts d =
      subst (λ l. merge_by id_of ts (map (review_one w ts) l) ≡ map (review_one w ts) ts)
        (filter-all (λ x. true) ts (all_true ts))
        (merge_by-map id_of (review_one w ts) (λ x. true) ts
          (λ s. ap (λ x. x.subtask_id) (review_one-spec w ts s)) d)
    where
      all_true : (xs : List SubtaskState) → All (λ x. true ≡ true) xs
      all_true [] = tt
      all_true (x ∷ xs) = (refl, all_true xs)

  executions-ids : map id_of executions ≡ map id_of ss
  unfolding executions executed_one
  executions-ids = map-map id_of (executed_one k ss ids) ss ∙ map-cong _ id_of ss (each ss)
    where
      each : (xs : List SubtaskState) → All (λ s. id_of (executed_one k ss ids s) ≡ id_of s) xs
      each [] = tt
      each (x ∷ xs) = (
        elim (Bool-cases (is_sent ids x)) [
          | inl e ↦ rw e (ap (λ (p : SubtaskSpec). p.subtask_id) (exec_subtask-spec k ss x))
          | inr e ↦ rw e refl
        ],
        each xs,
      )

  execute-ok :
      AreDistinct (map id_of ss) → clash k ids ss ≡ false → execute k ids ss ≡ some executions
  unfolding execute
  execute-ok d quiet = rw quiet (ap (λ ts. some ts) (execute-eq d))

  -- Two reasons to replan end the run.
  pub round-conflicted :
      clash k ids ss ≡ true → route_dispatch ss ≡ some ids → round w k replans ss ≡ conflicted
  unfolding round execute
  round-conflicted clashes h = ap (dispatched w k replans ss) h ∙ rw clashes refl

  pub round-eq :
      AreDistinct (map id_of ss)
      → clash k ids ss ≡ false
      → route_dispatch ss ≡ some ids
      → round w k replans ss
        ≡ go_to (review_all w executions).subtasks (
            route_after_review w.complexity replans
              (review_all w executions).replan_reason
              (review_all w executions).subtasks)
  unfolding round review_round review_all
  round-eq d quiet h =
      ap (dispatched w k replans ss) h
      ∙ ap (executed_round w replans) (execute-ok d quiet)
      ∙ ap
          (λ l.
            go_to l
              (route_after_review w.complexity replans (review_all w executions).replan_reason l))
          (merged_all executions (subst AreDistinct (sym executions-ids) d))

  pub reviewed-eq : (review_all w executions).subtasks ≡ map (after_round w k ss executions ids) ss
  unfolding review_all executions after_round
  reviewed-eq = map-map (review_one w executions) (executed_one k ss ids) ss
