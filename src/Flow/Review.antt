-- ===== src/Flow/Review.antt =====
-- `review_all` of app/graph.py: the review of each executed subtask, and the decision to replan.
-- Reports of events are left out. The model's reviewer, if there is one, and the failure signature,
-- a hash, are parameters; so is the use of tools by a subtask, which the gateway counts.
use ai_team_os.Prelude.{
  subst, ℕ, ◌+◌, max, String, ◌≡◌, ◌≢◌, refl, sym, ◌↔◌, ◌⊎◌, Bool, true, false, not, ◌&&◌, ◌||◌,
  Option, none, some, List, [], ◌∷◌, ◌++◌, map, if◌then◌else◌, ltb, elem, is_nil, any, filter,
  arith,
}
use ai_team_os.Flow.Defs.{
  SubtaskState, RuntimeStatus, rejected, passed, executed, ReviewResult, ReviewStatus, rework,
  block, is_executed, active_rejected,
}
use ai_team_os.Flow.Rework.{no_progress_subtask_ids, max_identical_signatures}
use ai_team_os.Flow.Reviewer.{max_rework_for, check, fake_review, passed_review}
use ai_team_os.Flow.Accepted.{is_nil_iff}

-- What `review_all` reads of its surroundings.
pub record Surroundings : Type 0 where
  pub complexity : String
  pub review_required : Bool
  pub is_real : Bool
  pub scenario : String
  pub valid_ids : List String
  pub used_calls : SubtaskState → ℕ
  pub model_review : Option (SubtaskState → ReviewResult)
  pub failure_signature : SubtaskState → ReviewResult → String
  pub steering : List String

-- {d for item in active_subtasks for d in item.dependencies}
abbrev pub is_dependency : String → List SubtaskState → Bool
is_dependency id ss = any (λ (s : SubtaskState). not s.superseded && elem id s.spec.dependencies) ss

-- The review of one subtask. A model reviews it only when the deterministic check has no issue.
unfoldable pub review : Surroundings → List SubtaskState → SubtaskState → ReviewResult
review w ss s =
    let issues = check s w.valid_ids (w.used_calls s) in
    let intermediate = is_dependency s.spec.subtask_id ss in
    if (not w.review_required || (intermediate && w.is_real)) && is_nil issues
    then passed_review s
    else elim w.model_review [
      | none ↦ fake_review w.scenario s issues
      | some model ↦ if is_nil issues then model s else fake_review w.scenario s issues
    ]

-- result.status in {REWORK, BLOCK}
abbrev pub is_refusal : ReviewStatus → Bool
is_refusal rework = true
is_refusal block = true
is_refusal _ = false

abbrev pub reviewed : Surroundings → SubtaskState → ReviewResult → SubtaskState
reviewed w s result =
    if is_refusal result.status
    then record s {
      runtime_status = rejected;
      rework_count = s.rework_count + 1;
      review_history = s.review_history ++ result ∷ [];
      rework_signatures = s.rework_signatures ++ w.failure_signature s result ∷ [];
    }
    else record s { runtime_status = passed; review_history = s.review_history ++ result ∷ [] }

unfoldable pub review_one : Surroundings → List SubtaskState → SubtaskState → SubtaskState
unfolding review
review_one w ss s =
    if s.superseded || not (is_executed s.runtime_status) then s else reviewed w s (review w ss s)

-- The reasons to replan, in the order of the source's precedence.
pub data ReplanReason : Type 0 where
  user_steering : ReplanReason
  rework_no_progress rework_limit_reached : List String → ReplanReason

-- The rejected subtasks that are above the limit of rework.
abbrev pub over_limit : String → SubtaskState → Bool
over_limit complexity s = ltb (max_rework_for complexity) s.rework_count

unfoldable pub replan_reason : Surroundings → List SubtaskState → Option ReplanReason
unfolding no_progress_subtask_ids
replan_reason w updated =
    let rejected_now = filter active_rejected updated in
    let stuck = no_progress_subtask_ids max_identical_signatures rejected_now in
    let over = filter (over_limit w.complexity) rejected_now in
    if not (is_nil w.steering)
    then some user_steering
    else if not (is_nil stuck)
    then some (rework_no_progress stuck)
    else if not (is_nil over)
    then some (rework_limit_reached (map (λ (s : SubtaskState). s.spec.subtask_id) over))
    else none

-- max((s.rework_count for s in updated if not s.superseded), default=0)
abbrev pub largest_rework : List SubtaskState → ℕ
largest_rework [] = 0
largest_rework (s ∷ ss) =
    if s.superseded then largest_rework ss else max s.rework_count (largest_rework ss)

pub record Reviewed : Type 0 where
  pub subtasks : List SubtaskState
  pub rework_count : ℕ
  pub replan_reason : Option ReplanReason

unfoldable pub review_all : Surroundings → List SubtaskState → Reviewed
unfolding review_one replan_reason
review_all w ss =
    let updated = map (review_one w ss) ss in
    record {
      subtasks = updated;
      rework_count = largest_rework updated;
      replan_reason = replan_reason w updated;
    }

pub executed_iff : (r : RuntimeStatus) → (is_executed r ≡ true) ↔ (r ≡ executed)
executed_iff r = ground arith

issues_rework :
    (w : Surroundings) (ss : List SubtaskState) (s : SubtaskState)
    → is_nil (check s w.valid_ids (w.used_calls s)) ≡ false
    → (review w ss s).status ≡ rework
unfolding review fake_review
issues_rework w ss s h = ground (arith, h)

refused_lem :
    (w : Surroundings) (s : SubtaskState) (r : ReviewResult)
    → r.status ≡ rework
    → ((reviewed w s r).runtime_status ≡ rejected)
      × ((reviewed w s r).rework_count ≡ s.rework_count + 1)
refused_lem w s r e = ground (arith, e)

pub else_taken {ℓ} : {A : Type ℓ} (b : Bool) (x y : A) → b ≡ false → (if b then x else y) ≡ y
else_taken b x y h = rw h refl

-- A subtask with a deterministic issue is rejected whatever the model's reviewer would say, and one
-- rework is counted. A subtask that is not executed, or that a new plan has replaced, stays.
pub issue_rejected :
    (w : Surroundings) (ss : List SubtaskState) (s : SubtaskState)
    → (s.superseded ≡ false
        → s.runtime_status ≡ executed
        → check s w.valid_ids (w.used_calls s) ≢ []
        → ((review_one w ss s).runtime_status ≡ rejected)
          × ((review_one w ss s).rework_count ≡ s.rework_count + 1))
      × ((s.superseded ≡ true) ⊎ (s.runtime_status ≢ executed) → review_one w ss s ≡ s)
unfolding review_one
issue_rejected w ss s = (
  (λ active e issues.
      let guard : (s.superseded || not (is_executed s.runtime_status)) ≡ false =
        ground (arith, (executed_iff s.runtime_status).1 e) in
      subst (λ t. (t.runtime_status ≡ rejected) × (t.rework_count ≡ s.rework_count + 1))
        (sym (else_taken _ s (reviewed w s (review w ss s)) guard))
        (refused_lem w s (review w ss s) (issues_rework w ss s ((is_nil_iff _).1 issues)))),
  λ h. ground (arith, executed_iff s.runtime_status),
)
