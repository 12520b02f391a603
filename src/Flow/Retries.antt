-- ===== src/Flow/Retries.antt =====
-- A rejected subtask is tried again only while that can help.
use ai_team_os.Prelude.{
  ℕ, ◌≤◌, String, ◌≡◌, ◌≢◌, refl, sym, ◌∙◌, inl, inr, Bool, true, false, ◌&&◌, none, some, List, [],
  ◌∷◌, map, is_nil, any, filter, All, arith, Bool-cases, Option-cases,
}
use ai_team_os.Flow.Defs.{SubtaskState, is_rejected, active_rejected}
use ai_team_os.Flow.Rework.{has_no_progress, no_progress_subtask_ids, max_identical_signatures}
use ai_team_os.Flow.Reviewer.{max_rework_for}
use ai_team_os.Flow.Review.{Surroundings, review_all, review_one, replan_reason, over_limit}
use ai_team_os.Flow.Routes.{to_dispatch, to_fail_rework_limit, route_after_review}

-- The subtask may be tried again.
pub record CanRetry (complexity : String) (s : SubtaskState) : Type 0 where
  pub below : s.rework_count ≤ max_rework_for complexity
  pub moving : has_no_progress max_identical_signatures s.rework_signatures ≡ false

filter-nil {ℓ} :
    {A : Type ℓ} (p q : A → Bool) (xs : List A)
    → is_nil (filter p (filter q xs)) ≡ true
    → All (λ x. q x ≡ true → p x ≡ false) xs
filter-nil p q [] h = tt
filter-nil p q (x ∷ xs) h = elim (Bool-cases (q x)) [
  | inl e ↦ elim (Bool-cases (p x)) [
    | inl f ↦ absurd (ground (arith, rw (e, filter) at h, f))
    | inr f ↦ ((λ u. f), filter-nil p q xs (ground (arith, h, e, f)))
  ]
  | inr e ↦ ((λ u. absurd (ground (arith, e, u))), filter-nil p q xs (ground (arith, h, e)))
]

is_nil-map {ℓ κ} :
    {A : Type ℓ} {B : Type κ} (f : A → B) (xs : List A) → is_nil (map f xs) ≡ is_nil xs
is_nil-map f [] = refl
is_nil-map f (x ∷ xs) = refl

any-nil {ℓ} :
    {A : Type ℓ} (p : A → Bool) (xs : List A) → is_nil (filter p xs) ≡ true → any p xs ≡ false
any-nil p [] h = refl
any-nil p (x ∷ xs) h = ground (arith, any-nil p xs)

All-both :
    (c : String) (ss : List SubtaskState)
    → All
        (λ s.
          active_rejected s ≡ true
          → (is_rejected s.runtime_status
              && has_no_progress max_identical_signatures s.rework_signatures)
            ≡ false)
        ss
    → All (λ s. active_rejected s ≡ true → over_limit c s ≡ false) ss
    → All (λ s. active_rejected s ≡ true → CanRetry c s) ss
All-both c [] a b = tt
All-both c (s ∷ ss) a b = (
  (λ h. record { below = ground (arith, b.0 h); moving = ground (arith, a.0 h, h) }),
  All-both c ss a.1 b.1,
)

-- Without a reason to replan, every rejected subtask may be tried again.
none-CanRetry :
    (w : Surroundings) (ss : List SubtaskState)
    → replan_reason w ss ≡ none
    → All (λ s. active_rejected s ≡ true → CanRetry w.complexity s) ss
      × (any (over_limit w.complexity) (filter active_rejected ss) ≡ false)
unfolding replan_reason no_progress_subtask_ids
none-CanRetry w ss h =
    let over : is_nil (filter (over_limit w.complexity) (filter active_rejected ss)) ≡ true =
      ground (arith, h) in
    let stuck : is_nil
          (no_progress_subtask_ids max_identical_signatures (filter active_rejected ss))
        ≡ true =
      ground (arith, h) in
    (
      All-both w.complexity ss (filter-nil _ active_rejected ss (sym (is_nil-map _ _) ∙ stuck))
          (filter-nil (over_limit w.complexity) active_rejected ss over),
      any-nil (over_limit w.complexity) (filter active_rejected ss) over,
    )

-- After a review that goes back to dispatch, every rejected subtask that is still in the plan has
-- been reworked at most as often as its complexity allows, and its last two failures differ. The
-- route to the failure of the rework limit is never taken from a review.
pub no_blind_retry :
    (w : Surroundings) (ss : List SubtaskState) (replans : ℕ)
    → (route_after_review w.complexity replans
            (review_all w ss).replan_reason
            (review_all w ss).subtasks
          ≡ some to_dispatch
        → All (λ s. active_rejected s ≡ true → CanRetry w.complexity s) (review_all w ss).subtasks)
      × (route_after_review w.complexity replans
            (review_all w ss).replan_reason
            (review_all w ss).subtasks
          ≢ some to_fail_rework_limit)
unfolding review_all route_after_review
no_blind_retry w ss replans = elim (Option-cases (replan_reason w (map (review_one w ss) ss))) [
  | inl n ↦
      let (retry, none_over) = none-CanRetry w (map (review_one w ss) ss) n in
      ((λ h. retry), λ h. absurd (ground (arith, rw n at h, none_over)))
  | inr (r, e) ↦ ((λ h. absurd (cc (rw e at h))), λ h. absurd (cc (rw e at h)))
]
