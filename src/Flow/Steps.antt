-- ===== src/Flow/Steps.antt =====
-- What one round does to one subtask.
use ai_team_os.Prelude.{
  ℕ, ◌+◌, ◌-◌, ◌≤◌, ◌<◌, String, ◌≡◌, ◌≢◌, refl, sym, subst, ◌∙◌, ◌⊎◌, inl, inr, true, false, not,
  ◌||◌, Option, none, some, List, if◌then◌else◌, str_eq, arith, Bool-cases,
}
use ai_team_os.Flow.Defs.{
  SubtaskState, ExecutionResult, executed, passed, rejected, is_executed, is_passed, ReviewResult,
  active_rejected,
}
use ai_team_os.Flow.Review.{
  Surroundings, review, is_refusal, review_one, reviewed, executed_iff, else_taken, issue_rejected,
}
use ai_team_os.Flow.Execute.{Workers, finished, refused, exec_as_executor, exec_subtask}
use ai_team_os.Flow.Progress.{IsSettled}

-- The subtask is the same, and is accepted or has failed once more.
pub record IsTried (s t : SubtaskState) : Type 0 where
  pub spec : t.spec ≡ s.spec
  pub superseded : t.superseded ≡ s.superseded
  pub verdict :
      (t.runtime_status ≡ passed)
      ⊎ ((t.runtime_status ≡ rejected) × (t.rework_count ≡ s.rework_count + 1))

-- An execution ends with a result, or is a failure.
record IsExecution (s t : SubtaskState) : Type 0 where
  spec : t.spec ≡ s.spec
  superseded : t.superseded ≡ s.superseded
  verdict :
      ((t.runtime_status ≡ executed) × (t.rework_count ≡ s.rework_count))
      ⊎ ((t.runtime_status ≡ rejected) × (t.rework_count ≡ s.rework_count + 1))

finished-IsExecution : (s : SubtaskState) (r : ExecutionResult) → IsExecution s (finished s r)
finished-IsExecution s r = record { spec = refl; superseded = refl; verdict = inl (refl, refl) }

refused-IsExecution :
    (k : Workers) (s : SubtaskState) (code : String) → IsExecution s (refused k s code)
refused-IsExecution k s code = record { spec = refl; superseded = refl; verdict = inr (refl, refl) }

as_executor-IsExecution :
    (k : Workers) (all : List SubtaskState) (s : SubtaskState)
    (o : Option (SubtaskState → List SubtaskState → ExecutionResult))
    → IsExecution s (exec_as_executor k all s o).0
as_executor-IsExecution k all s none = refused-IsExecution k s "executor_unavailable"
as_executor-IsExecution k all s (some run) = finished-IsExecution s _

exec_subtask-IsExecution :
    (k : Workers) (all : List SubtaskState) (s : SubtaskState)
    → IsExecution s (exec_subtask k all s).0
unfolding exec_subtask
exec_subtask-IsExecution k all s = elim (Bool-cases (str_eq s.spec.assigned_role "executor")) [
  | inl e ↦ rw e (as_executor-IsExecution k all s k.executor)
  | inr e ↦ elim (Bool-cases (str_eq s.spec.assigned_role "researcher")) [
    | inl r ↦ rw (e, r) (finished-IsExecution s (k.researcher s all))
    | inr r ↦ rw (e, r) (refused-IsExecution k s "unsupported_role")
  ]
]

reviewed-IsTried :
    (w : Surroundings) (s : SubtaskState) (r : ReviewResult) → IsTried s (reviewed w s r)
reviewed-IsTried w s r = elim (Bool-cases (is_refusal r.status)) [
  | inl h ↦ rw h (record { spec = refl; superseded = refl; verdict = inr (refl, refl) })
  | inr h ↦ rw h (record { spec = refl; superseded = refl; verdict = inl refl })
]

review_one-IsTried :
    (w : Surroundings) (ss : List SubtaskState) (s : SubtaskState)
    → s.superseded ≡ false
    → s.runtime_status ≡ executed
    → IsTried s (review_one w ss s)
unfolding review_one
review_one-IsTried w ss s active e =
    let guard : (s.superseded || not (is_executed s.runtime_status)) ≡ false =
      ground (arith, (executed_iff s.runtime_status).1 e) in
    subst (IsTried s) (sym (else_taken _ s (reviewed w s (review w ss s)) guard))
      (reviewed-IsTried w s (review w ss s))

pub exec_subtask-spec :
    (k : Workers) (all : List SubtaskState) (s : SubtaskState)
    → (exec_subtask k all s).0.spec ≡ s.spec
exec_subtask-spec k all s = (exec_subtask-IsExecution k all s).spec

pub review_one-spec :
    (w : Surroundings) (ss : List SubtaskState) (s : SubtaskState)
    → (review_one w ss s).spec ≡ s.spec
unfolding review_one
review_one-spec w ss s = elim (Bool-cases (s.superseded || not (is_executed s.runtime_status))) [
  | inl e ↦ rw e refl
  | inr e ↦
      subst (λ (t : SubtaskState). t.spec ≡ s.spec)
        (sym (else_taken _ s (reviewed w s (review w ss s)) e))
        (reviewed-IsTried w s (review w ss s)).spec
]

-- A subtask that is not executed waits for no review.
stays :
    (w : Surroundings) (ss : List SubtaskState) (s : SubtaskState)
    → s.runtime_status ≢ executed
    → review_one w ss s ≡ s
stays w ss s h = (issue_rejected w ss s).1 (inr h)

-- A subtask that is sent is tried.
pub sent-IsTried :
    (w : Surroundings) (k : Workers) (all ss : List SubtaskState) (s : SubtaskState)
    → s.superseded ≡ false
    → IsTried s (review_one w ss (exec_subtask k all s).0)
sent-IsTried w k all ss s active =
    let t = (exec_subtask k all s).0 in
    let x = exec_subtask-IsExecution k all s in
    elim x.verdict [
      | inl (e, same) ↦
          let r = review_one-IsTried w ss t (x.superseded ∙ active) e in
          record {
            spec = r.spec ∙ x.spec;
            superseded = r.superseded ∙ x.superseded;
            verdict = ground (arith, r.verdict, same);
          }
      | inr (e, more) ↦
          subst (IsTried s) (sym (stays w ss t (λ h. cc (sym e ∙ h))))
            (record { spec = x.spec; superseded = x.superseded; verdict = inr (e, more) })
    ]

-- A settled subtask that is not sent stays.
pub unsent_stays :
    (w : Surroundings) (ss : List SubtaskState) (s : SubtaskState)
    → IsSettled s
    → review_one w ss s ≡ s
unsent_stays w ss s h = stays w ss s (λ e. ground (arith, h.settled, e))

-- The tries that a subtask has left.
unfoldable pub weight : ℕ → SubtaskState → ℕ
weight limit s = if is_passed s.runtime_status then 0 else (limit + 2) - s.rework_count

-- A subtask that has not passed is within the limit of rework.
abbrev pub IsWithin : ℕ → SubtaskState → Type 0
IsWithin limit s = is_passed s.runtime_status ≡ false → s.rework_count ≤ limit

pub tried-IsSettled : (s t : SubtaskState) → IsSettled s → IsTried s t → IsSettled t
tried-IsSettled s t h x = record {
  active = x.superseded ∙ h.active;
  settled = elim x.verdict [ inl e ↦ inr (inl e) | inr (e, n) ↦ inr (inr e) ];
}

-- A try that may be followed by another one has used one of the tries that were left.
pub tried_lem :
    (limit : ℕ) (s t : SubtaskState)
    → IsSettled s
    → IsWithin limit s
    → is_passed s.runtime_status ≡ false
    → IsTried s t
    → (active_rejected t ≡ true → t.rework_count ≤ limit)
    → IsWithin limit t × (weight limit t < weight limit s)
unfolding weight
tried_lem limit s t h within waits x again =
    let bound = within waits in
    elim x.verdict [
      | inl e ↦ ((λ u. ground (arith, e, u)), rw (e, waits) (omega (arith, bound)))
      | inr (e, more) ↦
          let below : t.rework_count ≤ limit = again (rw (e, x.superseded ∙ h.active) refl) in
          ((λ u. below), rw (e, waits, more) (omega (arith, bound, below, more)))
    ]
