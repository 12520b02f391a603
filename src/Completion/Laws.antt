-- ===== src/Completion/Laws.antt =====
-- What a completed run has.
use ai_team_os.Prelude.{
  ℕ, ◌≤◌, String, ◌≡◌, ◌≢◌, refl, ◌↔◌, Bool, true, false, not, Option, none, some, List, [], ◌∷◌,
  ◌++◌, is_nil, any, all, ◌==◌, filter, All, contains_any, arith, Dict, insert,
}
use ai_team_os.Plan.Shape.{
  TaskShape, direct_response, read_only_research, code_analysis, code_change, windows_action,
  multi_step_delivery,
}
use ai_team_os.Flow.Defs.{SubtaskState, RuntimeStatus, passed, is_passed}
use ai_team_os.Flow.Reducers.{add_keys, keys}
use ai_team_os.Completion.Defs.{
  FinalState, active, results_of, has_summary, claim_count, requested_count, has_diff, has_tests,
  last_passes, is_executor, write_words, found_reasons, validate, research_reasons, change_reasons,
  executor_reasons, reason_if, too_few, shape_reasons,
}
use ai_team_os.Completion.Finalize.{completed, all_refs, has_pending, finalize}

-- An executor's subtask has an implementation, tests that passed, and a last review that passed.
pub record IsDelivered (s : SubtaskState) : Type 0 where
  pub diff : has_diff s.execution_result ≡ true
  pub tests : has_tests s.execution_result ≡ true
  pub review : last_passes s.review_history ≡ true

abbrev pub HasRequested : ℕ → Option ℕ → Type 0
HasRequested n none = Unit
HasRequested n (some m) = m ≤ n

-- What a task of each shape must have.
abbrev pub FitsShape : FinalState → TaskShape → List SubtaskState → Type 0
FitsShape state read_only_research ss =
    (claim_count (results_of ss) ≢ 0)
    × (HasRequested (claim_count (results_of ss)) (requested_count state.user_goal)
        × (any (λ r. not (is_nil r.evidence_refs)) (results_of ss) ≡ true))
FitsShape state code_change ss =
    (filter is_executor ss ≢ []) × All IsDelivered (filter is_executor ss)
FitsShape state code_analysis ss = any (contains_any write_words) state.tools_called ≡ false
FitsShape state windows_action ss = any state.is_verified (results_of ss) ≡ true
FitsShape state multi_step_delivery ss = Unit
FitsShape state direct_response ss = Unit

abbrev pub HasSummary : TaskShape → List SubtaskState → Type 0
HasSummary direct_response ss = Unit
HasSummary _ ss = any has_summary (results_of ss) ≡ true

append_nil_iff {ℓ} : {A : Type ℓ} (xs ys : List A) → (xs ++ ys ≡ []) ↔ ((xs ≡ []) × (ys ≡ []))
append_nil_iff [] ys = ((λ h. (refl, h)), λ h. h.1)
append_nil_iff (x ∷ xs) ys = ((λ h. absurd (cc h)), λ h. absurd (cc h.0))

reason_if_iff : (b : Bool) (reason : String) → (reason_if b reason ≡ []) ↔ (b ≡ false)
reason_if_iff true reason = ((λ h. absurd (cc h)), λ h. absurd (cc h))
reason_if_iff false reason = ((λ h. refl), λ h. refl)

-- A first reason and the others.
both_iff {κ ι} :
    (b : Bool) (reason : String) (others : List String) {P : Type κ} {Q : Type ι}
    → (b ≡ false) ↔ P
    → (others ≡ []) ↔ Q
    → (reason_if b reason ++ others ≡ []) ↔ (P × Q)
both_iff b reason others p q = (
  (λ h.
      let (x, y) = (append_nil_iff (reason_if b reason) others).0 h in
      (p.0 ((reason_if_iff b reason).0 x), q.0 y)),
  λ h.
      (append_nil_iff (reason_if b reason) others).1
        ((reason_if_iff b reason).1 (p.1 h.0), q.1 h.1),
)

not_iff : (b : Bool) → (not b ≡ false) ↔ (b ≡ true)
not_iff b = ground arith

not_zero_iff : (n : ℕ) → ((n == 0) ≡ false) ↔ (n ≢ 0)
not_zero_iff n = ground arith

too_few_iff : (n : ℕ) (o : Option ℕ) → (too_few n o ≡ false) ↔ HasRequested n o
too_few_iff n none = ((λ h. tt), λ h. refl)
too_few_iff n (some m) = ground arith

is_nil_iff {ℓ} : {A : Type ℓ} (xs : List A) → (is_nil xs ≡ false) ↔ (xs ≢ [])
is_nil_iff [] = ((λ h. absurd (cc h)), λ h. absurd (h refl))
is_nil_iff (x ∷ xs) = ((λ h e. cc e), λ h. refl)

executor_reasons_iff : (ss : List SubtaskState) → (executor_reasons ss ≡ []) ↔ All IsDelivered ss
unfolding executor_reasons
executor_reasons_iff [] = ((λ h. tt), λ h. refl)
executor_reasons_iff (s ∷ ss) =
    let all = both_iff (not (has_diff s.execution_result)) "code_diff" _ (not_iff _) (
      both_iff (not (has_tests s.execution_result)) "tests" _ (not_iff _) (
        both_iff (not (last_passes s.review_history)) "review" (executor_reasons ss) (not_iff _)
          (executor_reasons_iff ss))) in
    (
      (λ h. let (a, (b, (c, d))) = all.0 h in (record { diff = a; tests = b; review = c }, d)),
      λ h. all.1 (h.0.diff, (h.0.tests, (h.0.review, h.1))),
    )

summary_iff {κ} :
    (ss : List SubtaskState) (others : List String) {Q : Type κ}
    → (others ≡ []) ↔ Q
    → (reason_if (not (any has_summary (results_of ss))) "result_nonempty" ++ others ≡ [])
      ↔ ((any has_summary (results_of ss) ≡ true) × Q)
summary_iff ss others q = both_iff _ "result_nonempty" others (not_iff _) q

last_iff : (b : Bool) (reason : String) → (reason_if (not b) reason ≡ []) ↔ (b ≡ true)
last_iff true reason = ((λ h. refl), λ h. refl)
last_iff false reason = ((λ h. absurd (cc h)), λ h. absurd (cc h))

reasons_nil :
    (state : FinalState) (shape : TaskShape)
    → (found_reasons state shape ≡ [])
      ↔ (HasSummary shape (active state.subtasks) × FitsShape state shape (active state.subtasks))
unfolding found_reasons shape_reasons research_reasons change_reasons
reasons_nil state direct_response = ((λ h. (tt, tt)), λ h. refl)
reasons_nil state read_only_research = summary_iff (active state.subtasks) _ (
    both_iff _ "research_claims" _ (not_zero_iff _)
      (both_iff _ "requested_result_count" _ (too_few_iff _ _) (last_iff _ _)))
reasons_nil state code_change =
    summary_iff (active state.subtasks) _
      (both_iff _ "code_diff" _ (is_nil_iff _) (executor_reasons_iff _))
reasons_nil state code_analysis = summary_iff (active state.subtasks) _ (reason_if_iff _ _)
reasons_nil state windows_action = summary_iff (active state.subtasks) _ (last_iff _ _)
reasons_nil state multi_step_delivery =
    summary_iff (active state.subtasks) [] ((λ h. tt), λ h. refl)

insert-some {ℓ} :
    {A : Type ℓ} (k : String) (v : A) (d : Dict A) → is_nil (keys (insert k v d)) ≡ false
unfolding insert
insert-some k v [] = refl
insert-some k v ((j, w) ∷ d) = ground arith

add_keys-some :
    (ks : List String) (d : Dict (Unit {0}))
    → is_nil (keys d) ≡ false
    → is_nil (keys (add_keys ks d)) ≡ false
unfolding add_keys
add_keys-some [] d h = h
add_keys-some (k ∷ ks) d h = add_keys-some ks (insert k tt d) (insert-some k tt d)

add_keys_cons : (x : String) (xs : List String) → is_nil (keys (add_keys (x ∷ xs) [])) ≡ false
unfolding add_keys
add_keys_cons x xs = add_keys-some xs (insert x tt []) (insert-some x tt [])

keys_nil_iff : (xs : List String) → (is_nil (keys (add_keys xs [])) ≡ true) ↔ (xs ≡ [])
unfolding add_keys
keys_nil_iff [] = ((λ h. refl), λ h. refl)
keys_nil_iff (x ∷ xs) = ((λ h. absurd (cc (h, add_keys_cons x xs))), λ h. absurd (cc h))

passed_iff : (r : RuntimeStatus) → (is_passed r ≡ true) ↔ (r ≡ passed)
passed_iff r = ground arith

all_passed_iff :
    (ss : List SubtaskState)
    → (all (λ (s : SubtaskState). is_passed s.runtime_status) ss ≡ true)
      ↔ All (λ (s : SubtaskState). s.runtime_status ≡ passed) ss
all_passed_iff [] = ((λ h. tt), λ h. refl)
all_passed_iff (s ∷ ss) =
    let rest = all_passed_iff ss in
    (
      (λ h. ((passed_iff s.runtime_status).0 (ground (arith, h)), rest.0 (ground (arith, h)))),
      λ h. ground (arith, (passed_iff s.runtime_status).1 h.0, rest.1 h.1),
    )

-- A run is completed just when every subtask of the plan has passed, no approval is pending, there is
-- a summary that is not blank, unless the goal is answered directly, and the task has what its shape
-- asks for: research has claims, as many as the goal names, and evidence; a change of code has an
-- executor, and each executor's subtask an implementation, tests that passed and a last review that
-- passed; an analysis called no tool that writes; an action was verified.
pub finalize-completed_iff :
    (state : FinalState) (shape : TaskShape) (statuses : List String)
    → ((l : List String) × (finalize state shape statuses ≡ completed l)) ↔ (
        All (λ (s : SubtaskState). s.runtime_status ≡ passed) (active state.subtasks)
        × (has_pending statuses ≡ false)
        × HasSummary shape (active state.subtasks)
        × FitsShape state shape (active state.subtasks))
unfolding finalize validate
finalize-completed_iff state shape statuses = (to, from)
  where
    to :
        (l : List String) × (finalize state shape statuses ≡ completed l)
        → All (λ (s : SubtaskState). s.runtime_status ≡ passed) (active state.subtasks)
          × (has_pending statuses ≡ false)
          × HasSummary shape (active state.subtasks)
          × FitsShape state shape (active state.subtasks)
    to (l, e) =
        let done = (all_passed_iff (active state.subtasks)).0 (ground (arith, e)) in
        let idle : has_pending statuses ≡ false = ground (arith, e) in
        let unique : is_nil (keys (add_keys (found_reasons state shape) [])) ≡ true =
          ground (arith, e) in
        let (summary, fits) =
          (reasons_nil state shape).0 ((keys_nil_iff (found_reasons state shape)).0 unique) in
        (done, idle, summary, fits)

    from :
        All (λ (s : SubtaskState). s.runtime_status ≡ passed) (active state.subtasks)
          × (has_pending statuses ≡ false)
          × HasSummary shape (active state.subtasks)
          × FitsShape state shape (active state.subtasks)
        → (l : List String) × (finalize state shape statuses ≡ completed l)
    from (done, idle, summary, fits) =
        let passed_all = (all_passed_iff (active state.subtasks)).1 done in
        let unique =
          (keys_nil_iff (found_reasons state shape)).1
            ((reasons_nil state shape).1 (summary, fits)) in
        (keys (add_keys (all_refs (active state.subtasks)) []), rw (passed_all, idle, unique) refl)
