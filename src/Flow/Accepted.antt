-- ===== src/Flow/Accepted.antt =====
-- What the deterministic check of app/agents/reviewer.py accepts.
use ai_team_os.Prelude.{
  Option-cases, ℕ, zero, suc, ◌≤◌, String, ◌≡◌, ◌≢◌, refl, ◌↔◌, ◌⊎◌, inl, inr, Bool, true, false,
  not, ◌&&◌, some, List, [], ◌∷◌, ◌++◌, if◌then◌else◌, str_eq, eq_iff, ltb, elem, is_nil, All,
  arith, Bool-cases,
}
use ai_team_os.Flow.Defs.{
  SubtaskState, Claim, ExecutionResult, IssueCode, unknown_evidence, claim_without_evidence,
  claim_bad_evidence, empty_summary, no_content, rework_empty_result, tool_call_budget_exceeded,
  executor_not_implemented, missing_approval, tests_failed, executor_no_claims, duplicate_claim_id,
}
use ai_team_os.Flow.Reviewer.{
  in_turn, claim_checks, executor_checks, result_checks, issue_if, unknown_ids, claim_issues,
  is_implemented, has_approval, has_failed_tests, executor_issues, has_repeated, claim_ids,
  result_issues, check,
}

-- The ids are of known evidence.
abbrev pub AreKnown : List String → List String → Type 0
AreKnown valid es = All (λ e. elem e valid ≡ true) es

-- The result of an executor: implemented, approved, no failing tests, and with claims.
pub record IsImplemented (r : ExecutionResult) : Type 0 where
  pub status : is_implemented r.metadata_status ≡ true
  pub approval : has_approval r.metadata_approval_id ≡ true
  pub tests : has_failed_tests r.metadata_test_report ≡ false
  pub claims : r.claims ≢ []

pub record IsAcceptable (s : SubtaskState) (valid : List String) (used : ℕ) (r : ExecutionResult)
    : Type 0 where
  pub evidence : AreKnown valid s.evidence_refs
  pub claims : All (λ (c : Claim). (c.evidence_ids ≢ []) × AreKnown valid c.evidence_ids) r.claims
  pub summary : r.summary ≢ []
  pub content : (r.claims ≢ []) ⊎ (r.unverified_items ≢ [])
  pub renewed : (s.rework_count ≡ 0) ⊎ (r.claims ≢ []) ⊎ (r.evidence_refs ≢ [])
  pub budget : used ≤ s.spec.tool_call_budget
  pub executor : s.spec.assigned_role ≡ "executor" → IsImplemented r
  pub distinct : has_repeated (claim_ids r.claims) ≡ false

append-nil {ℓ} : {A : Type ℓ} (xs ys : List A) → (xs ++ ys ≡ []) ↔ ((xs ≡ []) × (ys ≡ []))
append-nil [] ys = (λ h. (refl, h), λ h. h.1)
append-nil (x ∷ xs) ys = (λ h. absurd (cc), λ h. absurd (cc))

in_turn-nil :
    (iss : List (List IssueCode)) → (in_turn iss ≡ []) ↔ All (λ (is : List IssueCode). is ≡ []) iss
in_turn-nil [] = (λ h. tt, λ h. refl)
in_turn-nil (is ∷ iss) = (
  λ h. let (a, b) = (append-nil is (in_turn iss)).0 h in (a, (in_turn-nil iss).0 b),
  λ h. (append-nil is (in_turn iss)).1 (h.0, (in_turn-nil iss).1 h.1),
)

issue_if-nil : (b : Bool) (c : IssueCode) → (issue_if b c ≡ []) ↔ (b ≡ false)
issue_if-nil true c = (λ h. absurd (cc), λ h. absurd (cc))
issue_if-nil false c = (λ h. refl, λ h. refl)

pub is_nil_iff {ℓ} : {A : Type ℓ} (xs : List A) → (is_nil xs ≡ false) ↔ (xs ≢ [])
is_nil_iff [] = (λ h. absurd (cc), λ h. absurd (h refl))
is_nil_iff (x ∷ xs) = (λ h e. cc, λ h. refl)

unknown_ids-nil :
    (code : IssueCode) (valid es : List String)
    → (unknown_ids code valid es ≡ []) ↔ AreKnown valid es
unfolding unknown_ids
unknown_ids-nil code valid [] = (λ h. tt, λ h. refl)
unknown_ids-nil code valid (e ∷ es) = elim (Bool-cases (elem e valid)) [
  | inl y ↦ (
    λ h. (y, (unknown_ids-nil code valid es).0 (rw y at h)),
    λ h. rw y ((unknown_ids-nil code valid es).1 h.1),
  )
  | inr n ↦ (λ h. absurd (cc (rw n at h)), λ h. absurd (cc))
]

claim_issues-nil :
    (valid : List String) (cs : List Claim)
    → (claim_issues valid cs ≡ [])
      ↔ All (λ (c : Claim). (c.evidence_ids ≢ []) × AreKnown valid c.evidence_ids) cs
unfolding claim_issues
claim_issues-nil valid [] = (λ h. tt, λ h. refl)
claim_issues-nil valid (c ∷ cs) = (
  λ h.
      let (here, d) = (append-nil (in_turn (claim_checks valid c)) (claim_issues valid cs)).0 h in
      let (a, (b, _)) = (in_turn-nil (claim_checks valid c)).0 here in
      (
        (
          (is_nil_iff c.evidence_ids).0 ((issue_if-nil _ claim_without_evidence).0 a),
          (unknown_ids-nil claim_bad_evidence valid c.evidence_ids).0 b,
        ),
        (claim_issues-nil valid cs).0 d,
      ),
  λ h. (append-nil (in_turn (claim_checks valid c)) (claim_issues valid cs)).1 (
    (in_turn-nil (claim_checks valid c)).1 (
      (issue_if-nil _ claim_without_evidence).1 ((is_nil_iff c.evidence_ids).1 h.0.0),
      ((unknown_ids-nil claim_bad_evidence valid c.evidence_ids).1 h.0.1, tt),
    ),
    (claim_issues-nil valid cs).1 h.1,
  ),
)

not-false : (b : Bool) → (not b ≡ false) ↔ (b ≡ true)
not-false true = (λ h. refl, λ h. refl)
not-false false = (λ h. absurd (cc), λ h. absurd (cc))

-- The four checks of an executor are empty when its result is implemented.
executor_issues-nil : (r : ExecutionResult) → (executor_issues r ≡ []) ↔ IsImplemented r
unfolding executor_issues
executor_issues-nil r = (
  λ h.
      let (a, (b, (c, (d, _)))) = (in_turn-nil (executor_checks r)).0 h in
      record {
        status = (not-false _).0 ((issue_if-nil _ executor_not_implemented).0 a);
        approval = (not-false _).0 ((issue_if-nil _ missing_approval).0 b);
        tests = (issue_if-nil _ tests_failed).0 c;
        claims = (is_nil_iff r.claims).0 ((issue_if-nil _ executor_no_claims).0 d);
      },
  λ h. (in_turn-nil (executor_checks r)).1 (
    (issue_if-nil _ executor_not_implemented).1 ((not-false _).1 h.status),
    (
      (issue_if-nil _ missing_approval).1 ((not-false _).1 h.approval),
      (
        (issue_if-nil _ tests_failed).1 h.tests,
        ((issue_if-nil _ executor_no_claims).1 ((is_nil_iff r.claims).1 h.claims), tt),
      ),
    ),
  ),
)

one_there {ℓ κ} :
    {A : Type ℓ} {B : Type κ} (xs : List A) (ys : List B)
    → (is_nil xs && is_nil ys ≡ false) ↔ ((xs ≢ []) ⊎ (ys ≢ []))
one_there (x ∷ xs) ys = (λ h. inl (λ e. cc), λ h. refl)
one_there [] (y ∷ ys) = (λ h. inr (λ e. cc), λ h. refl)
one_there [] [] =
    (λ h. absurd (cc), λ h. elim h [ inl n ↦ absurd (n refl) | inr n ↦ absurd (n refl) ])

renewed_iff :
    (n : ℕ) (r : ExecutionResult)
    → (ltb 0 n && is_nil r.claims && is_nil r.evidence_refs ≡ false)
      ↔ ((n ≡ 0) ⊎ (r.claims ≢ []) ⊎ (r.evidence_refs ≢ []))
renewed_iff zero r = (λ h. inl refl, λ h. refl)
renewed_iff (suc n) r =
    let pos : ltb 0 (suc n) ≡ true = ground arith in
    (
      λ h. inr ((one_there r.claims r.evidence_refs).0 (rw pos at h)),
      λ h. elim h [
        | inl z ↦ absurd (omega (arith, z))
        | inr a ↦ rw pos ((one_there r.claims r.evidence_refs).1 a)
      ],
    )

role_issues-nil :
    (role : String) (r : ExecutionResult)
    → ((if str_eq role "executor" then executor_issues r else []) ≡ [])
      ↔ (role ≡ "executor" → IsImplemented r)
role_issues-nil role r = elim (Bool-cases (str_eq role "executor")) [
  | inl y ↦ (
    λ h u. (executor_issues-nil r).0 (rw y at h),
    λ h. rw y ((executor_issues-nil r).1 (h ((eq_iff role "executor").0 y))),
  )
  | inr n ↦ (λ h u. absurd (ground (arith, eq_iff role "executor")), λ h. rw n refl)
]

-- The check of a result has no issue exactly when the result is acceptable.
result_issues-nil :
    (s : SubtaskState) (valid : List String) (used : ℕ) (r : ExecutionResult)
    → (result_issues s valid used r ≡ []) ↔ IsAcceptable s valid used r
unfolding result_issues
result_issues-nil s valid used r = (
  λ h.
      let (a, (b, (c, (d, (e, (f, (g, (k, _)))))))) =
        (in_turn-nil (result_checks s valid used r)).0 h in
      record {
        evidence = (unknown_ids-nil unknown_evidence valid s.evidence_refs).0 a;
        claims = (claim_issues-nil valid r.claims).0 b;
        summary = (is_nil_iff r.summary).0 ((issue_if-nil _ empty_summary).0 c);
        content = (one_there r.claims r.unverified_items).0 ((issue_if-nil _ no_content).0 d);
        renewed = (renewed_iff s.rework_count r).0 ((issue_if-nil _ rework_empty_result).0 e);
        budget = ground (arith, (issue_if-nil _ tool_call_budget_exceeded).0 f);
        executor = (role_issues-nil s.spec.assigned_role r).0 g;
        distinct = (issue_if-nil _ duplicate_claim_id).0 k;
      },
  λ h. (in_turn-nil (result_checks s valid used r)).1 (
    (unknown_ids-nil unknown_evidence valid s.evidence_refs).1 h.evidence,
    (
      (claim_issues-nil valid r.claims).1 h.claims,
      (
        (issue_if-nil _ empty_summary).1 ((is_nil_iff r.summary).1 h.summary),
        (
          (issue_if-nil _ no_content).1 ((one_there r.claims r.unverified_items).1 h.content),
          (
            (issue_if-nil _ rework_empty_result).1 ((renewed_iff s.rework_count r).1 h.renewed),
            (
              (issue_if-nil _ tool_call_budget_exceeded).1 (ground (arith, h.budget)),
              (
                (role_issues-nil s.spec.assigned_role r).1 h.executor,
                ((issue_if-nil _ duplicate_claim_id).1 h.distinct, tt),
              ),
            ),
          ),
        ),
      ),
    ),
  ),
)

-- The deterministic review finds no issue exactly when the subtask has a result and the result is
-- acceptable: its evidence and claims are backed by known evidence, it is not empty, its tool calls
-- are within the budget, an executor's is implemented and approved and no tests are reported to have
-- failed, and no claim is twice.
pub check-nil_iff :
    (s : SubtaskState) (valid : List String) (used : ℕ)
    → (check s valid used ≡ [])
      ↔ ((r : ExecutionResult) × (s.execution_result ≡ some r) × IsAcceptable s valid used r)
unfolding check
check-nil_iff s valid used = elim (Option-cases s.execution_result) [
  | inl n ↦ (λ h. absurd (cc (rw n at h)), λ h. absurd (ground (arith, h.1, n)))
  | inr (r, e) ↦ (
    λ h. (r, e, (result_issues-nil s valid used r).0 (rw e at h)),
    λ (q, f, a). rw f ((result_issues-nil s valid used q).1 a),
  )
]
