-- ===== src/Approval/Decisions.antt =====
-- What the answers of the approval service mean.
use ai_team_os.Prelude.{
  ℕ, String, ◌≡◌, ◌≢◌, true, false, Option, none, some, arith, eq_iff, ok, is_ok, lookup, inl, inr,
  Option-cases, ◌↔◌,
}
use ai_team_os.Approval.Defs.{
  Status, approved, rejected, cancelled, ApprovalRequest, ApprovalService, decide, verify_execution,
  decision_status, is_open, is_expired,
}
use ai_team_os.Approval.Lifecycle.{IsKeyed, dead_at, lookup-save}

-- A request that is rejected, cancelled or expired passes no check before an execution, and no
-- decision on it is accepted.
pub dead_refused :
    (now later : ℕ) (k decision ph th : String) (reason oh : Option String) (s : ApprovalService)
    (r : ApprovalRequest)
    → lookup k s.requests ≡ some r
    → dead_at k s ≡ true
    → ((verify_execution now ph th oh r s).1 ≢ ok tt)
      × ((x : ApprovalRequest) → (decide now later k decision reason s).1 ≢ ok x)
unfolding dead_at verify_execution decide
dead_refused now later k decision ph th reason oh s r h d = (λ e. ground arith, λ x e. ground arith)

-- A decision on a request that is there is accepted exactly when the request is not expired and is
-- pending or approved, and the decision is one of the three known ones.
pub decide_accepts_iff :
    (now later : ℕ) (k decision : String) (reason : Option String) (s : ApprovalService)
    (r : ApprovalRequest)
    → lookup k s.requests ≡ some r
    → (is_ok (decide now later k decision reason s).1 ≡ true)
      ↔ ((is_expired now r ≡ false) × (is_open r.status ≡ true) × (decision_status decision ≢ none))
unfolding decide
decide_accepts_iff now later k decision reason s r h = (λ e. ground arith, λ e. ground (arith, e.2))

-- An accepted decision is the stored status afterwards, and no other request changes.
pub decide_stores :
    (now later : ℕ) (k decision : String) (reason : Option String) (s : ApprovalService)
    (x : ApprovalRequest)
    → IsKeyed s
    → (decide now later k decision reason s).1 ≡ ok x
    → (decision_status decision ≡ some x.status)
      × (lookup k (decide now later k decision reason s).0.requests ≡ some x)
      × ((j : String)
          → j ≢ k
          → lookup j (decide now later k decision reason s).0.requests ≡ lookup j s.requests)
unfolding decide
decide_stores now later k decision reason s x v h = elim (Option-cases (lookup k s.requests)) [
  | inl e ↦ absurd (ground arith)
  | inr (r, e) ↦
      let a = λ (q : Status) (j : String).
        lookup-save (record r { status = q; decided_at = some later; decision_reason = reason }) s
          j in
      (
        ground arith,
        ground
            (arith, v.at k r e, eq_iff r.approval_id k, a approved k, a rejected k, a cancelled k),
        λ j n.
            ground (
              arith,
              v.at k r e,
              eq_iff r.approval_id j,
              a approved j,
              a rejected j,
              a cancelled j,
            ),
      )
]
