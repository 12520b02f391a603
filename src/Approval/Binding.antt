-- ===== src/Approval/Binding.antt =====
-- The check before an execution: what passes is what was approved.
use ai_team_os.Prelude.{
  ◌∷◌, [], List, ◌==◌, Text, codes, map, any, ℕ, String, ◌≡◌, false, Option, none, some, arith,
  eq_iff, ok, ◌⊎◌, ◌↔◌,
}
use ai_team_os.Approval.Defs.{
  approved, ApprovalRequest, ApprovalService, verify_execution, is_expired,
}

-- A check passes exactly when the request is approved and not expired, and each hash that is
-- given is the one on the request: the operation hash if there is one, the parameter and the
-- target hash unless they are empty.
pub verify_execution-ok_iff :
    (now : ℕ) (parameter_hash target_hash : String) (operation_hash : Option String)
    (r : ApprovalRequest) (s : ApprovalService)
    → ((verify_execution now parameter_hash target_hash operation_hash r s).1 ≡ ok tt) ↔ (
        (r.status ≡ approved)
        × (is_expired now r ≡ false)
        × ((operation_hash ≡ none) ⊎ (operation_hash ≡ some r.operation_hash))
        × ((parameter_hash ≡ "") ⊎ (parameter_hash ≡ r.parameter_hash))
        × ((target_hash ≡ "") ⊎ (target_hash ≡ r.target_hash)))
unfolding verify_execution
verify_execution-ok_iff now ph th none r s = (
  λ h.
      ground
        (arith, eq_iff ph "", eq_iff ph r.parameter_hash, eq_iff th "", eq_iff th r.target_hash),
  λ h.
      ground
        (arith, eq_iff ph "", eq_iff ph r.parameter_hash, eq_iff th "", eq_iff th r.target_hash),
)
verify_execution-ok_iff now ph th (some oh) r s = (
  λ h. ground (
    arith,
    eq_iff oh r.operation_hash,
    eq_iff ph "",
    eq_iff ph r.parameter_hash,
    eq_iff th "",
    eq_iff th r.target_hash,
  ),
  λ h. ground (
    arith,
    eq_iff oh r.operation_hash,
    eq_iff ph "",
    eq_iff ph r.parameter_hash,
    eq_iff th "",
    eq_iff th r.target_hash,
  ),
)

abbrev pub IsClean : String → Type 0
IsClean part = any (λ c. c == 0) (codes part) ≡ false

abbrev head_or_one : Text → ℕ
head_or_one [] = 1
head_or_one (c ∷ s) = c

abbrev pub texts : List String → List Text
texts = map codes
