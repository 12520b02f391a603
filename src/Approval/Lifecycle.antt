-- ===== src/Approval/Lifecycle.antt =====
-- The life of a request: what a decision changes, and the statuses that no history leaves.
use ai_team_os.Prelude.{
  ℕ, String, ◌≡◌, refl, Bool, true, false, Option, none, some, arith, eq_iff, if◌then◌else◌, str_eq,
  lookup, lookup-insert, inl, inr, Option-cases, Bool-cases, not, ◌&&◌,
}
use ai_team_os.Approval.Defs.{
  is_approved, is_rejected, decided as decided_, Status, rejected, expired, cancelled,
  ApprovalRequest, ApprovalService, Hashing, Details, Operation, save, new_request, create,
  decide_request, decide_found, decide, verify_execution, decision_status, is_open, is_expired,
}

pub lookup-save :
    (r : ApprovalRequest) (s : ApprovalService) (k : String)
    → lookup k (save r s).requests
      ≡ (if str_eq r.approval_id k then some r else lookup k s.requests)
unfolding save
lookup-save r s k = lookup-insert r.approval_id k r s.requests

-- Every request stands under its own id.
pub record IsKeyed (s : ApprovalService) : Type 0 where
  pub at : (k : String) (r : ApprovalRequest) → lookup k s.requests ≡ some r → r.approval_id ≡ k

pub save-IsKeyed : (r : ApprovalRequest) (s : ApprovalService) → IsKeyed s → IsKeyed (save r s)
save-IsKeyed r s v = record {
  at = λ k x h. ground (arith, lookup-save r s k, eq_iff r.approval_id k, v.at k x);
}

-- Everything that happens to the service: a request under a fresh id, a decision whether it is
-- accepted or not, and a check before an execution whether it passes or not.
pub data Step (s : ApprovalService) (t : ApprovalService) : Type 0 where
  created :
      (h : Hashing) (id : String) (requested_at now : ℕ) (d : Details) (o : Operation)
      → lookup id s.requests ≡ none
      → t ≡ (create h id requested_at now d o s).0
      → Step s t
  decided :
      (now later : ℕ) (id decision : String) (reason : Option String)
      → t ≡ (decide now later id decision reason s).0
      → Step s t
  verified :
      (now : ℕ) (parameter_hash target_hash : String) (operation_hash : Option String)
      (r : ApprovalRequest)
      → lookup r.approval_id s.requests ≡ some r
      → t ≡ (verify_execution now parameter_hash target_hash operation_hash r s).0
      → Step s t

pub data Reach (s : ApprovalService) : ApprovalService → Type 0 where
  here : Reach s s
  next : {t u : ApprovalService} → Reach s t → Step t u → Reach s u

-- A request whose status is rejected, expired or cancelled.
abbrev pub is_dead : Status → Bool
is_dead rejected = true
is_dead expired = true
is_dead cancelled = true
is_dead _ = false

-- How an operation on the stored request `r` may change the service: not at all, or by one write
-- of that request, which does not bring a dead one back.
pub data Write (r : ApprovalRequest) (s : ApprovalService) (t : ApprovalService) : Type 0 where
  same : t ≡ s → Write r s t
  saved :
      (r' : ApprovalRequest)
      → r'.approval_id ≡ r.approval_id
      → (is_dead r.status ≡ true → is_dead r'.status ≡ true)
      → t ≡ save r' s
      → Write r s t

abbrev with_status : Status → Option ℕ → Option String → ApprovalRequest → ApprovalRequest
with_status status at reason r = record r {
  status = status;
  decided_at = at;
  decision_reason = reason;
}

decided-Write :
    (later : ℕ) (status : Option Status) (reason : Option String) (r : ApprovalRequest)
    (s : ApprovalService)
    → is_dead r.status ≡ false
    → Write r s (decided_ later status reason r s).0
decided-Write later none reason r s alive = same refl
decided-Write later (some status) reason r s alive =
    saved (with_status status (some later) reason r) refl (λ d. cc) refl

open_alive : (status : Status) → not (is_open status) ≡ false → is_dead status ≡ false
open_alive status h = ground arith

pub decide_request-Write :
    (now later : ℕ) (decision : String) (reason : Option String) (r : ApprovalRequest)
    (s : ApprovalService)
    → Write r s (decide_request now later decision reason r s).0
unfolding decide_request
decide_request-Write now later decision reason r s = elim (Bool-cases (is_expired now r)) [
  | inl e ↦ saved (record r { status = expired }) refl (λ _. refl) (rw e)
  | inr e ↦ elim (Bool-cases (is_approved r.status && str_eq decision "approved")) [
    | inl f ↦ same (rw (e, f))
    | inr f ↦ elim (Bool-cases (is_rejected r.status)) [
      | inl g ↦ same (rw (e, f, g))
      | inr g ↦ elim (Bool-cases (not (is_open r.status))) [
        | inl o ↦ same (rw (e, f, g, o))
        | inr o ↦
            rw (e, f, g, o)
              (decided-Write later (decision_status decision) reason r s (open_alive r.status o))
      ]
    ]
  ]
]

pub verify_execution-Write :
    (now : ℕ) (parameter_hash target_hash : String) (operation_hash : Option String)
    (r : ApprovalRequest) (s : ApprovalService)
    → Write r s (verify_execution now parameter_hash target_hash operation_hash r s).0
unfolding verify_execution
verify_execution-Write now ph th oh r s = elim (Bool-cases (is_approved r.status)) [
  | inl a ↦ elim (Bool-cases (is_expired now r)) [
    | inl e ↦ saved (record r { status = expired }) refl (λ _. refl) (rw (a, e))
    | inr e ↦ same (ground arith)
  ]
  | inr a ↦ same (rw a)
]

-- A write for `decide` as a whole, which first looks the request up.
pub data Touch (s : ApprovalService) (t : ApprovalService) : Type 0 where
  untouched : t ≡ s → Touch s t
  written :
      (r : ApprovalRequest) → lookup r.approval_id s.requests ≡ some r → Write r s t → Touch s t

pub decide-Touch :
    (now later : ℕ) (id decision : String) (reason : Option String) (s : ApprovalService)
    → IsKeyed s
    → Touch s (decide now later id decision reason s).0
unfolding decide
decide-Touch now later id decision reason s v = elim (Option-cases (lookup id s.requests)) [
  | inl e ↦ untouched (ground arith)
  | inr (r, e) ↦
      written r (simp (v.at id r e) e)
        (rw (e, decide_found) (decide_request-Write now later decision reason r s))
]

unfoldable pub dead_at : String → ApprovalService → Bool
dead_at k s = elim (lookup k s.requests) [ none ↦ false | some r ↦ is_dead r.status ]

Write-IsKeyed : {s t : ApprovalService} (r : ApprovalRequest) → Write r s t → IsKeyed s → IsKeyed t
Write-IsKeyed r (same e) v = rw e v
Write-IsKeyed {s} r (saved r' id dead e) v = rw e (save-IsKeyed r' s v)

Write-dead :
    {s t : ApprovalService} (r : ApprovalRequest) (k : String)
    → lookup r.approval_id s.requests ≡ some r
    → Write r s t
    → dead_at k s ≡ true
    → dead_at k t ≡ true
unfolding dead_at
Write-dead r k h (same e) d = rw e d
Write-dead {s} r k h (saved r' id dead e) d =
    rw e (ground (arith, lookup-save r' s k, eq_iff r'.approval_id k, dead))

Touch-IsKeyed : {s t : ApprovalService} → Touch s t → IsKeyed s → IsKeyed t
Touch-IsKeyed (untouched e) v = rw e v
Touch-IsKeyed (written r h w) v = Write-IsKeyed r w v

Touch-dead :
    {s t : ApprovalService} (k : String) → Touch s t → dead_at k s ≡ true → dead_at k t ≡ true
Touch-dead k (untouched e) d = rw e d
Touch-dead k (written r h w) d = Write-dead r k h w d

create-IsKeyed :
    (h : Hashing) (id : String) (at now : ℕ) (d : Details) (o : Operation) (s : ApprovalService)
    → IsKeyed s
    → IsKeyed (create h id at now d o s).0
unfolding create
create-IsKeyed h id at now d o s v = save-IsKeyed (new_request h id at now d o s) s v

create-dead :
    (h : Hashing) (id : String) (at now : ℕ) (d : Details) (o : Operation) (s : ApprovalService)
    (k : String)
    → lookup id s.requests ≡ none
    → dead_at k s ≡ true
    → dead_at k (create h id at now d o s).0 ≡ true
unfolding create dead_at new_request
create-dead h id at now d o s k f q =
    ground (arith, lookup-save (new_request h id at now d o s) s k, eq_iff id k)

pub Step-IsKeyed : {s t : ApprovalService} → Step s t → IsKeyed s → IsKeyed t
Step-IsKeyed {s} (created h id at now d o f e) v = rw e (create-IsKeyed h id at now d o s v)
Step-IsKeyed {s} (decided now later id decision reason e) v =
    rw e (Touch-IsKeyed (decide-Touch now later id decision reason s v) v)
Step-IsKeyed {s} (verified now ph th oh r h e) v =
    rw e (Write-IsKeyed r (verify_execution-Write now ph th oh r s) v)

Step-dead :
    {s t : ApprovalService} (k : String)
    → IsKeyed s
    → Step s t
    → dead_at k s ≡ true
    → dead_at k t ≡ true
Step-dead {s} k v (created h id at now d o f e) q = rw e (create-dead h id at now d o s k f q)
Step-dead {s} k v (decided now later id decision reason e) q =
    rw e (Touch-dead k (decide-Touch now later id decision reason s v) q)
Step-dead {s} k v (verified now ph th oh r h e) q =
    rw e (Write-dead r k h (verify_execution-Write now ph th oh r s) q)

-- In a service whose requests stand under their own ids, a request that is rejected, cancelled or
-- expired is never pending or approved again: after whatever decisions, checks and requests with
-- new ids, at whatever times, its status is one of the three. The requests keep their ids.
pub dead_forever :
    (k : String) (s t : ApprovalService)
    → IsKeyed s
    → dead_at k s ≡ true
    → Reach s t
    → (dead_at k t ≡ true) × IsKeyed t
dead_forever k s t v d r = go r
  where
    go : {u : ApprovalService} → Reach s u → (dead_at k u ≡ true) × IsKeyed u
    go here = (d, v)
    go (next r st) = let (q, w) = go r in (Step-dead k w st q, Step-IsKeyed st w)
