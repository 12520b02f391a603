-- ===== src/Approval/Listing.antt =====
-- `all`: the requests, or those of one task, in the order of their times.
use mathlib.Core.List.{Perm}
use mathlib.Core.List.Perm
use ai_team_os.Prelude.{
  ℕ, ◌≤◌, String, ◌≡◌, false, none, some, List, [], ◌∷◌, arith, if◌then◌else◌, str_eq, All, filter,
  leb, Bool-cases, inl, inr,
}
use ai_team_os.Approval.Defs.{
  ApprovalRequest, ApprovalService, insert_by_time, sort_by_time, all_requests, values,
}

-- Each request is no later than all that follow it.
abbrev pub IsSorted : List ApprovalRequest → Type 0
IsSorted [] = Unit
IsSorted (x ∷ xs) = All (λ (y : ApprovalRequest). x.requested_at ≤ y.requested_at) xs × IsSorted xs

abbrev NotBefore : ℕ → List ApprovalRequest → Type 0
NotBefore n = All (λ (y : ApprovalRequest). n ≤ y.requested_at)

NotBefore-le : (m n : ℕ) (xs : List ApprovalRequest) → m ≤ n → NotBefore n xs → NotBefore m xs
NotBefore-le m n [] h v = tt
NotBefore-le m n (x ∷ xs) h v = (omega arith, NotBefore-le m n xs h v.1)

NotBefore-insert :
    (n : ℕ) (r : ApprovalRequest) (xs : List ApprovalRequest)
    → n ≤ r.requested_at
    → NotBefore n xs
    → NotBefore n (insert_by_time r xs)
unfolding insert_by_time
NotBefore-insert n r [] h v = (h, tt)
NotBefore-insert n r (x ∷ xs) h v = elim (Bool-cases (leb r.requested_at x.requested_at)) [
  | inl e ↦ rw e (h, v)
  | inr e ↦ rw e (v.0, NotBefore-insert n r xs h v.1)
]

insert_by_time-IsSorted :
    (r : ApprovalRequest) (xs : List ApprovalRequest) → IsSorted xs → IsSorted (insert_by_time r xs)
unfolding insert_by_time
insert_by_time-IsSorted r [] v = (tt, tt)
insert_by_time-IsSorted r (x ∷ xs) v = elim (Bool-cases (leb r.requested_at x.requested_at)) [
  | inl e ↦
      let below : r.requested_at ≤ x.requested_at = ground arith in
      rw e ((below, NotBefore-le r.requested_at x.requested_at xs below v.0), v)
  | inr e ↦
      let above : x.requested_at ≤ r.requested_at = ground arith in
      rw e (NotBefore-insert x.requested_at r xs above v.0, insert_by_time-IsSorted r xs v.1)
]

insert_by_time-perm :
    (r : ApprovalRequest) (xs : List ApprovalRequest) → Perm (insert_by_time r xs) (r ∷ xs)
unfolding insert_by_time
insert_by_time-perm r [] = Perm.refl (r ∷ [])
insert_by_time-perm r (x ∷ xs) = elim (Bool-cases (leb r.requested_at x.requested_at)) [
  | inl e ↦ rw e (Perm.refl (r ∷ x ∷ xs))
  | inr e ↦ rw e (Perm.trans (Perm.cons x (insert_by_time-perm r xs)) (Perm.swap r x xs))
]

sort_by_time-IsSorted : (xs : List ApprovalRequest) → IsSorted (sort_by_time xs)
unfolding sort_by_time
sort_by_time-IsSorted [] = tt
sort_by_time-IsSorted (x ∷ xs) =
    insert_by_time-IsSorted x (sort_by_time xs) (sort_by_time-IsSorted xs)

sort_by_time-perm : (xs : List ApprovalRequest) → Perm (sort_by_time xs) xs
unfolding sort_by_time
sort_by_time-perm [] = Perm.refl []
sort_by_time-perm (x ∷ xs) =
    Perm.trans (insert_by_time-perm x (sort_by_time xs)) (Perm.cons x (sort_by_time-perm xs))

-- The listing is in the order of the times. Without a task it has every request of the dict as
-- often as the dict has it; for a task with a name, those whose task it is.
pub all_requests_lem :
    (task_id : String) (s : ApprovalService)
    → IsSorted (all_requests none s)
      × Perm (all_requests none s) (values s.requests)
      × IsSorted (all_requests (some task_id) s)
      × (str_eq task_id "" ≡ false
          → Perm
              (all_requests (some task_id) s)
              (filter (λ r. str_eq r.task_id task_id) (values s.requests)))
unfolding all_requests
all_requests_lem task_id s = (
  sort_by_time-IsSorted (values s.requests),
  sort_by_time-perm (values s.requests),
  sort_by_time-IsSorted (
      if str_eq task_id ""
      then values s.requests
      else filter (λ r. str_eq r.task_id task_id) (values s.requests)),
  λ e. rw e (sort_by_time-perm (filter (λ r. str_eq r.task_id task_id) (values s.requests))),
)
