-- ===== src/Approval/Recovery.antt =====
-- The log of the service, loaded by a new process, is the dict of the old one.
use ai_team_os.Prelude.{All, ap, some, ◌≡◌, refl, true, List, [], ◌∷◌, ◌++◌, Dict, insert}
use ai_team_os.JsonLines.{Json, IsLine, log_text, read_lines-log_text}
use ai_team_os.Approval.Defs.{
  ApprovalRequest, ApprovalService, load_from, load, init, opened, opened_from, save, create,
  new_request,
}
use ai_team_os.Approval.Lifecycle.{
  Write, same, saved, Touch, untouched, written, Step, created, decided, verified, Reach, here,
  next, IsKeyed, Step-IsKeyed, decide-Touch, verify_execution-Write,
}

-- The dict is what `_load` makes of the file.
abbrev pub IsDurable : ApprovalService → Type 0
IsDurable s = (s.persistent ≡ true) × (load s.log ≡ s.requests)

load_from-append :
    (d : Dict ApprovalRequest) (lines : List ApprovalRequest) (r : ApprovalRequest)
    → load_from d (lines ++ r ∷ []) ≡ insert r.approval_id r (load_from d lines)
unfolding load_from
load_from-append d [] r = refl
load_from-append d (x ∷ lines) r = load_from-append (insert x.approval_id x d) lines r

save-IsDurable : (r : ApprovalRequest) (s : ApprovalService) → IsDurable s → IsDurable (save r s)
unfolding save load
save-IsDurable r s (p, e) = (p, rw (p, load_from-append [] s.log r) (rw e refl))

Write-IsDurable :
    {s t : ApprovalService} (r : ApprovalRequest) → Write r s t → IsDurable s → IsDurable t
Write-IsDurable r (same e) v = rw e v
Write-IsDurable {s} r (saved r' id dead e) v = rw e (save-IsDurable r' s v)

Touch-IsDurable : {s t : ApprovalService} → Touch s t → IsDurable s → IsDurable t
Touch-IsDurable (untouched e) v = rw e v
Touch-IsDurable (written r h w) v = Write-IsDurable r w v

Step-IsDurable : {s t : ApprovalService} → Step s t → IsKeyed s → IsDurable s → IsDurable t
unfolding create
Step-IsDurable {s} (created h id at now d o f e) k v =
    rw e (save-IsDurable (new_request h id at now d o s) s v)
Step-IsDurable {s} (decided now later id decision reason e) k v =
    rw e (Touch-IsDurable (decide-Touch now later id decision reason s k) v)
Step-IsDurable {s} (verified now ph th oh r h e) k v =
    rw e (Write-IsDurable r (verify_execution-Write now ph th oh r s) v)

-- After any history of requests, decisions and checks of a service that persists, accepted or
-- not, a new process that loads the text of the file has the requests of the old one, each with its
-- status. The JSON of every request in the file is read again as that request and is one line, for
-- `splitlines` too.
pub recovery :
    (json : Json ApprovalRequest) (s t : ApprovalService)
    → IsKeyed s
    → IsDurable s
    → Reach s t
    → All (IsLine json) t.log
    → (u : ApprovalService) × (init json t.ttl_seconds true (some (log_text json t.log)) ≡ some u)
      × (u.requests ≡ t.requests)
      × (u.log ≡ t.log)
unfolding init opened
recovery json s t k v r lines = (
  opened t.ttl_seconds true t.log,
  ap (opened_from t.ttl_seconds) (read_lines-log_text json t.log lines),
  (go r).1.1,
  refl,
)
  where
    go : {u : ApprovalService} → Reach s u → IsKeyed u × IsDurable u
    go here = (k, v)
    go (next r st) = let (j, w) = go r in (Step-IsKeyed st j, Step-IsDurable st j w)
