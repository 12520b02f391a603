-- ===== src/Approval/Defs.antt =====
-- `ApprovalRequest` and `ApprovalService` of app/core/approval.py. A moment is a number of
-- microseconds, which the ISO texts of the source carry without loss. The dict and the objects in
-- it are one association list. The file of the service is the text of JSON lines; the service carries
-- the requests that were appended to it. A method that raises returns what it had written before
-- beside the exception.
use ai_team_os.Prelude.{
  zero, suc, Text, codes, ℕ, ◌+◌, ◌*◌, String, Bool, true, false, not, ◌&&◌, Option, none, some,
  List, [], ◌∷◌, ◌++◌, if◌then◌else◌, str_eq, Result, ok, err, ltb, leb, Dict, lookup, insert,
  filter, map,
}
use ai_team_os.Patch.Lines.{split_lines}
use ai_team_os.JsonLines.{Json, read_lines}

pub data Status : Type 0 where
  pending approved rejected expired cancelled : Status

pub data ApprovalError : Type 0 where
  not_found approval_expired already_rejected bad_state invalid_decision not_approved :
      ApprovalError
  operation_mismatch parameter_mismatch target_mismatch : ApprovalError

pub record ApprovalRequest : Type 0 where
  pub approval_id : String
  pub task_id : String
  pub run_id : Option String
  pub subtask_id : Option String
  pub action_type : String
  pub tool_name : String
  pub risk_level : String
  pub approval_level : String
  pub summary : String
  pub target_paths : List String
  pub command_argv : List String
  pub diff_ref : Option String
  pub estimated_file_changes : ℕ
  pub estimated_runtime : ℕ  -- a float in the source, which only stores it
  pub requested_at : ℕ
  pub status : Status
  pub operation_hash : String
  pub parameter_hash : String
  pub target_hash : String
  pub expires_at : Option ℕ
  pub decided_at : Option ℕ
  pub decision_reason : Option String

pub record ApprovalService : Type 0 where
  pub ttl_seconds : ℕ
  pub requests : Dict ApprovalRequest
  pub persistent : Bool  -- whether there is a storage path
  pub log : List ApprovalRequest  -- the requests in the lines of the file, the oldest first

-- The library code that a hash is computed with: SHA-256 of a text in UTF-8, as hexadecimal digits,
-- and the JSON text of a list.
pub record Hashing : Type 0 where
  pub hexdigest : Text → String
  pub dumps : List String → String

-- s[:n]
abbrev pub take_str : ℕ → String → String
take_str zero s = ""
take_str (suc n) String.[] = ""
take_str (suc n) (String.◌∷◌ c s) = String.◌∷◌ c (take_str n s)

-- What the hash is fed with: every part, and a NUL after it.
unfoldable pub fed : List String → Text
fed [] = []
fed (part ∷ parts) = codes part ++ 0 ∷ fed parts

unfoldable pub stable_hash : Hashing → List String → String
stable_hash h parts = take_str 32 (h.hexdigest (fed parts))

abbrev pub text_or_empty : Option String → String
text_or_empty none = ""
text_or_empty (some s) = s

-- What a proposal fixes of an action.
pub record Operation : Type 0 where
  pub action_type : String
  pub tool_name : String
  pub summary : String
  pub target_paths : List String
  pub command_argv : List String
  pub diff_ref : Option String

abbrev pub operation_parts : Hashing → Operation → List String
operation_parts h o =
    o.action_type
    ∷ o.tool_name
    ∷ o.summary
    ∷ h.dumps o.target_paths
    ∷ h.dumps o.command_argv
    ∷ text_or_empty o.diff_ref
    ∷ []

unfoldable pub operation_hash_of : Hashing → Operation → String
operation_hash_of h o = stable_hash h (operation_parts h o)

-- `_load`: each line in turn, a later one in place of an earlier one with its id.
unfoldable pub load_from : Dict ApprovalRequest → List ApprovalRequest → Dict ApprovalRequest
load_from d [] = d
load_from d (r ∷ lines) = load_from (insert r.approval_id r d) lines

unfoldable pub load : List ApprovalRequest → Dict ApprovalRequest
unfolding load_from
load lines = load_from [] lines

-- The service over a file with these requests.
unfoldable pub opened : ℕ → Bool → List ApprovalRequest → ApprovalService
unfolding load
opened ttl_seconds persistent lines = record {
  ttl_seconds = ttl_seconds;
  requests = if persistent then load lines else [];
  persistent = persistent;
  log = if persistent then lines else [];
}

abbrev pub opened_from : ℕ → Option (List ApprovalRequest) → Option ApprovalService
opened_from ttl_seconds none = none
opened_from ttl_seconds (some lines) = some (opened ttl_seconds true lines)

-- `__init__` with the text of the file, if there is one; it raises when a line cannot be read.
unfoldable pub init : Json ApprovalRequest → ℕ → Bool → Option Text → Option ApprovalService
init json ttl_seconds false file = some (opened ttl_seconds false [])
init json ttl_seconds true none = some (opened ttl_seconds true [])
init json ttl_seconds true (some text) =
    opened_from ttl_seconds (read_lines json (split_lines text))

-- An object of the dict as it is now, and `_persist` of it.
unfoldable pub save : ApprovalRequest → ApprovalService → ApprovalService
save r s = record s {
  requests = insert r.approval_id r s.requests;
  log = if s.persistent then s.log ++ r ∷ [] else s.log;
}

-- What the caller of `create` gives beside the operation.
pub record Details : Type 0 where
  pub task_id : String
  pub run_id : Option String
  pub subtask_id : Option String
  pub risk_level : String
  pub approval_level : String
  pub estimated_file_changes : ℕ
  pub estimated_runtime : ℕ
  pub parameter_hash : String
  pub target_hash : String

-- `approval_id` is the fresh uuid; the clock is read at `requested_at` and again at `now`.
unfoldable pub new_request :
    Hashing → String → ℕ → ℕ → Details → Operation → ApprovalService → ApprovalRequest
new_request h approval_id requested_at now d o s = record {
  approval_id = approval_id;
  task_id = d.task_id;
  run_id = d.run_id;
  subtask_id = d.subtask_id;
  action_type = o.action_type;
  tool_name = o.tool_name;
  risk_level = d.risk_level;
  approval_level = d.approval_level;
  summary = o.summary;
  target_paths = o.target_paths;
  command_argv = o.command_argv;
  diff_ref = o.diff_ref;
  estimated_file_changes = d.estimated_file_changes;
  estimated_runtime = d.estimated_runtime;
  requested_at = requested_at;
  status = pending;
  operation_hash = operation_hash_of h o;
  parameter_hash = d.parameter_hash;
  target_hash = d.target_hash;
  expires_at = some (now + s.ttl_seconds * 1000000);
  decided_at = none;
  decision_reason = none;
}

unfoldable pub create :
    Hashing
    → String
    → ℕ
    → ℕ
    → Details
    → Operation
    → ApprovalService
    → ApprovalService × ApprovalRequest
create h approval_id requested_at now d o s =
    let r = new_request h approval_id requested_at now d o s in (save r s, r)

unfoldable pub is_expired : ℕ → ApprovalRequest → Bool
is_expired now r = elim r.expires_at [ none ↦ false | some t ↦ ltb t now ]

abbrev pub is_approved : Status → Bool
is_approved approved = true
is_approved _ = false

abbrev pub is_rejected : Status → Bool
is_rejected rejected = true
is_rejected _ = false

-- `status in ("pending", "approved")`
abbrev pub is_open : Status → Bool
is_open pending = true
is_open approved = true
is_open _ = false

-- The status that a valid decision names.
abbrev pub decision_status : String → Option Status
decision_status decision =
    if str_eq decision "approved"
    then some approved
    else if str_eq decision "rejected"
    then some rejected
    else if str_eq decision "cancelled"
    then some cancelled
    else none

abbrev pub Outcome : Type 0 → Type 0
Outcome A = ApprovalService × Result ApprovalError A

abbrev pub decided :
    ℕ → Option Status → Option String → ApprovalRequest → ApprovalService → Outcome ApprovalRequest
decided now none reason r s = (s, err invalid_decision)
decided now (some status) reason r s =
    let r' = record r { status = status; decided_at = some now; decision_reason = reason } in
    (save r' s, ok r')

-- The body of `decide` for a request that is in the dict. `now` is when the expiry is tested,
-- and `later` when `decided_at` is taken.
unfoldable pub decide_request :
    ℕ → ℕ → String → Option String → ApprovalRequest → ApprovalService → Outcome ApprovalRequest
decide_request now later decision reason r s =
    if is_expired now r
    then (save (record r { status = expired }) s, err approval_expired)
    else if is_approved r.status && str_eq decision "approved"
    then (s, ok r)
    else if is_rejected r.status
    then (s, err already_rejected)
    else if not (is_open r.status)
    then (s, err bad_state)
    else decided later (decision_status decision) reason r s

-- What `decide` does with the result of `self._requests.get(approval_id)`.
unfoldable pub decide_found :
    ℕ
    → ℕ
    → String
    → Option String
    → Option ApprovalRequest
    → ApprovalService
    → Outcome ApprovalRequest
unfolding decide_request
decide_found now later decision reason none s = (s, err not_found)
decide_found now later decision reason (some r) s = decide_request now later decision reason r s

unfoldable pub decide :
    ℕ → ℕ → String → String → Option String → ApprovalService → Outcome ApprovalRequest
unfolding decide_found
decide now later approval_id decision reason s =
    decide_found now later decision reason (lookup approval_id s.requests) s

unfoldable pub cancel : ℕ → ℕ → String → Option String → ApprovalService → Outcome ApprovalRequest
unfolding decide
cancel now later approval_id reason s = decide now later approval_id "cancelled" reason s

abbrev pub hash_differs : String → String → Bool
hash_differs a b = not (str_eq a b)

abbrev pub given_and_differs : String → String → Bool
given_and_differs given kept = not (str_eq given "") && hash_differs given kept

abbrev pub operation_differs : Option String → String → Bool
operation_differs none kept = false
operation_differs (some given) kept = hash_differs given kept

-- `verify_execution` of a request object that the service handed out.
unfoldable pub verify_execution :
    ℕ → String → String → Option String → ApprovalRequest → ApprovalService → Outcome (Unit {0})
verify_execution now parameter_hash target_hash operation_hash r s =
    if not (is_approved r.status)
    then (s, err not_approved)
    else if is_expired now r
    then (save (record r { status = expired }) s, err approval_expired)
    else if operation_differs operation_hash r.operation_hash
    then (s, err operation_mismatch)
    else if given_and_differs parameter_hash r.parameter_hash
    then (s, err parameter_mismatch)
    else if given_and_differs target_hash r.target_hash
    then (s, err target_mismatch)
    else (s, ok tt)

-- `sorted(..., key=requested_at)`, which is stable.
unfoldable pub insert_by_time : ApprovalRequest → List ApprovalRequest → List ApprovalRequest
insert_by_time r [] = r ∷ []
insert_by_time r (x ∷ xs) =
    if leb r.requested_at x.requested_at then r ∷ x ∷ xs else x ∷ insert_by_time r xs

unfoldable pub sort_by_time : List ApprovalRequest → List ApprovalRequest
unfolding insert_by_time
sort_by_time [] = []
sort_by_time (x ∷ xs) = insert_by_time x (sort_by_time xs)

abbrev pub values : Dict ApprovalRequest → List ApprovalRequest
values = map (λ e. e.1)

-- `if task_id:` leaves out `None` and the empty text.
unfoldable pub all_requests : Option String → ApprovalService → List ApprovalRequest
unfolding sort_by_time
all_requests none s = sort_by_time (values s.requests)
all_requests (some task_id) s = sort_by_time (
    if str_eq task_id ""
    then values s.requests
    else filter (λ r. str_eq r.task_id task_id) (values s.requests))
