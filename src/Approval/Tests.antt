-- ===== src/Approval/Tests.antt =====
-- A request that is approved and one that is rejected, and the theorems at them.
use ai_team_os.Prelude.{
  All, codes, text_eq, if◌then◌else◌, subst, sym, strip, ◌++◌, arith, String, ◌≡◌, ◌≢◌, refl, true,
  false, Option, none, some, List, [], ◌∷◌, ok, is_ok, lookup, insert, ◌↔◌, ◌⊎◌,
}
use ai_team_os.Approval.Defs.{
  approved, rejected, ApprovalRequest, ApprovalService, Hashing, Operation, Details, init, opened,
  load, save, create, new_request, decide, verify_execution, is_expired, is_open, decision_status,
}
use ai_team_os.Approval.Lifecycle.{
  IsKeyed, dead_at, Reach, here, next, created, decided, dead_forever, Step-IsKeyed,
}
use ai_team_os.Approval.Decisions.{decide_accepts_iff}
use ai_team_os.JsonLines.{Json, IsLine, log_text}
use ai_team_os.Patch.Lines.{split_lines}
use ai_team_os.Approval.Binding.{verify_execution-ok_iff}
use ai_team_os.Approval.Recovery.{IsDurable, recovery}

-- A hash that tells one operation from the others, and a list printed as its first entry.
abbrev first_text : List String → String
first_text [] = ""
first_text (x ∷ xs) = x

abbrev plain : Hashing
plain = record {
  hexdigest = λ t.
      if text_eq t (codes "apply_patch\0sandbox_apply_patch\0fix\0a.py\0\0d1\0")
      then "aa"
      else "bb";
  dumps = first_text;
}

abbrev patch : Operation
patch = record {
  action_type = "apply_patch";
  tool_name = "sandbox_apply_patch";
  summary = "fix";
  target_paths = "a.py" ∷ [];
  command_argv = [];
  diff_ref = some "d1";
}

abbrev details : Details
details = record {
  task_id = "t1";
  run_id = none;
  subtask_id = none;
  risk_level = "safe";
  approval_level = "explicit";
  estimated_file_changes = 1;
  estimated_runtime = 0;
  parameter_hash = "p";
  target_hash = "q";
}

abbrev fresh : ApprovalService
fresh = opened 3600 true []

abbrev asked : ApprovalService
asked = (create plain "r1" 0 0 details patch fresh).0

abbrev request : ApprovalRequest
request = (create plain "r1" 0 0 details patch fresh).1

abbrev refused : ApprovalService
refused = (decide 5 6 "r1" "rejected" none asked).0

abbrev dead_request : ApprovalRequest
dead_request = record request { status = rejected; decided_at = some 6; decision_reason = none }

fresh-IsKeyed : IsKeyed fresh
unfolding opened load lookup
fresh-IsKeyed = record { at = λ k r h. absurd (ground arith) }

fresh-IsDurable : IsDurable fresh
unfolding opened load
fresh-IsDurable = (refl, refl)

r1_free : lookup "r1" fresh.requests ≡ none
unfolding opened load lookup
r1_free = refl

asked-Reach : Reach fresh asked
asked-Reach = next here (created plain "r1" 0 0 details patch r1_free refl)

refused-Reach : Reach fresh refused
refused-Reach = next asked-Reach (decided 5 6 "r1" "rejected" none refl)

refused-IsKeyed : IsKeyed refused
refused-IsKeyed =
    Step-IsKeyed (decided 5 6 "r1" "rejected" none refl)
      (Step-IsKeyed (created plain "r1" 0 0 details patch r1_free refl) fresh-IsKeyed)

refused_dead : dead_at "r1" refused ≡ true
unfolding dead_at decide create save opened load lookup insert is_expired new_request
refused_dead = refl

refused_stored : lookup "r1" refused.requests ≡ some dead_request
unfolding decide create save opened load lookup insert is_expired new_request
refused_stored = refl

dead_forever_example :
    (dead_at "r1" (decide 7 8 "r1" "approved" none refused).0 ≡ true)
    × IsKeyed (decide 7 8 "r1" "approved" none refused).0
dead_forever_example =
    dead_forever "r1" refused (decide 7 8 "r1" "approved" none refused).0 refused-IsKeyed
      refused_dead (next here (decided 7 8 "r1" "approved" none refl))

asked_stored : lookup "r1" asked.requests ≡ some request
unfolding create save opened load lookup insert new_request
asked_stored = refl

decide_accepts_iff_example : (is_ok (decide 5 6 "r1" "approved" none asked).1 ≡ true) ↔ (
    (is_expired 5 request ≡ false)
    × (is_open request.status ≡ true)
    × (decision_status "approved" ≢ none))
decide_accepts_iff_example = decide_accepts_iff 5 6 "r1" "approved" none asked request asked_stored

asked-IsKeyed : IsKeyed asked
asked-IsKeyed = Step-IsKeyed (created plain "r1" 0 0 details patch r1_free refl) fresh-IsKeyed

abbrev approved_request : ApprovalRequest
approved_request = record request { status = approved; decided_at = some 6; decision_reason = none }

approves : (decide 5 6 "r1" "approved" none asked).1 ≡ ok approved_request
unfolding decide create save opened load lookup insert is_expired new_request
approves = refl

verify_execution-ok_iff_example :
    ((verify_execution 7 "p" "other" none approved_request asked).1 ≡ ok tt) ↔ (
      (approved_request.status ≡ approved)
      × (is_expired 7 approved_request ≡ false)
      × ((◌≡◌ {A = Option String} none none) ⊎ (none ≡ some approved_request.operation_hash))
      × ((◌≡◌ {A = String} "p" "") ⊎ ("p" ≡ approved_request.parameter_hash))
      × ((◌≡◌ {A = String} "other" "") ⊎ ("other" ≡ approved_request.target_hash)))
verify_execution-ok_iff_example = verify_execution-ok_iff 7 "p" "other" none approved_request asked

abbrev other_patch : Operation
other_patch = record patch { summary = "remove"; target_paths = "b.py" ∷ [] }

-- JSON for the two states of the request.
abbrev json : Json ApprovalRequest
json = record {
  dumps = λ r. if is_open r.status then codes "{1}" else codes "{2}";
  loads = λ t. if text_eq t (codes "{1}") then some request else some dead_request;
}

refused_log : refused.log ≡ request ∷ dead_request ∷ []
unfolding decide create save opened load lookup insert is_expired new_request
refused_log = refl

log_lines : All (IsLine json) (request ∷ dead_request ∷ [])
unfolding strip create new_request
log_lines = (
  record { read_again = refl; one_line = refl; not_blank = refl },
  (record { read_again = refl; one_line = refl; not_blank = refl }, tt),
)

recovery_example :
    (u : ApprovalService) × (init json refused.ttl_seconds true (some (log_text json refused.log))
      ≡ some u)
    × (u.requests ≡ refused.requests)
    × (u.log ≡ refused.log)
recovery_example =
    recovery json fresh refused fresh-IsKeyed fresh-IsDurable refused-Reach
      (subst (All (IsLine json)) (sym refused_log) log_lines)

-- A line separator in a text ends the line, which is then no JSON.
separator_breaks :
    split_lines (codes "{\"summary\": \"a" ++ 8232 ∷ codes "b\"}")
    ≡ codes "{\"summary\": \"a" ∷ codes "b\"}" ∷ []
unfolding split_lines
separator_breaks = refl
