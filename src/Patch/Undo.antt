-- ===== src/Patch/Undo.antt =====
-- `WorkspaceRollback.rollback_patch` of app/core/rollback.py, over the store of files. The manifest is
-- the text of its JSON lines. The reports that it writes as artifacts are left out.
use ai_team_os.Prelude.{
  ℕ, strip, String, Text, codes, not, Option, none, some, List, [], ◌∷◌, ◌++◌, if◌then◌else◌,
  str_eq, is_nil, Dict, lookup, Result, ok, err,
}
use ai_team_os.JsonLines.{Json}
use ai_team_os.Patch.Lines.{split_lines}
use ai_team_os.Approval.Defs.{ApprovalService, ApprovalRequest, ApprovalError, verify_execution}
use ai_team_os.Patch.Defs.{PatchError}
use ai_team_os.Patch.Paths.{Worktree, validate_rel_path}
use ai_team_os.Patch.Store.{Files, set_file, ManifestEntry}

-- The state of `rollback_patch`: the files, and the lists `restored` and `missing`.
pub record Rollback : Type 0 where
  pub files : Files
  pub restored : List Text
  pub missing : List Text

pub data RollbackError : Type 0 where
  rollback_incomplete : List Text → RollbackError
  no_backups_found : RollbackError
  approval_not_found wrong_action : RollbackError
  approval_invalid : ApprovalError → RollbackError
  no_manifest bad_line : RollbackError
  bad_target : PatchError → RollbackError

abbrev pub restore_copy : Text → Text → Option Text → Rollback → Rollback
restore_copy rel target none r = record r { missing = r.missing ++ rel ∷ [] }
restore_copy rel target (some content) r = record r {
  files = set_file target (some content) r.files;
  restored = r.restored ++ rel ∷ [];
}

-- What is said of a created file.
abbrev pub created_note : Option Text → Text
created_note none = codes " (created; already absent)"
created_note (some content) = codes " (created; moved to trash)"

-- A created file goes to the trash.
abbrev pub restore_entry : Dict Text → ManifestEntry → Text → Rollback → Rollback
restore_entry backups e target r =
    if e.created
    then record r {
      files = set_file target none r.files;
      restored = r.restored ++ (e.target ++ created_note (r.files target)) ∷ [];
    }
    else restore_copy e.target target (lookup e.backup backups) r

abbrev pub restore_if :
    Dict Text → ManifestEntry → Result PatchError Text → Rollback → Rollback × Option RollbackError
restore_if backups e (err p) r = (r, some (bad_target p))
restore_if backups e (ok target) r = (restore_entry backups e target r, none)

abbrev pub go_on :
    Rollback × Option RollbackError
    → (Rollback → Rollback × Option RollbackError)
    → Rollback × Option RollbackError
go_on (r, none) k = k r
go_on (r, some e) k = (r, some e)

-- One entry of the manifest; those of other patches are passed over.
unfoldable pub rollback_entry :
    Worktree → Dict Text → String → ManifestEntry → Rollback → Rollback × Option RollbackError
rollback_entry w backups id e r =
    if str_eq e.approval_id id
    then restore_if backups e (validate_rel_path w e.target) r
    else (r, none)

abbrev pub rollback_read :
    Worktree
    → Dict Text
    → String
    → Option ManifestEntry
    → Rollback
    → Rollback × Option RollbackError
rollback_read w backups id none r = (r, some bad_line)
rollback_read w backups id (some e) r = rollback_entry w backups id e r

-- The loop over the lines of the manifest.
unfoldable pub rollback_lines :
    Json ManifestEntry
    → Worktree
    → Dict Text
    → String
    → List Text
    → Rollback
    → Rollback × Option RollbackError
rollback_lines json w backups id [] r = (r, none)
rollback_lines json w backups id (line ∷ lines) r =
    if is_nil (strip line)
    then rollback_lines json w backups id lines r
    else go_on (rollback_read w backups id (json.loads line) r)
        (λ r'. rollback_lines json w backups id lines r')

abbrev pub report : Rollback × Option RollbackError → Files × Result RollbackError (List Text)
report (r, some e) = (r.files, err e)
report (r, none) =
    if not (is_nil r.missing)
    then (r.files, err (rollback_incomplete r.missing))
    else if is_nil r.restored
    then (r.files, err no_backups_found)
    else (r.files, ok r.restored)

-- `_require_approval`: a valid approval of the action, whose own hashes are checked.
abbrev pub checked :
    ApprovalService × Result ApprovalError (Unit {0})
    → ApprovalService × Result RollbackError (Unit {0})
checked (s, ok u) = (s, ok u)
checked (s, err e) = (s, err (approval_invalid e))

abbrev pub require_request :
    ℕ
    → String
    → Option ApprovalRequest
    → ApprovalService
    → ApprovalService × Result RollbackError (Unit {0})
require_request now action_type none s = (s, err approval_not_found)
require_request now action_type (some r) s =
    if not (str_eq r.action_type action_type)
    then (s, err wrong_action)
    else checked (verify_execution now r.parameter_hash "" (some r.operation_hash) r s)

unfoldable pub require_approval :
    ℕ → String → String → ApprovalService → ApprovalService × Result RollbackError (Unit {0})
require_approval now approval_id action_type s =
    require_request now action_type (lookup approval_id s.requests) s

-- What the approved rollback does with the text of the manifest, if there is one.
unfoldable pub rollback_manifest :
    Json ManifestEntry
    → Worktree
    → Dict Text
    → Option Text
    → String
    → Files
    → Files × Result RollbackError (List Text)
unfolding rollback_lines
rollback_manifest json w backups none id files = (files, err no_manifest)
rollback_manifest json w backups (some text) id files = report (
    rollback_lines json w backups id (split_lines text)
      (record { files = files; restored = []; missing = [] }))

abbrev pub if_approved :
    ApprovalService × Result RollbackError (Unit {0})
    → Files
    → Files × Result RollbackError (List Text)
    → ApprovalService × Files × Result RollbackError (List Text)
if_approved (s, err e) files rest = (s, files, err e)
if_approved (s, ok u) files rest = (s, rest.0, rest.1)

-- The service and the files after the rollback of the patch that the approval `id` applied, and what
-- it returns.
unfoldable pub rollback_patch :
    ℕ
    → Json ManifestEntry
    → Worktree
    → Dict Text
    → Option Text
    → String
    → String
    → ApprovalService
    → Files
    → ApprovalService × Files × Result RollbackError (List Text)
unfolding rollback_manifest
rollback_patch now json w backups manifest approval_id id service files =
    if_approved (require_approval now approval_id "rollback" service) files
      (rollback_manifest json w backups manifest id files)
