-- ===== src/Patch/Store.antt =====
-- `PatchApplier.apply` of app/core/patch_engine.py over a store of files. A file is its
-- text as the code reads it. Names of backups are arguments; `cannot_write` and `cannot_replace` say
-- at which paths the writing of a text and the replacement of a file fail. Other failures of the
-- disk are left out.
use ai_team_os.Prelude.{
  String, Text, codes, text_eq, Bool, true, false, Option, none, some, List, [], ◌∷◌, ◌++◌,
  if◌then◌else◌, Dict, lookup, insert, Result, ok, err,
}
use ai_team_os.Patch.Defs.{PatchError, write_failed, apply_diff_to_file}
use ai_team_os.Patch.Paths.{Worktree, validate_rel_path}

-- The text at each path that has a file.
abbrev pub Files : Type 0
Files = Text → Option Text

abbrev pub set_file : Text → Option Text → Files → Files
set_file path content files p = if text_eq path p then content else files p

-- A line of backup-manifest.jsonl; `created` holds for a file that was not there before.
pub record ManifestEntry : Type 0 where
  pub approval_id : String
  pub target : Text
  pub backup : String
  pub created : Bool

-- The disk, the entries that one call of `apply` has added, and its list `backup_files`.
pub record Workspace : Type 0 where
  pub files : Files
  pub backups : Dict Text
  pub entries : List ManifestEntry
  pub backup_files : List (Text × String)

-- What `apply` reads of its surroundings.
pub record Surroundings : Type 0 where
  pub worktree : Worktree
  pub cannot_write : Text → Bool
  pub cannot_replace : Text → Bool

abbrev pub text_of : Option Text → Text
text_of none = []
text_of (some t) = t

abbrev pub entry_of : String → Text → String → Option Text → ManifestEntry
entry_of approval_id rel name none = record {
  approval_id = approval_id;
  target = rel;
  backup = "";
  created = true;
}
entry_of approval_id rel name (some content) = record {
  approval_id = approval_id;
  target = rel;
  backup = name;
  created = false;
}

-- The backup of a file that is there, and the entry in the manifest.
abbrev pub backed_up : String → Text → String → Text → Option Text → Workspace → Workspace
backed_up approval_id rel name target none ws = record ws {
  entries = ws.entries ++ entry_of approval_id rel name none ∷ [];
}
backed_up approval_id rel name target (some content) ws = record ws {
  backups = insert name content ws.backups;
  entries = ws.entries ++ entry_of approval_id rel name (some content) ∷ [];
  backup_files = ws.backup_files ++ (target, name) ∷ [];
}

abbrev pub Outcome : Type 0
Outcome = Workspace × Option PatchError

-- target.with_suffix(target.suffix + ".tmp")
abbrev pub temporary : Text → Text
temporary target = target ++ codes ".tmp"

-- The files when the temporary file is written, whatever was there, and when it was renamed.
abbrev pub with_temporary : Text → Text → Files → Files
with_temporary target new_text = set_file (temporary target) (some new_text)

abbrev pub renamed : Text → Text → Files → Files
renamed target new_text files =
    set_file target (some new_text) (set_file (temporary target) none files)

-- The replacement of the file by its new text.
abbrev pub replace : Surroundings → Text → Text → Workspace → Outcome
replace w target new_text ws =
    if w.cannot_write (temporary target)
    then (ws, some write_failed)
    else if w.cannot_replace target
    then (record ws { files = with_temporary target new_text ws.files }, some write_failed)
    else (record ws { files = renamed target new_text ws.files }, none)

abbrev pub apply_text :
    Surroundings → String → Text → String → Text → Result PatchError Text → Workspace → Outcome
apply_text w approval_id rel name target (err e) ws = (ws, some e)
apply_text w approval_id rel name target (ok new_text) ws =
    replace w target new_text (backed_up approval_id rel name target (ws.files target) ws)

abbrev pub apply_target :
    Surroundings → Text → String → Text → String → Result PatchError Text → Workspace → Outcome
apply_target w diff approval_id rel name (err e) ws = (ws, some e)
apply_target w diff approval_id rel name (ok target) ws =
    apply_text w approval_id rel name target
      (apply_diff_to_file diff rel (text_of (ws.files target))) ws

-- One file of the proposal.
unfoldable pub apply_file : Surroundings → Text → String → Text → String → Workspace → Outcome
apply_file w diff approval_id rel name ws =
    apply_target w diff approval_id rel name (validate_rel_path w.worktree rel) ws

-- What goes on after a step that did not fail.
abbrev pub and_then : Outcome → (Workspace → Outcome) → Outcome
and_then (ws, none) k = k ws
and_then (ws, some e) k = (ws, some e)

-- The files of the proposal, each with the name for its backup.
unfoldable pub apply_files :
    Surroundings → Text → String → List (Text × String) → Workspace → Outcome
apply_files w diff approval_id [] ws = (ws, none)
apply_files w diff approval_id ((rel, name) ∷ targets) ws =
    and_then (apply_file w diff approval_id rel name ws)
      (λ ws'. apply_files w diff approval_id targets ws')

abbrev pub copy_backup : Text → Option Text → Files → Files
copy_backup target none files = files
copy_backup target (some content) files = set_file target (some content) files

-- `for target, backup in backup_files: shutil.copy2(backup, target)`
unfoldable pub restore : Dict Text → List (Text × String) → Files → Files
restore backups [] files = files
restore backups ((target, name) ∷ rest) files =
    restore backups rest (copy_backup target (lookup name backups) files)

-- Before the first file.
abbrev pub start : Files → Dict Text → Workspace
start files backups = record { files = files; backups = backups; entries = []; backup_files = [] }

abbrev pub rolled_back : Outcome → Outcome
rolled_back (ws, none) = (ws, none)
rolled_back (ws, some e) =
    (record ws { files = restore ws.backups ws.backup_files ws.files }, some e)

-- The files, the backups and the lines for the manifest, and the error if a file failed.
unfoldable pub apply :
    Surroundings → Text → String → List (Text × String) → Files → Dict Text → Outcome
unfolding apply_files restore
apply w diff approval_id targets files backups =
    rolled_back (apply_files w diff approval_id targets (start files backups))
