-- ===== src/Patch/Rollback.antt =====
-- The rollback of a patch takes back what its application did.
use ai_team_os.Prelude.{
  if◌then◌else◌, ◌≤◌, ◌+◌, length, String, Text, ◌≡◌, Option, none, List, [], ◌∷◌, ◌++◌, Dict,
}
use ai_team_os.Patch.Paths.{Worktree}
use ai_team_os.Patch.Store.{Files, set_file, ManifestEntry}
use ai_team_os.Patch.Undo.{Rollback, RollbackError, created_note}

-- What the loop of the rollback leaves, from entries that remember.
record RolledBack (f0 : Files) (p : Text) (r : Rollback) (es : List ManifestEntry)
    (o : Rollback × Option RollbackError) : Type 0 where
  back : o.0.files p ≡ f0 p
  no_error : o.1 ≡ none
  none_missing : o.0.missing ≡ r.missing
  reported : length r.restored + length es ≤ length o.0.restored

module _ (w : Worktree) (id : String) (f0 : Files) (backups : Dict Text) (p : Text) where
  taken_back : ManifestEntry → Text → Rollback → Rollback
  taken_back e t r = record r {
    files = set_file t (f0 t) r.files;
    restored =
        r.restored ++ (if e.created then e.target ++ created_note (r.files t) else e.target) ∷ [];
  }
