-- ===== src/Patch/Tests.antt =====
-- Small patches, and the theorems at them.
use ai_team_os.Prelude.{
  ap, Result, text_eq_iff, ◌++◌, String, Text, codes, text_eq, eq_iff, ◌≡◌, ◌≢◌, refl, sym, ◌∙◌,
  ◌⊎◌, true, false, none, some, List, [], ◌∷◌, map, if◌then◌else◌, All, lookup, insert, ok, err,
  length, starts_with, strip, lower, contains_any,
}
use ai_team_os.Patch.Lines.{
  HunkHeader, chomp, split_lines, split_lines_keepends, join, parse_header,
}
use ai_team_os.Patch.Defs.{
  DiffLine, context, added, removed, no_parts, line_count_mismatch, deletion_mismatch, count_lines,
  apply_lines, apply_at, apply_hunk, apply_diff_to_file,
}
use ai_team_os.Patch.Sides.{Fits}
use ai_team_os.Patch.Hunks.{Replaced, apply_at-ok_iff}
use ai_team_os.Patch.Reverse.{reverse_header, reverse_line, apply_at-reverse}
use ai_team_os.Patch.Paths.{has_drive, Worktree, path_parts, check_last, validate_rel_path}
use ai_team_os.Patch.Safe.{IsPlain, validate_rel_path-IsPlain}
use ai_team_os.Patch.Store.{
  set_file, temporary, ManifestEntry, entry_of, Files, Surroundings, text_of, apply, apply_file,
  Workspace,
}
use ai_team_os.Patch.Undo.{RollbackError, rollback_entry, rollback_patch}
use ai_team_os.JsonLines.{Json, log_text}
use ai_team_os.Approval.Defs.{ApprovalService, approved}
use ai_team_os.Patch.Untouched.{AreDistinct, IsNoTemporary}
use ai_team_os.Patch.Atomic.{failed_apply_restores}
use ai_team_os.Patch.Validator.{
  Checker, validate, check_base, check_name, count_changed, max_patch_files, max_patch_lines,
  max_file_size,
}
use ai_team_os.Patch.Validated.{validate-apply}

abbrev slashed : List Text → Text
slashed [] = []
slashed (p ∷ ps) = codes "/" ++ (p ++ slashed ps)

abbrev tree : Worktree
tree = record {
  root = codes "/w";
  separator = codes "/";
  resolve = λ parts. codes "/w" ++ slashed parts;
}

abbrev disk : Surroundings
disk = record { worktree = tree; cannot_write = λ t. false; cannot_replace = λ t. false }

-- Two files with one line each.
abbrev two_files : Files
two_files p =
    if text_eq p (codes "/w/a")
    then some (codes "one\n")
    else if text_eq p (codes "/w/b")
    then some (codes "two\n")
    else none

abbrev one_to_new : Text
one_to_new = codes "--- a/a\n+++ b/a\n@@ -1 +1 @@\n-one\n+new\n"

abbrev first_line : HunkHeader
first_line = record { old_start = 1; old_count = 2; new_start = 1; new_count = 2 }

abbrev change : List DiffLine
change = removed (codes "one") ∷ added (codes "new") ∷ context (codes "two") ∷ []

abbrev old_lines : List Text
old_lines = codes "one\n" ∷ codes "two\n" ∷ codes "three" ∷ []

abbrev new_lines : List Text
new_lines = codes "new\n" ∷ codes "two\n" ∷ codes "three" ∷ []

change_applies : apply_at first_line old_lines change ≡ ok new_lines
unfolding apply_at apply_lines count_lines chomp
change_applies = refl

apply_at-ok_iff_example :
    ((new : List Text)
      → apply_at first_line old_lines change ≡ ok new
      → Replaced first_line change old_lines new)
    × (Fits first_line change old_lines
        → (new : List Text) × (apply_at first_line old_lines change ≡ ok new)
          × Replaced first_line change old_lines new)
apply_at-ok_iff_example = apply_at-ok_iff first_line old_lines change

apply_at-reverse_example :
    (back : List Text) × (apply_at (reverse_header first_line) new_lines (map reverse_line change)
      ≡ ok back)
    × (map chomp back ≡ map chomp old_lines)
apply_at-reverse_example =
    apply_at-reverse first_line old_lines new_lines change refl change_applies

-- A hunk without old lines is put in before the line that it has to follow.
inserted_early :
    apply_diff_to_file (codes "@@ -1,0 +2 @@\n+new\n") (codes "a") (codes "one\ntwo\n")
    ≡ ok (codes "new\none\ntwo\n")
unfolding apply_diff_to_file apply_hunk apply_at apply_lines count_lines chomp split_lines
    split_lines_keepends join parse_header
inserted_early = refl

path_a : validate_rel_path tree (codes "a") ≡ ok (codes "/w/a")
unfolding validate_rel_path path_parts check_last strip
path_a = refl

path_b : validate_rel_path tree (codes "b") ≡ ok (codes "/w/b")
unfolding validate_rel_path path_parts check_last strip
path_b = refl

at_a : (t : Text) → validate_rel_path tree (codes "a") ≡ ok t → codes "/w/a" ≡ t
at_a t a = cc (path_a, a)

at_b : (t : Text) → validate_rel_path tree (codes "b") ≡ ok t → codes "/w/b" ≡ t
at_b t b = cc (path_b, b)

abbrev both : List (Text × String)
both = (codes "a", "backup1") ∷ (codes "b", "backup2") ∷ []

both-AreDistinct : AreDistinct disk both
both-AreDistinct = (
  (
    (
      (λ e. cc ((eq_iff "backup1" "backup2").1 e)),
      λ t a. (
        λ b. cc ((text_eq_iff (codes "/w/a") (codes "/w/b")).1 (at_a t a ∙ sym (at_b t b))),
        λ b. cc (
            (text_eq_iff (codes "/w/a.tmp") (codes "/w/b")).1
              (ap (λ x. temporary x) (at_a t a) ∙ sym (at_b (temporary t) b))),
      ),
    ),
    tt,
  ),
  (tt, tt),
)

not_a_temporary : IsNoTemporary disk (codes "/w/a") both
not_a_temporary = (
  λ t a e.
      cc ((text_eq_iff (codes "/w/a.tmp") (codes "/w/a")).1 (ap (λ x. temporary x) (at_a t a) ∙ e)),
  (
    λ t b e.
        cc (
          (text_eq_iff (codes "/w/b.tmp") (codes "/w/a")).1 (ap (λ x. temporary x) (at_b t b) ∙ e)),
    tt,
  ),
)

-- The diff fits the first file only.
second_fails : (apply disk one_to_new "ap" both two_files []).1 ≡ some (deletion_mismatch 1)
unfolding apply validate_rel_path path_parts check_last strip apply_diff_to_file apply_hunk apply_at
    apply_lines count_lines chomp split_lines split_lines_keepends join parse_header lookup insert
    apply_file
second_fails = refl

failed_apply_restores_example :
    (apply disk one_to_new "ap" both two_files []).0.files (codes "/w/a") ≡ some (codes "one\n")
unfolding lookup
failed_apply_restores_example =
    failed_apply_restores disk one_to_new "ap" both two_files [] (deletion_mismatch 1)
      both-AreDistinct (refl, (refl, tt)) second_fails (codes "/w/a") (λ e. cc e) not_a_temporary

-- A file at the path of the temporary file is lost, with the rollback of the patch or without it.
temporary_lost :
    (apply disk one_to_new "ap" both
        (set_file (codes "/w/a.tmp") (some (codes "mine\n")) two_files)
        []).0.files
      (codes "/w/a.tmp")
    ≡ none
unfolding apply validate_rel_path path_parts check_last strip apply_diff_to_file apply_hunk apply_at
    apply_lines count_lines chomp split_lines split_lines_keepends join parse_header lookup insert
    apply_file
temporary_lost = refl

-- A diff that creates a file.
abbrev adds : Text
adds = codes "--- /dev/null\n+++ b/c\n@@ -0,0 +1 @@\n+new\n"

-- A file that a failed patch has created is not removed.
created_stays :
    (apply disk adds "ap" ((codes "c", "b1") ∷ (codes "..", "b2") ∷ []) two_files []).0.files
      (codes "/w/c")
    ≡ some (codes "new\n")
unfolding apply validate_rel_path path_parts check_last strip apply_diff_to_file apply_hunk apply_at
    apply_lines count_lines chomp split_lines split_lines_keepends join parse_header lookup insert
    apply_file
created_stays = refl

-- The diff of one file is applied to every target.
name_ignored : apply_diff_to_file one_to_new (codes "other") (codes "one\n") ≡ ok (codes "new\n")
unfolding apply_diff_to_file apply_hunk apply_at apply_lines count_lines chomp split_lines
    split_lines_keepends join parse_header
name_ignored = refl

-- The removal of a line that starts with "-- " is taken for the header of a file.
comment_refused :
    apply_diff_to_file (codes "@@ -1 +0,0 @@\n--- note\n") (codes "a") (codes "-- note\n")
    ≡ err line_count_mismatch
unfolding apply_diff_to_file apply_hunk apply_at apply_lines count_lines chomp split_lines
    split_lines_keepends join parse_header
comment_refused = refl

-- A path that names the worktree has no last part.
dot_fails : validate_rel_path tree (codes ".") ≡ err no_parts
unfolding validate_rel_path path_parts check_last strip
dot_fails = refl

abbrev only_a : List (Text × String)
only_a = (codes "a", "backup1") ∷ []

abbrev after_a : Workspace
after_a = (apply disk one_to_new "ap" only_a two_files []).0

-- JSON for the entry of this patch.
abbrev entry_a : ManifestEntry
entry_a = record { approval_id = "ap"; target = codes "a"; backup = "backup1"; created = false }

abbrev json : Json ManifestEntry
json = record { dumps = λ e. codes "{}"; loads = λ t. some entry_a }

-- A rollback that was approved.
abbrev service : ApprovalService
service = record {
  ttl_seconds = 600;
  requests =
      (
        "r1",
        record {
          approval_id = "r1";
          task_id = "t";
          run_id = none;
          subtask_id = none;
          action_type = "rollback";
          tool_name = "";
          risk_level = "safe";
          approval_level = "explicit";
          summary = "";
          target_paths = [];
          command_argv = [];
          diff_ref = none;
          estimated_file_changes = 1;
          estimated_runtime = 0;
          requested_at = 0;
          status = approved;
          operation_hash = "o";
          parameter_hash = "p";
          target_hash = "";
          expires_at = none;
          decided_at = none;
          decision_reason = none;
        },
      )
      ∷ [];
  persistent = false;
  log = [];
}

abbrev undone : ApprovalService × Files × Result RollbackError (List Text)
undone =
    rollback_patch 5 json tree after_a.backups (some (log_text json ([] ++ after_a.entries))) "r1"
      "ap" service after_a.files

-- With the same file twice among the targets, the rollback ends at the first of the two patches.
abbrev twice : List (Text × String)
twice = (codes "c", "b1") ∷ (codes "./c", "b2") ∷ []

abbrev after_twice : Workspace
after_twice = (apply disk adds "ap" twice two_files []).0

twice_rolled_back :
    (rollback_entry tree after_twice.backups "ap"
        (entry_of "ap" (codes "./c") "b2" (some (codes "new\n")))
        (rollback_entry tree after_twice.backups "ap"
          (entry_of "ap" (codes "c") "b1" none)
          (record { files = after_twice.files; restored = []; missing = [] })).0).0.files
      (codes "/w/c")
    ≡ some (codes "new\n")
unfolding apply rollback_entry validate_rel_path path_parts check_last strip apply_diff_to_file
    apply_hunk apply_at apply_lines count_lines chomp split_lines split_lines_keepends join
    parse_header lookup insert apply_file
twice_rolled_back = refl

validate_rel_path-IsPlain_example :
    All IsPlain (path_parts (codes "a"))
    × (path_parts (codes "a") ≢ [])
    × (starts_with (codes "a") (codes "/") ≡ false)
    × (has_drive (codes "a") ≡ false)
    × ((codes "/w/a" ≡ codes "/w") ⊎ (starts_with (codes "/w/a") (codes "/w/") ≡ true))
validate_rel_path-IsPlain_example = validate_rel_path-IsPlain tree (codes "a") (codes "/w/a") path_a

abbrev checker : Checker
checker = record {
  worktree = tree;
  max_files = max_patch_files;
  max_lines = max_patch_lines;
  max_file_bytes = max_file_size;
  hash_of = λ t. "hash";
  byte_length = length;
  has_zero_byte = λ t. false;
  suffix_of = λ p. [];
}

a_validated :
    validate checker two_files
      (record { target_files = codes "a" ∷ []; unified_diff = one_to_new })
      ((codes "a", "hash") ∷ [])
    ≡ ok tt
unfolding validate validate_rel_path path_parts check_last strip apply_diff_to_file apply_hunk
    apply_at apply_lines count_lines chomp split_lines split_lines_keepends join parse_header lookup
    insert check_base check_name contains_any lower count_changed
a_validated = refl

validate-apply_example :
    (target new_text : Text) × (validate_rel_path tree (codes "a") ≡ ok target)
    × (apply_diff_to_file one_to_new (codes "a") (text_of (two_files target)) ≡ ok new_text)
    × ((apply disk one_to_new "ap" only_a two_files []).1 ≡ none)
    × ((apply disk one_to_new "ap" only_a two_files []).0.files target ≡ some new_text)
    × ((apply disk one_to_new "ap" only_a two_files []).0.files (temporary target) ≡ none)
    × ((q : Text)
        → target ≢ q
        → temporary target ≢ q
        → (apply disk one_to_new "ap" only_a two_files []).0.files q ≡ two_files q)
validate-apply_example =
    validate-apply checker disk one_to_new (codes "a") ((codes "a", "hash") ∷ []) two_files [] "ap"
      "backup1" refl (λ t. refl) (λ t. refl) a_validated
