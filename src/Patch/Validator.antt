-- ===== src/Patch/Validator.antt =====
-- `PatchValidator.validate` of app/core/patch_engine.py, over the store of files. The hash and the
-- length in bytes of a text, the test for a zero byte in the first 4096, and pathlib's `suffix` are
-- parameters.
use ai_team_os.Prelude.{
  ℕ, suc, ◌*◌, String, Text, codes, lower, strip, contains_any, starts_with, text_eq, Bool, not,
  ◌&&◌, ◌||◌, Option, none, some, List, [], ◌∷◌, if◌then◌else◌, ltb, is_nil, any, length, Result,
  ok, err, refuse, require, for_each, ◌>>=◌, ◌>>◌, str_eq,
}
use ai_team_os.Patch.Lines.{split_lines}
use ai_team_os.Patch.Defs.{
  PatchError, empty_diff, no_hunk, base_file_missing, base_hash_mismatch, banned_path,
  sensitive_file, file_too_large, binary_file, too_many_changed_lines, too_many_files,
  is_hunk_header, apply_diff_to_file,
}
use ai_team_os.Patch.Paths.{Worktree, validate_rel_path}
use ai_team_os.Patch.Store.{Files, text_of}

-- What the validator reads of its surroundings.
pub record Checker : Type 0 where
  pub worktree : Worktree
  pub max_files : ℕ
  pub max_lines : ℕ
  pub max_file_bytes : ℕ
  pub hash_of : Text → String
  pub byte_length : Text → ℕ
  pub has_zero_byte : Text → Bool
  pub suffix_of : Text → Text

pub record PatchProposal : Type 0 where
  pub target_files : List Text
  pub unified_diff : Text

abbrev pub max_patch_files : ℕ
max_patch_files = 50

abbrev pub max_patch_lines : ℕ
max_patch_lines = 5000

abbrev pub max_file_size : ℕ
max_file_size = 2 * 1024 * 1024

abbrev pub banned_patch_paths : List String
banned_patch_paths = ".env" ∷ ".ssh" ∷ ".git" ∷ "id_rsa" ∷ []

abbrev pub sensitive_suffixes : List String
sensitive_suffixes = ".pem" ∷ ".key" ∷ ".p12" ∷ ".p8" ∷ ".pfx" ∷ ".ppk" ∷ []

-- Every target in the worktree, or the first error.
unfoldable pub resolve_targets : Worktree → List Text → Result PatchError (List Text)
resolve_targets w [] = ok []
resolve_targets w (rel ∷ rels) =
    let rest = resolve_targets w rels in do t ← validate_rel_path w rel; ts ← rest; ok (t ∷ ts)

abbrev pub check_base_file : Checker → String → Option Text → Result PatchError (Unit {0})
check_base_file c expected none = err base_file_missing
check_base_file c expected (some text) =
    require (str_eq (c.hash_of text) expected) base_hash_mismatch

-- One entry of `base_hashes`.
unfoldable pub check_base : Checker → Files → Text × String → Result PatchError (Unit {0})
check_base c files (rel, expected) =
    validate_rel_path c.worktree rel >>= λ t. check_base_file c expected (files t)

abbrev pub is_suffix_in : Text → List String → Bool
is_suffix_in s = any (λ x. text_eq s (codes x))

-- Forbidden paths and files of secrets.
unfoldable pub check_name : Checker → Text → Result PatchError (Unit {0})
check_name c rel = do
  refuse (contains_any banned_patch_paths (lower rel)) banned_path
  refuse (is_suffix_in (lower (c.suffix_of rel)) sensitive_suffixes) sensitive_file

abbrev pub check_size : Checker → Option Text → Result PatchError (Unit {0})
check_size c none = ok tt
check_size c (some text) = refuse (ltb c.max_file_bytes (c.byte_length text)) file_too_large

abbrev pub check_binary : Checker → Option Text → Result PatchError (Unit {0})
check_binary c none = ok tt
check_binary c (some text) = refuse (c.has_zero_byte text) binary_file

-- A line that starts with "+" or "-", and not with "+++" or "---".
abbrev pub is_changed : Text → Bool
is_changed l =
    (starts_with l (codes "+") || starts_with l (codes "-"))
    && not (starts_with l (codes "+++") || starts_with l (codes "---"))

unfoldable pub count_changed : List Text → ℕ
count_changed [] = 0
count_changed (l ∷ ls) = let rest = count_changed ls in if is_changed l then suc rest else rest

-- With one target the diff is applied to its text, and nothing is written.
unfoldable pub preflight : Files → Text → List Text → List Text → Result PatchError (Unit {0})
preflight files diff (rel ∷ rels) (target ∷ []) =
    apply_diff_to_file diff rel (text_of (files target)) >>= λ t. ok tt
preflight files diff rels targets = ok tt

-- The checks that look at the targets, in their order.
unfoldable pub check_targets :
    Checker
    → Files
    → PatchProposal
    → List (Text × String)
    → List Text
    → Result PatchError (Unit {0})
unfolding preflight
check_targets c files p base_hashes targets = do
  for_each (check_base c files) base_hashes
  for_each (check_name c) p.target_files
  for_each (λ t. check_size c (files t)) targets
  for_each (λ t. check_binary c (files t)) targets
  refuse (ltb c.max_lines (count_changed (split_lines p.unified_diff))) too_many_changed_lines
  preflight files p.unified_diff p.target_files targets
  refuse (ltb c.max_files (length p.target_files)) too_many_files

unfoldable pub validate :
    Checker → Files → PatchProposal → List (Text × String) → Result PatchError (Unit {0})
unfolding resolve_targets check_targets
validate c files p base_hashes = do
  refuse (is_nil (strip p.unified_diff)) empty_diff
  require (any is_hunk_header (split_lines p.unified_diff)) no_hunk
  targets ← resolve_targets c.worktree p.target_files
  check_targets c files p base_hashes targets
