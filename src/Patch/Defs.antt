-- ===== src/Patch/Defs.antt =====
-- Hunks and diffs of app/core/patch_engine.py: `PatchApplier._apply_hunk` and
-- `PatchApplier._apply_diff_to_file`.
use ai_team_os.Prelude.{
  ℕ, suc, ◌+◌, ◌-◌, Text, codes, text_eq, Bool, true, false, not, ◌||◌, none, some, List, [], ◌∷◌,
  ◌++◌, map, if◌then◌else◌, ltb, ◌==◌, is_nil, length, take, drop, starts_with, Result, ok, err,
  refuse, ◌>>=◌, ◌>>◌,
}
use ai_team_os.Patch.Lines.{
  split_lines, split_lines_keepends, join, chomp, ends_with_lf, HunkHeader, parse_header,
}

pub data PatchError : Type 0 where
  -- of a path; `no_parts` is the `IndexError` of a path without parts
  empty_path absolute_path path_traversal alternate_data_stream path_escapes no_parts : PatchError
  -- of a hunk
  invalid_hunk_header line_count_mismatch start_out_of_range range_beyond_end : PatchError
  context_beyond_end deletion_beyond_end unexpected_diff_line : PatchError
  context_mismatch deletion_mismatch : ℕ → PatchError
  -- of a proposal
  empty_diff no_hunk base_file_missing base_hash_mismatch banned_path sensitive_file : PatchError
  file_too_large binary_file too_many_changed_lines too_many_files : PatchError
  -- the file cannot be replaced
  write_failed : PatchError

-- A line of a hunk by its first character.
pub data DiffLine : Type 0 where
  context added removed : Text → DiffLine
  unexpected : DiffLine

abbrev pub diff_line : Text → DiffLine
diff_line [] = unexpected
diff_line (c ∷ s) =
    if c == 32
    then context s
    else if c == 43
    then added s
    else if c == 45
    then removed s
    else unexpected

-- The lines that start with " " or "-", and those that start with " " or "+".
abbrev pub on_old_side : DiffLine → Bool
on_old_side (context s) = true
on_old_side (removed s) = true
on_old_side _ = false

abbrev pub on_new_side : DiffLine → Bool
on_new_side (context s) = true
on_new_side (added s) = true
on_new_side _ = false

unfoldable pub count_lines : (DiffLine → Bool) → List DiffLine → ℕ
count_lines p [] = 0
count_lines p (l ∷ ls) = let rest = count_lines p ls in if p l then suc rest else rest

abbrev pub with_lf : Text → Text
with_lf s = if ends_with_lf s then s else s ++ 10 ∷ []

abbrev pub push_line : Text → Result PatchError (List Text) → Result PatchError (List Text)
push_line l r = r >>= λ ls. ok (l ∷ ls)

abbrev pub same_line : Text → Text → Bool
same_line actual expected = text_eq (chomp actual) (chomp expected)

-- The loop over the lines of a hunk, from `old_lines[idx:]`: the lines that it appends, and those
-- of the file that are left.
unfoldable pub apply_lines : ℕ → List Text → List DiffLine → Result PatchError (List Text)
apply_lines idx old [] = ok old
apply_lines idx old (unexpected ∷ body) = err unexpected_diff_line
apply_lines idx old (added s ∷ body) = push_line (with_lf s) (apply_lines idx old body)
apply_lines idx [] (context s ∷ body) = err context_beyond_end
apply_lines idx (actual ∷ old) (context s ∷ body) =
    let rest = apply_lines (idx + 1) old body in
    if same_line actual s then push_line actual rest else err (context_mismatch (idx + 1))
apply_lines idx [] (removed s ∷ body) = err deletion_beyond_end
apply_lines idx (actual ∷ old) (removed s ∷ body) =
    let rest = apply_lines (idx + 1) old body in
    if same_line actual s then rest else err (deletion_mismatch (idx + 1))

-- The checks of the header against the hunk and the file.
unfoldable pub check_header : HunkHeader → List Text → List DiffLine → Result PatchError (Unit {0})
check_header h old body =
    let idx = h.old_start - 1 in
    do
      refuse
          (not (count_lines on_old_side body == h.old_count)
            || not (count_lines on_new_side body == h.new_count))
          line_count_mismatch
      refuse (ltb (length old) idx) start_out_of_range
      refuse (ltb (length old) (idx + h.old_count)) range_beyond_end

-- The lines before the hunk, then the loop.
unfoldable pub replace_lines : ℕ → List Text → List DiffLine → Result PatchError (List Text)
replace_lines idx old body =
    apply_lines idx (drop idx old) body >>= λ rest. ok (take idx old ++ rest)

unfoldable pub apply_at : HunkHeader → List Text → List DiffLine → Result PatchError (List Text)
unfolding check_header replace_lines
apply_at h old body = check_header h old body >> replace_lines (h.old_start - 1) old body

-- A hunk is its header line and its other lines.
pub record Hunk : Type 0 where
  pub header : Text
  pub body : List Text

unfoldable pub apply_hunk : List Text → Hunk → Result PatchError (List Text)
unfolding apply_at
apply_hunk old hunk = elim (parse_header hunk.header) [
  | none ↦ err invalid_hunk_header
  | some h ↦ apply_at h old (map diff_line hunk.body)
]

-- A line that is passed over as the header of a file.
abbrev pub is_file_header : Text → Bool
is_file_header l = starts_with l (codes "--- ") || starts_with l (codes "+++ ")

abbrev pub is_hunk_header : Text → Bool
is_hunk_header l = starts_with l (codes "@@")

-- The lines up to the next hunk, and the hunks from there.
unfoldable pub split_hunks : List Text → List Text × List Hunk
split_hunks [] = ([], [])
split_hunks (l ∷ ls) =
    let rest = split_hunks ls in
    if is_file_header l
    then rest
    else if is_hunk_header l
    then ([], record { header = l; body = rest.0 } ∷ rest.1)
    else (l ∷ rest.0, rest.1)

unfoldable pub apply_hunks : List Text → List Hunk → Result PatchError (List Text)
apply_hunks old [] = ok old
apply_hunks old (h ∷ hs) = apply_hunk old h >>= λ new. apply_hunks new hs

-- The name of the file is not read.
unfoldable pub apply_diff_to_file : Text → Text → Text → Result PatchError Text
unfolding split_hunks apply_hunks
apply_diff_to_file diff rel old_text =
    let hunks = (split_hunks (split_lines diff)).1 in
    if is_nil hunks
    then ok old_text
    else apply_hunks (split_lines_keepends old_text) hunks >>= λ ls. ok (join ls)
