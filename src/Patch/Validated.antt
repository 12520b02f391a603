-- ===== src/Patch/Validated.antt =====
-- What a validated patch promises.
use ai_team_os.Prelude.{
  text_eq, text_eq_iff, String, Text, ◌≡◌, ◌≢◌, refl, subst, ap, false, Option, none, some, List,
  [], ◌∷◌, Dict, ok, >>-eq-ok, bind-eq-ok, refuse, require, for_each, is_nil, any, ltb, strip,
  arith,
}
use ai_team_os.Patch.Defs.{
  apply_diff_to_file, empty_diff, no_hunk, is_hunk_header, too_many_changed_lines,
}
use ai_team_os.Patch.Lines.{split_lines}
use ai_team_os.Patch.Paths.{validate_rel_path}
use ai_team_os.Patch.Store.{
  Files, temporary, renamed, Surroundings, Workspace, text_of, start, apply_file, apply_files,
  apply, backed_up,
}
use ai_team_os.Patch.Validator.{
  Checker, PatchProposal, resolve_targets, preflight, check_targets, validate, check_base,
  check_name, check_size, check_binary, count_changed,
}

backed_up-files :
    (id : String) (rel : Text) (name : String) (t : Text) (o : Option Text) (ws : Workspace)
    → (backed_up id rel name t o ws).files ≡ ws.files
backed_up-files id rel name t none ws = refl
backed_up-files id rel name t (some c) ws = refl

module _ (w : Surroundings) (diff rel : Text) (id name : String) (files : Files)
    (backups : Dict Text) where
  -- One file whose path is accepted, that the diff fits, and that can be written.
  apply_one :
      (t new_text : Text)
      → validate_rel_path w.worktree rel ≡ ok t
      → apply_diff_to_file diff rel (text_of (files t)) ≡ ok new_text
      → w.cannot_write (temporary t) ≡ false
      → w.cannot_replace t ≡ false
      → ((apply w diff id ((rel, name) ∷ []) files backups).1 ≡ none)
        × ((apply w diff id ((rel, name) ∷ []) files backups).0.files ≡ renamed t new_text files)
  unfolding apply apply_files apply_file
  apply_one t new_text path fits writable movable =
      rw (path, fits, writable, movable)
        (
          refl,
          ap (renamed t new_text) (backed_up-files id rel name t (files t) (start files backups)),
        )

-- What the checks of a proposal with one target have found.
validated :
    (c : Checker) (diff rel : Text) (hashes : List (Text × String)) (files : Files)
    → validate c files (record { target_files = rel ∷ []; unified_diff = diff }) hashes ≡ ok tt
    → (t : Text) × (validate_rel_path c.worktree rel ≡ ok t)
      × (new_text : Text) × (apply_diff_to_file diff rel (text_of (files t)) ≡ ok new_text)
unfolding validate resolve_targets check_targets preflight
validated c diff rel hashes files h =
    let p : PatchProposal = record { target_files = rel ∷ []; unified_diff = diff } in
    let (a, h1) = >>-eq-ok (refuse (is_nil (strip diff)) empty_diff) _ h in
    let (b, h2) = >>-eq-ok (require (any is_hunk_header (split_lines diff)) no_hunk) _ h1 in
    let (ts, resolved, h2') =
      bind-eq-ok (resolve_targets c.worktree (rel ∷ [])) (check_targets c files p hashes) h2 in
    let (t, path, one) =
      bind-eq-ok (validate_rel_path c.worktree rel) (λ t. ok (t ∷ [])) resolved in
    let single : ts ≡ t ∷ [] = cc one in
    let h3 = subst (λ l. check_targets c files p hashes l ≡ ok tt) single h2' in
    let (bases, h4) = >>-eq-ok (for_each (check_base c files) hashes) _ h3 in
    let (names, h5) = >>-eq-ok (for_each (check_name c) (rel ∷ [])) _ h4 in
    let (sizes, h6) = >>-eq-ok (for_each (λ u. check_size c (files u)) (t ∷ [])) _ h5 in
    let (binary, h7) = >>-eq-ok (for_each (λ u. check_binary c (files u)) (t ∷ [])) _ h6 in
    let (lines, h8) =
      >>-eq-ok (refuse (ltb c.max_lines (count_changed (split_lines diff))) too_many_changed_lines)
        _ h7 in
    let (flight, h9) = >>-eq-ok (preflight files diff (rel ∷ []) (t ∷ [])) _ h8 in
    let (new_text, fits, done) =
      bind-eq-ok (apply_diff_to_file diff rel (text_of (files t))) (λ u. ok tt) flight in
    (t, path, new_text, fits)

not_temporary : (t : Text) → text_eq t (temporary t) ≡ false
not_temporary [] = refl
not_temporary (c ∷ t) = ground (arith, not_temporary t)

-- A proposal for one file that the validator has accepted is applied without an error to the files
-- that it has seen, when files can be written and replaced; and the file then has the text of the
-- diff's application, nothing is left at the path of the temporary file, its own with ".tmp" after
-- it, and no other file is touched.
pub validate-apply :
    (c : Checker) (w : Surroundings) (diff rel : Text) (hashes : List (Text × String))
    (files : Files) (backups : Dict Text) (id name : String)
    → c.worktree ≡ w.worktree
    → ((t : Text) → w.cannot_write t ≡ false)
    → ((t : Text) → w.cannot_replace t ≡ false)
    → validate c files (record { target_files = rel ∷ []; unified_diff = diff }) hashes ≡ ok tt
    → (target new_text : Text) × (validate_rel_path w.worktree rel ≡ ok target)
      × (apply_diff_to_file diff rel (text_of (files target)) ≡ ok new_text)
      × ((apply w diff id ((rel, name) ∷ []) files backups).1 ≡ none)
      × ((apply w diff id ((rel, name) ∷ []) files backups).0.files target ≡ some new_text)
      × ((apply w diff id ((rel, name) ∷ []) files backups).0.files (temporary target) ≡ none)
      × ((q : Text)
          → target ≢ q
          → temporary target ≢ q
          → (apply w diff id ((rel, name) ∷ []) files backups).0.files q ≡ files q)
validate-apply c w diff rel hashes files backups id name same writable movable h =
    let (t, path, new_text, fits) = validated c diff rel hashes files h in
    let path' = subst (λ tree. validate_rel_path tree rel ≡ ok t) same path in
    let (done, written) =
      apply_one w diff rel id name files backups t new_text path' fits (writable (temporary t))
        (movable t) in
    (
      t,
      new_text,
      path',
      fits,
      done,
      rw written (rw ((text_eq_iff t t).1 refl) refl),
      rw (written, not_temporary t) (rw ((text_eq_iff (temporary t) (temporary t)).1 refl) refl),
      λ q other no_temp.
          rw written (ground (arith, text_eq_iff t q, other, text_eq_iff (temporary t) q, no_temp)),
    )
