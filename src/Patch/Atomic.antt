-- ===== src/Patch/Atomic.antt =====
-- A patch that fails on one of its files leaves the text of every file that was there.
use ai_team_os.Prelude.{
  text_eq_iff, String, Text, text_eq, ◌≡◌, ◌≢◌, refl, sym, ◌∙◌, subst, ◌⊎◌, inl, inr, Bool, true,
  Option, none, some, List, [], ◌∷◌, eq_iff, any, All, Dict, lookup, insert, lookup-insert, Result,
  ok, err, arith, Bool-cases,
}
use ai_team_os.Patch.Defs.{PatchError, apply_diff_to_file}
use ai_team_os.Patch.Paths.{validate_rel_path}
use ai_team_os.Patch.Store.{
  Files, set_file, Workspace, Surroundings, text_of, backed_up, Outcome, temporary, replace,
  apply_text, apply_target, apply_file, apply_files, restore, start, rolled_back, apply,
}
use ai_team_os.Patch.Untouched.{
  AreDistinct, IsNoTemporary, any-snoc, All-snoc, replace_lem, with_temporary-other, renamed-other,
  and_then_lem, AreUntouched, untouched_stay, at_start,
}

abbrev is_backed : Text → List (Text × String) → Bool
is_backed p = any (λ saved. text_eq saved.0 p)

-- The backup of a file has the text that it had at first.
abbrev HasCopy : Files → Dict Text → Text × String → Type 0
HasCopy f0 backups (target, name) =
    (c : Text) × (lookup name backups ≡ some c) × (f0 target ≡ some c)

-- The file at `p`, if it was there, is as it was, or has a backup.
record Saved (f0 : Files) (p : Text) (ws : Workspace) : Type 0 where
  saved : All (HasCopy f0 ws.backups) ws.backup_files
  kept : f0 p ≢ none → (ws.files p ≡ f0 p) ⊎ (is_backed p ws.backup_files ≡ true)

-- A new backup under a new name leaves the others.
copies_stay :
    (f0 : Files) (backups : Dict Text) (name : String) (c : Text) (xs : List (Text × String))
    → lookup name backups ≡ none
    → All (HasCopy f0 backups) xs
    → All (HasCopy f0 (insert name c backups)) xs
copies_stay f0 backups name c [] fresh a = tt
copies_stay f0 backups name c ((t, m) ∷ xs) fresh a =
    let (d, e, f) = a.0 in
    (
      (d, ground (arith, lookup-insert name m c backups, eq_iff name m, fresh, e), f),
      copies_stay f0 backups name c xs fresh a.1,
    )

module _ (f0 : Files) (p : Text) where
  backed_up-Saved :
      (id : String) (rel : Text) (name : String) (t : Text) (o : Option Text) (ws : Workspace)
      → Saved f0 p ws
      → lookup name ws.backups ≡ none
      → o ≡ f0 t
      → Saved f0 p (backed_up id rel name t o ws)
        × (f0 t ≢ none → is_backed t (backed_up id rel name t o ws).backup_files ≡ true)
  backed_up-Saved id rel name t none ws s fresh same =
      (record { saved = s.saved; kept = s.kept }, λ h. absurd (h (sym same)))
  backed_up-Saved id rel name t (some c) ws s fresh same = (
    record {
      saved =
          All-snoc _ ws.backup_files (t, name)
            (copies_stay f0 ws.backups name c ws.backup_files fresh s.saved)
            (c, ground (arith, lookup-insert name name c ws.backups, eq_iff name name), sym same);
      kept = λ h. elim (s.kept h) [
        | inl e ↦ inl e
        | inr b ↦ inr (ground (arith, any-snoc (λ x. text_eq x.0 p) ws.backup_files (t, name), b))
      ];
    },
    λ h. ground (arith, any-snoc (λ x. text_eq x.0 t) ws.backup_files (t, name), text_eq_iff t t),
  )

  -- The file is what it was, or it is the target, which has a backup.
  changed-Saved :
      (t : Text) (files : Files) (ws : Workspace)
      → Saved f0 p ws
      → (f0 t ≢ none → is_backed t ws.backup_files ≡ true)
      → (files p ≡ ws.files p) ⊎ (text_eq t p ≡ true)
      → Saved f0 p (record ws { files = files })
  changed-Saved t files ws s b (inl same) = record {
    saved = s.saved;
    kept = λ h. elim (s.kept h) [ inl k ↦ inl (same ∙ k) | inr k ↦ inr k ];
  }
  changed-Saved t files ws s b (inr same) =
      let q : t ≡ p = (text_eq_iff t p).0 same in
      record {
        saved = s.saved;
        kept = λ h. inr (
            subst (λ x. is_backed x ws.backup_files ≡ true) q
              (b (λ n. h (subst (λ x. f0 x ≡ none) q n))));
      }

  replace-Saved :
      (w : Surroundings) (t new_text : Text) (ws : Workspace)
      → Saved f0 p ws
      → (f0 t ≢ none → is_backed t ws.backup_files ≡ true)
      → temporary t ≢ p
      → Saved f0 p (replace w t new_text ws).0
  replace-Saved w t new_text ws s b no_temp =
      replace_lem (Saved f0 p) w t new_text ws s
        (changed-Saved t _ ws s b (inl (with_temporary-other t new_text ws.files p no_temp)))
        (changed-Saved t _ ws s b (elim (Bool-cases (text_eq t p)) [
          | inl same ↦ inr same
          | inr other ↦ inl (renamed-other t new_text ws.files p no_temp other)
        ]))

  apply_text-Saved :
      (w : Surroundings) (id : String) (rel : Text) (name : String) (t : Text)
      (new_text : Result PatchError Text) (ws : Workspace)
      → Saved f0 p ws
      → lookup name ws.backups ≡ none
      → ws.files t ≡ f0 t
      → temporary t ≢ p
      → Saved f0 p (apply_text w id rel name t new_text ws).0
  apply_text-Saved w id rel name t (err e) ws s fresh same no_temp = s
  apply_text-Saved w id rel name t (ok new_text) ws s fresh same no_temp =
      let (s', b) = backed_up-Saved id rel name t (ws.files t) ws s fresh same in
      replace-Saved w t new_text (backed_up id rel name t (ws.files t) ws) s' b no_temp

  apply_target-Saved :
      (w : Surroundings) (diff : Text) (id : String) (rel : Text) (name : String)
      (v : Result PatchError Text) (ws : Workspace)
      → Saved f0 p ws
      → lookup name ws.backups ≡ none
      → ((t : Text) → v ≡ ok t → ws.files t ≡ f0 t)
      → ((t : Text) → v ≡ ok t → temporary t ≢ p)
      → Saved f0 p (apply_target w diff id rel name v ws).0
  apply_target-Saved w diff id rel name (err e) ws s fresh same no_temp = s
  apply_target-Saved w diff id rel name (ok t) ws s fresh same no_temp =
      apply_text-Saved w id rel name t (apply_diff_to_file diff rel (text_of (ws.files t))) ws s
        fresh (same t refl) (no_temp t refl)

module _ (w : Surroundings) (diff : Text) (id : String) (f0 : Files) where
  apply_files-Saved :
      (p : Text) (targets : List (Text × String)) (ws : Workspace)
      → Saved f0 p ws
      → AreUntouched w f0 ws targets
      → AreDistinct w targets
      → IsNoTemporary w p targets
      → Saved f0 p (apply_files w diff id targets ws).0
  unfolding apply_files apply_file
  apply_files-Saved p [] ws s u d n = s
  apply_files-Saved p ((rel, name) ∷ targets) ws s u d n =
      let o = apply_file w diff id rel name ws in
      let s' =
        apply_target-Saved f0 p w diff id rel name (validate_rel_path w.worktree rel) ws s u.0.0
          u.0.1 n.0 in
      and_then_lem (Saved f0 p) o (λ ws'. apply_files w diff id targets ws') s'
        (apply_files-Saved p targets o.0 s'
          (untouched_stay w diff id f0 rel name ws targets u.1 d.0) d.1 n.1)

restore_lem :
    (f0 : Files) (backups : Dict Text) (saved : List (Text × String)) (files : Files) (p : Text)
    → All (HasCopy f0 backups) saved
    → (files p ≡ f0 p) ⊎ (is_backed p saved ≡ true)
    → restore backups saved files p ≡ f0 p
unfolding restore
restore_lem f0 backups [] files p a (inl e) = e
restore_lem f0 backups [] files p a (inr b) = absurd (cc b)
restore_lem f0 backups ((t, name) ∷ saved) files p a h =
    let (c, found, first) = a.0 in
    rw found (
      restore_lem f0 backups saved (set_file t (some c) files) p a.1
        (elim (Bool-cases (text_eq t p)) [
          | inl same ↦
              inl (rw same (subst (λ x. some c ≡ f0 x) ((text_eq_iff t p).0 same) (sym first)))
          | inr other ↦ elim h [ inl e ↦ inl (rw other e) | inr b ↦ inr (ground (arith, b, other)) ]
        ]))

-- When a file of the proposal cannot be patched or written, every file that was there before has
-- its text again but for those at the path of a target with ".tmp" after it, where the code writes its
-- temporary files. The names of the backups are new and differ, and no target is the same file as
-- another or the temporary file of one before it.
pub failed_apply_restores :
    (w : Surroundings) (diff : Text) (id : String) (targets : List (Text × String)) (files : Files)
    (backups : Dict Text) (e : PatchError)
    → AreDistinct w targets
    → All (λ x. lookup x.1 backups ≡ none) targets
    → (apply w diff id targets files backups).1 ≡ some e
    → (p : Text) → files p ≢ none
    → IsNoTemporary w p targets
    → (apply w diff id targets files backups).0.files p ≡ files p
unfolding apply
failed_apply_restores w diff id targets files backups e d fresh failed p there no_temp =
    let s =
      apply_files-Saved w diff id files p targets (start files backups)
        (record { saved = tt; kept = λ h. inl refl }) (at_start w files backups targets fresh) d
        no_temp in
    after_restore (apply_files w diff id targets (start files backups)) s failed
  where
    after_restore :
        (o : Outcome)
        → Saved files p o.0
        → (rolled_back o).1 ≡ some e
        → (rolled_back o).0.files p ≡ files p
    after_restore (ws, none) s h = absurd (cc h)
    after_restore (ws, some e') s h =
        restore_lem files ws.backups ws.backup_files ws.files p s.saved (s.kept there)
