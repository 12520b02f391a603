-- ===== src/Patch/Entries.antt =====
-- The entries of the manifest that the application of a patch writes.
use ai_team_os.Prelude.{
  ◌≢◌, text_eq_iff, ◌+◌, length, length-append, String, Text, text_eq, ◌≡◌, refl, sym, ap, ◌∙◌,
  subst, ◌⊎◌, inl, inr, Bool, true, false, ◌||◌, Option, none, some, List, [], ◌∷◌, ◌++◌, eq_iff,
  any, All, Dict, lookup, insert, lookup-insert, Result, ok, err, arith, Bool-cases,
}
use ai_team_os.Patch.Defs.{PatchError, apply_diff_to_file}
use ai_team_os.Patch.Paths.{validate_rel_path, Worktree}
use ai_team_os.Patch.Store.{
  Files, Workspace, Surroundings, text_of, backed_up, Outcome, replace, apply_text, temporary,
  apply_target, apply_file, and_then, apply_files, ManifestEntry, entry_of, rolled_back,
}
use ai_team_os.Patch.Untouched.{
  IsNoTemporary, replace_lem, with_temporary-other, renamed-other, AreDistinct, any-snoc, All-snoc,
  AreUntouched, untouched_stay, and_then_lem,
}

abbrev pub is_target_of : Text → Result PatchError Text → Bool
is_target_of p (ok t) = text_eq t p
is_target_of p (err e) = false

abbrev pub names_target : Worktree → Text → ManifestEntry → Bool
names_target w p e = is_target_of p (validate_rel_path w e.target)

-- How the file at `t` was at first, by its entry.
abbrev pub Remembers : Files → Dict Text → ManifestEntry → Text → Type 0
Remembers f0 backups e t =
    ((e.created ≡ true) × (f0 t ≡ none))
    ⊎ ((e.created ≡ false) × ((c : Text) × (lookup e.backup backups ≡ some c) × (f0 t ≡ some c)))

abbrev pub IsEntry : Worktree → String → Files → Dict Text → ManifestEntry → Type 0
IsEntry w id f0 backups e =
    (e.approval_id ≡ id)
    × ((t : Text) × (validate_rel_path w e.target ≡ ok t) × Remembers f0 backups e t)

-- The file at `p` is as it was, or the manifest has an entry for it.
pub record Logged (w : Worktree) (id : String) (f0 : Files) (p : Text) (ws : Workspace)
    : Type 0 where
  pub logged : All (IsEntry w id f0 ws.backups) ws.entries
  pub tracked : (ws.files p ≡ f0 p) ⊎ (any (names_target w p) ws.entries ≡ true)

entries_stay :
    (w : Worktree) (id : String) (f0 : Files) (backups : Dict Text) (name : String) (c : Text)
    (es : List ManifestEntry)
    → lookup name backups ≡ none
    → All (IsEntry w id f0 backups) es
    → All (IsEntry w id f0 (insert name c backups)) es
entries_stay w id f0 backups name c [] fresh a = tt
entries_stay w id f0 backups name c (e ∷ es) fresh a =
    let (same, (t, target, memory)) = a.0 in
    (
      (
        same,
        (
          t,
          target,
          elim memory [
            | inl m ↦ inl m
            | inr (old, (d, found, first)) ↦ inr (
              old,
              (
                d,
                ground (
                  arith,
                  lookup-insert name e.backup c backups,
                  eq_iff name e.backup,
                  fresh,
                  found,
                ),
                first,
              ),
            )
          ],
        ),
      ),
      entries_stay w id f0 backups name c es fresh a.1,
    )

or_true : (a b : Bool) → b ≡ true → (a || b) ≡ true
or_true a b h = ground arith

named_last :
    (w : Worktree) (es : List ManifestEntry) (e : ManifestEntry) (t : Text)
    → validate_rel_path w e.target ≡ ok t
    → any (names_target w t) (es ++ e ∷ []) ≡ true
named_last w es e t h =
    any-snoc (names_target w t) es e
    ∙ or_true (any (names_target w t) es) (names_target w t e) (rw h ((text_eq_iff t t).1 refl))

module _ (w : Surroundings) (id : String) (f0 : Files) (p : Text) where
  backed_up-Logged :
      (rel : Text) (name : String) (t : Text) (o : Option Text) (ws : Workspace)
      → Logged w.worktree id f0 p ws
      → lookup name ws.backups ≡ none
      → validate_rel_path w.worktree rel ≡ ok t
      → o ≡ f0 t
      → Logged w.worktree id f0 p (backed_up id rel name t o ws)
        × (any (names_target w.worktree t) (backed_up id rel name t o ws).entries ≡ true)
  backed_up-Logged rel name t none ws s fresh target same = (
    record {
      logged =
          All-snoc _ ws.entries (entry_of id rel name none) s.logged
            (refl, (t, target, inl (refl, sym same)));
      tracked = elim s.tracked [
        | inl e ↦ inl e
        | inr b ↦ inr (
            ground (
              arith,
              any-snoc (names_target w.worktree p) ws.entries (entry_of id rel name none),
              b,
            ))
      ];
    },
    named_last w.worktree ws.entries (entry_of id rel name none) t target,
  )
  backed_up-Logged rel name t (some c) ws s fresh target same = (
    record {
      logged =
          All-snoc _ ws.entries (entry_of id rel name (some c))
            (entries_stay w.worktree id f0 ws.backups name c ws.entries fresh s.logged)
            (
              refl,
              (
                t,
                target,
                inr (
                  refl,
                  (
                    c,
                    ground (arith, lookup-insert name name c ws.backups, eq_iff name name),
                    sym same,
                  ),
                ),
              ),
            );
      tracked = elim s.tracked [
        | inl e ↦ inl e
        | inr b ↦ inr (
            ground (
              arith,
              any-snoc (names_target w.worktree p) ws.entries (entry_of id rel name (some c)),
              b,
            ))
      ];
    },
    named_last w.worktree ws.entries (entry_of id rel name (some c)) t target,
  )

  changed-Logged :
      (t : Text) (files : Files) (ws : Workspace)
      → Logged w.worktree id f0 p ws
      → any (names_target w.worktree t) ws.entries ≡ true
      → (files p ≡ ws.files p) ⊎ (text_eq t p ≡ true)
      → Logged w.worktree id f0 p (record ws { files = files })
  changed-Logged t files ws s b (inl same) = record {
    logged = s.logged;
    tracked = elim s.tracked [ inl k ↦ inl (same ∙ k) | inr k ↦ inr k ];
  }
  changed-Logged t files ws s b (inr same) = record {
    logged = s.logged;
    tracked = inr (
        subst (λ x. any (names_target w.worktree x) ws.entries ≡ true) ((text_eq_iff t p).0 same)
          b);
  }

  replace-Logged :
      (t new_text : Text) (ws : Workspace)
      → Logged w.worktree id f0 p ws
      → any (names_target w.worktree t) ws.entries ≡ true
      → temporary t ≢ p
      → Logged w.worktree id f0 p (replace w t new_text ws).0
  replace-Logged t new_text ws s b no_temp =
      replace_lem (Logged w.worktree id f0 p) w t new_text ws s
        (changed-Logged t _ ws s b (inl (with_temporary-other t new_text ws.files p no_temp)))
        (changed-Logged t _ ws s b (elim (Bool-cases (text_eq t p)) [
          | inl same ↦ inr same
          | inr other ↦ inl (renamed-other t new_text ws.files p no_temp other)
        ]))

  apply_text-Logged :
      (rel : Text) (name : String) (t : Text) (new_text : Result PatchError Text) (ws : Workspace)
      → Logged w.worktree id f0 p ws
      → lookup name ws.backups ≡ none
      → validate_rel_path w.worktree rel ≡ ok t
      → ws.files t ≡ f0 t
      → temporary t ≢ p
      → Logged w.worktree id f0 p (apply_text w id rel name t new_text ws).0
  apply_text-Logged rel name t (err e) ws s fresh target same no_temp = s
  apply_text-Logged rel name t (ok new_text) ws s fresh target same no_temp =
      let (s', b) = backed_up-Logged rel name t (ws.files t) ws s fresh target same in
      replace-Logged t new_text (backed_up id rel name t (ws.files t) ws) s' b no_temp

  apply_target-Logged :
      (diff rel : Text) (name : String) (v : Result PatchError Text) (ws : Workspace)
      → validate_rel_path w.worktree rel ≡ v
      → Logged w.worktree id f0 p ws
      → lookup name ws.backups ≡ none
      → ((t : Text) → v ≡ ok t → ws.files t ≡ f0 t)
      → ((t : Text) → v ≡ ok t → temporary t ≢ p)
      → Logged w.worktree id f0 p (apply_target w diff id rel name v ws).0
  apply_target-Logged diff rel name (err e) ws target s fresh same no_temp = s
  apply_target-Logged diff rel name (ok t) ws target s fresh same no_temp =
      apply_text-Logged rel name t (apply_diff_to_file diff rel (text_of (ws.files t))) ws s fresh
        target (same t refl) (no_temp t refl)

  pub apply_files-Logged :
      (diff : Text) (targets : List (Text × String)) (ws : Workspace)
      → Logged w.worktree id f0 p ws
      → AreUntouched w f0 ws targets
      → AreDistinct w targets
      → IsNoTemporary w p targets
      → Logged w.worktree id f0 p (apply_files w diff id targets ws).0
  unfolding apply_files apply_file
  apply_files-Logged diff [] ws s u d n = s
  apply_files-Logged diff ((rel, name) ∷ targets) ws s u d n =
      let o = apply_file w diff id rel name ws in
      let s' =
        apply_target-Logged diff rel name (validate_rel_path w.worktree rel) ws refl s u.0.0 u.0.1
          n.0 in
      and_then_lem (Logged w.worktree id f0 p) o (λ ws'. apply_files w diff id targets ws') s'
        (apply_files-Logged diff targets o.0 s'
          (untouched_stay w diff id f0 rel name ws targets u.1 d.0) d.1 n.1)

and_then-none :
    (o : Outcome) (k : Workspace → Outcome)
    → (and_then o k).1 ≡ none
    → (o.1 ≡ none) × (and_then o k ≡ k o.0)
and_then-none (ws, none) k h = (refl, refl)
and_then-none (ws, some e) k h = absurd (cc h)

length-snoc {ℓ} : {A : Type ℓ} (xs : List A) (x : A) → length (xs ++ x ∷ []) ≡ length xs + 1
length-snoc xs x = length-append xs (x ∷ [])

backed_up-entries :
    (id : String) (rel : Text) (name : String) (t : Text) (o : Option Text) (ws : Workspace)
    → length (backed_up id rel name t o ws).entries ≡ length ws.entries + 1
backed_up-entries id rel name t none ws = length-snoc ws.entries (entry_of id rel name none)
backed_up-entries id rel name t (some c) ws = length-snoc ws.entries (entry_of id rel name (some c))

module _ (w : Surroundings) (id : String) (diff : Text) where
  apply_target-entries :
      (rel : Text) (name : String) (v : Result PatchError Text) (ws : Workspace)
      → (apply_target w diff id rel name v ws).1 ≡ none
      → length (apply_target w diff id rel name v ws).0.entries ≡ length ws.entries + 1
  apply_target-entries rel name (err e) ws h = absurd (cc h)
  apply_target-entries rel name (ok t) ws h =
      written (apply_diff_to_file diff rel (text_of (ws.files t))) h
    where
      written :
          (new_text : Result PatchError Text)
          → (apply_text w id rel name t new_text ws).1 ≡ none
          → length (apply_text w id rel name t new_text ws).0.entries ≡ length ws.entries + 1
      written (err e) h = absurd (cc h)
      written (ok new_text) h =
          replace_lem (λ x. length x.entries ≡ length ws.entries + 1) w t new_text
            (backed_up id rel name t (ws.files t) ws)
            (backed_up-entries id rel name t (ws.files t) ws)
            (backed_up-entries id rel name t (ws.files t) ws)
            (backed_up-entries id rel name t (ws.files t) ws)

  pub apply_files-entries :
      (targets : List (Text × String)) (ws : Workspace)
      → (apply_files w diff id targets ws).1 ≡ none
      → length (apply_files w diff id targets ws).0.entries ≡ length ws.entries + length targets
  unfolding apply_files apply_file
  apply_files-entries [] ws h = omega arith
  apply_files-entries ((rel, name) ∷ targets) ws h =
      let v = validate_rel_path w.worktree rel in
      let o = apply_target w diff id rel name v ws in
      let (first, same) = and_then-none o (λ ws'. apply_files w diff id targets ws') h in
      rw same (
        omega (
          arith,
          apply_target-entries rel name v ws first,
          apply_files-entries targets o.0 (ap (λ x. x.1) (sym same) ∙ h),
        ))

pub rolled_back-none : (o : Outcome) → (rolled_back o).1 ≡ none → (rolled_back o ≡ o) × (o.1 ≡ none)
rolled_back-none (ws, none) h = (refl, refl)
rolled_back-none (ws, some e) h = absurd (cc h)
