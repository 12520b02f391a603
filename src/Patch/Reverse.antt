-- ===== src/Patch/Reverse.antt =====
-- The hunk that takes the change of another back.
use ai_team_os.Prelude.{
  ◌-◌, Text, ◌≡◌, ◌≢◌, refl, sym, ap, ◌∙◌, List, [], ◌∷◌, ◌++◌, map, length, All, ok,
}
use mathlib.Core.List.{map-append}
use ai_team_os.Patch.Lines.{HunkHeader, chomp}
use ai_team_os.Patch.Defs.{DiffLine, context, added, removed, unexpected, apply_at}
use ai_team_os.Patch.Sides.{old_side, new_side, Fits}
use ai_team_os.Patch.Hunks.{apply_at-of_Fits, apply_at-ok_iff}

-- The hunk that takes the change back.
abbrev pub reverse_line : DiffLine → DiffLine
reverse_line (context s) = context s
reverse_line (added s) = removed s
reverse_line (removed s) = added s
reverse_line unexpected = unexpected

abbrev pub reverse_header : HunkHeader → HunkHeader
reverse_header h = record {
  old_start = h.new_start;
  old_count = h.new_count;
  new_start = h.old_start;
  new_count = h.old_count;
}

reverse_sides :
    (body : List DiffLine)
    → (old_side (map reverse_line body) ≡ new_side body)
      × (new_side (map reverse_line body) ≡ old_side body)
reverse_sides [] = (refl, refl)
reverse_sides (context s ∷ body) = let (a, b) = reverse_sides body in (cc a, cc b)
reverse_sides (added s ∷ body) = let (a, b) = reverse_sides body in (cc a, cc b)
reverse_sides (removed s ∷ body) = let (a, b) = reverse_sides body in (cc a, cc b)
reverse_sides (unexpected ∷ body) = reverse_sides body

reverse_known :
    (body : List DiffLine)
    → All (λ l. l ≢ unexpected) body
    → All (λ l. l ≢ unexpected) (map reverse_line body)
reverse_known [] a = tt
reverse_known (context s ∷ body) a = (a.0, reverse_known body a.1)
reverse_known (added s ∷ body) a = ((λ e. cc e), reverse_known body a.1)
reverse_known (removed s ∷ body) a = ((λ e. cc e), reverse_known body a.1)
reverse_known (unexpected ∷ body) a = absurd (a.0 refl)

same_lines :
    (before put matched rest : List Text)
    → map chomp put ≡ map chomp matched
    → map chomp (before ++ (put ++ rest)) ≡ map chomp (before ++ (matched ++ rest))
same_lines before put matched rest e = simp (map-append, e)

-- After a hunk that was applied and that starts at the same line in both files, counted from zero
-- as the code counts, its reverse, with both sides of the header and of the lines exchanged, is
-- applied too, and every line of the file is again what it was, up to line ends.
pub apply_at-reverse :
    (h : HunkHeader) (old new : List Text) (body : List DiffLine)
    → h.new_start - 1 ≡ h.old_start - 1
    → apply_at h old body ≡ ok new
    → (back : List Text) × (apply_at (reverse_header h) new (map reverse_line body) ≡ ok back)
      × (map chomp back ≡ map chomp old)
apply_at-reverse h old new body aligned e =
    let r = (apply_at-ok_iff h old body).0 new e in
    let f = r.fits in
    let (to_new, to_old) = reverse_sides body in
    let fits_new : Fits (reverse_header h) (map reverse_line body) new = record {
      before = f.before;
      matched = r.put;
      rest = f.rest;
      whole = r.result;
      start = f.start ∙ sym aligned;
      same = r.fresh ∙ sym to_new;
      old_lines = ap length to_new ∙ f.new_lines;
      new_lines = ap length to_old ∙ f.old_lines;
      known = reverse_known body f.known;
    } in
    let (put, ran, fresh) =
      apply_at-of_Fits (reverse_header h) (map reverse_line body) new fits_new in
    (
      f.before ++ (put ++ f.rest),
      ran,
      same_lines f.before put f.matched f.rest (fresh ∙ to_old ∙ sym f.same)
          ∙ ap (map chomp) (sym f.whole),
    )
