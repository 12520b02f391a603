-- ===== src/JsonLines.antt =====
-- Files of JSON lines, as app/core/approval.py and app/core/patch_engine.py write them and
-- app/core/approval.py and app/core/rollback.py read them: each value is one line, and the text is
-- read by `splitlines`, without the blank lines. The JSON of a value is a parameter.
use ai_team_os.Prelude.{
  Text, ◌≡◌, refl, ap, ◌∙◌, Bool, false, ◌||◌, Option, none, some, List, [], ◌∷◌, ◌++◌, map,
  if◌then◌else◌, any, All, is_nil, strip, arith,
}
use ai_team_os.Patch.Lines.{is_break, split_lines}

pub record Json {ℓ} (A : Type ℓ) : Type ℓ where
  -- json.dumps(..., ensure_ascii=False)
  pub dumps : A → Text
  -- json.loads with the value that is made of it; none when one of them raises
  pub loads : Text → Option A

module _ {ℓ} {A : Type ℓ} (json : Json A) where
  -- The text of the file after these values were appended.
  unfoldable pub log_text : List A → Text
  log_text [] = []
  log_text (x ∷ xs) = json.dumps x ++ 10 ∷ log_text xs

  -- The value is read again from its text, which is one line.
  pub record IsLine (x : A) : Type ℓ where
    pub read_again : json.loads (json.dumps x) ≡ some x
    pub one_line : any is_break (json.dumps x) ≡ false
    pub not_blank : is_nil (strip (json.dumps x)) ≡ false

or_false : (a b : Bool) → (a || b) ≡ false → (a ≡ false) × (b ≡ false)
or_false a b h = (ground arith, ground arith)

split-one : (l s : Text) → any is_break l ≡ false → split_lines (l ++ 10 ∷ s) ≡ l ∷ split_lines s
unfolding split_lines
split-one [] s h = refl
split-one (c ∷ l) s h =
    let (here, later) = or_false (is_break c) (any is_break l) h in
    rw (here, split-one l s later) refl

module _ {ℓ} {A : Type ℓ} (json : Json A) where
  -- The values of the lines that are not blank, unless one cannot be read.
  unfoldable pub read_lines : List Text → Option (List A)
  read_lines [] = some []
  read_lines (line ∷ lines) =
      let rest = read_lines lines in
      if is_nil (strip line) then rest else elim (json.loads line) [
        | none ↦ none
        | some x ↦ elim rest [ none ↦ none | some xs ↦ some (x ∷ xs) ]
      ]

  -- The values are those that were written.
  read_lines-dumps : (xs : List A) → All (IsLine json) xs → read_lines (map json.dumps xs) ≡ some xs
  unfolding read_lines
  read_lines-dumps [] a = refl
  read_lines-dumps (x ∷ xs) a = rw (a.0.not_blank, a.0.read_again, read_lines-dumps xs a.1) refl

  -- The lines of the file are those that were written.
  pub split_lines-log_text :
      (xs : List A) → All (IsLine json) xs → split_lines (log_text json xs) ≡ map json.dumps xs
  unfolding log_text split_lines
  split_lines-log_text [] a = refl
  split_lines-log_text (x ∷ xs) a =
      split-one (json.dumps x) (log_text json xs) a.0.one_line
      ∙ ap (λ ls. json.dumps x ∷ ls) (split_lines-log_text xs a.1)

  -- A file of JSON lines is read as the values that were written to it.
  pub read_lines-log_text :
      (xs : List A) → All (IsLine json) xs → read_lines (split_lines (log_text json xs)) ≡ some xs
  read_lines-log_text xs a = ap read_lines (split_lines-log_text xs a) ∙ read_lines-dumps xs a
