-- ===== src/Patch/Lines.antt =====
-- Lines of a text, and the header of a hunk, as app/core/patch_engine.py reads them with Python's
-- `str.splitlines`, `str.rstrip`, `re` and `int`. The limit of `int` on the number of digits is
-- left out.
use ai_team_os.Prelude.{
  ℕ, ◌+◌, ◌-◌, ◌*◌, Text, codes, Bool, false, not, ◌&&◌, ◌||◌, Option, none, some, List, [], ◌∷◌,
  ◌++◌, if◌then◌else◌, leb, ◌==◌, is_nil, ◌≡◌, refl,
}

-- The code points at which `splitlines` ends a line.
abbrev pub is_break : ℕ → Bool
is_break c = (leb 10 c && leb c 13) || (leb 28 c && leb c 30) || c == 133 || c == 8232 || c == 8233

abbrev pub starts_with_lf : Text → Bool
starts_with_lf [] = false
starts_with_lf (c ∷ s) = c == 10

-- Puts a code point before the first line.
abbrev pub cons_head : ℕ → List Text → List Text
cons_head c [] = (c ∷ []) ∷ []
cons_head c (l ∷ ls) = (c ∷ l) ∷ ls

-- s.splitlines(keepends=True)
unfoldable pub split_lines_keepends : Text → List Text
split_lines_keepends [] = []
split_lines_keepends (c ∷ s) =
    let rest = split_lines_keepends s in
    if is_break c && not (c == 13 && starts_with_lf s) then (c ∷ []) ∷ rest else cons_head c rest

-- s.splitlines()
unfoldable pub split_lines : Text → List Text
split_lines [] = []
split_lines (c ∷ s) =
    let rest = split_lines s in
    if is_break c
    then (if c == 13 && starts_with_lf s then rest else [] ∷ rest)
    else cons_head c rest

-- "".join(lines)
unfoldable pub join : List Text → Text
join [] = []
join (l ∷ ls) = l ++ join ls

-- s.rstrip("\r\n")
unfoldable pub chomp : Text → Text
chomp [] = []
chomp (c ∷ s) = let rest = chomp s in if is_nil rest && (c == 10 || c == 13) then [] else c ∷ rest

-- s.endswith("\n")
abbrev pub ends_with_lf : Text → Bool
ends_with_lf [] = false
ends_with_lf (c ∷ []) = c == 10
ends_with_lf (c ∷ d ∷ s) = ends_with_lf (d ∷ s)

-- The zeros of Unicode's decimal digits, which `\d` matches and `int` reads; each is followed by
-- its nine digits.
abbrev digit_zeros : List ℕ
digit_zeros =
    48 ∷ 1632 ∷ 1776 ∷ 1984 ∷ 2406 ∷ 2534 ∷ 2662 ∷ 2790 ∷ 2918 ∷ 3046 ∷ 3174 ∷ 3302 ∷ 3430 ∷ 3558
    ∷ 3664 ∷ 3792 ∷ 3872 ∷ 4160 ∷ 4240 ∷ 6112 ∷ 6160 ∷ 6470 ∷ 6608 ∷ 6784 ∷ 6800 ∷ 6992 ∷ 7088
    ∷ 7232 ∷ 7248 ∷ 42528 ∷ 43216 ∷ 43264 ∷ 43472 ∷ 43504 ∷ 43600 ∷ 44016 ∷ 65296 ∷ 66720 ∷ 68912
    ∷ 69734 ∷ 69872 ∷ 69942 ∷ 70096 ∷ 70384 ∷ 70736 ∷ 70864 ∷ 71248 ∷ 71360 ∷ 71472 ∷ 71904 ∷ 72016
    ∷ 72784 ∷ 73040 ∷ 73120 ∷ 92768 ∷ 92864 ∷ 93008 ∷ 120782 ∷ 120792 ∷ 120802 ∷ 120812 ∷ 120822
    ∷ 123200 ∷ 123632 ∷ 125264 ∷ 130032 ∷ []

abbrev pub digit_in : List ℕ → ℕ → Option ℕ
digit_in [] c = none
digit_in (z ∷ zs) c = if leb z c && leb c (z + 9) then some (c - z) else digit_in zs c

-- The digits at the start of a text, appended to those of a number; what follows.
abbrev pub more_digits : ℕ → Text → ℕ × Text
more_digits n [] = (n, [])
more_digits n (c ∷ s) = elim (digit_in digit_zeros c) [
  | none ↦ (n, c ∷ s)
  | some d ↦ more_digits (n * 10 + d) s
]

-- `(\d+)` at the start of a text: its number, and what follows.
abbrev pub digits : Text → Option (ℕ × Text)
digits [] = none
digits (c ∷ s) = elim (digit_in digit_zeros c) [ none ↦ none | some d ↦ some (more_digits d s) ]

-- What follows a prefix.
abbrev pub after : Text → Text → Option Text
after [] s = some s
after (c ∷ p) [] = none
after (c ∷ p) (d ∷ s) = if c == d then after p s else none

-- `(\d+)(?:,(\d+))?`, where a missing count is 1.
abbrev pub range_after_comma : ℕ → Text → Option Text → Option (ℕ × ℕ × Text)
range_after_comma n s none = some (n, 1, s)
range_after_comma n s (some t) = elim (digits t) [
  | none ↦ some (n, 1, s)
  | some (m, u) ↦ some (n, m, u)
]

abbrev pub range : Text → Option (ℕ × ℕ × Text)
range s = elim (digits s) [
  | none ↦ none
  | some (n, t) ↦ range_after_comma n t (after (codes ",") t)
]

pub record HunkHeader : Type 0 where
  pub old_start : ℕ
  pub old_count : ℕ
  pub new_start : ℕ
  pub new_count : ℕ

-- `@@ -(\d+)(?:,(\d+))? \+(\d+)(?:,(\d+))? @@` at the start of a line.
unfoldable pub parse_header : Text → Option HunkHeader
parse_header line = elim (after (codes "@@ -") line) [
  | none ↦ none
  | some s ↦ elim (range s) [
    | none ↦ none
    | some (old_start, old_count, t) ↦ elim (after (codes " +") t) [
      | none ↦ none
      | some u ↦ elim (range u) [
        | none ↦ none
        | some (new_start, new_count, v) ↦ elim (after (codes " @@") v) [
          | none ↦ none
          | some rest ↦ some (record {
            old_start = old_start;
            old_count = old_count;
            new_start = new_start;
            new_count = new_count;
          })
        ]
      ]
    ]
  ]
]

joined : join (split_lines_keepends (codes "a\r\nb\n\nc")) ≡ codes "a\r\nb\n\nc"
unfolding join split_lines_keepends
joined = refl

splits : split_lines (codes "a\r\nb\n\nc") ≡ codes "a" ∷ codes "b" ∷ [] ∷ codes "c" ∷ []
unfolding split_lines
splits = refl

header_read :
    parse_header (codes "@@ -12,3 +14 @@ def f():")
    ≡ some (record { old_start = 12; old_count = 3; new_start = 14; new_count = 1 })
unfolding parse_header
header_read = refl
