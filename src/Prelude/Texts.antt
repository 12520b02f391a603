-- ===== src/Prelude/Texts.antt =====
-- Python's `str` as a list of code points, with the operations of it that the source uses:
-- `lower`, `strip`, `startswith`, and `x in s`.
use Prim.Native.Nat.{ℕ, ◌+◌}
use Prim.Native.Char.{code}
use Prim.Native.String.{String}
use mathlib.Core.Logic.{◌↔◌}
use native.Mathlib.Omega.{arith}
use mathlib.Core.Path.{◌≡◌, refl}
use mathlib.Core.Bool.{Bool, true, false, ◌&&◌, ◌||◌}
use mathlib.Core.List.{List, [], ◌∷◌, ◌++◌, reverse}
use ai_team_os.Prelude.Tests.{leb, ◌==◌, if◌then◌else◌}
use ai_team_os.Prelude.Lists.{any}

abbrev pub Text : Type 0
Text = List ℕ

-- The code points of a literal.
abbrev pub codes : String → Text
codes String.[] = []
codes (String.◌∷◌ c s) = code c ∷ codes s

-- The lower case of one code point. The code points whose lower case is ASCII, or is longer than
-- one, are all listed: the capital letters, U+0130 and the Kelvin sign U+212A. Every other one
-- has a lower case outside ASCII and the CJK blocks and no test of the source sees which.
abbrev pub lower_char : ℕ → Text
lower_char c =
    if leb 65 c && leb c 90
    then (c + 32) ∷ []
    else if c == 304
    then 105 ∷ 775 ∷ []
    else if c == 8490
    then 107 ∷ []
    else c ∷ []

-- s.lower()
unfoldable pub lower : Text → Text
lower [] = []
lower (c ∷ s) = lower_char c ++ lower s

-- str.isspace of one code point
abbrev pub is_space : ℕ → Bool
is_space c =
    (leb 9 c && leb c 13)
    || (leb 28 c && leb c 32)
    || c == 133
    || c == 160
    || c == 5760
    || (leb 8192 c && leb c 8202)
    || c == 8232
    || c == 8233
    || c == 8239
    || c == 8287
    || c == 12288

unfoldable pub strip_left : Text → Text
strip_left [] = []
strip_left (c ∷ s) = let rest = strip_left s in if is_space c then rest else c ∷ s

-- s.strip()
unfoldable pub strip : Text → Text
unfolding strip_left
strip s = reverse (strip_left (reverse (strip_left s)))

-- s.startswith(p)
abbrev pub starts_with : Text → Text → Bool
starts_with s [] = true
starts_with [] (c ∷ p) = false
starts_with (d ∷ s) (c ∷ p) = c == d && starts_with s p

-- m in s
unfoldable pub contains : Text → Text → Bool
contains m [] = starts_with [] m
contains m (c ∷ s) = starts_with (c ∷ s) m || contains m s

-- any(m in s for m in ms)
unfoldable pub contains_any : List String → Text → Bool
unfolding contains
contains_any ms s = any (λ m. contains (codes m) s) ms

-- s == t
abbrev pub text_eq : Text → Text → Bool
text_eq [] [] = true
text_eq (c ∷ s) (d ∷ t) = c == d && text_eq s t
text_eq _ _ = false

pub text_eq_iff : (s t : Text) → (text_eq s t ≡ true) ↔ (s ≡ t)
text_eq_iff [] [] = ground arith
text_eq_iff [] (d ∷ t) = ground arith
text_eq_iff (c ∷ s) [] = ground arith
text_eq_iff (c ∷ s) (d ∷ t) = ground (arith, text_eq_iff s t)

lower_greets : lower (codes "Hello 你好") ≡ codes "hello 你好"
unfolding lower
lower_greets = refl

strip_blanks : strip (codes "  a b ") ≡ codes "a b"
unfolding strip
strip_blanks = refl

contains_inside : contains_any ("x" ∷ "bug" ∷ []) (codes "a bug here") ≡ true
unfolding contains_any
contains_inside = refl
