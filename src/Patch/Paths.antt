-- ===== src/Patch/Paths.antt =====
-- `_validate_rel_path` of app/core/patch_engine.py. The resolution of a path by the file system,
-- links included, is a parameter, with the resolved worktree and the separator of paths.
use ai_team_os.Prelude.{
  Text, codes, Bool, false, not, ◌&&◌, ◌||◌, List, [], ◌∷◌, ◌++◌, map, if◌then◌else◌, leb, ◌==◌,
  is_nil, any, filter, starts_with, strip, text_eq, Result, ok, err, refuse, require, ◌>>◌,
}
use ai_team_os.Patch.Lines.{cons_head}
use ai_team_os.Patch.Defs.{
  PatchError, empty_path, absolute_path, path_traversal, alternate_data_stream, path_escapes,
  no_parts,
}

pub record Worktree : Type 0 where
  -- str(worktree.resolve())
  pub root : Text
  -- os.sep
  pub separator : Text
  -- str((worktree / Path(*parts)).resolve())
  pub resolve : List Text → Text

-- rel.replace("\\", "/")
abbrev pub with_slashes : Text → Text
with_slashes = map (λ c. if c == 92 then 47 else c)

-- s.split("/")
unfoldable pub split_slash : Text → List Text
split_slash [] = [] ∷ []
split_slash (c ∷ s) = let rest = split_slash s in if c == 47 then [] ∷ rest else cons_head c rest

-- re.match(r"^[A-Za-z]:", raw)
abbrev pub has_drive : Text → Bool
has_drive (c ∷ d ∷ s) = ((leb 65 c && leb c 90) || (leb 97 c && leb c 122)) && d == 58
has_drive _ = false

-- [p for p in raw.split("/") if p not in ("", ".")]
unfoldable pub path_parts : Text → List Text
unfolding split_slash
path_parts raw = filter (λ p. not (is_nil p || text_eq p (codes "."))) (split_slash raw)

abbrev pub is_parent : Text → Bool
is_parent p = text_eq p (codes "..")

-- `":" in parts[-1]`, an `IndexError` when there is no part.
unfoldable pub check_last : List Text → Result PatchError (Unit {0})
check_last [] = err no_parts
check_last (p ∷ []) = refuse (any (λ c. c == 58) p) alternate_data_stream
check_last (p ∷ q ∷ ps) = check_last (q ∷ ps)

-- The resolved path is the worktree or is below it.
abbrev pub is_inside : Worktree → Text → Bool
is_inside w target = text_eq target w.root || starts_with target (w.root ++ w.separator)

unfoldable pub validate_rel_path : Worktree → Text → Result PatchError Text
unfolding path_parts
validate_rel_path w rel =
    let raw = with_slashes rel in
    let parts = path_parts raw in
    let target = w.resolve parts in
    do
      refuse (is_nil (strip rel)) empty_path
      refuse (starts_with raw (codes "/") || has_drive raw) absolute_path
      refuse (any is_parent parts) path_traversal
      check_last parts
      require (is_inside w target) path_escapes
      ok target
