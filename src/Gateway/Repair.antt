-- ===== src/Gateway/Repair.antt =====
-- `ToolCallRepairLayer.prepare` of app/core/tool_repair.py. Arguments are texts under their names.
-- The gateway passes no recent entities, which could fill a missing argument.
use ai_team_os.Prelude.{
  String, Text, Bool, false, not, ◌&&◌, ◌||◌, Option, none, some, List, [], ◌∷◌, if◌then◌else◌,
  str_eq, elem, filter, Dict, lookup, insert,
}

abbrev pub Arguments : Type 0
Arguments = Dict Text

-- ALIASES, the old names and the new ones
abbrev pub aliases : List (String × String)
aliases =
    ("q", "query") ∷ ("repository", "repo") ∷ ("repository_name", "repo") ∷ ("name", "repo") ∷ []

abbrev pub has_key : String → Arguments → Bool
has_key k [] = false
has_key k ((j, v) ∷ d) = str_eq j k || has_key k d

-- d.pop(k), which the caller has found there
abbrev pub remove : String → Arguments → Arguments
remove k = filter (λ e. not (str_eq e.0 k))

abbrev pub rename : String → Option Text → String → Arguments → Arguments
rename old none new args = args
rename old (some v) new args = insert new v (remove old args)

-- The arguments under their new names, and the aliases that were replaced.
unfoldable pub normalize :
    List String → List (String × String) → Arguments → Arguments × List (String × String)
normalize allowed [] args = (args, [])
normalize allowed ((old, new) ∷ names) args =
    if has_key old args && elem new allowed && not (has_key new args)
    then (let (args', replaced) = normalize allowed names (rename old (lookup old args) new args) in
        (args', (old, new) ∷ replaced))
    else normalize allowed names args

pub record ToolArgumentPreparation : Type 0 where
  pub args : Arguments
  pub missing : List String
  pub normalized : List (String × String)

-- The order of the missing names, which the source sorts, is that of the required ones.
unfoldable pub prepare : Arguments → List String → List String → ToolArgumentPreparation
unfolding normalize
prepare args allowed required =
    let (source, normalized) = normalize allowed aliases args in
    let kept = filter (λ e. elem e.0 allowed) source in
    record {
      args = kept;
      missing = filter (λ k. not (has_key k kept)) required;
      normalized = normalized;
    }
