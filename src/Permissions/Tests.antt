-- ===== src/Permissions/Tests.antt =====
-- Runs of the permission policy and its store, and the theorems at concrete inputs.
use ai_team_os.Prelude.{
  Text, codes, ◌≡◌, refl, inl, true, false, none, some, ok, [], contains_any, lower,
}
use ai_team_os.Permissions.Defs.{
  standard, maximum, normalize, external_effect, ask, ActionRequest, classify, decide,
  is_forbidden_text, is_external_text, is_sensitive_text, automatic_in_standard, marker_text,
}
use ai_team_os.Permissions.Store.{PermissionStore, initialize, set_mode}
use ai_team_os.Permissions.Policy.{classify_ignores_caller}
use ai_team_os.Permissions.Confirmation.{IsConfirmed, Reach, Reach-IsConfirmed, here, next, change}

abbrev push_request : ActionRequest
push_request = record {
  action = codes "git_push";
  risk = external_effect;
  target = codes "origin";
  task_id = none;
  task_explicit = false;
  source = "agent";
}

classify_push : classify (codes "Git_Push") true [] (codes "origin") ≡ external_effect
unfolding classify is_forbidden_text is_sensitive_text is_external_text contains_any lower
classify_push = refl

decide_push : (decide maximum push_request).decision ≡ ask
unfolding decide
decide_push = refl

abbrev uac : Text
uac = codes "bypass_uac now"

uac_forbidden : is_forbidden_text (marker_text uac []) ≡ true
unfolding is_forbidden_text contains_any lower
uac_forbidden = refl

classify_ignores_caller_example :
    (classify uac true [] [] ≡ classify uac false (codes "safe") [])
    × (automatic_in_standard (classify uac true [] []) ≡ false)
classify_ignores_caller_example =
    classify_ignores_caller uac [] true false [] (codes "safe") (inl uac_forbidden)

abbrev widened : PermissionStore
widened = record {
  setting = record {
    mode = "maximum";
    changed_at = 7;
    changed_by_user = true;
    version = 2;
    maximum_confirmed_at = some 7;
  };
  actions = [];
}

widen :
    set_mode 7 "full_access" true true "user_explicit_action" (initialize 0)
    ≡ ok (widened, standard)
unfolding set_mode initialize normalize
widen = refl

widened-Reach : Reach (initialize 0) widened
widened-Reach = next here (change 7 "full_access" true true "user_explicit_action" standard widen)

Reach-IsConfirmed_example : IsConfirmed widened
Reach-IsConfirmed_example = Reach-IsConfirmed 0 widened widened-Reach
