-- ===== src/Permissions/Policy.antt =====
-- What the policy promises for every action and every mode.
use ai_team_os.Prelude.{Text, ◌≡◌, refl, ◌↔◌, ◌⊎◌, Bool, true, false, some, arith}
use ai_team_os.Permissions.Defs.{
  PermissionMode, safe, standard, maximum, mode_value, normalize, forbidden, allow, block,
  ActionRequest, is_forbidden_text, is_sensitive_text, is_external_text, is_system_text,
  automatic_in_standard, marker_text, classify, decide,
}

-- An action is blocked in a mode exactly when its risk is forbidden, whatever the mode is.
pub decide-block_iff :
    (mode : PermissionMode) (r : ActionRequest)
    → ((decide mode r).decision ≡ block) ↔ (r.risk ≡ forbidden)
unfolding decide
decide-block_iff mode r = (λ h. ground arith, λ h. ground arith)

-- What is automatic in Safe mode is automatic in Standard mode, and what is automatic in Standard
-- mode is automatic in Maximum mode.
pub decide_monotone :
    (r : ActionRequest)
    → ((decide safe r).decision ≡ allow → (decide standard r).decision ≡ allow)
      × ((decide standard r).decision ≡ allow → (decide maximum r).decision ≡ allow)
unfolding decide
decide_monotone r = (λ h. ground arith, λ h. ground arith)

-- Neither the flag `read_only` nor the hint changes the class of a text that holds a marker of a
-- forbidden, sensitive, external or system effect: it is never a class that Standard mode allows.
pub classify_ignores_caller :
    (action target : Text) (reads reads' : Bool) (hint hint' : Text)
    → (is_forbidden_text (marker_text action target) ≡ true)
      ⊎ (is_sensitive_text (marker_text action target) ≡ true)
      ⊎ (is_external_text (marker_text action target) ≡ true)
      ⊎ (is_system_text (marker_text action target) ≡ true)
    → (classify action reads hint target ≡ classify action reads' hint' target)
      × (automatic_in_standard (classify action reads hint target) ≡ false)
unfolding classify
classify_ignores_caller action target reads reads' hint hint' h = ground arith

-- The text of a mode parses to that mode, and the old name of the widest mode to that.
pub normalize-mode_value :
    (mode : PermissionMode)
    → (normalize (mode_value mode) ≡ some mode) × (normalize "full_access" ≡ some maximum)
unfolding normalize
normalize-mode_value safe = (refl, refl)
normalize-mode_value standard = (refl, refl)
normalize-mode_value maximum = (refl, refl)
