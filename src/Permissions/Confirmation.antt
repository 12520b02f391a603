-- ===== src/Permissions/Confirmation.antt =====
-- How the stored mode changes: what `set_mode` accepts, and the confirmation of Maximum mode.
use ai_team_os.Prelude.{
  ℕ, String, ◌≡◌, ◌≢◌, ◌⊎◌, Bool, true, false, Option, none, some, arith, ok, err, eq_iff,
}
use ai_team_os.Permissions.Defs.{
  PermissionMode, safe, standard, maximum, normalize, ActionRequest, PolicyDecision,
}
use ai_team_os.Permissions.Policy.{normalize-mode_value}
use ai_team_os.Permissions.Store.{
  PermissionStore, user_action_required, confirmation_required, initialize, set_mode, record_action,
  runtime_decide,
}

-- A store whose mode parses, and is Maximum only with a confirmation on record.
pub record IsConfirmed (s : PermissionStore) : Type 0 where
  pub parses : normalize s.setting.mode ≢ none
  pub confirmed : normalize s.setting.mode ≡ some maximum → s.setting.maximum_confirmed_at ≢ none

pub initialize-IsConfirmed : (now : ℕ) → IsConfirmed (initialize now)
unfolding initialize normalize
initialize-IsConfirmed now = record { parses = λ h. cc; confirmed = λ h. cc }

pub set_mode-IsConfirmed :
    (now : ℕ) (mode : String) (by_user confirmed : Bool) (source : String) (s t : PermissionStore)
    (old : PermissionMode)
    → IsConfirmed s
    → set_mode now mode by_user confirmed source s ≡ ok (t, old)
    → IsConfirmed t
unfolding set_mode
set_mode-IsConfirmed now mode by_user confirmed source s t old v h = record {
  parses = λ e. ground (
    arith,
    normalize-mode_value safe,
    normalize-mode_value standard,
    normalize-mode_value maximum,
  );
  confirmed = λ e. ground (
    arith,
    normalize-mode_value safe,
    normalize-mode_value standard,
    normalize-mode_value maximum,
  );
}

-- In a store that is confirmed, a change without the user, or from another source than the user's action, is refused, and
-- Maximum mode is refused while no confirmation is on record and none is given.
pub set_mode_refuses :
    (now : ℕ) (mode : String) (by_user confirmed : Bool) (source : String) (s : PermissionStore)
    → IsConfirmed s
    → ((by_user ≡ false) ⊎ (source ≢ "user_explicit_action")
        → set_mode now mode by_user confirmed source s ≡ err user_action_required)
      × (by_user ≡ true
          → source ≡ "user_explicit_action"
          → normalize mode ≡ some maximum
          → s.setting.maximum_confirmed_at ≡ none
          → confirmed ≡ false
          → set_mode now mode by_user confirmed source s ≡ err confirmation_required)
unfolding set_mode
set_mode_refuses now mode by_user confirmed source s v = (
  λ h. ground (arith, eq_iff source "user_explicit_action"),
  λ u o m n c. ground (arith, eq_iff source "user_explicit_action"),
)

-- Everything that happens to the store: a change of mode that is accepted, an action that is
-- decided, and a decision that a gateway records.
pub data Step (s : PermissionStore) (t : PermissionStore) : Type 0 where
  change :
      (now : ℕ) (mode : String) (by_user confirmed : Bool) (source : String) (old : PermissionMode)
      → set_mode now mode by_user confirmed source s ≡ ok (t, old)
      → Step s t
  decided :
      (now : ℕ) (r : ActionRequest) (wants_record : Bool) (d : PolicyDecision)
      → runtime_decide now r wants_record s ≡ ok (t, d)
      → Step s t
  recorded :
      (now : ℕ) (d : PolicyDecision) (task_id : Option String)
      → t ≡ record_action now d task_id s
      → Step s t

pub data Reach (s : PermissionStore) : PermissionStore → Type 0 where
  here : Reach s s
  next : {t u : PermissionStore} → Reach s t → Step t u → Reach s u

setting-runtime_decide :
    (now : ℕ) (r : ActionRequest) (wants : Bool) (s t : PermissionStore) (d : PolicyDecision)
    → runtime_decide now r wants s ≡ ok (t, d)
    → t.setting ≡ s.setting
unfolding runtime_decide record_action
setting-runtime_decide now r wants s t d h = ground arith

IsConfirmed-of_setting :
    (s t : PermissionStore) → t.setting ≡ s.setting → IsConfirmed s → IsConfirmed t
IsConfirmed-of_setting s t e v = record { parses = rw e v.parses; confirmed = rw e v.confirmed }

Step-IsConfirmed : {s t : PermissionStore} → Step s t → IsConfirmed s → IsConfirmed t
Step-IsConfirmed {s} {t} (change now mode by_user confirmed source old h) v =
    set_mode-IsConfirmed now mode by_user confirmed source s t old v h
Step-IsConfirmed {s} {t} (decided now r wants d h) v =
    IsConfirmed-of_setting s t (setting-runtime_decide now r wants s t d h) v
Step-IsConfirmed {s} {t} (recorded now d task_id h) v =
    IsConfirmed-of_setting s t (unfold record_action in ground arith) v

-- In every store that any sequence of accepted changes, decisions and records makes of a fresh
-- one, the mode parses, and it is Maximum only if a confirmation is on record.
pub Reach-IsConfirmed : (now : ℕ) (t : PermissionStore) → Reach (initialize now) t → IsConfirmed t
Reach-IsConfirmed now t r = go r
  where
    go : {u : PermissionStore} → Reach (initialize now) u → IsConfirmed u
    go here = initialize-IsConfirmed now
    go (next r st) = Step-IsConfirmed st (go r)
