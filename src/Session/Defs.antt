-- ===== src/Session/Defs.antt =====
-- `DeviceSessionManager` of app/windows_control/session.py. The clock is a number of
-- microseconds, an argument of each method that reads it; the texts of `started_at`, `expires_at`
-- and `last_action_at` have whole seconds, and so have these fields. `user_id` and the fresh id
-- are arguments. A copy of the session that a method returns is the value itself.
use ai_team_os.Prelude.{
  ℕ, ◌+◌, ◌-◌, ◌*◌, ◌/◌, min, max, String, Bool, true, false, Option, none, some, List, [], ◌∷◌,
  ◌++◌, if◌then◌else◌, Result, ok, err, ◌>>◌, require, leb, elem, str_eq,
}

pub data SessionStatus : Type 0 where
  inactive active paused expired terminated : SessionStatus

pub data SessionCapability : Type 0 where
  observe_only low_risk_control ask_every_action : SessionCapability

pub data SessionError : Type 0 where
  inactive_session expired_session action_after_stop paused_session permission_denied : SessionError

pub record DeviceSession : Type 0 where
  pub session_id : String
  pub user_id : String
  pub started_at : ℕ
  pub expires_at : ℕ
  pub status : SessionStatus
  pub allowed_capabilities : List String
  pub capability : SessionCapability
  pub active_window : Option String  -- the id of the window
  pub action_count : ℕ
  pub last_action_at : Option ℕ

-- The manager holds at most one session.
abbrev pub Manager : Type 0
Manager = Option DeviceSession

abbrev pub observe_tools : List String
observe_tools =
    "windows_get_active_window" ∷ "windows_list_windows" ∷ "windows_get_window_info"
    ∷ "windows_capture_screen" ∷ "windows_capture_window" ∷ "windows_get_accessibility_tree" ∷ []

abbrev pub control_tools : List String
control_tools =
    "windows_launch_app" ∷ "windows_focus_window" ∷ "windows_click_element" ∷ "windows_set_text"
    ∷ "windows_press_key" ∷ "windows_close_window" ∷ "windows_open_safe_path"
    ∷ "windows_click_coordinate" ∷ []

unfoldable pub allowed_tools : SessionCapability → List String
allowed_tools observe_only = observe_tools
allowed_tools _ = observe_tools ++ control_tools

-- A negative number of minutes is clamped to 1, as 0 is.
unfoldable pub clamp_ttl : ℕ → ℕ
clamp_ttl ttl_minutes = max 1 (min ttl_minutes 60)

abbrev pub second : ℕ
second = 1000000

unfoldable pub start :
    ℕ → String → String → SessionCapability → ℕ → Manager → Manager × DeviceSession
unfolding clamp_ttl
start now session_id user_id capability ttl_minutes m =
    let session : DeviceSession = record {
      session_id = session_id;
      user_id = user_id;
      started_at = now / second;
      expires_at = (now + clamp_ttl ttl_minutes * 60 * second) / second;
      status = active;
      allowed_capabilities = allowed_tools capability;
      capability = capability;
      active_window = none;
      action_count = 0;
      last_action_at = none;
    } in
    (some session, session)

abbrev pub is_over : SessionStatus → Bool
is_over expired = true
is_over terminated = true
is_over _ = false

-- `_expire_if_needed` on the session.
unfoldable pub expire_session : ℕ → DeviceSession → DeviceSession
expire_session now s =
    if is_over s.status
    then s
    else if leb (s.expires_at * second) now
    then record s { status = expired }
    else s

unfoldable pub expire_if_needed : ℕ → Manager → Manager
unfolding expire_session
expire_if_needed now none = none
expire_if_needed now (some s) = some (expire_session now s)

unfoldable pub current : ℕ → Manager → Manager × Option DeviceSession
unfolding expire_if_needed
current now m = let m' = expire_if_needed now m in (m', m')

-- The ladder on the status in `require_active`.
abbrev pub status_check : SessionStatus → Result SessionError (Unit {0})
status_check inactive = err inactive_session
status_check expired = err expired_session
status_check terminated = err action_after_stop
status_check paused = err paused_session
status_check active = ok tt

-- `if tool and tool not in ...`: no tool is `none`, and so is the empty text.
abbrev pub tool_check : Option String → DeviceSession → Result SessionError (Unit {0})
tool_check none s = ok tt
tool_check (some tool) s =
    if str_eq tool "" then ok tt else require (elem tool s.allowed_capabilities) permission_denied

unfoldable pub checked : Option String → Manager → Result SessionError DeviceSession
checked tool none = err inactive_session
checked tool (some s) = do status_check s.status; tool_check tool s; ok s

unfoldable pub require_active :
    ℕ → Option String → Manager → Manager × Result SessionError DeviceSession
unfolding checked expire_if_needed
require_active now tool m = let m' = expire_if_needed now m in (m', checked tool m')

abbrev pub paused_if_ok :
    Manager × Result SessionError DeviceSession → Manager × Result SessionError DeviceSession
paused_if_ok (m, ok s) = let s' = record s { status = paused } in (some s', ok s')
paused_if_ok (m, err e) = (m, err e)

unfoldable pub pause : ℕ → Manager → Manager × Result SessionError DeviceSession
unfolding require_active
pause now m = paused_if_ok (require_active now none m)

abbrev pub resume_session :
    DeviceSession → SessionStatus → Manager × Result SessionError DeviceSession
resume_session s expired = (some s, err expired_session)
resume_session s terminated = (some s, err action_after_stop)
resume_session s _ = let s' = record s { status = active } in (some s', ok s')

abbrev pub resume_found : Manager → Manager × Result SessionError DeviceSession
resume_found none = (none, err inactive_session)
resume_found (some s) = resume_session s s.status

unfoldable pub resume : ℕ → Manager → Manager × Result SessionError DeviceSession
unfolding expire_if_needed
resume now m = resume_found (expire_if_needed now m)

unfoldable pub terminate : Manager → Manager × Option DeviceSession
terminate none = (none, none)
terminate (some s) = let s' = record s { status = terminated } in (some s', some s')

unfoldable pub mark_action : ℕ → Manager → Manager
mark_action now none = none
mark_action now (some s) =
    some (record s { action_count = s.action_count + 1; last_action_at = some (now / second) })

unfoldable pub set_active_window : Option String → Manager → Manager
set_active_window window none = none
set_active_window window (some s) = some (record s { active_window = window })

unfoldable pub force_expire_for_test : ℕ → Manager → Manager
unfolding expire_if_needed
force_expire_for_test now none = none
force_expire_for_test now (some s) =
    expire_if_needed now (some (record s { expires_at = (now - second) / second }))
