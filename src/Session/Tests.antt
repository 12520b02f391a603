-- ===== src/Session/Tests.antt =====
-- A session that is used, paused, resumed and stopped, and the theorems at it.
use ai_team_os.Prelude.{
  Option, ◌*◌, ◌<◌, String, ◌≡◌, refl, ◌↔◌, ◌⊎◌, true, false, none, some, arith, ok, err, is_ok,
  elem,
}
use ai_team_os.Session.Defs.{
  active, observe_only, low_risk_control, DeviceSession, Manager, second, allowed_tools, start,
  terminate, current, require_active, pause, resume, paused_session,
}
use ai_team_os.Session.Laws.{
  require_active-ok_iff, here, next, go_on, observe, over, over_forever,
  observe_only_never_controls, pause-resume,
}

abbrev session : DeviceSession
session = (start 5000000 "s1" "u" low_risk_control 90 none).1

abbrev stopped : Manager
stopped = (terminate (some session)).0

click_allowed :
    is_ok (require_active 6000000 (some "windows_click_element") (some session)).1 ≡ true
unfolding require_active start allowed_tools
click_allowed = refl

abbrev set_text : Option String
set_text = some "windows_set_text"

require_active-ok_iff_example :
    (is_ok (require_active 6000000 set_text (some session)).1 ≡ true) ↔ (
      (s : DeviceSession) × (some session ≡ some s)
      × (s.status ≡ active)
      × (6000000 < s.expires_at * second)
      × ((set_text ≡ none)
          ⊎ (set_text ≡ some "")
          ⊎ ((t : String) × (set_text ≡ some t) × (elem t s.allowed_capabilities ≡ true))))
require_active-ok_iff_example = require_active-ok_iff 6000000 set_text (some session)

stopped-over : over stopped ≡ true
unfolding terminate
stopped-over = refl

over_forever_example : is_ok (require_active 9000000 none (resume 8000000 stopped).0).1 ≡ false
over_forever_example =
    over_forever stopped (resume 8000000 stopped).0 stopped-over (next here (go_on 8000000 refl))
      9000000 none

observe_only_never_controls_example :
    is_ok
      (require_active 7000000
        (some "windows_set_text")
        (current 6000000 (start 5000000 "s1" "u" observe_only 15 none).0).0).1
    ≡ false
observe_only_never_controls_example =
    observe_only_never_controls 5000000 7000000 "s1" "u" "windows_set_text" 15 none
      (current 6000000 (start 5000000 "s1" "u" observe_only 15 none).0).0 refl
      (next here (observe 6000000 refl))

pauses : is_ok (pause 6000000 (some session)).1 ≡ true
unfolding pause start
pauses = refl

in_time : 7000000 < session.expires_at * second
unfolding start
in_time = omega arith

pause-resume_example :
    ((require_active 7000000 none (pause 6000000 (some session)).0).1 ≡ err paused_session)
    × (resume 7000000 (pause 6000000 (some session)).0 ≡ (some session, ok session))
pause-resume_example = pause-resume 6000000 7000000 none session pauses in_time
