-- ===== src/Session/Laws.antt =====
-- When a session lets a tool run, and what no history of a session can undo.
use ai_team_os.Prelude.{
  ◌≢◌, subst, sym, ℕ, ◌+◌, ◌*◌, ◌≤◌, ◌<◌, String, ◌≡◌, refl, ap, ◌∙◌, All, All-elem, ◌↔◌, ◌⊎◌, inl,
  inr, Bool, true, false, Option, none, some, List, [], arith, ok, err, is_ok, elem, str_eq, eq_iff,
  Bool-cases,
}
use ai_team_os.Session.Defs.{
  active, SessionCapability, observe_only, DeviceSession, Manager, second, control_tools,
  observe_tools, allowed_tools, clamp_ttl, start, is_over, current, require_active, pause, resume,
  terminate, mark_action, set_active_window, force_expire_for_test, paused_session, tool_check,
}

via_tool :
    (tool : String) (s : DeviceSession)
    → is_ok (tool_check (some tool) s) ≡ true
    → (some tool ≡ none)
      ⊎ (some tool ≡ some "")
      ⊎ ((t : String) × (some tool ≡ some t) × (elem t s.allowed_capabilities ≡ true))
via_tool tool s h = elim (Bool-cases (str_eq tool "")) [
  | inl e ↦ inr (inl (ap some ((eq_iff tool "").0 e)))
  | inr e ↦ inr (inr (tool, refl, ground arith))
]

-- What lets a tool through, of a session.
abbrev Passes : ℕ → Option String → DeviceSession → Type 0
Passes now tool s =
    (s.status ≡ active)
    × (now < s.expires_at * second)
    × ((tool ≡ none)
        ⊎ (tool ≡ some "")
        ⊎ ((t : String) × (tool ≡ some t) × (elem t s.allowed_capabilities ≡ true)))

session_ok_iff :
    (now : ℕ) (tool : Option String) (s : DeviceSession)
    → (is_ok (require_active now tool (some s)).1 ≡ true) ↔ Passes now tool s
unfolding require_active
session_ok_iff now none s = (λ h. ground arith, λ h. ground arith)
session_ok_iff now (some tool) s = (
  λ h. (ground arith, ground arith, via_tool tool s (ground arith)),
  λ h. ground (arith, eq_iff tool ""),
)

no_session : (now : ℕ) (tool : Option String) → is_ok (require_active now tool none).1 ≢ true
unfolding require_active
no_session now tool h = cc h

some-inj {ℓ} : {A : Type ℓ} {a b : A} → some a ≡ some b → a ≡ b
some-inj e = cc e

-- A tool is let through exactly when there is a session, it is active, its end is not reached, and
-- the tool is on its list; no tool is asked for by `none` and by the empty text.
pub require_active-ok_iff :
    (now : ℕ) (tool : Option String) (m : Manager)
    → (is_ok (require_active now tool m).1 ≡ true) ↔ (
        (s : DeviceSession) × (m ≡ some s)
        × (s.status ≡ active)
        × (now < s.expires_at * second)
        × ((tool ≡ none)
            ⊎ (tool ≡ some "")
            ⊎ ((t : String) × (tool ≡ some t) × (elem t s.allowed_capabilities ≡ true))))
require_active-ok_iff now tool none = (λ h. absurd (no_session now tool h), λ h. absurd (cc h.1))
require_active-ok_iff now tool (some s) = (
  λ h.
      let (active', before, listed) = (session_ok_iff now tool s).0 h in
      (s, refl, active', before, listed),
  λ (s', e, active', before, listed).
      (session_ok_iff now tool s).1
        (subst (λ x. Passes now tool x) (some-inj (sym e)) (active', before, listed)),
)

-- A fresh session is usable from its start until less than a second before its end, which is at
-- least one minute and at most sixty minutes away, and it is refused from its end on.
pub start_window :
    (now t : ℕ) (id user : String) (c : SessionCapability) (ttl : ℕ) (m : Manager)
    → (t + second ≤ now + clamp_ttl ttl * 60 * second
        → is_ok (require_active t none (start now id user c ttl m).0).1 ≡ true)
      × (now + clamp_ttl ttl * 60 * second ≤ t
          → is_ok (require_active t none (start now id user c ttl m).0).1 ≡ false)
      × (1 ≤ clamp_ttl ttl)
      × (clamp_ttl ttl ≤ 60)
unfolding start require_active
start_window now t id user c ttl m =
    (λ h. ground arith, λ h. ground arith, omega arith, omega arith)

-- Every method but `start`.
pub data Step (m : Manager) (m' : Manager) : Type 0 where
  observe : (now : ℕ) → m' ≡ (current now m).0 → Step m m'
  ask : (now : ℕ) (tool : Option String) → m' ≡ (require_active now tool m).0 → Step m m'
  hold : (now : ℕ) → m' ≡ (pause now m).0 → Step m m'
  go_on : (now : ℕ) → m' ≡ (resume now m).0 → Step m m'
  stop : m' ≡ (terminate m).0 → Step m m'
  act : (now : ℕ) → m' ≡ mark_action now m → Step m m'
  look : (window : Option String) → m' ≡ set_active_window window m → Step m m'
  force : (now : ℕ) → m' ≡ force_expire_for_test now m → Step m m'

pub data Reach (m : Manager) : Manager → Type 0 where
  here : Reach m m
  next : {t u : Manager} → Reach m t → Step t u → Reach m u

abbrev pub over : Manager → Bool
over none = false
over (some s) = is_over s.status

-- The list of tools that the session allows.
abbrev pub tools_of : Manager → List String
tools_of none = []
tools_of (some s) = s.allowed_capabilities

Step-over : {m m' : Manager} → Step m m' → over m ≡ true → over m' ≡ true
unfolding current require_active pause resume terminate mark_action set_active_window
    force_expire_for_test
Step-over {m} (observe now e) h = ground arith
Step-over {m} (ask now tool e) h = ground arith
Step-over {m} (hold now e) h = ground arith
Step-over {m} (go_on now e) h = ground arith
Step-over {m} (stop e) h = ground arith
Step-over {m} (act now e) h = ground arith
Step-over {m} (look w e) h = ground arith
Step-over {m} (force now e) h = ground arith

Step-tools_of : {m m' : Manager} → Step m m' → tools_of m' ≡ tools_of m
unfolding current require_active pause resume terminate mark_action set_active_window
    force_expire_for_test
Step-tools_of {m} (observe now e) = ground arith
Step-tools_of {m} (ask now tool e) = ground arith
Step-tools_of {m} (hold now e) = ground arith
Step-tools_of {m} (go_on now e) = ground arith
Step-tools_of {m} (stop e) = ground arith
Step-tools_of {m} (act now e) = ground arith
Step-tools_of {m} (look w e) = ground arith
Step-tools_of {m} (force now e) = ground arith

-- After a session is stopped or has expired, nothing but a new start makes any method let a tool
-- through: whatever is called on it, at whatever times.
pub over_forever :
    (m m' : Manager)
    → over m ≡ true
    → Reach m m'
    → (now : ℕ) (tool : Option String) → is_ok (require_active now tool m').1 ≡ false
unfolding require_active
over_forever m m' h r now tool = let o = go r in ground arith
  where
    go : {u : Manager} → Reach m u → over u ≡ true
    go here = h
    go (next r st) = Step-over st (go r)

observe_excludes : All (λ t. (elem t observe_tools ≡ false) × (str_eq t "" ≡ false)) control_tools
observe_excludes = (
  (refl, refl),
  (
    (refl, refl),
    (
      (refl, refl),
      ((refl, refl), ((refl, refl), ((refl, refl), ((refl, refl), ((refl, refl), tt))))),
    ),
  ),
)

no_tool :
    (t : ℕ) (tool : String) (m : Manager)
    → tools_of m ≡ observe_tools
    → elem tool observe_tools ≡ false
    → str_eq tool "" ≡ false
    → is_ok (require_active t (some tool) m).1 ≡ false
unfolding require_active
no_tool t tool none k o e = refl
no_tool t tool (some s) k o e =
    let off : elem tool s.allowed_capabilities ≡ false = rw k o in ground arith

-- A session that is started to observe only lets no tool of the control set through, whatever is
-- called on it, until the next start.
pub observe_only_never_controls :
    (now t : ℕ) (id user tool : String) (ttl : ℕ) (m m' : Manager)
    → elem tool control_tools ≡ true
    → Reach (start now id user observe_only ttl m).0 m'
    → is_ok (require_active t (some tool) m').1 ≡ false
unfolding start require_active allowed_tools
observe_only_never_controls now t id user tool ttl m m' c r =
    let kept = go r in
    let ex =
      All-elem (λ t. (elem t observe_tools ≡ false) × (str_eq t "" ≡ false)) tool control_tools
        observe_excludes c in
    no_tool t tool m' kept ex.0 ex.1
  where
    go :
        {u : Manager}
        → Reach (start now id user observe_only ttl m).0 u
        → tools_of u ≡ observe_tools
    go here = refl
    go (next r st) = Step-tools_of st ∙ go r

-- After a pause that succeeds, whatever is asked for before the end is refused as paused, and a
-- resumption before the end brings the session back as it was.
pub pause-resume :
    (now later : ℕ) (tool : Option String) (s : DeviceSession)
    → is_ok (pause now (some s)).1 ≡ true
    → later < s.expires_at * second
    → ((require_active later tool (pause now (some s)).0).1 ≡ err paused_session)
      × ((resume later (pause now (some s)).0) ≡ (some s, ok s))
unfolding pause resume require_active
pause-resume now later tool s h b = ground arith
