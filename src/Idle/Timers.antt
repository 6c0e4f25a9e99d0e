-- ===== src/Idle/Timers.antt =====
-- The timers of the screensaver, from idle/mod.rs.
use veshell.Base.{ℕ, suc, false, ◌&&◌, not, List, [], ◌∷◌, Option, none, some, ◌==◌, if◌then◌else◌}
use veshell.Idle.IdleState.{
  Callback, idle_dim_fires, blank_fires, automatic_power_fires, Timer, State, Environment,
  is_disabled, with_idle,
}

-- `loop_handle.remove`.
unfoldable pub remove_timer : ℕ → List Timer → List Timer
remove_timer token [] = []
remove_timer token (t ∷ ts) =
    let rest = remove_timer token ts in if t.token == token then rest else t ∷ rest

abbrev pub remove_token : Option ℕ → List Timer → List Timer
remove_token none ts = ts
remove_token (some token) ts = remove_timer token ts

-- `loop_handle.insert_source`, and its token.
abbrev pub insert_source : Environment → State → Callback → ℕ → State
insert_source env s callback delay = record s {
  timers =
      if env.takes_timers
      then record { token = s.next_token; callback = callback; delay = delay } ∷ s.timers
      else s.timers;
  next_token = suc s.next_token;
}

abbrev pub inserted : Environment → State → Option ℕ
inserted env s = if env.takes_timers then some s.next_token else none

unfoldable pub cancel_all : State → State
cancel_all s = record s {
  idle = record (s.idle) {
    dim_token = none;
    blank_token = none;
    fade_token = none;
    automatic_power_token = none;
    fade_started = none;
  };
  timers = remove_token s.idle.automatic_power_token (
      remove_token s.idle.fade_token
        (remove_token s.idle.blank_token (remove_token s.idle.dim_token s.timers)));
}

unfoldable pub cancel_visual_timers : State → State
cancel_visual_timers s = record s {
  idle = record (s.idle) {
    dim_token = none;
    blank_token = none;
    fade_token = none;
    fade_started = none;
  };
  timers =
      remove_token s.idle.fade_token
        (remove_token s.idle.blank_token (remove_token s.idle.dim_token s.timers));
}

abbrev pub arm_dim : Environment → State → State
arm_dim env s =
    if s.idle.dim_timeout == 0
    then s
    else with_idle (insert_source env s idle_dim_fires s.idle.dim_timeout)
        (record (s.idle) { dim_token = inserted env s })

abbrev pub arm_blank : Environment → State → State
arm_blank env s =
    if s.idle.blank_timeout == 0
    then s
    else with_idle (insert_source env s blank_fires s.idle.blank_timeout)
        (record (s.idle) { blank_token = inserted env s })

abbrev pub arm_automatic_power : Environment → State → State
arm_automatic_power env s =
    if not (s.idle.automatic_power_timeout == 0)
      && (not (is_disabled s.idle.automatic_power_action) && s.idle.power_sender)
    then with_idle (insert_source env s automatic_power_fires s.idle.automatic_power_timeout)
        (record (s.idle) { automatic_power_token = inserted env s })
    else s

unfoldable pub arm_activity_timers : Environment → State → State
unfolding cancel_all
arm_activity_timers env s =
    let cancelled = cancel_all s in
    let ready =
      with_idle cancelled (record (cancelled.idle) { automatic_power_triggered = false }) in
    if not s.idle.session_active
    then ready
    else arm_automatic_power env (arm_blank env (arm_dim env ready))
