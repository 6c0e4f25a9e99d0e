-- ===== src/Idle/Step.antt =====
-- The screensaver as a state machine: what may happen to it, one event after another.
use veshell.Base.{ℕ, ◌≡◌, ◌⊎◌, ◌==◌, Bool, true, not, List, [], ◌∷◌}
use veshell.Idle.IdleState.{
  IdleSettings, Callback, idle_dim_fires, fade_ticks, blank_fires, automatic_power_fires, Timer,
  State, Environment, is_active, with_idle,
}
use veshell.Idle.Timers.{arm_activity_timers, remove_timer}
use veshell.Idle.Stages.{
  on_session_paused, on_session_activated, on_prepare_for_sleep, on_activity, refresh_idle_inhibit,
  apply_idle_settings, fade_tick, idle_dim_fired, blank_fired, automatic_power_fired, retain,
}

pub data Event : Type 0 where
  -- the start of the compositor, and an input
  armed activity : Event
  session_paused session_activated : Event
  prepare_for_sleep dbus_inhibited : Bool → Event
  -- surfaces and captures that inhibit
  inhibit uninhibit : ℕ → Event
  capture : Bool → Bool → Event
  settings_changed : IdleSettings → Event
  -- a timer of the event loop fires at a time
  timer_fired : Timer → ℕ → Event

-- The callback runs; a timer that is not a fade's is dropped afterwards.
abbrev pub fire : Environment → State → Timer → Callback → ℕ → State
fire env s timer fade_ticks now = fade_tick s now
fire env s timer idle_dim_fires now =
    idle_dim_fired env (record s { timers = remove_timer timer.token s.timers }) now
fire env s timer blank_fires now =
    blank_fired env (record s { timers = remove_timer timer.token s.timers })
fire env s timer automatic_power_fires now =
    automatic_power_fired (record s { timers = remove_timer timer.token s.timers })

unfoldable pub step : Environment → State → Event → State
unfolding arm_activity_timers on_activity on_session_paused on_session_activated
    on_prepare_for_sleep refresh_idle_inhibit apply_idle_settings fade_tick idle_dim_fired
    blank_fired automatic_power_fired
step env s armed = arm_activity_timers env s
step env s activity = on_activity env s
step env s session_paused = on_session_paused s
step env s session_activated = on_session_activated env s
step env s (prepare_for_sleep sleeping) = on_prepare_for_sleep env s sleeping
step env s (dbus_inhibited inhibited) =
    refresh_idle_inhibit env (with_idle s (record (s.idle) { dbus_inhibited = inhibited }))
step env s (inhibit surface) =
    refresh_idle_inhibit env
      (with_idle s (record (s.idle) { inhibiting_surfaces = surface ∷ s.idle.inhibiting_surfaces }))
step env s (uninhibit surface) = refresh_idle_inhibit env (
    with_idle s (record (s.idle) {
      inhibiting_surfaces = retain (λ x. not (x == surface)) s.idle.inhibiting_surfaces;
    }))
step env s (capture session recording) =
    refresh_idle_inhibit env (record s { capture_session = session; recording_session = recording })
step env s (settings_changed settings) = apply_idle_settings env s settings
step env s (timer_fired timer now) = fire env s timer timer.callback now

abbrev pub Holds : List Timer → Timer → Type 0
Holds [] timer = ⊥
Holds (t ∷ ts) timer = (t ≡ timer) ⊎ Holds ts timer

-- The compositor starts in the first stage; a timer fires only while the event loop holds it.
abbrev pub Happens : State → Event → Type 0
Happens s armed = is_active s.idle.stage ≡ true
Happens s (timer_fired timer now) = Holds s.timers timer
Happens s _ = Unit
