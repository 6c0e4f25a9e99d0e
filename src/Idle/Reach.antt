-- ===== src/Idle/Reach.antt =====
-- The screensaver's invariant, event by event and in a run (idle/mod.rs).
use veshell.Base.{◌≡◌, refl, sym, subst, Bool, List, []}
use veshell.Idle.IdleState.{new, IdleSettings, IdleState, Timer, State, Environment}
use veshell.Idle.Step.{
  Event, armed, activity, session_paused, session_activated, prepare_for_sleep, dbus_inhibited,
  inhibit, uninhibit, capture, settings_changed, timer_fired, step, Happens,
}
use veshell.Idle.Keeps.{
  on_session_paused-Inv, on_activity-Inv, on_session_activated-Inv, on_prepare_for_sleep-Inv,
  refresh_idle_inhibit-Inv, apply_idle_settings-Inv,
}
use veshell.Idle.Firing.{fire-Inv}
use veshell.Idle.Recorded.{Holds-slot}
use veshell.Idle.Invariant.{PartsOf, Inv, Idles-Parts}
use veshell.Idle.Arming.{arm_activity_timers-Inv}

-- Whatever happens next, from a state that satisfies the invariant (the event loop holds no
-- timer of the screensaver but the recorded ones; a dim timer waits in the first stage only, a
-- fade timer runs in the fade only, no blank timer waits once the screen is blank; the overlay is
-- transparent in the first stage and opaque once dimmed or blank; a paused session is in the
-- first stage without timers), the next state satisfies it. It is assumed that a timer fires only
-- while the event loop holds it, and that the compositor starts in the first stage.
pub idle_step-Inv :
    (env : Environment) (s : State) (e : Event) → Inv s → Happens s e → Inv (step env s e)
unfolding step
idle_step-Inv env s armed v h = arm_activity_timers-Inv env s v h
idle_step-Inv env s activity v h = on_activity-Inv env s v
idle_step-Inv env s session_paused v h = on_session_paused-Inv s v
idle_step-Inv env s session_activated v h = on_session_activated-Inv env s v
idle_step-Inv env s (prepare_for_sleep sleeping) v h = on_prepare_for_sleep-Inv env s sleeping v
idle_step-Inv env s (dbus_inhibited inhibited) v h = refresh_idle_inhibit-Inv env _ v
idle_step-Inv env s (inhibit surface) v h = refresh_idle_inhibit-Inv env _ v
idle_step-Inv env s (uninhibit surface) v h = refresh_idle_inhibit-Inv env _ v
idle_step-Inv env s (capture session recording) v h =
    refresh_idle_inhibit-Inv env
      (record s { capture_session = session; recording_session = recording }) v
idle_step-Inv env s (settings_changed settings) v h = apply_idle_settings-Inv env s settings v
idle_step-Inv env s (timer_fired timer now) v h =
    fire-Inv env s timer timer.callback now (Holds-slot _ _ _ _ s.timers timer v.recorded h) v

-- The states that a run reaches from the start of the compositor.
pub data Reach (env : Environment) : State → Type 0 where
  started :
      (s : State) (settings : IdleSettings) (hardware portal : Bool)
      → s.idle ≡ new settings hardware portal
      → s.timers ≡ []
      → Reach env s
  stepped : (s : State) (e : Event) → Reach env s → Happens s e → Reach env (step env s e)

new-Inv :
    (i : IdleState) (ts : List Timer) (settings : IdleSettings) (hardware portal : Bool)
    → i ≡ new settings hardware portal
    → ts ≡ []
    → PartsOf i ts
unfolding new
new-Inv i ts settings hardware portal p q =
    subst (λ i. PartsOf i ts) (sym p)
      (subst (PartsOf (new settings hardware portal)) (sym q)
        (Idles-Parts (new settings hardware portal) (refl, refl, refl, refl) refl (λ _. refl)))

-- Every state that a run reaches satisfies the invariant.
pub idle_run-Inv : (env : Environment) (s : State) → Reach env s → Inv s
idle_run-Inv env _ (started s settings hardware portal p q) =
    new-Inv s.idle s.timers settings hardware portal p q
idle_run-Inv env _ (stepped t e r h) = idle_step-Inv env t e (idle_run-Inv env t r) h
