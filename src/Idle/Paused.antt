-- ===== src/Idle/Paused.antt =====
-- A session in the background from its pause to its return (idle/mod.rs).
use veshell.Base.{◌≡◌, refl, ◌∙◌, true, false, not, List, [], ◌∷◌, if◌then◌else◌, if_holds}
use veshell.Idle.IdleState.{
  IdleSettings, State, Environment, set_is_inhibited, transparent, set_idle, is_active,
  is_inhibited, emit, with_idle,
}
use veshell.Idle.Timers.{cancel_all, arm_activity_timers}
use veshell.Idle.Stages.{
  on_session_paused, wake_up, on_activity, on_prepare_for_sleep, retain, refresh_idle_inhibit,
  set_timeouts, apply_idle_settings,
}
use veshell.Idle.Step.{
  Event, armed, activity, session_paused, session_activated, prepare_for_sleep, dbus_inhibited,
  inhibit, uninhibit, capture, settings_changed, timer_fired, step, Happens,
}
use veshell.Idle.Invariant.{Inv}
use veshell.Idle.Reach.{idle_step-Inv}
use veshell.Idle.Actions.{idle_actions, is_idle_action, emit-Quiet, no_timer, paused-Quiet}

abbrev IsPaused : State → Type 0
IsPaused s = s.idle.session_active ≡ false

arm-IsPaused : (env : Environment) (s : State) → IsPaused s → IsPaused (arm_activity_timers env s)
unfolding arm_activity_timers cancel_all
arm-IsPaused env s p = rw p refl

on_activity-IsPaused : (env : Environment) (s : State) → IsPaused s → IsPaused (on_activity env s)
unfolding on_activity
on_activity-IsPaused env s p = rw p refl

refresh-IsPaused :
    (env : Environment) (s : State) → IsPaused s → IsPaused (refresh_idle_inhibit env s)
unfolding refresh_idle_inhibit cancel_all
refresh-IsPaused env s p =
    let kept =
      with_idle s
        (record (s.idle) { inhibiting_surfaces = retain env.alive s.idle.inhibiting_surfaces }) in
    let told = emit kept (set_is_inhibited (is_inhibited kept)) in
    if_holds IsPaused (not (is_inhibited kept))
      (if is_active s.idle.stage then arm_activity_timers env told else told)
      (if not (is_active s.idle.stage) then wake_up told else cancel_all told)
      (λ _.
        if_holds IsPaused (is_active s.idle.stage) (arm_activity_timers env told) told
          (λ _. arm-IsPaused env told p) (λ _. p))
      (λ _.
        if_holds IsPaused (not (is_active s.idle.stage)) (wake_up told) (cancel_all told) (λ _. p)
          (λ _. p))

settings-IsPaused :
    (env : Environment) (s : State) (settings : IdleSettings)
    → IsPaused s
    → IsPaused (apply_idle_settings env s settings)
unfolding apply_idle_settings cancel_all
settings-IsPaused env s settings p =
    let t = set_timeouts s settings in
    if_holds IsPaused (is_active s.idle.stage)
      (if is_inhibited t then cancel_all t else arm_activity_timers env t) t
      (λ _.
        if_holds IsPaused (is_inhibited t) (cancel_all t) (arm_activity_timers env t) (λ _. p)
          (λ _. arm-IsPaused env t p))
      (λ _. p)

-- An event other than the session's return, which may happen.
abbrev InBackground : State → Event → Type 0
InBackground s session_activated = ⊥
InBackground s e = Happens s e

step-IsPaused :
    (env : Environment) (s : State) (e : Event)
    → Inv s
    → IsPaused s
    → InBackground s e
    → IsPaused (step env s e)
unfolding step on_session_paused on_prepare_for_sleep cancel_all
step-IsPaused env s armed v p h = arm-IsPaused env s p
step-IsPaused env s activity v p h = on_activity-IsPaused env s p
step-IsPaused env s session_paused v p h = refl
step-IsPaused env s session_activated v p h = absurd h
step-IsPaused env s (prepare_for_sleep true) v p h = p
step-IsPaused env s (prepare_for_sleep false) v p h = on_activity-IsPaused env s p
step-IsPaused env s (dbus_inhibited inhibited) v p h = refresh-IsPaused env _ p
step-IsPaused env s (inhibit surface) v p h = refresh-IsPaused env _ p
step-IsPaused env s (uninhibit surface) v p h = refresh-IsPaused env _ p
step-IsPaused env s (capture session recording) v p h =
    refresh-IsPaused env (record s { capture_session = session; recording_session = recording }) p
step-IsPaused env s (settings_changed settings) v p h = settings-IsPaused env s settings p
step-IsPaused env s (timer_fired timer now) v p h =
    absurd (no_timer s.idle s.timers timer v.recorded (v.pauses p).1 h)

background-Happens : (s : State) (e : Event) → InBackground s e → Happens s e
background-Happens s armed h = h
background-Happens s activity h = h
background-Happens s session_paused h = h
background-Happens s session_activated h = absurd h
background-Happens s (prepare_for_sleep sleeping) h = h
background-Happens s (dbus_inhibited inhibited) h = h
background-Happens s (inhibit surface) h = h
background-Happens s (uninhibit surface) h = h
background-Happens s (capture session recording) h = h
background-Happens s (settings_changed settings) h = h
background-Happens s (timer_fired timer now) h = h

unfoldable pub idle_run : Environment → State → List Event → State
unfolding step
idle_run env s [] = s
idle_run env s (e ∷ es) = idle_run env (step env s e) es

-- A run without the session's return, each of whose events may happen when it comes.
unfoldable pub RunsInBackground : Environment → State → List Event → Type 0
unfolding step
RunsInBackground env s [] = Unit
RunsInBackground env s (e ∷ es) = InBackground s e × RunsInBackground env (step env s e) es

background-Quiet :
    (env : Environment) (s : State) (es : List Event)
    → Inv s
    → IsPaused s
    → RunsInBackground env s es
    → idle_actions (idle_run env s es).effects ≡ idle_actions s.effects
unfolding idle_run RunsInBackground
background-Quiet env s [] v p h = refl
background-Quiet env s (e ∷ es) v p (b, later) =
    let happens = background-Happens s e b in
    background-Quiet env (step env s e) es (idle_step-Inv env s e v happens)
      (step-IsPaused env s e v p b) later
    ∙ paused-Quiet env s e v p happens

-- From the moment the session is paused, whatever the screensaver was doing, until it is
-- activated again, nothing dims or switches off a screen or sends a power action, whatever
-- happens in between. The state before satisfies the invariant, and a timer fires only while the
-- event loop holds it.
pub pause-Quiet :
    (env : Environment) (s : State) (es : List Event)
    → Inv s
    → RunsInBackground env (step env s session_paused) es
    → idle_actions (idle_run env (step env s session_paused) es).effects ≡ idle_actions s.effects
unfolding step on_session_paused cancel_all is_idle_action
pause-Quiet env s es v h =
    background-Quiet env (step env s session_paused) es (idle_step-Inv env s session_paused v tt)
      refl h
    ∙ emit-Quiet s (set_idle transparent false) refl
