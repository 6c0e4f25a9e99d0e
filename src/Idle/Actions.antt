-- ===== src/Idle/Actions.antt =====
-- What the screensaver does to the screens and the machine, and when.
use veshell.Base.{
  ℕ, ◌≡◌, refl, ◌∙◌, ap, Bool, true, false, ◌||◌, not, List, [], ◌∷◌, none, ◌==◌, if◌then◌else◌,
  if_holds, count_if, count_if-emit,
}
use veshell.Idle.IdleState.{
  IdleState, IdleSettings, Timer, State, Environment, Effect, notify_activity, request_render,
  apply_blank, set_is_inhibited, set_idle, send_power_action, transparent, is_active, is_inhibited,
  emit, with_idle, wake,
}
use veshell.Idle.Timers.{cancel_all, arm_activity_timers}
use veshell.Idle.Stages.{
  on_session_paused, wake_up, on_activity, on_session_activated, on_prepare_for_sleep, retain,
  refresh_idle_inhibit, set_timeouts, apply_idle_settings,
}
use veshell.Idle.Step.{
  Event, armed, activity, session_paused, session_activated, prepare_for_sleep, dbus_inhibited,
  inhibit, uninhibit, capture, settings_changed, timer_fired, step, Holds, Happens,
}
use veshell.Idle.Unchanged.{arm-Unchanged}
use veshell.Idle.Invariant.{Inv}
use veshell.Idle.Recorded.{AllRecorded, none_recorded}

-- A dimmed or switched off screen, or a power action.
unfoldable pub is_idle_action : Effect → Bool
is_idle_action (set_idle alpha is_off) = not (alpha.numerator == 0) || is_off
is_idle_action apply_blank = true
is_idle_action (send_power_action action) = true
is_idle_action notify_activity = false
is_idle_action request_render = false
is_idle_action (set_is_inhibited inhibited) = false

unfoldable pub idle_actions : List Effect → ℕ
idle_actions es = count_if is_idle_action es

abbrev Quiet : List Effect → State → Type 0
Quiet es t = idle_actions t.effects ≡ idle_actions es

pub emit-Quiet : (s : State) (e : Effect) → is_idle_action e ≡ false → Quiet s.effects (emit s e)
unfolding idle_actions
emit-Quiet s e h = count_if-emit is_idle_action s.effects e h

arm-Quiet :
    (env : Environment) (s : State) (es : List Effect)
    → Quiet es s
    → Quiet es (arm_activity_timers env s)
arm-Quiet env s es h = ap idle_actions (arm-Unchanged env s).0 ∙ h

wake_up-Quiet : (s : State) (es : List Effect) → Quiet es s → Quiet es (wake_up s)
unfolding cancel_all is_idle_action
wake_up-Quiet s es h =
    emit-Quiet (wake s) request_render refl ∙ emit-Quiet s (set_idle transparent false) refl ∙ h

on_activity-Quiet : (env : Environment) (s : State) → Quiet s.effects (on_activity env s)
unfolding on_activity is_idle_action
on_activity-Quiet env s =
    let noted = emit s notify_activity in
    let awake = if not (is_active s.idle.stage) then wake_up noted else noted in
    let quiet = emit-Quiet s notify_activity refl in
    let awake-Quiet =
      if_holds (Quiet s.effects) (not (is_active s.idle.stage)) (wake_up noted) noted
        (λ _. wake_up-Quiet noted s.effects quiet) (λ _. quiet) in
    if_holds (Quiet s.effects) (not s.idle.session_active) noted
      (if not (is_inhibited awake) then arm_activity_timers env awake else awake) (λ _. quiet)
      λ _.
        if_holds (Quiet s.effects) (not (is_inhibited awake)) (arm_activity_timers env awake) awake
          (λ _. arm-Quiet env awake s.effects awake-Quiet) (λ _. awake-Quiet)

refresh-Quiet : (env : Environment) (s : State) → Quiet s.effects (refresh_idle_inhibit env s)
unfolding refresh_idle_inhibit is_idle_action cancel_all
refresh-Quiet env s =
    let kept =
      with_idle s
        (record (s.idle) { inhibiting_surfaces = retain env.alive s.idle.inhibiting_surfaces }) in
    let told = emit kept (set_is_inhibited (is_inhibited kept)) in
    let quiet = emit-Quiet kept (set_is_inhibited (is_inhibited kept)) refl in
    if_holds (Quiet s.effects) (not (is_inhibited kept))
      (if is_active s.idle.stage then arm_activity_timers env told else told)
      (if not (is_active s.idle.stage) then wake_up told else cancel_all told)
      (λ _.
        if_holds (Quiet s.effects) (is_active s.idle.stage) (arm_activity_timers env told) told
          (λ _. arm-Quiet env told s.effects quiet) (λ _. quiet))
      (λ _.
        if_holds (Quiet s.effects) (not (is_active s.idle.stage)) (wake_up told) (cancel_all told)
          (λ _. wake_up-Quiet told s.effects quiet) (λ _. quiet))

settings-Quiet :
    (env : Environment) (s : State) (settings : IdleSettings)
    → Quiet s.effects (apply_idle_settings env s settings)
unfolding apply_idle_settings cancel_all
settings-Quiet env s settings =
    let t = set_timeouts s settings in
    if_holds (Quiet s.effects) (is_active s.idle.stage)
      (if is_inhibited t then cancel_all t else arm_activity_timers env t) t
      (λ _.
        if_holds (Quiet s.effects) (is_inhibited t) (cancel_all t) (arm_activity_timers env t)
          (λ _. refl) (λ _. arm-Quiet env t s.effects refl))
      (λ _. refl)

pub no_timer :
    (i : IdleState) (ts : List Timer) (timer : Timer)
    → AllRecorded i.dim_token i.blank_token i.fade_token i.automatic_power_token ts
    → (i.dim_token ≡ none)
      × (i.blank_token ≡ none)
      × (i.fade_token ≡ none)
      × (i.automatic_power_token ≡ none)
    → Holds ts timer
    → ⊥
no_timer i ts timer r (d, b, f, p) h = empty ts (none_recorded ts (rw (d, b, f, p) at r)) h
  where
    empty : (us : List Timer) → us ≡ [] → Holds us timer → ⊥
    empty [] e h = h
    empty (u ∷ us) e h = cc

-- While the session is paused (another terminal is in front), in any state that satisfies the
-- invariant, no event dims or switches off a screen or sends a power action.
pub paused-Quiet :
    (env : Environment) (s : State) (e : Event)
    → Inv s
    → s.idle.session_active ≡ false
    → Happens s e
    → idle_actions (step env s e).effects ≡ idle_actions s.effects
unfolding step on_session_paused on_session_activated on_prepare_for_sleep cancel_all is_idle_action
paused-Quiet env s armed v p h = arm-Quiet env s s.effects refl
paused-Quiet env s activity v p h = on_activity-Quiet env s
paused-Quiet env s session_paused v p h = emit-Quiet s (set_idle transparent false) refl
paused-Quiet env s session_activated v p h =
    on_activity-Quiet env (with_idle s (record (s.idle) { session_active = true }))
paused-Quiet env s (prepare_for_sleep true) v p h = emit-Quiet s (set_idle transparent false) refl
paused-Quiet env s (prepare_for_sleep false) v p h = on_activity-Quiet env s
paused-Quiet env s (dbus_inhibited inhibited) v p h = refresh-Quiet env _
paused-Quiet env s (inhibit surface) v p h = refresh-Quiet env _
paused-Quiet env s (uninhibit surface) v p h = refresh-Quiet env _
paused-Quiet env s (capture session recording) v p h =
    refresh-Quiet env (record s { capture_session = session; recording_session = recording })
paused-Quiet env s (settings_changed settings) v p h = settings-Quiet env s settings
paused-Quiet env s (timer_fired timer now) v p h =
    absurd (no_timer s.idle s.timers timer v.recorded (v.pauses p).1 h)
