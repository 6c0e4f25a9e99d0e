-- ===== src/Idle/Stages.antt =====
-- The stages of the screensaver, from idle/mod.rs.
use veshell.Base.{
  ℕ, ◌-◌, Bool, true, false, ◌||◌, not, List, [], ◌∷◌, Option, none, some, leb, ◌==◌, if◌then◌else◌,
}
use veshell.Idle.IdleState.{
  active, fading, dimmed, blank, Alpha, transparent, opaque, IdleSettings, fade_ticks, State,
  Environment, notify_activity, request_render, apply_blank, set_is_inhibited, set_idle,
  send_power_action, nanoseconds, fade_tick_interval, is_active, is_blank_stage, is_inhibited, emit,
  emit_if, with_idle, wake,
}
use veshell.Idle.Timers.{
  cancel_all, cancel_visual_timers, arm_activity_timers, insert_source, inserted, remove_token,
}

unfoldable pub on_session_paused : State → State
unfolding cancel_all
on_session_paused s =
    let paused = with_idle s (record (s.idle) { session_active = false }) in
    let cancelled = cancel_all paused in
    wake (with_idle cancelled (record (cancelled.idle) { dim_alpha = transparent; stage = active }))

-- Back to `Active`, with the level that the user chose.
abbrev pub wake_up : State → State
wake_up s =
    let cancelled = cancel_all (with_idle s (record (s.idle) { dim_alpha = transparent })) in
    emit (wake (with_idle cancelled (record (cancelled.idle) { stage = active }))) request_render

unfoldable pub on_activity : Environment → State → State
unfolding cancel_all arm_activity_timers
on_activity env s =
    let noted = emit s notify_activity in
    let awake = if not (is_active s.idle.stage) then wake_up noted else noted in
    if not s.idle.session_active
    then noted
    else if not (is_inhibited awake)
    then arm_activity_timers env awake
    else awake

unfoldable pub on_session_activated : Environment → State → State
unfolding on_activity
on_session_activated env s =
    on_activity env (with_idle s (record (s.idle) { session_active = true }))

unfoldable pub on_prepare_for_sleep : Environment → State → Bool → State
unfolding cancel_all on_activity
on_prepare_for_sleep env s sleeping = if sleeping then wake (cancel_all s) else on_activity env s

unfoldable pub retain : (ℕ → Bool) → List ℕ → List ℕ
retain keeps [] = []
retain keeps (x ∷ xs) = let rest = retain keeps xs in if keeps x then x ∷ rest else rest

unfoldable pub refresh_idle_inhibit : Environment → State → State
unfolding cancel_all arm_activity_timers
refresh_idle_inhibit env s =
    let kept =
      with_idle s
        (record (s.idle) { inhibiting_surfaces = retain env.alive s.idle.inhibiting_surfaces }) in
    let told = emit kept (set_is_inhibited (is_inhibited kept)) in
    if not (is_inhibited kept)
    then if is_active s.idle.stage then arm_activity_timers env told else told
    else if not (is_active s.idle.stage)
    then wake_up told
    else cancel_all told

abbrev pub set_timeouts : State → IdleSettings → State
set_timeouts s settings = with_idle s (record (s.idle) {
  dim_timeout = nanoseconds settings.dim_timeout_seconds;
  blank_timeout = nanoseconds settings.blank_timeout_seconds;
  fade_duration = settings.fade_nanoseconds;
  automatic_power_action = settings.automatic_power_action;
  automatic_power_timeout = nanoseconds settings.automatic_power_timeout_seconds;
})

unfoldable pub apply_idle_settings : Environment → State → IdleSettings → State
unfolding cancel_all arm_activity_timers
apply_idle_settings env s settings =
    let t = set_timeouts s settings in
    if is_active s.idle.stage
    then if is_inhibited t then cancel_all t else arm_activity_timers env t
    else t

abbrev pub progress : ℕ → ℕ → Alpha
progress elapsed duration = if duration == 0 then opaque else record {
  numerator = if leb elapsed duration then elapsed else duration;
  denominator = duration;
}

abbrev pub is_opaque : Alpha → Bool
is_opaque a = leb a.denominator a.numerator

abbrev pub end_fade : State → State
end_fade s = record s {
  idle = record (s.idle) { fade_started = none; fade_token = none; stage = dimmed };
  timers = remove_token s.idle.fade_token s.timers;
}

abbrev pub tick : State → Alpha → State
tick s alpha =
    let shown =
      emit (emit (with_idle s (record (s.idle) { dim_alpha = alpha })) (set_idle alpha false))
        request_render in
    if is_opaque alpha then end_fade shown else shown

-- The time of the call stands for the clock that `elapsed` reads.
abbrev pub tick_from : Option ℕ → State → ℕ → State
tick_from none s now = s
tick_from (some fade_started) s now = tick s (progress (now - fade_started) s.idle.fade_duration)

unfoldable pub fade_tick : State → ℕ → State
fade_tick s now = tick_from s.idle.fade_started s now

abbrev pub first_interval : ℕ → ℕ
first_interval fade_duration =
    if leb fade_tick_interval fade_duration then fade_tick_interval else fade_duration

abbrev pub start_fade : Environment → State → ℕ → State
start_fade env s now =
    with_idle (insert_source env s fade_ticks (first_interval s.idle.fade_duration))
      (record (s.idle) {
        dim_token = none;
        stage = fading;
        fade_started = some now;
        fade_token = inserted env s;
      })

unfoldable pub idle_dim_fired : Environment → State → ℕ → State
unfolding fade_tick
idle_dim_fired env s now = fade_tick (start_fade env s now) now

abbrev pub blank_now : Environment → State → State
blank_now env s =
    let dark = cancel_visual_timers (
      emit (with_idle s (record (s.idle) { blank_token = none; dim_alpha = opaque }))
        (set_idle opaque true)) in
    if env.can_blank
    then emit (with_idle dark (record (dark.idle) { stage = blank })) apply_blank
    else emit (with_idle dark (record (dark.idle) { stage = dimmed })) request_render

unfoldable pub blank_fired : Environment → State → State
unfolding cancel_visual_timers
blank_fired env s = if is_blank_stage s.idle.stage then s else blank_now env s

unfoldable pub automatic_power_fired : State → State
automatic_power_fired s =
    let fired = with_idle s (record (s.idle) { automatic_power_token = none }) in
    let triggered = with_idle fired (record (fired.idle) { automatic_power_triggered = true }) in
    if not s.idle.session_active || (s.idle.automatic_power_triggered || is_inhibited s)
    then fired
    else emit_if triggered s.idle.power_sender (send_power_action s.idle.automatic_power_action)
