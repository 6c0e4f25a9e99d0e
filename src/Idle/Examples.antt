-- ===== src/Idle/Examples.antt =====
-- A screensaver that dims, is woken and is paused.
use veshell.Base.{◌≡◌, refl, true, false, List, ◌∷◌, [], inl, inr}
use veshell.Idle.IdleState.{
  suspend, IdleSettings, idle_dim_fires, Timer, State, Environment, new, transparent, is_active,
  is_inhibited,
}
use veshell.Idle.Stages.{fade_tick}
use veshell.Idle.Step.{
  Event, prepare_for_sleep, armed, activity, session_paused, timer_fired, dbus_inhibited, step,
}
use veshell.Idle.Invariant.{Inv, is_dark}
use veshell.Idle.Reach.{Reach, started, idle_step-Inv, idle_run-Inv}
use veshell.Idle.Actions.{idle_actions}
use veshell.Idle.Paused.{idle_run, RunsInBackground, pause-Quiet}
use veshell.Idle.Schedule.{scheduled, wanted}
use veshell.Idle.Wake.{activity-scheduled, fade_tick-dark}

abbrev panel : Environment
panel = record { can_blank = true; alive = λ _. true; takes_timers = true }

abbrev five_minutes : IdleSettings
five_minutes = record {
  dim_timeout_seconds = 300;
  blank_timeout_seconds = 600;
  fade_nanoseconds = 3000000000;
  automatic_power_action = suspend;
  automatic_power_timeout_seconds = 0;
}

abbrev fresh : State
fresh = record {
  idle = new five_minutes false true;
  timers = [];
  next_token = 0;
  capture_session = false;
  recording_session = false;
  effects = [];
}

abbrev waiting : State
waiting = step panel fresh armed

abbrev dim_timer : Timer
dim_timer = record { token = 0; callback = idle_dim_fires; delay = 300000000000 }

-- The dim timer fires five minutes after the start.
abbrev fading_out : State
fading_out = step panel waiting (timer_fired dim_timer 300000000000)

fresh-Reach : Reach panel fresh
fresh-Reach = started fresh five_minutes false true refl refl

waiting-Inv : Inv waiting
unfolding new
waiting-Inv = idle_step-Inv panel fresh armed (idle_run-Inv panel fresh fresh-Reach) refl

fading_out-Inv : Inv fading_out
unfolding step new
fading_out-Inv =
    idle_step-Inv panel waiting (timer_fired dim_timer 300000000000) waiting-Inv (inr (inl refl))

idle_step-Inv_example : Inv fading_out
unfolding step new
idle_step-Inv_example =
    idle_step-Inv panel waiting (timer_fired dim_timer 300000000000) waiting-Inv (inr (inl refl))

-- Paused in the middle of a fade; then an inhibitor goes, and there is an input.
abbrev background : List Event
background = dbus_inhibited false ∷ activity ∷ prepare_for_sleep true ∷ []

pause-Quiet_example :
    idle_actions (idle_run panel (step panel fading_out session_paused) background).effects
    ≡ idle_actions fading_out.effects
unfolding RunsInBackground
pause-Quiet_example = pause-Quiet panel fading_out background fading_out-Inv (tt, (tt, (tt, tt)))

activity-scheduled_example :
    (is_active (step panel fading_out activity).idle.stage ≡ true)
    × ((step panel fading_out activity).idle.dim_alpha ≡ transparent)
    × (scheduled (step panel fading_out activity).timers ≡ wanted fading_out.idle)
unfolding step new is_inhibited
activity-scheduled_example = activity-scheduled panel fading_out refl fading_out-Inv refl refl

after_the_fade : is_dark (fade_tick fading_out 303000000000).idle.stage ≡ true
unfolding step new
after_the_fade = fade_tick-dark fading_out 300000000000 303000000000 refl refl
