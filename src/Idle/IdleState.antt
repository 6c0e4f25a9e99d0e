-- ===== src/Idle/IdleState.antt =====
-- The state of idle/mod.rs, and what it shares with the event loop and the capture sessions.
use veshell.Base.{
  ℕ, ◌*◌, Bool, true, false, ◌||◌, not, List, [], ◌∷◌, ◌++◌, Option, none, if◌then◌else◌,
}

pub data IdleStage : Type 0 where
  active fading dimmed blank : IdleStage

pub data AutomaticPowerAction : Type 0 where
  disabled suspend hibernate suspend_then_hibernate : AutomaticPowerAction

-- An alpha between 0 and 1, as an exact fraction.
pub record Alpha : Type 0 where
  pub numerator : ℕ
  pub denominator : ℕ

abbrev pub transparent : Alpha
transparent = record { numerator = 0; denominator = 1 }

abbrev pub opaque : Alpha
opaque = record { numerator = 1; denominator = 1 }

-- Times are in nanoseconds; a fade is given in the settings as one.
pub record IdleSettings : Type 0 where
  pub dim_timeout_seconds : ℕ
  pub blank_timeout_seconds : ℕ
  pub fade_nanoseconds : ℕ
  pub automatic_power_action : AutomaticPowerAction
  pub automatic_power_timeout_seconds : ℕ

pub record IdleState : Type 0 where
  pub stage : IdleStage
  pub dim_alpha : Alpha
  pub hardware_brightness : Bool
  pub dim_timeout : ℕ
  pub blank_timeout : ℕ
  pub fade_duration : ℕ
  pub automatic_power_action : AutomaticPowerAction
  pub automatic_power_timeout : ℕ
  pub fade_started : Option ℕ
  pub dim_token : Option ℕ
  pub blank_token : Option ℕ
  pub fade_token : Option ℕ
  pub automatic_power_token : Option ℕ
  pub automatic_power_triggered : Bool
  pub inhibiting_surfaces : List ℕ
  pub dbus_inhibited : Bool
  pub session_active : Bool
  pub power_sender : Bool

-- The four callbacks that the machine gives the event loop.
pub data Callback : Type 0 where
  idle_dim_fires fade_ticks blank_fires automatic_power_fires : Callback

pub record Timer : Type 0 where
  pub token : ℕ
  pub callback : Callback
  pub delay : ℕ

pub data Effect : Type 0 where
  notify_activity request_render apply_blank : Effect
  set_is_inhibited : Bool → Effect
  set_idle : Alpha → Bool → Effect
  send_power_action : AutomaticPowerAction → Effect

pub record State : Type 0 where
  pub idle : IdleState
  pub timers : List Timer
  pub next_token : ℕ
  pub capture_session : Bool
  pub recording_session : Bool
  pub effects : List Effect

-- The backend, the surfaces that are alive, and whether the event loop takes a timer.
pub record Environment : Type 0 where
  pub can_blank : Bool
  pub alive : ℕ → Bool
  pub takes_timers : Bool

abbrev pub nanoseconds : ℕ → ℕ
nanoseconds seconds = seconds * 1000000000

abbrev pub fade_tick_interval : ℕ
fade_tick_interval = 40000000

unfoldable pub new : IdleSettings → Bool → Bool → IdleState
new settings hardware_brightness runs_portal_backend = record {
  stage = active;
  dim_alpha = transparent;
  hardware_brightness = hardware_brightness;
  dim_timeout = nanoseconds settings.dim_timeout_seconds;
  blank_timeout = nanoseconds settings.blank_timeout_seconds;
  fade_duration = settings.fade_nanoseconds;
  automatic_power_action = settings.automatic_power_action;
  automatic_power_timeout = nanoseconds settings.automatic_power_timeout_seconds;
  fade_started = none;
  dim_token = none;
  blank_token = none;
  fade_token = none;
  automatic_power_token = none;
  automatic_power_triggered = false;
  inhibiting_surfaces = [];
  dbus_inhibited = false;
  session_active = true;
  power_sender = runs_portal_backend;
}

unfoldable pub dim_alpha : IdleState → Alpha
dim_alpha i = if i.hardware_brightness then transparent else i.dim_alpha

abbrev pub is_active : IdleStage → Bool
is_active active = true
is_active _ = false

abbrev pub is_blank_stage : IdleStage → Bool
is_blank_stage blank = true
is_blank_stage _ = false

unfoldable pub is_blank : IdleState → Bool
is_blank i = is_blank_stage i.stage

abbrev pub is_disabled : AutomaticPowerAction → Bool
is_disabled disabled = true
is_disabled _ = false

abbrev pub is_empty : List ℕ → Bool
is_empty [] = true
is_empty (x ∷ xs) = false

unfoldable pub is_inhibited : State → Bool
is_inhibited s =
    s.idle.dbus_inhibited
    || (not (is_empty s.idle.inhibiting_surfaces) || (s.capture_session || s.recording_session))

abbrev pub emit : State → Effect → State
emit s e = record s { effects = s.effects ++ (e ∷ []) }

abbrev pub emit_if : State → Bool → Effect → State
emit_if s test e = record s { effects = s.effects ++ (if test then e ∷ [] else []) }

abbrev pub with_idle : State → IdleState → State
with_idle s i = record s { idle = i }

-- `brightness.wake`.
abbrev pub wake : State → State
wake s = emit s (set_idle transparent false)
