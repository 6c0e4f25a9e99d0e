-- ===== src/Lock/LockState.antt =====
-- The state of lock/mod.rs, the messages of lock/pam.rs and lock/dbus.rs, and the part of the
-- compositor's state that locking touches. `effects` is what was asked of the rest so far, in
-- order; a keyboard or pointer target, a timer and a PAM transaction are numbers.
use Prim.Native.String.{String}
use veshell.Base.{
  ℕ, Bool, false, ◌&&◌, not, List, [], ◌∷◌, ◌++◌, Option, none, some, ◌==◌, if◌then◌else◌,
}

pub data AuthSource : Type 0 where
  password fingerprint : AuthSource

pub data AuthOutcome : Type 0 where
  success rejected : AuthOutcome
  failed : String → AuthOutcome
  unavailable : AuthOutcome

pub data AuthEvent : Type 0 where
  prompt : String → Bool → AuthEvent
  info error : String → AuthEvent
  finished : AuthOutcome → AuthEvent

pub record AuthMessage : Type 0 where
  pub generation : ℕ
  pub source : AuthSource
  pub event : AuthEvent

pub data LockDbusEvent : Type 0 where
  locks unlocks prepare_for_sleep resumed : LockDbusEvent

pub data LockDbusCommand : Type 0 where
  set_locked_hint : Bool → LockDbusCommand
  release_sleep_inhibitor : LockDbusCommand

pub data Effect : Type 0 where
  cancel_capture_session end_floating_move end_floating_resize : Effect
  release_game_mode_forwarded_keys clear_super_key_forwarding release_flutter_keys : Effect
  refresh_pointer_focus request_render : Effect
  set_focus : Option ℕ → Effect
  -- a PAM worker: its transaction, source, service and generation
  spawn : ℕ → AuthSource → String → ℕ → Effect
  answer : ℕ → String → Effect
  lock_auth_update : AuthSource → String → String → Bool → Effect
  lock_state_changed : Bool → Effect
  dbus_command : LockDbusCommand → Effect
  -- a timer of the event loop, in milliseconds
  insert_timer : ℕ → ℕ → Effect

pub record LockState : Type 0 where
  pub locked : Bool
  pub generation : ℕ
  pub saved_keyboard_focus : Option ℕ
  pub password : Option ℕ
  pub password_prompted : Bool
  pub pending_prompt : Option (String × Bool)
  pub queued_response : Option String
  pub fingerprint_running : Bool
  pub fingerprint_failures : ℕ
  pub fingerprint_message : Option (String × String)
  pub fingerprint_available : Option Bool
  pub shown : Bool
  pub sleep_pending : Bool
  pub sleep_release_token : Option ℕ
  pub dbus : Bool

pub record State : Type 0 where
  pub lock : LockState
  pub capture_session : Bool
  pub keyboard_focus : Option ℕ
  pub pointer_focus : Option ℕ
  pub gaming_mode : Bool
  pub flutter_engine : Bool
  -- the release timers that the event loop still holds, and the next free numbers
  pub release_timers : List ℕ
  pub next_timer : ℕ
  pub next_transaction : ℕ
  pub effects : List Effect

-- What the lock asks of the system: the installed PAM services, the targets that are alive, and
-- whether the event loop takes a timer.
pub record Environment : Type 0 where
  pub service_installed : String → Bool
  pub alive : ℕ → Bool
  pub takes_timers : Bool

abbrev pub fingerprint_attempts : ℕ
fingerprint_attempts = 3

abbrev pub sleep_release_delay : ℕ
sleep_release_delay = 150

abbrev pub sleep_draw_grace : ℕ
sleep_draw_grace = 500

unfoldable pub new : Bool → LockState
new dbus = record {
  locked = false;
  generation = 0;
  saved_keyboard_focus = none;
  password = none;
  password_prompted = false;
  pending_prompt = none;
  queued_response = none;
  fingerprint_running = false;
  fingerprint_failures = 0;
  fingerprint_message = none;
  fingerprint_available = none;
  shown = false;
  sleep_pending = false;
  sleep_release_token = none;
  dbus = dbus;
}

abbrev pub emit : State → Effect → State
emit s e = record s { effects = s.effects ++ (e ∷ []) }

-- An effect on a condition.
abbrev pub emit_if : State → Bool → Effect → State
emit_if s test e = record s { effects = s.effects ++ (if test then e ∷ [] else []) }

abbrev pub with_lock : State → LockState → State
with_lock s l = record s { lock = l }

abbrev pub is_locked : State → Bool
is_locked s = s.lock.locked

unfoldable pub command : State → LockDbusCommand → State
command s c = emit_if s s.lock.dbus (dbus_command c)

unfoldable pub defer_keyboard_focus : LockState → Option ℕ → LockState
defer_keyboard_focus l target = record l { saved_keyboard_focus = target }

abbrev pub is_target : Option ℕ → ℕ → Bool
is_target none target = false
is_target (some t) target = t == target

unfoldable pub forget_keyboard_focus : LockState → ℕ → LockState
forget_keyboard_focus l target =
    if is_target l.saved_keyboard_focus target then record l { saved_keyboard_focus = none } else l

unfoldable pub gaming_input_active : State → Bool
gaming_input_active s = s.gaming_mode && not (is_locked s)

unfoldable pub client_pointer_focus : State → Option ℕ
client_pointer_focus s = if is_locked s then none else s.pointer_focus

unfoldable pub send_auth_message : State → AuthSource → String → String → Bool → State
send_auth_message s source kind message echo =
    emit_if s s.flutter_engine (lock_auth_update source kind message echo)

unfoldable pub notify_lock_state : State → State
notify_lock_state s = emit_if s s.flutter_engine (lock_state_changed s.lock.locked)

-- `keyboard.set_focus`.
unfoldable pub focus_keyboard : State → Option ℕ → State
focus_keyboard s target = emit (record s { keyboard_focus = target }) (set_focus target)
