-- ===== src/Lock/Step.antt =====
-- The lock as a state machine: what may happen to it, one event after another.
use Prim.Native.String.{String}
use veshell.Base.{ℕ, ◌≡◌, ◌⊎◌, true, List, [], ◌∷◌, Option}
use veshell.Lock.LockState.{
  AuthSource, fingerprint, AuthEvent, finished, AuthMessage, LockDbusEvent, State, Environment,
  with_lock, defer_keyboard_focus, forget_keyboard_focus,
}
use veshell.Lock.Session.{lock}
use veshell.Lock.Auth.{respond, on_auth_message, replay_to_shell}
use veshell.Lock.Sleep.{on_shown, on_dbus_event, release_timer_fired}

pub data Event : Type 0 where
  -- `lock_session`, `lock_auth_respond`, `lock_screen_shown` and the readiness of the shell
  lock_session : Event
  lock_auth_respond : String → Event
  lock_screen_shown shell_ready : Event
  dbus_event : LockDbusEvent → Event
  auth_message : AuthMessage → Event
  timer_fired : ℕ → Event
  focus_deferred : Option ℕ → Event
  focus_forgotten : ℕ → Event

unfoldable pub step : Environment → State → Event → State
unfolding lock respond on_shown replay_to_shell on_dbus_event on_auth_message release_timer_fired
    defer_keyboard_focus forget_keyboard_focus
step env s lock_session = lock env s true
step env s (lock_auth_respond response) = respond env s response
step env s lock_screen_shown = on_shown env s
step env s shell_ready = replay_to_shell s
step env s (dbus_event event) = on_dbus_event env s event
step env s (auth_message message) = on_auth_message env s message
step env s (timer_fired token) = release_timer_fired s token
step env s (focus_deferred target) = with_lock s (defer_keyboard_focus s.lock target)
step env s (focus_forgotten target) = with_lock s (forget_keyboard_focus s.lock target)

-- The outcome of a fingerprint transaction of this lock comes from the one that is running.
abbrev pub FromWorker : State → AuthSource → AuthEvent → Type 0
FromWorker s fingerprint (finished outcome) = s.lock.fingerprint_running ≡ true
FromWorker s _ _ = Unit

abbrev pub Holds : List ℕ → ℕ → Type 0
Holds [] token = ⊥
Holds (t ∷ ts) token = (t ≡ token) ⊎ Holds ts token

-- What the workers and the event loop keep to: a timer fires only while the loop holds it.
abbrev pub Happens : State → Event → Type 0
Happens s (auth_message message) =
    message.generation ≡ s.lock.generation → FromWorker s message.source message.event
Happens s (timer_fired token) = Holds s.release_timers token
Happens s _ = Unit
