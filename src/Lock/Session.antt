-- ===== src/Lock/Session.antt =====
-- `lock`, `unlock` and the start of the PAM transactions, from lock/mod.rs.
use Prim.Native.String.{String}
use veshell.Base.{
  ℕ, suc, Bool, true, false, ◌&&◌, ◌||◌, not, List, [], ◌∷◌, Option, none, some, ltb, ◌==◌,
  if◌then◌else◌,
}
use veshell.Lock.LockState.{
  password, fingerprint, cancel_capture_session, end_floating_move, end_floating_resize,
  release_game_mode_forwarded_keys, clear_super_key_forwarding, release_flutter_keys,
  refresh_pointer_focus, request_render, spawn, set_locked_hint, State, Environment,
  fingerprint_attempts, emit, emit_if, with_lock, command, notify_lock_state, focus_keyboard,
}

abbrev pub password_file : String
password_file = "veshell"

abbrev pub fingerprint_file : String
fingerprint_file = "veshell-fingerprint"

-- Without the program's own file the system's `login` authenticates.
unfoldable pub password_service : Environment → String
password_service env = if env.service_installed password_file then password_file else "login"

abbrev pub is_unavailable : Option Bool → Bool
is_unavailable (some false) = true
is_unavailable _ = false

unfoldable pub fingerprint_allowed : Option Bool → Bool → ℕ → Bool
fingerprint_allowed available running failures =
    not (is_unavailable available) && (not running && ltb failures fingerprint_attempts)

unfoldable pub start_password : Environment → State → State
start_password env s =
    emit
      (record s {
        lock = record (s.lock) {
          password_prompted = false;
          pending_prompt = none;
          password = some s.next_transaction;
        };
        next_transaction = suc s.next_transaction;
      })
      (spawn s.next_transaction password (password_service env) s.lock.generation)

unfoldable pub start_fingerprint : Environment → State → State
start_fingerprint env s =
    if not (
        fingerprint_allowed s.lock.fingerprint_available s.lock.fingerprint_running
          s.lock.fingerprint_failures)
      || not (env.service_installed fingerprint_file)
    then s
    else emit
        (record s {
          lock = record (s.lock) { fingerprint_running = true };
          next_transaction = suc s.next_transaction;
        })
        (spawn s.next_transaction fingerprint fingerprint_file s.lock.generation)

-- Every input path is taken away from the clients.
unfoldable pub take_input : State → State
take_input s =
    let ended = record (emit_if s s.capture_session cancel_capture_session) {
      capture_session = false;
    } in
    let t =
      emit
        (emit (emit (emit ended end_floating_move) end_floating_resize)
          release_game_mode_forwarded_keys)
        clear_super_key_forwarding in
    let saved = with_lock t (record (t.lock) { saved_keyboard_focus = t.keyboard_focus }) in
    emit (focus_keyboard saved none) refresh_pointer_focus

abbrev pub start_authentication : Environment → Bool → State → State
start_authentication env true s = start_fingerprint env (start_password env s)
start_authentication env false s =
    with_lock s (record (s.lock) { password = none; pending_prompt = none })

-- The state from which the session takes the input.
abbrev pub locking : State → State
locking s = with_lock s (record (s.lock) {
  locked = true;
  generation = suc s.lock.generation;
  shown = false;
  fingerprint_failures = 0;
  fingerprint_message = none;
  queued_response = none;
})

unfoldable pub lock : Environment → State → Bool → State
unfolding take_input start_password start_fingerprint notify_lock_state command
lock env s authenticate =
    let ready = start_authentication env authenticate (take_input (locking s)) in
    let done = emit (command (notify_lock_state ready) (set_locked_hint true)) request_render in
    if s.lock.locked then s else done

unfoldable pub remove_timer : ℕ → List ℕ → List ℕ
remove_timer token [] = []
remove_timer token (t ∷ ts) =
    let rest = remove_timer token ts in if t == token then rest else t ∷ rest

abbrev pub remove_token : Option ℕ → State → State
remove_token none s = s
remove_token (some token) s = record s { release_timers = remove_timer token s.release_timers }

unfoldable pub cancel_sleep_release : State → State
cancel_sleep_release s =
    remove_token s.lock.sleep_release_token
      (with_lock s (record (s.lock) { sleep_release_token = none }))

-- The target that the lock saved, if it is alive.
abbrev pub restored : Environment → Option ℕ → Option ℕ
restored env none = none
restored env (some target) = if env.alive target then some target else none

abbrev pub restore_focus : Option ℕ → State → State
restore_focus none s = s
restore_focus (some target) s = focus_keyboard s (some target)

unfoldable pub give_input_back : Environment → State → State
unfolding focus_keyboard
give_input_back env s =
    let released = emit_if s s.gaming_mode release_flutter_keys in
    let taken = with_lock released (record (released.lock) { saved_keyboard_focus = none }) in
    emit (restore_focus (restored env s.lock.saved_keyboard_focus) taken) refresh_pointer_focus

-- The state from which the session gives the input back.
abbrev pub unlocking : State → State
unlocking s = with_lock s (record (s.lock) {
  locked = false;
  generation = suc s.lock.generation;
  password = none;
  pending_prompt = none;
  queued_response = none;
  fingerprint_running = false;
  fingerprint_message = none;
  sleep_pending = false;
})

unfoldable pub unlock : Environment → State → State
unfolding give_input_back cancel_sleep_release notify_lock_state command
unlock env s =
    let ready = give_input_back env (cancel_sleep_release (unlocking s)) in
    let done = emit (command (notify_lock_state ready) (set_locked_hint false)) request_render in
    if not s.lock.locked then s else done
