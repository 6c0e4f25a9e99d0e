-- ===== src/Lock/Auth.antt =====
-- The shell's answers and the messages of the PAM workers, from lock/mod.rs.
use Prim.Native.String.{String}
use veshell.Base.{
  ℕ, suc, Bool, true, false, ◌||◌, not, Option, none, some, ltb, ◌==◌, if◌then◌else◌,
}
use veshell.Lock.LockState.{
  AuthSource, password, fingerprint, AuthOutcome, success, rejected, failed, unavailable, AuthEvent,
  prompt, info, error, finished, AuthMessage, answer, State, Environment, fingerprint_attempts,
  emit, with_lock, send_auth_message, notify_lock_state,
}
use veshell.Lock.Session.{start_password, start_fingerprint, unlock}

-- A responder that is gone takes no answer.
abbrev pub respond_to : Option ℕ → String → State → State
respond_to none response s = s
respond_to (some transaction) response s = emit s (answer transaction response)

abbrev pub start_if_none : Environment → Option ℕ → State → State
start_if_none env none s = start_password env s
start_if_none env (some transaction) s = s

abbrev pub respond_locked : Environment → Option (String × Bool) → State → String → State
respond_locked env (some asked) s response =
    respond_to s.lock.password response (with_lock s (record (s.lock) { pending_prompt = none }))
respond_locked env none s response =
    start_if_none env s.lock.password
      (with_lock s (record (s.lock) { queued_response = some response }))

unfoldable pub respond : Environment → State → String → State
unfolding start_password
respond env s response =
    if not s.lock.locked then s else respond_locked env s.lock.pending_prompt s response

abbrev pub prompt_waits : Option String → String → Bool → State → State
prompt_waits (some response) message echo s =
    respond_to s.lock.password response (with_lock s (record (s.lock) { queued_response = none }))
prompt_waits none message echo s =
    send_auth_message (with_lock s (record (s.lock) { pending_prompt = some (message, echo) }))
      password "prompt" message echo

abbrev pub on_prompt : State → String → Bool → State
on_prompt s message echo =
    prompt_waits s.lock.queued_response message echo
      (with_lock s (record (s.lock) { password_prompted = true }))

abbrev pub failure_text : AuthOutcome → String
failure_text (failed text) = text
failure_text _ = ""

abbrev pub password_failed : Environment → State → AuthOutcome → State
password_failed env s outcome =
    let told = send_auth_message s password "failed" (failure_text outcome) false in
    let rearmed =
      start_fingerprint env (with_lock told (record (told.lock) { fingerprint_failures = 0 })) in
    if rearmed.lock.password_prompted then start_password env rearmed else rearmed

abbrev pub password_outcome : Environment → State → AuthOutcome → State
password_outcome env s success = unlock env s
password_outcome env s rejected = password_failed env s rejected
password_outcome env s (failed text) = password_failed env s (failed text)
password_outcome env s unavailable = password_failed env s unavailable

unfoldable pub on_password_finished : Environment → State → AuthOutcome → State
unfolding unlock start_password start_fingerprint send_auth_message
on_password_finished env s outcome =
    password_outcome env
      (with_lock s
        (record (s.lock) { password = none; pending_prompt = none; queued_response = none }))
      outcome

abbrev pub is_available : AuthOutcome → Bool
is_available unavailable = false
is_available _ = true

abbrev pub give_up_fingerprint : State → State
give_up_fingerprint s =
    send_auth_message (with_lock s (record (s.lock) { fingerprint_message = none })) fingerprint
      "unavailable" "" false

abbrev pub fingerprint_failed : Environment → State → State
fingerprint_failed env s =
    let counted =
      with_lock s (record (s.lock) { fingerprint_failures = suc s.lock.fingerprint_failures }) in
    if ltb counted.lock.fingerprint_failures fingerprint_attempts
    then start_fingerprint env counted
    else give_up_fingerprint counted

abbrev pub fingerprint_outcome : Environment → State → AuthOutcome → State
fingerprint_outcome env s success = unlock env s
fingerprint_outcome env s unavailable =
    give_up_fingerprint
      (with_lock s (record (s.lock) { fingerprint_failures = fingerprint_attempts }))
fingerprint_outcome env s rejected = fingerprint_failed env s
fingerprint_outcome env s (failed text) = fingerprint_failed env s

unfoldable pub on_fingerprint_finished : Environment → State → AuthOutcome → State
unfolding unlock start_fingerprint send_auth_message
on_fingerprint_finished env s outcome =
    fingerprint_outcome env
      (with_lock s (record (s.lock) {
        fingerprint_running = false;
        fingerprint_available = some (is_available outcome);
      }))
      outcome

abbrev pub remember_fingerprint : State → String → String → State
remember_fingerprint s kind text =
    send_auth_message (with_lock s (record (s.lock) { fingerprint_message = some (kind, text) }))
      fingerprint kind text false

-- The `match` on a message of the current generation.
unfoldable pub on_current_message : Environment → State → AuthSource → AuthEvent → State
unfolding on_password_finished on_fingerprint_finished
on_current_message env s password (prompt message echo) = on_prompt s message echo
on_current_message env s password (info text) = send_auth_message s password "info" text false
on_current_message env s password (error text) = send_auth_message s password "error" text false
on_current_message env s password (finished outcome) = on_password_finished env s outcome
on_current_message env s fingerprint (prompt message echo) = s
on_current_message env s fingerprint (info text) = remember_fingerprint s "info" text
on_current_message env s fingerprint (error text) = remember_fingerprint s "error" text
on_current_message env s fingerprint (finished outcome) = on_fingerprint_finished env s outcome

unfoldable pub on_auth_message : Environment → State → AuthMessage → State
unfolding on_current_message
on_auth_message env s message =
    if not s.lock.locked || not (message.generation == s.lock.generation)
    then s
    else on_current_message env s message.source message.event

abbrev pub replay_prompt : Option (String × Bool) → State → State
replay_prompt none s = s
replay_prompt (some (message, echo)) s = send_auth_message s password "prompt" message echo

abbrev pub replay_fingerprint : Option (String × String) → State → State
replay_fingerprint none s = s
replay_fingerprint (some (kind, message)) s = send_auth_message s fingerprint kind message false

unfoldable pub replay_to_shell : State → State
unfolding send_auth_message notify_lock_state
replay_to_shell s =
    let told = notify_lock_state (with_lock s (record (s.lock) { shown = false })) in
    if not s.lock.locked
    then s
    else replay_fingerprint s.lock.fingerprint_message (replay_prompt s.lock.pending_prompt told)
