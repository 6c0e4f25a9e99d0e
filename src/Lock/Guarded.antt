-- ===== src/Lock/Guarded.antt =====
-- A locked session, its keyboard focus, and what the parts of the handlers do to them.
use Prim.Native.String.{String}
use veshell.Base.{
  ℕ, suc, ◌≡◌, Bool, true, false, not, ◌&&◌, ◌||◌, Option, none, some, ◌==◌, ltb, if_holds,
}
use veshell.Lock.LockState.{
  AuthSource, password, fingerprint, AuthOutcome, success, rejected, failed, unavailable, AuthEvent,
  prompt, info, error, finished, unlocks, State, Environment, command, with_lock, send_auth_message,
  fingerprint_attempts,
}
use veshell.Lock.Session.{
  remove_token, cancel_sleep_release, start_password, start_fingerprint, fingerprint_allowed,
  fingerprint_file,
}
use veshell.Lock.Auth.{
  respond_to, start_if_none, respond_locked, on_current_message, on_password_finished,
  on_fingerprint_finished, prompt_waits, failure_text, password_failed, fingerprint_failed,
  give_up_fingerprint,
}
use veshell.Lock.Sleep.{release_sleep_after, start_skipped}
use veshell.Lock.Step.{Event, dbus_event, auth_message}

abbrev pub is_success : AuthEvent → Bool
is_success (finished success) = true
is_success _ = false

-- What may end a lock: logind's `Unlock`, and a success of a transaction of this lock.
abbrev pub authorised : State → Event → Bool
authorised s (dbus_event unlocks) = true
authorised s (auth_message message) =
    (message.generation == s.lock.generation) && is_success message.event
authorised s _ = false

-- The session is locked, with the keyboard focus at a given target.
abbrev pub Guarded : Option ℕ → State → Type 0
Guarded focus s = (s.lock.locked ≡ true) × (s.keyboard_focus ≡ focus)

pub fingerprint-Guarded :
    {k : Option ℕ}
    → (env : Environment) (s : State) → Guarded k s
    → Guarded k (start_fingerprint env s)
unfolding start_fingerprint
fingerprint-Guarded env s v =
    if_holds (Guarded _)
      (not (
          fingerprint_allowed s.lock.fingerprint_available s.lock.fingerprint_running
            s.lock.fingerprint_failures)
        || not (env.service_installed fingerprint_file))
      s _ (λ _. v) (λ _. v)

respond_to-Guarded :
    {k : Option ℕ}
    → (p : Option ℕ) (r : String) (s : State) → Guarded k s
    → Guarded k (respond_to p r s)
respond_to-Guarded none r s v = v
respond_to-Guarded (some t) r s v = v

start_if_none-Guarded :
    {k : Option ℕ}
    → (env : Environment) (p : Option ℕ) (s : State) → Guarded k s
    → Guarded k (start_if_none env p s)
unfolding start_password
start_if_none-Guarded env none s v = v
start_if_none-Guarded env (some t) s v = v

pub start_skipped-Guarded :
    {k : Option ℕ}
    → (env : Environment) (p : Option ℕ) (s : State) → Guarded k s
    → Guarded k (start_skipped env p s)
unfolding start_password
start_skipped-Guarded env none s v = v
start_skipped-Guarded env (some t) s v = v

pub respond_locked-Guarded :
    {k : Option ℕ}
    → (env : Environment) (asked : Option (String × Bool)) (s : State) (r : String) → Guarded k s
    → Guarded k (respond_locked env asked s r)
respond_locked-Guarded env (some asked) s r v = respond_to-Guarded s.lock.password r _ v
respond_locked-Guarded env none s r v = start_if_none-Guarded env s.lock.password _ v

prompt_waits-Guarded :
    {k : Option ℕ}
    → (queued : Option String) (message : String) (echo : Bool) (s : State) → Guarded k s
    → Guarded k (prompt_waits queued message echo s)
unfolding send_auth_message
prompt_waits-Guarded none message echo s v = v
prompt_waits-Guarded (some r) message echo s v = respond_to-Guarded s.lock.password r _ v

password_failed-Guarded :
    {k : Option ℕ}
    → (env : Environment) (s : State) (outcome : AuthOutcome) → Guarded k s
    → Guarded k (password_failed env s outcome)
unfolding send_auth_message start_password
password_failed-Guarded env s outcome v =
    let told = send_auth_message s password "failed" (failure_text outcome) false in
    let reset = with_lock told (record (told.lock) { fingerprint_failures = 0 }) in
    let rearmed = start_fingerprint env reset in
    let guarded : Guarded _ rearmed = fingerprint-Guarded env reset v in
    if_holds (Guarded _) rearmed.lock.password_prompted (start_password env rearmed) rearmed
      (λ _. guarded) (λ _. guarded)

fingerprint_failed-Guarded :
    {k : Option ℕ}
    → (env : Environment) (s : State) → Guarded k s
    → Guarded k (fingerprint_failed env s)
unfolding send_auth_message
fingerprint_failed-Guarded env s v =
    let counted =
      with_lock s (record (s.lock) { fingerprint_failures = suc s.lock.fingerprint_failures }) in
    if_holds (Guarded _) (ltb counted.lock.fingerprint_failures fingerprint_attempts)
      (start_fingerprint env counted) (give_up_fingerprint counted)
      (λ _. fingerprint-Guarded env counted v) (λ _. v)

abbrev cleared : State → State
cleared s =
    with_lock s (record (s.lock) { password = none; pending_prompt = none; queued_response = none })

pub on_current_message-Guarded :
    {k : Option ℕ}
    → (env : Environment) (s : State) (source : AuthSource) (event : AuthEvent) → Guarded k s
    → is_success event ≡ false
    → Guarded k (on_current_message env s source event)
unfolding on_current_message on_password_finished on_fingerprint_finished send_auth_message
on_current_message-Guarded env s password (prompt message echo) v h =
    prompt_waits-Guarded s.lock.queued_response message echo _ v
on_current_message-Guarded env s password (info text) v h = v
on_current_message-Guarded env s password (error text) v h = v
on_current_message-Guarded env s password (finished success) v h = cc
on_current_message-Guarded env s password (finished rejected) v h =
    password_failed-Guarded env (cleared s) rejected v
on_current_message-Guarded env s password (finished (failed text)) v h =
    password_failed-Guarded env (cleared s) (failed text) v
on_current_message-Guarded env s password (finished unavailable) v h =
    password_failed-Guarded env (cleared s) unavailable v
on_current_message-Guarded env s fingerprint (prompt message echo) v h = v
on_current_message-Guarded env s fingerprint (info text) v h = v
on_current_message-Guarded env s fingerprint (error text) v h = v
on_current_message-Guarded env s fingerprint (finished success) v h = cc
on_current_message-Guarded env s fingerprint (finished rejected) v h =
    fingerprint_failed-Guarded env _ v
on_current_message-Guarded env s fingerprint (finished (failed text)) v h =
    fingerprint_failed-Guarded env _ v
on_current_message-Guarded env s fingerprint (finished unavailable) v h = v

pub cancel-Guarded : {k : Option ℕ} → (s : State) → Guarded k s → Guarded k (cancel_sleep_release s)
unfolding cancel_sleep_release
cancel-Guarded s v = remove_token-Guarded s.lock.sleep_release_token _ v
  where
    remove_token-Guarded :
        {k : Option ℕ} → (o : Option ℕ) (t : State) → Guarded k t → Guarded k (remove_token o t)
    remove_token-Guarded none t v = v
    remove_token-Guarded (some token) t v = v

pub release_sleep_after-Guarded :
    {k : Option ℕ}
    → (env : Environment) (s : State) (delay : ℕ) → Guarded k s
    → Guarded k (release_sleep_after env s delay)
unfolding release_sleep_after command
release_sleep_after-Guarded env s delay v =
    if_holds (Guarded _) env.takes_timers _ _ (λ _. cancel-Guarded s v) (λ _. cancel-Guarded s v)
