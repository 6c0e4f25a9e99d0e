-- ===== src/Lock/AuthKeeps.antt =====
-- The lock's invariant and the messages of the PAM workers (lock/mod.rs).
use Prim.Native.String.{String}
use veshell.Base.{
  suc, ◌<◌, ◌≡◌, refl, Bool, false, Option, none, some, ltb, arith, if_holds, not-eq-false,
  or-eq-false, ==_iff,
}
use veshell.Lock.LockState.{
  AuthSource, password, fingerprint, AuthOutcome, success, rejected, failed, unavailable, AuthEvent,
  prompt, info, error, finished, AuthMessage, State, Environment, with_lock, send_auth_message,
  fingerprint_attempts,
}
use veshell.Lock.Session.{start_password, start_fingerprint}
use veshell.Lock.Auth.{
  on_auth_message, on_current_message, on_password_finished, on_fingerprint_finished, prompt_waits,
  failure_text, is_available, password_failed, password_outcome, fingerprint_failed,
  fingerprint_outcome, give_up_fingerprint,
}
use veshell.Lock.Step.{auth_message, FromWorker, Happens}
use veshell.Lock.Held.{Held, start_password-Held, start_fingerprint-Held}
use veshell.Lock.Invariant.{Inv, Held→Inv, Inv→Held, unlock-Inv, respond_to-Held}

prompt_waits-Held :
    (queued : Option String) (message : String) (echo : Bool) (s : State)
    → Held s
    → Held (prompt_waits queued message echo s)
unfolding send_auth_message
prompt_waits-Held none message echo s v = v
prompt_waits-Held (some r) message echo s v = respond_to-Held s.lock.password r _ v

password_failed-Held :
    (env : Environment) (s : State) (outcome : AuthOutcome)
    → Held s
    → Held (password_failed env s outcome)
unfolding send_auth_message
password_failed-Held env s outcome v =
    let told = send_auth_message s password "failed" (failure_text outcome) false in
    let reset = with_lock told (record (told.lock) { fingerprint_failures = 0 }) in
    let rearmed = start_fingerprint env reset in
    let held : Held rearmed = start_fingerprint-Held env reset (record {
      is_held = v.is_held;
      one_timer = v.one_timer;
      attempts = omega arith;
      attempts_left = λ _. omega arith;
    }) in
    if_holds Held rearmed.lock.password_prompted (start_password env rearmed) rearmed
      (λ _. start_password-Held env rearmed held) (λ _. held)

password_outcome-Inv :
    (env : Environment) (s : State) (outcome : AuthOutcome)
    → Held s
    → Inv (password_outcome env s outcome)
password_outcome-Inv env s success v = unlock-Inv env s v.one_timer v.attempts (λ e. Held→Inv s v)
password_outcome-Inv env s rejected v = Held→Inv _ (password_failed-Held env s rejected v)
password_outcome-Inv env s (failed text) v = Held→Inv _ (password_failed-Held env s (failed text) v)
password_outcome-Inv env s unavailable v = Held→Inv _ (password_failed-Held env s unavailable v)

give_up_fingerprint-Held : (s : State) → Held s → Held (give_up_fingerprint s)
unfolding send_auth_message
give_up_fingerprint-Held s v = v

fingerprint_failed-Held :
    (env : Environment) (s : State)
    → Held s
    → s.lock.fingerprint_failures < 3
    → s.lock.fingerprint_running ≡ false
    → Held (fingerprint_failed env s)
fingerprint_failed-Held env s v h r =
    let counted =
      with_lock s (record (s.lock) { fingerprint_failures = suc s.lock.fingerprint_failures }) in
    let held : Held counted = record {
      is_held = v.is_held;
      one_timer = v.one_timer;
      attempts = h;
      attempts_left = λ e. cc r;
    } in
    if_holds Held (ltb counted.lock.fingerprint_failures fingerprint_attempts)
      (start_fingerprint env counted) (give_up_fingerprint counted)
      (λ _. start_fingerprint-Held env counted held) (λ _. give_up_fingerprint-Held counted held)

fingerprint_outcome-Inv :
    (env : Environment) (s : State) (outcome : AuthOutcome)
    → Held s
    → s.lock.fingerprint_failures < 3
    → s.lock.fingerprint_running ≡ false
    → Inv (fingerprint_outcome env s outcome)
fingerprint_outcome-Inv env s success v h r =
    unlock-Inv env s v.one_timer v.attempts (λ e. Held→Inv s v)
fingerprint_outcome-Inv env s rejected v h r = Held→Inv _ (fingerprint_failed-Held env s v h r)
fingerprint_outcome-Inv env s (failed text) v h r = Held→Inv _ (fingerprint_failed-Held env s v h r)
fingerprint_outcome-Inv env s unavailable v h r = Held→Inv _ (
    give_up_fingerprint-Held
      (with_lock s (record (s.lock) { fingerprint_failures = fingerprint_attempts }))
      (record {
        is_held = v.is_held;
        one_timer = v.one_timer;
        attempts = omega arith;
        attempts_left = λ e. cc r;
      }))

on_current_message-Inv :
    (env : Environment) (s : State) (source : AuthSource) (event : AuthEvent)
    → Held s
    → FromWorker s source event
    → Inv (on_current_message env s source event)
unfolding on_current_message on_password_finished on_fingerprint_finished
on_current_message-Inv env s password (prompt message echo) v w =
    Held→Inv _ (prompt_waits-Held s.lock.queued_response message echo _ v)
on_current_message-Inv env s password (info text) v w = Held→Inv _ v
on_current_message-Inv env s password (error text) v w = Held→Inv _ v
on_current_message-Inv env s password (finished outcome) v w = password_outcome-Inv env _ outcome v
on_current_message-Inv env s fingerprint (prompt message echo) v w = Held→Inv _ v
on_current_message-Inv env s fingerprint (info text) v w = Held→Inv _ v
on_current_message-Inv env s fingerprint (error text) v w = Held→Inv _ v
on_current_message-Inv env s fingerprint (finished outcome) v w =
    fingerprint_outcome-Inv env
      (with_lock s (record (s.lock) {
        fingerprint_running = false;
        fingerprint_available = some (is_available outcome);
      }))
      outcome
      (record {
        is_held = v.is_held;
        one_timer = v.one_timer;
        attempts = v.attempts;
        attempts_left = λ e. cc;
      })
      (v.attempts_left w) refl

pub on_auth_message-Inv :
    (env : Environment) (s : State) (m : AuthMessage)
    → Inv s
    → Happens s (auth_message m)
    → Inv (on_auth_message env s m)
unfolding on_auth_message
on_auth_message-Inv env s m v w =
    if_holds Inv _ _ _ (λ _. v)
      λ e.
        let (p, q) = or-eq-false _ _ e in
        on_current_message-Inv env s m.source m.event (Inv→Held s (not-eq-false _ p) v)
          (w ((==_iff _ _).0 (not-eq-false _ q)))
