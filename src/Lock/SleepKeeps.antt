-- ===== src/Lock/SleepKeeps.antt =====
-- The lock's invariant and suspending, resuming and the shell's readiness (lock/mod.rs).
use Prim.Native.String.{String}
use veshell.Base.{
  ℕ, ◌≡◌, refl, sym, ap, inl, inr, Bool, true, false, not, List, [], ◌∷◌, Option, none, some,
  if_holds, not-eq-false, ==_iff,
}
use veshell.Lock.LockState.{
  LockDbusEvent, locks, unlocks, prepare_for_sleep, resumed, State, Environment, command,
  notify_lock_state, with_lock, send_auth_message, forget_keyboard_focus, is_target,
}
use veshell.Lock.Session.{lock, remove_timer, cancel_sleep_release}
use veshell.Lock.Auth.{replay_to_shell, replay_prompt, replay_fingerprint}
use veshell.Lock.Sleep.{
  on_shown, on_dbus_event, on_resume, release_sleep_after, release_timer_fired, SleepRelease,
  immediate, after_draw_grace, on_prepare_for_sleep, start_skipped, not_pending,
}
use veshell.Lock.Step.{Holds}
use veshell.Lock.Held.{
  token_list, Held, start_password-Held, start_fingerprint-Held, cancel-timers, cancel-lock,
}
use veshell.Lock.Invariant.{Inv, Held→Inv, Inv→Held, lock-Held, unlock-Inv, Inv-same}

pub cancel-Held : (s : State) → Held s → Held (cancel_sleep_release s)
cancel-Held s v =
    rw (cancel-lock s, cancel-timers s v.one_timer)
      (record {
        is_held = v.is_held;
        one_timer = refl;
        attempts = v.attempts;
        attempts_left = v.attempts_left;
      })

pub release_sleep_after-Held :
    (env : Environment) (s : State) (delay : ℕ) → Held s → Held (release_sleep_after env s delay)
unfolding release_sleep_after command
release_sleep_after-Held env s delay v =
    let cancelled = cancel_sleep_release s in
    let held = cancel-Held s v in
    let armed : Held (record cancelled {
      lock = record (cancelled.lock) { sleep_release_token = some cancelled.next_timer };
      release_timers = cancelled.next_timer ∷ cancelled.release_timers;
    }) =
      record {
        is_held = held.is_held;
        one_timer = ap (λ ts. cancelled.next_timer ∷ ts) (cancel-timers s v.one_timer);
        attempts = held.attempts;
        attempts_left = held.attempts_left;
      } in
    if_holds Held env.takes_timers _ _ (λ _. armed) (λ _. held)

pub on_shown-Inv : (env : Environment) (s : State) → Inv s → Inv (on_shown env s)
unfolding on_shown
on_shown-Inv env s v =
    let drawn = with_lock s (record (s.lock) { shown = true }) in
    if_holds Inv (not s.lock.locked) s _ (λ _. v)
      λ e.
        let held : Held drawn = Inv→Held s (not-eq-false _ e) v in
        if_holds Inv s.lock.sleep_pending _ drawn
          (λ _. Held→Inv _ (release_sleep_after-Held env (not_pending drawn) _ held))
          (λ _. Held→Inv _ held)

quiet-Inv : (s : State) → Inv s → Inv (cancel_sleep_release (not_pending s))
quiet-Inv s v =
    Inv-same
      (record s {
        lock = record (s.lock) { sleep_pending = false; sleep_release_token = none };
        release_timers = [];
      })
      _ (sym (cancel-lock (not_pending s))) (sym (cancel-timers (not_pending s) v.one_timer))
      (record {
        cleared = λ h. let c = v.cleared h in (c.0, c.1, c.2, c.3, c.4, refl, refl);
        one_timer = refl;
        attempts = v.attempts;
        attempts_left = v.attempts_left;
      })

on_prepare_for_sleep-Inv :
    (env : Environment) (s : State) (r : SleepRelease) → Inv s → Inv (on_prepare_for_sleep env s r)
unfolding command
on_prepare_for_sleep-Inv env s immediate v =
    Inv-same (cancel_sleep_release (not_pending s)) _ refl refl (quiet-Inv s v)
on_prepare_for_sleep-Inv env s after_draw_grace v =
    let pending = with_lock s (record (s.lock) { sleep_pending = true }) in
    Held→Inv _ (
      release_sleep_after-Held env (lock env pending false) _
        (lock-Held env pending false v.one_timer (λ e. Inv→Held s e v)))

start_skipped-Held :
    (env : Environment) (p : Option ℕ) (s : State) → Held s → Held (start_skipped env p s)
start_skipped-Held env none s v = start_password-Held env s v
start_skipped-Held env (some t) s v = v

on_resume-Inv : (env : Environment) (s : State) → Inv s → Inv (on_resume env s)
unfolding on_resume
on_resume-Inv env s v =
    let awake = cancel_sleep_release (not_pending s) in
    if_holds Inv (not s.lock.locked) awake _ (λ _. quiet-Inv s v)
      λ e.
        let held = cancel-Held (not_pending s) (Inv→Held s (not-eq-false _ e) v) in
        Held→Inv _
          (start_fingerprint-Held env _ (start_skipped-Held env s.lock.password awake held))

pub on_dbus_event-Inv :
    (env : Environment) (s : State) (e : LockDbusEvent) → Inv s → Inv (on_dbus_event env s e)
unfolding on_dbus_event
on_dbus_event-Inv env s locks v =
    Held→Inv _ (lock-Held env s true v.one_timer (λ e. Inv→Held s e v))
on_dbus_event-Inv env s unlocks v = unlock-Inv env s v.one_timer v.attempts (λ _. v)
on_dbus_event-Inv env s prepare_for_sleep v = on_prepare_for_sleep-Inv env s _ v
on_dbus_event-Inv env s resumed v = on_resume-Inv env s v

remove_timer-held :
    (o : Option ℕ) (ts : List ℕ) (token : ℕ)
    → ts ≡ token_list o
    → Holds ts token
    → remove_timer token ts ≡ []
unfolding remove_timer
remove_timer-held o [] token p h = refl
remove_timer-held none (t ∷ ts) token p h = cc
remove_timer-held (some u) (t ∷ []) token p (inr h) = elim h [ ]
remove_timer-held (some u) (t ∷ []) token p (inl h) = rw ((==_iff t token).1 h) refl
remove_timer-held (some u) (t ∷ x ∷ ts) token p h = cc

pub release_timer_fired-Inv :
    (s : State) (token : ℕ)
    → Inv s
    → Holds s.release_timers token
    → Inv (release_timer_fired s token)
unfolding release_timer_fired command
release_timer_fired-Inv s token v h = record {
  cleared = λ e. let c = v.cleared e in (c.0, c.1, c.2, c.3, c.4, refl, refl);
  one_timer = remove_timer-held s.lock.sleep_release_token s.release_timers token v.one_timer h;
  attempts = v.attempts;
  attempts_left = v.attempts_left;
}

replay_prompt-Held : (p : Option (String × Bool)) (s : State) → Held s → Held (replay_prompt p s)
unfolding send_auth_message
replay_prompt-Held none s v = v
replay_prompt-Held (some (message, echo)) s v = v

replay_fingerprint-Held :
    (p : Option (String × String)) (s : State) → Held s → Held (replay_fingerprint p s)
unfolding send_auth_message
replay_fingerprint-Held none s v = v
replay_fingerprint-Held (some (kind, message)) s v = v

pub replay_to_shell-Inv : (s : State) → Inv s → Inv (replay_to_shell s)
unfolding replay_to_shell notify_lock_state
replay_to_shell-Inv s v =
    if_holds Inv (not s.lock.locked) s _ (λ _. v)
      λ e. Held→Inv _ (
        replay_fingerprint-Held s.lock.fingerprint_message _
          (replay_prompt-Held s.lock.pending_prompt _ (Inv→Held s (not-eq-false _ e) v)))

pub focus_forgotten-Inv :
    (s : State) (target : ℕ) → Inv s → Inv (with_lock s (forget_keyboard_focus s.lock target))
unfolding forget_keyboard_focus
focus_forgotten-Inv s target v =
    if_holds (λ l. Inv (with_lock s l)) (is_target s.lock.saved_keyboard_focus target)
      (record (s.lock) { saved_keyboard_focus = none }) s.lock (λ _. Inv-saved none) (λ _. v)
  where
    Inv-saved : (o : Option ℕ) → Inv (with_lock s (record (s.lock) { saved_keyboard_focus = o }))
    Inv-saved o = record {
      cleared = v.cleared;
      one_timer = v.one_timer;
      attempts = v.attempts;
      attempts_left = v.attempts_left;
    }
