-- ===== src/Lock/Security.antt =====
-- The events of a locked session (lock/mod.rs).
use Prim.Native.String.{String}
use veshell.Base.{
  ℕ, ◌≡◌, refl, sym, subst, Bool, true, false, not, ◌&&◌, ◌||◌, Option, none, some, ◌==◌, if_holds,
  or-eq-false, not-eq-false,
}
use veshell.Lock.LockState.{
  AuthMessage, LockDbusEvent, locks, unlocks, prepare_for_sleep, resumed, State, Environment,
  command, with_lock, notify_lock_state, send_auth_message, defer_keyboard_focus,
  forget_keyboard_focus, is_target,
}
use veshell.Lock.Session.{lock, cancel_sleep_release}
use veshell.Lock.Auth.{respond, on_auth_message, replay_to_shell, replay_prompt, replay_fingerprint}
use veshell.Lock.Sleep.{
  on_shown, on_dbus_event, on_resume, release_timer_fired, SleepRelease, immediate,
  after_draw_grace, on_prepare_for_sleep, not_pending,
}
use veshell.Lock.Step.{
  Event, lock_session, lock_auth_respond, lock_screen_shown, shell_ready, dbus_event, auth_message,
  timer_fired, focus_deferred, focus_forgotten, step,
}
use veshell.Lock.Guarded.{
  authorised, Guarded, fingerprint-Guarded, start_skipped-Guarded, respond_locked-Guarded,
  on_current_message-Guarded, cancel-Guarded, release_sleep_after-Guarded,
}

lock-idle : (env : Environment) (s : State) (a : Bool) → s.lock.locked ≡ true → lock env s a ≡ s
unfolding lock
lock-idle env s a h = rw h refl

on_auth_message-Guarded :
    {k : Option ℕ}
    → (env : Environment) (s : State) (m : AuthMessage) → Guarded k s
    → authorised s (auth_message m) ≡ false
    → Guarded k (on_auth_message env s m)
unfolding on_auth_message
on_auth_message-Guarded env s m v h =
    if_holds (Guarded _) (not s.lock.locked || not (m.generation == s.lock.generation)) s _ (λ _. v)
      λ e.
        on_current_message-Guarded env s m.source m.event v
          (right_factor _ _ (not-eq-false _ (or-eq-false _ _ e).1) h)
  where
    right_factor : (a b : Bool) → a ≡ true → (a && b) ≡ false → b ≡ false
    right_factor true b p h = h
    right_factor false b p h = cc

on_shown-Guarded :
    {k : Option ℕ} → (env : Environment) (s : State) → Guarded k s → Guarded k (on_shown env s)
unfolding on_shown
on_shown-Guarded env s v =
    let drawn = with_lock s (record (s.lock) { shown = true }) in
    if_holds (Guarded _) (not s.lock.locked) s _ (λ _. v)
      λ _.
        if_holds (Guarded _) s.lock.sleep_pending _ drawn
          (λ _. release_sleep_after-Guarded env (not_pending drawn) _ v) (λ _. v)

replay_to_shell-Guarded : {k : Option ℕ} → (s : State) → Guarded k s → Guarded k (replay_to_shell s)
unfolding replay_to_shell notify_lock_state send_auth_message
replay_to_shell-Guarded s v =
    if_holds (Guarded _) (not s.lock.locked) s _ (λ _. v)
      λ _.
        fingerprint_replayed s.lock.fingerprint_message _
          (prompt_replayed s.lock.pending_prompt _ v)
  where
    prompt_replayed :
        {k : Option ℕ}
        → (o : Option (String × Bool)) (t : State) → Guarded k t
        → Guarded k (replay_prompt o t)
    prompt_replayed none t v = v
    prompt_replayed (some (message, echo)) t v = v

    fingerprint_replayed :
        {k : Option ℕ}
        → (o : Option (String × String)) (t : State) → Guarded k t
        → Guarded k (replay_fingerprint o t)
    fingerprint_replayed none t v = v
    fingerprint_replayed (some (kind, message)) t v = v

on_prepare_for_sleep-Guarded :
    {k : Option ℕ}
    → (env : Environment) (s : State) (r : SleepRelease) → Guarded k s
    → Guarded k (on_prepare_for_sleep env s r)
unfolding command
on_prepare_for_sleep-Guarded env s immediate v = cancel-Guarded (not_pending s) v
on_prepare_for_sleep-Guarded env s after_draw_grace v =
    let pending = with_lock s (record (s.lock) { sleep_pending = true }) in
    release_sleep_after-Guarded env (lock env pending false) _
      (subst (Guarded _) (sym (lock-idle env pending false (v.0))) v)

on_resume-Guarded :
    {k : Option ℕ} → (env : Environment) (s : State) → Guarded k s → Guarded k (on_resume env s)
unfolding on_resume
on_resume-Guarded env s v =
    let awake = cancel_sleep_release (not_pending s) in
    let guarded : Guarded _ awake = cancel-Guarded (not_pending s) v in
    if_holds (Guarded _) (not s.lock.locked) awake _ (λ _. guarded)
      λ _. fingerprint-Guarded env _ (start_skipped-Guarded env s.lock.password awake guarded)

on_dbus_event-Guarded :
    {k : Option ℕ}
    → (env : Environment) (s : State) (e : LockDbusEvent) → Guarded k s
    → authorised s (dbus_event e) ≡ false
    → Guarded k (on_dbus_event env s e)
unfolding on_dbus_event
on_dbus_event-Guarded env s locks v h = subst (Guarded _) (sym (lock-idle env s true (v.0))) v
on_dbus_event-Guarded env s unlocks v h = cc
on_dbus_event-Guarded env s prepare_for_sleep v h = on_prepare_for_sleep-Guarded env s _ v
on_dbus_event-Guarded env s resumed v h = on_resume-Guarded env s v

-- While a session is locked, no event but logind's `Unlock` and a success reported by a
-- transaction of this very lock unlocks it or moves the keyboard focus: answers, failures,
-- messages of earlier locks, suspend and resume, timers and a restarted shell do neither.
pub step-Guarded :
    {k : Option ℕ}
    → (env : Environment) (s : State) (e : Event) → Guarded k s
    → authorised s e ≡ false
    → Guarded k (step env s e)
unfolding step respond release_timer_fired command defer_keyboard_focus forget_keyboard_focus
step-Guarded env s lock_session v h = subst (Guarded _) (sym (lock-idle env s true (v.0))) v
step-Guarded env s (lock_auth_respond response) v h =
    if_holds (Guarded _) (not s.lock.locked) s _ (λ _. v)
      λ _. respond_locked-Guarded env s.lock.pending_prompt s response v
step-Guarded env s lock_screen_shown v h = on_shown-Guarded env s v
step-Guarded env s shell_ready v h = replay_to_shell-Guarded s v
step-Guarded env s (dbus_event event) v h = on_dbus_event-Guarded env s event v h
step-Guarded env s (auth_message message) v h = on_auth_message-Guarded env s message v h
step-Guarded env s (timer_fired token) v h = v
step-Guarded env s (focus_deferred target) v h = v
step-Guarded {k = k} env s (focus_forgotten target) v h =
    if_holds (λ l. Guarded k (with_lock s l)) (is_target s.lock.saved_keyboard_focus target)
      (record (s.lock) { saved_keyboard_focus = none }) s.lock (λ _. v) (λ _. v)
