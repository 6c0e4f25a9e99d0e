-- ===== src/Lock/Reach.antt =====
-- The lock's invariant, event by event and in a run (lock/mod.rs).
use veshell.Base.{◌≡◌, refl, sym, Bool, true, [], arith}
use veshell.Lock.LockState.{State, Environment, new, defer_keyboard_focus}
use veshell.Lock.Step.{
  Event, lock_session, lock_auth_respond, lock_screen_shown, shell_ready, dbus_event, auth_message,
  timer_fired, focus_deferred, focus_forgotten, step, Happens,
}
use veshell.Lock.Invariant.{Inv, Held→Inv, Inv→Held, lock-Held, respond-Inv, Inv-same}
use veshell.Lock.AuthKeeps.{on_auth_message-Inv}
use veshell.Lock.SleepKeeps.{
  on_shown-Inv, on_dbus_event-Inv, release_timer_fired-Inv, replay_to_shell-Inv,
  focus_forgotten-Inv,
}

-- Whatever happens next, from a state that satisfies the invariant (an unlocked session has no
-- transaction, prompt, response or release timer left; the event loop holds exactly the recorded
-- release timer; fingerprint attempts stay within three and one is left while a transaction
-- runs), the next state satisfies it. It is assumed that a timer fires only while the event loop
-- holds it and that a fingerprint outcome of the current generation comes from a transaction.
pub step-Inv :
    (env : Environment) (s : State) (e : Event) → Inv s → Happens s e → Inv (step env s e)
unfolding step defer_keyboard_focus
step-Inv env s lock_session v h =
    Held→Inv _ (lock-Held env s true v.one_timer (λ e. Inv→Held s e v))
step-Inv env s (lock_auth_respond response) v h = respond-Inv env s response v
step-Inv env s lock_screen_shown v h = on_shown-Inv env s v
step-Inv env s shell_ready v h = replay_to_shell-Inv s v
step-Inv env s (dbus_event event) v h = on_dbus_event-Inv env s event v
step-Inv env s (auth_message message) v h = on_auth_message-Inv env s message v h
step-Inv env s (timer_fired token) v h = release_timer_fired-Inv s token v h
step-Inv env s (focus_deferred target) v h = record {
  cleared = v.cleared;
  one_timer = v.one_timer;
  attempts = v.attempts;
  attempts_left = v.attempts_left;
}
step-Inv env s (focus_forgotten target) v h = focus_forgotten-Inv s target v

-- The states that a run reaches from the start of the compositor.
pub data Reach (env : Environment) : State → Type 0 where
  started : (s : State) (dbus : Bool) → s.lock ≡ new dbus → s.release_timers ≡ [] → Reach env s
  stepped : (s : State) (e : Event) → Reach env s → Happens s e → Reach env (step env s e)

-- Every state that a run reaches satisfies the invariant: an unlocked session keeps nothing of
-- its lock, and a release timer is in the event loop exactly if the lock has recorded it.
pub Reach-Inv : (env : Environment) (s : State) → Reach env s → Inv s
unfolding new
Reach-Inv env s (started _ dbus p q) =
    Inv-same (record s { lock = new dbus; release_timers = [] }) s (sym p) (sym q)
      (record {
        cleared = λ _. (refl, refl, refl, refl, refl, refl, refl);
        one_timer = refl;
        attempts = omega arith;
        attempts_left = λ _. omega arith;
      })
Reach-Inv env _ (stepped t e r h) = step-Inv env t e (Reach-Inv env t r) h
