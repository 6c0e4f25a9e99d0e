-- ===== src/Lock/Overtaken.antt =====
-- An unlock that overtakes a suspend which waits for the lock screen.
use veshell.Base.{
  ℕ, ◌≡◌, refl, ap, ◌∙◌, Bool, true, false, not, ◌&&◌, [], none, if_holds, not-eq-true,
}
use veshell.Lock.LockState.{
  unlocks, prepare_for_sleep, cancel_capture_session, end_floating_move, end_floating_resize,
  release_game_mode_forwarded_keys, clear_super_key_forwarding, set_focus, refresh_pointer_focus,
  request_render, insert_timer, set_locked_hint, State, Environment, with_lock, command,
  notify_lock_state, focus_keyboard, sleep_draw_grace,
}
use veshell.Lock.Session.{
  locking, unlocking, lock, unlock, take_input, start_authentication, cancel_sleep_release,
}
use veshell.Lock.Sleep.{on_dbus_event, release_sleep_after, sleep_release, on_prepare_for_sleep}
use veshell.Lock.Step.{dbus_event, step}
use veshell.Lock.Held.{token_list, cancel-lock}
use veshell.Lock.Invariant.{Inv, give_input_back-lock}
use veshell.Lock.Reach.{step-Inv}
use veshell.Lock.Suspend.{
  is_release, releases, Quiet, quiet_emit, quiet_emit_if, cancel-Quiet, notify-Quiet, hint-Quiet,
  unlock-Quiet,
}

take_input-Quiet : (s : State) → Quiet s (take_input s)
unfolding take_input focus_keyboard is_release
take_input-Quiet s =
    quiet_emit _ refresh_pointer_focus refl
    ∙ quiet_emit _ (set_focus none) refl
    ∙ quiet_emit _ clear_super_key_forwarding refl
    ∙ quiet_emit _ release_game_mode_forwarded_keys refl
    ∙ quiet_emit _ end_floating_resize refl
    ∙ quiet_emit _ end_floating_move refl
    ∙ quiet_emit_if s.effects s.capture_session cancel_capture_session refl

-- A lock that starts no authentication gives nothing back.
lock-Quiet : (env : Environment) (s : State) → Quiet s (lock env s false)
unfolding lock is_release
lock-Quiet env s =
    let ready = start_authentication env false (take_input (locking s)) in
    if_holds (Quiet s) s.lock.locked s _ (λ _. refl)
      λ _.
        quiet_emit (command (notify_lock_state ready) (set_locked_hint true)).effects request_render
          refl
        ∙ hint-Quiet (notify_lock_state ready) true
        ∙ notify-Quiet ready
        ∙ take_input-Quiet (locking s)

release_sleep_after-Quiet :
    (env : Environment) (s : State) (delay : ℕ)
    → env.takes_timers ≡ true
    → Quiet s (release_sleep_after env s delay)
unfolding release_sleep_after is_release
release_sleep_after-Quiet env s delay h =
    rw h (quiet_emit (cancel_sleep_release s).effects (insert_timer _ delay) refl ∙ cancel-Quiet s)

prepare-Quiet :
    (env : Environment) (s : State) (b : Bool)
    → env.takes_timers ≡ true
    → (s.lock.locked && s.lock.shown) ≡ b
    → b ≡ false
    → Quiet s (on_prepare_for_sleep env s (sleep_release s.lock.locked s.lock.shown))
unfolding sleep_release
prepare-Quiet env s b h e n =
    rw (e, n)
      (release_sleep_after-Quiet env _ sleep_draw_grace h
        ∙ lock-Quiet env (with_lock s (record (s.lock) { sleep_pending = true })))

unlock-unlocks : (env : Environment) (s : State) → (unlock env s).lock.locked ≡ false
unfolding unlock notify_lock_state command
unlock-unlocks env s =
    let u = unlocking s in
    if_holds (λ (t : State). t.lock.locked ≡ false) (not s.lock.locked) s _ (λ e. not-eq-true _ e)
      λ _.
        ap (λ l. l.locked) (give_input_back-lock env (cancel_sleep_release u))
        ∙ ap (λ l. l.locked) (cancel-lock u)

-- When logind's `Unlock` comes while a suspend waits for the lock screen (the lock screen was
-- not on screen at PrepareForSleep, and the event loop takes timers), from any state that
-- satisfies the invariant: the session is unlocked, no timer is left that would give the sleep
-- inhibitor back, and neither event has given it back, so that the suspend waits for logind's
-- own limit.
pub unlock-overtakes :
    (env : Environment) (s : State)
    → env.takes_timers ≡ true
    → Inv s
    → (s.lock.locked && s.lock.shown) ≡ false
    → ((step env (step env s (dbus_event prepare_for_sleep)) (dbus_event unlocks)).lock.locked
        ≡ false)
      × ((step env (step env s (dbus_event prepare_for_sleep)) (dbus_event unlocks)).release_timers
          ≡ [])
      × (releases
            (step env (step env s (dbus_event prepare_for_sleep)) (dbus_event unlocks)).effects
          ≡ releases s.effects)
unfolding step on_dbus_event
unlock-overtakes env s takes v n =
    let asleep = step env s (dbus_event prepare_for_sleep) in
    let w =
      step-Inv env asleep (dbus_event unlocks) (step-Inv env s (dbus_event prepare_for_sleep) v tt)
        tt in
    let unlocked = unlock-unlocks env asleep in
    (
      unlocked,
      w.one_timer ∙ ap token_list (w.cleared unlocked).6,
      unlock-Quiet env asleep ∙ prepare-Quiet env s _ takes refl n,
    )
