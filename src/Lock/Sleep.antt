-- ===== src/Lock/Sleep.antt =====
-- logind's suspend and resume, from lock/mod.rs.
use veshell.Base.{ℕ, suc, Bool, true, false, ◌&&◌, not, ◌∷◌, Option, none, some, if◌then◌else◌}
use veshell.Lock.LockState.{
  LockDbusEvent, locks, unlocks, prepare_for_sleep, resumed, release_sleep_inhibitor, insert_timer,
  State, Environment, sleep_release_delay, sleep_draw_grace, emit, with_lock, command,
}
use veshell.Lock.Session.{
  lock, unlock, start_password, start_fingerprint, cancel_sleep_release, remove_timer,
}

abbrev pub not_pending : State → State
not_pending s = with_lock s (record (s.lock) { sleep_pending = false })

unfoldable pub release_sleep_after : Environment → State → ℕ → State
unfolding cancel_sleep_release command
release_sleep_after env s delay =
    let cancelled = cancel_sleep_release s in
    let token = cancelled.next_timer in
    let armed =
      emit
        (record cancelled {
          lock = record (cancelled.lock) { sleep_release_token = some token };
          release_timers = token ∷ cancelled.release_timers;
          next_timer = suc token;
        })
        (insert_timer token delay) in
    if env.takes_timers then armed else command (not_pending cancelled) release_sleep_inhibitor

-- The callback of the timer; a timer that fires is dropped by the event loop.
unfoldable pub release_timer_fired : State → ℕ → State
unfolding command
release_timer_fired s token =
    command
      (record s {
        lock = record (s.lock) { sleep_release_token = none; sleep_pending = false };
        release_timers = remove_timer token s.release_timers;
      })
      release_sleep_inhibitor

unfoldable pub on_shown : Environment → State → State
unfolding release_sleep_after
on_shown env s =
    let drawn = with_lock s (record (s.lock) { shown = true }) in
    if not s.lock.locked
    then s
    else if s.lock.sleep_pending
    then release_sleep_after env (not_pending drawn) sleep_release_delay
    else drawn

pub data SleepRelease : Type 0 where
  immediate after_draw_grace : SleepRelease

unfoldable pub sleep_release : Bool → Bool → SleepRelease
sleep_release locked shown = if locked && shown then immediate else after_draw_grace

abbrev pub on_prepare_for_sleep : Environment → State → SleepRelease → State
on_prepare_for_sleep env s immediate =
    command (cancel_sleep_release (not_pending s)) release_sleep_inhibitor
on_prepare_for_sleep env s after_draw_grace =
    release_sleep_after env
      (lock env (with_lock s (record (s.lock) { sleep_pending = true })) false) sleep_draw_grace

abbrev pub start_skipped : Environment → Option ℕ → State → State
start_skipped env none s = start_password env s
start_skipped env (some transaction) s = s

unfoldable pub on_resume : Environment → State → State
unfolding cancel_sleep_release start_password start_fingerprint
on_resume env s =
    let awake = cancel_sleep_release (not_pending s) in
    if not s.lock.locked
    then awake
    else start_fingerprint env (start_skipped env s.lock.password awake)

unfoldable pub on_dbus_event : Environment → State → LockDbusEvent → State
unfolding lock unlock sleep_release release_sleep_after on_resume
on_dbus_event env s locks = lock env s true
on_dbus_event env s unlocks = unlock env s
on_dbus_event env s prepare_for_sleep =
    on_prepare_for_sleep env s (sleep_release s.lock.locked s.lock.shown)
on_dbus_event env s resumed = on_resume env s
