-- ===== src/Lock/Examples.antt =====
-- A session that is locked, answered, suspended and unlocked.
use veshell.Base.{◌≡◌, refl, true, false, [], none, some}
use veshell.Lock.LockState.{
  fingerprint, success, finished, unlocks, prepare_for_sleep, State, Environment, new,
}
use veshell.Lock.Session.{fingerprint_allowed}
use veshell.Lock.Step.{Event, lock_session, dbus_event, auth_message, step}
use veshell.Lock.Invariant.{Inv}
use veshell.Lock.Reach.{Reach, started, stepped, step-Inv, Reach-Inv}
use veshell.Lock.Guarded.{Guarded}
use veshell.Lock.Security.{step-Guarded}
use veshell.Lock.Suspend.{releases, step-Quiet}
use veshell.Lock.Prepare.{Answered, prepare_for_sleep-Answered}
use veshell.Lock.Overtaken.{unlock-overtakes}
use veshell.Lock.Restore.{Delivered, early, late, respond-any_order, lock_unlock-focus}

abbrev installed : Environment
installed = record { service_installed = λ _. true; alive = λ _. true; takes_timers = true }

abbrev desktop : State
desktop = record {
  lock = new true;
  capture_session = true;
  keyboard_focus = some 7;
  pointer_focus = some 8;
  gaming_mode = true;
  flutter_engine = true;
  release_timers = [];
  next_timer = 0;
  next_transaction = 0;
  effects = [];
}

abbrev locked_desktop : State
locked_desktop = step installed desktop lock_session

desktop-Reach : Reach installed desktop
desktop-Reach = started desktop true refl refl

desktop-Inv : Inv desktop
desktop-Inv = Reach-Inv installed desktop desktop-Reach

locked-Inv : Inv locked_desktop
locked-Inv = step-Inv installed desktop lock_session desktop-Inv tt

-- A fingerprint is recognised while the lock is on.
abbrev recognised : Event
recognised =
    auth_message (record { generation = 1; source = fingerprint; event = finished success })

recognised-unlocks : (step installed locked_desktop recognised).lock.locked ≡ false
unfolding step new fingerprint_allowed
recognised-unlocks = refl

step-Inv_example : Inv (step installed locked_desktop recognised)
unfolding step new fingerprint_allowed
step-Inv_example = step-Inv installed locked_desktop recognised locked-Inv (λ _. refl)

sleeping-Inv : Inv (step installed locked_desktop (dbus_event prepare_for_sleep))
sleeping-Inv = Reach-Inv installed (step installed locked_desktop (dbus_event prepare_for_sleep)) (
    stepped locked_desktop (dbus_event prepare_for_sleep)
      (stepped desktop lock_session desktop-Reach tt) tt)

-- A success of an earlier lock changes nothing.
abbrev stale : Event
stale = auth_message (record { generation = 0; source = fingerprint; event = finished success })

step-Guarded_example : Guarded none (step installed locked_desktop stale)
unfolding step new fingerprint_allowed
step-Guarded_example = step-Guarded {k = none} installed locked_desktop stale (refl, refl) refl

step-Quiet_example :
    releases (step installed locked_desktop recognised).effects ≡ releases locked_desktop.effects
unfolding step new fingerprint_allowed
step-Quiet_example =
    step-Quiet installed locked_desktop recognised locked-Inv (λ _. refl) recognised-unlocks

prepare_for_sleep-Answered_example :
    ((step installed desktop (dbus_event prepare_for_sleep)).lock.locked ≡ true)
    × Answered installed (step installed desktop (dbus_event prepare_for_sleep))
unfolding new
prepare_for_sleep-Answered_example = prepare_for_sleep-Answered installed desktop desktop-Inv refl

respond-any_order_example :
    Delivered (early installed locked_desktop "Password:" false "secret") 0 "secret"
    × Delivered (late installed locked_desktop "Password:" false "secret") 0 "secret"
unfolding step new fingerprint_allowed
respond-any_order_example =
    respond-any_order installed locked_desktop 0 "Password:" false "secret" (refl, refl, refl, refl)

lock_unlock-focus_example :
    ((step installed desktop lock_session).lock.locked ≡ true)
    × ((step installed desktop lock_session).keyboard_focus ≡ none)
    × ((step installed (step installed desktop lock_session) (dbus_event unlocks)).keyboard_focus
        ≡ some 7)
unfolding new
lock_unlock-focus_example = lock_unlock-focus installed desktop 7 refl refl refl

unlock-overtakes_example :
    ((step installed
        (step installed desktop (dbus_event prepare_for_sleep))
        (dbus_event unlocks)).lock.locked
      ≡ false)
    × ((step installed
          (step installed desktop (dbus_event prepare_for_sleep))
          (dbus_event unlocks)).release_timers
        ≡ [])
    × (releases
          (step installed
            (step installed desktop (dbus_event prepare_for_sleep))
            (dbus_event unlocks)).effects
        ≡ releases desktop.effects)
unfolding new
unlock-overtakes_example = unlock-overtakes installed desktop refl desktop-Inv refl
