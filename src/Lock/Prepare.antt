-- ===== src/Lock/Prepare.antt =====
-- The answer to logind's PrepareForSleep.
use veshell.Base.{
  ℕ, ◌≡◌, refl, ap, ◌∙◌, ◌⊎◌, inl, inr, Bool, true, false, List, [], ◌∷◌, ◌++◌, Option, none, some,
  if◌then◌else◌, if_holds,
}
use veshell.Lock.LockState.{
  prepare_for_sleep, Effect, dbus_command, release_sleep_inhibitor, State, Environment, command,
  notify_lock_state, focus_keyboard, with_lock,
}
use veshell.Lock.Session.{take_input, lock, cancel_sleep_release}
use veshell.Lock.Sleep.{
  on_dbus_event, release_sleep_after, release_timer_fired, sleep_release, after_draw_grace,
  on_prepare_for_sleep, not_pending,
}
use veshell.Lock.Step.{dbus_event, timer_fired, step}
use veshell.Lock.Held.{OneTimer, cancel-timers, cancel-lock}
use veshell.Lock.Invariant.{Inv, Inv→Held, lock-Held}
use veshell.Lock.Suspend.{prepare-locks}

-- The last effect so far.
unfoldable pub last_effect : List Effect → Option Effect
last_effect [] = none
last_effect (e ∷ []) = some e
last_effect (e ∷ x ∷ es) = last_effect (x ∷ es)

pub last_effect-emit : (es : List Effect) (e : Effect) → last_effect (es ++ (e ∷ [])) ≡ some e
unfolding last_effect
last_effect-emit [] e = refl
last_effect-emit (x ∷ []) e = refl
last_effect-emit (x ∷ y ∷ es) e = last_effect-emit (y ∷ es) e

-- The inhibitor is given back, or the event loop holds one timer that gives it back.
abbrev pub Answered : Environment → State → Type 0
Answered env s =
    (last_effect s.effects ≡ some (dbus_command release_sleep_inhibitor))
    ⊎ ((token : ℕ) × (s.release_timers ≡ token ∷ [])
        × (last_effect (step env s (timer_fired token)).effects
            ≡ some (dbus_command release_sleep_inhibitor))
        × ((step env s (timer_fired token)).lock.locked ≡ true))

released :
    (es : List Effect) (dbus : Bool)
    → dbus ≡ true
    → last_effect (es ++ (if dbus then dbus_command release_sleep_inhibitor ∷ [] else []))
      ≡ some (dbus_command release_sleep_inhibitor)
released es dbus h = rw h (last_effect-emit es (dbus_command release_sleep_inhibitor))

fired-Answered :
    (env : Environment) (s : State) (token : ℕ)
    → s.release_timers ≡ token ∷ []
    → s.lock.locked ≡ true
    → s.lock.dbus ≡ true
    → Answered env s
unfolding step release_timer_fired command
fired-Answered env s token t l h = inr (token, t, released s.effects s.lock.dbus h, l)

release_sleep_after-Answered :
    (env : Environment) (s : State) (delay : ℕ)
    → s.lock.locked ≡ true
    → OneTimer s
    → s.lock.dbus ≡ true
    → Answered env (release_sleep_after env s delay)
unfolding release_sleep_after command
release_sleep_after-Answered env s delay l v h =
    let cancelled = cancel_sleep_release s in
    let path = ap (λ l. l.dbus) (cancel-lock s) ∙ h in
    if_holds (Answered env) env.takes_timers _ _
      (λ _.
        fired-Answered env _ cancelled.next_timer
          (ap (λ ts. cancelled.next_timer ∷ ts) (cancel-timers s v))
          (ap (λ l. l.locked) (cancel-lock s) ∙ l) path)
      (λ _. inl (released cancelled.effects cancelled.lock.dbus path))

lock-dbus : (env : Environment) (s : State) → (lock env s false).lock.dbus ≡ s.lock.dbus
unfolding lock take_input focus_keyboard notify_lock_state command
lock-dbus env s =
    if_holds (λ t. t.lock.dbus ≡ s.lock.dbus) s.lock.locked s _ (λ _. refl) (λ _. refl)

after_grace-Answered :
    (env : Environment) (s : State)
    → Inv s
    → s.lock.dbus ≡ true
    → Answered env (on_prepare_for_sleep env s after_draw_grace)
after_grace-Answered env s v h =
    let pending = with_lock s (record (s.lock) { sleep_pending = true }) in
    let held = lock-Held env pending false v.one_timer (λ e. Inv→Held s e v) in
    release_sleep_after-Answered env (lock env pending false) _ held.is_held held.one_timer
      (lock-dbus env pending ∙ h)

prepare-Answered :
    (env : Environment) (s : State) (locked shown : Bool)
    → s.lock.locked ≡ locked
    → Inv s
    → s.lock.dbus ≡ true
    → Answered env (on_prepare_for_sleep env s (sleep_release locked shown))
unfolding sleep_release command
prepare-Answered env s true true h v d =
    let quiet = cancel_sleep_release (not_pending s) in
    inl
      (released quiet.effects quiet.lock.dbus (ap (λ l. l.dbus) (cancel-lock (not_pending s)) ∙ d))
prepare-Answered env s true false h v d = after_grace-Answered env s v d
prepare-Answered env s false shown h v d = after_grace-Answered env s v d

-- With a connection to logind, in any state that satisfies the invariant, PrepareForSleep leaves
-- the session locked, and either gives the sleep inhibitor back as the last effect, or leaves
-- exactly one timer in the event loop, which gives it back if it is the next to fire and keeps the
-- session locked then.
pub prepare_for_sleep-Answered :
    (env : Environment) (s : State)
    → Inv s
    → s.lock.dbus ≡ true
    → ((step env s (dbus_event prepare_for_sleep)).lock.locked ≡ true)
      × Answered env (step env s (dbus_event prepare_for_sleep))
unfolding step on_dbus_event
prepare_for_sleep-Answered env s v h = (
  prepare-locks env s s.lock.locked s.lock.shown refl v,
  prepare-Answered env s s.lock.locked s.lock.shown refl v h,
)
