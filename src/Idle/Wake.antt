-- ===== src/Idle/Wake.antt =====
-- What an activity brings back, and when a fade ends.
use veshell.Base.{
  ℕ, ◌-◌, ◌≡◌, refl, sym, ◌∙◌, ap, true, false, not, some, ◌==◌, if◌then◌else◌, if_holds, leb,
  Bool-cases, inl, inr, arith,
}
use veshell.Idle.IdleState.{
  IdleStage, active, fading, dimmed, blank, Alpha, State, Environment, notify_activity, transparent,
  is_active, is_inhibited, emit,
}
use veshell.Idle.Timers.{cancel_all, arm_activity_timers}
use veshell.Idle.Stages.{wake_up, on_activity, fade_tick, progress, is_opaque}
use veshell.Idle.Step.{activity, step}
use veshell.Idle.Invariant.{Inv, Shows, is_dark, is_fading}
use veshell.Idle.Unchanged.{arm-Unchanged}
use veshell.Idle.Schedule.{scheduled, wanted, arm_activity_timers-scheduled}
use veshell.Idle.Arming.{arm_activity_timers-Inv}
use veshell.Idle.Keeps.{awake-Inv}

active-Shows : (t : IdleStage) (a : Alpha) → is_active t ≡ true → Shows t a → a ≡ transparent
active-Shows active a h v = v
active-Shows fading a h v = cc
active-Shows dimmed a h v = cc
active-Shows blank a h v = cc

awake_facts :
    (s : State)
    → s.idle.session_active ≡ true
    → is_inhibited s ≡ false
    → ((if not (is_active s.idle.stage) then wake_up s else s).idle.session_active ≡ true)
      × (is_inhibited (if not (is_active s.idle.stage) then wake_up s else s) ≡ false)
      × (wanted (if not (is_active s.idle.stage) then wake_up s else s).idle ≡ wanted s.idle)
unfolding wanted cancel_all is_inhibited
awake_facts s l n =
    if_holds
      (λ (t : State).
        (t.idle.session_active ≡ true) × (is_inhibited t ≡ false) × (wanted t.idle ≡ wanted s.idle))
      (not (is_active s.idle.stage)) (wake_up s) s (λ _. (l, n, refl)) (λ _. (l, n, refl))

-- An activity in an active session without inhibitors wakes the machine from any stage that
-- satisfies the invariant, if the event loop takes timers: the first stage is back, the overlay
-- is transparent, and the event loop holds exactly the timers that the settings ask for, each
-- with its whole timeout.
pub activity-scheduled :
    (env : Environment) (s : State)
    → env.takes_timers ≡ true
    → Inv s
    → s.idle.session_active ≡ true
    → is_inhibited s ≡ false
    → (is_active (step env s activity).idle.stage ≡ true)
      × ((step env s activity).idle.dim_alpha ≡ transparent)
      × (scheduled (step env s activity).timers ≡ wanted s.idle)
unfolding step on_activity is_inhibited
activity-scheduled env s takes v l n =
    if_holds Woken (not s.idle.session_active) noted
      (if not (is_inhibited awake) then arm_activity_timers env awake else awake) (λ e. cc (e, l))
      λ _.
        if_holds Woken (not (is_inhibited awake)) (arm_activity_timers env awake) awake
          (λ _.
            let stage = ap is_active (arm-Unchanged env awake).1 ∙ first.1 in
            (
              stage,
              active-Shows _ _ stage (arm_activity_timers-Inv env awake first.0 first.1).shows,
              arm_activity_timers-scheduled env takes awake first.0 facts.0 ∙ facts.2,
            ))
          (λ e. cc (e, facts.1))
  where
    Woken : State → Type 0
    Woken t =
        (is_active t.idle.stage ≡ true)
        × (t.idle.dim_alpha ≡ transparent)
        × (scheduled t.timers ≡ wanted s.idle)

    noted : State
    noted = emit s notify_activity

    awake : State
    awake = if not (is_active s.idle.stage) then wake_up noted else noted

    first : Inv awake × (is_active awake.idle.stage ≡ true)
    first = awake-Inv noted v

    facts :
        (awake.idle.session_active ≡ true)
        × (is_inhibited awake ≡ false)
        × (wanted awake.idle ≡ wanted s.idle)
    facts = awake_facts noted l n

is_opaque-progress :
    (elapsed duration : ℕ) → is_opaque (progress elapsed duration) ≡ leb duration elapsed
is_opaque-progress elapsed duration = elim (Bool-cases (duration == 0)) [
  | inl e ↦ rw e (ground arith)
  | inr e ↦ rw e (ground arith)
]

fading-bright : (t : IdleStage) → is_fading t ≡ true → is_dark t ≡ false
fading-bright active h = cc
fading-bright fading h = refl
fading-bright dimmed h = cc
fading-bright blank h = cc

-- A tick of a running fade reaches the dimmed stage exactly if the whole duration of the fade is
-- over.
pub fade_tick-dark :
    (s : State) (started now : ℕ)
    → s.idle.fade_started ≡ some started
    → is_fading s.idle.stage ≡ true
    → is_dark (fade_tick s now).idle.stage ≡ leb s.idle.fade_duration (now - started)
unfolding fade_tick
fade_tick-dark s started now h f =
    rw h (elim (Bool-cases (is_opaque (progress (now - started) s.idle.fade_duration))) [
      | inl e ↦ rw e (sym (sym (is_opaque-progress _ _) ∙ e))
      | inr e ↦ rw e (fading-bright _ f ∙ sym (sym (is_opaque-progress _ _) ∙ e))
    ])
