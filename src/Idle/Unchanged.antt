-- ===== src/Idle/Unchanged.antt =====
-- What arming the timers leaves as it was.
use veshell.Base.{◌≡◌, refl, ◌∙◌, false, ◌&&◌, not, ◌==◌, if_holds}
use veshell.Idle.IdleState.{
  idle_dim_fires, blank_fires, automatic_power_fires, State, Environment, is_disabled, with_idle,
}
use veshell.Idle.Timers.{
  cancel_all, arm_dim, arm_blank, arm_automatic_power, arm_activity_timers, insert_source, inserted,
}

-- The effects so far and the stage.
abbrev pub Unchanged : State → State → Type 0
Unchanged s t = (t.effects ≡ s.effects) × (t.idle.stage ≡ s.idle.stage)

arm_dim-Unchanged : (env : Environment) (s : State) → Unchanged s (arm_dim env s)
arm_dim-Unchanged env s =
    if_holds (Unchanged s) (s.idle.dim_timeout == 0) s
      (with_idle (insert_source env s idle_dim_fires s.idle.dim_timeout)
        (record (s.idle) { dim_token = inserted env s }))
      (λ _. (refl, refl)) (λ _. (refl, refl))

arm_blank-Unchanged : (env : Environment) (s : State) → Unchanged s (arm_blank env s)
arm_blank-Unchanged env s =
    if_holds (Unchanged s) (s.idle.blank_timeout == 0) s
      (with_idle (insert_source env s blank_fires s.idle.blank_timeout)
        (record (s.idle) { blank_token = inserted env s }))
      (λ _. (refl, refl)) (λ _. (refl, refl))

arm_automatic_power-Unchanged :
    (env : Environment) (s : State) → Unchanged s (arm_automatic_power env s)
arm_automatic_power-Unchanged env s =
    if_holds (Unchanged s)
      (not (s.idle.automatic_power_timeout == 0)
        && (not (is_disabled s.idle.automatic_power_action) && s.idle.power_sender))
      (with_idle (insert_source env s automatic_power_fires s.idle.automatic_power_timeout)
        (record (s.idle) { automatic_power_token = inserted env s }))
      s (λ _. (refl, refl)) (λ _. (refl, refl))

pub arm-Unchanged : (env : Environment) (s : State) → Unchanged s (arm_activity_timers env s)
unfolding arm_activity_timers cancel_all
arm-Unchanged env s =
    let ready =
      with_idle (cancel_all s)
        (record ((cancel_all s).idle) { automatic_power_triggered = false }) in
    let dimming = arm_dim env ready in
    let blanking = arm_blank env dimming in
    let (e, t) = arm_dim-Unchanged env ready in
    let (e', t') = arm_blank-Unchanged env dimming in
    let (e'', t'') = arm_automatic_power-Unchanged env blanking in
    if_holds (Unchanged s) (not s.idle.session_active) ready (arm_automatic_power env blanking)
      (λ _. (refl, refl)) (λ _. (e'' ∙ e' ∙ e, t'' ∙ t' ∙ t))
