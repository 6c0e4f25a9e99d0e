-- ===== src/Idle/Schedule.antt =====
-- Which timers an activity leaves, and when a fade ends.
use veshell.Base.{
  ℕ, ◌≡◌, refl, ◌∙◌, ap, ap₂, append-nil, Bool, true, false, ◌&&◌, not, List, [], ◌∷◌, ◌++◌, ◌==◌,
  if◌then◌else◌, if_holds, Bool-cases, inl, inr,
}
use veshell.Idle.IdleState.{
  IdleState, Callback, idle_dim_fires, blank_fires, automatic_power_fires, Timer, State,
  Environment, is_disabled, with_idle,
}
use veshell.Idle.Timers.{
  cancel_all, arm_dim, arm_blank, arm_automatic_power, arm_activity_timers, insert_source, inserted,
}
use veshell.Idle.Invariant.{Inv, cancel-timers}

-- What a timer will do, and after how long.
abbrev pub scheduled : List Timer → List (Callback × ℕ)
scheduled [] = []
scheduled (t ∷ ts) = (t.callback, t.delay) ∷ scheduled ts

abbrev when : Bool → Callback → ℕ → List (Callback × ℕ)
when test callback delay = if test then (callback, delay) ∷ [] else []

abbrev asks_power : IdleState → Bool
asks_power i =
    not (i.automatic_power_timeout == 0)
    && (not (is_disabled i.automatic_power_action) && i.power_sender)

abbrev power_part : IdleState → List (Callback × ℕ)
power_part i = when (asks_power i) automatic_power_fires i.automatic_power_timeout

abbrev blank_part : IdleState → List (Callback × ℕ)
blank_part i = when (not (i.blank_timeout == 0)) blank_fires i.blank_timeout

abbrev dim_part : IdleState → List (Callback × ℕ)
dim_part i = when (not (i.dim_timeout == 0)) idle_dim_fires i.dim_timeout

-- The timers that the settings ask for.
unfoldable pub wanted : IdleState → List (Callback × ℕ)
wanted i = power_part i ++ (blank_part i ++ dim_part i)

module _ (env : Environment) (takes : env.takes_timers ≡ true) where
  arm_dim-scheduled :
      (s : State) → scheduled (arm_dim env s).timers ≡ dim_part s.idle ++ scheduled s.timers
  arm_dim-scheduled s = elim (Bool-cases (s.idle.dim_timeout == 0)) [
    | inl e ↦ rw e refl
    | inr e ↦ rw (e, takes) refl
  ]

  arm_blank-scheduled :
      (s : State) → scheduled (arm_blank env s).timers ≡ blank_part s.idle ++ scheduled s.timers
  arm_blank-scheduled s = elim (Bool-cases (s.idle.blank_timeout == 0)) [
    | inl e ↦ rw e refl
    | inr e ↦ rw (e, takes) refl
  ]

  arm_automatic_power-scheduled :
      (s : State)
      → scheduled (arm_automatic_power env s).timers ≡ power_part s.idle ++ scheduled s.timers
  arm_automatic_power-scheduled s = elim (Bool-cases (asks_power s.idle)) [
    | inl e ↦ rw (e, takes) refl
    | inr e ↦ rw e refl
  ]

  -- Arming one timer leaves the settings of the others.
  arm_dim-parts :
      (s : State)
      → (power_part (arm_dim env s).idle ≡ power_part s.idle)
        × (blank_part (arm_dim env s).idle ≡ blank_part s.idle)
  arm_dim-parts s =
      if_holds
        (λ (t : State).
          (power_part t.idle ≡ power_part s.idle) × (blank_part t.idle ≡ blank_part s.idle))
        (s.idle.dim_timeout == 0) s
        (with_idle (insert_source env s idle_dim_fires s.idle.dim_timeout)
          (record (s.idle) { dim_token = inserted env s }))
        (λ _. (refl, refl)) (λ _. (refl, refl))

  arm_blank-parts : (s : State) → power_part (arm_blank env s).idle ≡ power_part s.idle
  arm_blank-parts s =
      if_holds (λ (t : State). power_part t.idle ≡ power_part s.idle) (s.idle.blank_timeout == 0) s
        (with_idle (insert_source env s blank_fires s.idle.blank_timeout)
          (record (s.idle) { blank_token = inserted env s }))
        (λ _. refl) (λ _. refl)

  pub arm_activity_timers-scheduled :
      (s : State)
      → Inv s
      → s.idle.session_active ≡ true
      → scheduled (arm_activity_timers env s).timers ≡ wanted s.idle
  unfolding arm_activity_timers cancel_all wanted
  arm_activity_timers-scheduled s v l =
      let ready =
        with_idle (cancel_all s)
          (record ((cancel_all s).idle) { automatic_power_triggered = false }) in
      let dimming = arm_dim env ready in
      let blanking = arm_blank env dimming in
      let dims : scheduled dimming.timers ≡ dim_part s.idle =
        arm_dim-scheduled ready
        ∙ ap (λ ts. dim_part s.idle ++ scheduled ts) (cancel-timers s v)
        ∙ append-nil (dim_part s.idle) in
      let blanks : scheduled blanking.timers ≡ blank_part s.idle ++ dim_part s.idle =
        arm_blank-scheduled dimming ∙ ap₂ (λ u w. u ++ w) (arm_dim-parts ready).1 dims in
      if_holds (λ (t : State). scheduled t.timers ≡ wanted s.idle) (not s.idle.session_active) ready
        (arm_automatic_power env blanking) (λ e. cc (e, l))
        λ _.
          arm_automatic_power-scheduled blanking
          ∙ ap₂ (λ u w. u ++ w) (arm_blank-parts dimming ∙ (arm_dim-parts ready).0) blanks
