-- ===== src/Idle/Arming.antt =====
-- The screensaver's invariant and the arming of the timers (idle/mod.rs).
use veshell.Base.{
  ℕ, ◌≡◌, refl, sym, subst, true, false, ◌&&◌, not, List, ◌∷◌, Option, none, some, ◌==◌, Bool-cases,
  inl, inr, if_holds, not-eq-false,
}
use veshell.Idle.IdleState.{
  IdleStage, active, fading, dimmed, blank, is_blank_stage, idle_dim_fires, blank_fires,
  automatic_power_fires, Timer, State, Environment, is_active, is_disabled, with_idle,
}
use veshell.Idle.Timers.{
  cancel_all, arm_dim, arm_blank, arm_automatic_power, arm_activity_timers, insert_source, inserted,
}
use veshell.Idle.Recorded.{
  AllRecorded, record_dim-Recorded, record_blank-Recorded, record_power-Recorded,
}
use veshell.Idle.Invariant.{PartsOf, Inv, Idles-Parts, cancel-timers}

-- A timer may be armed: the session is active and in the first stage.
abbrev Ready : State → Type 0
Ready s = Inv s × (is_active s.idle.stage ≡ true) × (s.idle.session_active ≡ true)

arm_dim-Ready :
    (env : Environment) (s : State)
    → Ready s
      × (s.idle.dim_token ≡ none)
      × (s.idle.blank_token ≡ none)
      × (s.idle.automatic_power_token ≡ none)
    → Ready (arm_dim env s)
      × ((arm_dim env s).idle.blank_token ≡ none)
      × ((arm_dim env s).idle.automatic_power_token ≡ none)
arm_dim-Ready env s ((v, a, l), d, b, p) =
    if_holds (λ t. Ready t × (t.idle.blank_token ≡ none) × (t.idle.automatic_power_token ≡ none))
      (s.idle.dim_timeout == 0) s
      (with_idle (insert_source env s idle_dim_fires s.idle.dim_timeout)
        (record (s.idle) { dim_token = inserted env s }))
      (λ _. ((v, a, l), b, p))
      λ _. elim (Bool-cases env.takes_timers) [
        | inl e ↦ rw e (
          (parts (some s.next_token) (_ ∷ s.timers) (refl, recorded (some s.next_token)), a, l),
          b,
          p,
        )
        | inr e ↦ rw e ((parts none s.timers (recorded none), a, l), b, p)
      ]
  where
    recorded :
        (o : Option ℕ)
        → AllRecorded o s.idle.blank_token s.idle.fade_token s.idle.automatic_power_token s.timers
    recorded o = record_dim-Recorded o _ _ _ s.timers (
        subst
          (λ d.
            AllRecorded d s.idle.blank_token s.idle.fade_token s.idle.automatic_power_token
              s.timers)
          d v.recorded)

    parts :
        (o : Option ℕ) (ts : List Timer)
        → AllRecorded o s.idle.blank_token s.idle.fade_token s.idle.automatic_power_token ts
        → PartsOf (record (s.idle) { dim_token = o }) ts
    parts o ts r = record {
      recorded = r;
      dims = λ _. a;
      fades = v.fades;
      blanks = v.blanks;
      shows = v.shows;
      pauses = λ e. cc (e, l);
    }

active-not_blank : (t : IdleStage) → is_active t ≡ true → is_blank_stage t ≡ false
active-not_blank active h = refl
active-not_blank fading h = cc
active-not_blank dimmed h = cc
active-not_blank blank h = cc

arm_blank-Ready :
    (env : Environment) (s : State)
    → Ready s × (s.idle.blank_token ≡ none) × (s.idle.automatic_power_token ≡ none)
    → Ready (arm_blank env s) × ((arm_blank env s).idle.automatic_power_token ≡ none)
arm_blank-Ready env s ((v, a, l), b, p) =
    if_holds (λ t. Ready t × (t.idle.automatic_power_token ≡ none)) (s.idle.blank_timeout == 0) s
      (with_idle (insert_source env s blank_fires s.idle.blank_timeout)
        (record (s.idle) { blank_token = inserted env s }))
      (λ _. ((v, a, l), p))
      λ _. elim (Bool-cases env.takes_timers) [
        | inl e ↦ rw e (
          (parts (some s.next_token) (_ ∷ s.timers) (refl, recorded (some s.next_token)), a, l),
          p,
        )
        | inr e ↦ rw e ((parts none s.timers (recorded none), a, l), p)
      ]
  where
    recorded :
        (o : Option ℕ)
        → AllRecorded s.idle.dim_token o s.idle.fade_token s.idle.automatic_power_token s.timers
    recorded o = record_blank-Recorded o _ _ _ s.timers (
        subst
          (λ b.
            AllRecorded s.idle.dim_token b s.idle.fade_token s.idle.automatic_power_token s.timers)
          b v.recorded)

    parts :
        (o : Option ℕ) (ts : List Timer)
        → AllRecorded s.idle.dim_token o s.idle.fade_token s.idle.automatic_power_token ts
        → PartsOf (record (s.idle) { blank_token = o }) ts
    parts o ts r = record {
      recorded = r;
      dims = v.dims;
      fades = v.fades;
      blanks = λ _. active-not_blank _ a;
      shows = v.shows;
      pauses = λ e. cc (e, l);
    }

arm_automatic_power-Inv :
    (env : Environment) (s : State)
    → Ready s × (s.idle.automatic_power_token ≡ none)
    → Inv (arm_automatic_power env s)
arm_automatic_power-Inv env s ((v, a, l), p) =
    if_holds Inv
      (not (s.idle.automatic_power_timeout == 0)
        && (not (is_disabled s.idle.automatic_power_action) && s.idle.power_sender))
      (with_idle (insert_source env s automatic_power_fires s.idle.automatic_power_timeout)
        (record (s.idle) { automatic_power_token = inserted env s }))
      s
      (λ _. elim (Bool-cases env.takes_timers) [
        | inl e ↦
            rw e (parts (some s.next_token) (_ ∷ s.timers) (refl, recorded (some s.next_token)))
        | inr e ↦ rw e (parts none s.timers (recorded none))
      ])
      (λ _. v)
  where
    recorded :
        (o : Option ℕ)
        → AllRecorded s.idle.dim_token s.idle.blank_token s.idle.fade_token o s.timers
    recorded o = record_power-Recorded o _ _ _ s.timers (
        subst (λ p. AllRecorded s.idle.dim_token s.idle.blank_token s.idle.fade_token p s.timers) p
          v.recorded)

    parts :
        (o : Option ℕ) (ts : List Timer)
        → AllRecorded s.idle.dim_token s.idle.blank_token s.idle.fade_token o ts
        → PartsOf (record (s.idle) { automatic_power_token = o }) ts
    parts o ts r = record {
      recorded = r;
      dims = v.dims;
      fades = v.fades;
      blanks = v.blanks;
      shows = v.shows;
      pauses = λ e. cc (e, l);
    }

pub arm_activity_timers-Inv :
    (env : Environment) (s : State)
    → Inv s
    → is_active s.idle.stage ≡ true
    → Inv (arm_activity_timers env s)
unfolding arm_activity_timers cancel_all
arm_activity_timers-Inv env s v a =
    let quiet : Inv (cancel_all s) =
      subst (PartsOf (cancel_all s).idle) (sym (cancel-timers s v))
        (Idles-Parts (cancel_all s).idle (refl, refl, refl, refl) v.shows (λ _. a)) in
    let ready =
      with_idle (cancel_all s)
        (record ((cancel_all s).idle) { automatic_power_triggered = false }) in
    if_holds Inv (not s.idle.session_active) ready
      (arm_automatic_power env (arm_blank env (arm_dim env ready))) (λ _. quiet)
      λ e. arm_automatic_power-Inv env (arm_blank env (arm_dim env ready)) (
        arm_blank-Ready env (arm_dim env ready)
          (arm_dim-Ready env ready ((quiet, a, not-eq-false _ e), refl, refl, refl)))
