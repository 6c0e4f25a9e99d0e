-- ===== src/Idle/Firing.antt =====
-- The screensaver's invariant and the callbacks of the timers (idle/mod.rs).
use veshell.Base.{
  ℕ, ◌≡◌, refl, subst, true, false, ◌||◌, not, List, ◌∷◌, Option, none, some, Bool-cases, inl, inr,
  if_holds,
}
use veshell.Idle.IdleState.{
  IdleStage, active, fading, dimmed, blank, Alpha, opaque, Callback, idle_dim_fires, fade_ticks,
  blank_fires, automatic_power_fires, Timer, State, Environment, is_active, is_blank_stage,
  is_inhibited, emit, with_idle, set_idle, request_render,
}
use veshell.Idle.Timers.{cancel_visual_timers, remove_timer, remove_token}
use veshell.Idle.Stages.{
  is_opaque, end_fade, tick, tick_from, fade_tick, start_fade, idle_dim_fired, blank_now,
  blank_fired, automatic_power_fired,
}
use veshell.Idle.Step.{fire}
use veshell.Idle.Recorded.{
  slot, AllRecorded, forget_dim-Recorded, forget_blank-Recorded, forget_fade-Recorded,
  forget_power-Recorded, record_fade-Recorded,
}
use veshell.Idle.Invariant.{has, is_fading, Shows, PartsOf, Inv}

fading-not_active : (t : IdleStage) → is_fading t ≡ true → is_active t ≡ false
fading-not_active active h = cc
fading-not_active fading h = refl
fading-not_active dimmed h = cc
fading-not_active blank h = cc

fading-Shows : (t : IdleStage) (a : Alpha) → is_fading t ≡ true → Shows t a
fading-Shows active a h = cc
fading-Shows fading a h = tt
fading-Shows dimmed a h = cc
fading-Shows blank a h = cc

none-of_has : (o : Option ℕ) → has o ≡ false → o ≡ none
none-of_has none h = refl
none-of_has (some x) h = cc

-- While a fade runs, the session is active and no dim timer is recorded.
end_fade-Inv :
    (s : State)
    → Inv s
    → is_fading s.idle.stage ≡ true
    → is_opaque s.idle.dim_alpha ≡ true
    → Inv (end_fade s)
end_fade-Inv s v f o = record {
  recorded = forget_fade-Recorded _ _ _ _ _ v.recorded;
  dims = λ e. cc (v.dims e, fading-not_active _ f);
  fades = λ e. cc;
  blanks = λ e. refl;
  shows = o;
  pauses = λ e. cc ((v.pauses e).0, fading-not_active _ f);
}

with_alpha-Inv :
    (s : State) (a : Alpha)
    → Inv s
    → is_fading s.idle.stage ≡ true
    → Inv (with_idle s (record (s.idle) { dim_alpha = a }))
with_alpha-Inv s a v f = record {
  recorded = v.recorded;
  dims = v.dims;
  fades = v.fades;
  blanks = v.blanks;
  shows = fading-Shows _ a f;
  pauses = v.pauses;
}

tick-Inv : (s : State) (a : Alpha) → Inv s → is_fading s.idle.stage ≡ true → Inv (tick s a)
tick-Inv s a v f =
    let shown =
      emit (emit (with_idle s (record (s.idle) { dim_alpha = a })) (set_idle a false))
        request_render in
    let w : Inv shown = with_alpha-Inv s a v f in
    if_holds Inv (is_opaque a) (end_fade shown) shown (λ o. end_fade-Inv shown w f o) (λ _. w)

tick_from-Inv :
    (o : Option ℕ) (s : State) (now : ℕ)
    → Inv s
    → is_fading s.idle.stage ≡ true
    → Inv (tick_from o s now)
tick_from-Inv none s now v f = v
tick_from-Inv (some started) s now v f = tick-Inv s _ v f

idle_dim_fired-Inv :
    (env : Environment) (s : State) (token now : ℕ)
    → s.idle.dim_token ≡ some token
    → Inv s
    → Inv (idle_dim_fired env (record s { timers = remove_timer token s.timers }) now)
unfolding idle_dim_fired fade_tick
idle_dim_fired-Inv env s token now h v =
    let dropped = record s { timers = remove_timer token s.timers } in
    tick_from-Inv (some now) (start_fade env dropped now) now
      (elim (Bool-cases env.takes_timers) [
        | inl e ↦ rw e (
            started (some s.next_token) (_ ∷ remove_timer token s.timers)
              (refl, recorded (some s.next_token)))
        | inr e ↦ rw e (started none (remove_timer token s.timers) (recorded none))
      ])
      refl
  where
    no_fade : s.idle.fade_token ≡ none
    no_fade = elim (Bool-cases (has s.idle.fade_token)) [
      | inl e ↦ cc (v.dims (rw h refl), fading-not_active _ (v.fades e))
      | inr e ↦ none-of_has _ e
    ]

    recorded :
        (o : Option ℕ)
        → AllRecorded none s.idle.blank_token o s.idle.automatic_power_token
            (remove_timer token s.timers)
    recorded o = record_fade-Recorded o none _ _ _ (
        subst
          (λ f.
            AllRecorded none s.idle.blank_token f s.idle.automatic_power_token
              (remove_timer token s.timers))
          no_fade
          (subst
            (λ d.
              AllRecorded none s.idle.blank_token s.idle.fade_token s.idle.automatic_power_token
                (remove_token d s.timers))
            h (forget_dim-Recorded _ _ _ _ _ v.recorded)))

    started :
        (o : Option ℕ) (ts : List Timer)
        → AllRecorded none s.idle.blank_token o s.idle.automatic_power_token ts
        → PartsOf
            (record (s.idle) {
              dim_token = none;
              stage = fading;
              fade_started = some now;
              fade_token = o;
            })
            ts
    started o ts r = record {
      recorded = r;
      dims = λ e. cc;
      fades = λ e. refl;
      blanks = λ e. refl;
      shows = tt;
      pauses = λ e. cc (h, (v.pauses e).1.0);
    }

blank_fired-Inv :
    (env : Environment) (s : State) (token : ℕ)
    → s.idle.blank_token ≡ some token
    → Inv s
    → Inv (blank_fired env (record s { timers = remove_timer token s.timers }))
unfolding blank_fired cancel_visual_timers
blank_fired-Inv env s token h v =
    let dropped = record s { timers = remove_timer token s.timers } in
    if_holds Inv (is_blank_stage s.idle.stage) dropped (blank_now env dropped)
      (λ e. cc (e, v.blanks (rw h refl)))
      λ _. elim (Bool-cases env.can_blank) [
        | inl e ↦ rw e (dark blank refl refl)
        | inr e ↦ rw e (dark dimmed refl refl)
      ]
  where
    dark :
        (t : IdleStage)
        → Shows t opaque
        → is_active t ≡ false
        → PartsOf
            (record (s.idle) {
              stage = t;
              dim_alpha = opaque;
              dim_token = none;
              blank_token = none;
              fade_token = none;
            })
            (remove_token s.idle.fade_token
              (remove_token s.idle.dim_token (remove_timer token s.timers)))
    dark t a n = record {
      recorded = forget_fade-Recorded none none _ _ _ (
          forget_dim-Recorded _ none _ _ _ (
            subst
              (λ b.
                AllRecorded s.idle.dim_token none s.idle.fade_token s.idle.automatic_power_token
                  (remove_token b s.timers))
              h (forget_blank-Recorded _ _ _ _ _ v.recorded)));
      dims = λ e. cc;
      fades = λ e. cc;
      blanks = λ e. cc;
      shows = a;
      pauses = λ e. cc (h, (v.pauses e).1.1);
    }

automatic_power_fired-Inv :
    (s : State) (token : ℕ)
    → s.idle.automatic_power_token ≡ some token
    → Inv s
    → Inv (automatic_power_fired (record s { timers = remove_timer token s.timers }))
unfolding automatic_power_fired is_inhibited remove_timer
automatic_power_fired-Inv s token h v =
    if_holds Inv (not s.idle.session_active || (s.idle.automatic_power_triggered || is_inhibited s))
      _ _ (λ _. fired) (λ _. fired)
  where
    fired : PartsOf (record (s.idle) { automatic_power_token = none }) (remove_timer token s.timers)
    fired = record {
      recorded =
          subst
            (λ p.
              AllRecorded s.idle.dim_token s.idle.blank_token s.idle.fade_token none
                (remove_token p s.timers))
            h (forget_power-Recorded _ _ _ _ _ v.recorded);
      dims = v.dims;
      fades = v.fades;
      blanks = v.blanks;
      shows = v.shows;
      pauses = λ e. cc (h, (v.pauses e).1.3);
    }

-- A recorded timer fires.
pub fire-Inv :
    (env : Environment) (s : State) (timer : Timer) (c : Callback) (now : ℕ)
    → slot s.idle.dim_token s.idle.blank_token s.idle.fade_token s.idle.automatic_power_token c
      ≡ some timer.token
    → Inv s
    → Inv (fire env s timer c now)
unfolding fade_tick
fire-Inv env s timer idle_dim_fires now h v = idle_dim_fired-Inv env s timer.token now h v
fire-Inv env s timer fade_ticks now h v =
    tick_from-Inv s.idle.fade_started s now v (v.fades (rw h refl))
fire-Inv env s timer blank_fires now h v = blank_fired-Inv env s timer.token h v
fire-Inv env s timer automatic_power_fires now h v = automatic_power_fired-Inv s timer.token h v
