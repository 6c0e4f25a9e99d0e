-- ===== src/Idle/Keeps.antt =====
-- The screensaver's invariant and the handlers (idle/mod.rs).
use veshell.Base.{
  ◌≡◌, refl, sym, subst, Bool, true, false, not, none, if◌then◌else◌, if_holds, not-eq-false,
}
use veshell.Idle.IdleState.{
  IdleSettings, IdleState, State, Environment, is_active, is_inhibited, emit, with_idle,
  notify_activity, set_is_inhibited,
}
use veshell.Idle.Timers.{cancel_all, arm_activity_timers}
use veshell.Idle.Stages.{
  on_session_paused, wake_up, on_activity, on_session_activated, on_prepare_for_sleep, retain,
  refresh_idle_inhibit, set_timeouts, apply_idle_settings,
}
use veshell.Idle.Invariant.{Shows, PartsOf, Inv, Idles-Parts, cancel-timers}
use veshell.Idle.Arming.{arm_activity_timers-Inv}

-- Every timer cancelled, whatever stage and alpha that belong together are set.
cancelled-Inv :
    (s : State) (i : IdleState)
    → Inv s
    → (i.dim_token ≡ none)
      × (i.blank_token ≡ none)
      × (i.fade_token ≡ none)
      × (i.automatic_power_token ≡ none)
    → Shows i.stage i.dim_alpha
    → (i.session_active ≡ false → is_active i.stage ≡ true)
    → PartsOf i (cancel_all s).timers
cancelled-Inv s i v n a h = subst (PartsOf i) (sym (cancel-timers s v)) (Idles-Parts i n a h)

cancel_all-Inv : (s : State) → Inv s → Inv (cancel_all s)
unfolding cancel_all
cancel_all-Inv s v =
    cancelled-Inv s (cancel_all s).idle v (refl, refl, refl, refl) v.shows (λ e. (v.pauses e).0)

wake_up-Inv : (s : State) → Inv s → Inv (wake_up s)
unfolding cancel_all
wake_up-Inv s v = cancelled-Inv s (wake_up s).idle v (refl, refl, refl, refl) refl (λ _. refl)

pub on_session_paused-Inv : (s : State) → Inv s → Inv (on_session_paused s)
unfolding on_session_paused cancel_all
on_session_paused-Inv s v =
    cancelled-Inv s (on_session_paused s).idle v (refl, refl, refl, refl) refl (λ _. refl)

-- After a wake-up the stage is the first one.
pub awake-Inv :
    (s : State)
    → Inv s
    → Inv (if not (is_active s.idle.stage) then wake_up s else s)
      × (is_active (if not (is_active s.idle.stage) then wake_up s else s).idle.stage ≡ true)
awake-Inv s v =
    if_holds (λ t. Inv t × (is_active t.idle.stage ≡ true)) (not (is_active s.idle.stage))
      (wake_up s) s (λ _. (wake_up-Inv s v, refl)) (λ e. (v, not-eq-false _ e))

pub on_activity-Inv : (env : Environment) (s : State) → Inv s → Inv (on_activity env s)
unfolding on_activity
on_activity-Inv env s v =
    let noted = emit s notify_activity in
    let awake = if not (is_active s.idle.stage) then wake_up noted else noted in
    if_holds Inv (not s.idle.session_active) noted
      (if not (is_inhibited awake) then arm_activity_timers env awake else awake) (λ _. v)
      λ _.
        let (w, a) = awake-Inv noted v in
        if_holds Inv (not (is_inhibited awake)) (arm_activity_timers env awake) awake
          (λ _. arm_activity_timers-Inv env awake w a) (λ _. w)

pub on_session_activated-Inv :
    (env : Environment) (s : State) → Inv s → Inv (on_session_activated env s)
unfolding on_session_activated
on_session_activated-Inv env s v =
    on_activity-Inv env (with_idle s (record (s.idle) { session_active = true })) (record {
      recorded = v.recorded;
      dims = v.dims;
      fades = v.fades;
      blanks = v.blanks;
      shows = v.shows;
      pauses = λ e. cc;
    })

pub on_prepare_for_sleep-Inv :
    (env : Environment) (s : State) (sleeping : Bool)
    → Inv s
    → Inv (on_prepare_for_sleep env s sleeping)
unfolding on_prepare_for_sleep
on_prepare_for_sleep-Inv env s true v = cancel_all-Inv s v
on_prepare_for_sleep-Inv env s false v = on_activity-Inv env s v

pub refresh_idle_inhibit-Inv :
    (env : Environment) (s : State) → Inv s → Inv (refresh_idle_inhibit env s)
unfolding refresh_idle_inhibit
refresh_idle_inhibit-Inv env s v =
    let kept =
      with_idle s
        (record (s.idle) { inhibiting_surfaces = retain env.alive s.idle.inhibiting_surfaces }) in
    let told = emit kept (set_is_inhibited (is_inhibited kept)) in
    let free = if is_active s.idle.stage then arm_activity_timers env told else told in
    let held = if not (is_active s.idle.stage) then wake_up told else cancel_all told in
    if_holds Inv (not (is_inhibited kept)) free held
      (λ _.
        if_holds Inv (is_active s.idle.stage) (arm_activity_timers env told) told
          (λ e. arm_activity_timers-Inv env told v e) (λ _. v))
      (λ _.
        if_holds Inv (not (is_active s.idle.stage)) (wake_up told) (cancel_all told)
          (λ _. wake_up-Inv told v) (λ _. cancel_all-Inv told v))

pub apply_idle_settings-Inv :
    (env : Environment) (s : State) (settings : IdleSettings)
    → Inv s
    → Inv (apply_idle_settings env s settings)
unfolding apply_idle_settings
apply_idle_settings-Inv env s settings v =
    let t = set_timeouts s settings in
    if_holds Inv (is_active s.idle.stage)
      (if is_inhibited t then cancel_all t else arm_activity_timers env t) t
      (λ e.
        if_holds Inv (is_inhibited t) (cancel_all t) (arm_activity_timers env t)
          (λ _. cancel_all-Inv t v) (λ _. arm_activity_timers-Inv env t v e))
      (λ _. v)
