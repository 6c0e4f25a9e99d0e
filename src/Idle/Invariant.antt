-- ===== src/Idle/Invariant.antt =====
-- What holds of the screensaver between two events.
use veshell.Base.{ℕ, ◌≡◌, Bool, true, false, List, [], Option, none, some}
use veshell.Idle.IdleState.{
  IdleStage, active, fading, dimmed, blank, Alpha, transparent, IdleState, Timer, State, is_active,
  is_blank_stage,
}
use veshell.Idle.Timers.{cancel_all}
use veshell.Idle.Stages.{is_opaque}
use veshell.Idle.Recorded.{
  AllRecorded, forget_dim-Recorded, forget_blank-Recorded, forget_fade-Recorded,
  forget_power-Recorded, none_recorded,
}

abbrev pub has : Option ℕ → Bool
has none = false
has (some token) = true

abbrev pub is_fading : IdleStage → Bool
is_fading fading = true
is_fading _ = false

abbrev pub is_dark : IdleStage → Bool
is_dark dimmed = true
is_dark blank = true
is_dark _ = false

-- The alpha that a stage shows.
abbrev pub Shows : IdleStage → Alpha → Type 0
Shows active alpha = alpha ≡ transparent
Shows fading alpha = Unit
Shows dimmed alpha = is_opaque alpha ≡ true
Shows blank alpha = is_opaque alpha ≡ true

-- No token is recorded.
abbrev pub Idles : IdleState → Type 0
Idles i =
    (i.dim_token ≡ none)
    × (i.blank_token ≡ none)
    × (i.fade_token ≡ none)
    × (i.automatic_power_token ≡ none)

pub record Parts (stage : IdleStage) (alpha : Alpha) (dim blank_ fade power : Option ℕ)
    (session_active : Bool) (timers : List Timer) : Type 0 where
  pub recorded : AllRecorded dim blank_ fade power timers
  pub dims : has dim ≡ true → is_active stage ≡ true
  pub fades : has fade ≡ true → is_fading stage ≡ true
  pub blanks : has blank_ ≡ true → is_blank_stage stage ≡ false
  pub shows : Shows stage alpha
  pub pauses :
      session_active ≡ false
      → (is_active stage ≡ true) × ((dim ≡ none) × (blank_ ≡ none) × (fade ≡ none) × (power ≡ none))

abbrev pub PartsOf : IdleState → List Timer → Type 0
PartsOf i timers =
    Parts i.stage i.dim_alpha i.dim_token i.blank_token i.fade_token i.automatic_power_token
      i.session_active timers

abbrev pub Inv : State → Type 0
Inv s = PartsOf s.idle s.timers

-- Without recorded tokens most of it holds by itself.
pub Idles-Parts :
    (i : IdleState)
    → Idles i
    → Shows i.stage i.dim_alpha
    → (i.session_active ≡ false → is_active i.stage ≡ true)
    → PartsOf i []
Idles-Parts i (d, b, f, p) a h = record {
  recorded = tt;
  dims = λ e. cc (d, e);
  fades = λ e. cc (f, e);
  blanks = λ e. cc (b, e);
  shows = a;
  pauses = λ e. (h e, (d, b, f, p));
}

-- A cancellation of every timer leaves none in the event loop.
pub cancel-timers : (s : State) → Inv s → (cancel_all s).timers ≡ []
unfolding cancel_all
cancel-timers s v = none_recorded _ (
    forget_power-Recorded none none none _ _ (
      forget_fade-Recorded none none _ _ _
        (forget_blank-Recorded none _ _ _ _ (forget_dim-Recorded _ _ _ _ _ v.recorded))))
