-- ===== src/Idle/Recorded.antt =====
-- The timers that the event loop holds, and the tokens that the screensaver has recorded.
use veshell.Base.{
  ℕ, ◌≡◌, ◌≢◌, refl, sym, ap, subst, inl, inr, List, [], ◌∷◌, Option, none, some, ◌==◌, ==_iff,
  if_holds, All,
}
use veshell.Idle.IdleState.{
  Callback, idle_dim_fires, fade_ticks, blank_fires, automatic_power_fires, Timer,
}
use veshell.Idle.Timers.{remove_timer, remove_token}
use veshell.Idle.Step.{Holds}

-- The token recorded for a callback: of the dim, blank, fade and power timers in this order.
abbrev pub slot : Option ℕ → Option ℕ → Option ℕ → Option ℕ → Callback → Option ℕ
slot d b f p idle_dim_fires = d
slot d b f p blank_fires = b
slot d b f p fade_ticks = f
slot d b f p automatic_power_fires = p

abbrev pub AllRecorded : Option ℕ → Option ℕ → Option ℕ → Option ℕ → List Timer → Type 0
AllRecorded d b f p ts = All (λ (t : Timer). slot d b f p t.callback ≡ some t.token) ts

abbrev unwrap : ℕ → Option ℕ → ℕ
unwrap otherwise none = otherwise
unwrap otherwise (some x) = x

module _ (R S : Callback → ℕ → Type 0) where
  -- What holds of every timer but the removed one.
  remove-All :
      (o : Option ℕ) (ts : List Timer)
      → ((c : Callback) (token : ℕ) → R c token → o ≢ some token → S c token)
      → All (λ (t : Timer). R t.callback t.token) ts
      → All (λ (t : Timer). S t.callback t.token) (remove_token o ts)
  unfolding remove_timer
  remove-All none [] k v = tt
  remove-All none (t ∷ ts) k v = (k t.callback t.token v.0 (λ e. cc), remove-All none ts k v.1)
  remove-All (some token) [] k v = tt
  remove-All (some token) (t ∷ ts) k v =
      let rest = remove-All (some token) ts k v.1 in
      if_holds (All (λ (u : Timer). S u.callback u.token)) (t.token == token)
        (remove_timer token ts) (t ∷ remove_timer token ts) (λ _. rest)
        λ e. (
          k t.callback t.token v.0
              (λ q. cc (e, (==_iff t.token token).1 (ap (unwrap token) (sym q)))),
          rest,
        )

module _ (d b f p : Option ℕ) (ts : List Timer) where
  pub forget_dim-Recorded : AllRecorded d b f p ts → AllRecorded none b f p (remove_token d ts)
  forget_dim-Recorded v =
      remove-All (λ c t. slot d b f p c ≡ some t) (λ c t. slot none b f p c ≡ some t) d ts kept v
    where
      kept :
          (c : Callback) (t : ℕ) → slot d b f p c ≡ some t → d ≢ some t → slot none b f p c ≡ some t
      kept idle_dim_fires t h n = absurd (n h)
      kept fade_ticks t h n = h
      kept blank_fires t h n = h
      kept automatic_power_fires t h n = h

  pub forget_blank-Recorded : AllRecorded d b f p ts → AllRecorded d none f p (remove_token b ts)
  forget_blank-Recorded v =
      remove-All (λ c t. slot d b f p c ≡ some t) (λ c t. slot d none f p c ≡ some t) b ts kept v
    where
      kept :
          (c : Callback) (t : ℕ) → slot d b f p c ≡ some t → b ≢ some t → slot d none f p c ≡ some t
      kept idle_dim_fires t h n = h
      kept fade_ticks t h n = h
      kept blank_fires t h n = absurd (n h)
      kept automatic_power_fires t h n = h

  pub forget_fade-Recorded : AllRecorded d b f p ts → AllRecorded d b none p (remove_token f ts)
  forget_fade-Recorded v =
      remove-All (λ c t. slot d b f p c ≡ some t) (λ c t. slot d b none p c ≡ some t) f ts kept v
    where
      kept :
          (c : Callback) (t : ℕ) → slot d b f p c ≡ some t → f ≢ some t → slot d b none p c ≡ some t
      kept idle_dim_fires t h n = h
      kept fade_ticks t h n = absurd (n h)
      kept blank_fires t h n = h
      kept automatic_power_fires t h n = h

  pub forget_power-Recorded : AllRecorded d b f p ts → AllRecorded d b f none (remove_token p ts)
  forget_power-Recorded v =
      remove-All (λ c t. slot d b f p c ≡ some t) (λ c t. slot d b f none c ≡ some t) p ts kept v
    where
      kept :
          (c : Callback) (t : ℕ) → slot d b f p c ≡ some t → p ≢ some t → slot d b f none c ≡ some t
      kept idle_dim_fires t h n = h
      kept fade_ticks t h n = h
      kept blank_fires t h n = h
      kept automatic_power_fires t h n = absurd (n h)

-- A free slot takes any token.
module _ (o b f p : Option ℕ) (ts : List Timer) where
  pub record_dim-Recorded : AllRecorded none b f p ts → AllRecorded o b f p ts
  record_dim-Recorded v =
      remove-All (λ c t. slot none b f p c ≡ some t) (λ c t. slot o b f p c ≡ some t) none ts kept v
    where
      kept :
          (c : Callback) (t : ℕ)
          → slot none b f p c ≡ some t
          → none ≢ some t
          → slot o b f p c ≡ some t
      kept idle_dim_fires t h n = cc
      kept fade_ticks t h n = h
      kept blank_fires t h n = h
      kept automatic_power_fires t h n = h

  pub record_blank-Recorded : AllRecorded b none f p ts → AllRecorded b o f p ts
  record_blank-Recorded v =
      remove-All (λ c t. slot b none f p c ≡ some t) (λ c t. slot b o f p c ≡ some t) none ts kept v
    where
      kept :
          (c : Callback) (t : ℕ)
          → slot b none f p c ≡ some t
          → none ≢ some t
          → slot b o f p c ≡ some t
      kept idle_dim_fires t h n = h
      kept fade_ticks t h n = h
      kept blank_fires t h n = cc
      kept automatic_power_fires t h n = h

  pub record_fade-Recorded : AllRecorded b f none p ts → AllRecorded b f o p ts
  record_fade-Recorded v =
      remove-All (λ c t. slot b f none p c ≡ some t) (λ c t. slot b f o p c ≡ some t) none ts kept v
    where
      kept :
          (c : Callback) (t : ℕ)
          → slot b f none p c ≡ some t
          → none ≢ some t
          → slot b f o p c ≡ some t
      kept idle_dim_fires t h n = h
      kept fade_ticks t h n = cc
      kept blank_fires t h n = h
      kept automatic_power_fires t h n = h

  pub record_power-Recorded : AllRecorded b f p none ts → AllRecorded b f p o ts
  record_power-Recorded v =
      remove-All (λ c t. slot b f p none c ≡ some t) (λ c t. slot b f p o c ≡ some t) none ts kept v
    where
      kept :
          (c : Callback) (t : ℕ)
          → slot b f p none c ≡ some t
          → none ≢ some t
          → slot b f p o c ≡ some t
      kept idle_dim_fires t h n = h
      kept fade_ticks t h n = h
      kept blank_fires t h n = h
      kept automatic_power_fires t h n = cc

-- Without recorded tokens the event loop holds no timer.
pub none_recorded : (ts : List Timer) → AllRecorded none none none none ts → ts ≡ []
none_recorded [] v = refl
none_recorded (t ∷ ts) v = absurd (empty t.callback t.token v.0)
  where
    empty : (c : Callback) (t : ℕ) → slot none none none none c ≡ some t → ⊥
    empty idle_dim_fires t h = cc
    empty fade_ticks t h = cc
    empty blank_fires t h = cc
    empty automatic_power_fires t h = cc

-- A timer that the event loop holds is recorded under its callback.
pub Holds-slot :
    (d b f p : Option ℕ) (ts : List Timer) (timer : Timer)
    → AllRecorded d b f p ts
    → Holds ts timer
    → slot d b f p timer.callback ≡ some timer.token
Holds-slot d b f p [] timer v h = elim h [ ]
Holds-slot d b f p (t ∷ ts) timer v (inl e) =
    subst (λ (u : Timer). slot d b f p u.callback ≡ some u.token) e v.0
Holds-slot d b f p (t ∷ ts) timer v (inr h) = Holds-slot d b f p ts timer v.1 h
