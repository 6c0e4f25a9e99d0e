-- ===== src/Lock/Held.antt =====
-- What holds while the session is locked, and what the parts of the handlers keep of it.
use veshell.Base.{
  ℕ, ◌≤◌, ◌<◌, ◌≡◌, refl, Bool, true, false, not, ◌||◌, List, [], ◌∷◌, Option, none, some,
  Bool-cases, inl, inr, arith, ==_iff,
}
use veshell.Lock.LockState.{State, Environment}
use veshell.Lock.Session.{
  start_password, start_fingerprint, fingerprint_allowed, fingerprint_file, cancel_sleep_release,
  remove_timer, remove_token,
}

abbrev pub token_list : Option ℕ → List ℕ
token_list none = []
token_list (some token) = token ∷ []

-- The recorded release timer is the one that the event loop holds.
abbrev pub OneTimer : State → Type 0
OneTimer s = s.release_timers ≡ token_list s.lock.sleep_release_token

pub record HeldParts (locked : Bool) (timers : List ℕ) (token : Option ℕ) (failures : ℕ)
    (running : Bool) : Type 0 where
  pub is_held : locked ≡ true
  pub one_timer : timers ≡ token_list token
  pub attempts : failures ≤ 3
  pub attempts_left : running ≡ true → failures < 3

abbrev pub Held : State → Type 0
Held s =
    HeldParts s.lock.locked s.release_timers s.lock.sleep_release_token s.lock.fingerprint_failures
      s.lock.fingerprint_running

pub start_password-Held : (env : Environment) (s : State) → Held s → Held (start_password env s)
unfolding start_password
start_password-Held env s v = v

allowed_attempts :
    (available : Option Bool) (running : Bool) (failures : ℕ)
    → fingerprint_allowed available running failures ≡ true
    → failures < 3
unfolding fingerprint_allowed
allowed_attempts available running failures h = ground arith

both_allowed : (a b : Bool) → (not a || not b) ≡ false → a ≡ true
both_allowed true b h = refl
both_allowed false b h = cc

pub start_fingerprint-Held :
    (env : Environment) (s : State) → Held s → Held (start_fingerprint env s)
unfolding start_fingerprint
start_fingerprint-Held env s v =
    let allowed =
      fingerprint_allowed s.lock.fingerprint_available s.lock.fingerprint_running
        s.lock.fingerprint_failures in
    elim (Bool-cases (not allowed || not (env.service_installed fingerprint_file))) [
      | inl e ↦ rw e v
      | inr e ↦ rw e (record {
        is_held = v.is_held;
        one_timer = v.one_timer;
        attempts = v.attempts;
        attempts_left = λ _. allowed_attempts _ _ _ (both_allowed _ _ e);
      })
    ]

remove_timer-token :
    (token : Option ℕ) (s : State)
    → s.release_timers ≡ token_list token
    → (remove_token token s).release_timers ≡ []
unfolding remove_timer
remove_timer-token none s h = h
remove_timer-token (some t) s h = rw h (rw ((==_iff t t).1 refl))

remove_token-lock : (token : Option ℕ) (s : State) → (remove_token token s).lock ≡ s.lock
remove_token-lock none s = refl
remove_token-lock (some t) s = refl

-- After a cancellation no release timer is left, whether or not the session is locked.
pub cancel-timers : (s : State) → OneTimer s → (cancel_sleep_release s).release_timers ≡ []
unfolding cancel_sleep_release
cancel-timers s h = remove_timer-token s.lock.sleep_release_token _ h

pub cancel-lock :
    (s : State) → (cancel_sleep_release s).lock ≡ record (s.lock) { sleep_release_token = none }
unfolding cancel_sleep_release
cancel-lock s = remove_token-lock s.lock.sleep_release_token _
