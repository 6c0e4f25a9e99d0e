-- ===== src/Lock/Invariant.antt =====
-- What holds of the lock between two events, locked or not.
use Prim.Native.String.{String}
use veshell.Base.{
  ℕ, ◌≤◌, ◌<◌, ◌≡◌, refl, sym, ap, subst, ◌∙◌, Bool, true, false, not, [], Option, none, some,
  arith, if_holds, not-eq-true, not-eq-false,
}
use veshell.Lock.LockState.{
  LockState, State, Environment, command, notify_lock_state, focus_keyboard,
}
use veshell.Lock.Session.{
  unlocking, lock, unlock, take_input, give_input_back, restore_focus, restored,
  cancel_sleep_release, start_authentication, start_password,
}
use veshell.Lock.Auth.{respond, respond_to, respond_locked, start_if_none}
use veshell.Lock.Held.{
  token_list, OneTimer, Held, start_password-Held, start_fingerprint-Held, cancel-timers,
  cancel-lock,
}

-- Nothing of a lock is left.
abbrev pub Cleared : LockState → Type 0
Cleared l =
    (l.password ≡ none)
    × (l.pending_prompt ≡ none)
    × (l.queued_response ≡ none)
    × (l.fingerprint_running ≡ false)
    × (l.fingerprint_message ≡ none)
    × (l.sleep_pending ≡ false)
    × (l.sleep_release_token ≡ none)

pub record Inv (s : State) : Type 0 where
  pub cleared : s.lock.locked ≡ false → Cleared s.lock
  pub one_timer : OneTimer s
  pub attempts : s.lock.fingerprint_failures ≤ 3
  pub attempts_left : s.lock.fingerprint_running ≡ true → s.lock.fingerprint_failures < 3

pub Held→Inv : (s : State) → Held s → Inv s
Held→Inv s v = record {
  cleared = λ h. cc (v.is_held);
  one_timer = v.one_timer;
  attempts = v.attempts;
  attempts_left = v.attempts_left;
}

pub Inv→Held : (s : State) → s.lock.locked ≡ true → Inv s → Held s
Inv→Held s h v = record {
  is_held = h;
  one_timer = v.one_timer;
  attempts = v.attempts;
  attempts_left = v.attempts_left;
}

start_authentication-Held :
    (env : Environment) (a : Bool) (s : State) → Held s → Held (start_authentication env a s)
start_authentication-Held env true s v =
    start_fingerprint-Held env (start_password env s) (start_password-Held env s v)
start_authentication-Held env false s v = v

pub lock-Held :
    (env : Environment) (s : State) (a : Bool)
    → OneTimer s
    → (s.lock.locked ≡ true → Held s)
    → Held (lock env s a)
unfolding lock take_input focus_keyboard notify_lock_state command
lock-Held env s a timer v = if_holds Held s.lock.locked _ _ v λ e.
    start_authentication-Held env a _ (record {
      is_held = refl;
      one_timer = timer;
      attempts = omega arith;
      attempts_left = λ _. omega arith;
    })

restore_focus-lock : (target : Option ℕ) (s : State) → (restore_focus target s).lock ≡ s.lock
unfolding focus_keyboard
restore_focus-lock none s = refl
restore_focus-lock (some t) s = refl

restore_focus-timers :
    (target : Option ℕ) (s : State) → (restore_focus target s).release_timers ≡ s.release_timers
unfolding focus_keyboard
restore_focus-timers none s = refl
restore_focus-timers (some t) s = refl

pub Inv-same : (s t : State) → s.lock ≡ t.lock → s.release_timers ≡ t.release_timers → Inv s → Inv t
Inv-same s t p q v = record {
  cleared = subst (λ (l : LockState). l.locked ≡ false → Cleared l) p v.cleared;
  one_timer = sym q ∙ v.one_timer ∙ ap (λ l. token_list l.sleep_release_token) p;
  attempts = subst (λ (l : LockState). l.fingerprint_failures ≤ 3) p v.attempts;
  attempts_left =
      subst (λ (l : LockState). l.fingerprint_running ≡ true → l.fingerprint_failures < 3) p
        v.attempts_left;
}

-- The lock of an unlocked session whose timers are gone.
Inv-unlocked :
    (s : State) → Cleared s.lock → s.release_timers ≡ [] → s.lock.fingerprint_failures ≤ 3 → Inv s
Inv-unlocked s c e h = record {
  cleared = λ _. c;
  one_timer = e ∙ sym (ap token_list c.6);
  attempts = h;
  attempts_left = λ r. cc (c.3);
}

pub give_input_back-lock :
    (env : Environment) (s : State)
    → (give_input_back env s).lock ≡ record (s.lock) { saved_keyboard_focus = none }
unfolding give_input_back
give_input_back-lock env s = restore_focus-lock (restored env s.lock.saved_keyboard_focus) _

give_input_back-timers :
    (env : Environment) (s : State) → (give_input_back env s).release_timers ≡ s.release_timers
unfolding give_input_back
give_input_back-timers env s = restore_focus-timers (restored env s.lock.saved_keyboard_focus) _

abbrev forget_saved : LockState → LockState
forget_saved l = record l { saved_keyboard_focus = none }

pub unlock-Inv :
    (env : Environment) (s : State)
    → OneTimer s
    → s.lock.fingerprint_failures ≤ 3
    → (s.lock.locked ≡ false → Inv s)
    → Inv (unlock env s)
unfolding unlock notify_lock_state command
unlock-Inv env s timer attempts otherwise =
    if_holds Inv (not s.lock.locked) _ _ (λ e. otherwise (not-eq-true _ e))
      λ e.
        let u = unlocking s in
        let lock_path =
          give_input_back-lock env (cancel_sleep_release u) ∙ ap forget_saved (cancel-lock u) in
        let timers_path =
          give_input_back-timers env (cancel_sleep_release u) ∙ cancel-timers u timer in
        Inv-same
          (record u {
            lock = record (u.lock) { sleep_release_token = none; saved_keyboard_focus = none };
            release_timers = [];
          })
          _ (sym lock_path) (sym timers_path)
          (Inv-unlocked _ (refl, refl, refl, refl, refl, refl, refl) refl attempts)

pub respond_to-Held : (p : Option ℕ) (r : String) (s : State) → Held s → Held (respond_to p r s)
respond_to-Held none r s v = v
respond_to-Held (some t) r s v = v

start_if_none-Held :
    (env : Environment) (p : Option ℕ) (s : State) → Held s → Held (start_if_none env p s)
start_if_none-Held env none s v = start_password-Held env s v
start_if_none-Held env (some t) s v = v

respond_locked-Held :
    (env : Environment) (asked : Option (String × Bool)) (s : State) (r : String)
    → Held s
    → Held (respond_locked env asked s r)
respond_locked-Held env (some asked) s r v = respond_to-Held s.lock.password r _ v
respond_locked-Held env none s r v = start_if_none-Held env s.lock.password _ v

pub respond-Inv : (env : Environment) (s : State) (r : String) → Inv s → Inv (respond env s r)
unfolding respond
respond-Inv env s r v =
    if_holds Inv (not s.lock.locked) _ _ (λ _. v)
      λ e.
        Held→Inv _
          (respond_locked-Held env s.lock.pending_prompt s r (Inv→Held s (not-eq-false _ e) v))
