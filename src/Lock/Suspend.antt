-- ===== src/Lock/Suspend.antt =====
-- When the sleep inhibitor is given back, after which logind suspends (lock/mod.rs).
use veshell.Base.{
  count_if, count_if-emit, count_if-emit_if, ℕ, ◌≡◌, refl, ap, ◌∙◌, inl, inr, Bool, true, false,
  not, ◌&&◌, ◌||◌, List, [], ◌∷◌, ◌++◌, Option, none, some, ◌==◌, if◌then◌else◌, Bool-cases,
  if_holds, or-eq-false,
}
use veshell.Lock.LockState.{
  AuthSource, password, fingerprint, success, rejected, failed, unavailable, AuthEvent, prompt,
  info, error, finished, locks, unlocks, prepare_for_sleep, resumed, Effect, dbus_command,
  release_sleep_inhibitor, set_locked_hint, set_focus, refresh_pointer_focus, request_render,
  release_flutter_keys, lock_state_changed, State, Environment, command, notify_lock_state,
  focus_keyboard, with_lock,
}
use veshell.Lock.Session.{
  unlocking, lock, unlock, give_input_back, cancel_sleep_release, remove_token, restore_focus,
  restored,
}
use veshell.Lock.Auth.{
  respond, on_auth_message, on_current_message, on_password_finished, on_fingerprint_finished,
  replay_to_shell,
}
use veshell.Lock.Sleep.{
  on_shown, on_dbus_event, on_resume, sleep_release, after_draw_grace, on_prepare_for_sleep,
  not_pending,
}
use veshell.Lock.Step.{
  Event, lock_session, lock_auth_respond, lock_screen_shown, shell_ready, dbus_event, auth_message,
  timer_fired, focus_deferred, focus_forgotten, step, Holds, Happens,
}
use veshell.Lock.Guarded.{is_success, authorised}
use veshell.Lock.Security.{step-Guarded}
use veshell.Lock.Held.{token_list, cancel-lock}
use veshell.Lock.Invariant.{Inv, Inv→Held, lock-Held}
use veshell.Lock.SleepKeeps.{release_sleep_after-Held}

unfoldable pub is_release : Effect → Bool
is_release (dbus_command release_sleep_inhibitor) = true
is_release _ = false

-- How often the sleep inhibitor was given back.
unfoldable pub releases : List Effect → ℕ
releases es = count_if is_release es

pub quiet_emit :
    (es : List Effect) (e : Effect) → is_release e ≡ false → releases (es ++ (e ∷ [])) ≡ releases es
unfolding releases
quiet_emit es e h = count_if-emit is_release es e h

pub quiet_emit_if :
    (es : List Effect) (b : Bool) (e : Effect)
    → is_release e ≡ false
    → releases (es ++ (if b then e ∷ [] else [])) ≡ releases es
unfolding releases
quiet_emit_if es b e h = count_if-emit_if is_release es b e h

abbrev pub Quiet : State → State → Type 0
Quiet s t = releases t.effects ≡ releases s.effects

restore_focus-Quiet : (target : Option ℕ) (s : State) → Quiet s (restore_focus target s)
unfolding focus_keyboard is_release
restore_focus-Quiet none s = refl
restore_focus-Quiet (some t) s = quiet_emit s.effects (set_focus (some t)) refl

give_input_back-Quiet : (env : Environment) (s : State) → Quiet s (give_input_back env s)
unfolding give_input_back is_release
give_input_back-Quiet env s =
    quiet_emit _ refresh_pointer_focus refl
    ∙ restore_focus-Quiet (restored env s.lock.saved_keyboard_focus) _
    ∙ quiet_emit_if s.effects s.gaming_mode release_flutter_keys refl

remove_token-effects : (o : Option ℕ) (s : State) → (remove_token o s).effects ≡ s.effects
remove_token-effects none s = refl
remove_token-effects (some t) s = refl

pub cancel-Quiet : (s : State) → Quiet s (cancel_sleep_release s)
unfolding cancel_sleep_release
cancel-Quiet s = ap releases (remove_token-effects s.lock.sleep_release_token _)

pub notify-Quiet : (s : State) → Quiet s (notify_lock_state s)
unfolding notify_lock_state is_release
notify-Quiet s = quiet_emit_if s.effects s.flutter_engine (lock_state_changed s.lock.locked) refl

pub hint-Quiet : (s : State) (locked : Bool) → Quiet s (command s (set_locked_hint locked))
unfolding command is_release
hint-Quiet s locked =
    quiet_emit_if s.effects s.lock.dbus (dbus_command (set_locked_hint locked)) refl

pub unlock-Quiet : (env : Environment) (s : State) → Quiet s (unlock env s)
unfolding unlock is_release
unlock-Quiet env s =
    let u = unlocking s in
    let ready = give_input_back env (cancel_sleep_release u) in
    if_holds (Quiet s) (not s.lock.locked) s _ (λ _. refl)
      λ _.
        quiet_emit (command (notify_lock_state ready) (set_locked_hint false)).effects
          request_render refl
        ∙ hint-Quiet (notify_lock_state ready) false
        ∙ notify-Quiet ready
        ∙ give_input_back-Quiet env (cancel_sleep_release u)
        ∙ cancel-Quiet u

success-Quiet :
    (env : Environment) (s : State) (source : AuthSource) (event : AuthEvent)
    → is_success event ≡ true
    → Quiet s (on_current_message env s source event)
unfolding on_current_message on_password_finished on_fingerprint_finished
success-Quiet env s password (finished success) h = unlock-Quiet env _
success-Quiet env s fingerprint (finished success) h = unlock-Quiet env _
success-Quiet env s source (prompt message echo) h = cc
success-Quiet env s source (info text) h = cc
success-Quiet env s source (error text) h = cc
success-Quiet env s source (finished rejected) h = cc
success-Quiet env s source (finished (failed text)) h = cc
success-Quiet env s source (finished unavailable) h = cc

authorised-Quiet :
    (env : Environment) (s : State) (e : Event) → authorised s e ≡ true → Quiet s (step env s e)
unfolding step on_dbus_event on_auth_message
authorised-Quiet env s (dbus_event unlocks) h = unlock-Quiet env s
authorised-Quiet env s (auth_message m) h =
    if_holds (Quiet s) (not s.lock.locked || not (m.generation == s.lock.generation)) s _
      (λ _. refl) λ e. success-Quiet env s m.source m.event (right _ _ h)
  where
    right : (a b : Bool) → (a && b) ≡ true → b ≡ true
    right true b h = h
    right false b h = cc
authorised-Quiet env s lock_session h = cc
authorised-Quiet env s (lock_auth_respond response) h = cc
authorised-Quiet env s lock_screen_shown h = cc
authorised-Quiet env s shell_ready h = cc
authorised-Quiet env s (dbus_event locks) h = cc
authorised-Quiet env s (dbus_event prepare_for_sleep) h = cc
authorised-Quiet env s (dbus_event resumed) h = cc
authorised-Quiet env s (timer_fired token) h = cc
authorised-Quiet env s (focus_deferred target) h = cc
authorised-Quiet env s (focus_forgotten target) h = cc

after_grace-locks :
    (env : Environment) (s : State)
    → Inv s
    → (on_prepare_for_sleep env s after_draw_grace).lock.locked ≡ true
after_grace-locks env s v =
    let pending = with_lock s (record (s.lock) { sleep_pending = true }) in
    (release_sleep_after-Held env (lock env pending false) _
      (lock-Held env pending false v.one_timer (λ e. Inv→Held s e v))).is_held

pub prepare-locks :
    (env : Environment) (s : State) (locked shown : Bool)
    → s.lock.locked ≡ locked
    → Inv s
    → (on_prepare_for_sleep env s (sleep_release locked shown)).lock.locked ≡ true
unfolding sleep_release command
prepare-locks env s true true h v = ap (λ l. l.locked) (cancel-lock (not_pending s)) ∙ h
prepare-locks env s true false h v = after_grace-locks env s v
prepare-locks env s false shown h v = after_grace-locks env s v

no_timer : (ts : List ℕ) (token : ℕ) → ts ≡ [] → Holds ts token → ⊥
no_timer [] token p h = h
no_timer (t ∷ ts) token p h = cc

unlocked-Quiet :
    (env : Environment) (s : State) (e : Event)
    → Inv s
    → Happens s e
    → s.lock.locked ≡ false
    → (step env s e).lock.locked ≡ false
    → Quiet s (step env s e)
unfolding step respond on_shown replay_to_shell on_dbus_event on_resume on_auth_message
unlocked-Quiet env s lock_session v w h g =
    cc ((lock-Held env s true v.one_timer (λ e. Inv→Held s e v)).is_held)
unlocked-Quiet env s (lock_auth_respond response) v w h g =
    if_holds (Quiet s) (not s.lock.locked) s _ (λ _. refl) (λ e. cc)
unlocked-Quiet env s lock_screen_shown v w h g =
    if_holds (Quiet s) (not s.lock.locked) s _ (λ _. refl) (λ e. cc)
unlocked-Quiet env s shell_ready v w h g =
    if_holds (Quiet s) (not s.lock.locked) s _ (λ _. refl) (λ e. cc)
unlocked-Quiet env s (dbus_event locks) v w h g =
    cc ((lock-Held env s true v.one_timer (λ e. Inv→Held s e v)).is_held)
unlocked-Quiet env s (dbus_event unlocks) v w h g = unlock-Quiet env s
unlocked-Quiet env s (dbus_event prepare_for_sleep) v w h g =
    cc (prepare-locks env s s.lock.locked s.lock.shown refl v)
unlocked-Quiet env s (dbus_event resumed) v w h g =
    if_holds (Quiet s) (not s.lock.locked) _ _ (λ _. cancel-Quiet (not_pending s)) (λ e. cc)
unlocked-Quiet env s (auth_message m) v w h g =
    if_holds (Quiet s) (not s.lock.locked || not (m.generation == s.lock.generation)) s _
      (λ _. refl)
      λ e. cc (or-eq-false (not s.lock.locked) (not (m.generation == s.lock.generation)) e).0
unlocked-Quiet env s (timer_fired token) v w h g =
    absurd (no_timer s.release_timers token (v.one_timer ∙ ap token_list (v.cleared h).6) w)
unlocked-Quiet env s (focus_deferred target) v w h g = refl
unlocked-Quiet env s (focus_forgotten target) v w h g = refl

-- An event that leaves the session unlocked never gives the sleep inhibitor back, in any state
-- that satisfies the invariant, the event being one that can happen in it.
pub step-Quiet :
    (env : Environment) (s : State) (e : Event)
    → Inv s
    → Happens s e
    → (step env s e).lock.locked ≡ false
    → releases (step env s e).effects ≡ releases s.effects
step-Quiet env s e v w g = elim (Bool-cases s.lock.locked) [
  | inr h ↦ unlocked-Quiet env s e v w h g
  | inl h ↦ elim (Bool-cases (authorised s e)) [
    | inl a ↦ authorised-Quiet env s e a
    | inr a ↦ cc ((step-Guarded {k = s.keyboard_focus} env s e (h, refl) a).0)
  ]
]
