-- ===== src/Lock/Restore.antt =====
-- Answers and prompts in either order, and the focus after a lock (lock/mod.rs).
use Prim.Native.String.{String}
use veshell.Base.{
  ℕ, ◌≡◌, refl, ◌∙◌, Bool, true, false, not, ◌||◌, Option, none, some, if_holds, ==_iff,
}
use veshell.Lock.LockState.{
  password, prompt, answer, unlocks, State, Environment, with_lock, command, notify_lock_state,
  focus_keyboard, send_auth_message,
}
use veshell.Lock.Session.{
  lock, unlock, take_input, start_password, start_fingerprint, give_input_back, fingerprint_allowed,
  fingerprint_file,
}
use veshell.Lock.Auth.{respond, on_prompt, on_auth_message, on_current_message}
use veshell.Lock.Sleep.{on_dbus_event}
use veshell.Lock.Step.{Event, lock_session, lock_auth_respond, dbus_event, auth_message, step}
use veshell.Lock.Held.{cancel-lock}
use veshell.Lock.Prepare.{last_effect, last_effect-emit}

-- A password transaction waits, with neither a prompt nor an answer for it.
abbrev pub Waiting : State → ℕ → Type 0
Waiting s transaction =
    (s.lock.locked ≡ true)
    × (s.lock.password ≡ some transaction)
    × (s.lock.pending_prompt ≡ none)
    × (s.lock.queued_response ≡ none)

abbrev pub prompt_of : State → String → Bool → Event
prompt_of s message echo =
    auth_message
      (record { generation = s.lock.generation; source = password; event = prompt message echo })

step-respond_queued :
    (env : Environment) (s : State) (transaction : ℕ) (response : String)
    → Waiting s transaction
    → step env s (lock_auth_respond response)
      ≡ with_lock s (record (s.lock) { queued_response = some response })
unfolding step respond
step-respond_queued env s transaction response (l, p, w, q) = rw (l, p, w) refl

step-prompt_of :
    (env : Environment) (s : State) (message : String) (echo : Bool)
    → s.lock.locked ≡ true
    → step env s (prompt_of s message echo) ≡ on_prompt s message echo
unfolding step on_auth_message on_current_message
step-prompt_of env s message echo h =
    rw (h, (==_iff s.lock.generation s.lock.generation).1 refl) refl

-- The shell's answer before the prompt, and after it.
unfoldable pub early : Environment → State → String → Bool → String → State
unfolding step
early env s message echo response =
    step env (step env s (lock_auth_respond response)) (prompt_of s message echo)

unfoldable pub late : Environment → State → String → Bool → String → State
unfolding step
late env s message echo response =
    step env (step env s (prompt_of s message echo)) (lock_auth_respond response)

abbrev pub Delivered : State → ℕ → String → Type 0
Delivered s transaction response =
    Waiting s transaction × (last_effect s.effects ≡ some (answer transaction response))

early-Delivered :
    (env : Environment) (s : State) (transaction : ℕ) (message : String) (echo : Bool)
    (response : String)
    → Waiting s transaction
    → Delivered (early env s message echo response) transaction response
unfolding early
early-Delivered env s transaction message echo response (l, p, w, q) =
    rw
      (
        step-respond_queued env s transaction response (l, p, w, q),
        step-prompt_of env (with_lock s (record (s.lock) { queued_response = some response }))
            message echo l,
        p,
      )
      ((l, refl, w, refl), last_effect-emit s.effects (answer transaction response))

late-Delivered :
    (env : Environment) (s : State) (transaction : ℕ) (message : String) (echo : Bool)
    (response : String)
    → Waiting s transaction
    → Delivered (late env s message echo response) transaction response
unfolding late step respond send_auth_message
late-Delivered env s transaction message echo response (l, p, w, q) =
    rw (step-prompt_of env s message echo l, q, l, p)
      ((refl, refl, refl, refl), last_effect-emit _ (answer transaction response))

-- Whether the shell answers the password prompt before the prompt arrives or after it, the
-- waiting transaction gets that answer as the last effect, and then waits again with neither a
-- prompt nor a kept answer.
pub respond-any_order :
    (env : Environment) (s : State) (transaction : ℕ) (message : String) (echo : Bool)
    (response : String)
    → Waiting s transaction
    → Delivered (early env s message echo response) transaction response
      × Delivered (late env s message echo response) transaction response
respond-any_order env s transaction message echo response w = (
  early-Delivered env s transaction message echo response w,
  late-Delivered env s transaction message echo response w,
)

abbrev Kept : Option ℕ → State → Type 0
Kept focus s =
    (s.lock.locked ≡ true) × (s.lock.saved_keyboard_focus ≡ focus) × (s.keyboard_focus ≡ none)

start_fingerprint-Kept :
    (env : Environment) (focus : Option ℕ) (s : State)
    → Kept focus s
    → Kept focus (start_fingerprint env s)
unfolding start_fingerprint
start_fingerprint-Kept env focus s v =
    if_holds (Kept focus)
      (not (
          fingerprint_allowed s.lock.fingerprint_available s.lock.fingerprint_running
            s.lock.fingerprint_failures)
        || not (env.service_installed fingerprint_file))
      s _ (λ _. v) (λ _. v)

lock-Kept :
    (env : Environment) (s : State)
    → s.lock.locked ≡ false
    → Kept s.keyboard_focus (lock env s true)
unfolding lock take_input focus_keyboard notify_lock_state command start_password
lock-Kept env s h =
    if_holds (Kept s.keyboard_focus) s.lock.locked s _ (λ e. cc)
      λ _. start_fingerprint-Kept env s.keyboard_focus _ (refl, refl, refl)

unlock-focus :
    (env : Environment) (s : State) (target : ℕ)
    → s.lock.locked ≡ true
    → s.lock.saved_keyboard_focus ≡ some target
    → env.alive target ≡ true
    → (unlock env s).keyboard_focus ≡ some target
unfolding unlock give_input_back focus_keyboard notify_lock_state command
unlock-focus env s target l f a =
    if_holds (λ t. t.keyboard_focus ≡ some target) (not s.lock.locked) s _ (λ e. cc)
      λ _. rw (cancel-lock, f, a) refl

-- Locking takes the keyboard from its target, and unlocking gives it back: a target that is
-- still alive has the keyboard focus again after a lock and logind's `Unlock`, and no client has
-- it in between.
pub lock_unlock-focus :
    (env : Environment) (s : State) (target : ℕ)
    → s.lock.locked ≡ false
    → s.keyboard_focus ≡ some target
    → env.alive target ≡ true
    → ((step env s lock_session).lock.locked ≡ true)
      × ((step env s lock_session).keyboard_focus ≡ none)
      × ((step env (step env s lock_session) (dbus_event unlocks)).keyboard_focus ≡ some target)
unfolding step on_dbus_event
lock_unlock-focus env s target l f a =
    let (locked, saved, taken) = lock-Kept env s l in
    (locked, taken, unlock-focus env (lock env s true) target locked (saved ∙ f) a)
