-- ===== src/Keyboard/Locked.antt =====
-- The keys of a locked session (keyboard/mod.rs).
use veshell.Base.{
  subst, ℕ, ◌≡◌, ◌∙◌, refl, Bool, true, false, ◌&&◌, not, List, [], ◌∷◌, Option, none, some, ◌>>=◌,
  if◌then◌else◌, Bool-cases, inl, inr, if_holds,
}
use veshell.Keyboard.SuperKeys.{
  KeyState, pressed, released, Modifiers, VeshellKeyEvent, is_pressed, contains,
}
use veshell.Keyboard.Repeater.{up}
use veshell.Keyboard.Routing.{
  KeyEffect, to_flutter, to_client, press_key, brighten, darken, change_vt, exit, begin_capture,
  cancel_capture, stop_recording, leave_gaming, KeyboardState, Interpreted, emit, send_key_event,
  sync_flutter_lock_modes, num_lock_event, mirror, brightness_up, brightness_down, print_key,
  is_sym, vt_of, is_some, repeat_interval, gaming_input_active, swap_left_alt_and_meta,
}
use veshell.Keyboard.Hotkeys.{Answer, locked_hotkeys_of, unlocked_hotkeys, handle_embedder_hotkeys}
use veshell.Keyboard.Handling.{
  route, to_shell, repeat, repeat_down, sent, clear_forwarding, forward_to_game, on_lock_screen,
  interpret, handle_keyboard_event, on_repeat, post_flutter_handle_key_event, type_key,
}

-- What the clients got, newest first.
abbrev pub to_clients : List KeyEffect → List (ℕ × KeyState)
to_clients [] = []
to_clients (to_flutter event repeats notifies ∷ es) = to_clients es
to_clients (to_client key state changed ∷ es) = (key, state) ∷ to_clients es
to_clients (press_key keysym ∷ es) = to_clients es
to_clients (brighten ∷ es) = to_clients es
to_clients (darken ∷ es) = to_clients es
to_clients (change_vt terminal ∷ es) = to_clients es
to_clients (exit ∷ es) = to_clients es
to_clients (begin_capture shift ∷ es) = to_clients es
to_clients (cancel_capture ∷ es) = to_clients es
to_clients (stop_recording ∷ es) = to_clients es
to_clients (leave_gaming id ∷ es) = to_clients es

pub data KeyInput : Type 0 where
  -- the seat's modifiers, the key's code, its state, the time, and whether it is synthesized
  key_event : Modifiers → ℕ → KeyState → ℕ → Bool → KeyInput
  -- the shell's answer: whether it handled the event, whether it was a repetition, the keys held
  key_answer : VeshellKeyEvent → Bool → Bool → List ℕ → KeyInput
  key_repeat : VeshellKeyEvent → List ℕ → KeyInput

if_true :
    {A : Type 0} (P : A → Type 0) (b : Bool) (x y : A) → b ≡ true → P x → P (if b then x else y)
if_true P true x y h p = p
if_true P false x y h p = cc

if_false :
    {A : Type 0} (P : A → Type 0) (b : Bool) (x y : A) → b ≡ false → P y → P (if b then x else y)
if_false P true x y h p = cc
if_false P false x y h p = p

and_not : (a b : Bool) → b ≡ true → (a && not b) ≡ false
and_not true b h = rw h refl
and_not false b h = refl

module _ (supported : VeshellKeyEvent → Bool) (xkb : ℕ → KeyState → Interpreted) where
  unfoldable pub key_step : KeyboardState → KeyInput → Option KeyboardState
  unfolding handle_keyboard_event post_flutter_handle_key_event on_repeat
  key_step s (key_event mods code state time synthesized) =
      handle_keyboard_event supported xkb s mods code state time synthesized
  key_step s (key_answer event handled repeats held) =
      post_flutter_handle_key_event supported xkb s event handled repeats held
  key_step s (key_repeat event held) = on_repeat supported xkb s event held

  unfoldable pub key_run : KeyboardState → List KeyInput → Option KeyboardState
  unfolding key_step
  key_run s [] = some s
  key_run s (input ∷ inputs) = key_step s input >>= λ t. key_run t inputs

  -- A state that is still locked, and gave the clients nothing more.
  abbrev pub Kept : KeyboardState → KeyboardState → Type 0
  Kept s t = (t.is_locked ≡ true) × (to_clients t.effects ≡ to_clients s.effects)

  -- The code panics, or ends in such a state.
  abbrev Quiet : KeyboardState → Option KeyboardState → Type 0
  Quiet s none = Unit
  Quiet s (some t) = Kept s t

  Kept-then :
      (s t : KeyboardState) (result : Option KeyboardState)
      → Kept s t
      → Quiet t result
      → Quiet s result
  Kept-then s t none (locked, quiet) h = tt
  Kept-then s t (some u) (locked, quiet) (still, same) = (still, same ∙ quiet)

  Quiet-bind :
      (s : KeyboardState) (result : Option KeyboardState)
      (next : KeyboardState → Option KeyboardState)
      → Quiet s result
      → ((t : KeyboardState) → t.is_locked ≡ true → Quiet t (next t))
      → Quiet s (result >>= next)
  Quiet-bind s none next kept h = tt
  Quiet-bind s (some t) next kept h = Kept-then s t (next t) kept (h t kept.0)

  send_key_event-Quiet :
      (s : KeyboardState) (event : VeshellKeyEvent) (repeats notifies : Bool)
      → s.is_locked ≡ true
      → Quiet s (send_key_event supported xkb s event repeats notifies)
  send_key_event-Quiet s event repeats notifies h =
      if_holds (Quiet s) _ (some (emit (to_flutter event repeats notifies) s)) none (λ e. (h, refl))
        (λ e. tt)

  sync_flutter_lock_modes-Quiet :
      (s : KeyboardState) (mods : Modifiers)
      → s.is_locked ≡ true
      → Quiet s (sync_flutter_lock_modes supported xkb s mods)
  unfolding sync_flutter_lock_modes
  sync_flutter_lock_modes-Quiet s mods h =
      if_holds (Quiet s) _ (some s)
        (send_key_event supported xkb s (num_lock_event mods pressed) false false >>= λ t.
          send_key_event supported xkb t (num_lock_event mods released) false false >>= λ u.
          some (mirror supported xkb u mods))
        (λ e. (h, refl))
        (λ e.
          Quiet-bind s (send_key_event supported xkb s (num_lock_event mods pressed) false false) _
            (send_key_event-Quiet s (num_lock_event mods pressed) false false h)
            (λ t g.
              Quiet-bind t
                (send_key_event supported xkb t (num_lock_event mods released) false false) _
                (send_key_event-Quiet t (num_lock_event mods released) false false g)
                (λ u k. (k, refl))))

  -- An answer about a hotkey that leaves the state locked and the clients alone.
  abbrev QuietAnswer : KeyboardState → Answer → Type 0
  QuietAnswer s none = Unit
  QuietAnswer s (some (swallowed, t)) = Kept s t

  locked_hotkeys_of-Quiet :
      (terminal : Option ℕ) (s : KeyboardState) (event : VeshellKeyEvent)
      → s.is_locked ≡ true
      → QuietAnswer s (locked_hotkeys_of supported xkb terminal s event)
  locked_hotkeys_of-Quiet (some terminal) s event h = (h, refl)
  locked_hotkeys_of-Quiet none s event h =
      if_holds (QuietAnswer s) _ (some (true, emit exit s))
        (some (is_sym print_key event.keysym, s)) (λ e. (h, refl)) (λ e. (h, refl))

  handle_embedder_hotkeys-Quiet :
      (s : KeyboardState) (event : VeshellKeyEvent)
      → s.is_locked ≡ true
      → QuietAnswer s (handle_embedder_hotkeys supported xkb s event)
  unfolding handle_embedder_hotkeys
  handle_embedder_hotkeys-Quiet s event h =
      elim (Bool-cases (is_pressed event.state && is_sym brightness_up event.keysym)) [
        | inl e ↦ rw e (h, refl)
        | inr e ↦
            elim (Bool-cases (is_pressed event.state && is_sym brightness_down event.keysym)) [
              | inl f ↦ rw (e, f) (h, refl)
              | inr f ↦
                  rw (e, f)
                    (if_true (QuietAnswer s) s.is_locked _ (unlocked_hotkeys supported xkb s event)
                      h (locked_hotkeys_of-Quiet (vt_of event.keysym) s event h))
            ]
      ]

  repeat-Kept :
      (s t : KeyboardState) (event : VeshellKeyEvent)
      → Kept s t
      → Kept s (repeat supported xkb event t)
  repeat-Kept s t event kept =
      if_holds (Kept s) event.mods_changed t
        (if is_pressed event.state
          then repeat_down supported xkb (repeat_interval t.repeat_rate) event t
          else record t { repeater = up t.repeater event })
        (λ e. kept)
        (λ e.
          if_holds (Kept s) (is_pressed event.state)
            (repeat_down supported xkb (repeat_interval t.repeat_rate) event t)
            (record t { repeater = up t.repeater event })
            (λ f. repeats (repeat_interval t.repeat_rate)) (λ f. kept))
    where
      repeats : (interval : Option ℕ) → Kept s (repeat_down supported xkb interval event t)
      repeats none = kept
      repeats (some interval) = kept

  to_shell-Quiet :
      (s : KeyboardState) (event : VeshellKeyEvent)
      → s.is_locked ≡ true
      → Quiet s (to_shell supported xkb event s)
  to_shell-Quiet s event h =
      Quiet-bind s (send_key_event supported xkb s event false true) _
        (send_key_event-Quiet s event false true h)
        (λ t g. repeat-Kept t (sent supported xkb event t) event (g, refl))

  route-Quiet :
      (s : KeyboardState) (event : VeshellKeyEvent) (answer : Answer)
      → QuietAnswer s answer
      → Quiet s (answer >>= route supported xkb event)
  route-Quiet s event none h = tt
  route-Quiet s event (some (true, t)) kept = kept
  route-Quiet s event (some (false, t)) kept = Kept-then s t _ kept (
      if_false (Quiet t) (gaming_input_active t) (some (forward_to_game supported xkb t event))
        (to_shell supported xkb event t) (and_not (is_some t.gaming_window) t.is_locked (kept.0))
        (to_shell-Quiet t event (kept.0)))

  handle_keyboard_event-Quiet :
      (s : KeyboardState) (mods : Modifiers) (code : ℕ) (state : KeyState) (time : ℕ)
      (synthesized : Bool)
      → s.is_locked ≡ true
      → Quiet s (handle_keyboard_event supported xkb s mods code state time synthesized)
  unfolding handle_keyboard_event
  handle_keyboard_event-Quiet s mods code state time synthesized h =
      Quiet-bind s (sync_flutter_lock_modes supported xkb s mods) _
        (sync_flutter_lock_modes-Quiet s mods h)
        (λ t g.
          let swapped = swap_left_alt_and_meta t code in
          let event = interpret (xkb swapped state) swapped state time synthesized in
          route-Quiet t event (handle_embedder_hotkeys supported xkb t event)
            (handle_embedder_hotkeys-Quiet t event g))

  type_key-Kept :
      (s t : KeyboardState) (event : VeshellKeyEvent) (handled : Bool)
      → Kept s t
      → Kept s (type_key supported xkb t event handled)
  type_key-Kept s t event handled kept =
      if_holds (Kept s) _ (emit (press_key event.keysym) t) t (λ e. kept) (λ e. kept)

  post_flutter-Quiet :
      (s : KeyboardState) (event : VeshellKeyEvent) (handled repeats : Bool) (held : List ℕ)
      → s.is_locked ≡ true
      → Quiet s (post_flutter_handle_key_event supported xkb s event handled repeats held)
  unfolding post_flutter_handle_key_event
  post_flutter-Quiet s event handled repeats held h =
      let cleared = clear_forwarding supported xkb s in
      let screen = on_lock_screen supported xkb s event handled in
      if_holds (Quiet s) (not s.has_engine) none _ (λ e. tt)
        (λ e. if_true (Quiet s) s.is_locked (some screen) _ h (
          if_holds (Kept s) s.text_active (type_key supported xkb cleared event handled) cleared
            (λ f. type_key-Kept s cleared event handled (h, refl)) (λ f. (h, refl))))

  key_step-Quiet :
      (s : KeyboardState) (input : KeyInput) → s.is_locked ≡ true → Quiet s (key_step s input)
  unfolding key_step on_repeat
  key_step-Quiet s (key_event mods code state time synthesized) h =
      handle_keyboard_event-Quiet s mods code state time synthesized h
  key_step-Quiet s (key_answer event handled repeats held) h =
      post_flutter-Quiet s event handled repeats held h
  key_step-Quiet s (key_repeat event held) h =
      if_holds (Quiet s) (contains event.key_code held)
        (send_key_event supported xkb s event true true) (some s)
        (λ e. send_key_event-Quiet s event true true h) (λ e. (h, refl))

  run-Quiet :
      (s : KeyboardState) (inputs : List KeyInput) → s.is_locked ≡ true → Quiet s (key_run s inputs)
  unfolding key_run
  run-Quiet s [] h = (h, refl)
  run-Quiet s (input ∷ inputs) h =
      Quiet-bind s (key_step s input) _ (key_step-Quiet s input h) (λ t g. run-Quiet t inputs g)

  -- Whatever keys come, known to the engine or not, whatever the shell answers and whatever
  -- repeats: a run from a locked session that ends without a panic leaves the session locked, and
  -- has given no client any key.
  pub key_run-Quiet :
      (s : KeyboardState) (inputs : List KeyInput) (t : KeyboardState)
      → s.is_locked ≡ true
      → key_run s inputs ≡ some t
      → (t.is_locked ≡ true) × (to_clients t.effects ≡ to_clients s.effects)
  key_run-Quiet s inputs t h e = subst (Quiet s) e (run-Quiet s inputs h)
