-- ===== src/Keyboard/Timers.antt =====
-- The timer of the repeating key through every event (keyboard/mod.rs, keyboard/key_repeater.rs).
use Prim.Native.String.{String}
use veshell.Base.{
  ℕ, Bool, true, false, ◌&&◌, not, List, [], ◌∷◌, Option, none, some, ◌>>=◌, if◌then◌else◌,
  if_holds,
}
use veshell.Keyboard.SuperKeys.{
  KeyState, pressed, released, Modifiers, VeshellKeyEvent, is_pressed, has_key, remove_key,
}
use veshell.Keyboard.Repeater.{Repeating}
use veshell.Keyboard.Routing.{
  to_flutter, is_some, brighten, darken, exit, begin_capture, cancel_capture, stop_recording,
  KeyboardState, Interpreted, emit, send_key_event, release_each, release_game_mode_forwarded_keys,
  sync_flutter_lock_modes, num_lock_event, mirror, brightness_up, brightness_down, print_key,
  escape_key, is_sym, vt_of,
}
use veshell.Keyboard.Hotkeys.{
  Answer, exits, locked_hotkeys, locked_hotkeys_of, recording_hotkeys, cancel_on_escape,
  capturing_hotkeys, leave_gaming_mode, session_hotkeys, session_hotkeys_of, unlocked_hotkeys,
  other_hotkeys, handle_embedder_hotkeys,
}

-- What holds of the state that the code ends in, where it ends in one.
abbrev pub Ends : (KeyboardState → Type 0) → Option KeyboardState → Type 0
Ends P none = Unit
Ends P (some t) = P t

abbrev pub EndsAnswer : (KeyboardState → Type 0) → Answer → Type 0
EndsAnswer P none = Unit
EndsAnswer P (some (swallowed, t)) = P t

-- The event loop holds exactly the timer of the repeating key.
abbrev pub HasTimer : KeyboardState → Type 0
HasTimer s = Repeating s.repeater

pub Ends-bind :
    (P : KeyboardState → Type 0) (result : Option KeyboardState)
    (next : KeyboardState → Option KeyboardState)
    → Ends P result
    → ((t : KeyboardState) → P t → Ends P (next t))
    → Ends P (result >>= next)
Ends-bind P none next h k = tt
Ends-bind P (some t) next h k = k t h

EndsAnswer-bind :
    (P : KeyboardState → Type 0) (result : Option KeyboardState) (next : KeyboardState → Answer)
    → Ends P result
    → ((t : KeyboardState) → P t → EndsAnswer P (next t))
    → EndsAnswer P (result >>= next)
EndsAnswer-bind P none next h k = tt
EndsAnswer-bind P (some t) next h k = k t h

module _ (supported : VeshellKeyEvent → Bool) (xkb : ℕ → KeyState → Interpreted) where
  pub send_key_event-timer :
      (s : KeyboardState) (event : VeshellKeyEvent) (repeats notifies : Bool)
      → HasTimer s
      → Ends HasTimer (send_key_event supported xkb s event repeats notifies)
  send_key_event-timer s event repeats notifies h =
      if_holds (Ends HasTimer) ((s.has_engine && is_some event.raw_keysym) && supported event)
        (some (emit (to_flutter event repeats notifies) s)) none (λ e. h) (λ e. tt)

  pub sync_flutter_lock_modes-timer :
      (s : KeyboardState) (mods : Modifiers)
      → HasTimer s
      → Ends HasTimer (sync_flutter_lock_modes supported xkb s mods)
  unfolding sync_flutter_lock_modes
  sync_flutter_lock_modes-timer s mods h =
      if_holds (Ends HasTimer) _ (some s)
        (send_key_event supported xkb s (num_lock_event mods pressed) false false >>= λ t.
          send_key_event supported xkb t (num_lock_event mods released) false false >>= λ u.
          some (mirror supported xkb u mods))
        (λ e. h)
        (λ e.
          Ends-bind HasTimer
            (send_key_event supported xkb s (num_lock_event mods pressed) false false) _
            (send_key_event-timer s (num_lock_event mods pressed) false false h)
            (λ t g.
              Ends-bind HasTimer
                (send_key_event supported xkb t (num_lock_event mods released) false false) _
                (send_key_event-timer t (num_lock_event mods released) false false g) (λ u k. k)))

  release_each-timer :
      (keys : List ℕ) (s : KeyboardState)
      → HasTimer s
      → HasTimer (release_each supported xkb keys s)
  release_each-timer [] s h = h
  release_each-timer (key ∷ keys) s h = release_each-timer keys _ h

  leave_gaming_mode-timer :
      (window : Option String) (s : KeyboardState)
      → HasTimer s
      → HasTimer (leave_gaming_mode supported xkb window s)
  unfolding release_game_mode_forwarded_keys
  leave_gaming_mode-timer none s h = h
  leave_gaming_mode-timer (some id) s h =
      release_each-timer s.game_mode_forwarded_keys (record s { game_mode_forwarded_keys = [] }) h

  locked_hotkeys_of-timer :
      (terminal : Option ℕ) (s : KeyboardState) (event : VeshellKeyEvent)
      → HasTimer s
      → EndsAnswer HasTimer (locked_hotkeys_of supported xkb terminal s event)
  locked_hotkeys_of-timer (some terminal) s event h = h
  locked_hotkeys_of-timer none s event h =
      if_holds (EndsAnswer HasTimer) (exits supported xkb event) (some (true, emit exit s))
        (some (is_sym print_key event.keysym, s)) (λ e. h) (λ e. h)

  cancel_on_escape-timer :
      (event : VeshellKeyEvent) (s : KeyboardState)
      → HasTimer s
      → EndsAnswer HasTimer (cancel_on_escape supported xkb event s)
  cancel_on_escape-timer event s h =
      if_holds (EndsAnswer HasTimer) _ (some (true, emit cancel_capture s)) (some (true, s))
        (λ e. h) (λ e. h)

  capturing_hotkeys-timer :
      (s : KeyboardState) (event : VeshellKeyEvent)
      → HasTimer s
      → EndsAnswer HasTimer (capturing_hotkeys supported xkb s event)
  capturing_hotkeys-timer s event h =
      let removed = record s {
        flutter_sent_keys = remove_key event.key_code s.flutter_sent_keys;
      } in
      if_holds (EndsAnswer HasTimer)
        (not (is_pressed event.state) && has_key event.key_code s.flutter_sent_keys)
        (send_key_event supported xkb removed event false true
          >>= cancel_on_escape supported xkb event)
        (cancel_on_escape supported xkb event s)
        (λ e.
          EndsAnswer-bind HasTimer (send_key_event supported xkb removed event false true)
            (cancel_on_escape supported xkb event) (send_key_event-timer removed event false true h)
            (cancel_on_escape-timer event))
        (λ e. cancel_on_escape-timer event s h)

  session_hotkeys_of-timer :
      (terminal : Option ℕ) (s : KeyboardState) (event : VeshellKeyEvent)
      → HasTimer s
      → EndsAnswer HasTimer (session_hotkeys_of supported xkb terminal s event)
  session_hotkeys_of-timer (some terminal) s event h = h
  session_hotkeys_of-timer none s event h =
      let left = leave_gaming_mode supported xkb s.gaming_window s in
      if_holds (EndsAnswer HasTimer) (exits supported xkb event) (some (true, emit exit s))
        (if is_sym escape_key event.keysym && event.mods.ctrl
          then some (true, left)
          else some (false, s))
        (λ e. h)
        (λ e.
          if_holds (EndsAnswer HasTimer) (is_sym escape_key event.keysym && event.mods.ctrl)
            (some (true, left)) (some (false, s)) (λ f. leave_gaming_mode-timer s.gaming_window s h)
            (λ f. h))

  unlocked_hotkeys-timer :
      (s : KeyboardState) (event : VeshellKeyEvent)
      → HasTimer s
      → EndsAnswer HasTimer (unlocked_hotkeys supported xkb s event)
  unlocked_hotkeys-timer s event h =
      let rest =
        if s.is_capturing
        then capturing_hotkeys supported xkb s event
        else session_hotkeys supported xkb s event in
      if_holds (EndsAnswer HasTimer) s.is_recording (recording_hotkeys supported xkb s event) rest
        (λ e.
          if_holds (EndsAnswer HasTimer) (is_pressed event.state && is_sym print_key event.keysym)
            (some (false, emit stop_recording s)) (some (false, s)) (λ f. h) (λ f. h))
        (λ e.
          if_holds (EndsAnswer HasTimer) s.is_capturing (capturing_hotkeys supported xkb s event)
            (session_hotkeys supported xkb s event) (λ f. capturing_hotkeys-timer s event h)
            (λ f.
              if_holds (EndsAnswer HasTimer)
                (is_sym print_key event.keysym && is_pressed event.state)
                (some (true, emit (begin_capture event.mods.shift) s))
                (session_hotkeys_of supported xkb (vt_of event.keysym) s event) (λ g. h)
                (λ g. session_hotkeys_of-timer (vt_of event.keysym) s event h)))

  pub handle_embedder_hotkeys-timer :
      (s : KeyboardState) (event : VeshellKeyEvent)
      → HasTimer s
      → EndsAnswer HasTimer (handle_embedder_hotkeys supported xkb s event)
  unfolding handle_embedder_hotkeys
  handle_embedder_hotkeys-timer s event h =
      let others = other_hotkeys supported xkb s event in
      let darker =
        if is_pressed event.state && is_sym brightness_down event.keysym
        then some (true, emit darken s)
        else others in
      if_holds (EndsAnswer HasTimer) (is_pressed event.state && is_sym brightness_up event.keysym)
        (some (true, emit brighten s)) darker (λ e. h)
        (λ e.
          if_holds (EndsAnswer HasTimer)
            (is_pressed event.state && is_sym brightness_down event.keysym)
            (some (true, emit darken s)) others (λ f. h)
            (λ f.
              if_holds (EndsAnswer HasTimer) s.is_locked (locked_hotkeys supported xkb s event)
                (unlocked_hotkeys supported xkb s event)
                (λ g. locked_hotkeys_of-timer (vt_of event.keysym) s event h)
                (λ g. unlocked_hotkeys-timer s event h)))
