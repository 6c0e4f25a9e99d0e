-- ===== src/Keyboard/Hotkeys.antt =====
-- The compositor's own keys, and the way of every other key (keyboard/mod.rs).
use Prim.Native.String.{String}
use veshell.Base.{ℕ, Bool, true, false, ◌&&◌, not, Option, none, some, ◌>>=◌, if◌then◌else◌}
use veshell.Keyboard.SuperKeys.{KeyState, VeshellKeyEvent, is_pressed, has_key, remove_key}
use veshell.Keyboard.Routing.{
  brightness_up, brightness_down, print_key, escape_key, delete_key, is_sym, vt_of, brighten,
  darken, change_vt, exit, begin_capture, cancel_capture, stop_recording, leave_gaming,
  KeyboardState, Interpreted, emit, send_key_event, release_game_mode_forwarded_keys,
}

abbrev pub Answer : Type 0
Answer = Option (Bool × KeyboardState)

-- Whether the event is swallowed, and the state.
abbrev pub swallow : KeyboardState → Answer
swallow s = some (true, s)

abbrev pub pass_key : KeyboardState → Answer
pass_key s = some (false, s)

module _ (supported : VeshellKeyEvent → Bool) (xkb : ℕ → KeyState → Interpreted) where
  abbrev pub exits : VeshellKeyEvent → Bool
  exits event = is_sym delete_key event.keysym && (event.mods.alt && event.mods.logo)

  abbrev pub locked_hotkeys_of : Option ℕ → KeyboardState → VeshellKeyEvent → Answer
  locked_hotkeys_of (some terminal) s event = swallow (emit (change_vt terminal) s)
  locked_hotkeys_of none s event =
      if exits event then swallow (emit exit s) else some (is_sym print_key event.keysym, s)

  abbrev pub locked_hotkeys : KeyboardState → VeshellKeyEvent → Answer
  locked_hotkeys s event = locked_hotkeys_of (vt_of event.keysym) s event

  abbrev pub recording_hotkeys : KeyboardState → VeshellKeyEvent → Answer
  recording_hotkeys s event =
      if is_pressed event.state && is_sym print_key event.keysym
      then pass_key (emit stop_recording s)
      else pass_key s

  abbrev pub cancel_on_escape : VeshellKeyEvent → KeyboardState → Answer
  cancel_on_escape event s =
      if is_sym escape_key event.keysym && is_pressed event.state
      then swallow (emit cancel_capture s)
      else swallow s

  -- A release whose press the shell got is sent to it.
  abbrev pub capturing_hotkeys : KeyboardState → VeshellKeyEvent → Answer
  capturing_hotkeys s event =
      if not (is_pressed event.state) && has_key event.key_code s.flutter_sent_keys
      then send_key_event supported xkb
          (record s { flutter_sent_keys = remove_key event.key_code s.flutter_sent_keys }) event
          false true
        >>= cancel_on_escape event
      else cancel_on_escape event s

  abbrev pub leave_gaming_mode : Option String → KeyboardState → KeyboardState
  leave_gaming_mode none s = s
  leave_gaming_mode (some id) s =
      record (emit (leave_gaming id) (release_game_mode_forwarded_keys supported xkb s)) {
        gaming_window = none;
      }

  abbrev pub session_hotkeys_of : Option ℕ → KeyboardState → VeshellKeyEvent → Answer
  session_hotkeys_of (some terminal) s event = swallow (emit (change_vt terminal) s)
  session_hotkeys_of none s event =
      if exits event
      then swallow (emit exit s)
      else if is_sym escape_key event.keysym && event.mods.ctrl
      then swallow (leave_gaming_mode s.gaming_window s)
      else pass_key s

  abbrev pub session_hotkeys : KeyboardState → VeshellKeyEvent → Answer
  session_hotkeys s event =
      if is_sym print_key event.keysym && is_pressed event.state
      then swallow (emit (begin_capture event.mods.shift) s)
      else session_hotkeys_of (vt_of event.keysym) s event

  abbrev pub unlocked_hotkeys : KeyboardState → VeshellKeyEvent → Answer
  unlocked_hotkeys s event =
      if s.is_recording
      then recording_hotkeys s event
      else if s.is_capturing
      then capturing_hotkeys s event
      else session_hotkeys s event

  abbrev pub other_hotkeys : KeyboardState → VeshellKeyEvent → Answer
  other_hotkeys s event = if s.is_locked then locked_hotkeys s event else unlocked_hotkeys s event

  unfoldable pub handle_embedder_hotkeys : KeyboardState → VeshellKeyEvent → Answer
  unfolding has_key remove_key release_game_mode_forwarded_keys
  handle_embedder_hotkeys s event =
      if is_pressed event.state && is_sym brightness_up event.keysym
      then swallow (emit brighten s)
      else if is_pressed event.state && is_sym brightness_down event.keysym
      then swallow (emit darken s)
      else other_hotkeys s event
