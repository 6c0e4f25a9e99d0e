-- ===== src/Keyboard/KeyExamples.antt =====
-- Key events through the whole keyboard part, and its theorems at concrete inputs.
use veshell.Base.{ℕ, ◌≡◌, refl, Bool, true, false, List, [], ◌∷◌, Option, none, some, ◌==◌}
use veshell.Keyboard.SuperKeys.{
  KeyState, pressed, released, other, Modifiers, VeshellKeyEvent, default,
}
use veshell.Keyboard.Repeater.{new_repeater}
use veshell.Keyboard.Routing.{KeyboardState, Interpreted, release_game_mode_forwarded_keys}
use veshell.Keyboard.Locked.{
  KeyInput, key_event, key_answer, key_repeat, key_step, key_run, key_run-Quiet, to_clients,
}
use veshell.Keyboard.Timers.{Ends, HasTimer}
use veshell.Keyboard.Repeats.{key_step-timer}
use veshell.Keyboard.Gaming.{client_holds, holds, left_keys, forward_events, release-forward_events}

abbrev none_held : Modifiers
none_held = record { ctrl = false; alt = false; shift = false; logo = false; num_lock = false }

-- The letter a, whatever the key.
abbrev letter : ℕ → KeyState → Interpreted
letter code state = record {
  mods = none_held;
  raw_keysym = some (other 97);
  keysym = other 97;
  mods_changed = false;
}

abbrev every : VeshellKeyEvent → Bool
every event = true

abbrev key_a : KeyState → VeshellKeyEvent
key_a state = record {
  key_code = 38;
  raw_keysym = some (other 97);
  keysym = other 97;
  state = state;
  time = 0;
  mods = none_held;
  mods_changed = false;
  synthesized = false;
}

abbrev idle_keyboard : KeyboardState
idle_keyboard = record {
  has_engine = true;
  flutter_num_lock = false;
  swap_alt_and_win = false;
  gaming_window = none;
  is_locked = false;
  is_recording = false;
  is_capturing = false;
  text_active = false;
  forwarding = default;
  game_mode_forwarded_keys = [];
  flutter_sent_keys = [];
  repeat_rate = 25;
  repeat_delay = 600;
  repeater = new_repeater;
  effects = [];
}

abbrev locked_keyboard : KeyboardState
locked_keyboard = record idle_keyboard { is_locked = true }

abbrev typing : List KeyInput
typing =
    key_event none_held 38 pressed 1 false
    ∷ key_answer (key_a pressed) false false (38 ∷ [])
    ∷ key_repeat (key_a pressed) (38 ∷ [])
    ∷ key_event none_held 38 released 2 false
    ∷ key_answer (key_a released) false false []
    ∷ []

abbrev clients_of : Option KeyboardState → List (ℕ × KeyState)
clients_of none = []
clients_of (some s) = to_clients s.effects

-- Unlocked, the client gets the press and the release, newest first, but no repetition.
typing-reaches :
    clients_of (key_run every letter idle_keyboard typing) ≡ (38, released) ∷ (38, pressed) ∷ []
unfolding key_run
typing-reaches = refl

-- A key that the engine's maps lack stops the program.
unknown-panics :
    key_step (λ event. false) letter idle_keyboard (key_event none_held 38 pressed 1 false) ≡ none
unfolding key_step
unknown-panics = refl

-- The table of the engine has one key.
abbrev only_a : VeshellKeyEvent → Bool
only_a event = event.key_code == 38

abbrev after : Option KeyboardState → KeyboardState
after none = locked_keyboard
after (some s) = s

key_run-Quiet_example :
    ((after (key_run only_a letter locked_keyboard typing)).is_locked ≡ true)
    × (to_clients (after (key_run only_a letter locked_keyboard typing)).effects ≡ [])
unfolding key_run
key_run-Quiet_example =
    key_run-Quiet only_a letter locked_keyboard typing
      (after (key_run only_a letter locked_keyboard typing)) refl refl

-- Without the engine the answer of the shell has no one to take it.
no_engine-panics :
    key_step only_a letter
      (record locked_keyboard { has_engine = false })
      (key_answer (key_a pressed) false false [])
    ≡ none
unfolding key_step
no_engine-panics = refl

key_step-timer_example :
    Ends HasTimer (key_step every letter idle_keyboard (key_event none_held 38 pressed 1 false))
key_step-timer_example =
    key_step-timer every letter idle_keyboard (key_event none_held 38 pressed 1 false) refl

abbrev played : List VeshellKeyEvent
played = key_a pressed ∷ []

release-forward_events_example :
    (holds (forward_events every letter played idle_keyboard)
      ≡ (forward_events every letter played idle_keyboard).game_mode_forwarded_keys)
    × (holds (
          release_game_mode_forwarded_keys every letter
            (forward_events every letter played idle_keyboard))
        ≡ [])
    × (left_keys (
          release_game_mode_forwarded_keys every letter
            (forward_events every letter played idle_keyboard))
        ≡ [])
unfolding client_holds
release-forward_events_example = release-forward_events every letter idle_keyboard played refl
