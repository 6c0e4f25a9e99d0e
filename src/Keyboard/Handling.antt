-- ===== src/Keyboard/Handling.antt =====
-- The handler of a key event and of the shell's answer to one (keyboard/mod.rs).
use veshell.Base.{
  ℕ, Bool, true, false, ◌&&◌, not, List, [], ◌∷◌, Option, none, some, ◌>>=◌, if◌then◌else◌,
}
use veshell.Keyboard.SuperKeys.{
  KeyState, Modifiers, VeshellKeyEvent, SuperKeyForwarding, is_pressed, contains, erase, remove_key,
  insert_key, consume_pending, clear, resolve,
}
use veshell.Keyboard.Repeater.{down, up}
use veshell.Keyboard.Routing.{
  to_client, press_key, KeyboardState, Interpreted, emit, gaming_input_active,
  swap_left_alt_and_meta, repeat_interval, send_key_event, sync_flutter_lock_modes,
}
use veshell.Keyboard.Hotkeys.{handle_embedder_hotkeys}

abbrev pub interpret : Interpreted → ℕ → KeyState → ℕ → Bool → VeshellKeyEvent
interpret found key_code state time synthesized = record {
  key_code = key_code;
  raw_keysym = found.raw_keysym;
  keysym = found.keysym;
  state = state;
  time = time;
  mods = found.mods;
  mods_changed = found.mods_changed;
  synthesized = synthesized;
}

module _ (supported : VeshellKeyEvent → Bool) (xkb : ℕ → KeyState → Interpreted) where
  -- The client of gaming mode gets the event, and it is remembered what it was handed.
  abbrev pub forward_to_game : KeyboardState → VeshellKeyEvent → KeyboardState
  forward_to_game s event =
      record (emit (to_client event.key_code event.state event.mods_changed) s) {
        game_mode_forwarded_keys =
            if is_pressed event.state
            then event.key_code ∷ erase event.key_code s.game_mode_forwarded_keys
            else erase event.key_code s.game_mode_forwarded_keys;
      }

  abbrev pub sent : VeshellKeyEvent → KeyboardState → KeyboardState
  sent event s = record s {
    flutter_num_lock = event.mods.num_lock;
    flutter_sent_keys =
        if is_pressed event.state
        then insert_key event s.flutter_sent_keys
        else remove_key event.key_code s.flutter_sent_keys;
  }

  abbrev pub repeat_down : Option ℕ → VeshellKeyEvent → KeyboardState → KeyboardState
  repeat_down none event s = s
  repeat_down (some interval) event s = record s {
    repeater = down s.repeater event s.repeat_delay interval;
  }

  abbrev pub repeat : VeshellKeyEvent → KeyboardState → KeyboardState
  repeat event s =
      if event.mods_changed
      then s
      else if is_pressed event.state
      then repeat_down (repeat_interval s.repeat_rate) event s
      else record s { repeater = up s.repeater event }

  abbrev pub consume_withheld : KeyboardState → KeyboardState
  consume_withheld s = record s { forwarding = consume_pending s.forwarding }

  abbrev pub to_shell : VeshellKeyEvent → KeyboardState → Option KeyboardState
  to_shell event s =
      send_key_event supported xkb s event false true >>= λ t. some (repeat event (sent event t))

  abbrev pub route : VeshellKeyEvent → Bool × KeyboardState → Option KeyboardState
  route event (true, s) = some (consume_withheld s)
  route event (false, s) =
      if gaming_input_active s then some (forward_to_game s event) else to_shell event s

  abbrev pub handle_synced : KeyboardState → ℕ → KeyState → ℕ → Bool → Option KeyboardState
  handle_synced s key_code state time synthesized =
      let code = swap_left_alt_and_meta s key_code in
      let event = interpret (xkb code state) code state time synthesized in
      handle_embedder_hotkeys supported xkb s event >>= route event

  -- `mods` are the seat's modifiers before the event.
  unfoldable pub handle_keyboard_event :
      KeyboardState → Modifiers → ℕ → KeyState → ℕ → Bool → Option KeyboardState
  unfolding sync_flutter_lock_modes swap_left_alt_and_meta handle_embedder_hotkeys consume_pending
      erase remove_key down up repeat_interval
  handle_keyboard_event s mods key_code state time synthesized =
      sync_flutter_lock_modes supported xkb s mods >>= λ t.
      handle_synced t key_code state time synthesized

  -- A timer of the repeater fires: the event goes to the shell as a repetition, if its key is
  -- still held.
  unfoldable pub on_repeat : KeyboardState → VeshellKeyEvent → List ℕ → Option KeyboardState
  unfolding contains
  on_repeat s event held =
      if contains event.key_code held
      then send_key_event supported xkb s event true true
      else some s

  abbrev pub type_key : KeyboardState → VeshellKeyEvent → Bool → KeyboardState
  type_key s event handled =
      if (not handled && is_pressed event.state) && (not event.mods.ctrl && not event.mods.alt)
      then emit (press_key event.keysym) s
      else s

  abbrev pub clear_forwarding : KeyboardState → KeyboardState
  clear_forwarding s = record s { forwarding = clear s.forwarding }

  abbrev pub forward_all : List VeshellKeyEvent → KeyboardState → KeyboardState
  forward_all [] s = s
  forward_all (event ∷ events) s =
      forward_all events (emit (to_client event.key_code event.state event.mods_changed) s)

  abbrev pub forward : SuperKeyForwarding × List VeshellKeyEvent → KeyboardState → KeyboardState
  forward (forwarding, events) s = forward_all events (record s { forwarding = forwarding })

  abbrev pub on_lock_screen : KeyboardState → VeshellKeyEvent → Bool → KeyboardState
  on_lock_screen s event handled =
      if s.text_active then type_key (clear_forwarding s) event handled else clear_forwarding s

  -- `held` are the keys that the seat knows to be pressed. Without the engine the code panics.
  unfoldable pub post_flutter_handle_key_event :
      KeyboardState → VeshellKeyEvent → Bool → Bool → List ℕ → Option KeyboardState
  unfolding clear resolve
  post_flutter_handle_key_event s event handled is_repeat held =
      if not s.has_engine
      then none
      else if s.is_locked
      then some (on_lock_screen s event handled)
      else if s.text_active
      then some (type_key (clear_forwarding s) event handled)
      else if is_repeat
      then some s
      else some (forward (resolve s.forwarding event handled held) s)
