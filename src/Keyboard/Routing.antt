-- ===== src/Keyboard/Routing.antt =====
-- Where a key event goes (keyboard/mod.rs): the compositor's own keys, the client of gaming mode,
-- or the shell and, after its answer, the focused client.
use Prim.Native.String.{String}
use veshell.Base.{
  ℕ, ◌+◌, ◌-◌, ◌/◌, max, Bool, true, false, ◌&&◌, ◌||◌, not, List, [], ◌∷◌, Option, none, some,
  ◌==◌, leb, ltb, ◌>>=◌, if◌then◌else◌,
}
use veshell.Keyboard.SuperKeys.{
  KeyState, pressed, released, Keysym, other, Modifiers, VeshellKeyEvent, SuperKeyForwarding,
}
use veshell.Keyboard.Repeater.{KeyRepeater, stop}

-- The numbers of the key symbols and codes that the source names.
abbrev pub brightness_up : ℕ
brightness_up = 269025026

abbrev pub brightness_down : ℕ
brightness_down = 269025027

abbrev pub switch_vt_1 : ℕ
switch_vt_1 = 269024769

abbrev pub switch_vt_12 : ℕ
switch_vt_12 = 269024780

abbrev pub print_key : ℕ
print_key = 65377

abbrev pub escape_key : ℕ
escape_key = 65307

abbrev pub delete_key : ℕ
delete_key = 65535

abbrev num_lock_key : ℕ
num_lock_key = 65407

abbrev key_left_alt : ℕ
key_left_alt = 56

abbrev key_left_meta : ℕ
key_left_meta = 125

abbrev pub is_sym : ℕ → Keysym → Bool
is_sym n (other m) = m == n
is_sym n _ = false

-- The number of the terminal that a symbol switches to.
abbrev pub vt_of : Keysym → Option ℕ
vt_of (other m) =
    if leb switch_vt_1 m && leb m switch_vt_12 then some (m - switch_vt_1 + 1) else none
vt_of _ = none

-- What leaves the keyboard part.
pub data KeyEffect : Type 0 where
  -- the event, whether it repeats, and whether the shell's answer comes back
  to_flutter : VeshellKeyEvent → Bool → Bool → KeyEffect
  -- the key's code, its state, and whether the modifiers changed
  to_client : ℕ → KeyState → Bool → KeyEffect
  press_key : Keysym → KeyEffect
  brighten : KeyEffect
  darken : KeyEffect
  change_vt : ℕ → KeyEffect
  exit : KeyEffect
  begin_capture : Bool → KeyEffect
  cancel_capture : KeyEffect
  stop_recording : KeyEffect
  leave_gaming : String → KeyEffect

-- The parts of the compositor's state that a key event reads or writes, with its effects, newest
-- first. The pressed keys that the seat knows, its modifiers and `text_active` are other parts'.
pub record KeyboardState : Type 0 where
  pub has_engine : Bool
  pub flutter_num_lock : Bool
  pub swap_alt_and_win : Bool
  pub gaming_window : Option String
  pub is_locked : Bool
  pub is_recording : Bool
  pub is_capturing : Bool
  pub text_active : Bool
  pub forwarding : SuperKeyForwarding
  pub game_mode_forwarded_keys : List ℕ
  pub flutter_sent_keys : List VeshellKeyEvent
  pub repeat_rate : ℕ
  pub repeat_delay : ℕ
  pub repeater : KeyRepeater
  pub effects : List KeyEffect

-- What xkb says about a key: the modifiers, the symbols, and whether the modifiers changed.
pub record Interpreted : Type 0 where
  pub mods : Modifiers
  pub raw_keysym : Option Keysym
  pub keysym : Keysym
  pub mods_changed : Bool

abbrev pub emit : KeyEffect → KeyboardState → KeyboardState
emit effect s = record s { effects = effect ∷ s.effects }

abbrev pub is_some {ℓ} : {A : Type ℓ} → Option A → Bool
is_some none = false
is_some (some a) = true

abbrev pub gaming_input_active : KeyboardState → Bool
gaming_input_active s = is_some s.gaming_window && not s.is_locked

abbrev same_bool : Bool → Bool → Bool
same_bool true b = b
same_bool false b = not b

unfoldable pub num_lock_event : Modifiers → KeyState → VeshellKeyEvent
num_lock_event mods state = record {
  key_code = 77;
  raw_keysym = some (other num_lock_key);
  keysym = other num_lock_key;
  state = state;
  time = 0;
  mods = mods;
  mods_changed = false;
  synthesized = true;
}

unfoldable pub swap_left_alt_and_meta : KeyboardState → ℕ → ℕ
swap_left_alt_and_meta s key_code =
    if not s.swap_alt_and_win || is_some s.gaming_window
    then key_code
    else if key_code - 8 == key_left_meta
    then key_left_alt + 8
    else if key_code - 8 == key_left_alt
    then key_left_meta + 8
    else key_code

-- Milliseconds; `none` disables the repetition.
unfoldable pub repeat_interval : ℕ → Option ℕ
repeat_interval rate = if ltb 0 rate then some (max (1000 / rate) 1) else none

-- `supported` tells whether the table of physical keys, which is generated, has the key, and the
-- engine takes the event. Without the engine, without a raw symbol or where it is not supported,
-- an event cannot be sent, and the caller panics.
module _ (supported : VeshellKeyEvent → Bool) (xkb : ℕ → KeyState → Interpreted) where
  abbrev pub send_key_event : KeyboardState → VeshellKeyEvent → Bool → Bool → Option KeyboardState
  send_key_event s event repeat notify =
      if (s.has_engine && is_some event.raw_keysym) && supported event
      then some (emit (to_flutter event repeat notify) s)
      else none

  abbrev pub mirror : KeyboardState → Modifiers → KeyboardState
  mirror s mods = record s { flutter_num_lock = mods.num_lock }

  -- `mods` are the seat's modifiers before the event.
  unfoldable pub sync_flutter_lock_modes : KeyboardState → Modifiers → Option KeyboardState
  unfolding num_lock_event
  sync_flutter_lock_modes s mods =
      if not s.has_engine || same_bool s.flutter_num_lock mods.num_lock
      then some s
      else send_key_event s (num_lock_event mods pressed) false false >>= λ t.
          send_key_event t (num_lock_event mods released) false false >>= λ u. some (mirror u mods)

  -- Every key that the client was handed is released, the seat first.
  abbrev pub release_each : List ℕ → KeyboardState → KeyboardState
  release_each [] s = s
  release_each (key ∷ keys) s =
      release_each keys (emit (to_client key released (xkb key released).mods_changed) s)

  unfoldable pub release_game_mode_forwarded_keys : KeyboardState → KeyboardState
  release_game_mode_forwarded_keys s =
      release_each s.game_mode_forwarded_keys (record s { game_mode_forwarded_keys = [] })

  abbrev pub send_releases : List VeshellKeyEvent → KeyboardState → Option KeyboardState
  send_releases [] s = some s
  send_releases (event ∷ events) s =
      send_key_event s (record event { state = released }) false true >>= send_releases events

  unfoldable pub release_flutter_keys : KeyboardState → Option KeyboardState
  unfolding stop
  release_flutter_keys s =
      let drained = record s { repeater = stop s.repeater; flutter_sent_keys = [] } in
      if s.has_engine then send_releases s.flutter_sent_keys drained else some drained
