-- ===== src/Keyboard/Examples.antt =====
-- Super opens the launcher, and a letter is typed after it.
use veshell.Base.{ℕ, ◌≡◌, refl, true, false, List, [], ◌∷◌, some}
use veshell.Keyboard.SuperKeys.{
  KeyState, pressed, released, Keysym, super_l, other, Modifiers, VeshellKeyEvent, default, resolve,
  contains,
}
use veshell.Keyboard.Forwarded.{
  Input, answered, swallowed, cleared, sent, forgotten, is_held, run, run-forwarded,
}
use veshell.Keyboard.Stuck.{resolve-release}

abbrev no_mods : Modifiers
no_mods = record { ctrl = false; alt = false; shift = false; logo = false; num_lock = false }

abbrev key : ℕ → Keysym → KeyState → ℕ → VeshellKeyEvent
key code sym state time = record {
  key_code = code;
  raw_keysym = some sym;
  keysym = sym;
  state = state;
  time = time;
  mods = no_mods;
  mods_changed = false;
  synthesized = false;
}

-- Super and l, where the shell handles nothing, then Super alone, which it handles.
abbrev typed : List Input
typed =
    answered (key 133 super_l pressed 1) false (133 ∷ [])
    ∷ answered (key 46 (other 108) pressed 2) false (133 ∷ 46 ∷ [])
    ∷ answered (key 46 (other 108) released 3) false (133 ∷ [])
    ∷ answered (key 133 super_l released 4) false []
    ∷ answered (key 133 super_l pressed 5) false (133 ∷ [])
    ∷ answered (key 133 super_l released 6) true []
    ∷ swallowed
    ∷ cleared
    ∷ []

typed_reaches_client :
    (run default typed).1
    ≡ sent (key 133 super_l pressed 1)
      ∷ sent (key 46 (other 108) pressed 2)
      ∷ sent (key 46 (other 108) released 3)
      ∷ sent (key 133 super_l released 4)
      ∷ forgotten
      ∷ []
unfolding run resolve
typed_reaches_client = refl

run-forwarded_example :
    contains 133 (run default typed).0.forwarded
    ≡ is_held 133 (contains 133 default.forwarded) (run default typed).1
run-forwarded_example = run-forwarded default typed 133

-- The release of a letter that the client got.
resolve-release_example :
    contains 46
      (resolve
        (record { pending = []; consumed = []; forwarded = 133 ∷ 46 ∷ [] })
        (key 46 (other 108) released 3)
        false
        (133 ∷ [])).0.forwarded
    ≡ false
unfolding resolve
resolve-release_example =
    resolve-release (record { pending = []; consumed = []; forwarded = 133 ∷ 46 ∷ [] })
      (key 46 (other 108) released 3) false (133 ∷ []) refl refl
