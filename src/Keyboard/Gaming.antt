-- ===== src/Keyboard/Gaming.antt =====
-- The keys that the client of gaming mode holds (keyboard/mod.rs).
use veshell.Base.{
  ℕ, ◌≡◌, ◌∙◌, refl, ap, Bool, true, false, List, [], ◌∷◌, ◌==◌, ==_iff, ◌||◌, if◌then◌else◌,
  Bool-cases, inl, inr, All, arith,
}
use veshell.Keyboard.SuperKeys.{
  KeyState, pressed, released, VeshellKeyEvent, is_pressed, contains, erase,
}
use veshell.Keyboard.Routing.{
  to_client, KeyboardState, Interpreted, emit, release_each, release_game_mode_forwarded_keys,
}
use veshell.Keyboard.Handling.{forward_to_game}
use veshell.Keyboard.Locked.{to_clients}

-- What a client holds that got these keys, the newest first.
unfoldable pub client_holds : List (ℕ × KeyState) → List ℕ
unfolding erase
client_holds [] = []
client_holds ((key, pressed) ∷ keys) = key ∷ erase key (client_holds keys)
client_holds ((key, released) ∷ keys) = erase key (client_holds keys)

abbrev pub holds : KeyboardState → List ℕ
holds s = client_holds (to_clients s.effects)

unfoldable erase_each : List ℕ → List ℕ → List ℕ
unfolding erase
erase_each [] held = held
erase_each (key ∷ keys) held = erase_each keys (erase key held)

abbrev Among : List ℕ → List ℕ → Type 0
Among keys held = All (λ k. contains k keys ≡ true) held

not_same : (a b : ℕ) → (a == b) ≡ false → (b == a) ≡ false
not_same a b h = ground arith

or_right : (a b : Bool) → a ≡ false → (a || b) ≡ true → b ≡ true
or_right true b h k = cc
or_right false b h k = k

Among-tail : (key : ℕ) (keys held : List ℕ) → Among (key ∷ keys) held → Among keys (erase key held)
unfolding contains erase
Among-tail key keys [] h = tt
Among-tail key keys (x ∷ xs) (here, later) = elim (Bool-cases (x == key)) [
  | inl e ↦ rw e (Among-tail key keys xs later)
  | inr e ↦
      rw e (
        or_right (key == x) (contains x keys) (not_same x key e) here,
        Among-tail key keys xs later,
      )
]

Among-more : (key : ℕ) (keys held : List ℕ) → Among keys held → Among (key ∷ keys) held
unfolding contains
Among-more key keys [] h = tt
Among-more key keys (x ∷ xs) (here, later) =
    (or_either (key == x) (contains x keys) here, Among-more key keys xs later)
  where
    or_either : (a b : Bool) → b ≡ true → (a || b) ≡ true
    or_either true b h = refl
    or_either false b h = h

Among-self : (keys : List ℕ) → Among keys keys
unfolding contains
Among-self [] = tt
Among-self (key ∷ keys) =
    (rw ((==_iff key key).1 refl) refl, Among-more key keys keys (Among-self keys))

erase_each-Among : (keys held : List ℕ) → Among keys held → erase_each keys held ≡ []
unfolding erase_each contains
erase_each-Among [] [] h = refl
erase_each-Among [] (x ∷ xs) (here, later) = cc
erase_each-Among (key ∷ keys) held h =
    erase_each-Among keys (erase key held) (Among-tail key keys held h)

abbrev pub left_keys : KeyboardState → List ℕ
left_keys s = s.game_mode_forwarded_keys

module _ (supported : VeshellKeyEvent → Bool) (xkb : ℕ → KeyState → Interpreted) where
  -- The events of gaming mode, the first one first.
  abbrev pub forward_events : List VeshellKeyEvent → KeyboardState → KeyboardState
  forward_events [] s = s
  forward_events (event ∷ events) s = forward_events events (forward_to_game supported xkb s event)

  forward_to_game-holds :
      (s : KeyboardState) (event : VeshellKeyEvent)
      → holds s ≡ s.game_mode_forwarded_keys
      → holds (forward_to_game supported xkb s event)
        ≡ (forward_to_game supported xkb s event).game_mode_forwarded_keys
  unfolding client_holds
  forward_to_game-holds s event h = by_state event.state
    where
      by_state :
          (state : KeyState)
          → client_holds ((event.key_code, state) ∷ to_clients s.effects) ≡ (
              if is_pressed state
              then event.key_code ∷ erase event.key_code s.game_mode_forwarded_keys
              else erase event.key_code s.game_mode_forwarded_keys)
      by_state pressed = ap (λ keys. event.key_code ∷ erase event.key_code keys) h
      by_state released = ap (erase event.key_code) h

  forward_events-holds :
      (events : List VeshellKeyEvent) (s : KeyboardState)
      → holds s ≡ s.game_mode_forwarded_keys
      → holds (forward_events events s) ≡ (forward_events events s).game_mode_forwarded_keys
  forward_events-holds [] s h = h
  forward_events-holds (event ∷ events) s h =
      forward_events-holds events (forward_to_game supported xkb s event)
        (forward_to_game-holds s event h)

  release_each-holds :
      (keys : List ℕ) (s : KeyboardState)
      → holds (release_each supported xkb keys s) ≡ erase_each keys (holds s)
  unfolding client_holds erase_each
  release_each-holds [] s = refl
  release_each-holds (key ∷ keys) s =
      release_each-holds keys (emit (to_client key released (xkb key released).mods_changed) s)

  release_each-keys :
      (keys : List ℕ) (s : KeyboardState)
      → (release_each supported xkb keys s).game_mode_forwarded_keys ≡ s.game_mode_forwarded_keys
  release_each-keys [] s = refl
  release_each-keys (key ∷ keys) s = release_each-keys keys _

  -- However many key events gaming mode gives its client, the keys that it has to release are
  -- those that the client holds, if they were when it began; once they are released the client
  -- holds no key and none is left to release.
  pub release-forward_events :
      (s : KeyboardState) (events : List VeshellKeyEvent)
      → holds s ≡ s.game_mode_forwarded_keys
      → (holds (forward_events events s) ≡ (forward_events events s).game_mode_forwarded_keys)
        × (holds (release_game_mode_forwarded_keys supported xkb (forward_events events s)) ≡ [])
        × (left_keys (release_game_mode_forwarded_keys supported xkb (forward_events events s))
            ≡ [])
  unfolding release_game_mode_forwarded_keys
  release-forward_events s events h =
      let played = forward_events events s in
      let keys = played.game_mode_forwarded_keys in
      let tracked = forward_events-holds events s h in
      let idle = record played { game_mode_forwarded_keys = [] } in
      (
        tracked,
        release_each-holds keys idle
            ∙ ap (erase_each keys) tracked
            ∙ erase_each-Among keys keys (Among-self keys),
        release_each-keys keys idle,
      )
