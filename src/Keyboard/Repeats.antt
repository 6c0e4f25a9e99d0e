-- ===== src/Keyboard/Repeats.antt =====
-- That a key event, an answer of the shell and a repetition keep the one timer (keyboard/mod.rs).
use veshell.Base.{
  ℕ, not, Bool, true, false, List, [], ◌∷◌, Option, none, some, ◌>>=◌, if◌then◌else◌, if_holds,
}
use veshell.Keyboard.SuperKeys.{
  KeyState, released, VeshellKeyEvent, SuperKeyForwarding, is_pressed, contains, resolve,
}
use veshell.Keyboard.Repeater.{up, stop, down-Repeating, up-Repeating, stop-Repeating}
use veshell.Keyboard.Routing.{
  press_key, KeyboardState, Interpreted, emit, send_key_event, send_releases, release_flutter_keys,
  sync_flutter_lock_modes, repeat_interval, gaming_input_active, swap_left_alt_and_meta,
}
use veshell.Keyboard.Hotkeys.{Answer, handle_embedder_hotkeys}
use veshell.Keyboard.Handling.{
  route, to_shell, repeat, repeat_down, sent, clear_forwarding, forward_to_game, on_lock_screen,
  interpret, handle_keyboard_event, on_repeat, type_key, forward, forward_all,
  post_flutter_handle_key_event,
}
use veshell.Keyboard.Locked.{KeyInput, key_event, key_answer, key_repeat, key_step}
use veshell.Keyboard.Timers.{
  Ends, EndsAnswer, HasTimer, Ends-bind, send_key_event-timer, sync_flutter_lock_modes-timer,
  handle_embedder_hotkeys-timer,
}

module _ (supported : VeshellKeyEvent → Bool) (xkb : ℕ → KeyState → Interpreted) where
  repeat-timer :
      (s : KeyboardState) (event : VeshellKeyEvent)
      → HasTimer s
      → HasTimer (repeat supported xkb event s)
  repeat-timer s event h =
      let downs = repeat_down supported xkb (repeat_interval s.repeat_rate) event s in
      let ups = record s { repeater = up s.repeater event } in
      if_holds HasTimer event.mods_changed s (if is_pressed event.state then downs else ups)
        (λ e. h)
        (λ e.
          if_holds HasTimer (is_pressed event.state) downs ups
            (λ f. repeats (repeat_interval s.repeat_rate)) (λ f. up-Repeating s.repeater event h))
    where
      repeats : (interval : Option ℕ) → HasTimer (repeat_down supported xkb interval event s)
      repeats none = h
      repeats (some interval) = down-Repeating s.repeater event s.repeat_delay interval h

  route-timer :
      (event : VeshellKeyEvent) (answer : Answer)
      → EndsAnswer HasTimer answer
      → Ends HasTimer (answer >>= route supported xkb event)
  route-timer event none h = tt
  route-timer event (some (true, s)) h = h
  route-timer event (some (false, s)) h =
      if_holds (Ends HasTimer) (gaming_input_active s)
        (some (forward_to_game supported xkb s event)) (to_shell supported xkb event s) (λ e. h)
        (λ e.
          Ends-bind HasTimer (send_key_event supported xkb s event false true) _
            (send_key_event-timer supported xkb s event false true h)
            (λ t g. repeat-timer (sent supported xkb event t) event g))

  forward_all-timer :
      (events : List VeshellKeyEvent) (s : KeyboardState)
      → HasTimer s
      → HasTimer (forward_all supported xkb events s)
  forward_all-timer [] s h = h
  forward_all-timer (event ∷ events) s h = forward_all-timer events _ h

  type_key-timer :
      (s : KeyboardState) (event : VeshellKeyEvent) (handled : Bool)
      → HasTimer s
      → HasTimer (type_key supported xkb s event handled)
  type_key-timer s event handled h =
      if_holds HasTimer _ (emit (press_key event.keysym) s) s (λ e. h) (λ e. h)

  forward-timer :
      (resolved : SuperKeyForwarding × List VeshellKeyEvent) (s : KeyboardState)
      → HasTimer s
      → HasTimer (forward supported xkb resolved s)
  forward-timer (forwarding, events) s h =
      forward_all-timer events (record s { forwarding = forwarding }) h

  post_flutter-timer :
      (s : KeyboardState) (event : VeshellKeyEvent) (handled repeats : Bool) (held : List ℕ)
      → HasTimer s
      → Ends HasTimer (post_flutter_handle_key_event supported xkb s event handled repeats held)
  unfolding post_flutter_handle_key_event
  post_flutter-timer s event handled repeats held h =
      let cleared = clear_forwarding supported xkb s in
      let typed = type_key supported xkb cleared event handled in
      let forwarded = forward supported xkb (resolve s.forwarding event handled held) s in
      let unlocked =
        if s.text_active then some typed else if repeats then some s else some forwarded in
      let screen = on_lock_screen supported xkb s event handled in
      if_holds (Ends HasTimer) (not s.has_engine) none
        (if s.is_locked then some screen else unlocked) (λ e. tt)
        (λ e.
          if_holds (Ends HasTimer) s.is_locked (some screen) unlocked
            (λ e.
              if_holds HasTimer s.text_active typed cleared
                (λ f. type_key-timer cleared event handled h) (λ f. h))
            (λ e.
              if_holds (Ends HasTimer) s.text_active (some typed)
                (if repeats then some s else some forwarded)
                (λ f. type_key-timer cleared event handled h)
                (λ f.
                  if_holds (Ends HasTimer) repeats (some s) (some forwarded) (λ g. h)
                    (λ g. forward-timer (resolve s.forwarding event handled held) s h))))

  -- Every key event, answer of the shell and repetition that does not panic keeps this: the
  -- event loop holds exactly one timer of the repeater while a key repeats, for that key and
  -- under the repeater's token, and none otherwise.
  pub key_step-timer :
      (s : KeyboardState) (input : KeyInput)
      → HasTimer s
      → Ends HasTimer (key_step supported xkb s input)
  unfolding key_step handle_keyboard_event on_repeat
  key_step-timer s (key_event mods code state time synthesized) h =
      Ends-bind HasTimer (sync_flutter_lock_modes supported xkb s mods) _
        (sync_flutter_lock_modes-timer supported xkb s mods h)
        (λ t g.
          let swapped = swap_left_alt_and_meta t code in
          let event = interpret (xkb swapped state) swapped state time synthesized in
          route-timer event (handle_embedder_hotkeys supported xkb t event)
            (handle_embedder_hotkeys-timer supported xkb t event g))
  key_step-timer s (key_answer event handled repeats held) h =
      post_flutter-timer s event handled repeats held h
  key_step-timer s (key_repeat event held) h =
      if_holds (Ends HasTimer) (contains event.key_code held)
        (send_key_event supported xkb s event true true) (some s)
        (λ e. send_key_event-timer supported xkb s event true true h) (λ e. h)

  send_releases-timer :
      (events : List VeshellKeyEvent) (s : KeyboardState)
      → HasTimer s
      → Ends HasTimer (send_releases supported xkb events s)
  send_releases-timer [] s h = h
  send_releases-timer (event ∷ events) s h =
      Ends-bind HasTimer
        (send_key_event supported xkb s (record event { state = released }) false true)
        (send_releases supported xkb events)
        (send_key_event-timer supported xkb s (record event { state = released }) false true h)
        (send_releases-timer events)

  -- Handing the keyboard to a client keeps the timers too.
  release_flutter_keys-timer :
      (s : KeyboardState) → HasTimer s → Ends HasTimer (release_flutter_keys supported xkb s)
  unfolding release_flutter_keys
  release_flutter_keys-timer s h =
      let drained = record s { repeater = stop s.repeater; flutter_sent_keys = [] } in
      let stopped = stop-Repeating s.repeater h in
      if_holds (Ends HasTimer) s.has_engine
        (send_releases supported xkb s.flutter_sent_keys drained) (some drained)
        (λ e. send_releases-timer s.flutter_sent_keys drained stopped) (λ e. stopped)
