-- ===== src/Keyboard/Stuck.antt =====
-- What a release does to the set of forwarded keys.
use veshell.Base.{ℕ, ◌≡◌, Bool, true, false, ◌&&◌, not, List, [], ◌∷◌, if◌then◌else◌, if_holds}
use veshell.Keyboard.Forwarded.{contains-erase}
use veshell.Keyboard.SuperKeys.{
  VeshellKeyEvent, SuperKeyForwarding, is_pressed, is_modifier, is_super, contains, erase, has_key,
  remove_key, insert_key, track_forwarded, track_all, consume_pending, withholds, is_empty,
  Resolution, pass, settle, release, pass_on, follow, resolve,
}

-- The client does not believe the key to be held.
abbrev Up : ℕ → Resolution → Type 0
Up k r = contains k (r.0).forwarded ≡ false

track-Up :
    (e : VeshellKeyEvent) (keys : List ℕ)
    → is_pressed e.state ≡ false
    → contains e.key_code (track_forwarded e keys) ≡ false
track-Up e keys h = rw h (contains-erase e.key_code keys)

settle-Up :
    (s : SuperKeyForwarding) (e : VeshellKeyEvent) (handled : Bool)
    → is_pressed e.state ≡ false
    → handled ≡ false
    → Up e.key_code (settle s e handled)
settle-Up s e true h n = cc
settle-Up s e false h n = track-Up e (track_all s.pending s.forwarded) h

release-Up :
    (s : SuperKeyForwarding) (e : VeshellKeyEvent)
    → is_pressed e.state ≡ false
    → Up e.key_code (release s e)
release-Up s e h =
    let t = record s { consumed = remove_key e.key_code s.consumed } in
    if_holds (Up e.key_code) (contains e.key_code s.forwarded)
      (record t { forwarded = erase e.key_code s.forwarded }, e ∷ [])
      (if has_key e.key_code s.consumed
        then if not (is_modifier e.keysym) then (t, []) else pass t e
        else pass s e)
      (λ _. contains-erase e.key_code s.forwarded)
      λ up.
        if_holds (Up e.key_code) (has_key e.key_code s.consumed)
          (if not (is_modifier e.keysym) then (t, []) else pass t e) (pass s e)
          (λ _.
            if_holds (Up e.key_code) (not (is_modifier e.keysym)) (t, []) (pass t e) (λ _. up)
              (λ _. track-Up e s.forwarded h))
          (λ _. track-Up e s.forwarded h)

right_false : (a b : Bool) → a ≡ true → (a && b) ≡ false → b ≡ false
right_false true b p h = h
right_false false b p h = cc

-- After the release of a key the key is not in the set of forwarded keys, in any state, unless the
-- release settles a withheld press of that key which the shell handled.
pub resolve-release :
    (s : SuperKeyForwarding) (e : VeshellKeyEvent) (handled : Bool) (held : List ℕ)
    → is_pressed e.state ≡ false
    → (withholds e.key_code s.pending && handled) ≡ false
    → contains e.key_code (resolve s e handled held).0.forwarded ≡ false
unfolding resolve consume_pending
resolve-release s e handled held h n =
    let consumed = consume_pending s in
    let taken =
      if is_pressed e.state
      then record consumed { consumed = insert_key e consumed.consumed }
      else consumed in
    let passed =
      if is_super e.keysym && is_pressed e.state
      then (record s { pending = e ∷ [] }, [])
      else pass_on s e held in
    if_holds (Up e.key_code) (not (is_pressed e.state))
      (if withholds e.key_code s.pending then settle s e handled else release consumed e)
      (if handled then (taken, []) else if is_empty s.pending then passed else follow s e)
      (λ _.
        if_holds (Up e.key_code) (withholds e.key_code s.pending) (settle s e handled)
          (release consumed e) (λ w. settle-Up s e handled h (right_false _ _ w n))
          (λ _. release-Up consumed e h))
      (λ p. cc (p, h))
