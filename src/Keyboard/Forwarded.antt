-- ===== src/Keyboard/Forwarded.antt =====
-- The set of forwarded keys and the events that a client gets (keyboard/mod.rs).
use veshell.Base.{
  ℕ, ◌≡◌, refl, sym, ap, ◌∙◌, Bool, true, false, ◌&&◌, not, List, [], ◌∷◌, ◌++◌, if◌then◌else◌,
  if_holds, not-eq-true, ◌||◌, ◌==◌, ==_iff, Bool-cases, inl, inr,
}
use veshell.Keyboard.SuperKeys.{
  VeshellKeyEvent, SuperKeyForwarding, is_pressed, is_modifier, is_super, contains, erase, has_key,
  remove_key, insert_key, track_forwarded, track_all, consume_pending, withholds, sort_by_time,
  held_modifiers, remove_keys, is_empty, Resolution, pass, settle, release, pass_on, follow,
  resolve, clear, KeyState, pressed, released,
}

track_all-append :
    (es fs : List VeshellKeyEvent) (keys : List ℕ)
    → track_all (es ++ fs) keys ≡ track_all fs (track_all es keys)
track_all-append [] fs keys = refl
track_all-append (e ∷ es) fs keys = track_all-append es fs (track_forwarded e keys)

-- The new set is the old one after the events that the client gets.
abbrev Tracks : SuperKeyForwarding → Resolution → Type 0
Tracks s r = (r.0).forwarded ≡ track_all (r.1) s.forwarded

settle-Tracks :
    (s : SuperKeyForwarding) (e : VeshellKeyEvent) (handled : Bool) → Tracks s (settle s e handled)
settle-Tracks s e true = refl
settle-Tracks s e false = sym (track_all-append s.pending (e ∷ []) s.forwarded)

release-Tracks :
    (s : SuperKeyForwarding) (e : VeshellKeyEvent)
    → is_pressed e.state ≡ false
    → Tracks s (release s e)
release-Tracks s e h =
    let t = record s { consumed = remove_key e.key_code s.consumed } in
    if_holds (Tracks s) (contains e.key_code s.forwarded)
      (record t { forwarded = erase e.key_code s.forwarded }, e ∷ [])
      (if has_key e.key_code s.consumed
        then if not (is_modifier e.keysym) then (t, []) else pass t e
        else pass s e)
      (λ _. rw h refl)
      λ _.
        if_holds (Tracks s) (has_key e.key_code s.consumed)
          (if not (is_modifier e.keysym) then (t, []) else pass t e) (pass s e)
          (λ _.
            if_holds (Tracks s) (not (is_modifier e.keysym)) (t, []) (pass t e) (λ _. refl)
              (λ _. refl))
          (λ _. refl)

pass_on-Tracks :
    (s : SuperKeyForwarding) (e : VeshellKeyEvent) (held : List ℕ) → Tracks s (pass_on s e held)
pass_on-Tracks s e held =
    let modifiers =
      if is_pressed e.state && not (is_modifier e.keysym)
      then sort_by_time (held_modifiers held s.consumed)
      else [] in
    if_holds (Tracks s) (is_empty modifiers) (pass s e)
      (
        record s {
          consumed = remove_keys modifiers s.consumed;
          forwarded = track_forwarded e (track_all modifiers s.forwarded);
        },
        modifiers ++ (e ∷ []),
      )
      (λ _. refl) (λ _. sym (track_all-append modifiers (e ∷ []) s.forwarded))

follow-Tracks : (s : SuperKeyForwarding) (e : VeshellKeyEvent) → Tracks s (follow s e)
follow-Tracks s e =
    let events = s.pending ++ (e ∷ []) in
    if_holds (Tracks s) (is_modifier e.keysym) (record s { pending = events }, [])
      (record s { pending = []; forwarded = track_all events s.forwarded }, events) (λ _. refl)
      (λ _. refl)

resolve-Tracks :
    (s : SuperKeyForwarding) (e : VeshellKeyEvent) (handled : Bool) (held : List ℕ)
    → Tracks s (resolve s e handled held)
unfolding resolve consume_pending
resolve-Tracks s e handled held =
    let consumed = consume_pending s in
    let taken =
      if is_pressed e.state
      then record consumed { consumed = insert_key e consumed.consumed }
      else consumed in
    let passed =
      if is_super e.keysym && is_pressed e.state
      then (record s { pending = e ∷ [] }, [])
      else pass_on s e held in
    if_holds (Tracks s) (not (is_pressed e.state))
      (if withholds e.key_code s.pending then settle s e handled else release consumed e)
      (if handled then (taken, []) else if is_empty s.pending then passed else follow s e)
      (λ h.
        if_holds (Tracks s) (withholds e.key_code s.pending) (settle s e handled)
          (release consumed e) (λ _. settle-Tracks s e handled)
          (λ _. release-Tracks consumed e (not-eq-true _ h)))
      λ _.
        if_holds (Tracks s) handled (taken, []) (if is_empty s.pending then passed else follow s e)
          (λ _.
            if_holds (λ (t : SuperKeyForwarding). t.forwarded ≡ s.forwarded) (is_pressed e.state)
              (record consumed { consumed = insert_key e consumed.consumed }) consumed (λ _. refl)
              (λ _. refl))
          λ _.
            if_holds (Tracks s) (is_empty s.pending) passed (follow s e)
              (λ _.
                if_holds (Tracks s) (is_super e.keysym && is_pressed e.state)
                  (record s { pending = e ∷ [] }, []) (pass_on s e held) (λ _. refl)
                  (λ _. pass_on-Tracks s e held))
              (λ _. follow-Tracks s e)

-- Everything that happens to the record of what the client got.
pub data Input : Type 0 where
  -- an event with its answer: whether the shell handled it, and the keys that are held
  answered : VeshellKeyEvent → Bool → List ℕ → Input
  -- a key of the compositor's own
  swallowed : Input
  -- a lock or an active text field
  cleared : Input

-- What the client sees: an event, or that it counts as holding nothing from now on.
pub data Seen : Type 0 where
  sent : VeshellKeyEvent → Seen
  forgotten : Seen

abbrev all_sent : List VeshellKeyEvent → List Seen
all_sent [] = []
all_sent (e ∷ es) = sent e ∷ all_sent es

-- The state after some inputs, and all that the client saw.
unfoldable pub run : SuperKeyForwarding → List Input → SuperKeyForwarding × List Seen
unfolding resolve consume_pending clear
run s [] = (s, [])
run s (answered event handled held ∷ is) =
    let (t, events) = resolve s event handled held in
    let (u, later) = run t is in (u, all_sent events ++ later)
run s (swallowed ∷ is) = run (consume_pending s) is
run s (cleared ∷ is) = let (u, later) = run (clear s) is in (u, forgotten ∷ later)

-- Whether a key is held after what was seen, if `before` tells whether it was: the last press or
-- release of that key decides, or that it was forgotten.
unfoldable pub is_held : ℕ → Bool → List Seen → Bool
is_held key before [] = before
is_held key before (sent e ∷ es) =
    is_held key (if e.key_code == key then is_pressed e.state else before) es
is_held key before (forgotten ∷ es) = is_held key false es

is_held-append :
    (key : ℕ) (before : Bool) (xs ys : List Seen)
    → is_held key before (xs ++ ys) ≡ is_held key (is_held key before xs) ys
unfolding is_held
is_held-append key before [] ys = refl
is_held-append key before (sent e ∷ es) ys =
    is_held-append key (if e.key_code == key then is_pressed e.state else before) es ys
is_held-append key before (forgotten ∷ es) ys = is_held-append key false es ys

pub contains-erase : (k : ℕ) (xs : List ℕ) → contains k (erase k xs) ≡ false
unfolding contains erase
contains-erase k [] = refl
contains-erase k (x ∷ xs) =
    let rest = contains-erase k xs in
    elim (Bool-cases (x == k)) [ inl e ↦ rw e rest | inr e ↦ rw (e, e) rest ]

contains-erase_other :
    (key other : ℕ) (keys : List ℕ)
    → (other == key) ≡ false
    → contains key (erase other keys) ≡ contains key keys
unfolding contains erase
contains-erase_other key other [] h = refl
contains-erase_other key other (x ∷ xs) h =
    let rest = contains-erase_other key other xs h in
    elim (Bool-cases (x == other)) [
      | inl e ↦ rw e (rest ∙ skips x e)
      | inr e ↦ rw e (ap (λ b. (x == key) || b) rest)
    ]
  where
    skips : (x : ℕ) → (x == other) ≡ true → contains key xs ≡ ((x == key) || contains key xs)
    skips x e = rw ((==_iff x other).0 e) (rw h refl)

track_forwarded-is_held :
    (key : ℕ) (e : VeshellKeyEvent) (keys : List ℕ)
    → contains key (track_forwarded e keys)
      ≡ (if e.key_code == key then is_pressed e.state else contains key keys)
unfolding contains
track_forwarded-is_held key e keys = by_state e.state
  where
    erased :
        contains key (erase e.key_code keys)
        ≡ (if e.key_code == key then false else contains key keys)
    erased = elim (Bool-cases (e.key_code == key)) [
      | inl h ↦ rw h (rw ((==_iff e.key_code key).0 h) (contains-erase key keys))
      | inr h ↦ rw h (contains-erase_other key e.key_code keys h)
    ]

    or_if :
        (b c : Bool) (x : Bool) → x ≡ (if b then false else c) → (b || x) ≡ (if b then true else c)
    or_if true c x h = refl
    or_if false c x h = h

    by_state :
        (state : KeyState)
        → contains key
            (if is_pressed state then e.key_code ∷ erase e.key_code keys else erase e.key_code keys)
          ≡ (if e.key_code == key then is_pressed state else contains key keys)
    by_state pressed = or_if (e.key_code == key) (contains key keys) _ erased
    by_state released = erased

track_all-is_held :
    (key : ℕ) (es : List VeshellKeyEvent) (keys : List ℕ)
    → contains key (track_all es keys) ≡ is_held key (contains key keys) (all_sent es)
unfolding is_held
track_all-is_held key [] keys = refl
track_all-is_held key (e ∷ es) keys =
    track_all-is_held key es (track_forwarded e keys)
    ∙ ap (λ b. is_held key b (all_sent es)) (track_forwarded-is_held key e keys)

-- Whatever keys are pressed and released, whatever the shell handles of them, and however the
-- compositor's own keys, locks and text fields come in between: a key is in the set of forwarded
-- keys exactly if the last that the client was sent of it is a press. What was sent before a
-- lock or a text field cleared the set does not count, and before anything was sent the set at
-- the start decides.
pub run-forwarded :
    (s : SuperKeyForwarding) (is : List Input) (key : ℕ)
    → contains key (run s is).0.forwarded ≡ is_held key (contains key s.forwarded) (run s is).1
unfolding run consume_pending clear is_held contains
run-forwarded s [] key = refl
run-forwarded s (answered event handled held ∷ is) key =
    let r = resolve s event handled held in
    run-forwarded (r.0) is key
    ∙ ap (λ b. is_held key b (run (r.0) is).1)
        (ap (contains key) (resolve-Tracks s event handled held)
          ∙ track_all-is_held key (r.1) s.forwarded)
    ∙ sym (is_held-append key (contains key s.forwarded) (all_sent (r.1)) (run (r.0) is).1)
run-forwarded s (swallowed ∷ is) key = run-forwarded (consume_pending s) is key
run-forwarded s (cleared ∷ is) key = run-forwarded (clear s) is key
