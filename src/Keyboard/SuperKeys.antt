-- ===== src/Keyboard/SuperKeys.antt =====
-- SuperKeyForwarding of keyboard/mod.rs: which key events a client gets while the shell decides
-- whether they are a shortcut.
use veshell.Base.{
  ℕ, Bool, true, false, ◌&&◌, ◌||◌, not, List, [], ◌∷◌, ◌++◌, Option, ◌==◌, leb, if◌then◌else◌,
}

pub data KeyState : Type 0 where
  pressed released : KeyState

pub data Keysym : Type 0 where
  super_l super_r shift_l shift_r control_l control_r alt_l alt_r meta_l meta_r : Keysym
  iso_level3_shift : Keysym
  -- any other, by its number
  other : ℕ → Keysym

-- The modifiers that the keyboard part reads.
pub record Modifiers : Type 0 where
  pub ctrl : Bool
  pub alt : Bool
  pub shift : Bool
  pub logo : Bool
  pub num_lock : Bool

pub record VeshellKeyEvent : Type 0 where
  pub key_code : ℕ
  pub raw_keysym : Option Keysym
  pub keysym : Keysym
  pub state : KeyState
  pub time : ℕ
  pub mods : Modifiers
  pub mods_changed : Bool
  pub synthesized : Bool

-- A set and a map of key codes, in the order of their lists.
pub record SuperKeyForwarding : Type 0 where
  pub pending : List VeshellKeyEvent
  pub consumed : List VeshellKeyEvent
  pub forwarded : List ℕ

abbrev pub default : SuperKeyForwarding
default = record { pending = []; consumed = []; forwarded = [] }

abbrev pub is_pressed : KeyState → Bool
is_pressed pressed = true
is_pressed released = false

abbrev pub is_modifier : Keysym → Bool
is_modifier (other n) = false
is_modifier _ = true

abbrev pub is_super : Keysym → Bool
is_super super_l = true
is_super super_r = true
is_super _ = false

unfoldable pub contains : ℕ → List ℕ → Bool
contains k [] = false
contains k (x ∷ xs) = let rest = contains k xs in (x == k) || rest

unfoldable pub erase : ℕ → List ℕ → List ℕ
erase k [] = []
erase k (x ∷ xs) = let rest = erase k xs in if x == k then rest else x ∷ rest

-- An entry of `consumed` is found by the key code of its event.
unfoldable pub has_key : ℕ → List VeshellKeyEvent → Bool
has_key k [] = false
has_key k (e ∷ es) = let rest = has_key k es in (e.key_code == k) || rest

unfoldable pub remove_key : ℕ → List VeshellKeyEvent → List VeshellKeyEvent
remove_key k [] = []
remove_key k (e ∷ es) = let rest = remove_key k es in if e.key_code == k then rest else e ∷ rest

abbrev pub insert_key : VeshellKeyEvent → List VeshellKeyEvent → List VeshellKeyEvent
insert_key e es = e ∷ remove_key e.key_code es

abbrev pub track_forwarded : VeshellKeyEvent → List ℕ → List ℕ
track_forwarded e keys =
    if is_pressed e.state then e.key_code ∷ erase e.key_code keys else erase e.key_code keys

abbrev pub track_all : List VeshellKeyEvent → List ℕ → List ℕ
track_all [] keys = keys
track_all (e ∷ es) keys = track_all es (track_forwarded e keys)

abbrev pub consume : List VeshellKeyEvent → List VeshellKeyEvent → List VeshellKeyEvent
consume [] consumed = consumed
consume (e ∷ es) consumed =
    consume es
      (if is_pressed e.state then insert_key e consumed else remove_key e.key_code consumed)

unfoldable pub consume_pending : SuperKeyForwarding → SuperKeyForwarding
unfolding remove_key
consume_pending s = record s { pending = []; consumed = consume s.pending s.consumed }

abbrev pub withholds : ℕ → List VeshellKeyEvent → Bool
withholds k [] = false
withholds k (e ∷ es) = (is_pressed e.state && e.key_code == k) || withholds k es

-- `sort_by_key` of the times.
abbrev pub insert_by_time : VeshellKeyEvent → List VeshellKeyEvent → List VeshellKeyEvent
insert_by_time e [] = e ∷ []
insert_by_time e (x ∷ xs) =
    let rest = insert_by_time e xs in if leb e.time x.time then e ∷ x ∷ xs else x ∷ rest

abbrev pub sort_by_time : List VeshellKeyEvent → List VeshellKeyEvent
sort_by_time [] = []
sort_by_time (e ∷ es) = insert_by_time e (sort_by_time es)

abbrev pub held_modifiers : List ℕ → List VeshellKeyEvent → List VeshellKeyEvent
held_modifiers held [] = []
held_modifiers held (e ∷ es) =
    let rest = held_modifiers held es in
    if is_modifier e.keysym && contains e.key_code held then e ∷ rest else rest

abbrev pub remove_keys : List VeshellKeyEvent → List VeshellKeyEvent → List VeshellKeyEvent
remove_keys [] consumed = consumed
remove_keys (e ∷ es) consumed = remove_keys es (remove_key e.key_code consumed)

abbrev pub is_empty : List VeshellKeyEvent → Bool
is_empty [] = true
is_empty (e ∷ es) = false

abbrev pub Resolution : Type 0
Resolution = SuperKeyForwarding × List VeshellKeyEvent

-- The event goes to the client.
abbrev pub pass : SuperKeyForwarding → VeshellKeyEvent → Resolution
pass s e = (record s { forwarded = track_forwarded e s.forwarded }, e ∷ [])

-- A release behind a withheld press of the same key.
abbrev pub settle : SuperKeyForwarding → VeshellKeyEvent → Bool → Resolution
settle s e handled = if handled then (record s { pending = [] }, []) else (
  record s { pending = []; forwarded = track_forwarded e (track_all s.pending s.forwarded) },
  s.pending ++ (e ∷ []),
)

-- Another release.
abbrev pub release : SuperKeyForwarding → VeshellKeyEvent → Resolution
release s e =
    let t = record s { consumed = remove_key e.key_code s.consumed } in
    if contains e.key_code s.forwarded
    then (record t { forwarded = erase e.key_code s.forwarded }, e ∷ [])
    else if has_key e.key_code s.consumed
    then if not (is_modifier e.keysym) then (t, []) else pass t e
    else pass s e

-- An event that is no shortcut, behind nothing that is withheld.
abbrev pub pass_on : SuperKeyForwarding → VeshellKeyEvent → List ℕ → Resolution
pass_on s e held =
    let modifiers =
      if is_pressed e.state && not (is_modifier e.keysym)
      then sort_by_time (held_modifiers held s.consumed)
      else [] in
    if is_empty modifiers then pass s e else (
      record s {
        consumed = remove_keys modifiers s.consumed;
        forwarded = track_forwarded e (track_all modifiers s.forwarded);
      },
      modifiers ++ (e ∷ []),
    )

-- An event behind a withheld one.
abbrev pub follow : SuperKeyForwarding → VeshellKeyEvent → Resolution
follow s e =
    let events = s.pending ++ (e ∷ []) in
    if is_modifier e.keysym
    then (record s { pending = events }, [])
    else (record s { pending = []; forwarded = track_all events s.forwarded }, events)

unfoldable pub resolve : SuperKeyForwarding → VeshellKeyEvent → Bool → List ℕ → Resolution
unfolding consume_pending contains erase has_key remove_key
resolve s e handled held =
    let consumed = consume_pending s in
    let taken =
      if is_pressed e.state
      then record consumed { consumed = insert_key e consumed.consumed }
      else consumed in
    let passed =
      if is_super e.keysym && is_pressed e.state
      then (record s { pending = e ∷ [] }, [])
      else pass_on s e held in
    if not (is_pressed e.state)
    then if withholds e.key_code s.pending then settle s e handled else release consumed e
    else if handled
    then (taken, [])
    else if is_empty s.pending
    then passed
    else follow s e

unfoldable pub clear : SuperKeyForwarding → SuperKeyForwarding
clear s = default
