-- ===== src/Windows/Layers.antt =====
-- Which window an identity stands for (meta_window_state/mod.rs): the layers of
-- recording_meta_window_for as a relation.
use Prim.Native.String.{String}
use text.Mathlib.TextEquality.{eq_iff}
use veshell.Base.{
  ℕ, ◌≡◌, ◌∙◌, refl, sym, ap, Bool, true, false, ◌&&◌, not, List, [], ◌∷◌, Option, none, some, ◌==◌,
  if◌then◌else◌,
}
use veshell.Portal.Types.{text_eq}
use veshell.Portal.Ledger.{get}
use veshell.Windows.MetaWindowState.{
  MetaWindow, MetaWindowState, qualifies, or_else, find_recent, find_any,
  most_recent_meta_window_where, meta_window_matches_app_hint, by_hint, by_pid, or_empty,
  recording_meta_window_for,
}

-- Every window is under its own id, and no id has two windows.
unfoldable pub Keyed : List (String × MetaWindow) → Type 0
Keyed [] = Unit
Keyed ((key, window) ∷ es) = (key ≡ window.id) × (get key es ≡ none) × Keyed es

-- The result of asking the tests one after another: the first test that any window passes
-- decides, and the result passes it; none if no window passes any.
pub data Resolution (windows : List (String × MetaWindow))
    : List (MetaWindow → Bool) → Option String → Type 0 where
  unresolved : Resolution windows [] none
  here :
      {test : MetaWindow → Bool} {tests : List (MetaWindow → Bool)} (id : String)
      → qualifies test (get id windows) ≡ true
      → Resolution windows (test ∷ tests) (some id)
  later :
      {test : MetaWindow → Bool} {tests : List (MetaWindow → Bool)} {result : Option String}
      → ((id : String) → qualifies test (get id windows) ≡ false)
      → Resolution windows tests result
      → Resolution windows (test ∷ tests) result

abbrev Found : (MetaWindow → Bool) → List (String × MetaWindow) → Option String → Type 0
Found p windows none = (id : String) → qualifies p (get id windows) ≡ false
Found p windows (some id) = qualifies p (get id windows) ≡ true

abbrev Sound : (MetaWindow → Bool) → List (String × MetaWindow) → Option String → Type 0
Sound p windows none = Unit
Sound p windows (some id) = qualifies p (get id windows) ≡ true

or_else-Found :
    (p : MetaWindow → Bool) (windows : List (String × MetaWindow)) (r r' : Option String)
    → Sound p windows r
    → Found p windows r'
    → Found p windows (or_else r r')
or_else-Found p windows none r' h k = k
or_else-Found p windows (some id) r' h k = h

or_else-Sound :
    (p : MetaWindow → Bool) (windows : List (String × MetaWindow)) (r r' : Option String)
    → Sound p windows r
    → Sound p windows r'
    → Sound p windows (or_else r r')
or_else-Sound p windows none r' h k = k
or_else-Sound p windows (some id) r' h k = h

asked-Sound :
    (p : MetaWindow → Bool) (windows : List (String × MetaWindow)) (id : String) (b : Bool)
    → qualifies p (get id windows) ≡ b
    → Sound p windows (if b then some id else none)
asked-Sound p windows id true h = h
asked-Sound p windows id false h = tt

find_recent-Sound :
    (p : MetaWindow → Bool) (windows : List (String × MetaWindow)) (ids : List String)
    → Sound p windows (find_recent p windows ids)
unfolding find_recent
find_recent-Sound p windows [] = tt
find_recent-Sound p windows (id ∷ ids) =
    or_else-Sound p windows (find_recent p windows ids) _ (find_recent-Sound p windows ids)
      (asked-Sound p windows id (qualifies p (get id windows)) refl)

-- A window in front of the others, under a key that they do not use.
qualifies_behind :
    (p : MetaWindow → Bool) (id : String) (key : String) (b : Bool) (window : MetaWindow)
    (es : List (String × MetaWindow))
    → (b ≡ true → key ≡ id)
    → get key es ≡ none
    → qualifies p (get id es) ≡ true
    → qualifies p (if b then some window else get id es) ≡ true
qualifies_behind p id key true window es same free h =
    absurd (no_window (get id es) (sym (ap (λ k. get k es) (same refl)) ∙ free) h)
  where
    no_window : (found : Option MetaWindow) → found ≡ none → qualifies p found ≡ true → ⊥
    no_window none e h = cc
    no_window (some w) e h = cc
qualifies_behind p id key false window es same free h = h

rejects_both :
    (p : MetaWindow → Bool) (b : Bool) (window : MetaWindow) (found : Option MetaWindow)
    → p window ≡ false
    → qualifies p found ≡ false
    → qualifies p (if b then some window else found) ≡ false
rejects_both p true window found h k = h
rejects_both p false window found h k = k

front-Found :
    (p : MetaWindow → Bool) (key : String) (window : MetaWindow) (es : List (String × MetaWindow))
    (b : Bool) (rest : Option String)
    → p window ≡ b
    → key ≡ window.id
    → get key es ≡ none
    → Found p es rest
    → Found p ((key, window) ∷ es) (if b then some window.id else rest)
unfolding get
front-Found p key window es true rest e own free h =
    ap (λ t. qualifies p (if t then some window else get window.id es))
      ((eq_iff key window.id).1 own)
    ∙ e
front-Found p key window es false none e own free h =
    λ id. rejects_both p (text_eq key id) window (get id es) e (h id)
front-Found p key window es false (some id) e own free h =
    qualifies_behind p id key (text_eq key id) window es ((eq_iff key id).0) free h

find_any-Found :
    (p : MetaWindow → Bool) (windows : List (String × MetaWindow))
    → Keyed windows
    → Found p windows (find_any p windows)
unfolding find_any Keyed get
find_any-Found p [] h = λ id. refl
find_any-Found p ((key, window) ∷ es) h =
    front-Found p key window es (p window) (find_any p es) refl h.0 h.1 (find_any-Found p es h.2)

most_recent-Found :
    (s : MetaWindowState) (p : MetaWindow → Bool)
    → Keyed s.meta_windows
    → Found p s.meta_windows (most_recent_meta_window_where s p)
unfolding most_recent_meta_window_where
most_recent-Found s p h =
    or_else-Found p s.meta_windows (find_recent p s.meta_windows s.focus_order) _
      (find_recent-Sound p s.meta_windows s.focus_order) (find_any-Found p s.meta_windows h)

rejects : (found : Option MetaWindow) → qualifies (λ w. false) found ≡ false
rejects none = refl
rejects (some window) = refl

-- The tests of the three layers.
abbrev pub has_pid : Option ℕ → MetaWindow → Bool
has_pid none window = false
has_pid (some pid) window = window.pid == pid

abbrev pub has_hint : String → MetaWindow → Bool
has_hint hint window = not (text_eq hint "") && meta_window_matches_app_hint window hint

by_pid-Found :
    (s : MetaWindowState) (pid : Option ℕ)
    → Keyed s.meta_windows
    → Found (has_pid pid) s.meta_windows (by_pid s pid)
by_pid-Found s none h = λ id. rejects (get id s.meta_windows)
by_pid-Found s (some pid) h = most_recent-Found s _ h

guarded-Found :
    (b : Bool) (p : MetaWindow → Bool) (windows : List (String × MetaWindow)) (r : Option String)
    → Found p windows r
    → Found (λ w. not b && p w) windows (if b then none else r)
guarded-Found true p windows r h = λ id. rejects (get id windows)
guarded-Found false p windows r h = h

by_hint-Found :
    (s : MetaWindowState) (hint : String)
    → Keyed s.meta_windows
    → Found (has_hint hint) s.meta_windows (by_hint s hint)
by_hint-Found s hint h =
    guarded-Found (text_eq hint "") _ s.meta_windows _ (most_recent-Found s _ h)

layer :
    (windows : List (String × MetaWindow)) (test : MetaWindow → Bool)
    (tests : List (MetaWindow → Bool)) (r r' : Option String)
    → Found test windows r
    → Resolution windows tests r'
    → Resolution windows (test ∷ tests) (or_else r r')
layer windows test tests none r' h k = later h k
layer windows test tests (some id) r' h k = here id h

last_layer :
    (windows : List (String × MetaWindow)) (test : MetaWindow → Bool) (r : Option String)
    → Found test windows r
    → Resolution windows (test ∷ []) r
last_layer windows test none h = later h unresolved
last_layer windows test (some id) h = here id h

-- Where every window is under its own id, the window of a recording is decided by the first of
-- three tests that any window passes: the consumer's process, the portal's app id unless it is
-- empty, the consumer's own name unless it is missing or empty. The result passes that test,
-- and there is none only if no window passes any of them, whatever the focus order is.
pub recording_meta_window_for-Resolution :
    (s : MetaWindowState) (app_id : String) (consumer : Option String) (pid : Option ℕ)
    → Keyed s.meta_windows
    → Resolution s.meta_windows
        (has_pid pid ∷ has_hint app_id ∷ has_hint (or_empty consumer) ∷ [])
        (recording_meta_window_for s app_id consumer pid)
unfolding recording_meta_window_for
recording_meta_window_for-Resolution s app_id consumer pid h =
    layer s.meta_windows (has_pid pid) _ (by_pid s pid) _ (by_pid-Found s pid h) (
      layer s.meta_windows (has_hint app_id) _ (by_hint s app_id) _ (by_hint-Found s app_id h) (
        last_layer s.meta_windows (has_hint (or_empty consumer)) _
          (by_hint-Found s (or_empty consumer) h)))
