-- ===== src/Windows/MetaWindowState.antt =====
-- The focus order and the windows that a name or a process stands for
-- (meta_window_state/mod.rs). A process id is its bit pattern.
use Prim.Native.String.{String}
use veshell.Base.{
  ℕ, Bool, false, ◌&&◌, ◌||◌, List, [], ◌∷◌, ◌++◌, Option, none, some, ◌==◌, if◌then◌else◌,
}
use veshell.Portal.Types.{text_eq}
use veshell.Portal.Ledger.{get}
use veshell.Windows.AppIds.{eq_ignore_ascii_case, app_ids_match}

-- The fields that are read here.
pub record MetaWindow : Type 0 where
  pub id : String
  pub app_id : Option String
  pub binary_name : Option String
  pub pid : ℕ
  pub surface_id : ℕ
  pub current_output : Option String
  pub game_mode_activated : Bool
  pub is_recording : Bool

pub record MetaWindowState : Type 0 where
  pub meta_windows : List (String × MetaWindow)
  -- least recent first
  pub focus_order : List String

-- `retain` of the others.
unfoldable pub retain_not : String → List String → List String
retain_not id [] = []
retain_not id (x ∷ xs) = let rest = retain_not id xs in if text_eq x id then rest else x ∷ rest

unfoldable pub record_meta_window_focus : MetaWindowState → String → MetaWindowState
unfolding retain_not
record_meta_window_focus s id = record s { focus_order = retain_not id s.focus_order ++ (id ∷ []) }

unfoldable pub forget_meta_window : MetaWindowState → String → MetaWindowState
unfolding retain_not
forget_meta_window s id = record s { focus_order = retain_not id s.focus_order }

abbrev pub qualifies : (MetaWindow → Bool) → Option MetaWindow → Bool
qualifies predicate none = false
qualifies predicate (some window) = predicate window

abbrev pub or_else {ℓ} : {A : Type ℓ} → Option A → Option A → Option A
or_else none other = other
or_else (some a) other = some a

-- From the back: the most recent one first.
unfoldable pub find_recent :
    (MetaWindow → Bool) → List (String × MetaWindow) → List String → Option String
unfolding get
find_recent predicate windows [] = none
find_recent predicate windows (id ∷ ids) =
    let rest = find_recent predicate windows ids in
    or_else rest (if qualifies predicate (get id windows) then some id else none)

unfoldable pub find_any : (MetaWindow → Bool) → List (String × MetaWindow) → Option String
find_any predicate [] = none
find_any predicate ((key, window) ∷ es) =
    let rest = find_any predicate es in if predicate window then some window.id else rest

unfoldable pub most_recent_meta_window_where : MetaWindowState → (MetaWindow → Bool) → Option String
unfolding find_recent find_any
most_recent_meta_window_where s predicate =
    or_else (find_recent predicate s.meta_windows s.focus_order) (find_any predicate s.meta_windows)

abbrev holds_of : (String → Bool) → Option String → Bool
holds_of test none = false
holds_of test (some name) = test name

unfoldable pub meta_window_matches_app_hint : MetaWindow → String → Bool
unfolding app_ids_match eq_ignore_ascii_case
meta_window_matches_app_hint window hint =
    holds_of (λ id. app_ids_match id hint) window.app_id
    || holds_of (λ name. eq_ignore_ascii_case name hint) window.binary_name

-- An empty hint is passed over.
abbrev pub by_hint : MetaWindowState → String → Option String
by_hint s hint =
    if text_eq hint ""
    then none
    else most_recent_meta_window_where s (λ window. meta_window_matches_app_hint window hint)

abbrev pub by_pid : MetaWindowState → Option ℕ → Option String
by_pid s none = none
by_pid s (some pid) = most_recent_meta_window_where s (λ window. window.pid == pid)

abbrev pub or_empty : Option String → String
or_empty none = ""
or_empty (some s) = s

unfoldable pub recording_meta_window_for :
    MetaWindowState → String → Option String → Option ℕ → Option String
unfolding most_recent_meta_window_where meta_window_matches_app_hint
recording_meta_window_for s app_id consumer_app_id consumer_pid =
    or_else (by_pid s consumer_pid)
      (or_else (by_hint s app_id) (by_hint s (or_empty consumer_app_id)))

unfoldable pub requester_meta_window_for : MetaWindowState → String → Option String
unfolding recording_meta_window_for
requester_meta_window_for s app_id = recording_meta_window_for s app_id none none

abbrev same_output : Option String → String → Bool
same_output none name = false
same_output (some output) name = text_eq output name

unfoldable pub game_mode_window_ids_for_output : List (String × MetaWindow) → String → List String
game_mode_window_ids_for_output [] name = []
game_mode_window_ids_for_output ((key, window) ∷ es) name =
    let rest = game_mode_window_ids_for_output es name in
    if window.game_mode_activated && same_output window.current_output name
    then window.id ∷ rest
    else rest
