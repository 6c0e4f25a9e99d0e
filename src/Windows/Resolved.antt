-- ===== src/Windows/Resolved.antt =====
-- Which window the focus order yields (meta_window_state/mod.rs).
use Prim.Native.String.{String}
use veshell.Base.{◌≡◌, ap, Bool, true, List, [], ◌∷◌, ◌++◌, none, some, if◌then◌else◌}
use veshell.Portal.Ledger.{get}
use veshell.Windows.MetaWindowState.{
  MetaWindow, MetaWindowState, retain_not, record_meta_window_focus, qualifies, or_else,
  find_recent, find_any, most_recent_meta_window_where,
}

find_recent-last :
    (p : MetaWindow → Bool) (windows : List (String × MetaWindow)) (id : String) (ids : List String)
    → qualifies p (get id windows) ≡ true
    → find_recent p windows (ids ++ (id ∷ [])) ≡ some id
unfolding find_recent
find_recent-last p windows id [] h = ap (λ b. if b then some id else none) h
find_recent-last p windows id (x ∷ xs) h =
    ap (λ r. or_else r (if qualifies p (get x windows) then some x else none))
      (find_recent-last p windows id xs h)

-- A window that was just focused is the answer to every lookup whose predicate it satisfies.
pub focus-most_recent :
    (s : MetaWindowState) (p : MetaWindow → Bool) (id : String)
    → qualifies p (get id s.meta_windows) ≡ true
    → most_recent_meta_window_where (record_meta_window_focus s id) p ≡ some id
unfolding record_meta_window_focus most_recent_meta_window_where
focus-most_recent s p id h =
    ap (λ r. or_else r (find_any p s.meta_windows))
      (find_recent-last p s.meta_windows id (retain_not id s.focus_order) h)
