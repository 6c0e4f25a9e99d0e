-- ===== src/Windows/Marks.antt =====
-- Which windows are marked as recorded (portal/service.rs).
use Prim.Native.String.{String}
use text.Mathlib.TextEquality.{eq_iff}
use veshell.Base.{
  ◌≡◌, ◌∙◌, refl, sym, ap, arith, Bool, true, false, ◌&&◌, ◌||◌, not, List, [], ◌∷◌, Option, none,
  some, if◌then◌else◌,
}
use veshell.Portal.Types.{text_eq, is_some}
use veshell.Portal.Ledger.{get}
use veshell.Portal.Streams.{ActiveStream}
use veshell.Windows.MetaWindowState.{MetaWindow}
use veshell.Windows.Recording.{
  RecordingState, contains, targets_of, wanted_of, recording_now, update_is_recording, is_marked,
  clear_unwanted, mark_wanted, sync_recording_meta_windows,
}

text_eq-eq : (s t : String) → text_eq s t ≡ true → s ≡ t
text_eq-eq s t h = (eq_iff s t).0 h

-- The window of an id after an update.
abbrev updated : Bool → Bool → Option MetaWindow → Option MetaWindow
updated chosen value none = none
updated chosen value (some window) =
    some (if chosen then record window { is_recording = value } else window)

updated-if :
    (b chosen value : Bool) (window : MetaWindow) (rest : Option MetaWindow)
    → updated chosen value (if b then some window else rest)
      ≡ (if b then updated chosen value (some window) else updated chosen value rest)
updated-if true chosen value window rest = refl
updated-if false chosen value window rest = refl

if_same :
    {A : Type 0} (b : Bool) (x y z w : A)
    → (b ≡ true → x ≡ y)
    → z ≡ w
    → (if b then x else z) ≡ (if b then y else w)
if_same true x y z w h k = h refl
if_same false x y z w h k = k

get-update :
    (k id : String) (value : Bool) (windows : List (String × MetaWindow))
    → get k (update_is_recording id value windows) ≡ updated (text_eq k id) value (get k windows)
unfolding get update_is_recording
get-update k id value [] = refl
get-update k id value ((key, window) ∷ es) =
    if_same (text_eq key k) _ _ _ _
      (λ e. ap (λ x. updated (text_eq x id) value (some window)) (text_eq-eq key k e))
      (get-update k id value es)
    ∙ sym (updated-if (text_eq key k) (text_eq k id) value window (get k es))

abbrev mark : String → List (String × MetaWindow) → Bool
mark k windows = is_marked (get k windows)

abbrev present : String → List (String × MetaWindow) → Bool
present k windows = is_some (get k windows)

marked_updated :
    (chosen value : Bool) (found : Option MetaWindow)
    → is_marked (updated chosen value found)
      ≡ (if chosen then is_some found && value else is_marked found)
marked_updated true value none = refl
marked_updated false value none = refl
marked_updated true value (some window) = refl
marked_updated false value (some window) = refl

mark-update :
    (k id : String) (value : Bool) (windows : List (String × MetaWindow))
    → mark k (update_is_recording id value windows)
      ≡ (if text_eq k id then present k windows && value else mark k windows)
mark-update k id value windows =
    ap is_marked (get-update k id value windows)
    ∙ marked_updated (text_eq k id) value (get k windows)

present_updated :
    (chosen value : Bool) (found : Option MetaWindow)
    → is_some (updated chosen value found) ≡ is_some found
present_updated chosen value none = refl
present_updated chosen value (some window) = refl

present-update :
    (k id : String) (value : Bool) (windows : List (String × MetaWindow))
    → present k (update_is_recording id value windows) ≡ present k windows
present-update k id value windows =
    ap is_some (get-update k id value windows)
    ∙ present_updated (text_eq k id) value (get k windows)

mark-if :
    (k : String) (b : Bool) (windows others : List (String × MetaWindow))
    → mark k (if b then windows else others) ≡ (if b then mark k windows else mark k others)
mark-if k true windows others = refl
mark-if k false windows others = refl

and_or_true : (m c : Bool) → m ≡ (m && (c || true))
and_or_true true true = refl
and_or_true true false = refl
and_or_true false c = refl

clear_step :
    (m p t ci cw r : Bool)
    → (t ≡ true → cw ≡ ci)
    → ((if ci then m else if t then p && false else m) && (cw || not r))
      ≡ (m && (cw || not (t || r)))
clear_step m p t ci cw r h = ground arith

mark_step :
    (m p t mi r : Bool)
    → (t ≡ true → mi ≡ m)
    → (m ≡ true → p ≡ true)
    → ((if mi then m else if t then p && true else m) || (r && p)) ≡ (m || ((t || r) && p))
mark_step m p t mi r h k = ground arith

clear_unwanted-mark :
    (k : String) (ids wanted : List String) (windows : List (String × MetaWindow))
    → mark k (clear_unwanted ids wanted windows)
      ≡ (mark k windows && (contains k wanted || not (contains k ids)))
unfolding clear_unwanted contains
clear_unwanted-mark k [] wanted windows = and_or_true (mark k windows) (contains k wanted)
clear_unwanted-mark k (id ∷ ids) wanted windows =
    let others = update_is_recording id false windows in
    clear_unwanted-mark k ids wanted (if contains id wanted then windows else others)
    ∙ ap (λ m. m && (contains k wanted || not (contains k ids)))
        (mark-if k (contains id wanted) windows others
          ∙ ap (λ m. if contains id wanted then mark k windows else m)
              (mark-update k id false windows))
    ∙ clear_step (mark k windows) (present k windows) (text_eq k id) (contains id wanted)
        (contains k wanted) (contains k ids) (λ e. ap (λ x. contains x wanted) (text_eq-eq k id e))

present-if :
    (k : String) (b : Bool) (windows others : List (String × MetaWindow))
    → present k others ≡ present k windows
    → present k (if b then windows else others) ≡ present k windows
present-if k true windows others h = refl
present-if k false windows others h = h

marked_present : (found : Option MetaWindow) → is_marked found ≡ true → is_some found ≡ true
marked_present none h = cc
marked_present (some window) h = refl

or_false : (m : Bool) → m ≡ (m || false)
or_false true = refl
or_false false = refl

mark_wanted-mark :
    (k : String) (ids : List String) (windows : List (String × MetaWindow))
    → mark k (mark_wanted ids windows) ≡ (mark k windows || (contains k ids && present k windows))
unfolding mark_wanted contains
mark_wanted-mark k [] windows = or_false (mark k windows)
mark_wanted-mark k (id ∷ ids) windows =
    let others = update_is_recording id true windows in
    let next = if mark id windows then windows else others in
    mark_wanted-mark k ids next
    ∙ ap (λ p. mark k next || (contains k ids && p))
        (present-if k (mark id windows) windows others (present-update k id true windows))
    ∙ ap (λ m. m || (contains k ids && present k windows))
        (mark-if k (mark id windows) windows others
          ∙ ap (λ m. if mark id windows then mark k windows else m) (mark-update k id true windows))
    ∙ mark_step (mark k windows) (present k windows) (text_eq k id) (mark id windows)
        (contains k ids) (λ e. sym (ap (λ x. mark x windows) (text_eq-eq k id e)))
        (marked_present (get k windows))

clear_unwanted-present :
    (k : String) (ids wanted : List String) (windows : List (String × MetaWindow))
    → present k (clear_unwanted ids wanted windows) ≡ present k windows
unfolding clear_unwanted
clear_unwanted-present k [] wanted windows = refl
clear_unwanted-present k (id ∷ ids) wanted windows =
    let others = update_is_recording id false windows in
    clear_unwanted-present k ids wanted (if contains id wanted then windows else others)
    ∙ present-if k (contains id wanted) windows others (present-update k id false windows)

text_eq-sym : (s t : String) → text_eq s t ≡ true → text_eq t s ≡ true
text_eq-sym s t h = (eq_iff t s).1 (sym (text_eq-eq s t h))

or_left : (a b : Bool) → a ≡ true → (a || b) ≡ true
or_left a b h = ground arith

or_right : (a b : Bool) → b ≡ true → (a || b) ≡ true
or_right a b h = ground arith

-- A marked window is in the list of the marked ones.
recording_now-contains :
    (k : String) (windows : List (String × MetaWindow))
    → mark k windows ≡ true
    → contains k (recording_now windows) ≡ true
unfolding recording_now contains get
recording_now-contains k [] h = cc
recording_now-contains k ((key, window) ∷ es) h =
    split (text_eq key k) window.is_recording (text_eq-sym key k) (recording_now-contains k es) h
  where
    split :
        (here flag : Bool)
        → (here ≡ true → text_eq k key ≡ true)
        → (mark k es ≡ true → contains k (recording_now es) ≡ true)
        → is_marked (if here then some (record window { is_recording = flag }) else get k es) ≡ true
        → contains k (if flag then key ∷ recording_now es else recording_now es) ≡ true
    split true true same ih h = or_left (text_eq k key) (contains k (recording_now es)) (same refl)
    split true false same ih h = cc
    split false true same ih h = or_right (text_eq k key) (contains k (recording_now es)) (ih h)
    split false false same ih h = ih h

marks :
    (m p c r : Bool)
    → (m ≡ true → r ≡ true)
    → (m ≡ true → p ≡ true)
    → ((m && (c || not r)) || (c && p)) ≡ (c && p)
marks m p c r h k = ground arith

-- After a sync of the recordings with any streams, a window that is there is marked as recorded
-- exactly if it is the target of a stream, whichever windows were marked before.
pub sync_recording-mark :
    (s : RecordingState) (streams : List (String × ActiveStream)) (k : String)
    → is_marked (get k (sync_recording_meta_windows s streams).windows.meta_windows) ≡ (
        contains k (wanted_of (targets_of s.windows streams))
        && is_some (get k s.windows.meta_windows))
unfolding sync_recording_meta_windows
sync_recording-mark s streams k =
    let windows = s.windows.meta_windows in
    let wanted = wanted_of (targets_of s.windows streams) in
    let cleared = clear_unwanted (recording_now windows) wanted windows in
    mark_wanted-mark k wanted cleared
    ∙ ap (λ m. m || (contains k wanted && present k cleared))
        (clear_unwanted-mark k (recording_now windows) wanted windows)
    ∙ ap
        (λ p.
          (mark k windows && (contains k wanted || not (contains k (recording_now windows))))
          || (contains k wanted && p))
        (clear_unwanted-present k (recording_now windows) wanted windows)
    ∙ marks (mark k windows) (present k windows) (contains k wanted)
        (contains k (recording_now windows)) (recording_now-contains k windows)
        (marked_present (get k windows))
