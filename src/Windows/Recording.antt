-- ===== src/Windows/Recording.antt =====
-- The marks of the windows that are recorded (portal/service.rs, with the windows of
-- meta_window_state).
use Prim.Native.String.{String}
use veshell.Base.{Bool, true, false, ◌||◌, List, [], ◌∷◌, ◌++◌, Option, none, some, if◌then◌else◌}
use veshell.Portal.Types.{text_eq}
use veshell.Portal.Ledger.{get}
use veshell.Portal.Streams.{ActiveStream}
use veshell.Windows.MetaWindowState.{MetaWindow, MetaWindowState, recording_meta_window_for}

-- The windows, each session's target, and what the shell was told: newest first.
pub record RecordingState : Type 0 where
  pub windows : MetaWindowState
  pub recording_targets : List (String × Option String)
  pub told : List (String × Option String)

unfoldable pub contains : String → List String → Bool
contains id [] = false
contains id (x ∷ xs) = let rest = contains id xs in text_eq id x || rest

unfoldable pub targets_of :
    MetaWindowState → List (String × ActiveStream) → List (String × Option String)
unfolding recording_meta_window_for
targets_of s [] = []
targets_of s ((handle, stream) ∷ es) =
    (handle, recording_meta_window_for s stream.app_id stream.consumer_app_id stream.consumer_pid)
    ∷ targets_of s es

unfoldable pub wanted_of : List (String × Option String) → List String
wanted_of [] = []
wanted_of ((handle, none) ∷ es) = wanted_of es
wanted_of ((handle, some id) ∷ es) = id ∷ wanted_of es

unfoldable pub recording_now : List (String × MetaWindow) → List String
recording_now [] = []
recording_now ((id, window) ∷ es) =
    let rest = recording_now es in if window.is_recording then id ∷ rest else rest

-- UpdateIsRecording of a patch, which passes over an unknown window.
unfoldable pub update_is_recording :
    String → Bool → List (String × MetaWindow) → List (String × MetaWindow)
update_is_recording id value [] = []
update_is_recording id value ((key, window) ∷ es) =
    (key, if text_eq key id then record window { is_recording = value } else window)
    ∷ update_is_recording id value es

abbrev pub is_marked : Option MetaWindow → Bool
is_marked none = false
is_marked (some window) = window.is_recording

unfoldable pub clear_unwanted :
    List String → List String → List (String × MetaWindow) → List (String × MetaWindow)
unfolding contains update_is_recording
clear_unwanted [] wanted windows = windows
clear_unwanted (id ∷ ids) wanted windows =
    clear_unwanted ids wanted
      (if contains id wanted then windows else update_is_recording id false windows)

unfoldable pub mark_wanted : List String → List (String × MetaWindow) → List (String × MetaWindow)
unfolding get update_is_recording
mark_wanted [] windows = windows
mark_wanted (id ∷ ids) windows =
    mark_wanted ids
      (if is_marked (get id windows) then windows else update_is_recording id true windows)

abbrev same_target : Option String → Option String → Bool
same_target none none = true
same_target none (some id) = false
same_target (some id) none = false
same_target (some id) (some other) = text_eq id other

abbrev is_known : Option (Option String) → Option String → Bool
is_known none target = false
is_known (some previous) target = same_target previous target

-- The sessions whose target changed.
unfoldable pub changed_targets :
    List (String × Option String) → List (String × Option String) → List (String × Option String)
unfolding get
changed_targets previous [] = []
changed_targets previous ((handle, target) ∷ es) =
    let rest = changed_targets previous es in
    if is_known (get handle previous) target then rest else rest ++ ((handle, target) ∷ [])

abbrev pub marked :
    List (String × Option String) → List (String × MetaWindow) → List (String × MetaWindow)
marked targets windows =
    mark_wanted (wanted_of targets)
      (clear_unwanted (recording_now windows) (wanted_of targets) windows)

abbrev pub remember : List (String × Option String) → RecordingState → RecordingState
remember targets s = record s {
  windows = record (s.windows) { meta_windows = marked targets (s.windows).meta_windows };
  recording_targets = targets;
  told = changed_targets s.recording_targets targets ++ s.told;
}

unfoldable pub sync_recording_meta_windows :
    RecordingState → List (String × ActiveStream) → RecordingState
unfolding targets_of wanted_of recording_now clear_unwanted mark_wanted changed_targets
sync_recording_meta_windows s streams = remember (targets_of s.windows streams) s
