-- ===== src/Windows/Examples.antt =====
-- Tests of the windows and their theorems at concrete inputs.
use Prim.Native.String.{String}
use veshell.Base.{◌≡◌, refl, true, false, ◌&&◌, List, [], ◌∷◌, none, some, ◌==◌}
use veshell.Portal.Types.{is_some}
use veshell.Portal.Ledger.{get, monitor_source}
use veshell.Portal.Streams.{ActiveStream}
use veshell.Windows.AppIds.{app_ids_match}
use veshell.Windows.MetaWindowState.{
  MetaWindow, MetaWindowState, record_meta_window_focus, forget_meta_window,
  most_recent_meta_window_where, requester_meta_window_for, recording_meta_window_for,
  game_mode_window_ids_for_output,
}
use veshell.Windows.Recording.{
  RecordingState, contains, targets_of, wanted_of, is_marked, sync_recording_meta_windows,
}
use veshell.Windows.Marks.{sync_recording-mark}
use veshell.Windows.Layers.{
  Keyed, Resolution, has_pid, has_hint, recording_meta_window_for-Resolution,
}
use veshell.Windows.Resolved.{focus-most_recent}

-- A browser and an editor; the browser has the mark of a stream that is gone.
abbrev browser : MetaWindow
browser = record {
  id = "w1";
  app_id = some "brave-browser.desktop";
  binary_name = some "brave";
  pid = 10;
  surface_id = 1;
  current_output = some "DP-1";
  game_mode_activated = false;
  is_recording = true;
}

abbrev editor : MetaWindow
editor = record {
  id = "w2";
  app_id = some "Editor";
  binary_name = none;
  pid = 20;
  surface_id = 2;
  current_output = some "DP-1";
  game_mode_activated = true;
  is_recording = false;
}

abbrev two_windows : MetaWindowState
two_windows = record {
  meta_windows = ("w1", browser) ∷ ("w2", editor) ∷ [];
  focus_order = "w2" ∷ "w1" ∷ [];
}

abbrev editor_cast : ActiveStream
editor_cast = record {
  node_id = 5;
  source_id = "DP-1";
  source_kind = monitor_source;
  cursor_mode = 2;
  position = (0, 0);
  size = (1, 1);
  label = "DP-1";
  app_id = "editor.desktop";
  consumer_pid = some 30;
  consumer_app_id = none;
  active = true;
  restore_token = none;
}

abbrev stale : RecordingState
stale = record { windows = two_windows; recording_targets = []; told = [] }

abbrev casts : List (String × ActiveStream)
casts = ("session", editor_cast) ∷ []

spelled_differently : app_ids_match "editor.DESKTOP" "Editor" ≡ false
unfolding app_ids_match
spelled_differently = refl

by_name : requester_meta_window_for two_windows "BRAVE" ≡ some "w1"
unfolding requester_meta_window_for
by_name = refl

no_one : requester_meta_window_for two_windows "" ≡ none
unfolding requester_meta_window_for
no_one = refl

in_game : game_mode_window_ids_for_output two_windows.meta_windows "DP-1" ≡ "w2" ∷ []
unfolding game_mode_window_ids_for_output
in_game = refl

forgotten : (forget_meta_window two_windows "w2").focus_order ≡ "w1" ∷ []
unfolding forget_meta_window
forgotten = refl

shell_told : (sync_recording_meta_windows stale casts).told ≡ ("session", some "w2") ∷ []
unfolding sync_recording_meta_windows
shell_told = refl

sync_recording-mark_example :
    is_marked (get "w2" (sync_recording_meta_windows stale casts).windows.meta_windows) ≡ (
      contains "w2" (wanted_of (targets_of two_windows casts))
      && is_some (get "w2" two_windows.meta_windows))
sync_recording-mark_example = sync_recording-mark stale casts "w2"

just_focused :
    most_recent_meta_window_where (record_meta_window_focus two_windows "w2") (λ w. w.pid == 20)
    ≡ some "w2"
unfolding get
just_focused = focus-most_recent two_windows (λ w. w.pid == 20) "w2" refl

resolved_by_name :
    recording_meta_window_for two_windows "editor.desktop" (some "brave") (some 30) ≡ some "w2"
unfolding recording_meta_window_for
resolved_by_name = refl

recording_meta_window_for-Resolution_example :
    Resolution two_windows.meta_windows
      (has_pid (some 30) ∷ has_hint "editor.desktop" ∷ has_hint "brave" ∷ [])
      (recording_meta_window_for two_windows "editor.desktop" (some "brave") (some 30))
unfolding Keyed get
recording_meta_window_for-Resolution_example =
    recording_meta_window_for-Resolution two_windows "editor.desktop" (some "brave") (some 30)
      (refl, refl, (refl, refl, tt))
