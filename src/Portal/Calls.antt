-- ===== src/Portal/Calls.antt =====
-- The method calls of `apply_portal_call` in portal/service.rs, one after another.
use Prim.Native.String.{String}
use veshell.Base.{ℕ, true, Option, none, some, not, if◌then◌else◌}
use veshell.Portal.Types.{
  FileChooserKind, FileChooserOptions, MethodCall, PortalCall, create_session, select_sources,
  start, request_close, screenshot, pick_color, file_chooser, method, frontend_owner_changed,
  is_some, contains, caller_is_frontend, ok, failed, unauthorized,
}
use veshell.Portal.Ledger.{
  PortalSession, PendingRequest, CaptureKind, screen, color, ScreenshotEntry, FileChooserEntry,
  export_request, unexport_request, open_screenshot_prompt, open_file_chooser, PortalLedger, get,
  send, act, show, drop_session, put_request, put_screenshot, drop_screenshot, put_file_chooser,
  drop_file_chooser, mint, close_session_actions, cancel_pending_start,
}
use veshell.Portal.Closing.{
  cancel_consent, close_requests_for_session, cancel_prompt, cancel_capture, cancel_chooser,
  on_frontend_owner_changed,
}
use veshell.Portal.Sessions.{valid_request_path, on_create_session, on_select_sources, on_start}

unfoldable pub open_screenshot_request :
    PortalLedger → ℕ → String → String → CaptureKind → PortalLedger
unfolding get
open_screenshot_request s reply handle app_id kind =
    if not (valid_request_path handle)
    then send reply (failed "invalid request handle") s
    else if is_some (get handle s.screenshots)
    then send reply (failed "request already exists") s
    else let token = (mint s).next_consent_token in
      show (open_screenshot_prompt handle app_id kind token) (
        act (export_request handle) (
          put_screenshot handle
            (record {
              consent =
                  some (record {
                    consent_token = token;
                    app_name = app_id;
                    kind = kind;
                    reply = reply;
                  });
              capture = none;
            })
            (mint s)))

unfoldable pub open_file_chooser_request :
    PortalLedger
    → ℕ
    → FileChooserKind
    → String
    → String
    → String
    → String
    → FileChooserOptions
    → PortalLedger
unfolding get
open_file_chooser_request s reply kind handle app_id parent_window title options =
    if not (valid_request_path handle)
    then send reply (failed "invalid request handle") s
    else if is_some (get handle s.file_choosers)
    then send reply (failed "request already exists") s
    else let token = (mint s).next_consent_token in
      show (open_file_chooser handle app_id parent_window title kind options token) (
        act (export_request handle) (
          put_file_chooser handle
            (record { consent_token = token; app_name = app_id; kind = kind; reply = reply })
            (mint s)))

abbrev pub close_found_session : Option PortalSession → String → PortalLedger → PortalLedger
close_found_session none handle s = s
close_found_session (some session) handle s = close_requests_for_session handle (
    close_session_actions handle
      (cancel_pending_start session.pending_start (drop_session handle s)))

abbrev pub close_chooser : Option FileChooserEntry → PortalLedger → ℕ → String → PortalLedger
close_chooser none s reply handle = send reply (failed "no such pending request") s
close_chooser (some entry) s reply handle =
    send reply ok
      (act (unexport_request handle) (cancel_chooser entry (drop_file_chooser handle s)))

abbrev pub close_screenshot : Option ScreenshotEntry → PortalLedger → ℕ → String → PortalLedger
close_screenshot none s reply handle = close_chooser (get handle s.file_choosers) s reply handle
close_screenshot (some entry) s reply handle = send reply ok (
    act (unexport_request handle)
      (cancel_capture entry.capture (cancel_prompt entry.consent (drop_screenshot handle s))))

abbrev pub close_request : Option PendingRequest → PortalLedger → ℕ → String → PortalLedger
close_request none s reply handle = close_screenshot (get handle s.screenshots) s reply handle
close_request (some request) s reply handle = send reply ok (
    cancel_consent request
      (put_request handle (record request { cancelled = true; consent = none }) s))

unfoldable pub on_request_close : PortalLedger → ℕ → String → PortalLedger
unfolding get close_session_actions close_requests_for_session cancel_consent
on_request_close s reply handle =
    if contains handle "/session/"
    then send reply ok (close_found_session (get handle s.sessions) handle s)
    else close_request (get handle s.requests) s reply handle

unfoldable pub handle_method : PortalLedger → ℕ → MethodCall → PortalLedger
unfolding on_create_session on_select_sources on_start open_screenshot_request
    open_file_chooser_request on_request_close
handle_method s reply (create_session handle session app_id) = on_create_session s reply session
handle_method s reply (select_sources handle session app_id constraints) =
    on_select_sources s reply handle session constraints
handle_method s reply (start handle session app_id parent_window constraints options) =
    on_start s reply handle session app_id constraints options
handle_method s reply (request_close handle) = on_request_close s reply handle
handle_method s reply (screenshot handle app_id parent_window options) =
    open_screenshot_request s reply handle app_id screen
handle_method s reply (pick_color handle app_id parent_window options) =
    open_screenshot_request s reply handle app_id color
handle_method s reply (file_chooser kind handle app_id parent_window title options) =
    open_file_chooser_request s reply kind handle app_id parent_window title options

unfoldable pub apply_portal_call : PortalLedger → PortalCall → PortalLedger
unfolding on_frontend_owner_changed caller_is_frontend handle_method
apply_portal_call s (frontend_owner_changed owner) = on_frontend_owner_changed s owner
apply_portal_call s (method from call) =
    if not (caller_is_frontend from.caller s.frontend)
    then send from.reply unauthorized s
    else handle_method s from.reply call
