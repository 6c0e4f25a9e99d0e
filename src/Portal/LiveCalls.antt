-- ===== src/Portal/LiveCalls.antt =====
-- How the calls change the number of sessions that share (portal/service.rs).
use Prim.Native.String.{String}
use veshell.Base.{
  ℕ, ◌≤◌, ◌≡◌, ◌∙◌, refl, ap, arith, true, List, [], ◌∷◌, Option, none, some, not, Bool-cases, inl,
  inr,
}
use veshell.Portal.Ledger.{
  PortalSession, PendingRequest, ConsentRequest, ScreenshotEntry, ScreenshotConsent,
  ScreenshotCapture, FileChooserEntry, PortalLedger, get, drop_session, put_request, drop_request,
  drop_screenshot, close_session_actions, cancel_pending_start,
}
use veshell.Portal.Balance.{total}
use veshell.Portal.Types.{
  PortalCall, MethodCall, method, frontend_owner_changed, create_session, select_sources, start,
  request_close, screenshot, pick_color, file_chooser, caller_is_frontend, contains,
}
use veshell.Portal.Ledger.{screen, color}
use veshell.Portal.Sessions.{on_select_sources}
use veshell.Portal.Closing.{
  on_frontend_owner_changed, same_owner, close_found, close_each, handles_of,
  close_requests_for_session, cancel_open, cancel_consent, cancel_prompt, cancel_capture,
}
use veshell.Portal.Calls.{
  close_found_session, close_chooser, close_screenshot, close_request, on_request_close,
  handle_method, apply_portal_call,
}
use veshell.Portal.Frontend.{on_frontend_owner_changed-ends}
use veshell.Portal.Live.{
  live_weight, live, drop_session-live, on_create_session-live, configure-live, on_start-live,
  open_screenshot_request-live, open_file_chooser_request-live,
}

cancel_open-live :
    (picker : Option ConsentRequest) (s : PortalLedger) → live (cancel_open picker s) ≡ live s
unfolding live
cancel_open-live none s = refl
cancel_open-live (some consent) s = refl

close_found-live :
    (found : Option PendingRequest) (handle : String) (s : PortalLedger)
    → live (close_found found handle s) ≡ live s
unfolding live
close_found-live none handle s = refl
close_found-live (some request) handle s = cancel_open-live request.consent (drop_request handle s)

close_each-live : (handles : List String) (s : PortalLedger) → live (close_each handles s) ≡ live s
unfolding close_each
close_each-live [] s = refl
close_each-live (handle ∷ handles) s =
    close_each-live handles (close_found (get handle s.requests) handle s)
    ∙ close_found-live (get handle s.requests) handle s

told-live : (pending : Option ℕ) (s : PortalLedger) → live (cancel_pending_start pending s) ≡ live s
unfolding live
told-live none s = refl
told-live (some reply) s = refl

close_found_session-live :
    (found : Option PortalSession) (handle : String) (s : PortalLedger)
    → live (close_found_session found handle s) ≤ live s
unfolding close_requests_for_session close_session_actions live
close_found_session-live none handle s = omega arith
close_found_session-live (some session) handle s =
    let dropped = drop_session handle s in
    let ended = close_session_actions handle (cancel_pending_start session.pending_start dropped) in
    omega (
      arith,
      close_each-live (handles_of handle ended.requests) ended,
      told-live session.pending_start dropped,
      drop_session-live handle s,
    )

close_chooser-live :
    (found : Option FileChooserEntry) (s : PortalLedger) (reply : ℕ) (handle : String)
    → live (close_chooser found s reply handle) ≡ live s
unfolding live
close_chooser-live none s reply handle = refl
close_chooser-live (some entry) s reply handle = refl

prompt-live :
    (prompt : Option ScreenshotConsent) (capture : Option ScreenshotCapture) (s : PortalLedger)
    → live (cancel_capture capture (cancel_prompt prompt s)) ≡ live s
unfolding live
prompt-live none none s = refl
prompt-live none (some capture) s = refl
prompt-live (some consent) none s = refl
prompt-live (some consent) (some capture) s = refl

close_screenshot-live :
    (found : Option ScreenshotEntry) (s : PortalLedger) (reply : ℕ) (handle : String)
    → live (close_screenshot found s reply handle) ≡ live s
unfolding live
close_screenshot-live none s reply handle =
    close_chooser-live (get handle s.file_choosers) s reply handle
close_screenshot-live (some entry) s reply handle =
    prompt-live entry.consent entry.capture (drop_screenshot handle s)

close_request-live :
    (found : Option PendingRequest) (s : PortalLedger) (reply : ℕ) (handle : String)
    → live (close_request found s reply handle) ≡ live s
unfolding cancel_consent live
close_request-live none s reply handle =
    close_screenshot-live (get handle s.screenshots) s reply handle
close_request-live (some request) s reply handle =
    cancel_open-live request.consent
      (put_request handle (record request { cancelled = true; consent = none }) s)

on_request_close-live :
    (s : PortalLedger) (reply : ℕ) (handle : String)
    → live (on_request_close s reply handle) ≤ live s
unfolding on_request_close live
on_request_close-live s reply handle = elim (Bool-cases (contains handle "/session/")) [
  | inl e ↦ rw e (close_found_session-live (get handle s.sessions) handle s)
  | inr e ↦ rw e omega (arith, close_request-live (get handle s.requests) s reply handle)
]

on_frontend_owner_changed-live :
    (s : PortalLedger) (owner : Option String) → live (on_frontend_owner_changed s owner) ≤ live s
unfolding on_frontend_owner_changed live total
on_frontend_owner_changed-live s owner = elim (Bool-cases (same_owner s.frontend owner)) [
  | inl e ↦ rw e omega arith
  | inr e ↦
      let none_left =
        ap (λ m. total live_weight m.sessions) (on_frontend_owner_changed-ends 0 s owner e).0 in
      omega (arith, none_left)
]

handle_method-live :
    (s : PortalLedger) (reply : ℕ) (c : MethodCall) → live (handle_method s reply c) ≤ live s
unfolding handle_method on_select_sources
handle_method-live s reply (create_session handle session app_id) =
    on_create_session-live s reply session
handle_method-live s reply (select_sources handle session app_id constraints) =
    configure-live (get session s.sessions) s reply handle session constraints
handle_method-live s reply (start handle session app_id parent_window constraints options) =
    on_start-live s reply handle session app_id constraints options
handle_method-live s reply (request_close handle) = on_request_close-live s reply handle
handle_method-live s reply (screenshot handle app_id parent_window options) =
    omega (arith, open_screenshot_request-live s reply handle app_id screen)
handle_method-live s reply (pick_color handle app_id parent_window options) =
    omega (arith, open_screenshot_request-live s reply handle app_id color)
handle_method-live s reply (file_chooser kind handle app_id parent_window title options) =
    omega
      (arith, open_file_chooser_request-live s reply kind handle app_id parent_window title options)

-- What a call changes in the ledger alone, before the picker that it opens is shown, raises the
-- number of sessions that are Starting or Active in no case.
pub apply_portal_call-live :
    (s : PortalLedger) (c : PortalCall) → live (apply_portal_call s c) ≤ live s
unfolding apply_portal_call live
apply_portal_call-live s (frontend_owner_changed owner) = on_frontend_owner_changed-live s owner
apply_portal_call-live s (method from c) =
    elim (Bool-cases (not (caller_is_frontend from.caller s.frontend))) [
      | inl e ↦ rw e omega arith
      | inr e ↦ rw e (handle_method-live s from.reply c)
    ]
