-- ===== src/Portal/Closing.antt =====
-- What ends requests and sessions in portal/service.rs.
use Prim.Native.String.{String}
use veshell.Base.{Bool, false, List, [], ◌∷◌, Option, none, some, if◌then◌else◌}
use veshell.Portal.Types.{text_eq, cancelled}
use veshell.Portal.Ledger.{
  PendingRequest, ConsentRequest, ScreenshotEntry, ScreenshotConsent, ScreenshotCapture,
  FileChooserEntry, PortalSession, PortalLedger, unexport_request, dismiss_picker, get, send, act,
  show, drop_request, close_session_actions, cancel_pending_start,
}

abbrev pub cancel_open : Option ConsentRequest → PortalLedger → PortalLedger
cancel_open none s = s
cancel_open (some consent) s =
    show (dismiss_picker consent.consent_token) (send consent.reply cancelled s)

-- The request keeps no consent afterwards.
unfoldable pub cancel_consent : PendingRequest → PortalLedger → PortalLedger
cancel_consent request s = cancel_open request.consent s

abbrev pub without_consent : PendingRequest → PendingRequest
without_consent request = record request { consent = none }

-- The requests bound to a session.
unfoldable pub handles_of : String → List (String × PendingRequest) → List String
handles_of session [] = []
handles_of session ((handle, request) ∷ es) =
    let rest = handles_of session es in
    if text_eq request.session_handle session then handle ∷ rest else rest

abbrev pub close_found : Option PendingRequest → String → PortalLedger → PortalLedger
close_found none handle s = s
close_found (some request) handle s =
    act (unexport_request handle) (cancel_open request.consent (drop_request handle s))

unfoldable pub close_each : List String → PortalLedger → PortalLedger
unfolding get
close_each [] s = s
close_each (handle ∷ handles) s = close_each handles (close_found (get handle s.requests) handle s)

unfoldable pub close_requests_for_session : String → PortalLedger → PortalLedger
unfolding handles_of close_each
close_requests_for_session session s = close_each (handles_of session s.requests) s

-- A sweep over a map's entries.
unfoldable pub for_each {ℓ} :
    {A : Type ℓ}
    → (String → A → PortalLedger → PortalLedger)
    → List (String × A)
    → PortalLedger
    → PortalLedger
for_each visit [] s = s
for_each visit ((handle, a) ∷ es) s = for_each visit es (visit handle a s)

abbrev pub dismiss_consent : Option ConsentRequest → PortalLedger → PortalLedger
dismiss_consent none s = s
dismiss_consent (some consent) s = show (dismiss_picker consent.consent_token) s

abbrev pub refuse_consent : Option ConsentRequest → PortalLedger → PortalLedger
refuse_consent none s = s
refuse_consent (some consent) s = send consent.reply cancelled s

abbrev pub cancel_prompt : Option ScreenshotConsent → PortalLedger → PortalLedger
cancel_prompt none s = s
cancel_prompt (some consent) s =
    show (dismiss_picker consent.consent_token) (send consent.reply cancelled s)

abbrev pub cancel_capture : Option ScreenshotCapture → PortalLedger → PortalLedger
cancel_capture none s = s
cancel_capture (some capture) s = send capture.reply cancelled s

abbrev pub cancel_chooser : FileChooserEntry → PortalLedger → PortalLedger
cancel_chooser entry s = show (dismiss_picker entry.consent_token) (send entry.reply cancelled s)

-- What each sweep of a frontend's change does to an entry.
abbrev pub dismiss_request : String → PendingRequest → PortalLedger → PortalLedger
dismiss_request handle request s = dismiss_consent request.consent s

abbrev pub refuse_request : String → PendingRequest → PortalLedger → PortalLedger
refuse_request handle request s = refuse_consent request.consent s

abbrev pub unexport {ℓ} : {A : Type ℓ} → String → A → PortalLedger → PortalLedger
unexport handle a s = act (unexport_request handle) s

abbrev pub cancel_screenshot : String → ScreenshotEntry → PortalLedger → PortalLedger
cancel_screenshot handle entry s = cancel_capture entry.capture (cancel_prompt entry.consent s)

abbrev pub cancel_file_chooser : String → FileChooserEntry → PortalLedger → PortalLedger
cancel_file_chooser handle entry s = cancel_chooser entry s

unfoldable pub end_one_session : String → PortalSession → PortalLedger → PortalLedger
unfolding close_session_actions
end_one_session handle session s =
    close_session_actions handle (cancel_pending_start session.pending_start s)

abbrev pub requests_swept : PortalLedger → PortalLedger
requests_swept s =
    for_each unexport s.requests
      (for_each refuse_request s.requests (for_each dismiss_request s.requests s))

abbrev pub end_requests : PortalLedger → PortalLedger
end_requests s = record (requests_swept s) { requests = [] }

abbrev pub screenshots_swept : PortalLedger → PortalLedger
screenshots_swept s = for_each unexport s.screenshots (for_each cancel_screenshot s.screenshots s)

abbrev pub end_screenshots : PortalLedger → PortalLedger
end_screenshots s = record (screenshots_swept s) { screenshots = [] }

abbrev pub choosers_swept : PortalLedger → PortalLedger
choosers_swept s =
    for_each unexport s.file_choosers (for_each cancel_file_chooser s.file_choosers s)

abbrev pub end_choosers : PortalLedger → PortalLedger
end_choosers s = record (choosers_swept s) { file_choosers = [] }

abbrev pub end_sessions : PortalLedger → PortalLedger
end_sessions s = record (for_each end_one_session s.sessions s) { sessions = [] }

abbrev pub same_owner : Option String → Option String → Bool
same_owner (some previous) (some next) = text_eq previous next
same_owner (some previous) none = false
same_owner none next = false

abbrev pub bind_frontend : Option String → PortalLedger → PortalLedger
bind_frontend owner s = record s { frontend = owner; restores = [] }

unfoldable pub on_frontend_owner_changed : PortalLedger → Option String → PortalLedger
unfolding for_each end_one_session
on_frontend_owner_changed s owner =
    if same_owner s.frontend owner
    then bind_frontend owner s
    else end_sessions (end_choosers (end_screenshots (end_requests (bind_frontend owner s))))
