-- ===== src/Portal/Run.antt =====
-- Everything that reaches the portal's state, one event after another (portal/service.rs).
use Prim.Native.String.{String}
use veshell.Base.{ℕ, List, [], ◌∷◌, Option}
use veshell.Portal.Types.{PortalCall}
use veshell.Portal.Ledger.{no_ledger}
use veshell.Portal.Closing.{on_frontend_owner_changed}
use veshell.Portal.Decisions.{ConsentOutcome}
use veshell.Portal.Answers.{
  resolve_screenshot_consent, PortalCaptureOutcome, handle_portal_capture_outcome,
  handle_file_chooser_decision,
}
use veshell.Portal.Streams.{
  ActiveStream, PortalState, Desktop, on_ledger, close_shared_session, close_sessions_of,
  close_source_share_sessions,
}
use veshell.Portal.Sharing.{handle_consent_decision}
use veshell.Portal.Producer.{ProducerEvent, handle_producer_event, handle_portal_call}

abbrev pub new_portal : PortalState
new_portal = record { ledger = no_ledger; active_streams = [] }

abbrev pub stream_handles : List (String × ActiveStream) → List String
stream_handles [] = []
stream_handles ((handle, stream) ∷ es) = handle ∷ stream_handles es

unfoldable pub handle_frontend_owner_change : PortalState → Option String → PortalState
unfolding on_frontend_owner_changed close_sessions_of
handle_frontend_owner_change p owner =
    close_sessions_of (stream_handles p.active_streams)
      (on_ledger (λ s. on_frontend_owner_changed s owner) p)

pub data Event : Type 0 where
  portal_call : Desktop → PortalCall → Event
  -- the session, the token, the outcome and the chosen source
  consent_decision : Desktop → String → ℕ → ConsentOutcome → Option String → Event
  screenshot_decision : ℕ → ConsentOutcome → Event
  file_chooser_decision : ℕ → ConsentOutcome → List String → Event
  -- the request, its token and the outcome
  captured : String → ℕ → PortalCaptureOutcome → Event
  producer_event : Desktop → ProducerEvent → Event
  -- the indicator's Stop, and a window that goes
  stop_sharing : String → Event
  source_gone : String → Event
  owner_change : Option String → Event

unfoldable pub step : PortalState → Event → PortalState
unfolding handle_portal_call handle_consent_decision resolve_screenshot_consent
    handle_file_chooser_decision handle_portal_capture_outcome handle_producer_event
    close_shared_session close_source_share_sessions handle_frontend_owner_change
step p (portal_call d c) = handle_portal_call d p c
step p (consent_decision d session token outcome source) =
    handle_consent_decision d p session token outcome source
step p (screenshot_decision token outcome) =
    on_ledger (λ s. (resolve_screenshot_consent s token outcome).1) p
step p (file_chooser_decision token outcome uris) =
    on_ledger (λ s. handle_file_chooser_decision s token outcome uris) p
step p (captured handle token outcome) =
    on_ledger (λ s. handle_portal_capture_outcome s handle token outcome) p
step p (producer_event d event) = handle_producer_event d p event
step p (stop_sharing session) = close_shared_session p session
step p (source_gone source) = close_source_share_sessions p source
step p (owner_change next) = handle_frontend_owner_change p next

unfoldable pub run : PortalState → List Event → PortalState
unfolding step
run p [] = p
run p (e ∷ es) = run (step p e) es
