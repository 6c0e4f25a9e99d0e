-- ===== src/Portal/Streams.antt =====
-- Shared sessions with their streams in portal/service.rs: what decides on a picker, a producer's
-- event and an end do to the ledger and to the active streams.
use Prim.Native.String.{String}
use veshell.Base.{ℕ, Bool, List, [], ◌∷◌, Option, none, some, if◌then◌else◌}
use veshell.Portal.Types.{text_eq}
use veshell.Portal.Ledger.{
  PortalSession, PendingRequest, CaptureSource, SourceKind, unexport_request, PortalLedger, get,
  insert, remove, act, drop_session, close_session_actions, cancel_pending_start,
}
use veshell.Portal.Closing.{handles_of}
use veshell.Portal.Grants.{Grants}

-- The frames' times are left out.
pub record ActiveStream : Type 0 where
  pub node_id : ℕ
  pub source_id : String
  pub source_kind : SourceKind
  pub cursor_mode : ℕ
  pub position : ℕ × ℕ
  pub size : ℕ × ℕ
  pub label : String
  pub app_id : String
  pub consumer_pid : Option ℕ
  pub consumer_app_id : Option String
  pub active : Bool
  pub restore_token : Option String

-- The portal's part of the compositor's state, with its backend running.
pub record PortalState : Type 0 where
  pub ledger : PortalLedger
  pub active_streams : List (String × ActiveStream)

-- What the rest of the compositor has at the time of a decision: its outputs and mapped windows,
-- the position and size that a source resolves to, whether a producer runs, whether a result can
-- be encoded, the next UUID, and the order of the grants' hash map.
pub record Desktop : Type 0 where
  pub outputs : List CaptureSource
  pub windows : List CaptureSource
  pub target_of : CaptureSource → Option ((ℕ × ℕ) × (ℕ × ℕ))
  pub producer : Bool
  pub encodes : Bool
  pub uuid : String
  pub next_key : Grants → String

abbrev pub on_ledger : (PortalLedger → PortalLedger) → PortalState → PortalState
on_ledger change p = record p { ledger = change p.ledger }

abbrev pub put_stream : String → ActiveStream → PortalState → PortalState
put_stream session stream p = record p { active_streams = insert session stream p.active_streams }

-- Only a request's own session counts; the replies that the requests hold are lost with them.
unfoldable pub retain_others :
    String → List (String × PendingRequest) → List (String × PendingRequest)
retain_others session [] = []
retain_others session ((handle, request) ∷ es) =
    let rest = retain_others session es in
    if text_eq request.session_handle session then rest else (handle, request) ∷ rest

abbrev pub unexport_each : List String → PortalLedger → PortalLedger
unexport_each [] s = s
unexport_each (handle ∷ handles) s = unexport_each handles (act (unexport_request handle) s)

abbrev pub end_shared : Option PortalSession → String → PortalLedger → PortalLedger
end_shared none session s = s
end_shared (some found) session s =
    close_session_actions session
      (drop_session session (cancel_pending_start found.pending_start s))

abbrev pub retain_requests : String → PortalLedger → PortalLedger
retain_requests session s = record s { requests = retain_others session s.requests }

unfoldable pub close_shared_ledger : PortalLedger → String → PortalLedger
unfolding get handles_of retain_others close_session_actions
close_shared_ledger s session =
    let ended = end_shared (get session s.sessions) session s in
    unexport_each (handles_of session ended.requests) (retain_requests session ended)

-- The sentinel path stands for every live stream.
unfoldable pub stop_capture_side : String → PortalState → PortalState
unfolding remove
stop_capture_side session p = record p {
  active_streams =
      if text_eq session "/org/freedesktop/portal/desktop"
      then []
      else remove session p.active_streams;
}

unfoldable pub close_shared_session : PortalState → String → PortalState
unfolding close_shared_ledger stop_capture_side
close_shared_session p session =
    stop_capture_side session (on_ledger (λ s. close_shared_ledger s session) p)

unfoldable pub source_share_handles : List (String × ActiveStream) → String → List String
source_share_handles [] source = []
source_share_handles ((handle, stream) ∷ es) source =
    let rest = source_share_handles es source in
    if text_eq stream.source_id source then handle ∷ rest else rest

unfoldable pub close_sessions_of : List String → PortalState → PortalState
unfolding close_shared_session
close_sessions_of [] p = p
close_sessions_of (handle ∷ handles) p = close_sessions_of handles (close_shared_session p handle)

unfoldable pub close_source_share_sessions : PortalState → String → PortalState
unfolding close_sessions_of source_share_handles
close_source_share_sessions p source =
    close_sessions_of (source_share_handles p.active_streams source) p
