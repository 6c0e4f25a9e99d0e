-- ===== src/Portal/Sessions.antt =====
-- Sessions and their start (portal/service.rs).
use Prim.Native.String.{String}
use veshell.Base.{ℕ, Bool, true, false, Option, none, some, ◌||◌, ◌==◌, not, if◌then◌else◌}
use veshell.Portal.Types.{
  PortalDict, ScreenCastConstraints, text_eq, is_some, starts_with, contains_key, intersects,
  monitor, window, ok, failed, cancelled,
}
use veshell.Portal.Ledger.{
  SessionState, created, configured, choosing, starting, active, closed, PortalSession,
  ConsentRequest, PendingRequest, SourceKind, monitor_source, window_source, CaptureSource,
  RestoreGrant, export_session, export_request, unexport_request, open_picker, PortalLedger, get,
  send, act, show, put_session, put_request, drop_request, mint,
}

abbrev pub valid_request_path : String → Bool
valid_request_path handle = starts_with handle "/org/freedesktop/portal/desktop/request/"

abbrev pub valid_session_path : String → Bool
valid_session_path handle = starts_with handle "/org/freedesktop/portal/desktop/session/"

unfoldable pub kind_to_types : SourceKind → ℕ
kind_to_types monitor_source = monitor
kind_to_types window_source = window

abbrev pub grant_source : Option RestoreGrant → Option String → Option CaptureSource
grant_source (some grant) (some owner) =
    if text_eq grant.owner owner then some grant.source else none
grant_source (some grant) none = none
grant_source none owner = none

-- A presented token stands for its source only under the frontend that approved it.
unfoldable pub restore_source : PortalLedger → String → Option CaptureSource
unfolding get
restore_source s token = grant_source (get token s.restores) s.frontend

unfoldable pub on_create_session : PortalLedger → ℕ → String → PortalLedger
unfolding get
on_create_session s reply session =
    if not (valid_session_path session)
    then send reply (failed "invalid session handle") s
    else if is_some (get session s.sessions)
    then send reply (failed "session already exists") s
    else send reply ok (
        put_session session (record { state = created; constraints = none; pending_start = none })
          (act (export_session session) s))

abbrev pub is_configurable : SessionState → Bool
is_configurable created = true
is_configurable configured = true
is_configurable choosing = false
is_configurable starting = false
is_configurable active = false
is_configurable closed = false

abbrev pub register_request : String → String → PortalLedger → PortalLedger
register_request handle session s =
    if is_some (get handle s.requests)
    then s
    else act (export_request handle) (
        put_request handle (record { session_handle = session; cancelled = false; consent = none })
          s)

abbrev pub configure :
    Option PortalSession → PortalLedger → ℕ → String → String → ScreenCastConstraints → PortalLedger
configure none s reply handle session constraints = send reply (failed "unknown session") s
configure (some found) s reply handle session constraints =
    if not (is_configurable found.state)
    then send reply (failed "session not in a configurable state") s
    else send reply ok (
        register_request handle session (
          put_session session (record found { state = configured; constraints = some constraints })
            s))

unfoldable pub on_select_sources :
    PortalLedger → ℕ → String → String → ScreenCastConstraints → PortalLedger
unfolding get
on_select_sources s reply handle session constraints =
    configure (get session s.sessions) s reply handle session constraints

-- Start's constraints over the stored ones: a key that Start leaves out keeps the stored value.
unfoldable pub merge_constraints :
    ScreenCastConstraints → PortalDict → ScreenCastConstraints → ScreenCastConstraints
unfolding contains_key
merge_constraints constraints options stored = record constraints {
  types = if contains_key options "types" then constraints.types else stored.types;
  cursor_mode =
      if contains_key options "cursor_mode" then constraints.cursor_mode else stored.cursor_mode;
  persist_mode =
      if constraints.persist_mode == 0 then stored.persist_mode else constraints.persist_mode;
  restore_token =
      if is_some constraints.restore_token then constraints.restore_token else stored.restore_token;
}

abbrev pub lacks_a_key : ScreenCastConstraints → PortalDict → Bool
lacks_a_key constraints options =
    not (contains_key options "types")
    || (not (contains_key options "cursor_mode")
        || (constraints.persist_mode == 0 || not (is_some constraints.restore_token)))

abbrev pub merge_stored :
    Option ScreenCastConstraints → ScreenCastConstraints → PortalDict → ScreenCastConstraints
merge_stored none constraints options = constraints
merge_stored (some stored) constraints options =
    if lacks_a_key constraints options
    then merge_constraints constraints options stored
    else constraints

-- The constraints that a session starts with, or why it cannot start.
pub data Startable : Type 0 where
  refused : String → Startable
  with_constraints : ScreenCastConstraints → Startable

abbrev pub startable : PortalSession → ScreenCastConstraints → PortalDict → Startable
startable session constraints options = by_state session.state
  where
    by_state : SessionState → Startable
    by_state created = with_constraints constraints
    by_state configured = with_constraints (merge_stored session.constraints constraints options)
    by_state choosing = refused "a picker is already open"
    by_state starting = refused "a picker is already open"
    by_state active = refused "session is not in a startable state"
    by_state closed = refused "session is not in a startable state"

abbrev pub restored : Option String → PortalLedger → ℕ → Option CaptureSource
restored none s types = none
restored (some token) s types = fitting (restore_source s token)
  where
    fitting : Option CaptureSource → Option CaptureSource
    fitting none = none
    fitting (some source) =
        if intersects (kind_to_types source.kind) types then some source else none

abbrev pub entry_of : Option PendingRequest → String → PendingRequest
entry_of none session = record { session_handle = session; cancelled = false; consent = none }
entry_of (some request) session = request

abbrev pub export_new : String → PortalLedger → PortalLedger
export_new handle s = if is_some (get handle s.requests) then s else act (export_request handle) s

abbrev pub with_consent : PendingRequest → ConsentRequest → PendingRequest
with_consent request consent = record request { consent = some consent }

-- The picker opens under a new token, and its request holds the reply link.
unfoldable pub open_consent :
    PortalLedger → ℕ → String → String → String → ScreenCastConstraints → PortalLedger
unfolding get restore_source
open_consent s reply handle session app_id constraints =
    let token = (mint s).next_consent_token in
    show
      (open_picker session handle app_id token constraints.types
        (restored constraints.restore_token s constraints.types))
      (put_request handle
        (with_consent (entry_of (get handle s.requests) session)
          (record { consent_token = token; app_name = app_id; reply = reply }))
        (export_new handle (mint s)))

abbrev pub begin_choosing :
    Startable → PortalSession → PortalLedger → ℕ → String → String → String → PortalLedger
begin_choosing (refused message) found s reply handle session app_id = send reply (failed message) s
begin_choosing (with_constraints constraints) found s reply handle session app_id =
    if not (intersects constraints.types 3)
    then send reply (failed "no supported source types") (
        put_session session (record found { state = configured; constraints = some constraints }) s)
    else open_consent
        (put_session session (record found { state = choosing; constraints = some constraints }) s)
        reply handle session app_id constraints

abbrev pub start_found :
    Option PortalSession
    → PortalLedger
    → ℕ
    → String
    → String
    → String
    → ScreenCastConstraints
    → PortalDict
    → PortalLedger
start_found none s reply handle session app_id constraints options =
    send reply (failed "unknown session") s
start_found (some found) s reply handle session app_id constraints options =
    begin_choosing (startable found constraints options) found s reply handle session app_id

abbrev pub is_cancelled : Option PendingRequest → Bool
is_cancelled none = false
is_cancelled (some request) = request.cancelled

unfoldable pub on_start :
    PortalLedger → ℕ → String → String → String → ScreenCastConstraints → PortalDict → PortalLedger
unfolding get open_consent
on_start s reply handle session app_id constraints options =
    if is_cancelled (get handle s.requests)
    then send reply cancelled (act (unexport_request handle) (drop_request handle s))
    else start_found (get session s.sessions) s reply handle session app_id constraints options
