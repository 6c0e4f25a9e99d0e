-- ===== src/Portal/Producer.antt =====
-- The producer's events and the method calls' effects beyond the ledger (portal/service.rs).
use Prim.Native.String.{String}
use veshell.Base.{
  ℕ, Bool, true, false, List, [], ◌∷◌, ◌++◌, Option, none, some, ◌&&◌, ◌||◌, ◌==◌, if◌then◌else◌,
}
use veshell.Portal.Types.{
  OwnedValue, nil, cons, u32, i32, structure, array, variant, dict, empty, entry, PortalDict,
  PortalReply, PortalCall, response_ok, text_eq, is_some, contains_bits, monitor, window, failed,
}
use veshell.Portal.Ledger.{
  starting, active, created, configured, choosing, closed, SessionState, PortalSession,
  CaptureSource, SourceKind, monitor_source, window_source, PortalAction, export_session,
  export_request, close_session, unexport_request, unexport_session, PortalUiEvent, open_picker,
  dismiss_picker, open_screenshot_prompt, open_file_chooser, PortalLedger, get, insert, remove,
  send, put_session,
}
use veshell.Portal.Calls.{apply_portal_call}
use veshell.Portal.Decisions.{approved, resolve_consent_no_picker}
use veshell.Portal.Constraints.{encode_restore_data}
use veshell.Portal.Streams.{
  ActiveStream, PortalState, Desktop, on_ledger, put_stream, close_shared_session,
  stop_capture_side,
}
use veshell.Portal.Sharing.{with_node, handle_consent_decision}

unfoldable pub portal_value : SourceKind → ℕ
portal_value monitor_source = monitor
portal_value window_source = window

abbrev couple : ℕ × ℕ → OwnedValue
couple (a, b) = structure (cons (i32 a) (cons (i32 b) nil))

unfoldable pub stream_dict : ActiveStream → OwnedValue
unfolding portal_value
stream_dict stream = dict (
    entry "position" (variant (couple stream.position)) (
      entry "size" (variant (couple stream.size))
        (entry "source_type" (variant (u32 (portal_value stream.source_kind))) empty)))

abbrev grant_entries : Option String → PortalDict
grant_entries none = []
grant_entries (some token) = ("restore_data", encode_restore_data token) ∷ []

unfoldable pub stream_reply : ℕ → ActiveStream → PortalReply
unfolding stream_dict encode_restore_data
stream_reply node stream = record {
  response = response_ok;
  results =
      ("streams", array (cons (structure (cons (u32 node) (cons (stream_dict stream) nil))) nil))
      ∷ ("persist_mode", u32 (if is_some stream.restore_token then 1 else 0))
      ∷ grant_entries stream.restore_token;
}

abbrev pub drop_stream : String → PortalState → PortalState
drop_stream session p = record p { active_streams = remove session p.active_streams }

abbrev pub activate : PortalSession → PortalSession
activate session = record session { state = active; pending_start = none }

abbrev pub complete_start : Option ℕ → Desktop → PortalState → String → ActiveStream → PortalState
complete_start none d p session stream = put_stream session stream p
complete_start (some reply) d p session stream =
    if d.encodes
    then put_stream session stream (on_ledger (send reply (stream_reply stream.node_id stream)) p)
    else close_shared_session (on_ledger (send reply (failed "unable to build the Start result")) p)
        session

abbrev pub is_starting : SessionState → Bool
is_starting created = false
is_starting configured = false
is_starting choosing = false
is_starting starting = true
is_starting active = false
is_starting closed = false

-- The first node completes a starting session, a repeat only updates its id.
abbrev pub ready_session :
    Option PortalSession → Desktop → PortalState → String → ActiveStream → PortalState
ready_session none d p session stream = drop_stream session p
ready_session (some found) d p session stream =
    if is_starting found.state
    then complete_start found.pending_start d (on_ledger (put_session session (activate found)) p)
        session stream
    else put_stream session stream p

abbrev pub ready_stream : Option ActiveStream → Desktop → PortalState → String → ℕ → PortalState
ready_stream none d p session node = p
ready_stream (some stream) d p session node =
    ready_session (get session p.ledger.sessions) d p session (with_node node stream)

unfoldable pub on_node_ready : Desktop → PortalState → String → ℕ → PortalState
unfolding get insert remove close_shared_session stream_reply
on_node_ready d p session node = ready_stream (get session p.active_streams) d p session node

abbrev pub change_stream :
    Option ActiveStream → (ActiveStream → ActiveStream) → String → PortalState → PortalState
change_stream none change session p = p
change_stream (some stream) change session p = put_stream session (change stream) p

unfoldable pub on_consumer_changed : PortalState → String → Bool → PortalState
unfolding get insert
on_consumer_changed p session is_active =
    change_stream (get session p.active_streams) (λ stream. record stream { active = is_active })
      session p

unfoldable pub stream_with_node : ℕ → List (String × ActiveStream) → Option String
stream_with_node node [] = none
stream_with_node node ((handle, stream) ∷ es) =
    let rest = stream_with_node node es in if stream.node_id == node then some handle else rest

abbrev pub identify : Option String → PortalState → Option ℕ → Option String → PortalState
identify none p pid app_id = p
identify (some session) p pid app_id =
    change_stream (get session p.active_streams)
      (λ stream. record stream { consumer_pid = pid; consumer_app_id = app_id }) session p

unfoldable pub on_consumer_identified : PortalState → ℕ → Option ℕ → Option String → PortalState
unfolding get insert stream_with_node
on_consumer_identified p node pid app_id =
    identify (stream_with_node node p.active_streams) p pid app_id

pub data ProducerEvent : Type 0 where
  node_ready : String → ℕ → ProducerEvent
  consumer_identified : ℕ → Option ℕ → Option String → ProducerEvent
  fatal : String → ProducerEvent
  consumer_changed : String → Bool → ProducerEvent

unfoldable pub handle_producer_event : Desktop → PortalState → ProducerEvent → PortalState
unfolding on_node_ready on_consumer_identified on_consumer_changed close_shared_session
handle_producer_event d p (node_ready session node) = on_node_ready d p session node
handle_producer_event d p (consumer_identified node pid app_id) =
    on_consumer_identified p node pid app_id
handle_producer_event d p (fatal session) = close_shared_session p session
handle_producer_event d p (consumer_changed session is_active) =
    on_consumer_changed p session is_active

abbrev pub is_live : CaptureSource → List CaptureSource → Bool
is_live source [] = false
is_live source (live ∷ sources) =
    (text_eq live.id source.id && is_source_kind live.kind source.kind) || is_live source sources
  where
    is_source_kind : SourceKind → SourceKind → Bool
    is_source_kind monitor_source monitor_source = true
    is_source_kind monitor_source window_source = false
    is_source_kind window_source monitor_source = false
    is_source_kind window_source window_source = true

abbrev pub offered : Bool → List CaptureSource → List CaptureSource
offered true sources = sources
offered false sources = []

-- With no source to offer the request fails; otherwise the picker waits for the user.
abbrev pub ask : List CaptureSource → PortalState → String → PortalState
ask [] p session = on_ledger (λ s. resolve_consent_no_picker s session) p
ask (source ∷ sources) p session = p

abbrev pub prompt : Desktop → PortalState → String → ℕ → PortalState
prompt d p session types =
    ask
      (offered (contains_bits types monitor) d.outputs
        ++ offered (contains_bits types window) d.windows)
      p session

abbrev pub open_for : Option CaptureSource → Desktop → PortalState → String → ℕ → ℕ → PortalState
open_for none d p session token types = prompt d p session types
open_for (some source) d p session token types =
    if is_live source (d.outputs ++ d.windows)
    then handle_consent_decision d p session token approved (some source.id)
    else prompt d p session types

-- The other events only reach the shell.
abbrev pub perform_ui_event : Desktop → PortalState → PortalUiEvent → PortalState
perform_ui_event d p (open_picker session request app_name token types preselected) =
    open_for preselected d p session token types
perform_ui_event d p (dismiss_picker token) = p
perform_ui_event d p (open_screenshot_prompt request app_name kind token) = p
perform_ui_event d p (open_file_chooser request app_name parent title kind options token) = p

-- Oldest first.
abbrev pub perform_ui : Desktop → PortalState → List PortalUiEvent → PortalState
perform_ui d p [] = p
perform_ui d p (event ∷ events) = perform_ui_event d (perform_ui d p events) event

abbrev pub perform_action : PortalState → PortalAction → PortalState
perform_action p (export_session handle) = p
perform_action p (export_request handle) = p
perform_action p (close_session handle) = stop_capture_side handle p
perform_action p (unexport_request handle) = p
perform_action p (unexport_session handle) = p

abbrev pub perform_actions : PortalState → List PortalAction → PortalState
perform_actions p [] = p
perform_actions p (action ∷ actions) = perform_action (perform_actions p actions) action

-- A call starts with nothing queued.
abbrev pub queue_nothing : PortalLedger → PortalLedger
queue_nothing s = record s { actions = []; ui = [] }

abbrev pub requeue : List PortalAction → List PortalUiEvent → PortalLedger → PortalLedger
requeue actions ui s = record s { actions = s.actions ++ actions; ui = s.ui ++ ui }

abbrev pub dispatch : Desktop → PortalState → PortalLedger → PortalState
dispatch d p s =
    perform_actions
      (perform_ui d (record p { ledger = requeue p.ledger.actions p.ledger.ui s }) s.ui) s.actions

unfoldable pub handle_portal_call : Desktop → PortalState → PortalCall → PortalState
unfolding apply_portal_call resolve_consent_no_picker handle_consent_decision stop_capture_side
handle_portal_call d p call = dispatch d p (apply_portal_call (queue_nothing p.ledger) call)
