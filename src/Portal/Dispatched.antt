-- ===== src/Portal/Dispatched.antt =====
-- What the producer's events and a call's further effects do to the reply links.
use Prim.Native.String.{String}
use veshell.Base.{
  ℕ, ◌+◌, ◌≡◌, ◌≤◌, ◌∙◌, refl, ap, arith, List, [], ◌∷◌, ◌++◌, Option, none, some, Bool-cases, inl,
  inr,
}
use veshell.Portal.Types.{failed}
use veshell.Portal.Ledger.{
  PortalSession, PortalLedger, unexport_request, get, send, put_session, export_session,
}
use veshell.Portal.Balance.{weigh, of_link, of_session, held, answered, balance}
use veshell.Portal.Links.{balance-put_session, balance-send}
use veshell.Portal.Decisions.{approved}
use veshell.Portal.Ledger.{CaptureSource}
use veshell.Portal.Streams.{Desktop, PortalState, stop_capture_side}
use veshell.Portal.Types.{PortalCall}
use veshell.Portal.Ledger.{
  PortalAction, PortalUiEvent, export_session, export_request, close_session, unexport_session,
  open_picker, dismiss_picker, open_screenshot_prompt, open_file_chooser,
}
use veshell.Portal.Streams.{ActiveStream}
use veshell.Portal.Sharing.{with_node}
use veshell.Portal.Decided.{resolve_consent_no_picker-balance}
use veshell.Portal.Calls.{apply_portal_call}
use veshell.Portal.Producer.{
  stream_reply, activate, complete_start, is_starting, ready_session, ready_stream, on_node_ready,
  change_stream, identify, stream_with_node, on_consumer_changed, on_consumer_identified,
  ProducerEvent, node_ready, consumer_identified, fatal, consumer_changed, handle_producer_event,
  is_live, ask, open_for, perform_ui_event, perform_ui, perform_action, perform_actions,
  queue_nothing, requeue, handle_portal_call,
}
use veshell.Portal.Shared.{NoMore, close_shared_session-NoMore, handle_consent_decision-NoMore}

module _ (link : ℕ) where
  complete_start-le :
      (pending : Option ℕ) (d : Desktop) (p : PortalState) (session : String)
      (stream : ActiveStream)
      → balance link (complete_start pending d p session stream).ledger
        ≤ of_link link pending + balance link p.ledger
  complete_start-le none d p session stream = omega arith
  complete_start-le (some reply) d p session stream = elim (Bool-cases d.encodes) [
    | inl e ↦
        rw e omega (arith, balance-send link reply (stream_reply stream.node_id stream) p.ledger)
    | inr e ↦
        let told = send reply (failed "unable to build the Start result") p.ledger in
        rw e omega (
          arith,
          close_shared_session-NoMore link (record p { ledger = told }) session,
          balance-send link reply (failed "unable to build the Start result") p.ledger,
        )
  ]

  ready_session-NoMore :
      (found : Option PortalSession) (d : Desktop) (p : PortalState) (session : String)
      (stream : ActiveStream)
      → get session p.ledger.sessions ≡ found
      → NoMore link p.ledger (ready_session found d p session stream).ledger
  ready_session-NoMore none d p session stream h = omega arith
  ready_session-NoMore (some found) d p session stream h =
      elim (Bool-cases (is_starting found.state)) [
        | inl e ↦
            let was = ap (weigh (of_session link)) h in
            let put = put_session session (activate found) p.ledger in
            rw e omega (
              arith,
              complete_start-le found.pending_start d (record p { ledger = put }) session stream,
              balance-put_session link session (activate found) p.ledger,
              was,
            )
        | inr e ↦ rw e omega arith
      ]

  ready_stream-NoMore :
      (found : Option ActiveStream) (d : Desktop) (p : PortalState) (session : String) (node : ℕ)
      → NoMore link p.ledger (ready_stream found d p session node).ledger
  ready_stream-NoMore none d p session node = omega arith
  ready_stream-NoMore (some stream) d p session node =
      ready_session-NoMore (get session p.ledger.sessions) d p session (with_node node stream) refl

  change_stream-NoMore :
      (found : Option ActiveStream) (change : ActiveStream → ActiveStream) (session : String)
      (p : PortalState)
      → NoMore link p.ledger (change_stream found change session p).ledger
  change_stream-NoMore none change session p = omega arith
  change_stream-NoMore (some stream) change session p = omega arith

  identify-NoMore :
      (found : Option String) (p : PortalState) (pid : Option ℕ) (app_id : Option String)
      → NoMore link p.ledger (identify found p pid app_id).ledger
  identify-NoMore none p pid app_id = omega arith
  identify-NoMore (some session) p pid app_id =
      change_stream-NoMore (get session p.active_streams)
        (λ stream. record stream { consumer_pid = pid; consumer_app_id = app_id }) session p

  pub handle_producer_event-NoMore :
      (d : Desktop) (p : PortalState) (event : ProducerEvent)
      → NoMore link p.ledger (handle_producer_event d p event).ledger
  unfolding handle_producer_event on_node_ready on_consumer_identified on_consumer_changed
  handle_producer_event-NoMore d p (node_ready session node) =
      ready_stream-NoMore (get session p.active_streams) d p session node
  handle_producer_event-NoMore d p (consumer_identified node pid app_id) =
      identify-NoMore (stream_with_node node p.active_streams) p pid app_id
  handle_producer_event-NoMore d p (fatal session) = close_shared_session-NoMore link p session
  handle_producer_event-NoMore d p (consumer_changed session is_active) =
      change_stream-NoMore (get session p.active_streams)
        (λ stream. record stream { active = is_active }) session p

  ask-NoMore :
      (sources : List CaptureSource) (p : PortalState) (session : String)
      → NoMore link p.ledger (ask sources p session).ledger
  ask-NoMore [] p session = resolve_consent_no_picker-balance link p.ledger session
  ask-NoMore (source ∷ sources) p session = omega arith

  open_for-NoMore :
      (preselected : Option CaptureSource) (d : Desktop) (p : PortalState) (session : String)
      (token types : ℕ)
      → NoMore link p.ledger (open_for preselected d p session token types).ledger
  open_for-NoMore none d p session token types = ask-NoMore _ p session
  open_for-NoMore (some source) d p session token types =
      elim (Bool-cases (is_live source (d.outputs ++ d.windows))) [
        | inl e ↦
            rw e (handle_consent_decision-NoMore link d p session token approved (some source.id))
        | inr e ↦ rw e (ask-NoMore _ p session)
      ]

  perform_ui_event-NoMore :
      (d : Desktop) (p : PortalState) (event : PortalUiEvent)
      → NoMore link p.ledger (perform_ui_event d p event).ledger
  perform_ui_event-NoMore d p (open_picker session request app_name token types preselected) =
      open_for-NoMore preselected d p session token types
  perform_ui_event-NoMore d p (dismiss_picker token) = omega arith
  perform_ui_event-NoMore d p (open_screenshot_prompt request app_name kind token) = omega arith
  perform_ui_event-NoMore d p (open_file_chooser request app_name parent title kind options token) =
      omega arith

  perform_ui-NoMore :
      (d : Desktop) (p : PortalState) (events : List PortalUiEvent)
      → NoMore link p.ledger (perform_ui d p events).ledger
  perform_ui-NoMore d p [] = omega arith
  perform_ui-NoMore d p (event ∷ events) =
      omega (
        arith,
        perform_ui_event-NoMore d (perform_ui d p events) event,
        perform_ui-NoMore d p events,
      )

  perform_action-ledger :
      (p : PortalState) (action : PortalAction) → (perform_action p action).ledger ≡ p.ledger
  unfolding stop_capture_side
  perform_action-ledger p (export_session handle) = refl
  perform_action-ledger p (export_request handle) = refl
  perform_action-ledger p (close_session handle) = refl
  perform_action-ledger p (unexport_request handle) = refl
  perform_action-ledger p (unexport_session handle) = refl

  pub perform_actions-ledger :
      (p : PortalState) (actions : List PortalAction)
      → (perform_actions p actions).ledger ≡ p.ledger
  perform_actions-ledger p [] = refl
  perform_actions-ledger p (action ∷ actions) =
      perform_action-ledger (perform_actions p actions) action ∙ perform_actions-ledger p actions

  pub queued :
      (actions : List PortalAction) (ui : List PortalUiEvent) (s : PortalLedger)
      → balance link (requeue actions ui s) ≡ balance link s
  unfolding balance held answered
  queued actions ui s = refl

  pub unqueued : (s : PortalLedger) → balance link (queue_nothing s) ≡ balance link s
  unfolding balance held answered
  unqueued s = refl

  pub handle_portal_call-le :
      (d : Desktop) (p : PortalState) (call : PortalCall)
      → NoMore link
          (apply_portal_call (queue_nothing p.ledger) call)
          (handle_portal_call d p call).ledger
  unfolding handle_portal_call
  handle_portal_call-le d p call =
      let s = apply_portal_call (queue_nothing p.ledger) call in
      let again = record p { ledger = requeue p.ledger.actions p.ledger.ui s } in
      let shown = perform_ui d again s.ui in
      omega (
        arith,
        ap (balance link) (perform_actions-ledger shown s.actions),
        perform_ui-NoMore d again s.ui,
        queued p.ledger.actions p.ledger.ui s,
      )
