-- ===== src/Portal/LiveDispatch.antt =====
-- How a whole call changes the number of sessions that share (portal/service.rs).
use Prim.Native.String.{String}
use veshell.Base.{
  ℕ, ◌≤◌, ◌≡◌, refl, ap, arith, Bool, true, false, ◌||◌, List, [], ◌∷◌, Option, none, some,
}
use veshell.Portal.Types.{PortalCall, is_some}
use veshell.Portal.Ledger.{
  PortalSession, PendingRequest, ConsentRequest, CaptureSource, PortalAction, PortalUiEvent,
  open_picker, dismiss_picker, open_screenshot_prompt, open_file_chooser, PortalLedger, get,
  drop_request, unexport_request, act, close_session_actions,
}
use veshell.Portal.Calls.{apply_portal_call}
use veshell.Portal.Decisions.{
  is_open, find_handle, answer_failed, end_session, end_request, end_matched,
  resolve_consent_no_picker,
}
use veshell.Portal.Streams.{PortalState, Desktop}
use veshell.Portal.Producer.{
  ask, open_for, perform_ui_event, perform_ui, queue_nothing, requeue, handle_portal_call,
}
use veshell.Portal.Dispatched.{perform_actions-ledger}
use veshell.Portal.Live.{live, drop_session-live}
use veshell.Portal.LiveCalls.{apply_portal_call-live}

-- Whether a picker is opened for a source that a restore token stands for.
abbrev preselects : PortalUiEvent → Bool
preselects (open_picker session request app_name token types preselected) = is_some preselected
preselects (dismiss_picker token) = false
preselects (open_screenshot_prompt request app_name kind token) = false
preselects (open_file_chooser request app_name parent title kind options token) = false

abbrev pub any_preselects : List PortalUiEvent → Bool
any_preselects [] = false
any_preselects (event ∷ events) = preselects event || any_preselects events

or_false : (a b : Bool) → (a || b) ≡ false → (a ≡ false) × (b ≡ false)
or_false true b h = cc
or_false false b h = (refl, h)

answer_failed-live :
    (picker : Option ConsentRequest) (s : PortalLedger) → live (answer_failed picker s) ≡ live s
unfolding live
answer_failed-live none s = refl
answer_failed-live (some consent) s = refl

end_session-live :
    (found : Option PortalSession) (session : String) (s : PortalLedger)
    → live (end_session found session s) ≤ live s
unfolding close_session_actions live
end_session-live none session s = omega arith
end_session-live (some found) session s = drop_session-live session s

end_request-live :
    (found : Option PendingRequest) (s : PortalLedger) (handle session : String)
    → live (end_request found s handle session) ≤ live s
unfolding live
end_request-live none s handle session = omega arith
end_request-live (some request) s handle session =
    let dropped = act (unexport_request handle) (drop_request handle s) in
    omega (
      arith,
      answer_failed-live request.consent (end_session (get session s.sessions) session dropped),
      end_session-live (get session s.sessions) session dropped,
    )

end_matched-live :
    (found : Option String) (s : PortalLedger) (session : String)
    → live (end_matched found s session) ≤ live s
end_matched-live none s session = omega arith
end_matched-live (some handle) s session = end_request-live (get handle s.requests) s handle session

resolve_consent_no_picker-live :
    (s : PortalLedger) (session : String) → live (resolve_consent_no_picker s session) ≤ live s
unfolding resolve_consent_no_picker
resolve_consent_no_picker-live s session =
    end_matched-live (find_handle (is_open session) s.requests) s session

ask-live :
    (sources : List CaptureSource) (p : PortalState) (session : String)
    → live (ask sources p session).ledger ≤ live p.ledger
ask-live [] p session = resolve_consent_no_picker-live p.ledger session
ask-live (source ∷ sources) p session = omega arith

open_for-live :
    (preselected : Option CaptureSource) (d : Desktop) (p : PortalState) (session : String)
    (token types : ℕ)
    → is_some preselected ≡ false
    → live (open_for preselected d p session token types).ledger ≤ live p.ledger
open_for-live none d p session token types h = ask-live _ p session
open_for-live (some source) d p session token types h = cc

perform_ui_event-live :
    (d : Desktop) (p : PortalState) (event : PortalUiEvent)
    → preselects event ≡ false
    → live (perform_ui_event d p event).ledger ≤ live p.ledger
perform_ui_event-live d p (open_picker session request app_name token types preselected) h =
    open_for-live preselected d p session token types h
perform_ui_event-live d p (dismiss_picker token) h = omega arith
perform_ui_event-live d p (open_screenshot_prompt request app_name kind token) h = omega arith
perform_ui_event-live d p (open_file_chooser request app_name parent title kind options token) h =
    omega arith

perform_ui-live :
    (d : Desktop) (p : PortalState) (events : List PortalUiEvent)
    → any_preselects events ≡ false
    → live (perform_ui d p events).ledger ≤ live p.ledger
perform_ui-live d p [] h = omega arith
perform_ui-live d p (event ∷ events) h =
    let (here, later) = or_false (preselects event) (any_preselects events) h in
    omega (
      arith,
      perform_ui_event-live d (perform_ui d p events) event here,
      perform_ui-live d p events later,
    )

queued-live :
    (actions : List PortalAction) (ui : List PortalUiEvent) (s : PortalLedger)
    → live (requeue actions ui s) ≡ live s
unfolding live
queued-live actions ui s = refl

unqueued-live : (s : PortalLedger) → live (queue_nothing s) ≡ live s
unfolding live
unqueued-live s = refl

-- A call, with all that the compositor does for it, raises the number of sessions that are
-- Starting or Active only if it opens a picker for a source that a restore token preselects:
-- whatever else is called, by whomever and whatever it carries, the number does not grow.
pub handle_portal_call-live :
    (d : Desktop) (p : PortalState) (call : PortalCall)
    → any_preselects (apply_portal_call (queue_nothing p.ledger) call).ui ≡ false
    → live (handle_portal_call d p call).ledger ≤ live p.ledger
unfolding handle_portal_call
handle_portal_call-live d p call h =
    let s = apply_portal_call (queue_nothing p.ledger) call in
    let again = record p { ledger = requeue p.ledger.actions p.ledger.ui s } in
    let shown = perform_ui d again s.ui in
    omega (
      arith,
      ap live (perform_actions-ledger 0 shown s.actions),
      perform_ui-live d again s.ui h,
      queued-live p.ledger.actions p.ledger.ui s,
      apply_portal_call-live (queue_nothing p.ledger) call,
      unqueued-live p.ledger,
    )
