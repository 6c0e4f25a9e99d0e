-- ===== src/Portal/Decided.antt =====
-- What the shell's decisions do to the reply links.
use Prim.Native.String.{String}
use veshell.Base.{ℕ, ◌+◌, ◌≡◌, ◌≤◌, refl, ap, arith, Option, none, some}
use veshell.Portal.Types.{cancelled, failed}
use veshell.Portal.Ledger.{
  PortalSession, PendingRequest, ConsentRequest, PortalLedger, unexport_request, get, send, act,
  drop_request, starting, close_session_actions,
}
use veshell.Portal.Balance.{weigh, is_link, of_consent, of_request, tally, held, answered, balance}
use veshell.Portal.Links.{
  balance-put_session, balance-send, balance-drop_session, balance-drop_request,
}
use veshell.Portal.Decisions.{
  ConsentOutcome, approved, cancelled_flow, find_handle, is_picker, is_open, approve, end_session,
  decide, decide_request, decide_matched, resolve_consent, end_request, end_matched,
  resolve_consent_no_picker, answer_failed,
}

module _ (link : ℕ) where
  approve-balance :
      (found : Option PortalSession) (s : PortalLedger) (session : String)
      (consent : ConsentRequest)
      → get session s.sessions ≡ found
      → balance link (approve found s session consent).1
        ≤ is_link link consent.reply + balance link s
  unfolding balance is_link
  approve-balance none s session consent h =
      omega (arith, balance-send link consent.reply (failed "") s)
  approve-balance (some found) s session consent h = omega (
    arith,
    balance-put_session link session
        (record found { state = starting; pending_start = some consent.reply }) s,
  )

  end_session-balance :
      (found : Option PortalSession) (session : String) (s : PortalLedger)
      → balance link (end_session found session s) ≤ balance link s
  unfolding balance close_session_actions
  end_session-balance none session s = omega arith
  end_session-balance (some found) session s = omega (arith, balance-drop_session link session s)

  decide-balance :
      (consent : Option ConsentRequest) (s : PortalLedger) (session : String)
      (outcome : ConsentOutcome)
      → balance link (decide consent s session outcome).1 ≤ of_consent link consent + balance link s
  unfolding balance is_link
  decide-balance none s session outcome = omega arith
  decide-balance (some consent) s session approved =
      approve-balance (get session s.sessions) s session consent refl
  decide-balance (some consent) s session cancelled_flow =
      let answered = send consent.reply cancelled s in
      omega (
        arith,
        end_session-balance (get session s.sessions) session answered,
        balance-send link consent.reply cancelled s,
      )

  decide_request-balance :
      (found : Option PendingRequest) (s : PortalLedger) (handle session : String)
      (outcome : ConsentOutcome)
      → get handle s.requests ≡ found
      → balance link (decide_request found s handle session outcome).1 ≤ balance link s
  unfolding balance is_link
  decide_request-balance none s handle session outcome h = omega arith
  decide_request-balance (some request) s handle session outcome h =
      let was = ap (weigh (of_request link)) h in
      let dropped = act (unexport_request handle) (drop_request handle s) in
      omega (
        arith,
        decide-balance request.consent dropped session outcome,
        balance-drop_request link handle s,
        was,
      )

  decide_matched-balance :
      (matched : Option String) (s : PortalLedger) (session : String) (outcome : ConsentOutcome)
      → balance link (decide_matched matched s session outcome).1 ≤ balance link s
  decide_matched-balance none s session outcome = omega arith
  decide_matched-balance (some handle) s session outcome =
      decide_request-balance (get handle s.requests) s handle session outcome refl

  pub resolve_consent-balance :
      (s : PortalLedger) (session : String) (token : ℕ) (outcome : ConsentOutcome)
      → balance link (resolve_consent s session token outcome).1 ≤ balance link s
  unfolding resolve_consent
  resolve_consent-balance s session token outcome =
      decide_matched-balance (find_handle (is_picker session token) s.requests) s session outcome

  answer_failed-balance :
      (consent : Option ConsentRequest) (s : PortalLedger)
      → balance link (answer_failed consent s) ≡ of_consent link consent + balance link s
  unfolding balance held answered tally
  answer_failed-balance none s = omega arith
  answer_failed-balance (some consent) s = omega arith

  end_request-balance :
      (found : Option PendingRequest) (s : PortalLedger) (handle session : String)
      → get handle s.requests ≡ found
      → balance link (end_request found s handle session) ≤ balance link s
  unfolding balance is_link
  end_request-balance none s handle session h = omega arith
  end_request-balance (some request) s handle session h =
      let was = ap (weigh (of_request link)) h in
      let dropped = act (unexport_request handle) (drop_request handle s) in
      let over = end_session (get session s.sessions) session dropped in
      omega (
        arith,
        answer_failed-balance request.consent over,
        end_session-balance (get session s.sessions) session dropped,
        balance-drop_request link handle s,
        was,
      )

  end_matched-balance :
      (matched : Option String) (s : PortalLedger) (session : String)
      → balance link (end_matched matched s session) ≤ balance link s
  end_matched-balance none s session = omega arith
  end_matched-balance (some handle) s session =
      end_request-balance (get handle s.requests) s handle session refl

  pub resolve_consent_no_picker-balance :
      (s : PortalLedger) (session : String)
      → balance link (resolve_consent_no_picker s session) ≤ balance link s
  unfolding resolve_consent_no_picker
  resolve_consent_no_picker-balance s session =
      end_matched-balance (find_handle (is_open session) s.requests) s session
