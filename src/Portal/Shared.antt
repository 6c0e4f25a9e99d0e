-- ===== src/Portal/Shared.antt =====
-- What happens to the reply links where a shared session begins or ends.
use Prim.Native.String.{String}
use veshell.Base.{
  ℕ, ◌≡◌, ◌≤◌, ◌∙◌, refl, ap, arith, Bool, true, false, List, [], ◌∷◌, Option, none, some,
  Bool-cases, inl, inr,
}
use veshell.Portal.Types.{text_eq}
use veshell.Portal.Ledger.{
  PortalSession, PendingRequest, PortalLedger, unexport_request, get, act, close_session_actions,
  cancel_pending_start,
}
use veshell.Portal.Balance.{total, weigh, is_link, of_session, of_request, held, answered, balance}
use veshell.Portal.Links.{balance-drop_session, balance-cancel_pending_start}
use veshell.Portal.Closing.{handles_of}
use veshell.Portal.Decisions.{
  ConsentOutcome, approved, cancelled_flow, ConsentResolution, resolve_consent,
}
use veshell.Portal.Ledger.{CaptureSource}
use veshell.Portal.Streams.{
  Desktop, PortalState, retain_others, unexport_each, end_shared, retain_requests,
  close_shared_ledger, close_shared_session, stop_capture_side,
}
use veshell.Portal.Grants.{mint_restore_token}
use veshell.Portal.Sharing.{
  begin_at, begin_shared_stream, grant_for, share, after_approval, approve_source, shareable,
  consent_app_id, cursor_of, wants_grant, types_of, handle_consent_decision,
}
use veshell.Portal.Decisions.{applied, dead_end, not_matched}
use veshell.Portal.Decided.{resolve_consent-balance}

module _ (link : ℕ) where
  -- Nothing is answered or held more often than before.
  abbrev pub NoMore : PortalLedger → PortalLedger → Type 0
  NoMore s after = balance link after ≤ balance link s

  retain_others-le :
      (session : String) (es : List (String × PendingRequest))
      → total (of_request link) (retain_others session es) ≤ total (of_request link) es
  unfolding retain_others total
  retain_others-le session [] = omega arith
  retain_others-le session ((handle, request) ∷ es) =
      let ih = retain_others-le session es in
      elim (Bool-cases (text_eq request.session_handle session)) [
        | inl e ↦ rw e omega (arith, ih)
        | inr e ↦ rw e omega (arith, ih)
      ]

  unexported :
      (handle : String) (s : PortalLedger)
      → balance link (act (unexport_request handle) s) ≡ balance link s
  unfolding balance
  unexported handle s = refl

  unexport_each-balance :
      (handles : List String) (s : PortalLedger)
      → balance link (unexport_each handles s) ≡ balance link s
  unexport_each-balance [] s = refl
  unexport_each-balance (handle ∷ handles) s =
      unexport_each-balance handles (act (unexport_request handle) s) ∙ unexported handle s

  retain_requests-NoMore :
      (session : String) (s : PortalLedger) → NoMore s (retain_requests session s)
  unfolding balance held answered
  retain_requests-NoMore session s = omega (arith, retain_others-le session s.requests)

  told_sessions :
      (pending : Option ℕ) (s : PortalLedger)
      → (cancel_pending_start pending s).sessions ≡ s.sessions
  told_sessions none s = refl
  told_sessions (some reply) s = refl

  end_shared-NoMore :
      (found : Option PortalSession) (session : String) (s : PortalLedger)
      → get session s.sessions ≡ found
      → NoMore s (end_shared found session s)
  unfolding balance is_link close_session_actions
  end_shared-NoMore none session s h = omega arith
  end_shared-NoMore (some found) session s h =
      let was = ap (weigh (of_session link)) h in
      let told = cancel_pending_start found.pending_start s in
      let same = told_sessions found.pending_start s in
      omega (
        arith,
        balance-drop_session link session told,
        balance-cancel_pending_start link found.pending_start s,
        ap (λ es. weigh (of_session link) (get session es)) same,
        was,
      )

  pub close_shared_ledger-NoMore :
      (s : PortalLedger) (session : String) → NoMore s (close_shared_ledger s session)
  unfolding close_shared_ledger
  close_shared_ledger-NoMore s session =
      let ended = end_shared (get session s.sessions) session s in
      omega (
        arith,
        unexport_each-balance (handles_of session ended.requests) (retain_requests session ended),
        retain_requests-NoMore session ended,
        end_shared-NoMore (get session s.sessions) session s refl,
      )

  pub close_shared_session-NoMore :
      (p : PortalState) (session : String) → NoMore p.ledger (close_shared_session p session).ledger
  unfolding close_shared_session stop_capture_side
  close_shared_session-NoMore p session = close_shared_ledger-NoMore p.ledger session

  begin_at-NoMore :
      (target : Option ((ℕ × ℕ) × (ℕ × ℕ))) (producer : Bool) (p : PortalState) (session : String)
      (source : CaptureSource) (restore_token : Option String) (app_id : String) (cursor_mode : ℕ)
      → NoMore p.ledger
          (begin_at target producer p session source restore_token app_id cursor_mode).ledger
  begin_at-NoMore none producer p session source restore_token app_id cursor_mode =
      close_shared_session-NoMore p session
  begin_at-NoMore (some target) true p session source restore_token app_id cursor_mode = omega arith
  begin_at-NoMore (some target) false p session source restore_token app_id cursor_mode =
      close_shared_session-NoMore p session

  grant_for-NoMore :
      (wanted : Bool) (owner : Option String) (d : Desktop) (s : PortalLedger)
      (source : CaptureSource)
      → NoMore s (grant_for wanted owner d s source).1
  unfolding balance held answered mint_restore_token
  grant_for-NoMore false owner d s source = omega arith
  grant_for-NoMore true none d s source = omega arith
  grant_for-NoMore true (some owner) d s source = omega arith

  share-NoMore :
      (granted : Option String × PortalLedger) (d : Desktop) (p : PortalState) (session : String)
      (source : CaptureSource) (app_id : String) (cursor_mode : ℕ)
      → NoMore granted.1 (share granted d p session source app_id cursor_mode).ledger
  unfolding begin_shared_stream
  share-NoMore (restore_token, s) d p session source app_id cursor_mode =
      begin_at-NoMore (d.target_of source) d.producer (record p { ledger = s }) session source
        restore_token app_id cursor_mode

  after_approval-NoMore :
      (answer : ConsentResolution × PortalLedger) (d : Desktop) (p : PortalState) (session : String)
      (source : CaptureSource) (app_id : String) (cursor_mode : ℕ)
      → NoMore answer.1 (after_approval answer d p session source app_id cursor_mode).ledger
  after_approval-NoMore (applied, s) d p session source app_id cursor_mode =
      let wanted = wants_grant (get session s.sessions) in
      let granted = grant_for wanted s.frontend d s source in
      omega (
        arith,
        share-NoMore granted d p session source app_id cursor_mode,
        grant_for-NoMore wanted s.frontend d s source,
      )
  after_approval-NoMore (dead_end, s) d p session source app_id cursor_mode = omega arith
  after_approval-NoMore (not_matched, s) d p session source app_id cursor_mode = omega arith

  approve_source-NoMore :
      (source : Option CaptureSource) (d : Desktop) (p : PortalState) (session : String) (token : ℕ)
      → NoMore p.ledger (approve_source source d p session token).ledger
  approve_source-NoMore none d p session token = close_shared_session-NoMore p session
  approve_source-NoMore (some source) d p session token =
      let answer = resolve_consent p.ledger session token approved in
      let app_id = consent_app_id p.ledger.requests session token in
      let cursor_mode = cursor_of (get session p.ledger.sessions) in
      omega (
        arith,
        after_approval-NoMore answer d p session source app_id cursor_mode,
        resolve_consent-balance link p.ledger session token approved,
      )

  pub handle_consent_decision-NoMore :
      (d : Desktop) (p : PortalState) (session : String) (token : ℕ) (outcome : ConsentOutcome)
      (source : Option String)
      → NoMore p.ledger (handle_consent_decision d p session token outcome source).ledger
  unfolding handle_consent_decision
  handle_consent_decision-NoMore d p session token approved source =
      approve_source-NoMore (shareable d (types_of (get session p.ledger.sessions)) source) d p
        session token
  handle_consent_decision-NoMore d p session token cancelled_flow source =
      resolve_consent-balance link p.ledger session token cancelled_flow
