-- ===== src/Portal/Ending.antt =====
-- What the ends of requests and sessions do to the reply links.
use Prim.Native.String.{String}
use veshell.Base.{
  ℕ, ◌≡◌, ◌∙◌, refl, ap, arith, true, List, [], ◌∷◌, Option, none, some, Bool-cases, inl, inr,
}
use veshell.Portal.Types.{ok, failed, contains}
use veshell.Portal.Ledger.{
  PortalSession, PendingRequest, ScreenshotEntry, FileChooserEntry, PortalLedger, get, drop_session,
  put_request, drop_request, drop_screenshot, drop_file_chooser, close_session_actions,
  cancel_pending_start,
}
use veshell.Portal.Balance.{
  weigh, is_link, of_session, of_request, of_screenshot, of_chooser, balance,
}
use veshell.Portal.Links.{
  balance-send, balance-put_request, balance-drop_session, balance-drop_request,
  balance-drop_screenshot, balance-drop_file_chooser, balance-cancel_pending_start,
  balance-cancel_open, balance-cancel_prompt, balance-cancel_capture, balance-cancel_chooser,
}
use veshell.Portal.Closing.{
  cancel_open, cancel_consent, close_found, close_each, close_requests_for_session, handles_of,
  cancel_prompt, cancel_capture, cancel_chooser,
}
use veshell.Portal.Calls.{
  close_found_session, close_chooser, close_screenshot, close_request, on_request_close,
}
use veshell.Portal.Kept.{Takes}

module _ (link : ℕ) where
  close_found-balance :
      (found : Option PendingRequest) (handle : String) (s : PortalLedger)
      → get handle s.requests ≡ found
      → balance link (close_found found handle s) ≡ balance link s
  unfolding balance is_link
  close_found-balance none handle s h = refl
  close_found-balance (some request) handle s h =
      let was = ap (weigh (of_request link)) h in
      omega (
        arith,
        balance-cancel_open link request.consent (drop_request handle s),
        balance-drop_request link handle s,
        was,
      )

  close_each-balance :
      (handles : List String) (s : PortalLedger)
      → balance link (close_each handles s) ≡ balance link s
  unfolding close_each
  close_each-balance [] s = refl
  close_each-balance (handle ∷ handles) s =
      close_each-balance handles (close_found (get handle s.requests) handle s)
      ∙ close_found-balance (get handle s.requests) handle s refl

  close_found_session-balance :
      (found : Option PortalSession) (handle : String) (s : PortalLedger)
      → get handle s.sessions ≡ found
      → balance link (close_found_session found handle s) ≡ balance link s
  unfolding close_requests_for_session close_session_actions balance is_link
  close_found_session-balance none handle s h = refl
  close_found_session-balance (some session) handle s h =
      let was = ap (weigh (of_session link)) h in
      let dropped = drop_session handle s in
      let answered = cancel_pending_start session.pending_start dropped in
      let ended = close_session_actions handle answered in
      omega (
        arith,
        close_each-balance (handles_of handle ended.requests) ended,
        balance-cancel_pending_start link session.pending_start dropped,
        balance-drop_session link handle s,
        was,
      )

  close_chooser-Takes :
      (found : Option FileChooserEntry) (s : PortalLedger) (reply : ℕ) (handle : String)
      → get handle s.file_choosers ≡ found
      → Takes link reply s (close_chooser found s reply handle)
  unfolding balance is_link
  close_chooser-Takes none s reply handle h = balance-send link reply (failed "") s
  close_chooser-Takes (some entry) s reply handle h =
      let was = ap (weigh (of_chooser link)) h in
      let dropped = drop_file_chooser handle s in
      omega (
        arith,
        balance-send link reply ok (cancel_chooser entry dropped),
        balance-cancel_chooser link entry dropped,
        balance-drop_file_chooser link handle s,
        was,
      )

  close_screenshot-Takes :
      (found : Option ScreenshotEntry) (s : PortalLedger) (reply : ℕ) (handle : String)
      → get handle s.screenshots ≡ found
      → Takes link reply s (close_screenshot found s reply handle)
  unfolding balance is_link
  close_screenshot-Takes none s reply handle h =
      close_chooser-Takes (get handle s.file_choosers) s reply handle refl
  close_screenshot-Takes (some entry) s reply handle h =
      let was = ap (weigh (of_screenshot link)) h in
      let dropped = drop_screenshot handle s in
      let prompted = cancel_prompt entry.consent dropped in
      omega (
        arith,
        balance-send link reply ok (cancel_capture entry.capture prompted),
        balance-cancel_capture link entry.capture prompted,
        balance-cancel_prompt link entry.consent dropped,
        balance-drop_screenshot link handle s,
        was,
      )

  close_request-Takes :
      (found : Option PendingRequest) (s : PortalLedger) (reply : ℕ) (handle : String)
      → get handle s.requests ≡ found
      → Takes link reply s (close_request found s reply handle)
  unfolding cancel_consent
  close_request-Takes none s reply handle h =
      close_screenshot-Takes (get handle s.screenshots) s reply handle refl
  close_request-Takes (some request) s reply handle h =
      let was = ap (weigh (of_request link)) h in
      let closed = record request { cancelled = true; consent = none } in
      let put = put_request handle closed s in
      omega (
        arith,
        balance-send link reply ok (cancel_open request.consent put),
        balance-cancel_open link request.consent put,
        balance-put_request link handle closed s,
        was,
      )

  pub on_request_close-Takes :
      (s : PortalLedger) (reply : ℕ) (handle : String)
      → Takes link reply s (on_request_close s reply handle)
  unfolding on_request_close
  on_request_close-Takes s reply handle = elim (Bool-cases (contains handle "/session/")) [
    | inl e ↦
        let ended = close_found_session (get handle s.sessions) handle s in
        rw e omega (
          arith,
          balance-send link reply ok ended,
          close_found_session-balance (get handle s.sessions) handle s refl,
        )
    | inr e ↦ rw e (close_request-Takes (get handle s.requests) s reply handle refl)
  ]
