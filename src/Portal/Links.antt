-- ===== src/Portal/Links.antt =====
-- How the ledger's parts change what it owes.
use Prim.Native.String.{String}
use veshell.Base.{ℕ, ◌+◌, ◌≡◌, refl, arith, false, Option, none, some}
use veshell.Portal.Types.{PortalReply, is_some}
use veshell.Portal.Ledger.{
  PortalSession, PendingRequest, ConsentRequest, ScreenshotEntry, ScreenshotConsent,
  ScreenshotCapture, FileChooserEntry, PortalLedger, get, insert, send, put_session, drop_session,
  put_request, drop_request, put_screenshot, drop_screenshot, put_file_chooser, drop_file_chooser,
  cancel_pending_start,
}
use veshell.Portal.Closing.{cancel_open, cancel_prompt, cancel_capture, cancel_chooser}
use veshell.Portal.Balance.{
  total, weigh, total-remove, is_link, of_link, of_consent, of_prompt, of_capture, of_session,
  of_request, of_screenshot, of_chooser, tally, held, answered, balance,
}

pub weigh_absent :
    {A : Type 0} (weight : A → ℕ) (found : Option A)
    → is_some found ≡ false
    → weigh weight found ≡ 0
weigh_absent weight none h = refl
weigh_absent weight (some a) h = cc

module _ (link : ℕ) where
  pub balance-send :
      (reply : ℕ) (response : PortalReply) (s : PortalLedger)
      → balance link (send reply response s) ≡ is_link link reply + balance link s
  unfolding balance held answered tally
  balance-send reply response s = omega arith

  pub balance-put_session :
      (handle : String) (session : PortalSession) (s : PortalLedger)
      → weigh (of_session link) (get handle s.sessions)
          + balance link (put_session handle session s)
        ≡ of_session link session + balance link s
  unfolding balance held answered insert total
  balance-put_session handle session s =
      omega (arith, total-remove (of_session link) handle s.sessions)

  pub balance-drop_session :
      (handle : String) (s : PortalLedger)
      → weigh (of_session link) (get handle s.sessions) + balance link (drop_session handle s)
        ≡ balance link s
  unfolding balance held answered
  balance-drop_session handle s = omega (arith, total-remove (of_session link) handle s.sessions)

  pub balance-put_request :
      (handle : String) (request : PendingRequest) (s : PortalLedger)
      → weigh (of_request link) (get handle s.requests)
          + balance link (put_request handle request s)
        ≡ of_request link request + balance link s
  unfolding balance held answered insert total
  balance-put_request handle request s =
      omega (arith, total-remove (of_request link) handle s.requests)

  pub balance-drop_request :
      (handle : String) (s : PortalLedger)
      → weigh (of_request link) (get handle s.requests) + balance link (drop_request handle s)
        ≡ balance link s
  unfolding balance held answered
  balance-drop_request handle s = omega (arith, total-remove (of_request link) handle s.requests)

  pub balance-put_screenshot :
      (handle : String) (entry : ScreenshotEntry) (s : PortalLedger)
      → weigh (of_screenshot link) (get handle s.screenshots)
          + balance link (put_screenshot handle entry s)
        ≡ of_screenshot link entry + balance link s
  unfolding balance held answered insert total
  balance-put_screenshot handle entry s =
      omega (arith, total-remove (of_screenshot link) handle s.screenshots)

  pub balance-drop_screenshot :
      (handle : String) (s : PortalLedger)
      → weigh (of_screenshot link) (get handle s.screenshots)
          + balance link (drop_screenshot handle s)
        ≡ balance link s
  unfolding balance held answered
  balance-drop_screenshot handle s =
      omega (arith, total-remove (of_screenshot link) handle s.screenshots)

  pub balance-put_file_chooser :
      (handle : String) (entry : FileChooserEntry) (s : PortalLedger)
      → weigh (of_chooser link) (get handle s.file_choosers)
          + balance link (put_file_chooser handle entry s)
        ≡ of_chooser link entry + balance link s
  unfolding balance held answered insert total
  balance-put_file_chooser handle entry s =
      omega (arith, total-remove (of_chooser link) handle s.file_choosers)

  pub balance-drop_file_chooser :
      (handle : String) (s : PortalLedger)
      → weigh (of_chooser link) (get handle s.file_choosers)
          + balance link (drop_file_chooser handle s)
        ≡ balance link s
  unfolding balance held answered
  balance-drop_file_chooser handle s =
      omega (arith, total-remove (of_chooser link) handle s.file_choosers)

  pub balance-cancel_pending_start :
      (pending : Option ℕ) (s : PortalLedger)
      → balance link (cancel_pending_start pending s) ≡ of_link link pending + balance link s
  balance-cancel_pending_start none s = omega arith
  balance-cancel_pending_start (some reply) s = balance-send reply _ s

  pub balance-cancel_open :
      (picker : Option ConsentRequest) (s : PortalLedger)
      → balance link (cancel_open picker s) ≡ of_consent link picker + balance link s
  unfolding balance held answered tally
  balance-cancel_open none s = omega arith
  balance-cancel_open (some consent) s = omega arith

  pub balance-cancel_prompt :
      (prompt : Option ScreenshotConsent) (s : PortalLedger)
      → balance link (cancel_prompt prompt s) ≡ of_prompt link prompt + balance link s
  unfolding balance held answered tally
  balance-cancel_prompt none s = omega arith
  balance-cancel_prompt (some consent) s = omega arith

  pub balance-cancel_capture :
      (capture : Option ScreenshotCapture) (s : PortalLedger)
      → balance link (cancel_capture capture s) ≡ of_capture link capture + balance link s
  unfolding balance held answered tally
  balance-cancel_capture none s = omega arith
  balance-cancel_capture (some capture) s = omega arith

  pub balance-cancel_chooser :
      (entry : FileChooserEntry) (s : PortalLedger)
      → balance link (cancel_chooser entry s) ≡ of_chooser link entry + balance link s
  unfolding balance held answered tally
  balance-cancel_chooser entry s = omega arith
