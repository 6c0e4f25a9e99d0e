-- ===== src/Portal/Sweeps.antt =====
-- What a change of the frontend does to the ledger.
use Prim.Native.String.{String}
use veshell.Base.{ℕ, ◌+◌, ◌≡◌, ◌∙◌, refl, arith, List, [], ◌∷◌, Option, none, some}
use veshell.Portal.Ledger.{
  PortalSession, PendingRequest, ConsentRequest, ScreenshotEntry, ScreenshotConsent,
  ScreenshotCapture, FileChooserEntry, RestoreGrant, PortalLedger, close_session_actions,
  cancel_pending_start,
}
use veshell.Portal.Closing.{
  for_each, dismiss_consent, refuse_consent, cancel_prompt, cancel_capture, dismiss_request,
  refuse_request, unexport, cancel_screenshot, cancel_file_chooser, end_one_session, requests_swept,
  screenshots_swept, choosers_swept,
}
use veshell.Portal.Balance.{
  total, of_link, of_consent, of_prompt, of_capture, of_session, of_request, of_screenshot,
  of_chooser, tally, answered,
}

-- Everything of a ledger but what it sent.
pub record Maps : Type 0 where
  pub sessions : List (String × PortalSession)
  pub requests : List (String × PendingRequest)
  pub screenshots : List (String × ScreenshotEntry)
  pub file_choosers : List (String × FileChooserEntry)
  pub frontend : Option String
  pub restores : List (String × RestoreGrant)

abbrev pub maps : PortalLedger → Maps
maps s = record {
  sessions = s.sessions;
  requests = s.requests;
  screenshots = s.screenshots;
  file_choosers = s.file_choosers;
  frontend = s.frontend;
  restores = s.restores;
}

module _ (link : ℕ) where
  -- A ledger that keeps another's maps and has answered the link so often more.
  abbrev pub Sends : ℕ → PortalLedger → PortalLedger → Type 0
  Sends count s after = (maps after ≡ maps s) × (answered link after ≡ count + answered link s)

  for_each-Sends :
      {A : Type 0} (weight : A → ℕ) (visit : String → A → PortalLedger → PortalLedger)
      → ((handle : String) (a : A) (s : PortalLedger) → Sends (weight a) s (visit handle a s))
      → (es : List (String × A)) (s : PortalLedger)
      → Sends (total weight es) s (for_each visit es s)
  unfolding for_each total
  for_each-Sends weight visit each [] s = (refl, omega arith)
  for_each-Sends weight visit each ((handle, a) ∷ es) s =
      let one = each handle a s in
      let rest = for_each-Sends weight visit each es (visit handle a s) in
      (rest.0 ∙ one.0, omega (arith, one.1, rest.1))

  unexport-Sends :
      {A : Type 0} (handle : String) (a : A) (s : PortalLedger) → Sends 0 s (unexport handle a s)
  unfolding answered
  unexport-Sends handle a s = (refl, omega arith)

  dismiss_consent-Sends :
      (consent : Option ConsentRequest) (s : PortalLedger) → Sends 0 s (dismiss_consent consent s)
  unfolding answered
  dismiss_consent-Sends none s = (refl, omega arith)
  dismiss_consent-Sends (some consent) s = (refl, omega arith)

  refuse_consent-Sends :
      (consent : Option ConsentRequest) (s : PortalLedger)
      → Sends (of_consent link consent) s (refuse_consent consent s)
  unfolding answered tally
  refuse_consent-Sends none s = (refl, omega arith)
  refuse_consent-Sends (some consent) s = (refl, refl)

  cancel_prompt-Sends :
      (prompt : Option ScreenshotConsent) (s : PortalLedger)
      → Sends (of_prompt link prompt) s (cancel_prompt prompt s)
  unfolding answered tally
  cancel_prompt-Sends none s = (refl, omega arith)
  cancel_prompt-Sends (some consent) s = (refl, refl)

  cancel_capture-Sends :
      (capture : Option ScreenshotCapture) (s : PortalLedger)
      → Sends (of_capture link capture) s (cancel_capture capture s)
  unfolding answered tally
  cancel_capture-Sends none s = (refl, omega arith)
  cancel_capture-Sends (some capture) s = (refl, refl)

  cancel_pending_start-Sends :
      (pending : Option ℕ) (s : PortalLedger)
      → Sends (of_link link pending) s (cancel_pending_start pending s)
  unfolding answered tally
  cancel_pending_start-Sends none s = (refl, omega arith)
  cancel_pending_start-Sends (some reply) s = (refl, refl)

  cancel_screenshot-Sends :
      (handle : String) (entry : ScreenshotEntry) (s : PortalLedger)
      → Sends (of_screenshot link entry) s (cancel_screenshot handle entry s)
  cancel_screenshot-Sends handle entry s =
      let prompted = cancel_prompt-Sends entry.consent s in
      let captured = cancel_capture-Sends entry.capture (cancel_prompt entry.consent s) in
      (captured.0 ∙ prompted.0, omega (arith, prompted.1, captured.1))

  cancel_file_chooser-Sends :
      (handle : String) (entry : FileChooserEntry) (s : PortalLedger)
      → Sends (of_chooser link entry) s (cancel_file_chooser handle entry s)
  unfolding answered tally
  cancel_file_chooser-Sends handle entry s = (refl, refl)

  end_one_session-Sends :
      (handle : String) (session : PortalSession) (s : PortalLedger)
      → Sends (of_session link session) s (end_one_session handle session s)
  unfolding end_one_session close_session_actions answered
  end_one_session-Sends handle session s = cancel_pending_start-Sends session.pending_start s

  total-nothing : {A : Type 0} (es : List (String × A)) → total (λ a. 0) es ≡ 0
  unfolding total
  total-nothing [] = refl
  total-nothing ((handle, a) ∷ es) = omega (arith, total-nothing es)

  pub requests_swept-Sends :
      (s : PortalLedger) → Sends (total (of_request link) s.requests) s (requests_swept s)
  requests_swept-Sends s =
      let dismissed = for_each dismiss_request s.requests s in
      let refused = for_each refuse_request s.requests dismissed in
      let one =
        for_each-Sends (λ a. 0) dismiss_request
          (λ handle request. dismiss_consent-Sends request.consent) s.requests s in
      let two =
        for_each-Sends (of_request link) refuse_request
          (λ handle request. refuse_consent-Sends request.consent) s.requests dismissed in
      let three = for_each-Sends (λ a. 0) unexport unexport-Sends s.requests refused in
      (three.0 ∙ two.0 ∙ one.0, omega (arith, one.1, two.1, three.1, total-nothing s.requests))

  pub screenshots_swept-Sends :
      (s : PortalLedger) → Sends (total (of_screenshot link) s.screenshots) s (screenshots_swept s)
  screenshots_swept-Sends s =
      let refused = for_each cancel_screenshot s.screenshots s in
      let one =
        for_each-Sends (of_screenshot link) cancel_screenshot cancel_screenshot-Sends s.screenshots
          s in
      let two = for_each-Sends (λ a. 0) unexport unexport-Sends s.screenshots refused in
      (two.0 ∙ one.0, omega (arith, one.1, two.1, total-nothing s.screenshots))

  pub choosers_swept-Sends :
      (s : PortalLedger) → Sends (total (of_chooser link) s.file_choosers) s (choosers_swept s)
  choosers_swept-Sends s =
      let refused = for_each cancel_file_chooser s.file_choosers s in
      let one =
        for_each-Sends (of_chooser link) cancel_file_chooser cancel_file_chooser-Sends
          s.file_choosers s in
      let two = for_each-Sends (λ a. 0) unexport unexport-Sends s.file_choosers refused in
      (two.0 ∙ one.0, omega (arith, one.1, two.1, total-nothing s.file_choosers))

  pub sessions_swept-Sends :
      (s : PortalLedger)
      → Sends (total (of_session link) s.sessions) s (for_each end_one_session s.sessions s)
  sessions_swept-Sends s =
      for_each-Sends (of_session link) end_one_session end_one_session-Sends s.sessions s
