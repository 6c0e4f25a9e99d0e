-- ===== src/Portal/Answered.antt =====
-- What the answers to prompts and choosers do to the reply links.
use Prim.Native.String.{String}
use veshell.Base.{ℕ, ◌≡◌, ◌≤◌, refl, ap, arith, List, Option, none, some, Bool-cases, inl, inr}
use veshell.Portal.Types.{PortalReply, cancelled}
use veshell.Portal.Ledger.{
  ScreenshotEntry, FileChooserEntry, PortalLedger, CaptureKind, unexport_request, get, send, act,
  drop_screenshot, drop_file_chooser,
}
use veshell.Portal.Balance.{
  weigh, is_link, of_prompt, of_capture, of_screenshot, of_chooser, balance,
}
use veshell.Portal.Links.{
  balance-put_screenshot, balance-send, balance-drop_screenshot, balance-drop_file_chooser,
}
use veshell.Portal.Ledger.{CaptureKind, ScreenshotConsent, ScreenshotCapture}
use veshell.Portal.Decisions.{ConsentOutcome, approved, cancelled_flow, find_handle}
use veshell.Portal.Answers.{
  decide_prompt, decide_entry, decide_screenshot, resolve_screenshot_consent, has_prompt,
  finish_capture, finish_entry, handle_portal_capture_outcome, PortalCaptureOutcome, outcome_kind,
  outcome_reply, is_capture, answer_chooser, answer_found, handle_file_chooser_decision, is_chooser,
  chooser_reply,
}

module _ (link : ℕ) where
  decide_prompt-balance :
      (consent : Option ScreenshotConsent) (s : PortalLedger) (handle : String)
      (outcome : ConsentOutcome)
      → of_prompt link consent ≤ weigh (of_screenshot link) (get handle s.screenshots)
      → balance link (decide_prompt consent s handle outcome).1 ≤ balance link s
  unfolding balance is_link
  decide_prompt-balance none s handle outcome h = omega arith
  decide_prompt-balance (some consent) s handle approved h = omega (
    arith,
    balance-put_screenshot link handle
        (record {
          consent = none;
          capture = some (record {
            consent_token = consent.consent_token;
            kind = consent.kind;
            reply = consent.reply;
          });
        })
        s,
    h,
  )
  decide_prompt-balance (some consent) s handle cancelled_flow h =
      let answered = send consent.reply cancelled s in
      omega (
        arith,
        balance-drop_screenshot link handle answered,
        balance-send link consent.reply cancelled s,
        h,
      )

  decide_entry-balance :
      (found : Option ScreenshotEntry) (s : PortalLedger) (handle : String)
      (outcome : ConsentOutcome)
      → get handle s.screenshots ≡ found
      → balance link (decide_entry found s handle outcome).1 ≤ balance link s
  decide_entry-balance none s handle outcome h = omega arith
  decide_entry-balance (some entry) s handle outcome h =
      let was = ap (weigh (of_screenshot link)) h in
      decide_prompt-balance entry.consent s handle outcome (omega (arith, was))

  decide_screenshot-balance :
      (matched : Option String) (s : PortalLedger) (outcome : ConsentOutcome)
      → balance link (decide_screenshot matched s outcome).1 ≤ balance link s
  decide_screenshot-balance none s outcome = omega arith
  decide_screenshot-balance (some handle) s outcome =
      decide_entry-balance (get handle s.screenshots) s handle outcome refl

  pub resolve_screenshot_consent-balance :
      (s : PortalLedger) (token : ℕ) (outcome : ConsentOutcome)
      → balance link (resolve_screenshot_consent s token outcome).1 ≤ balance link s
  unfolding resolve_screenshot_consent
  resolve_screenshot_consent-balance s token outcome =
      decide_screenshot-balance (find_handle (has_prompt token) s.screenshots) s outcome

  finish_capture-balance :
      (capture : Option ScreenshotCapture) (s : PortalLedger) (handle : String) (token : ℕ)
      (kind : CaptureKind) (response : PortalReply)
      → of_capture link capture ≤ weigh (of_screenshot link) (get handle s.screenshots)
      → balance link (finish_capture capture s handle token kind response) ≤ balance link s
  unfolding balance is_link
  finish_capture-balance none s handle token kind response h = omega arith
  finish_capture-balance (some capture) s handle token kind response h =
      elim (Bool-cases (is_capture token kind capture)) [
        | inl e ↦
            let dropped = act (unexport_request handle) (drop_screenshot handle s) in
            rw e omega (
              arith,
              balance-send link capture.reply response dropped,
              balance-drop_screenshot link handle s,
              h,
            )
        | inr e ↦ rw e omega arith
      ]

  finish_entry-balance :
      (found : Option ScreenshotEntry) (s : PortalLedger) (handle : String) (token : ℕ)
      (kind : CaptureKind) (response : PortalReply)
      → get handle s.screenshots ≡ found
      → balance link (finish_entry found s handle token kind response) ≤ balance link s
  finish_entry-balance none s handle token kind response h = omega arith
  finish_entry-balance (some entry) s handle token kind response h =
      let was = ap (weigh (of_screenshot link)) h in
      finish_capture-balance entry.capture s handle token kind response (omega (arith, was))

  pub handle_portal_capture_outcome-balance :
      (s : PortalLedger) (handle : String) (token : ℕ) (outcome : PortalCaptureOutcome)
      → balance link (handle_portal_capture_outcome s handle token outcome) ≤ balance link s
  unfolding handle_portal_capture_outcome
  handle_portal_capture_outcome-balance s handle token outcome =
      finish_entry-balance (get handle s.screenshots) s handle token (outcome_kind outcome)
        (outcome_reply outcome) refl

  answer_chooser-balance :
      (found : Option FileChooserEntry) (s : PortalLedger) (handle : String)
      (response : PortalReply)
      → get handle s.file_choosers ≡ found
      → balance link (answer_chooser found s handle response) ≤ balance link s
  unfolding balance is_link
  answer_chooser-balance none s handle response h = omega arith
  answer_chooser-balance (some entry) s handle response h =
      let was = ap (weigh (of_chooser link)) h in
      let dropped = drop_file_chooser handle s in
      omega (
        arith,
        balance-send link entry.reply response dropped,
        balance-drop_file_chooser link handle s,
        was,
      )

  answer_found-balance :
      (matched : Option String) (s : PortalLedger) (response : PortalReply)
      → balance link (answer_found matched s response) ≤ balance link s
  answer_found-balance none s response = omega arith
  answer_found-balance (some handle) s response =
      answer_chooser-balance (get handle s.file_choosers) s handle response refl

  pub handle_file_chooser_decision-balance :
      (s : PortalLedger) (token : ℕ) (outcome : ConsentOutcome) (uris : List String)
      → balance link (handle_file_chooser_decision s token outcome uris) ≤ balance link s
  unfolding handle_file_chooser_decision
  handle_file_chooser_decision-balance s token outcome uris =
      answer_found-balance (find_handle (is_chooser token) s.file_choosers) s
        (chooser_reply outcome uris)
