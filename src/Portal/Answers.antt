-- ===== src/Portal/Answers.antt =====
-- The answers to screenshot prompts and file choosers in portal/service.rs.
use Prim.Native.String.{String}
use veshell.Base.{
  ℕ, Bool, true, false, List, [], ◌∷◌, Option, none, some, ◌&&◌, ◌==◌, if◌then◌else◌,
}
use veshell.Portal.Types.{
  OwnedValues, nil, cons, str, f64, structure, array, PortalDict, PortalReply, response_ok,
  starts_with, failed, cancelled,
}
use veshell.Portal.Ledger.{
  CaptureKind, screen, color, ScreenshotConsent, ScreenshotCapture, ScreenshotEntry,
  FileChooserEntry, unexport_request, PortalLedger, get, send, act, put_screenshot, drop_screenshot,
  drop_file_chooser,
}
use veshell.Portal.Decisions.{ConsentOutcome, approved, cancelled_flow, find_handle}

abbrev pub has_prompt : ℕ → ScreenshotEntry → Bool
has_prompt token entry = by_consent entry.consent
  where
    by_consent : Option ScreenshotConsent → Bool
    by_consent none = false
    by_consent (some consent) = consent.consent_token == token

abbrev pub decide_prompt :
    Option ScreenshotConsent
    → PortalLedger
    → String
    → ConsentOutcome
    → Option (String × CaptureKind) × PortalLedger
decide_prompt none s handle outcome = (none, s)
decide_prompt (some consent) s handle approved = (
  some (handle, consent.kind),
  put_screenshot handle
      (record {
        consent = none;
        capture = some (record {
          consent_token = consent.consent_token;
          kind = consent.kind;
          reply = consent.reply;
        });
      })
      s,
)
decide_prompt (some consent) s handle cancelled_flow =
    (none, drop_screenshot handle (send consent.reply cancelled s))

abbrev pub decide_entry :
    Option ScreenshotEntry
    → PortalLedger
    → String
    → ConsentOutcome
    → Option (String × CaptureKind) × PortalLedger
decide_entry none s handle outcome = (none, s)
decide_entry (some entry) s handle outcome = decide_prompt entry.consent s handle outcome

abbrev pub decide_screenshot :
    Option String → PortalLedger → ConsentOutcome → Option (String × CaptureKind) × PortalLedger
decide_screenshot none s outcome = (none, s)
decide_screenshot (some handle) s outcome = decide_entry (get handle s.screenshots) s handle outcome

-- The request and the kind to capture, where the user approved.
unfoldable pub resolve_screenshot_consent :
    PortalLedger → ℕ → ConsentOutcome → Option (String × CaptureKind) × PortalLedger
unfolding get find_handle
resolve_screenshot_consent s token outcome =
    decide_screenshot (find_handle (has_prompt token) s.screenshots) s outcome

abbrev pub is_kind : CaptureKind → CaptureKind → Bool
is_kind screen screen = true
is_kind screen color = false
is_kind color screen = false
is_kind color color = true

abbrev pub is_capture : ℕ → CaptureKind → ScreenshotCapture → Bool
is_capture token kind capture = capture.consent_token == token && is_kind capture.kind kind

abbrev pub finish_capture :
    Option ScreenshotCapture → PortalLedger → String → ℕ → CaptureKind → PortalReply → PortalLedger
finish_capture none s handle token kind response = s
finish_capture (some capture) s handle token kind response =
    if is_capture token kind capture
    then send capture.reply response (act (unexport_request handle) (drop_screenshot handle s))
    else s

abbrev pub finish_entry :
    Option ScreenshotEntry → PortalLedger → String → ℕ → CaptureKind → PortalReply → PortalLedger
finish_entry none s handle token kind response = s
finish_entry (some entry) s handle token kind response =
    finish_capture entry.capture s handle token kind response

-- A capture's outcome: the file's URI or an error, three channels of a color or nothing.
pub data PortalCaptureOutcome : Type 0 where
  screenshot_taken : Option String → PortalCaptureOutcome
  color_sampled : Option (ℕ × (ℕ × ℕ)) → PortalCaptureOutcome

abbrev pub outcome_kind : PortalCaptureOutcome → CaptureKind
outcome_kind (screenshot_taken result) = screen
outcome_kind (color_sampled sample) = color

abbrev pub outcome_reply : PortalCaptureOutcome → PortalReply
outcome_reply (screenshot_taken (some uri)) = record {
  response = response_ok;
  results = ("uri", str uri) ∷ [];
}
outcome_reply (screenshot_taken none) = failed "the screenshot could not be taken"
outcome_reply (color_sampled (some (red, (green, blue)))) = record {
  response = response_ok;
  results = ("color", structure (cons (f64 red) (cons (f64 green) (cons (f64 blue) nil)))) ∷ [];
}
outcome_reply (color_sampled none) = failed "the color could not be sampled"

unfoldable pub handle_portal_capture_outcome :
    PortalLedger → String → ℕ → PortalCaptureOutcome → PortalLedger
unfolding get
handle_portal_capture_outcome s handle token outcome =
    finish_entry (get handle s.screenshots) s handle token (outcome_kind outcome)
      (outcome_reply outcome)

abbrev pub is_chooser : ℕ → FileChooserEntry → Bool
is_chooser token entry = entry.consent_token == token

abbrev all_file_uris : List String → Bool
all_file_uris [] = true
all_file_uris (uri ∷ uris) = starts_with uri "file://" && all_file_uris uris

abbrev strings : List String → OwnedValues
strings [] = nil
strings (s ∷ ss) = cons (str s) (strings ss)

unfoldable pub file_chooser_results : List String → Option PortalDict
file_chooser_results [] = none
file_chooser_results (uri ∷ uris) =
    if all_file_uris (uri ∷ uris) then some (("uris", array (strings (uri ∷ uris))) ∷ []) else none

abbrev selection_reply : Option PortalDict → PortalReply
selection_reply none = failed "no valid file selection"
selection_reply (some results) = record { response = response_ok; results = results }

abbrev pub chooser_reply : ConsentOutcome → List String → PortalReply
chooser_reply approved uris = selection_reply (file_chooser_results uris)
chooser_reply cancelled_flow uris = cancelled

abbrev pub answer_chooser :
    Option FileChooserEntry → PortalLedger → String → PortalReply → PortalLedger
answer_chooser none s handle response = s
answer_chooser (some entry) s handle response =
    act (unexport_request handle) (send entry.reply response (drop_file_chooser handle s))

abbrev pub answer_found : Option String → PortalLedger → PortalReply → PortalLedger
answer_found none s response = s
answer_found (some handle) s response =
    answer_chooser (get handle s.file_choosers) s handle response

unfoldable pub handle_file_chooser_decision :
    PortalLedger → ℕ → ConsentOutcome → List String → PortalLedger
unfolding get find_handle file_chooser_results
handle_file_chooser_decision s token outcome uris =
    answer_found (find_handle (is_chooser token) s.file_choosers) s (chooser_reply outcome uris)
