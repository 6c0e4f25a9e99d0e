-- ===== src/Portal/Balance.antt =====
-- What a ledger owes: the reply links it holds, counted with the answers it gave.
use Prim.Native.String.{String}
use veshell.Base.{
  ℕ, ◌+◌, ◌≡◌, refl, arith, Bool, true, false, List, [], ◌∷◌, Option, none, some, ◌==◌,
  if◌then◌else◌,
}
use veshell.Portal.Types.{PortalReply, text_eq}
use veshell.Portal.Ledger.{
  PortalSession, PendingRequest, ConsentRequest, ScreenshotEntry, ScreenshotConsent,
  ScreenshotCapture, FileChooserEntry, PortalLedger, get, remove,
}

module _ {ℓ} {A : Type ℓ} (weight : A → ℕ) where
  -- The weight of a map's entries.
  unfoldable pub total : List (String × A) → ℕ
  total [] = 0
  total ((key, a) ∷ es) = weight a + total es

  abbrev pub weigh : Option A → ℕ
  weigh none = 0
  weigh (some a) = weight a

-- Taking an entry out of a map takes its weight.
pub total-remove :
    {A : Type 0} (weight : A → ℕ) (key : String) (es : List (String × A))
    → weigh weight (get key es) + total weight (remove key es) ≡ total weight es
unfolding total get remove
total-remove weight key [] = refl
total-remove {A} weight key ((k, a) ∷ es) = split (total-remove weight key es) (text_eq k key)
  where
    split :
        weigh weight (get key es) + total weight (remove key es) ≡ total weight es
        → (b : Bool)
        → weigh weight (if b then some a else get key es)
            + total weight (if b then es else (k, a) ∷ remove key es)
          ≡ weight a + total weight es
    split ih true = refl
    split ih false = omega (arith, ih)

-- Whether a link is the one that is counted.
unfoldable pub is_link : ℕ → ℕ → ℕ
is_link link reply = if reply == link then 1 else 0

abbrev pub of_link : ℕ → Option ℕ → ℕ
of_link link none = 0
of_link link (some reply) = is_link link reply

abbrev pub of_consent : ℕ → Option ConsentRequest → ℕ
of_consent link none = 0
of_consent link (some consent) = is_link link consent.reply

abbrev pub of_prompt : ℕ → Option ScreenshotConsent → ℕ
of_prompt link none = 0
of_prompt link (some consent) = is_link link consent.reply

abbrev pub of_capture : ℕ → Option ScreenshotCapture → ℕ
of_capture link none = 0
of_capture link (some capture) = is_link link capture.reply

abbrev pub of_session : ℕ → PortalSession → ℕ
of_session link session = of_link link session.pending_start

abbrev pub of_request : ℕ → PendingRequest → ℕ
of_request link request = of_consent link request.consent

abbrev pub of_screenshot : ℕ → ScreenshotEntry → ℕ
of_screenshot link entry = of_prompt link entry.consent + of_capture link entry.capture

abbrev pub of_chooser : ℕ → FileChooserEntry → ℕ
of_chooser link entry = is_link link entry.reply

unfoldable pub tally : ℕ → List (ℕ × PortalReply) → ℕ
tally link [] = 0
tally link ((reply, response) ∷ replies) = is_link link reply + tally link replies

-- How often a link was answered.
unfoldable pub answered : ℕ → PortalLedger → ℕ
unfolding tally
answered link s = tally link s.replies

-- How often the ledger holds a link.
unfoldable pub held : ℕ → PortalLedger → ℕ
unfolding total
held link s =
    total (of_session link) s.sessions
    + total (of_request link) s.requests
    + total (of_screenshot link) s.screenshots
    + total (of_chooser link) s.file_choosers

-- The answers and the links held.
unfoldable pub balance : ℕ → PortalLedger → ℕ
unfolding held answered
balance link s = held link s + answered link s
