-- ===== src/Portal/Ledger.antt =====
-- The ledger of portal/service.rs, with what it answered, handed to the object bridge and showed.
use Prim.Native.String.{String}
use veshell.Base.{ℕ, Bool, List, [], ◌∷◌, ◌+◌, ◌%◌, ◌^◌, Option, none, some, if◌then◌else◌}
use veshell.Portal.Types.{
  text_eq, PortalReply, cancelled, ScreenCastConstraints, FileChooserKind, FileChooserOptions,
}

pub data SessionState : Type 0 where
  created : SessionState
  configured : SessionState
  choosing : SessionState
  starting : SessionState
  active : SessionState
  closed : SessionState

pub record PortalSession : Type 0 where
  pub state : SessionState
  pub constraints : Option ScreenCastConstraints
  pub pending_start : Option ℕ

pub record ConsentRequest : Type 0 where
  pub consent_token : ℕ
  pub app_name : String
  pub reply : ℕ

pub record PendingRequest : Type 0 where
  pub session_handle : String
  pub cancelled : Bool
  pub consent : Option ConsentRequest

pub data CaptureKind : Type 0 where
  screen : CaptureKind
  color : CaptureKind

pub record ScreenshotConsent : Type 0 where
  pub consent_token : ℕ
  pub app_name : String
  pub kind : CaptureKind
  pub reply : ℕ

pub record ScreenshotCapture : Type 0 where
  pub consent_token : ℕ
  pub kind : CaptureKind
  pub reply : ℕ

pub record ScreenshotEntry : Type 0 where
  pub consent : Option ScreenshotConsent
  pub capture : Option ScreenshotCapture

pub record FileChooserEntry : Type 0 where
  pub consent_token : ℕ
  pub app_name : String
  pub kind : FileChooserKind
  pub reply : ℕ

pub data SourceKind : Type 0 where
  monitor_source : SourceKind
  window_source : SourceKind

pub record CaptureSource : Type 0 where
  pub id : String
  pub label : String
  pub kind : SourceKind

pub record RestoreGrant : Type 0 where
  pub owner : String
  pub source : CaptureSource

pub data PortalAction : Type 0 where
  export_session : String → PortalAction
  export_request : String → PortalAction
  close_session : String → PortalAction
  unexport_request : String → PortalAction
  unexport_session : String → PortalAction

pub data PortalUiEvent : Type 0 where
  -- the session, the request, the application, the token, the types and the preselected source
  open_picker : String → String → String → ℕ → ℕ → Option CaptureSource → PortalUiEvent
  dismiss_picker : ℕ → PortalUiEvent
  open_screenshot_prompt : String → String → CaptureKind → ℕ → PortalUiEvent
  -- the request, the application, its parent window, the title
  open_file_chooser :
      String → String → String → String → FileChooserKind → FileChooserOptions → ℕ → PortalUiEvent

-- `replies`, `actions` and `ui` are what was sent so far, newest first.
pub record PortalLedger : Type 0 where
  pub sessions : List (String × PortalSession)
  pub requests : List (String × PendingRequest)
  pub screenshots : List (String × ScreenshotEntry)
  pub file_choosers : List (String × FileChooserEntry)
  pub frontend : Option String
  pub next_consent_token : ℕ
  pub restores : List (String × RestoreGrant)
  pub replies : List (ℕ × PortalReply)
  pub actions : List PortalAction
  pub ui : List PortalUiEvent

abbrev pub no_ledger : PortalLedger
no_ledger = record {
  sessions = [];
  requests = [];
  screenshots = [];
  file_choosers = [];
  frontend = none;
  next_consent_token = 0;
  restores = [];
  replies = [];
  actions = [];
  ui = [];
}

-- A hash map is the list of its entries, one for each key, in the order of its iteration.
module _ {A : Type 0} where
  unfoldable pub get : String → List (String × A) → Option A
  get key [] = none
  get key ((k, a) ∷ es) = let rest = get key es in if text_eq k key then some a else rest

  unfoldable pub remove : String → List (String × A) → List (String × A)
  remove key [] = []
  remove key ((k, a) ∷ es) = let rest = remove key es in if text_eq k key then es else (k, a) ∷ rest

  unfoldable pub insert : String → A → List (String × A) → List (String × A)
  unfolding remove
  insert key a es = (key, a) ∷ remove key es

abbrev pub send : ℕ → PortalReply → PortalLedger → PortalLedger
send reply response s = record s { replies = (reply, response) ∷ s.replies }

abbrev pub act : PortalAction → PortalLedger → PortalLedger
act action s = record s { actions = action ∷ s.actions }

abbrev pub show : PortalUiEvent → PortalLedger → PortalLedger
show event s = record s { ui = event ∷ s.ui }

abbrev pub put_session : String → PortalSession → PortalLedger → PortalLedger
put_session handle session s = record s { sessions = insert handle session s.sessions }

abbrev pub drop_session : String → PortalLedger → PortalLedger
drop_session handle s = record s { sessions = remove handle s.sessions }

abbrev pub put_request : String → PendingRequest → PortalLedger → PortalLedger
put_request handle request s = record s { requests = insert handle request s.requests }

abbrev pub drop_request : String → PortalLedger → PortalLedger
drop_request handle s = record s { requests = remove handle s.requests }

abbrev pub put_screenshot : String → ScreenshotEntry → PortalLedger → PortalLedger
put_screenshot handle entry s = record s { screenshots = insert handle entry s.screenshots }

abbrev pub drop_screenshot : String → PortalLedger → PortalLedger
drop_screenshot handle s = record s { screenshots = remove handle s.screenshots }

abbrev pub put_file_chooser : String → FileChooserEntry → PortalLedger → PortalLedger
put_file_chooser handle entry s = record s { file_choosers = insert handle entry s.file_choosers }

abbrev pub drop_file_chooser : String → PortalLedger → PortalLedger
drop_file_chooser handle s = record s { file_choosers = remove handle s.file_choosers }

-- The 64-bit counter of consent tokens.
abbrev pub mint : PortalLedger → PortalLedger
mint s = record s { next_consent_token = (s.next_consent_token + 1) % 2 ^ 64 }

-- `Closed()` is emitted before the object is removed.
unfoldable pub close_session_actions : String → PortalLedger → PortalLedger
close_session_actions handle s = act (unexport_session handle) (act (close_session handle) s)

abbrev pub cancel_pending_start : Option ℕ → PortalLedger → PortalLedger
cancel_pending_start none s = s
cancel_pending_start (some reply) s = send reply cancelled s
