-- ===== src/Portal/Decisions.antt =====
-- The trusted shell's decisions and the producer's news in portal/service.rs.
use Prim.Native.String.{String}
use veshell.Base.{ℕ, Bool, false, List, [], ◌∷◌, Option, none, some, ◌&&◌, ◌==◌, not, if◌then◌else◌}
use veshell.Portal.Types.{text_eq, is_some, failed, cancelled}
use veshell.Portal.Ledger.{
  starting, PortalSession, ConsentRequest, PendingRequest, unexport_request, dismiss_picker,
  PortalLedger, get, send, act, show, put_session, drop_session, drop_request,
  close_session_actions,
}

pub data ConsentOutcome : Type 0 where
  approved : ConsentOutcome
  cancelled_flow : ConsentOutcome

pub data ConsentResolution : Type 0 where
  applied : ConsentResolution
  dead_end : ConsentResolution
  not_matched : ConsentResolution

-- The first entry that a test picks.
unfoldable pub find_handle {ℓ} : {A : Type ℓ} → (A → Bool) → List (String × A) → Option String
find_handle test [] = none
find_handle test ((handle, a) ∷ es) =
    let rest = find_handle test es in if test a then some handle else rest

abbrev pub has_token : ℕ → Option ConsentRequest → Bool
has_token token none = false
has_token token (some consent) = consent.consent_token == token

-- The open picker of a session that a token names.
abbrev pub is_picker : String → ℕ → PendingRequest → Bool
is_picker session token request =
    not request.cancelled
    && (text_eq request.session_handle session && has_token token request.consent)

abbrev pub dismiss : ConsentRequest → PortalLedger → PortalLedger
dismiss consent s = show (dismiss_picker consent.consent_token) s

abbrev pub approve :
    Option PortalSession → PortalLedger → String → ConsentRequest → ConsentResolution × PortalLedger
approve none s session consent = (dead_end, dismiss consent (send consent.reply cancelled s))
approve (some found) s session consent = (
  applied,
  dismiss consent (
      put_session session (record found { state = starting; pending_start = some consent.reply })
        s),
)

abbrev pub end_session : Option PortalSession → String → PortalLedger → PortalLedger
end_session none session s = s
end_session (some found) session s = close_session_actions session (drop_session session s)

abbrev pub decide :
    Option ConsentRequest
    → PortalLedger
    → String
    → ConsentOutcome
    → ConsentResolution × PortalLedger
decide none s session outcome = (not_matched, s)
decide (some consent) s session approved = approve (get session s.sessions) s session consent
decide (some consent) s session cancelled_flow = (
  applied,
  dismiss consent (end_session (get session s.sessions) session (send consent.reply cancelled s)),
)

abbrev pub decide_request :
    Option PendingRequest
    → PortalLedger
    → String
    → String
    → ConsentOutcome
    → ConsentResolution × PortalLedger
decide_request none s handle session outcome = (not_matched, s)
decide_request (some request) s handle session outcome =
    decide request.consent (act (unexport_request handle) (drop_request handle s)) session outcome

abbrev pub decide_matched :
    Option String → PortalLedger → String → ConsentOutcome → ConsentResolution × PortalLedger
decide_matched none s session outcome = (not_matched, s)
decide_matched (some handle) s session outcome =
    decide_request (get handle s.requests) s handle session outcome

unfoldable pub resolve_consent :
    PortalLedger → String → ℕ → ConsentOutcome → ConsentResolution × PortalLedger
unfolding get find_handle close_session_actions
resolve_consent s session token outcome =
    decide_matched (find_handle (is_picker session token) s.requests) s session outcome

-- The picker found no source: its request fails.
abbrev pub is_open : String → PendingRequest → Bool
is_open session request =
    not request.cancelled && (text_eq request.session_handle session && is_some request.consent)

abbrev pub answer_failed : Option ConsentRequest → PortalLedger → PortalLedger
answer_failed none s = s
answer_failed (some consent) s = send consent.reply (failed "no supported sources") s

abbrev pub end_request : Option PendingRequest → PortalLedger → String → String → PortalLedger
end_request none s handle session = s
end_request (some request) s handle session = answer_failed request.consent (
    end_session (get session s.sessions) session
      (act (unexport_request handle) (drop_request handle s)))

abbrev pub end_matched : Option String → PortalLedger → String → PortalLedger
end_matched none s session = s
end_matched (some handle) s session = end_request (get handle s.requests) s handle session

unfoldable pub resolve_consent_no_picker : PortalLedger → String → PortalLedger
unfolding get find_handle close_session_actions
resolve_consent_no_picker s session =
    end_matched (find_handle (is_open session) s.requests) s session
