-- ===== src/Portal/Live.antt =====
-- How many sessions share or are about to, as the calls change it (portal/service.rs).
use Prim.Native.String.{String}
use veshell.Base.{ℕ, ◌+◌, ◌≤◌, ◌≡◌, refl, ap, arith, Option, none, some, not, Bool-cases, inl, inr}
use veshell.Portal.Types.{
  PortalDict, intersects, is_some, ScreenCastConstraints, FileChooserKind, FileChooserOptions,
}
use veshell.Portal.Ledger.{
  PortalSession, PortalLedger, get, insert, put_session, drop_session, created, configured,
  SessionState, choosing, starting, active, closed,
}
use veshell.Portal.Sessions.{
  on_start, open_consent, start_found, begin_choosing, startable, Startable, refused,
  with_constraints, is_cancelled,
}
use veshell.Portal.Balance.{total, total-remove}
use veshell.Portal.Ledger.{CaptureKind}
use veshell.Portal.Sessions.{
  on_create_session, configure, register_request, valid_session_path, valid_request_path,
  is_configurable,
}
use veshell.Portal.Calls.{open_screenshot_request, open_file_chooser_request}

abbrev pub is_live_state : SessionState → ℕ
is_live_state created = 0
is_live_state configured = 0
is_live_state choosing = 0
is_live_state starting = 1
is_live_state active = 1
is_live_state closed = 0

abbrev pub live_weight : PortalSession → ℕ
live_weight session = is_live_state session.state

-- The sessions that are Starting or Active.
unfoldable pub live : PortalLedger → ℕ
unfolding total
live s = total live_weight s.sessions

pub put_session-live :
    (handle : String) (session : PortalSession) (s : PortalLedger)
    → live (put_session handle session s) ≤ live_weight session + live s
unfolding live insert total
put_session-live handle session s = omega (arith, total-remove live_weight handle s.sessions)

pub drop_session-live : (handle : String) (s : PortalLedger) → live (drop_session handle s) ≤ live s
unfolding live
drop_session-live handle s = omega (arith, total-remove live_weight handle s.sessions)

pub on_create_session-live :
    (s : PortalLedger) (reply : ℕ) (session : String)
    → live (on_create_session s reply session) ≤ live s
unfolding on_create_session live insert total
on_create_session-live s reply session = elim (Bool-cases (not (valid_session_path session))) [
  | inl e ↦ rw e omega arith
  | inr e ↦ elim (Bool-cases (is_some (get session s.sessions))) [
    | inl f ↦ rw (e, f) omega arith
    | inr f ↦ rw (e, f) omega (arith, total-remove live_weight session s.sessions)
  ]
]

register_request-sessions :
    (handle session : String) (s : PortalLedger)
    → (register_request handle session s).sessions ≡ s.sessions
register_request-sessions handle session s = elim (Bool-cases (is_some (get handle s.requests))) [
  | inl e ↦ rw e refl
  | inr e ↦ rw e refl
]

pub configure-live :
    (found : Option PortalSession) (s : PortalLedger) (reply : ℕ) (handle session : String)
    (constraints : ScreenCastConstraints)
    → live (configure found s reply handle session constraints) ≤ live s
unfolding live
configure-live none s reply handle session constraints = omega arith
configure-live (some found) s reply handle session constraints =
    elim (Bool-cases (not (is_configurable found.state))) [
      | inl e ↦ rw e omega arith
      | inr e ↦
          let changed = record found { state = configured; constraints = some constraints } in
          let put = put_session session changed s in
          rw e omega (
            arith,
            ap (total live_weight) (register_request-sessions handle session put),
            put_session-live session changed s,
          )
    ]

open_consent-live :
    (s : PortalLedger) (reply : ℕ) (handle session app_id : String)
    (constraints : ScreenCastConstraints)
    → live (open_consent s reply handle session app_id constraints) ≡ live s
unfolding open_consent live
open_consent-live s reply handle session app_id constraints =
    elim (Bool-cases (is_some (get handle s.requests))) [ inl e ↦ rw e refl | inr e ↦ rw e refl ]

begin_choosing-live :
    (answer : Startable) (found : PortalSession) (s : PortalLedger) (reply : ℕ)
    (handle session app_id : String)
    → live (begin_choosing answer found s reply handle session app_id) ≤ live s
unfolding live
begin_choosing-live (refused message) found s reply handle session app_id = omega arith
begin_choosing-live (with_constraints constraints) found s reply handle session app_id =
    elim (Bool-cases (not (intersects constraints.types 3))) [
      | inl e ↦
          let changed = record found { state = configured; constraints = some constraints } in
          rw e omega (arith, put_session-live session changed s)
      | inr e ↦
          let changed = record found { state = choosing; constraints = some constraints } in
          rw e omega (
            arith,
            open_consent-live (put_session session changed s) reply handle session app_id
                constraints,
            put_session-live session changed s,
          )
    ]

start_found-live :
    (found : Option PortalSession) (s : PortalLedger) (reply : ℕ) (handle session app_id : String)
    (constraints : ScreenCastConstraints) (options : PortalDict)
    → live (start_found found s reply handle session app_id constraints options) ≤ live s
unfolding live
start_found-live none s reply handle session app_id constraints options = omega arith
start_found-live (some found) s reply handle session app_id constraints options =
    begin_choosing-live (startable found constraints options) found s reply handle session app_id

pub on_start-live :
    (s : PortalLedger) (reply : ℕ) (handle session app_id : String)
    (constraints : ScreenCastConstraints) (options : PortalDict)
    → live (on_start s reply handle session app_id constraints options) ≤ live s
unfolding on_start live
on_start-live s reply handle session app_id constraints options =
    elim (Bool-cases (is_cancelled (get handle s.requests))) [
      | inl e ↦ rw e omega arith
      | inr e ↦ rw e (
          start_found-live (get session s.sessions) s reply handle session app_id constraints
            options)
    ]

pub open_screenshot_request-live :
    (s : PortalLedger) (reply : ℕ) (handle app_id : String) (kind : CaptureKind)
    → live (open_screenshot_request s reply handle app_id kind) ≡ live s
unfolding open_screenshot_request live
open_screenshot_request-live s reply handle app_id kind =
    elim (Bool-cases (not (valid_request_path handle))) [
      | inl e ↦ rw e refl
      | inr e ↦ elim (Bool-cases (is_some (get handle s.screenshots))) [
        | inl f ↦ rw (e, f) refl
        | inr f ↦ rw (e, f) refl
      ]
    ]

pub open_file_chooser_request-live :
    (s : PortalLedger) (reply : ℕ) (kind : FileChooserKind)
    (handle app_id parent_window title : String) (options : FileChooserOptions)
    → live (open_file_chooser_request s reply kind handle app_id parent_window title options)
      ≡ live s
unfolding open_file_chooser_request live
open_file_chooser_request-live s reply kind handle app_id parent_window title options =
    elim (Bool-cases (not (valid_request_path handle))) [
      | inl e ↦ rw e refl
      | inr e ↦ elim (Bool-cases (is_some (get handle s.file_choosers))) [
        | inl f ↦ rw (e, f) refl
        | inr f ↦ rw (e, f) refl
      ]
    ]
