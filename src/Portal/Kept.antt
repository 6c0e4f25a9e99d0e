-- ===== src/Portal/Kept.antt =====
-- That method calls lose no reply link.
use Prim.Native.String.{String}
use veshell.Base.{ℕ, ◌+◌, ◌≡◌, refl, ap, arith, Option, none, some, not, Bool-cases, inl, inr}
use veshell.Portal.Types.{ok, is_some, ScreenCastConstraints, FileChooserKind, FileChooserOptions}
use veshell.Portal.Ledger.{
  PortalSession, PortalLedger, CaptureKind, get, insert, put_session, configured,
}
use veshell.Portal.Sessions.{
  on_create_session, on_select_sources, configure, valid_session_path, valid_request_path,
  is_configurable, register_request,
}
use veshell.Portal.Calls.{open_screenshot_request, open_file_chooser_request}
use veshell.Portal.Balance.{
  total, weigh, total-remove, is_link, of_session, of_request, of_screenshot, of_chooser, tally,
  held, answered, balance,
}
use veshell.Portal.Links.{weigh_absent, balance-send, balance-put_session}

module _ (link : ℕ) where
  -- A ledger after a call that came with a reply link, and before it.
  abbrev pub Takes : ℕ → PortalLedger → PortalLedger → Type 0
  Takes reply s after = balance link after ≡ is_link link reply + balance link s

  pub open_screenshot_request-Takes :
      (s : PortalLedger) (reply : ℕ) (handle app_id : String) (kind : CaptureKind)
      → Takes reply s (open_screenshot_request s reply handle app_id kind)
  unfolding open_screenshot_request balance held answered tally insert total
  open_screenshot_request-Takes s reply handle app_id kind =
      elim (Bool-cases (not (valid_request_path handle))) [
        | inl e ↦ rw e omega arith
        | inr e ↦ elim (Bool-cases (is_some (get handle s.screenshots))) [
          | inl f ↦ rw (e, f) omega arith
          | inr f ↦
              let absent = weigh_absent (of_screenshot link) (get handle s.screenshots) f in
              rw (e, f) omega
                (arith, total-remove (of_screenshot link) handle s.screenshots, absent)
        ]
      ]

  pub open_file_chooser_request-Takes :
      (s : PortalLedger) (reply : ℕ) (kind : FileChooserKind)
      (handle app_id parent_window title : String) (options : FileChooserOptions)
      → Takes reply s
          (open_file_chooser_request s reply kind handle app_id parent_window title options)
  unfolding open_file_chooser_request balance held answered tally insert total
  open_file_chooser_request-Takes s reply kind handle app_id parent_window title options =
      elim (Bool-cases (not (valid_request_path handle))) [
        | inl e ↦ rw e omega arith
        | inr e ↦ elim (Bool-cases (is_some (get handle s.file_choosers))) [
          | inl f ↦ rw (e, f) omega arith
          | inr f ↦
              let absent = weigh_absent (of_chooser link) (get handle s.file_choosers) f in
              rw (e, f) omega (arith, total-remove (of_chooser link) handle s.file_choosers, absent)
        ]
      ]

  pub on_create_session-Takes :
      (s : PortalLedger) (reply : ℕ) (session : String)
      → Takes reply s (on_create_session s reply session)
  unfolding on_create_session balance held answered tally insert total
  on_create_session-Takes s reply session = elim (Bool-cases (not (valid_session_path session))) [
    | inl e ↦ rw e omega arith
    | inr e ↦ elim (Bool-cases (is_some (get session s.sessions))) [
      | inl f ↦ rw (e, f) omega arith
      | inr f ↦
          let absent = weigh_absent (of_session link) (get session s.sessions) f in
          rw (e, f) omega (arith, total-remove (of_session link) session s.sessions, absent)
    ]
  ]

  register_request-balance :
      (handle session : String) (s : PortalLedger)
      → balance link (register_request handle session s) ≡ balance link s
  unfolding balance held answered tally insert total
  register_request-balance handle session s = elim (Bool-cases (is_some (get handle s.requests))) [
    | inl e ↦ rw e refl
    | inr e ↦
        let absent = weigh_absent (of_request link) (get handle s.requests) e in
        rw e omega (arith, total-remove (of_request link) handle s.requests, absent)
  ]

  configure-Takes :
      (found : Option PortalSession) (s : PortalLedger) (reply : ℕ) (handle session : String)
      (constraints : ScreenCastConstraints)
      → get session s.sessions ≡ found
      → Takes reply s (configure found s reply handle session constraints)
  configure-Takes none s reply handle session constraints h = balance-send link reply _ s
  configure-Takes (some found) s reply handle session constraints h =
      elim (Bool-cases (not (is_configurable found.state))) [
        | inl e ↦ rw e (balance-send link reply _ s)
        | inr e ↦
            let changed = record found { state = configured; constraints = some constraints } in
            let put = put_session session changed s in
            let was = ap (weigh (of_session link)) h in
            rw e omega (
              arith,
              balance-send link reply ok (register_request handle session put),
              register_request-balance handle session put,
              balance-put_session link session changed s,
              was,
            )
      ]

  pub on_select_sources-Takes :
      (s : PortalLedger) (reply : ℕ) (handle session : String) (constraints : ScreenCastConstraints)
      → Takes reply s (on_select_sources s reply handle session constraints)
  unfolding on_select_sources
  on_select_sources-Takes s reply handle session constraints =
      configure-Takes (get session s.sessions) s reply handle session constraints refl
