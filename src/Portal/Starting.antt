-- ===== src/Portal/Starting.antt =====
-- What a Start does to the reply links.
use Prim.Native.String.{String}
use veshell.Base.{
  ℕ, ◌+◌, ◌≤◌, ◌≡◌, refl, ap, arith, Option, none, some, not, ◌⊎◌, Bool-cases, inl, inr,
}
use veshell.Portal.Types.{PortalDict, failed, cancelled, intersects, is_some, ScreenCastConstraints}
use veshell.Portal.Ledger.{
  PortalSession, PortalLedger, get, insert, put_session, drop_request, configured, choosing,
}
use veshell.Portal.Sessions.{
  on_start, open_consent, start_found, begin_choosing, startable, Startable, refused,
  with_constraints, is_cancelled,
}
use veshell.Portal.Balance.{
  total, weigh, total-remove, is_link, of_session, of_request, tally, held, answered, balance,
}
use veshell.Portal.Links.{balance-send, balance-put_session, balance-drop_request}

module _ (link : ℕ) where
  -- The links of the picker that a request has open.
  abbrev pub picker_of : String → PortalLedger → ℕ
  picker_of handle s = weigh (of_request link) (get handle s.requests)

  -- A Start keeps every link, except at most those of a picker that its own request had open.
  abbrev pub Starts : ℕ → String → PortalLedger → PortalLedger → Type 0
  Starts reply handle s after =
      (balance link after ≡ is_link link reply + balance link s)
      ⊎ (picker_of handle s + balance link after ≡ is_link link reply + balance link s)

  open_consent-Starts :
      (s : PortalLedger) (reply : ℕ) (handle session app_id : String)
      (constraints : ScreenCastConstraints)
      → picker_of handle s + balance link (open_consent s reply handle session app_id constraints)
        ≡ is_link link reply + balance link s
  unfolding open_consent balance held answered tally insert total
  open_consent-Starts s reply handle session app_id constraints =
      elim (Bool-cases (is_some (get handle s.requests))) [
        | inl e ↦ rw e omega (arith, total-remove (of_request link) handle s.requests)
        | inr e ↦ rw e omega (arith, total-remove (of_request link) handle s.requests)
      ]

  begin_choosing-Starts :
      (answer : Startable) (found : PortalSession) (s : PortalLedger) (reply : ℕ)
      (handle session app_id : String)
      → get session s.sessions ≡ some found
      → Starts reply handle s (begin_choosing answer found s reply handle session app_id)
  begin_choosing-Starts (refused message) found s reply handle session app_id h =
      inl (balance-send link reply _ s)
  begin_choosing-Starts (with_constraints constraints) found s reply handle session app_id h =
      let was = ap (weigh (of_session link)) h in
      elim (Bool-cases (not (intersects constraints.types 3))) [
        | inl e ↦
            let changed = record found { state = configured; constraints = some constraints } in
            rw e (
              inl omega (
                arith,
                balance-send link reply (failed "") (put_session session changed s),
                balance-put_session link session changed s,
                was,
              ))
        | inr e ↦
            let changed = record found { state = choosing; constraints = some constraints } in
            rw e (
              inr omega (
                arith,
                open_consent-Starts (put_session session changed s) reply handle session app_id
                    constraints,
                balance-put_session link session changed s,
                was,
              ))
      ]

  start_found-Starts :
      (found : Option PortalSession) (s : PortalLedger) (reply : ℕ) (handle session app_id : String)
      (constraints : ScreenCastConstraints) (options : PortalDict)
      → get session s.sessions ≡ found
      → Starts reply handle s (start_found found s reply handle session app_id constraints options)
  start_found-Starts none s reply handle session app_id constraints options h =
      inl (balance-send link reply _ s)
  start_found-Starts (some found) s reply handle session app_id constraints options h =
      begin_choosing-Starts (startable found constraints options) found s reply handle session
        app_id h

  pub on_start-Starts :
      (s : PortalLedger) (reply : ℕ) (handle session app_id : String)
      (constraints : ScreenCastConstraints) (options : PortalDict)
      → Starts reply handle s (on_start s reply handle session app_id constraints options)
  unfolding on_start balance is_link
  on_start-Starts s reply handle session app_id constraints options =
      elim (Bool-cases (is_cancelled (get handle s.requests))) [
        | inl e ↦ rw e (
            inr omega (
              arith,
              balance-send link reply cancelled (drop_request handle s),
              balance-drop_request link handle s,
            ))
        | inr e ↦ rw e (
            start_found-Starts (get session s.sessions) s reply handle session app_id constraints
              options refl)
      ]

  pub on_start-le :
      (s : PortalLedger) (reply : ℕ) (handle session app_id : String)
      (constraints : ScreenCastConstraints) (options : PortalDict)
      → balance link (on_start s reply handle session app_id constraints options)
        ≤ is_link link reply + balance link s
  on_start-le s reply handle session app_id constraints options =
      elim (on_start-Starts s reply handle session app_id constraints options) [
        | inl e ↦ omega (arith, e)
        | inr e ↦ omega (arith, e)
      ]

  pub on_start-Takes :
      (s : PortalLedger) (reply : ℕ) (handle session app_id : String)
      (constraints : ScreenCastConstraints) (options : PortalDict)
      → picker_of handle s ≡ 0
      → balance link (on_start s reply handle session app_id constraints options)
        ≡ is_link link reply + balance link s
  on_start-Takes s reply handle session app_id constraints options h =
      elim (on_start-Starts s reply handle session app_id constraints options) [
        | inl e ↦ e
        | inr e ↦ omega (arith, e, h)
      ]
