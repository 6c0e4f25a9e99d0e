-- ===== src/Portal/Frontend.antt =====
-- The end of everything when the portal's frontend goes or changes.
use Prim.Native.String.{String}
use veshell.Base.{ℕ, ◌+◌, ◌≡◌, ◌∙◌, refl, ap, arith, false, [], Option, Bool-cases, inl, inr}
use veshell.Portal.Ledger.{PortalLedger}
use veshell.Portal.Closing.{
  end_requests, end_screenshots, end_choosers, end_sessions, bind_frontend, same_owner,
  on_frontend_owner_changed,
}
use veshell.Portal.Balance.{
  total, of_session, of_request, of_screenshot, of_chooser, held, answered, balance,
}
use veshell.Portal.Sweeps.{
  Maps, maps, requests_swept-Sends, screenshots_swept-Sends, choosers_swept-Sends,
  sessions_swept-Sends,
}

-- The maps of a ledger once the sweeps are over.
abbrev no_requests : Maps → Maps
no_requests m = record m { requests = [] }

abbrev no_screenshots : Maps → Maps
no_screenshots m = record m { screenshots = [] }

abbrev no_choosers : Maps → Maps
no_choosers m = record m { file_choosers = [] }

abbrev no_sessions : Maps → Maps
no_sessions m = record m { sessions = [] }

module _ (link : ℕ) where
  -- The links that a ledger's maps hold.
  unfoldable links : Maps → ℕ
  unfolding total
  links m =
      total (of_session link) m.sessions
      + total (of_request link) m.requests
      + total (of_screenshot link) m.screenshots
      + total (of_chooser link) m.file_choosers

  -- A ledger whose maps another's are, with nothing lost.
  abbrev Ends : Maps → PortalLedger → PortalLedger → Type 0
  Ends kept s after = (maps after ≡ kept) × (balance link after ≡ balance link s)

  end_requests-Ends : (s : PortalLedger) → Ends (no_requests (maps s)) s (end_requests s)
  unfolding balance held answered total
  end_requests-Ends s =
      let swept = requests_swept-Sends link s in
      let others =
        ap
          (λ m.
            total (of_session link) m.sessions
            + total (of_screenshot link) m.screenshots
            + total (of_chooser link) m.file_choosers)
          swept.0 in
      let count = swept.1 in (ap no_requests swept.0, omega (arith, others, count))

  end_screenshots-Ends : (s : PortalLedger) → Ends (no_screenshots (maps s)) s (end_screenshots s)
  unfolding balance held answered total
  end_screenshots-Ends s =
      let swept = screenshots_swept-Sends link s in
      let others =
        ap
          (λ m.
            total (of_session link) m.sessions
            + total (of_request link) m.requests
            + total (of_chooser link) m.file_choosers)
          swept.0 in
      let count = swept.1 in (ap no_screenshots swept.0, omega (arith, others, count))

  end_choosers-Ends : (s : PortalLedger) → Ends (no_choosers (maps s)) s (end_choosers s)
  unfolding balance held answered total
  end_choosers-Ends s =
      let swept = choosers_swept-Sends link s in
      let others =
        ap
          (λ m.
            total (of_session link) m.sessions
            + total (of_request link) m.requests
            + total (of_screenshot link) m.screenshots)
          swept.0 in
      let count = swept.1 in (ap no_choosers swept.0, omega (arith, others, count))

  end_sessions-Ends : (s : PortalLedger) → Ends (no_sessions (maps s)) s (end_sessions s)
  unfolding balance held answered total
  end_sessions-Ends s =
      let swept = sessions_swept-Sends link s in
      let others =
        ap
          (λ m.
            total (of_request link) m.requests
            + total (of_screenshot link) m.screenshots
            + total (of_chooser link) m.file_choosers)
          swept.0 in
      let count = swept.1 in (ap no_sessions swept.0, omega (arith, others, count))

  bind_frontend-balance :
      (owner : Option String) (s : PortalLedger)
      → balance link (bind_frontend owner s) ≡ balance link s
  unfolding balance held answered
  bind_frontend-balance owner s = refl

  -- The maps of a ledger of a new frontend.
  abbrev pub fresh_maps : Option String → Maps
  fresh_maps owner = record {
    sessions = [];
    requests = [];
    screenshots = [];
    file_choosers = [];
    frontend = owner;
    restores = [];
  }

  answered_all :
      {owner : Option String} (s : PortalLedger)
      → maps s ≡ fresh_maps owner
      → answered link s ≡ balance link s
  unfolding balance held total links
  answered_all s h = omega (arith, ap links h)

  ended :
      (owner : Option String) (s : PortalLedger)
      → Ends
          (fresh_maps owner)
          (bind_frontend owner s)
          (end_sessions (end_choosers (end_screenshots (end_requests (bind_frontend owner s)))))
  ended owner s =
      let one = end_requests-Ends (bind_frontend owner s) in
      let two = end_screenshots-Ends (end_requests (bind_frontend owner s)) in
      let three = end_choosers-Ends (end_screenshots (end_requests (bind_frontend owner s))) in
      let four =
        end_sessions-Ends (end_choosers (end_screenshots (end_requests (bind_frontend owner s)))) in
      (
        four.0 ∙ ap no_sessions (three.0 ∙ ap no_choosers (two.0 ∙ ap no_screenshots one.0)),
        four.1 ∙ three.1 ∙ two.1 ∙ one.1,
      )

  pub on_frontend_owner_changed-balance :
      (s : PortalLedger) (owner : Option String)
      → balance link (on_frontend_owner_changed s owner) ≡ balance link s
  unfolding on_frontend_owner_changed
  on_frontend_owner_changed-balance s owner = elim (Bool-cases (same_owner s.frontend owner)) [
    | inl e ↦ rw e (bind_frontend-balance owner s)
    | inr e ↦ rw e ((ended owner s).1 ∙ bind_frontend-balance owner s)
  ]

  -- When the frontend's name gets an owner other than the present one, or none, the ledger keeps
  -- no session, no request of any kind and no restore grant, it has the new owner, and each
  -- reply link was answered as often as it was answered or held before.
  pub on_frontend_owner_changed-ends :
      (s : PortalLedger) (owner : Option String)
      → same_owner s.frontend owner ≡ false
      → (maps (on_frontend_owner_changed s owner) ≡ fresh_maps owner)
        × (answered link (on_frontend_owner_changed s owner) ≡ balance link s)
  unfolding on_frontend_owner_changed
  on_frontend_owner_changed-ends s owner h =
      let all = ended owner s in
      rw h (
        all.0,
        answered_all
              (end_sessions (end_choosers (end_screenshots (end_requests (bind_frontend owner s)))))
              all.0
            ∙ all.1
            ∙ bind_frontend-balance owner s,
      )
