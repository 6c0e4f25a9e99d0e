-- ===== src/Portal/Loss.antt =====
-- That nothing starts without a frontend (portal/service.rs).
use Prim.Native.String.{String}
use veshell.Base.{
  ℕ, ◌+◌, ◌≡◌, ◌∙◌, refl, ap, arith, true, false, not, List, [], ◌∷◌, Option, none, some,
}
use veshell.Portal.Types.{From, MethodCall, method, unauthorized, caller_is_frontend}
use veshell.Portal.Ledger.{PortalLedger, send}
use veshell.Portal.Closing.{same_owner, on_frontend_owner_changed}
use veshell.Portal.Calls.{apply_portal_call}
use veshell.Portal.Balance.{is_link, tally, answered, balance}
use veshell.Portal.Sweeps.{maps}
use veshell.Portal.Frontend.{fresh_maps, on_frontend_owner_changed-ends}

-- The method calls of a list, the first one first.
abbrev pub apply_all : PortalLedger → List (From × MethodCall) → PortalLedger
apply_all s [] = s
apply_all s ((from, c) ∷ calls) = apply_all (apply_portal_call s (method from c)) calls

unauthorized_without_owner :
    (caller owner : Option String) → owner ≡ none → not (caller_is_frontend caller owner) ≡ true
unfolding caller_is_frontend
unauthorized_without_owner none owner h = refl
unauthorized_without_owner (some sender) none h = refl
unauthorized_without_owner (some sender) (some owner) h = cc

same_owner-none : (previous : Option String) → same_owner previous none ≡ false
same_owner-none none = refl
same_owner-none (some previous) = refl

module _ (link : ℕ) where
  -- How often the calls of a list come with the link.
  abbrev pub brought : List (From × MethodCall) → ℕ
  brought [] = 0
  brought ((from, c) ∷ calls) = is_link link from.reply + brought calls

  refuses :
      (s : PortalLedger) (from : From) (c : MethodCall)
      → s.frontend ≡ none
      → apply_portal_call s (method from c) ≡ send from.reply unauthorized s
  unfolding apply_portal_call
  refuses s from c h = rw (unauthorized_without_owner from.caller s.frontend h) refl

  answered-send :
      (s : PortalLedger) (reply : ℕ)
      → answered link (send reply unauthorized s) ≡ is_link link reply + answered link s
  unfolding answered tally
  answered-send s reply = refl

  refuses_all :
      (calls : List (From × MethodCall)) (s : PortalLedger)
      → maps s ≡ fresh_maps 0 none
      → (maps (apply_all s calls) ≡ fresh_maps 0 none)
        × (answered link (apply_all s calls) ≡ brought calls + answered link s)
  refuses_all [] s h = (h, omega arith)
  refuses_all ((from, c) ∷ calls) s h =
      let no_frontend = ap (λ m. m.frontend) h in
      let refused = refuses s from c no_frontend in
      let rest = refuses_all calls (apply_portal_call s (method from c)) (ap maps refused ∙ h) in
      let one = ap (answered link) refused ∙ answered-send s from.reply in
      (rest.0, omega (arith, rest.1, one))

  -- Once the frontend's name has no owner, whatever was called before and whatever method calls
  -- follow, the ledger has no session, no request of any kind and no restore grant, and each
  -- reply link was answered as often as it was answered or held when the owner went and brought
  -- by a call since.
  pub frontend_loss-refuses :
      (s : PortalLedger) (calls : List (From × MethodCall))
      → (maps (apply_all (on_frontend_owner_changed s none) calls) ≡ fresh_maps 0 none)
        × (answered link (apply_all (on_frontend_owner_changed s none) calls)
            ≡ brought calls + balance link s)
  frontend_loss-refuses s calls =
      let lost = on_frontend_owner_changed-ends link s none (same_owner-none s.frontend) in
      let refused = refuses_all calls (on_frontend_owner_changed s none) lost.0 in
      (refused.0, omega (arith, lost.1, refused.1))
