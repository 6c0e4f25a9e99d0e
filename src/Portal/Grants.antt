-- ===== src/Portal/Grants.antt =====
-- Restore grants of portal/service.rs. The token is a new UUID, and a hash map gives the key to
-- evict in an order of its own: both are parameters.
use Prim.Native.String.{String}
use veshell.Base.{
  ℕ, zero, suc, Bool, true, false, List, [], ◌∷◌, some, ltb, length, ◌≤◌, ◌<◌, ◌≡◌, refl, arith,
  if◌then◌else◌, if_holds,
}
use veshell.Portal.Types.{text_eq, is_some}
use veshell.Portal.Ledger.{RestoreGrant, CaptureSource, PortalLedger, get, insert, remove}

abbrev pub restore_grant_limit : ℕ
restore_grant_limit = 32

abbrev pub Grants : Type 0
Grants = List (String × RestoreGrant)

module _ (next_key : Grants → String) where
  -- At most one round for each entry.
  unfoldable pub evict_over : ℕ → Grants → Grants
  unfolding remove
  evict_over zero grants = grants
  evict_over (suc fuel) grants =
      let rest = evict_over fuel (remove (next_key grants) grants) in
      if ltb restore_grant_limit (length grants) then rest else grants

  unfoldable pub mint_restore_token : PortalLedger → String → String → CaptureSource → PortalLedger
  unfolding insert evict_over
  mint_restore_token s token owner source = record s {
    restores =
        evict_over (length (insert token (record { owner = owner; source = source }) s.restores))
          (insert token (record { owner = owner; source = source }) s.restores);
  }

pub length-remove-le :
    {A : Type 0} (key : String) (es : List (String × A)) → length (remove key es) ≤ length es
unfolding remove
length-remove-le key [] = omega arith
length-remove-le key ((k, a) ∷ es) =
    let ih = length-remove-le key es in
    if_holds (λ r. length r ≤ suc (length es)) (text_eq k key) es ((k, a) ∷ remove key es)
      (λ e. omega arith) (λ e. omega arith)

-- Removing a key that the map has shortens it.
length-remove :
    {A : Type 0} (key : String) (es : List (String × A))
    → is_some (get key es) ≡ true
    → suc (length (remove key es)) ≡ length es
unfolding remove get
length-remove key [] h = cc
length-remove {A} key ((k, a) ∷ es) h = split (length-remove key es) (text_eq k key) h
  where
    split :
        (is_some (get key es) ≡ true → suc (length (remove key es)) ≡ length es)
        → (b : Bool) → is_some (if b then some a else get key es) ≡ true
        → suc (length (if b then es else (k, a) ∷ remove key es)) ≡ suc (length es)
    split shorter true h = refl
    split shorter false h = omega (arith, shorter h)

-- Where the key to evict is one of the map's, the loop ends within the limit.
module _ (next_key : Grants → String) where
  evict_over-le :
      ((grants : Grants) → 0 < length grants → is_some (get (next_key grants) grants) ≡ true)
      → (fuel : ℕ) (grants : Grants) → length grants ≤ fuel
      → length (evict_over next_key fuel grants) ≤ restore_grant_limit
  unfolding evict_over
  evict_over-le picks zero grants h = omega arith
  evict_over-le picks (suc fuel) grants h =
      if_holds (λ r. length r ≤ restore_grant_limit) (ltb restore_grant_limit (length grants))
        (evict_over next_key fuel (remove (next_key grants) grants)) grants
        (λ e.
          let shorter = length-remove (next_key grants) grants (picks grants ground arith) in
          evict_over-le picks fuel (remove (next_key grants) grants) (omega arith))
        (λ e. ground arith)

  -- However the hash map orders its keys, minting a grant leaves at most 32 of them, from any
  -- number before.
  pub mint_restore_token-le :
      ((grants : Grants) → 0 < length grants → is_some (get (next_key grants) grants) ≡ true)
      → (s : PortalLedger) (token owner : String) (source : CaptureSource)
      → length (mint_restore_token next_key s token owner source).restores ≤ restore_grant_limit
  unfolding mint_restore_token
  mint_restore_token-le picks s token owner source =
      let grants = insert token (record { owner = owner; source = source }) s.restores in
      evict_over-le picks (length grants) grants (omega arith)
