-- ===== src/Portal/Restored.antt =====
-- Restore data on its way to the client and back, and the options that are accepted
-- (portal/mod.rs, portal/service.rs).
use Prim.Native.String.{String}
use veshell.Base.{
  ℕ, ◌≤◌, ◌<◌, ◌≡◌, ◌≢◌, ◌∙◌, refl, sym, ap, arith, Bool, true, false, not, Option, none, some,
  bit_and, ltb, ◌==◌, ◌||◌, ==_iff, or-eq-false, not-eq-false, if◌then◌else◌,
}
use mathlib.Core.Bool.{true≢false}
use veshell.Portal.Types.{text_eq, ScreenCastConstraints, lookup, monitor, hidden, PortalDict}
use veshell.Portal.Constraints.{
  encode_restore_data, lookup_restore_token, lookup_u32, lookup_bool, lookup_string,
  ParsedConstraints, parsed, invalid, Checked, accepted, rejected, combine, check_types,
  check_cursor, check_persist, parse_screen_cast_constraints,
}
use veshell.Portal.Streams.{ActiveStream}
use veshell.Portal.Producer.{stream_reply}

-- What the options of a Start result are parsed to.
abbrev pub granted : String → ScreenCastConstraints
granted token = record {
  types = monitor;
  cursor_mode = hidden;
  multiple = false;
  persist_mode = 1;
  restore_token = some token;
}

abbrev with_token : String → ActiveStream → ActiveStream
with_token token stream = record stream { restore_token = some token }

-- The results of a Start whose stream has a restore token that is not empty, given back as
-- options, are accepted with that very token and the transient persistence it was granted.
pub parse-stream_reply :
    (node available : ℕ) (stream : ActiveStream) (token : String)
    → text_eq token "" ≡ false
    → parse_screen_cast_constraints (stream_reply node (with_token token stream)).results available
      ≡ parsed (granted token)
unfolding parse_screen_cast_constraints stream_reply encode_restore_data lookup_restore_token
    lookup_u32 lookup_bool lookup_string lookup
parse-stream_reply node available stream token h = rw h refl

combine-parsed :
    (types cursor persist : Checked) (multiple : Bool) (token : Option String)
    (c : ScreenCastConstraints)
    → combine types cursor persist multiple token ≡ parsed c
    → (types ≡ accepted c.types)
      × (cursor ≡ accepted c.cursor_mode)
      × (persist ≡ accepted c.persist_mode)
combine-parsed (rejected message) cursor persist multiple token c h = cc
combine-parsed (accepted types) (rejected message) persist multiple token c h = cc
combine-parsed (accepted types) (accepted cursor) (rejected message) multiple token c h = cc
combine-parsed (accepted types) (accepted cursor) (accepted persist) multiple token c h =
    let same = ap constraints_of h in
    (
      ap (λ k. accepted k.types) same,
      ap (λ k. accepted k.cursor_mode) same,
      ap (λ k. accepted k.persist_mode) same,
    )
  where
    constraints_of : ParsedConstraints → ScreenCastConstraints
    constraints_of (invalid message) = granted ""
    constraints_of (parsed k) = k

accepted_of_if :
    (b : Bool) (message : String) (otherwise : Checked) (n : ℕ)
    → (if b then rejected message else otherwise) ≡ accepted n
    → (b ≡ false) × (otherwise ≡ accepted n)
accepted_of_if true message otherwise n h = cc
accepted_of_if false message otherwise n h = (refl, h)

accepted-injective : (m n : ℕ) → accepted m ≡ accepted n → m ≡ n
accepted-injective m n h = cc

types_bound :
    (requested : Option ℕ) (available n : ℕ) → check_types requested available ≡ accepted n → n ≢ 0
types_bound none available n h = λ z. absurd (omega (arith, accepted-injective monitor n h))
types_bound (some requested) available n h =
    let first = accepted_of_if (not (ltb requested 8) || requested == 0) _ _ n h in
    let second = accepted_of_if (bit_and requested available == 0) _ _ n first.1 in
    let same = accepted-injective (bit_and requested available) n second.1 in
    λ z.
      true≢false
        (sym ((==_iff (bit_and requested available) 0).1 (omega (arith, same, z))) ∙ second.0)

cursor_bound :
    (requested : Option ℕ) (n : ℕ) → check_cursor requested ≡ accepted n → (0 < n) × (n < 4)
cursor_bound none n h = let same = accepted-injective hidden n h in (omega arith, omega arith)
cursor_bound (some requested) n h =
    let first = accepted_of_if (not (ltb requested 4) || requested == 0) _ _ n h in
    let same = accepted-injective requested n first.1 in
    let parts = or-eq-false (not (ltb requested 4)) (requested == 0) first.0 in
    (ground (arith, parts.1, same), ground (arith, not-eq-false (ltb requested 4) parts.0, same))

persist_bound : (requested : Option ℕ) (n : ℕ) → check_persist requested ≡ accepted n → n ≤ 2
persist_bound none n h = omega (arith, accepted-injective 0 n h)
persist_bound (some requested) n h =
    let first = accepted_of_if (ltb 2 requested) _ _ n h in
    ground (arith, first.0, accepted-injective requested n first.1)

-- Options that are accepted name at least one source type, a cursor mode of the bits 1 and 2, not
-- both absent, and a persistence of at most 2, whatever the dictionary holds and whichever types
-- are available.
pub parse-bounds :
    (options : PortalDict) (available : ℕ) (c : ScreenCastConstraints)
    → parse_screen_cast_constraints options available ≡ parsed c
    → (c.types ≢ 0) × (0 < c.cursor_mode) × (c.cursor_mode < 4) × (c.persist_mode ≤ 2)
unfolding parse_screen_cast_constraints
parse-bounds options available c h =
    let parts =
      combine-parsed (check_types (lookup_u32 options "types") available)
        (check_cursor (lookup_u32 options "cursor_mode"))
        (check_persist (lookup_u32 options "persist_mode")) _ _ c h in
    let cursor = cursor_bound (lookup_u32 options "cursor_mode") c.cursor_mode parts.1 in
    (
      types_bound (lookup_u32 options "types") available c.types parts.0,
      cursor.0,
      cursor.1,
      persist_bound (lookup_u32 options "persist_mode") c.persist_mode parts.2,
    )
