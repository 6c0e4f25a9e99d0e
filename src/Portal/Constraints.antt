-- ===== src/Portal/Constraints.antt =====
-- Restore data and the screen-cast options of portal/mod.rs.
use Prim.Native.String.{String}
use veshell.Base.{
  ℕ, Bool, false, Option, none, some, ◌&&◌, ◌||◌, ◌==◌, ltb, not, bit_and, if◌then◌else◌,
}
use veshell.Portal.Types.{
  OwnedValue, nil, cons, u32, bool, str, structure, variant, PortalDict, lookup, text_eq,
  ScreenCastConstraints, monitor, hidden,
}

abbrev pub restore_data_vendor : String
restore_data_vendor = "veshell"

abbrev pub restore_data_version : ℕ
restore_data_version = 1

unfoldable pub encode_restore_data : String → OwnedValue
encode_restore_data token = structure (
    cons (str restore_data_vendor)
      (cons (u32 restore_data_version) (cons (variant (str token)) nil)))

abbrev as_u32 : Option OwnedValue → Option ℕ
as_u32 (some (u32 n)) = some n
as_u32 other = none

abbrev as_bool : Option OwnedValue → Option Bool
as_bool (some (bool b)) = some b
as_bool other = none

abbrev as_string : Option OwnedValue → Option String
as_string (some (str s)) = some s
as_string other = none

unfoldable pub lookup_u32 : PortalDict → String → Option ℕ
unfolding lookup
lookup_u32 options key = as_u32 (lookup options key)

unfoldable pub lookup_bool : PortalDict → String → Option Bool
unfolding lookup
lookup_bool options key = as_bool (lookup options key)

unfoldable pub lookup_string : PortalDict → String → Option String
unfolding lookup
lookup_string options key = as_string (lookup options key)

-- The fields of a `(suv)` structure; no other value has that signature.
abbrev accept_restore_data : String → ℕ → String → Option String
accept_restore_data vendor version token =
    if text_eq vendor restore_data_vendor
      && (not (ltb restore_data_version version) && not (text_eq token ""))
    then some token
    else none

abbrev read_restore_data : Option OwnedValue → Option String
read_restore_data
      (some (structure (cons (str vendor) (cons (u32 version) (cons (variant (str token)) nil))))) =
    accept_restore_data vendor version token
read_restore_data other = none

unfoldable pub lookup_restore_token : PortalDict → Option String
unfolding lookup
lookup_restore_token options = read_restore_data (lookup options "restore_data")

pub data Checked : Type 0 where
  accepted : ℕ → Checked
  rejected : String → Checked

-- Only the bits 1, 2 and 4 name source types.
abbrev pub check_types : Option ℕ → ℕ → Checked
check_types none available = accepted monitor
check_types (some requested) available =
    if not (ltb requested 8) || requested == 0
    then rejected "Invalid requested source types"
    else if bit_and requested available == 0
    then rejected "Requested sources are unavailable"
    else accepted (bit_and requested available)

abbrev pub check_cursor : Option ℕ → Checked
check_cursor none = accepted hidden
check_cursor (some requested) =
    if not (ltb requested 4) || requested == 0
    then rejected "Invalid requested cursor mode"
    else accepted requested

abbrev pub check_persist : Option ℕ → Checked
check_persist none = accepted 0
check_persist (some mode) = if ltb 2 mode then rejected "Invalid persist_mode" else accepted mode

abbrev pub bool_or : Option Bool → Bool → Bool
bool_or none b = b
bool_or (some a) b = a

abbrev pub or_else : Option String → Option String → Option String
or_else none other = other
or_else (some s) other = some s

pub data ParsedConstraints : Type 0 where
  invalid : String → ParsedConstraints
  parsed : ScreenCastConstraints → ParsedConstraints

abbrev pub combine : Checked → Checked → Checked → Bool → Option String → ParsedConstraints
combine (rejected message) cursor persist multiple token = invalid message
combine (accepted types) (rejected message) persist multiple token = invalid message
combine (accepted types) (accepted cursor) (rejected message) multiple token = invalid message
combine (accepted types) (accepted cursor) (accepted persist) multiple token = parsed (record {
  types = types;
  cursor_mode = cursor;
  multiple = multiple;
  persist_mode = persist;
  restore_token = token;
})

unfoldable pub parse_screen_cast_constraints : PortalDict → ℕ → ParsedConstraints
unfolding lookup_u32 lookup_bool lookup_string lookup_restore_token
parse_screen_cast_constraints options available =
    combine (check_types (lookup_u32 options "types") available)
      (check_cursor (lookup_u32 options "cursor_mode"))
      (check_persist (lookup_u32 options "persist_mode"))
      (bool_or (lookup_bool options "multiple") false)
      (or_else (lookup_restore_token options) (lookup_string options "restore_token"))
