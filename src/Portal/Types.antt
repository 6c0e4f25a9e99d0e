-- ===== src/Portal/Types.antt =====
-- The calls and answers of portal/mod.rs. A reply link is a number, a bus name or an object path
-- its text, a set of bit flags its bits.
use Prim.Native.String.{String}
use text.Mathlib.Text.{◌==◌ as same, starts_with as begins, find?}
use veshell.Base.{
  ℕ, Bool, true, false, List, [], ◌∷◌, Option, none, some, ◌==◌, not, bit_and, if◌then◌else◌,
}

abbrev pub text_eq : String → String → Bool
text_eq s t = same s t

abbrev pub starts_with : String → String → Bool
starts_with s t = begins s t

abbrev pub is_some {ℓ} : {A : Type ℓ} → Option A → Bool
is_some none = false
is_some (some a) = true

abbrev pub contains : String → String → Bool
contains s t = is_some (find? s t)

mutual
  -- A D-Bus value.
  pub data OwnedValue : Type 0 where
    u32 : ℕ → OwnedValue
    bool : Bool → OwnedValue
    str : String → OwnedValue
    -- signed numbers and floats as bit patterns
    i32 : ℕ → OwnedValue
    f64 : ℕ → OwnedValue
    structure : OwnedValues → OwnedValue
    array : OwnedValues → OwnedValue
    variant : OwnedValue → OwnedValue
    dict : OwnedDict → OwnedValue

  pub data OwnedValues : Type 0 where
    nil : OwnedValues
    cons : OwnedValue → OwnedValues → OwnedValues

  pub data OwnedDict : Type 0 where
    empty : OwnedDict
    entry : String → OwnedValue → OwnedDict → OwnedDict

abbrev pub PortalDict : Type 0
PortalDict = List (String × OwnedValue)

unfoldable pub lookup : PortalDict → String → Option OwnedValue
lookup [] key = none
lookup ((k, v) ∷ es) key = let rest = lookup es key in if text_eq k key then some v else rest

unfoldable pub contains_key : PortalDict → String → Bool
unfolding lookup
contains_key options key = is_some (lookup options key)

pub record PortalReply : Type 0 where
  pub response : ℕ
  pub results : PortalDict

abbrev pub response_ok : ℕ
response_ok = 0

abbrev pub response_cancelled : ℕ
response_cancelled = 1

abbrev pub response_failed : ℕ
response_failed = 2

abbrev pub ok : PortalReply
ok = record { response = response_ok; results = [] }

abbrev pub unauthorized : PortalReply
unauthorized = record { response = response_failed; results = [] }

-- The message only goes to the log.
abbrev pub failed : String → PortalReply
failed message = record { response = response_failed; results = [] }

abbrev pub cancelled : PortalReply
cancelled = record { response = response_cancelled; results = [] }

-- The sender of a call, and the owner of the frontend's name.
unfoldable pub caller_is_frontend : Option String → Option String → Bool
caller_is_frontend (some sender) (some owner) = text_eq sender owner
caller_is_frontend (some sender) none = false
caller_is_frontend none owner = false

-- SourceTypes and CursorModes are bit sets.
abbrev pub monitor : ℕ
monitor = 1

abbrev pub window : ℕ
window = 2

abbrev pub hidden : ℕ
hidden = 1

abbrev pub intersects : ℕ → ℕ → Bool
intersects a b = not (bit_and a b == 0)

abbrev pub contains_bits : ℕ → ℕ → Bool
contains_bits a b = bit_and a b == b

pub record ScreenCastConstraints : Type 0 where
  pub types : ℕ
  pub cursor_mode : ℕ
  pub multiple : Bool
  pub persist_mode : ℕ
  pub restore_token : Option String

pub data FileChooserKind : Type 0 where
  open_file : FileChooserKind
  save : FileChooserKind
  save_files : FileChooserKind

-- A filter is its name and its patterns, a pattern its kind and its text.
pub record FileChooserOptions : Type 0 where
  pub multiple : Bool
  pub directory : Bool
  pub accept_label : Option String
  pub current_folder : Option String
  pub current_file : Option String
  pub current_name : Option String
  pub files : List String
  pub filters : List (String × List (ℕ × String))

-- A call's caller and its reply link, which every method call carries.
pub record From : Type 0 where
  pub caller : Option String
  pub reply : ℕ

-- The method calls; `request_handle` and `session` stand for `handle` and `session_handle`.
pub data MethodCall : Type 0 where
  create_session : (request_handle session app_id : String) → MethodCall
  select_sources : (request_handle session app_id : String) → ScreenCastConstraints → MethodCall
  start :
      (request_handle session app_id parent_window : String)
      → ScreenCastConstraints
      → PortalDict
      → MethodCall
  request_close : (request_handle : String) → MethodCall
  screenshot : (request_handle app_id parent_window : String) → PortalDict → MethodCall
  pick_color : (request_handle app_id parent_window : String) → PortalDict → MethodCall
  file_chooser :
      FileChooserKind
      → (request_handle app_id parent_window title : String) → FileChooserOptions
      → MethodCall

pub data PortalCall : Type 0 where
  method : From → MethodCall → PortalCall
  frontend_owner_changed : Option String → PortalCall
