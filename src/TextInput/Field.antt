-- ===== src/TextInput/Field.antt =====
pub mod Keys
-- flutter_engine/text_input.rs: the active text field, the keys that Flutter left unhandled, and
-- the method calls of the text input channel. `sent` is what was invoked on the channel so far.
-- The JSON arguments of a call are taken as already read.
use Prim.Native.String.{String}
use text.Mathlib.Text.{◌==◌ as str_eq}
use veshell.Base.{
  ℕ, suc, ◌+◌, ◌-◌, ◌%◌, ◌^◌, Bool, true, false, ◌&&◌, ◌||◌, not, List, [], ◌∷◌, ◌++◌, Option, none,
  some, ◌>>=◌, ◌==◌, ltb, leb, if◌then◌else◌,
}
use veshell.Base.Int.{ℤ, pos, negsuc}
use veshell.TextInput.TextRange
use veshell.TextInput.TextRange.{TextRange}
use veshell.TextInput.Model.{TextInputModel, default, get_text, set_text}
use veshell.TextInput.Editing.{add_char_point, backspace, delete}

pub data Outgoing : Type 0 where
  update_editing_state : ℕ → List ℕ → TextRange → TextRange → Outgoing
  perform_action : ℕ → String → Outgoing

pub record TextInput : Type 0 where
  pub active_model : Option TextInputModel
  pub client_id : ℕ
  pub input_type : String
  pub input_action : String
  pub sent : List Outgoing

pub data Keysym : Type 0 where
  return back_space delete_key kp_delete : Keysym
  other : ℕ → Keysym

unfoldable pub is_active : TextInput → Bool
is_active t = elim t.active_model [ none ↦ false | some m ↦ true ]

unfoldable pub set_client : TextInput → ℕ → String → String → TextInput
set_client t id input_type input_action = record t {
  active_model = some default;
  client_id = id;
  input_type = input_type;
  input_action = input_action;
}

unfoldable pub clear_client : TextInput → TextInput
clear_client t = record t { active_model = none; client_id = 0; input_type = ""; input_action = "" }

abbrev pub state_update : ℕ → TextInputModel → Outgoing
state_update id m = update_editing_state id (get_text m) m.selection m.composing_range

unfoldable pub send_state_update : TextInput → Option TextInput
send_state_update t = do
  m ← t.active_model
  some (record t { sent = t.sent ++ (state_update t.client_id m ∷ []) })

-- `char::is_control`.
abbrev pub is_control : ℕ → Bool
is_control c = ltb c 0x20 || (leb 0x7f c && ltb c 0xa0)

abbrev newline_typed : TextInput → Option TextInput
newline_typed t = do
  m ← t.active_model
  m' ← add_char_point m 0xa
  send_state_update (record t { active_model = some m' })

unfoldable pub press_enter : TextInput → Option TextInput
press_enter t = do
  t' ← if str_eq t.input_type "TextInputType.multiline" then newline_typed t else some t
  some (record t' { sent = t'.sent ++ (perform_action t'.client_id t'.input_action ∷ []) })

-- `key_char` is that of the xkbcommon crate.
module _ (key_char : Keysym → Option ℕ) where
  unfoldable pub typed_char : Keysym → Option ℕ
  typed_char key = do c ← key_char key; if is_control c then none else some c

  -- The `match` of `press_key`, on the active model: the field, and whether the model changed.
  unfoldable pub edit_key : TextInput → TextInputModel → Keysym → Option (TextInput × Bool)
  edit_key t m return = do t' ← press_enter t; some (t', false)
  edit_key t m back_space = do
    (m', changed) ← backspace m
    some (record t { active_model = some m' }, changed)
  edit_key t m delete_key = do
    (m', changed) ← delete m
    some (record t { active_model = some m' }, changed)
  edit_key t m kp_delete = do
    (m', changed) ← delete m
    some (record t { active_model = some m' }, changed)
  edit_key t m (other k) = elim (typed_char (other k)) [
    | none ↦ some (t, false)
    | some c ↦ do m' ← add_char_point m c; some (record t { active_model = some m' }, true)
  ]

  unfoldable pub press_key : TextInput → Keysym → Option (TextInput × Bool)
  press_key t key = elim t.active_model [
    | none ↦ some (t, false)
    | some m ↦ do
      (t', changed) ← edit_key t m key
      t'' ← if changed then send_state_update t' else some t'
      some (t'', changed)
  ]

pub data MethodCall : Type 0 where
  set_client_call : ℕ → String → String → MethodCall
  clear_client_call : MethodCall
  set_editing_state : List ℕ → ℤ → ℤ → ℤ → ℤ → MethodCall
  other_call : MethodCall

-- `as usize` of an `i64`.
abbrev pub as_usize : ℤ → ℕ
as_usize (pos n) = n % 2 ^ 64
as_usize (negsuc n) = 2 ^ 64 - suc n

abbrev both_minus_one : ℤ → ℤ → Bool
both_minus_one (negsuc a) (negsuc b) = a == 0 && b == 0
both_minus_one _ _ = false

-- -1/-1, Flutter's invalid range, is read as 0/0.
abbrev pub to_range : ℤ → ℤ → TextRange
to_range base extent =
    if both_minus_one base extent
    then TextRange.new 0 0
    else TextRange.new (as_usize base) (as_usize extent)

-- The answer of `set_text` is dropped, and every call is answered with success.
unfoldable pub method_call_handler : TextInput → MethodCall → Option TextInput
method_call_handler t (set_client_call id input_type input_action) =
    some (set_client t id input_type input_action)
method_call_handler t clear_client_call = some (clear_client t)
method_call_handler t (set_editing_state text sel_base sel_extent comp_base comp_extent) = do
  m ← t.active_model
  let m' = set_text m text (to_range sel_base sel_extent) (to_range comp_base comp_extent)
  some (record t { active_model = some m'.0 })
method_call_handler t other_call = some t
