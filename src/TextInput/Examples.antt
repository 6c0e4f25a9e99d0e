-- ===== src/TextInput/Examples.antt =====
-- Runs of the text input on small texts: `a` is one unit wide, the face U+1F600 two.
use veshell.Base.{
  ℕ, ◌≡◌, refl, true, false, List, [], ◌∷◌, ◌++◌, Option, none, some, ◌>>=◌, arith, inl, inr, All,
}
use veshell.Base.Int.{pos, negsuc}
use veshell.TextInput.TextRange
use veshell.TextInput.TextRange.{TextRange}
use veshell.TextInput.Utf16.{encode_char, encode_utf16, from_utf16_lossy, utf8_len}
use veshell.TextInput.Utf16.Laws.{units_before}
use veshell.TextInput.Model.{TextInputModel, default, get_text, get_cursor_offset, set_text}
use veshell.TextInput.Editing.{add_text}
use veshell.TextInput.Surroundings.{delete_surroundings}
use veshell.TextInput.Zipper.{
  Zipper, zipper, IsText, Edit, insert, backspaces, deletes, back, IsEdit, apply_all, perform,
  perform_all, shown,
}
use veshell.TextInput.Refines.{perform-apply}
use veshell.TextInput.Typing.{to_list, perform_all-default}
use veshell.TextInput.Composition.{
  at_cursor, composed, compose, compose-at_cursor, add_text-composed,
}
use veshell.TextInput.Deleting.{delete_surroundings-before, delete_surroundings_panics}
use veshell.TextInput.Field.{
  TextInput, Keysym, return, back_space, other, press_key, method_call_handler, set_editing_state,
}
use veshell.TextInput.Field.Keys.{
  editing, reported, entered, press_key-edit, press_key-return, press_key-rejected_state,
}

abbrev face : ℕ
face = 0x1f600

abbrev origin : TextRange
origin = TextRange.new_position 0

encode_face : encode_utf16 (face ∷ b'a' ∷ []) ≡ 0xd83d ∷ 0xde00 ∷ b'a' ∷ []
unfolding encode_utf16 encode_char
encode_face = refl

decode_lone : from_utf16_lossy (0xde00 ∷ b'a' ∷ []) ≡ 0xfffd ∷ b'a' ∷ []
unfolding from_utf16_lossy
decode_lone = refl

abbrev typed : List Edit
typed = insert b'a' ∷ insert face ∷ back ∷ insert b'b' ∷ deletes ∷ []

typed_text : to_list (apply_all typed (zipper [] [])) ≡ b'a' ∷ b'b' ∷ []
typed_text = refl

typed_valid : All IsEdit typed
typed_valid = omega arith

perform_all-default_example :
    (m : TextInputModel) × (perform_all typed default ≡ some m)
    × (get_text m ≡ b'a' ∷ b'b' ∷ [])
    × (get_cursor_offset m ≡ some (utf8_len (b'a' ∷ b'b' ∷ [])))
perform_all-default_example = perform_all-default typed typed_valid

perform-apply_example :
    perform backspaces (shown (zipper (face ∷ b'a' ∷ []) (b'c' ∷ [])) origin)
    ≡ some (shown (zipper (b'a' ∷ []) (b'c' ∷ [])) origin, true)
perform-apply_example =
    perform-apply backspaces (face ∷ b'a' ∷ []) (b'c' ∷ []) origin tt (omega arith)

compose-at_cursor_example :
    compose ((b'x' ∷ []) ∷ (b'y' ∷ b'z' ∷ []) ∷ []) (at_cursor (b'a' ∷ []) (b'c' ∷ []) origin)
    ≡ some (at_cursor (b'a' ∷ b'y' ∷ b'z' ∷ []) (b'c' ∷ []) origin)
compose-at_cursor_example =
    compose-at_cursor ((b'x' ∷ []) ∷ (b'y' ∷ b'z' ∷ []) ∷ []) (b'a' ∷ []) (b'c' ∷ []) origin
      (omega arith)

add_text-composed_example :
    add_text (composed (b'a' ∷ []) (b'x' ∷ []) (b'c' ∷ [])) (b'z' ∷ [])
    ≡ some (record {
      text = b'a' ∷ b'z' ∷ b'z' ∷ b'c' ∷ [];
      selection = TextRange.new_position 2;
      composing_range = TextRange.new 1 2;
      composing = true;
    })
add_text-composed_example = add_text-composed (b'a' ∷ []) (b'x' ∷ []) (b'c' ∷ []) (b'z' ∷ [])

delete_surroundings-before_example :
    delete_surroundings (shown (zipper (face ∷ []) []) origin) (negsuc 0) 1
    ≡ some (
      record {
        text = units_before face ++ encode_utf16 [];
        selection = TextRange.new_position 1;
        composing_range = origin;
        composing = false;
      },
      true,
    )
delete_surroundings-before_example =
    delete_surroundings-before face [] [] origin (inr (omega arith))

delete_surroundings_panics_example :
    delete_surroundings (shown (zipper [] (face ∷ b'a' ∷ [])) origin) (pos 0) 2 ≡ none
delete_surroundings_panics_example =
    delete_surroundings_panics face b'a' [] origin (inr (omega arith)) (inl (omega arith))
      (omega arith) (omega arith)

-- Every key types the letter that it is numbered by.
abbrev types_itself : Keysym → Option ℕ
types_itself (other k) = some k
types_itself _ = none

abbrev line : TextInput
line = record {
  active_model = none;
  client_id = 7;
  input_type = "TextInputType.multiline";
  input_action = "TextInputAction.newline";
  sent = [];
}

abbrev abc : Zipper
abc = zipper (b'b' ∷ b'a' ∷ []) (b'c' ∷ [])

abc-IsText : IsText abc
abc-IsText = omega arith

press_key-edit_example :
    press_key types_itself (editing line abc origin) back_space
    ≡ some (reported line (zipper (b'a' ∷ []) (b'c' ∷ []), true) origin, true)
press_key-edit_example =
    press_key-edit types_itself line abc origin back_space backspaces refl tt abc-IsText

a_return :
    press_key types_itself (editing line abc origin) return
    ≡ some (entered line abc origin true, false)
a_return = press_key-return types_itself line abc origin abc-IsText

press_key-rejected_state_example :
    (method_call_handler
        (editing line abc origin)
        (set_editing_state (b'q' ∷ []) (pos 5) (pos 5) (negsuc 0) (negsuc 0))
      >>= λ t'. press_key types_itself t' back_space)
    ≡ none
unfolding encode_utf16 encode_char set_text
press_key-rejected_state_example =
    press_key-rejected_state types_itself line abc origin (b'q' ∷ []) (pos 5) (pos 5) (negsuc 0)
      (negsuc 0) (omega arith) refl
