-- ===== src/TextInput/Field/Keys.antt =====
-- The keys that Flutter leaves to the text input, on a field that shows a text with a cursor.
use text.Mathlib.Text.{◌==◌ as str_eq}
use veshell.Base.{
  ℕ, ◌<◌, ◌≡◌, refl, ap, Bool, true, false, List, [], ◌∷◌, ◌++◌, Option, none, some, ◌>>=◌,
  if◌then◌else◌, length, arith, inl, inr, Bool-cases, ==_iff,
}
use veshell.Base.Int.{ℤ}
use veshell.TextInput.TextRange
use veshell.TextInput.TextRange.{TextRange}
use veshell.TextInput.Utf16.{encode_utf16}
use veshell.TextInput.Model.{TextInputModel, set_text}
use veshell.TextInput.Zipper.{
  Zipper, zipper, IsText, Edit, insert, backspaces, deletes, IsEdit, apply, perform, encode_before,
  shown,
}
use veshell.TextInput.Refines.{perform-apply, insert_lem}
use veshell.TextInput.Typing.{to_list, apply-IsText, get_text-shown}
use veshell.TextInput.Deleting.{backspace-set_text_rejected}
use veshell.TextInput.Field.{
  TextInput, Outgoing, update_editing_state, perform_action, Keysym, return, back_space, delete_key,
  kp_delete, other, typed_char, edit_key, press_key, press_enter, send_state_update, newline_typed,
  method_call_handler, set_editing_state, to_range,
}

-- The field `t` with the text and the cursor of `z`.
abbrev pub editing : TextInput → Zipper → TextRange → TextInput
editing t z r = record t { active_model = some (shown z r) }

abbrev pub update_of : TextInput → Zipper → TextRange → Outgoing
update_of t z r =
    update_editing_state t.client_id (to_list z)
      (TextRange.new_position (length (encode_before z.before))) r

-- The field after an edit, which reports the text of characters if anything changed.
abbrev pub reported : TextInput → Zipper × Bool → TextRange → TextInput
reported t (z, changed) r =
    if changed
    then record (editing t z r) { sent = t.sent ++ (update_of t z r ∷ []) }
    else editing t z r

send-editing :
    (t : TextInput) (z : Zipper) (r : TextRange)
    → IsText z
    → send_state_update (editing t z r) ≡ some (reported t (z, true) r)
unfolding send_state_update
send-editing t z r s =
    ap
      (λ text. some (record (editing t z r) {
        sent =
            t.sent
            ++ (update_editing_state t.client_id text
                  (TextRange.new_position (length (encode_before z.before))) r
                ∷ []);
      }))
      (get_text-shown z r s)

-- The field after Return: whether it is multiline is the argument.
abbrev pub entered : TextInput → Zipper → TextRange → Bool → TextInput
entered t z r multiline =
    let t' =
      if multiline then reported t (zipper (0xa ∷ z.before) z.after, true) r else editing t z r in
    record t' { sent = t'.sent ++ (perform_action t.client_id t.input_action ∷ []) }

newline-editing :
    (t : TextInput) (z : Zipper) (r : TextRange)
    → IsText z
    → newline_typed (editing t z r) ≡ some (reported t (zipper (0xa ∷ z.before) z.after, true) r)
newline-editing t z r s =
    rw (insert_lem 0xa z.before z.after r)
      (send-editing t (zipper (0xa ∷ z.before) z.after) r ((inl (omega arith), s.0), s.1))

module _ (key_char : Keysym → Option ℕ) where
  abbrev pub key_edit : Keysym → Option Edit
  key_edit return = none
  key_edit back_space = some backspaces
  key_edit delete_key = some deletes
  key_edit kp_delete = some deletes
  key_edit (other k) = elim (typed_char key_char (other k)) [
    | none ↦ none
    | some c ↦ some (insert c)
  ]

  abbrev with_model : TextInput → TextInputModel × Bool → TextInput × Bool
  with_model t (m, changed) = (record t { active_model = some m }, changed)

  edit_key-perform :
      (t : TextInput) (m : TextInputModel) (key : Keysym) (e : Edit)
      → key_edit key ≡ some e
      → edit_key key_char t m key ≡ (perform e m >>= λ r. some (with_model t r))
  unfolding edit_key perform
  edit_key-perform t m return e h = cc
  edit_key-perform t m back_space e h = ground arith
  edit_key-perform t m delete_key e h = ground arith
  edit_key-perform t m kp_delete e h = ground arith
  edit_key-perform t m (other k) e h = ground arith

  -- A key that stands for an edit of characters makes that edit, and reports the new text and
  -- cursor to Flutter exactly if the edit changed something.
  pub press_key-edit :
      (t : TextInput) (z : Zipper) (r : TextRange) (key : Keysym) (e : Edit)
      → key_edit key ≡ some e
      → IsEdit e
      → IsText z
      → press_key key_char (editing t z r) key ≡ some (reported t (apply e z) r, (apply e z).1)
  unfolding press_key
  press_key-edit t z r key e h v s =
      rw
        (
          edit_key-perform (editing t z r) (shown z r) key e h,
          perform-apply e z.before z.after r v s,
        )
        (ground (arith, send-editing t (apply e z).0 r (apply-IsText e z.before z.after v s)))

  -- Return performs the field's action. In a multiline field it first types a line feed and
  -- reports it. The key itself is answered as unchanged in both cases.
  pub press_key-return :
      (t : TextInput) (z : Zipper) (r : TextRange)
      → IsText z
      → press_key key_char (editing t z r) return
        ≡ some (entered t z r (str_eq t.input_type "TextInputType.multiline"), false)
  unfolding press_key edit_key press_enter
  press_key-return t z r s = elim (Bool-cases (str_eq t.input_type "TextInputType.multiline")) [
    | inl e ↦ rw (e, newline-editing t z r s)
    | inr e ↦ rw e
  ]

-- An editing state that `set_text` rejects may put the text's end before the cursor; the handler
-- reports success, and the next backspace panics.
pub press_key-rejected_state :
    (key_char : Keysym → Option ℕ) (t : TextInput) (z : Zipper) (r : TextRange) (text : List ℕ)
    (sel_base sel_extent comp_base comp_extent : ℤ)
    → length (encode_utf16 text) < length (encode_before z.before)
    → (set_text (shown z r) text (to_range sel_base sel_extent) (to_range comp_base comp_extent)).1
      ≡ false
    → (method_call_handler
          (editing t z r)
          (set_editing_state text sel_base sel_extent comp_base comp_extent)
        >>= λ t'. press_key key_char t' back_space)
      ≡ none
unfolding method_call_handler press_key edit_key
press_key-rejected_state key_char t z r text sb se cb ce l e = rw (
    backspace-set_text_rejected (shown z r) text (to_range sb se) (to_range cb ce) refl
      ((==_iff _ _).1 refl) l e)
