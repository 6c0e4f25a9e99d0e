-- ===== src/TextInput/Refines.antt =====
-- The editing methods and the edits of characters, surrogate pairs included.
use veshell.Base.{
  ℕ, suc, ◌+◌, ◌-◌, ◌≡◌, refl, ap, ◌∙◌, true, false, List, [], ◌∷◌, ◌++◌, some, length, arith,
  append-nil, append_assoc, take-append_length, drop-append_length, get_elem?-append_length,
  length-append,
}
use veshell.TextInput.TextRange
use veshell.TextInput.TextRange.{TextRange}
use veshell.TextInput.Utf16.{IsScalar, encode_char, encode_utf16}
use veshell.TextInput.Utf16.Laws.{
  width, encode_char-first, encode_char-last, first_unit, last_unit, units_before, units_behind,
  width-units_before, back_width, forward_width-first_unit, back_width-last_unit,
  length-encode_char,
}
use veshell.TextInput.Model.{TextInputModel, splice, width_before, width_at}
use veshell.TextInput.Editing.{
  add_text, delete_selected, replace_composing, insert_at_selection, add_char_point, backspace,
  delete,
}
use veshell.TextInput.Cursor.{move_cursor_forward, move_cursor_back}
use veshell.TextInput.Zipper.{
  zipper, IsText, Edit, insert, backspaces, deletes, forward, back, IsEdit, apply, perform,
  encode_before, shown,
}

pub splice-append :
    (xs ys zs new : List ℕ) (i j : ℕ)
    → i ≡ length xs
    → j ≡ length (xs ++ ys)
    → splice ((xs ++ ys) ++ zs) i j new ≡ some (xs ++ (new ++ zs))
unfolding splice
splice-append xs ys zs new i j hi hj = ground (
  arith,
  append_assoc xs ys zs,
  take-append_length xs (ys ++ zs) i,
  drop-append_length (xs ++ ys) zs j,
  length-append xs ys,
  length-append (xs ++ ys) zs,
)

pub width_at-encode :
    (xs ys : List ℕ) (c : ℕ)
    → IsScalar c
    → width_at (xs ++ (encode_char c ++ ys)) (length xs) ≡ some (width c)
width_at-encode xs ys c s =
    rw
      (encode_char-first c, get_elem?-append_length xs (units_behind c ++ ys) (first_unit c) _ refl)
      (ap some (forward_width-first_unit c s))

width_before-append :
    (front ys : List ℕ) (u p : ℕ)
    → p ≡ suc (length front)
    → width_before (front ++ (u ∷ ys)) p ≡ some (back_width u)
width_before-append front ys u p h =
    ground (arith, get_elem?-append_length front ys u (p - 1) (omega arith))

pub last_unit-append :
    (xs ys : List ℕ) (c : ℕ)
    → xs ++ encode_char c ++ ys ≡ xs ++ units_before c ++ (last_unit c ∷ ys)
last_unit-append xs ys c = rw encode_char-last (simp append_assoc)

pub length-append_encode_char :
    (xs : List ℕ) (c : ℕ) → length (xs ++ encode_char c) ≡ length xs + width c
length-append_encode_char xs c =
    omega (arith, length-append xs (encode_char c), length-encode_char c)

width_before-encode :
    (xs ys : List ℕ) (c : ℕ)
    → IsScalar c
    → width_before (xs ++ encode_char c ++ ys) (length (xs ++ encode_char c)) ≡ some (width c)
width_before-encode xs ys c s = rw (last_unit-append xs ys c) (
    width_before-append (xs ++ units_before c) ys (last_unit c) _ (
      omega (
        arith,
        length-append_encode_char xs c,
        length-append xs (units_before c),
        width-units_before c,
      ))
    ∙ ap some (back_width-last_unit c s))

backspace_cons :
    (c : ℕ) (before after : List ℕ) (r : TextRange)
    → IsScalar c
    → backspace (shown (zipper (c ∷ before) after) r) ≡ some (shown (zipper before after) r, true)
unfolding backspace
backspace_cons c before after r s = ground (
  arith,
  width_before-encode (encode_before before) (encode_utf16 after) c s,
  length-append_encode_char (encode_before before) c,
  splice-append (encode_before before) (encode_char c) (encode_utf16 after) []
      (length (encode_before before)) (length (encode_before before ++ encode_char c)) refl refl,
)

delete_cons :
    (c : ℕ) (before after : List ℕ) (r : TextRange)
    → IsScalar c
    → delete (shown (zipper before (c ∷ after)) r) ≡ some (shown (zipper before after) r, true)
unfolding delete encode_utf16
delete_cons c before after r s = ground (
  arith,
  width_at-encode (encode_before before) (encode_utf16 after) c s,
  length-append_encode_char (encode_before before) c,
  append_assoc (encode_before before) (encode_char c) (encode_utf16 after),
  length-append (encode_before before) (encode_char c ++ encode_utf16 after),
  length-append (encode_char c) (encode_utf16 after),
  length-encode_char c,
  splice-append (encode_before before) (encode_char c) (encode_utf16 after) []
      (length (encode_before before)) (length (encode_before before ++ encode_char c)) refl refl,
)

forward_cons :
    (c : ℕ) (before after : List ℕ) (r : TextRange)
    → IsScalar c
    → move_cursor_forward (shown (zipper before (c ∷ after)) r)
      ≡ some (shown (zipper (c ∷ before) after) r, true)
unfolding move_cursor_forward encode_utf16
forward_cons c before after r s = ground (
  arith,
  width_at-encode (encode_before before) (encode_utf16 after) c s,
  length-append_encode_char (encode_before before) c,
  append_assoc (encode_before before) (encode_char c) (encode_utf16 after),
  length-append (encode_before before) (encode_char c ++ encode_utf16 after),
  length-append (encode_char c) (encode_utf16 after),
  length-encode_char c,
)

back_cons :
    (c : ℕ) (before after : List ℕ) (r : TextRange)
    → IsScalar c
    → move_cursor_back (shown (zipper (c ∷ before) after) r)
      ≡ some (shown (zipper before (c ∷ after)) r, true)
unfolding move_cursor_back encode_utf16
back_cons c before after r s = ground (
  arith,
  width_before-encode (encode_before before) (encode_utf16 after) c s,
  length-append_encode_char (encode_before before) c,
  append_assoc (encode_before before) (encode_char c) (encode_utf16 after),
)

-- A scalar value is added as its encoding.
add_char_point-encode :
    (m : TextInputModel) (c : ℕ) → add_char_point m c ≡ add_text m (encode_char c)
unfolding add_char_point encode_char
add_char_point-encode m c = ground arith

add_text_lem :
    (xs ys new : List ℕ) (r : TextRange)
    → add_text
        (record {
          text = xs ++ ys;
          selection = TextRange.new_position (length xs);
          composing_range = r;
          composing = false;
        })
        new
      ≡ some (record {
        text = xs ++ new ++ ys;
        selection = TextRange.new_position (length (xs ++ new));
        composing_range = r;
        composing = false;
      })
unfolding add_text delete_selected replace_composing insert_at_selection
add_text_lem xs ys new r = ground (
  arith,
  splice-append xs [] ys new (length xs) (length xs) refl,
  append-nil xs,
  append_assoc xs new ys,
  length-append xs new,
)

pub insert_lem :
    (c : ℕ) (before after : List ℕ) (r : TextRange)
    → add_char_point (shown (zipper before after) r) c ≡ some (shown (zipper (c ∷ before) after) r)
insert_lem c before after r =
    add_char_point-encode _ c
    ∙ add_text_lem (encode_before before) (encode_utf16 after) (encode_char c) r

backspace_nil :
    (after : List ℕ) (r : TextRange)
    → backspace (shown (zipper [] after) r) ≡ some (shown (zipper [] after) r, false)
unfolding backspace
backspace_nil after r = ground arith

delete_nil :
    (before : List ℕ) (r : TextRange)
    → delete (shown (zipper before []) r) ≡ some (shown (zipper before []) r, false)
unfolding delete encode_utf16
delete_nil before r = ground (arith, append-nil (encode_before before))

forward_nil :
    (before : List ℕ) (r : TextRange)
    → move_cursor_forward (shown (zipper before []) r) ≡ some (shown (zipper before []) r, false)
unfolding move_cursor_forward encode_utf16
forward_nil before r = ground (arith, append-nil (encode_before before))

back_nil :
    (after : List ℕ) (r : TextRange)
    → move_cursor_back (shown (zipper [] after) r) ≡ some (shown (zipper [] after) r, false)
unfolding move_cursor_back
back_nil after r = ground arith

-- While no text is composed and the selection is a cursor between two characters, each editing
-- method returns, and makes the edit of characters that it stands for, with the same answer to
-- whether anything changed.
pub perform-apply :
    (e : Edit) (before after : List ℕ) (r : TextRange)
    → IsEdit e
    → IsText (zipper before after)
    → perform e (shown (zipper before after) r)
      ≡ some (shown (apply e (zipper before after)).0 r, (apply e (zipper before after)).1)
unfolding perform
perform-apply (insert c) before after r v s = rw (insert_lem c before after r)
perform-apply backspaces [] after r v s = backspace_nil after r
perform-apply backspaces (c ∷ before) after r v s = backspace_cons c before after r s.0.0
perform-apply deletes before [] r v s = delete_nil before r
perform-apply deletes before (c ∷ after) r v s = delete_cons c before after r s.1.0
perform-apply forward before [] r v s = forward_nil before r
perform-apply forward before (c ∷ after) r v s = forward_cons c before after r s.1.0
perform-apply back [] after r v s = back_nil after r
perform-apply back (c ∷ before) after r v s = back_cons c before after r s.0.0
