-- ===== src/TextInput/Deleting.antt =====
-- What `delete_surroundings` removes next to the cursor, and what a rejected `set_text` leaves.
use veshell.Base.{
  ℕ, ◌+◌, ◌-◌, ◌<◌, ◌≤◌, ◌≡◌, refl, true, false, List, [], ◌∷◌, ◌++◌, some, append-nil,
  append_assoc, length, arith, length-append, none, not, ◌⊎◌, get_elem?-none,
  get_elem?-append_length,
}
use veshell.Base.Int.{pos, negsuc}
use veshell.TextInput.TextRange
use veshell.TextInput.TextRange.{TextRange}
use veshell.TextInput.Utf16.{IsScalar, encode_char, encode_utf16, is_leading_surrogate}
use veshell.TextInput.Utf16.Laws.{
  last_unit, units_before, width-units_before, length-encode_char, is_leading_surrogate_range,
}
use veshell.TextInput.Model.{TextInputModel, splice, set_text}
use veshell.TextInput.Editing.{backspace}
use veshell.TextInput.Surroundings.{delete_surroundings, walk_back, walk_forward, walk_end}
use veshell.TextInput.Zipper.{zipper, encode_before, shown}
use veshell.TextInput.Refines.{
  splice-append, last_unit-append, length-append_encode_char, width_at-encode,
}

last_unit-not_leading : (c : ℕ) → IsScalar c → is_leading_surrogate (last_unit c) ≡ false
last_unit-not_leading c s =
    rw (is_leading_surrogate_range (last_unit c) (ground arith)) (ground arith)

-- Deleting one character before the cursor removes its last unit alone: the whole character if it
-- is one unit wide, and half of its surrogate pair otherwise.
pub delete_surroundings-before :
    (c : ℕ) (before after : List ℕ) (r : TextRange)
    → IsScalar c
    → delete_surroundings (shown (zipper (c ∷ before) after) r) (negsuc 0) 1
      ≡ some (
        record {
          text = encode_before before ++ units_before c ++ encode_utf16 after;
          selection = TextRange.new_position (length (encode_before before ++ units_before c));
          composing_range = r;
          composing = false;
        },
        true,
      )
unfolding delete_surroundings walk_back walk_end
delete_surroundings-before c before after r s =
    let xs = encode_before before ++ units_before c in
    let ys = encode_utf16 after in
    rw (last_unit-append (encode_before before) ys c) (
      ground (
        arith,
        last_unit-not_leading c s,
        get_elem?-append_length xs ys (last_unit c) (length xs) refl,
        length-append_encode_char (encode_before before) c,
        length-append (encode_before before) (units_before c),
        width-units_before c,
        length-append xs (last_unit c ∷ ys),
        splice-append xs (last_unit c ∷ []) ys [] (length xs) (length xs + 1) refl,
        length-append xs (last_unit c ∷ []),
        append_assoc xs (last_unit c ∷ []) ys,
      ))

-- Deleting one character behind the cursor removes it, whatever its width.
pub delete_surroundings-after :
    (c : ℕ) (before after : List ℕ) (r : TextRange)
    → IsScalar c
    → delete_surroundings (shown (zipper before (c ∷ after)) r) (pos 0) 1
      ≡ some (shown (zipper before after) r, true)
unfolding delete_surroundings walk_forward walk_end encode_utf16
delete_surroundings-after c before after r s = ground (
  arith,
  width_at-encode (encode_before before) (encode_utf16 after) c s,
  length-append_encode_char (encode_before before) c,
  append_assoc (encode_before before) (encode_char c) (encode_utf16 after),
  length-append (encode_before before) (encode_char c ++ encode_utf16 after),
  length-append (encode_char c) (encode_utf16 after),
  length-encode_char c,
  splice-append (encode_before before) (encode_char c) (encode_utf16 after) []
      (length (encode_before before)) (length (encode_before before ++ encode_char c)) refl refl,
)

-- Deleting two characters at the end of a text panics where the first is a surrogate pair and the
-- second is not: each round takes the width of the first.
pub delete_surroundings_panics :
    (c d : ℕ) (before : List ℕ) (r : TextRange)
    → IsScalar c
    → IsScalar d
    → 0xffff < c
    → d ≤ 0xffff
    → delete_surroundings (shown (zipper before (c ∷ d ∷ [])) r) (pos 0) 2 ≡ none
unfolding delete_surroundings walk_forward walk_end encode_utf16 splice
delete_surroundings_panics c d before r s t h k = ground (
  arith,
  width_at-encode (encode_before before) (encode_char d ++ []) c s,
  length-append (encode_before before) (encode_char c ++ (encode_char d ++ [])),
  length-append (encode_char c) (encode_char d ++ []),
  append-nil (encode_char d),
  length-encode_char c,
  length-encode_char d,
)

-- `set_text` replaces the text in any case. If both ranges lie in the new text it takes them over,
-- composes exactly if the composing range is not empty, and answers true; otherwise it keeps all
-- else and answers false.
pub set_text-cases :
    (m : TextInputModel) (text : List ℕ) (selection range : TextRange)
    → ((TextRange.end selection ≤ length (encode_utf16 text))
        × (TextRange.end range ≤ length (encode_utf16 text))
        × (set_text m text selection range ≡ (
          record {
            text = encode_utf16 text;
            selection = selection;
            composing_range = range;
            composing = not (TextRange.collapsed range);
          },
          true,
        )))
      ⊎ (((length (encode_utf16 text) < TextRange.end selection)
            ⊎ (length (encode_utf16 text) < TextRange.end range))
          × (set_text m text selection range ≡ (record m { text = encode_utf16 text }, false)))
unfolding set_text
set_text-cases m text selection range = ground arith

-- A rejected `set_text` may leave the cursor behind the end of the new text, and then the next
-- backspace panics.
pub backspace-set_text_rejected :
    (m : TextInputModel) (text : List ℕ) (selection range : TextRange)
    → m.composing ≡ false
    → TextRange.collapsed m.selection ≡ true
    → length (encode_utf16 text) < m.selection.extent
    → (set_text m text selection range).1 ≡ false
    → backspace (set_text m text selection range).0 ≡ none
unfolding backspace
backspace-set_text_rejected m text selection range h c l e = ground (
  arith,
  set_text-cases m text selection range,
  get_elem?-none (encode_utf16 text) (m.selection.extent - 1),
)
