-- ===== src/TextInput/Zipper.antt =====
-- What the model promises while no text is composed: a text of characters with a cursor, which
-- knows nothing of code units. `before` is read from the cursor to the left.
use veshell.Base.{ℕ, Bool, true, false, List, [], ◌∷◌, ◌++◌, Option, some, ◌>>=◌, length, All}
use veshell.TextInput.TextRange
use veshell.TextInput.TextRange.{TextRange}
use veshell.TextInput.Utf16.{IsScalar, encode_char, encode_utf16}
use veshell.TextInput.Model.{TextInputModel}
use veshell.TextInput.Editing.{add_char_point, backspace, delete}
use veshell.TextInput.Cursor.{move_cursor_forward, move_cursor_back}

pub record Zipper : Type 0 where
  pub before : List ℕ
  pub after : List ℕ

abbrev pub zipper : List ℕ → List ℕ → Zipper
zipper before after = record { before = before; after = after }

abbrev pub IsText : Zipper → Type 0
IsText z = All IsScalar z.before × All IsScalar z.after

pub data Edit : Type 0 where
  insert : ℕ → Edit
  backspaces deletes forward back : Edit

abbrev pub IsEdit : Edit → Type 0
IsEdit (insert c) = IsScalar c
IsEdit _ = Unit

abbrev pub erase_before : List ℕ → List ℕ → Zipper × Bool
erase_before [] after = (zipper [] after, false)
erase_before (c ∷ before) after = (zipper before after, true)

abbrev pub erase_after : List ℕ → List ℕ → Zipper × Bool
erase_after before [] = (zipper before [], false)
erase_after before (c ∷ after) = (zipper before after, true)

abbrev pub step_forward : List ℕ → List ℕ → Zipper × Bool
step_forward before [] = (zipper before [], false)
step_forward before (c ∷ after) = (zipper (c ∷ before) after, true)

abbrev pub step_back : List ℕ → List ℕ → Zipper × Bool
step_back [] after = (zipper [] after, false)
step_back (c ∷ before) after = (zipper before (c ∷ after), true)

-- The new text, and whether anything changed.
abbrev pub apply : Edit → Zipper → Zipper × Bool
apply (insert c) z = (zipper (c ∷ z.before) z.after, true)
apply backspaces z = erase_before z.before z.after
apply deletes z = erase_after z.before z.after
apply forward z = step_forward z.before z.after
apply back z = step_back z.before z.after

abbrev pub apply_all : List Edit → Zipper → Zipper
apply_all [] z = z
apply_all (e ∷ es) z = apply_all es (apply e z).0

-- The code's method for each edit.
unfoldable pub perform : Edit → TextInputModel → Option (TextInputModel × Bool)
perform (insert c) m = do m' ← add_char_point m c; some (m', true)
perform backspaces m = backspace m
perform deletes m = delete m
perform forward m = move_cursor_forward m
perform back m = move_cursor_back m

unfoldable pub perform_all : List Edit → TextInputModel → Option TextInputModel
perform_all [] m = some m
perform_all (e ∷ es) m = do (m', _) ← perform e m; perform_all es m'

abbrev pub encode_before : List ℕ → List ℕ
encode_before [] = []
encode_before (c ∷ cs) = encode_before cs ++ encode_char c

-- The model that shows a zipper, whatever it remembers of an earlier composition.
abbrev pub shown : Zipper → TextRange → TextInputModel
shown z composing_range = record {
  text = encode_before z.before ++ encode_utf16 z.after;
  selection = TextRange.new_position (length (encode_before z.before));
  composing_range = composing_range;
  composing = false;
}
