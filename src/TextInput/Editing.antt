-- ===== src/TextInput/Editing.antt =====
-- The editing methods of platform_channels/text_input_model.rs: `delete_selected`, `add_text`,
-- `add_char_point`, `backspace` and `delete`.
use veshell.Base.{
  ℕ, ◌+◌, ◌-◌, ◌/◌, ◌%◌, ◌^◌, Bool, true, false, not, List, [], ◌∷◌, Option, some, ◌>>=◌, ◌==◌, ltb,
  leb, if◌then◌else◌, length, checked_sub,
}
use veshell.TextInput.TextRange
use veshell.TextInput.TextRange.{TextRange}
use veshell.TextInput.Model.{TextInputModel, editable_range, splice, width_before, width_at}

unfoldable pub delete_selected : TextInputModel → Option (TextInputModel × Bool)
delete_selected m =
    let start = TextRange.start m.selection in
    let range = TextRange.new_position start in
    if TextRange.collapsed m.selection then some (m, false) else do
      text ← splice m.text start (TextRange.end m.selection) []
      some (
        record m {
          text = text;
          selection = range;
          composing_range = if m.composing then range else m.composing_range;
        },
        true,
      )

-- The part of `add_text` that runs while a text is composed.
unfoldable pub replace_composing : TextInputModel → List ℕ → Option TextInputModel
replace_composing m text =
    let start = TextRange.start m.composing_range in
    if not m.composing then some m else do
      text' ← splice m.text start (TextRange.end m.composing_range) text
      some (record m {
        text = text';
        selection = TextRange.new_position start;
        composing_range = TextRange.set_end m.composing_range (start + length text);
      })

unfoldable pub insert_at_selection : TextInputModel → List ℕ → Option TextInputModel
insert_at_selection m text = do
  let position = TextRange.position m.selection
  text' ← splice m.text position position text
  some (record m { text = text'; selection = TextRange.new_position (position + length text) })

unfoldable pub add_text : TextInputModel → List ℕ → Option TextInputModel
add_text m text = do
  (m', _) ← delete_selected m
  m'' ← replace_composing m' text
  insert_at_selection m'' text

-- `(c - 0x10000) >> 10` and `(c - 0x10000) % 0x400`, each put into its half of the surrogates.
unfoldable pub add_char_point : TextInputModel → ℕ → Option TextInputModel
add_char_point m c =
    let to_decompose = c - 0x10000 in
    if leb c 0xffff
    then add_text m (c ∷ [])
    else add_text m ((to_decompose / 2 ^ 10 + 0xd800) ∷ (to_decompose % 0x400 + 0xdc00) ∷ [])

-- `composing_range.set_end(composing_range.end() - count)`, where a text is composed.
abbrev pub shrink_composing : TextInputModel → ℕ → Option TextInputModel
shrink_composing m count = if not m.composing then some m else do
  e ← checked_sub (TextRange.end m.composing_range) count
  some (record m { composing_range = TextRange.set_end m.composing_range e })

unfoldable pub backspace_collapsed : TextInputModel → Option (TextInputModel × Bool)
backspace_collapsed m =
    let position = TextRange.position m.selection in
    if position == TextRange.start (editable_range m) then some (m, false) else do
      count ← width_before m.text position
      first ← checked_sub position count
      text ← splice m.text first position []
      m' ←
          shrink_composing (record m { text = text; selection = TextRange.new_position first })
            count
      some (m', true)

unfoldable pub backspace : TextInputModel → Option (TextInputModel × Bool)
unfolding delete_selected backspace_collapsed
backspace m = do
  (m', deleted) ← delete_selected m
  if deleted then some (m', true) else backspace_collapsed m'

unfoldable pub delete_collapsed : TextInputModel → Option (TextInputModel × Bool)
delete_collapsed m =
    let position = TextRange.position m.selection in
    if not (ltb position (TextRange.end (editable_range m))) then some (m, false) else do
      count ← width_at m.text position
      text ← splice m.text position (position + count) []
      m' ← shrink_composing (record m { text = text }) count
      some (m', true)

unfoldable pub delete : TextInputModel → Option (TextInputModel × Bool)
unfolding delete_selected delete_collapsed
delete m = do
  (m', deleted) ← delete_selected m
  if deleted then some (m', true) else delete_collapsed m'
