-- ===== src/TextInput/Model.antt =====
-- platform_channels/text_input_model.rs. A method returns the new model, with its Boolean result
-- where it has one; `none` is a panic (an index or a slice out of range, or an overflow as the
-- development profile checks it). Positions inside a text stay far below 2 ^ 64, as a `Vec<u16>`
-- holds fewer than 2 ^ 62 units; a sum with a number from outside is checked.
use veshell.Base.{
  ℕ, ◌+◌, ◌^◌, Bool, true, false, not, ◌&&◌, ◌||◌, List, [], ◌++◌, Option, none, some, ◌>>=◌, ◌==◌,
  ltb, leb, if◌then◌else◌, length, get_elem?, take, drop, checked_sub,
}
use veshell.TextInput.TextRange
use veshell.TextInput.TextRange.{TextRange}
use veshell.TextInput.Utf16.{
  is_leading_surrogate, is_trailing_surrogate, encode_utf16, from_utf16_lossy, utf8_len,
}

pub record TextInputModel : Type 0 where
  pub text : List ℕ
  pub selection : TextRange
  pub composing_range : TextRange
  pub composing : Bool

abbrev pub default : TextInputModel
default = record {
  text = [];
  selection = TextRange.new_position 0;
  composing_range = TextRange.new_position 0;
  composing = false;
}

-- `Vec::splice`, whose range must lie inside the vector.
unfoldable pub splice : List ℕ → ℕ → ℕ → List ℕ → Option (List ℕ)
splice text first last new =
    if leb first last && leb last (length text)
    then some (take first text ++ (new ++ drop last text))
    else none

abbrev pub usize_limit : ℕ
usize_limit = 2 ^ 64

abbrev pub checked_add : ℕ → ℕ → Option ℕ
checked_add a b = if ltb (a + b) usize_limit then some (a + b) else none

abbrev pub text_range : TextInputModel → TextRange
text_range m = TextRange.new 0 (length m.text)

abbrev pub editable_range : TextInputModel → TextRange
editable_range m = if m.composing then m.composing_range else text_range m

unfoldable pub set_text : TextInputModel → List ℕ → TextRange → TextRange → TextInputModel × Bool
set_text m text selection composing_range =
    let m' = record m { text = encode_utf16 text } in
    if not (TextRange.contains_range (text_range m') selection)
      || not (TextRange.contains_range (text_range m') composing_range)
    then (m', false)
    else (
      record m' {
        selection = selection;
        composing_range = composing_range;
        composing = not (TextRange.collapsed composing_range);
      },
      true,
    )

unfoldable pub set_selection : TextInputModel → TextRange → TextInputModel × Bool
set_selection m selection =
    if m.composing && not (TextRange.collapsed selection)
    then (m, false)
    else if not (TextRange.contains_range (editable_range m) selection)
    then (m, false)
    else (record m { selection = selection }, true)

unfoldable pub set_composing_range : TextInputModel → TextRange → ℕ → Option (TextInputModel × Bool)
set_composing_range m composing_range cursor_offset =
    if not m.composing || not (TextRange.contains_range (text_range m) composing_range)
    then some (m, false)
    else do
      cursor ← checked_add (TextRange.start composing_range) cursor_offset
      some (
        record m { composing_range = composing_range; selection = TextRange.new_position cursor },
        true,
      )

unfoldable pub begin_composing : TextInputModel → TextInputModel
begin_composing m = record m {
  composing = true;
  composing_range = TextRange.new_position (TextRange.start m.selection);
}

unfoldable pub update_composing_text_selection :
    TextInputModel → List ℕ → TextRange → Option TextInputModel
update_composing_text_selection m text selection =
    let collapsed = TextRange.collapsed m.composing_range in
    let range_to_delete = if collapsed then m.selection else m.composing_range in
    let start = TextRange.start m.composing_range in
    if length text == 0 && collapsed then some m else do
      text' ← splice m.text (TextRange.start range_to_delete) (TextRange.end range_to_delete) text
      let composing_range = TextRange.set_end m.composing_range (start + length text)
      base ← checked_add (TextRange.start selection) (TextRange.start composing_range)
      extent ← checked_add selection.extent (TextRange.start composing_range)
      some (record m {
        text = text';
        composing_range = composing_range;
        selection = TextRange.new base extent;
      })

unfoldable pub update_composing_text : TextInputModel → List ℕ → Option TextInputModel
update_composing_text m text =
    update_composing_text_selection m text (TextRange.new_position (length text))

unfoldable pub update_composing_text_utf8 : TextInputModel → List ℕ → Option TextInputModel
update_composing_text_utf8 m text = update_composing_text m (encode_utf16 text)

unfoldable pub commit_composing : TextInputModel → TextInputModel
commit_composing m =
    let range = TextRange.new_position (TextRange.end m.composing_range) in
    if TextRange.collapsed m.composing_range
    then m
    else record m { composing_range = range; selection = range }

unfoldable pub end_composing : TextInputModel → TextInputModel
end_composing m = record m { composing = false; composing_range = TextRange.new_position 0 }

-- The unit at `position - 1` and the unit at `position`, as the code that moves reads them.
abbrev pub width_before : List ℕ → ℕ → Option ℕ
width_before text position = do
  i ← checked_sub position 1
  u ← get_elem? text i
  some (if is_trailing_surrogate u then 2 else 1)

abbrev pub width_at : List ℕ → ℕ → Option ℕ
width_at text position = do
  u ← get_elem? text position
  some (if is_leading_surrogate u then 2 else 1)

unfoldable pub get_text : TextInputModel → List ℕ
get_text m = from_utf16_lossy m.text

-- A slice up to a position behind the end of the text panics.
unfoldable pub get_cursor_offset : TextInputModel → Option ℕ
get_cursor_offset m =
    if leb m.selection.extent (length m.text)
    then some (utf8_len (from_utf16_lossy (take m.selection.extent m.text)))
    else none
