-- ===== src/TextInput/Cursor.antt =====
-- The cursor and selection methods of platform_channels/text_input_model.rs.
use veshell.Base.{
  ◌+◌, Bool, true, false, not, ◌&&◌, Option, some, ◌>>=◌, ◌==◌, if◌then◌else◌, checked_sub,
}
use veshell.TextInput.TextRange
use veshell.TextInput.TextRange.{TextRange}
use veshell.TextInput.Model.{TextInputModel, editable_range, width_before, width_at}

unfoldable pub move_cursor_to_beginning : TextInputModel → TextInputModel × Bool
move_cursor_to_beginning m =
    let min_pos = TextRange.start (editable_range m) in
    if TextRange.collapsed m.selection && TextRange.position m.selection == min_pos
    then (m, false)
    else (record m { selection = TextRange.new_position min_pos }, true)

unfoldable pub move_cursor_to_end : TextInputModel → TextInputModel × Bool
move_cursor_to_end m =
    let max_pos = TextRange.end (editable_range m) in
    if TextRange.collapsed m.selection && TextRange.position m.selection == max_pos
    then (m, false)
    else (record m { selection = TextRange.new_position max_pos }, true)

unfoldable pub select_to_beginning : TextInputModel → TextInputModel × Bool
select_to_beginning m =
    let min_pos = TextRange.start (editable_range m) in
    if TextRange.collapsed m.selection && TextRange.position m.selection == min_pos
    then (m, false)
    else (record m { selection = TextRange.new m.selection.base min_pos }, true)

unfoldable pub select_to_end : TextInputModel → TextInputModel × Bool
select_to_end m =
    let max_pos = TextRange.end (editable_range m) in
    if TextRange.collapsed m.selection && TextRange.position m.selection == max_pos
    then (m, false)
    else (record m { selection = TextRange.new m.selection.base max_pos }, true)

unfoldable pub move_cursor_forward : TextInputModel → Option (TextInputModel × Bool)
move_cursor_forward m =
    let position = TextRange.position m.selection in
    if not (TextRange.collapsed m.selection)
    then some (record m { selection = TextRange.new_position (TextRange.end m.selection) }, true)
    else if position == TextRange.end (editable_range m)
    then some (m, false)
    else do
      count ← width_at m.text position
      some (record m { selection = TextRange.new_position (position + count) }, true)

unfoldable pub move_cursor_back : TextInputModel → Option (TextInputModel × Bool)
move_cursor_back m =
    let position = TextRange.position m.selection in
    if not (TextRange.collapsed m.selection)
    then some (record m { selection = TextRange.new_position (TextRange.start m.selection) }, true)
    else if position == TextRange.start (editable_range m)
    then some (m, false)
    else do
      count ← width_before m.text position
      first ← checked_sub position count
      some (record m { selection = TextRange.new_position first }, true)
