-- ===== src/TextInput/Surroundings.antt =====
-- `delete_surroundings` of platform_channels/text_input_model.rs: two loops that look for the
-- first and the last position, and the deletion between them.
use veshell.Base.{
  ℕ, zero, suc, ◌+◌, ◌-◌, ◌^◌, Bool, true, false, List, [], Option, none, some, ◌>>=◌, ◌==◌,
  if◌then◌else◌, get_elem?, checked_sub,
}
use veshell.Base.Int.{ℤ, pos, negsuc}
use veshell.TextInput.TextRange
use veshell.TextInput.Utf16.{is_leading_surrogate}
use veshell.TextInput.Model.{TextInputModel, editable_range, splice, width_at}
use veshell.TextInput.Editing.{shrink_composing}

-- `for i in 0..rounds`: `i` counts up as the rounds left go down.
unfoldable pub walk_back : ℕ → ℕ → ℕ → List ℕ → ℕ → ℕ → Option (ℕ × ℕ)
walk_back zero i lo text start count = some (start, count)
walk_back (suc rounds) i lo text start count =
    let step = do
      before ← checked_sub start 1
      u ← get_elem? text before
      start' ← checked_sub start (if is_leading_surrogate u then 2 else 1)
      walk_back rounds (suc i) lo text start' count
    in if start == lo then some (start, i) else step

unfoldable pub walk_forward : ℕ → ℕ → List ℕ → ℕ → Option ℕ
walk_forward zero max_pos text start = some start
walk_forward (suc rounds) max_pos text start =
    let step = do count ← width_at text start; walk_forward rounds max_pos text (start + count)
    in if start == max_pos then some start else step

-- Each round reads the unit at `start`, not at `end`.
unfoldable pub walk_end : ℕ → ℕ → List ℕ → ℕ → ℕ → Option ℕ
walk_end zero max_pos text start end = some end
walk_end (suc rounds) max_pos text start end =
    let step = do count ← width_at text start; walk_end rounds max_pos text start (end + count)
    in if end == max_pos then some end else step

-- `-offset_from_cursor` overflows at `i32::MIN`.
abbrev find_start : TextInputModel → ℤ → ℕ → Option (ℕ × ℕ)
find_start m (negsuc n) count =
    if n == 2 ^ 31 - 1
    then none
    else walk_back (suc n) 0 (TextRange.start (editable_range m)) m.text m.selection.extent count
find_start m (pos n) count = do
  start ← walk_forward n (TextRange.end (editable_range m)) m.text m.selection.extent
  some (start, count)

abbrev cursor_after : TextInputModel → ℤ → ℕ → ℕ
cursor_after m (negsuc n) start = start
cursor_after m (pos n) start = if n == 0 then start else TextRange.start m.selection

unfoldable pub delete_surroundings : TextInputModel → ℤ → ℕ → Option (TextInputModel × Bool)
delete_surroundings m offset_from_cursor count = do
  (start, count') ← find_start m offset_from_cursor count
  end ← walk_end count' (TextRange.end (editable_range m)) m.text start start
  let cursor = cursor_after m offset_from_cursor start
  let deleted = do
    deleted_length ← checked_sub end start
    text ← splice m.text start end []
    m' ←
        shrink_composing (record m { text = text; selection = TextRange.new_position cursor })
          deleted_length
    some (m', true)
  if start == end then some (m, false) else deleted
