-- ===== src/TextInput/TextRange.antt =====
-- platform_channels/text_range.rs: a range of UTF-16 code units, possibly reversed.
use veshell.Base.{ℕ, ◌-◌, min, max, Bool, ◌&&◌, leb, ltb, ◌==◌, if◌then◌else◌}

pub record TextRange : Type 0 where
  pub base : ℕ
  pub extent : ℕ

abbrev pub new : ℕ → ℕ → TextRange
new base extent = record { base = base; extent = extent }

abbrev pub new_position : ℕ → TextRange
new_position position = record { base = position; extent = position }

abbrev pub start : TextRange → ℕ
start r = min r.base r.extent

abbrev pub end : TextRange → ℕ
end r = max r.base r.extent

unfoldable pub set_start : TextRange → ℕ → TextRange
set_start r n = if leb r.base r.extent then record r { base = n } else record r { extent = n }

unfoldable pub set_end : TextRange → ℕ → TextRange
set_end r n = if leb r.base r.extent then record r { extent = n } else record r { base = n }

-- A range that is not collapsed is logged, and its extent is used.
abbrev pub position : TextRange → ℕ
position r = r.extent

unfoldable pub length : TextRange → ℕ
length r = end r - start r

abbrev pub collapsed : TextRange → Bool
collapsed r = r.base == r.extent

unfoldable pub reversed : TextRange → Bool
reversed r = ltb r.extent r.base

unfoldable pub contains_position : TextRange → ℕ → Bool
contains_position r n = leb (start r) n && leb n (end r)

abbrev pub contains_range : TextRange → TextRange → Bool
contains_range r other = leb (start r) (start other) && leb (end other) (end r)
