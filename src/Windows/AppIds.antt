-- ===== src/Windows/AppIds.antt =====
-- Whether two names stand for one application (meta_window_state/mod.rs).
use Prim.Native.Char.{code}
use Prim.Native.String.{String, [], ◌∷◌, len, slice}
use veshell.Base.{ℕ, ◌+◌, ◌-◌, Bool, true, false, ◌&&◌, ◌==◌, leb, if◌then◌else◌}
use veshell.Portal.Types.{text_eq}

abbrev ascii_lower : ℕ → ℕ
ascii_lower n = if leb 65 n && leb n 90 then n + 32 else n

unfoldable pub eq_ignore_ascii_case : String → String → Bool
eq_ignore_ascii_case [] [] = true
eq_ignore_ascii_case [] (d ∷ t) = false
eq_ignore_ascii_case (c ∷ s) [] = false
eq_ignore_ascii_case (c ∷ s) (d ∷ t) =
    let rest = eq_ignore_ascii_case s t in (ascii_lower (code c) == ascii_lower (code d)) && rest

-- Without a last ".desktop", which has eight characters.
unfoldable pub normalize : String → String
normalize id =
    if leb 8 (len id) && text_eq (slice id (len id - 8) (len id)) ".desktop"
    then slice id 0 (len id - 8)
    else id

unfoldable pub app_ids_match : String → String → Bool
unfolding eq_ignore_ascii_case normalize
app_ids_match left right = eq_ignore_ascii_case (normalize left) (normalize right)
