-- ===== src/TextInput/Utf16.antt =====
pub mod Laws
-- UTF-16 as the standard library encodes and decodes it, and the surrogate tests of
-- platform_channels/text_input_model.rs. A `char` is its code point, a `u16` a number below 65536.
use veshell.Base.{
  ℕ, ◌+◌, ◌-◌, ◌*◌, ◌/◌, ◌%◌, ◌≤◌, ◌<◌, Bool, ◌&&◌, List, [], ◌∷◌, ◌++◌, ◌==◌, ltb, leb,
  if◌then◌else◌, bit_and, ◌⊎◌,
}

unfoldable pub is_leading_surrogate : ℕ → Bool
is_leading_surrogate code_point = bit_and code_point 0xfffffc00 == 0xd800

unfoldable pub is_trailing_surrogate : ℕ → Bool
is_trailing_surrogate code_point = bit_and code_point 0xfffffc00 == 0xdc00

-- A Unicode scalar value, which is what a Rust `char` holds.
abbrev pub IsScalar : ℕ → Type 0
IsScalar c = (c < 0xd800) ⊎ ((0xe000 ≤ c) × (c < 0x110000))

unfoldable pub encode_char : ℕ → List ℕ
encode_char c =
    if leb c 0xffff
    then c ∷ []
    else ((c - 0x10000) / 0x400 + 0xd800) ∷ ((c - 0x10000) % 0x400 + 0xdc00) ∷ []

unfoldable pub encode_utf16 : List ℕ → List ℕ
encode_utf16 [] = []
encode_utf16 (c ∷ cs) = encode_char c ++ encode_utf16 cs

-- A unit that belongs to no pair is read as the replacement character.
abbrev lone : ℕ → ℕ
lone u = if leb 0xd800 u && ltb u 0xe000 then 0xfffd else u

abbrev is_pair : ℕ → ℕ → Bool
is_pair u v = (leb 0xd800 u && ltb u 0xdc00) && (leb 0xdc00 v && ltb v 0xe000)

unfoldable pub from_utf16_lossy : List ℕ → List ℕ
from_utf16_lossy [] = []
from_utf16_lossy (u ∷ []) = lone u ∷ []
from_utf16_lossy (u ∷ v ∷ us) =
    let pair = ((u - 0xd800) * 0x400 + (v - 0xdc00) + 0x10000) ∷ from_utf16_lossy us in
    let single = lone u ∷ from_utf16_lossy (v ∷ us) in if is_pair u v then pair else single

abbrev utf8_width : ℕ → ℕ
utf8_width c = if ltb c 0x80 then 1 else if ltb c 0x800 then 2 else if ltb c 0x10000 then 3 else 4

-- `str::len`, in bytes.
unfoldable pub utf8_len : List ℕ → ℕ
utf8_len [] = 0
utf8_len (c ∷ cs) = utf8_width c + utf8_len cs
