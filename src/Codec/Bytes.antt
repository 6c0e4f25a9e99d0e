-- ===== src/Codec/Bytes.antt =====
-- Fixed-width numbers as bytes, and the bytes of a Rust `String`. The native byte order is that of
-- x86-64 and AArch64, the least significant byte first.
use veshell.Base.{
  ℕ, zero, suc, ◌+◌, ◌*◌, ◌/◌, ◌%◌, Bool, true, ◌&&◌, ◌||◌, List, [], ◌∷◌, ◌++◌, ltb, leb, ◌==◌,
  if◌then◌else◌,
}

-- `to_ne_bytes` of a number of that many bytes; a larger one is cut, as by `as`.
unfoldable pub to_ne_bytes : ℕ → ℕ → List ℕ
to_ne_bytes zero n = []
to_ne_bytes (suc width) n = n % 256 ∷ to_ne_bytes width (n / 256)

unfoldable pub from_ne_bytes : List ℕ → ℕ
from_ne_bytes [] = 0
from_ne_bytes (b ∷ bs) = b + 256 * from_ne_bytes bs

-- The elements of a `Vec` as they lie in memory.
unfoldable pub raw_parts : ℕ → List ℕ → List ℕ
raw_parts width [] = []
raw_parts width (n ∷ ns) = to_ne_bytes width n ++ raw_parts width ns

abbrev within : ℕ → ℕ → ℕ → Bool
within lo hi b = leb lo b && leb b hi

abbrev tail_byte : ℕ → Bool
tail_byte = within 0x80 0xbf

-- The ranges that the byte behind a first byte of three and of four must lie in.
abbrev second_of_three : ℕ → ℕ → Bool
second_of_three a b =
    if a == 0xe0 then within 0xa0 0xbf b else if a == 0xed then within 0x80 0x9f b else tail_byte b

abbrev second_of_four : ℕ → ℕ → Bool
second_of_four a b =
    if a == 0xf0 then within 0x90 0xbf b else if a == 0xf4 then within 0x80 0x8f b else tail_byte b

-- The test of `String::from_utf8`.
unfoldable pub is_utf8 : List ℕ → Bool
is_utf8 [] = true
is_utf8 (a ∷ []) = ltb a 0x80
is_utf8 (a ∷ b ∷ []) = (ltb a 0x80 && ltb b 0x80) || (within 0xc2 0xdf a && tail_byte b)
is_utf8 (a ∷ b ∷ c ∷ []) =
    let rest = is_utf8 (b ∷ c ∷ []) in
    if ltb a 0x80
    then rest
    else (within 0xc2 0xdf a && tail_byte b && ltb c 0x80)
      || (within 0xe0 0xef a && second_of_three a b && tail_byte c)
is_utf8 (a ∷ b ∷ c ∷ d ∷ bs) =
    let one = is_utf8 (b ∷ c ∷ d ∷ bs) in
    let two = is_utf8 (c ∷ d ∷ bs) in
    let three = is_utf8 (d ∷ bs) in
    let four = is_utf8 bs in
    if ltb a 0x80
    then one
    else if within 0xc2 0xdf a
    then tail_byte b && two
    else if within 0xe0 0xef a
    then second_of_three a b && (tail_byte c && three)
    else within 0xf0 0xf4 a && second_of_four a b && (tail_byte c && (tail_byte d && four))
