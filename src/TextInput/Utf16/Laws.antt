-- ===== src/TextInput/Utf16/Laws.antt =====
use veshell.Base.{
  ℕ, suc, ◌+◌, ◌-◌, ◌/◌, ◌%◌, ◌<◌, ◌≡◌, refl, Bool, true, false, ◌&&◌, List, [], ◌∷◌, ◌++◌, ltb,
  leb, if◌then◌else◌, inl, inr, arith, passes, passes_at, All, length, ap, sym, ◌∙◌, append_assoc,
  Bool-cases,
}
use veshell.TextInput.Utf16.{
  is_leading_surrogate, is_trailing_surrogate, IsScalar, encode_char, encode_utf16,
  from_utf16_lossy,
}

abbrev same : Bool → Bool → Bool
same true b = b
same false b = if b then false else true

same→eq : (a b : Bool) → same a b ≡ true → a ≡ b
same→eq a b h = ground arith

abbrev within : ℕ → ℕ → ℕ → Bool
within lo hi u = leb lo u && ltb u hi

leading_table : passes (λ u. same (is_leading_surrogate u) (within 0xd800 0xdc00 u)) 65536 ≡ true
unfolding passes is_leading_surrogate
leading_table = refl

trailing_table : passes (λ u. same (is_trailing_surrogate u) (within 0xdc00 0xe000 u)) 65536 ≡ true
unfolding passes is_trailing_surrogate
trailing_table = refl

-- Over the 16-bit units the masks test for the two halves of the surrogate block.
pub is_leading_surrogate_range :
    (u : ℕ) → u < 65536 → is_leading_surrogate u ≡ within 0xd800 0xdc00 u
is_leading_surrogate_range u h = same→eq _ _ (passes_at _ 65536 leading_table u h)

pub is_trailing_surrogate_range :
    (u : ℕ) → u < 65536 → is_trailing_surrogate u ≡ within 0xdc00 0xe000 u
is_trailing_surrogate_range u h = same→eq _ _ (passes_at _ 65536 trailing_table u h)

-- The last unit of a character tells its width to the code that walks back, the first one to the
-- code that walks on.
abbrev pub width : ℕ → ℕ
width c = if leb c 0xffff then 1 else 2

abbrev pub back_width : ℕ → ℕ
back_width u = if is_trailing_surrogate u then 2 else 1

abbrev pub forward_width : ℕ → ℕ
forward_width u = if is_leading_surrogate u then 2 else 1

pub length-encode_char : (c : ℕ) → length (encode_char c) ≡ width c
unfolding encode_char
length-encode_char c = ground arith

-- The first and the last unit of a character, and what stands behind and before them.
abbrev pub first_unit : ℕ → ℕ
first_unit c = if leb c 0xffff then c else (c - 0x10000) / 0x400 + 0xd800

abbrev pub last_unit : ℕ → ℕ
last_unit c = if leb c 0xffff then c else (c - 0x10000) % 0x400 + 0xdc00

abbrev pub units_behind : ℕ → List ℕ
units_behind c = if leb c 0xffff then [] else last_unit c ∷ []

abbrev pub units_before : ℕ → List ℕ
units_before c = if leb c 0xffff then [] else first_unit c ∷ []

pub encode_char-first : (c : ℕ) → encode_char c ≡ first_unit c ∷ units_behind c
unfolding encode_char
encode_char-first c = ground arith

pub encode_char-last : (c : ℕ) → encode_char c ≡ units_before c ++ last_unit c ∷ []
unfolding encode_char
encode_char-last c = ground arith

pub width-units_before : (c : ℕ) → suc (length (units_before c)) ≡ width c
width-units_before c = ground arith

first_unit-lt : (c : ℕ) → IsScalar c → first_unit c < 65536
first_unit-lt c s = ground arith

last_unit-lt : (c : ℕ) → IsScalar c → last_unit c < 65536
last_unit-lt c s = ground arith

-- What the code reads off a unit is the width of the character.
pub forward_width-first_unit : (c : ℕ) → IsScalar c → forward_width (first_unit c) ≡ width c
forward_width-first_unit c s =
    rw (is_leading_surrogate_range (first_unit c) (first_unit-lt c s)) (ground arith)

pub back_width-last_unit : (c : ℕ) → IsScalar c → back_width (last_unit c) ≡ width c
back_width-last_unit c s =
    rw (is_trailing_surrogate_range (last_unit c) (last_unit-lt c s)) (ground arith)

pub encode_utf16-append :
    (cs ds : List ℕ) → encode_utf16 (cs ++ ds) ≡ encode_utf16 cs ++ encode_utf16 ds
unfolding encode_utf16
encode_utf16-append [] ds = refl
encode_utf16-append (c ∷ cs) ds =
    ap (encode_char c ++◌) (encode_utf16-append cs ds) ∙ sym (append_assoc (encode_char c) _ _)

lossy_single :
    (c : ℕ) (us : List ℕ)
    → leb c 0xffff ≡ true
    → IsScalar c
    → from_utf16_lossy (c ∷ us) ≡ c ∷ from_utf16_lossy us
unfolding from_utf16_lossy
lossy_single c [] e s = ground arith
lossy_single c (v ∷ us) e s = ground arith

lossy_pair :
    (c : ℕ) (us : List ℕ)
    → leb c 0xffff ≡ false
    → IsScalar c
    → from_utf16_lossy (first_unit c ∷ last_unit c ∷ us) ≡ c ∷ from_utf16_lossy us
unfolding from_utf16_lossy
lossy_pair c us e s = ground arith

lossy-encode_char :
    (c : ℕ) (us : List ℕ)
    → IsScalar c
    → from_utf16_lossy (encode_char c ++ us) ≡ c ∷ from_utf16_lossy us
lossy-encode_char c us s = elim (Bool-cases (leb c 0xffff)) [
  | inl e ↦ rw (encode_char-first c, e) (lossy_single c us e s)
  | inr e ↦ rw (encode_char-first c, e) (rw e at (lossy_pair c us e s))
]

-- Decoding gives back every text of scalar values that was encoded.
pub from_utf16_lossy-encode_utf16 :
    (cs : List ℕ) → All IsScalar cs → from_utf16_lossy (encode_utf16 cs) ≡ cs
unfolding encode_utf16
from_utf16_lossy-encode_utf16 [] s = unfold from_utf16_lossy in refl
from_utf16_lossy-encode_utf16 (c ∷ cs) (s, ss) =
    lossy-encode_char c (encode_utf16 cs) s ∙ ap (c ∷◌) (from_utf16_lossy-encode_utf16 cs ss)
