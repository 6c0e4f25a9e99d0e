-- ===== src/Codec/Stream/Prefix.antt =====
-- A buffer that starts with what was written: reading at the place where a write began gives back
-- what was written, and ends where the write ended.
use veshell.Base.{
  ℕ, zero, suc, ◌-◌, ◌/◌, ◌%◌, ◌^◌, ◌<◌, ◌≡◌, refl, sym, ap, ◌∙◌, List, [], ◌∷◌, ◌++◌, length, take,
  drop, replicate, arith, append_assoc, length-append, length-replicate, get_elem?-append_length,
  take-append_length, drop-append_length, ◌==◌, Bool-cases, inl, inr,
}
use native.Mathlib.Nat.{pow-suc}
use veshell.Codec.Bytes.{to_ne_bytes, from_ne_bytes}
use veshell.Codec.Stream.{
  ok, ByteBufferStreamReader, read_byte, read_bytes, read_alignment, read_number, write_byte,
  write_bytes, write_alignment, write_number,
}

abbrev pub StartsWith : List ℕ → List ℕ → Type 0
StartsWith full front = (rest : List ℕ) × (full ≡ front ++ rest)

-- The reader of `full` behind `front`.
abbrev pub behind : List ℕ → List ℕ → ByteBufferStreamReader
behind full front = record { buffer = full; location = length front }

pub StartsWith-append :
    {full : List ℕ} (xs ys : List ℕ) → StartsWith full (xs ++ ys) → StartsWith full xs
StartsWith-append xs ys (rest, e) = (ys ++ rest, e ∙ append_assoc xs ys rest)

pub StartsWith-write_alignment :
    {full : List ℕ} (xs : List ℕ) (a : ℕ)
    → StartsWith full (write_alignment xs a)
    → StartsWith full xs
unfolding write_alignment
StartsWith-write_alignment xs a s = elim (Bool-cases (length xs % a == 0)) [
  | inl e ↦ rw e at s
  | inr e ↦ StartsWith-append xs (replicate (a - length xs % a) 0) (rw e at s)
]

pub read_byte-write_byte :
    (full xs : List ℕ) (b : ℕ)
    → StartsWith full (write_byte xs b)
    → read_byte (behind full xs) ≡ (b, behind full (write_byte xs b))
unfolding read_byte write_byte
read_byte-write_byte full xs b (rest, e) = ground (
  arith,
  append_assoc xs (b ∷ []) rest,
  get_elem?-append_length xs rest b (length xs) refl,
  length-append xs (b ∷ []),
)

slice : (xs bs rest : List ℕ) → take (length bs) (drop (length xs) (xs ++ bs ++ rest)) ≡ bs
slice xs bs rest =
    rw (append_assoc xs bs rest, drop-append_length xs (bs ++ rest) (length xs) refl)
      (take-append_length bs rest (length bs) refl)

pub read_bytes-write_bytes :
    (full xs bs target : List ℕ) (n : ℕ)
    → StartsWith full (write_bytes xs bs)
    → length target ≡ n
    → n ≡ length bs
    → read_bytes (behind full xs) target n ≡ ok (bs, behind full (write_bytes xs bs))
unfolding read_bytes write_bytes
read_bytes-write_bytes full xs bs target n (rest, e) h k =
    ground (arith, slice xs bs rest, length-append xs bs, length-append (xs ++ bs) rest)

pub read_alignment-write_alignment :
    (full xs : List ℕ) (a : ℕ)
    → read_alignment (behind full xs) a ≡ behind full (write_alignment xs a)
unfolding read_alignment write_alignment
read_alignment-write_alignment full xs a =
    let fill = a - length xs % a in
    ground (arith, length-append xs (replicate fill 0), length-replicate fill zero)

pub length-to_ne_bytes : (width n : ℕ) → length (to_ne_bytes width n) ≡ width
unfolding to_ne_bytes
length-to_ne_bytes zero n = refl
length-to_ne_bytes (suc width) n = ap suc (length-to_ne_bytes width (n / 256))

pub from_ne_bytes-to_ne_bytes :
    (width n : ℕ) → n < 256 ^ width → from_ne_bytes (to_ne_bytes width n) ≡ n
unfolding from_ne_bytes to_ne_bytes
from_ne_bytes-to_ne_bytes zero n h = omega arith
from_ne_bytes-to_ne_bytes (suc width) n h =
    omega (arith, from_ne_bytes-to_ne_bytes width (n / 256) (omega (arith, pow-suc 256 width)))

pub read_number-write_number :
    (full xs : List ℕ) (width n : ℕ)
    → n < 256 ^ width
    → StartsWith full (write_number width xs n)
    → read_number width (behind full xs) ≡ ok (n, behind full (write_number width xs n))
unfolding read_number write_number
read_number-write_number full xs width n h s =
    rw
      (read_bytes-write_bytes full xs (to_ne_bytes width n) (replicate width 0) width s
        (length-replicate width zero) (sym (length-to_ne_bytes width n)))
      (ap (λ k. ok (k, behind full (write_bytes xs (to_ne_bytes width n))))
        (from_ne_bytes-to_ne_bytes width n h))
