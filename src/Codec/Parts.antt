-- ===== src/Codec/Parts.antt =====
-- Sizes, strings and vectors, written and then read (standard_codec_serializer.rs).
use veshell.Base.{
  ℕ, zero, ◌<◌, ◌≡◌, refl, sym, ap₂, true, List, [], ◌∷◌, length, arith, leb, ltb, Bool-cases, inl,
  inr, All, replicate, length-replicate, append-nil,
}
use native.Mathlib.Nat.{mod-eq_of_lt, mul-one}
use veshell.Codec.Bytes.{to_ne_bytes, raw_parts, is_utf8}
use veshell.Codec.EncodableValue.{string, byte_list}
use veshell.Codec.Stream.{ok, read_bytes, write_byte, write_bytes, write_number}
use veshell.Codec.Stream.Prefix.{
  StartsWith, behind, StartsWith-append, read_byte-write_byte, read_bytes-write_bytes,
  read_number-write_number,
}
use veshell.Codec.Writer.{write_size, write_vector, write_string}
use veshell.Codec.Reader.{read_size, read_vector, read_string}
use veshell.Codec.Supported.{IsSize}

pub StartsWith-write_byte :
    {full : List ℕ} (xs : List ℕ) (b : ℕ) → StartsWith full (write_byte xs b) → StartsWith full xs
unfolding write_byte
StartsWith-write_byte xs b s = StartsWith-append xs (b ∷ []) s

pub StartsWith-write_bytes :
    {full : List ℕ} (xs bs : List ℕ) → StartsWith full (write_bytes xs bs) → StartsWith full xs
unfolding write_bytes
StartsWith-write_bytes xs bs s = StartsWith-append xs bs s

pub StartsWith-write_number :
    {full : List ℕ} (width : ℕ) (xs : List ℕ) (n : ℕ)
    → StartsWith full (write_number width xs n)
    → StartsWith full xs
unfolding write_number
StartsWith-write_number width xs n s = StartsWith-write_bytes xs (to_ne_bytes width n) s

pub StartsWith-write_size :
    {full : List ℕ} (xs : List ℕ) (n : ℕ) → StartsWith full (write_size xs n) → StartsWith full xs
unfolding write_size
StartsWith-write_size xs n s = elim (Bool-cases (ltb n 254)) [
  | inl e ↦ StartsWith-write_byte xs n (rw e at s)
  | inr e ↦ elim (Bool-cases (leb n 0xffff)) [
    | inl e' ↦
        StartsWith-write_byte xs 254
          (StartsWith-write_bytes (write_byte xs 254) (to_ne_bytes 2 n) (rw (e, e') at s))
    | inr e' ↦
        StartsWith-write_byte xs 255
          (StartsWith-write_bytes (write_byte xs 255) (to_ne_bytes 4 n) (rw (e, e') at s))
  ]
]

pub read_size-write_size :
    (full xs : List ℕ) (n : ℕ)
    → IsSize n
    → StartsWith full (write_size xs n)
    → read_size (behind full xs) ≡ ok (n, behind full (write_size xs n))
unfolding read_size write_size write_number
read_size-write_size full xs n h s = elim (Bool-cases (ltb n 254)) [
  | inl e ↦ rw (e, read_byte-write_byte full xs n (rw e at s), e)
  | inr e ↦ elim (Bool-cases (leb n 0xffff)) [
    | inl e' ↦
        let s' = rw (e, e') at s in
        rw (e, e', read_byte-write_byte full xs 254 (StartsWith-write_bytes _ (to_ne_bytes 2 n) s'))
          (read_number-write_number full (write_byte xs 254) 2 n (ground arith) s')
    | inr e' ↦
        let s' = rw (e, e') at s in
        rw (e, e', read_byte-write_byte full xs 255 (StartsWith-write_bytes _ (to_ne_bytes 4 n) s'))
          (read_number-write_number full (write_byte xs 255) 4 n h s')
  ]
]

-- Where nothing is written for an empty payload, nothing is read for it either.
read_bytes-payload :
    (full xs bs : List ℕ) (n : ℕ)
    → n ≡ length bs
    → StartsWith full (write_bytes xs bs)
    → read_bytes (behind full xs) (replicate n 0) n ≡ ok (bs, behind full (write_bytes xs bs))
read_bytes-payload full xs bs n e s =
    read_bytes-write_bytes full xs bs (replicate n zero) n s (length-replicate n zero) e

write_string-payload :
    (xs bs : List ℕ) → write_string xs bs ≡ write_bytes (write_size xs (length bs)) bs
unfolding write_string write_bytes
write_string-payload xs [] = sym (append-nil _)
write_string-payload xs (b ∷ bs) = ground arith

pub StartsWith-write_string :
    {full : List ℕ} (xs bs : List ℕ)
    → StartsWith full (write_string xs bs)
    → StartsWith full (write_size xs (length bs))
StartsWith-write_string xs bs s =
    StartsWith-write_bytes (write_size xs (length bs)) bs (rw (write_string-payload xs bs) at s)

pub read_string-write_string :
    (full xs bs : List ℕ)
    → is_utf8 bs ≡ true
    → IsSize (length bs)
    → StartsWith full (write_string xs bs)
    → read_string (behind full xs) ≡ ok (string bs, behind full (write_string xs bs))
unfolding read_string
read_string-write_string full xs bs u h s = rw (
  read_size-write_size full xs (length bs) h (StartsWith-write_string xs bs s),
  read_bytes-payload full (write_size xs (length bs)) bs (length bs) refl
      (rw (write_string-payload xs bs) at s),
  u,
  write_string-payload xs bs,
)

raw_bytes : (bs : List ℕ) → All (λ b. b < 256) bs → raw_parts 1 bs ≡ bs
unfolding raw_parts to_ne_bytes
raw_bytes [] h = refl
raw_bytes (b ∷ bs) (h, hs) = ap₂ ◌∷◌ (mod-eq_of_lt h) (raw_bytes bs hs)

write_vector-bytes :
    (xs bs : List ℕ)
    → All (λ b. b < 256) bs
    → write_vector 1 xs bs ≡ write_bytes (write_size xs (length bs)) bs
unfolding write_vector write_bytes
write_vector-bytes xs [] h = sym (append-nil _)
write_vector-bytes xs (b ∷ bs) h = rw (raw_bytes (b ∷ bs) h) (ground arith)

pub StartsWith-write_vector :
    {full : List ℕ} (xs bs : List ℕ)
    → All (λ b. b < 256) bs
    → StartsWith full (write_vector 1 xs bs)
    → StartsWith full (write_size xs (length bs))
StartsWith-write_vector xs bs h s =
    StartsWith-write_bytes (write_size xs (length bs)) bs (rw (write_vector-bytes xs bs h) at s)

pub read_vector-write_vector :
    (full xs bs : List ℕ)
    → All (λ b. b < 256) bs
    → IsSize (length bs)
    → StartsWith full (write_vector 1 xs bs)
    → read_vector 1 (behind full xs) ≡ ok (byte_list bs, behind full (write_vector 1 xs bs))
unfolding read_vector
read_vector-write_vector full xs bs b h s = rw (
  read_size-write_size full xs (length bs) h (StartsWith-write_vector xs bs b s),
  mul-one (length bs),
  read_bytes-payload full (write_size xs (length bs)) bs (length bs) refl
      (rw (write_vector-bytes xs bs b) at s),
  write_vector-bytes xs bs b,
)
