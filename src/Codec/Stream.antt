-- ===== src/Codec/Stream.antt =====
-- platform_channels/byte_streams.rs and byte_buffer_streams.rs. A reader that runs out of bytes
-- logs and answers with what it has; a slice copied into one of another length panics.
pub mod Prefix
use veshell.Base.{
  ℕ, suc, ◌+◌, ◌-◌, ◌%◌, Bool, List, [], ◌∷◌, ◌++◌, Option, none, some, length, get_elem?, take,
  drop, replicate, leb, ltb, ◌==◌, if◌then◌else◌,
}
use veshell.Codec.Bytes.{to_ne_bytes, from_ne_bytes}

-- A run that panics, or one for which the model had too little fuel.
pub data Result {ℓ} (A : Type ℓ) : Type ℓ where
  ok : A → Result A
  panic out_of_fuel : Result A

infixl 5 ◌>>=◌
abbrev pub ◌>>=◌ {ℓ κ} : {A : Type ℓ} {B : Type κ} → Result A → (A → Result B) → Result B
ok a >>= f = f a
panic >>= f = panic
out_of_fuel >>= f = out_of_fuel

pub record ByteBufferStreamReader : Type 0 where
  pub buffer : List ℕ
  pub location : ℕ

unfoldable pub read_byte : ByteBufferStreamReader → ℕ × ByteBufferStreamReader
read_byte s = elim (get_elem? s.buffer s.location) [
  | none ↦ (0, s)
  | some value ↦ (value, record s { location = suc s.location })
]

-- The new content of the slice `target`.
unfoldable pub read_bytes :
    ByteBufferStreamReader → List ℕ → ℕ → Result (List ℕ × ByteBufferStreamReader)
read_bytes s target count =
    if ltb (length s.buffer) (s.location + count)
    then ok (target, s)
    else if length target == count
    then ok (take count (drop s.location s.buffer), record s { location = s.location + count })
    else panic

unfoldable pub read_alignment : ByteBufferStreamReader → ℕ → ByteBufferStreamReader
read_alignment s alignment =
    let misaligned = s.location % alignment in
    if misaligned == 0 then s else record s { location = s.location + (alignment - misaligned) }

-- `read_i32`, `read_i64` and `read_double` are this at 4, 8 and 8 bytes.
unfoldable pub read_number : ℕ → ByteBufferStreamReader → Result (ℕ × ByteBufferStreamReader)
read_number width s = do
  (bytes, s') ← read_bytes s (replicate width 0) width
  ok (from_ne_bytes bytes, s')

-- A writer is the buffer that it appends to.
unfoldable pub write_byte : List ℕ → ℕ → List ℕ
write_byte buffer value = buffer ++ (value ∷ [])

-- The callers pass a slice and its length.
unfoldable pub write_bytes : List ℕ → List ℕ → List ℕ
write_bytes buffer bytes = buffer ++ bytes

unfoldable pub write_alignment : List ℕ → ℕ → List ℕ
write_alignment buffer alignment =
    let misaligned = length buffer % alignment in
    if misaligned == 0 then buffer else buffer ++ replicate (alignment - misaligned) 0

-- `write_i32`, `write_i64` and `write_double` are this at 4, 8 and 8 bytes.
unfoldable pub write_number : ℕ → List ℕ → ℕ → List ℕ
write_number width buffer value = write_bytes buffer (to_ne_bytes width value)
