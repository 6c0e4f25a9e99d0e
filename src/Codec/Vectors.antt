-- ===== src/Codec/Vectors.antt =====
-- What the reader makes of the vectors of 32-bit and 64-bit elements that the writer writes.
use veshell.Base.{
  ℕ, zero, suc, ◌*◌, ◌<◌, ◌≡◌, refl, ◌∙◌, true, List, [], ◌∷◌, ◌++◌, length, arith, ltb, replicate,
  length-append, length-replicate,
}
use veshell.Codec.Bytes.{to_ne_bytes, raw_parts}
use veshell.Codec.EncodableValue.{
  EncodableValue, int32_list, int64_list, double_list, float_list, byte_list,
  encoded_type_for_value,
}
use veshell.Codec.Stream.{
  ok, panic, ByteBufferStreamReader, read_bytes, write_bytes, write_alignment,
}
use veshell.Codec.Stream.Prefix.{
  StartsWith, behind, StartsWith-write_alignment, read_alignment-write_alignment,
  length-to_ne_bytes,
}
use veshell.Codec.Writer.{write_value, write_vector, write_size, write_type}
use veshell.Codec.Reader.{read_value, read_vector, read_value_of_type}
use veshell.Codec.Supported.{IsSize}
use veshell.Codec.Parts.{StartsWith-write_bytes, StartsWith-write_size, read_size-write_size}
use veshell.Codec.RoundTrip.{read_tag}

-- The vectors of elements wider than a byte, with the width of an element.
pub data Wide : Type 0 where
  int32s int64s doubles floats : Wide

abbrev pub width : Wide → ℕ
width int32s = 4
width int64s = 8
width doubles = 8
width floats = 4

abbrev pub vector : Wide → List ℕ → EncodableValue
vector int32s ns = int32_list ns
vector int64s ns = int64_list ns
vector doubles ns = double_list ns
vector floats ns = float_list ns

length-raw_parts : (w : ℕ) (ns : List ℕ) → length (raw_parts w ns) ≡ length ns * w
unfolding raw_parts
length-raw_parts w [] = omega arith
length-raw_parts w (n ∷ ns) = omega (
  arith,
  length-append (to_ne_bytes w n) (raw_parts w ns),
  length-to_ne_bytes w n,
  length-raw_parts w ns,
)

lt-mul : (n w : ℕ) → 0 < n → 1 < w → n < n * w
lt-mul n w p q = grind arith

-- The bytes are there, and do not fit a buffer of one byte for each element.
read_bytes_panics :
    (full xs bs : List ℕ) (n w : ℕ)
    → StartsWith full (write_bytes xs bs)
    → length bs ≡ n * w
    → 0 < n
    → 1 < w
    → read_bytes (behind full xs) (replicate n 0) (n * w) ≡ panic
unfolding read_bytes write_bytes
read_bytes_panics full xs bs n w (rest, e) h p q = ground (
  arith,
  length-append xs bs,
  length-append (xs ++ bs) rest,
  length-replicate n zero,
  lt-mul n w p q,
)

lt→ltb : (a b : ℕ) → a < b → ltb a b ≡ true
lt→ltb a b h = ground arith

write_vector-wide :
    (xs : List ℕ) (w m : ℕ) (ms : List ℕ)
    → 1 < w
    → write_vector w xs (m ∷ ms)
      ≡ write_bytes (write_alignment (write_size xs (length (m ∷ ms))) w) (raw_parts w (m ∷ ms))
unfolding write_vector
write_vector-wide xs w m ms q = rw (lt→ltb 1 w q) (ground arith)

StartsWith-wide :
    (full xs : List ℕ) (w m : ℕ) (ms : List ℕ)
    → 1 < w
    → StartsWith full (write_vector w xs (m ∷ ms))
    → StartsWith full
        (write_bytes (write_alignment (write_size xs (length (m ∷ ms))) w) (raw_parts w (m ∷ ms)))
StartsWith-wide full xs w m ms q s = rw (write_vector-wide xs w m ms q) at s

StartsWith-wide_size :
    (full xs : List ℕ) (w m : ℕ) (ms : List ℕ)
    → 1 < w
    → StartsWith full (write_vector w xs (m ∷ ms))
    → StartsWith full (write_size xs (length (m ∷ ms)))
StartsWith-wide_size full xs w m ms q s =
    let sized = write_size xs (length (m ∷ ms)) in
    StartsWith-write_alignment sized w (
      StartsWith-write_bytes (write_alignment sized w) (raw_parts w (m ∷ ms))
        (StartsWith-wide full xs w m ms q s))

read_vector_panics :
    (full xs : List ℕ) (w m : ℕ) (ms : List ℕ)
    → 1 < w
    → IsSize (length (m ∷ ms))
    → StartsWith full (write_vector w xs (m ∷ ms))
    → read_vector w (behind full xs) ≡ panic
unfolding read_vector
read_vector_panics full xs w m ms q h s =
    let sized = write_size xs (length (m ∷ ms)) in
    rw (
      read_size-write_size full xs (length (m ∷ ms)) h (StartsWith-wide_size full xs w m ms q s),
      lt→ltb 1 w q,
      read_alignment-write_alignment full sized w,
      read_bytes_panics full (write_alignment sized w) (raw_parts w (m ∷ ms)) (length (m ∷ ms)) w
          (StartsWith-wide full xs w m ms q s) (length-raw_parts w (m ∷ ms)) (omega arith) q,
    )

wide_panics :
    (full xs : List ℕ) (k : Wide) (w m : ℕ) (ms : List ℕ) (fuel : ℕ)
    → 1 < w
    → IsSize (length (m ∷ ms))
    → StartsWith full (write_vector w (write_type xs (vector k (m ∷ ms))) (m ∷ ms))
    → read_value_of_type
        (read_value fuel)
        (encoded_type_for_value (vector k (m ∷ ms)))
        (behind full (write_type xs (vector k (m ∷ ms))))
      ≡ read_vector w (behind full (write_type xs (vector k (m ∷ ms))))
    → read_value (suc fuel) (behind full xs) ≡ panic
wide_panics full xs k w m ms fuel q h s e =
    let typed = write_type xs (vector k (m ∷ ms)) in
    read_tag full xs fuel (vector k (m ∷ ms))
      (StartsWith-write_size typed (length (m ∷ ms)) (StartsWith-wide_size full typed w m ms q s))
    ∙ e
    ∙ read_vector_panics full typed w m ms q h s

-- Reading back a vector of 32-bit or 64-bit elements panics, unless it is empty.
pub read_value-vector :
    (k : Wide) (m : ℕ) (ms xs rest : List ℕ) (fuel : ℕ)
    → IsSize (length (m ∷ ms))
    → read_value
        (suc fuel)
        (record { buffer = write_value (vector k (m ∷ ms)) xs ++ rest; location = length xs })
      ≡ panic
unfolding write_value read_value_of_type
read_value-vector int32s m ms xs rest fuel h =
    wide_panics _ xs int32s 4 m ms fuel (omega arith) h (rest, refl) refl
read_value-vector int64s m ms xs rest fuel h =
    wide_panics _ xs int64s 8 m ms fuel (omega arith) h (rest, refl) refl
read_value-vector doubles m ms xs rest fuel h =
    wide_panics _ xs doubles 8 m ms fuel (omega arith) h (rest, refl) refl
read_value-vector floats m ms xs rest fuel h =
    wide_panics _ xs floats 4 m ms fuel (omega arith) h (rest, refl) refl

read_bytes_none :
    (s : ByteBufferStreamReader) (w : ℕ) → read_bytes s (replicate 0 0) (0 * w) ≡ ok ([], s)
unfolding read_bytes
read_bytes_none s w = ground arith

read_vector-empty :
    (full xs : List ℕ) (w : ℕ)
    → 1 < w
    → StartsWith full (write_vector w xs [])
    → read_vector w (behind full xs)
      ≡ ok (byte_list [], behind full (write_alignment (write_vector w xs []) w))
unfolding read_vector write_vector
read_vector-empty full xs w q s = rw (
  read_size-write_size full xs 0 (omega arith) s,
  lt→ltb 1 w q,
  read_alignment-write_alignment full (write_size xs 0) w,
  read_bytes_none (behind full (write_alignment (write_size xs 0) w)) w,
)

wide_empty :
    (full xs : List ℕ) (k : Wide) (w : ℕ) (fuel : ℕ)
    → 1 < w
    → StartsWith full (write_vector w (write_type xs (vector k [])) [])
    → read_value_of_type
        (read_value fuel)
        (encoded_type_for_value (vector k []))
        (behind full (write_type xs (vector k [])))
      ≡ read_vector w (behind full (write_type xs (vector k [])))
    → read_value (suc fuel) (behind full xs)
      ≡ ok (
        byte_list [],
        behind full (write_alignment (write_vector w (write_type xs (vector k [])) []) w),
      )
unfolding write_vector
wide_empty full xs k w fuel q s e =
    read_tag full xs fuel (vector k []) (StartsWith-write_size (write_type xs (vector k [])) 0 s)
    ∙ e
    ∙ read_vector-empty full (write_type xs (vector k [])) w q s

-- An empty vector of wide elements is read back as an empty byte list, and the reader then stands
-- at the next multiple of the element's width, not where the writer stopped.
pub read_value-empty_vector :
    (k : Wide) (xs rest : List ℕ) (fuel : ℕ)
    → read_value
        (suc fuel)
        (record { buffer = write_value (vector k []) xs ++ rest; location = length xs })
      ≡ ok (
        byte_list [],
        record {
          buffer = write_value (vector k []) xs ++ rest;
          location = length (write_alignment (write_value (vector k []) xs) (width k));
        },
      )
unfolding write_value read_value_of_type
read_value-empty_vector int32s xs rest fuel =
    wide_empty _ xs int32s 4 fuel (omega arith) (rest, refl) refl
read_value-empty_vector int64s xs rest fuel =
    wide_empty _ xs int64s 8 fuel (omega arith) (rest, refl) refl
read_value-empty_vector doubles xs rest fuel =
    wide_empty _ xs doubles 8 fuel (omega arith) (rest, refl) refl
read_value-empty_vector floats xs rest fuel =
    wide_empty _ xs floats 4 fuel (omega arith) (rest, refl) refl
