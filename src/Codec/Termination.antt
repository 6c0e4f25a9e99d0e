-- ===== src/Codec/Termination.antt =====
-- Whether and how the reader of standard_codec_serializer.rs ends.
use veshell.Base.{
  ℕ, zero, suc, ◌+◌, ◌-◌, ◌*◌, ◌%◌, ◌<◌, ◌≤◌, ◌≡◌, ◌⊎◌, refl, ◌∙◌, List, Option, none, some, length,
  arith, ltb, ◌==◌, if◌then◌else◌, Bool-cases, Option-cases, inl, inr, replicate, get_elem?,
  lt-length_of_get_elem?,
}
use veshell.Codec.Bytes.{is_utf8}
use veshell.Codec.EncodableValue.{
  EncodableValue, EncodedType, k_null, k_true, k_false, k_int32, k_int64, k_large_int, k_float64,
  k_string, k_uint8_list, k_int32_list, k_int64_list, k_float64_list, k_list, k_map, k_float32_list,
  try_from,
}
use veshell.Codec.Stream.{
  Result, ok, panic, out_of_fuel, ◌>>=◌, ByteBufferStreamReader, read_byte, read_bytes,
  read_alignment, read_number,
}
use veshell.Codec.Reader.{
  Reads, read_size, read_vector, read_string, read_values, read_entries, read_value_of_type,
  read_tagged, read_value,
}

abbrev pub left : ByteBufferStreamReader → ℕ
left s = length s.buffer - s.location

abbrev Advances : ByteBufferStreamReader → ByteBufferStreamReader → Type 0
Advances s s' = (s'.buffer ≡ s.buffer) × (s.location ≤ s'.location)

-- The run ends, and moves on in the same buffer.
abbrev Ends {ℓ} :
    {A : Type ℓ} → ByteBufferStreamReader → Result (A × ByteBufferStreamReader) → Type 0
Ends s (ok (a, s')) = Advances s s'
Ends s panic = Unit
Ends s out_of_fuel = ⊥

Advances-trans : (s t u : ByteBufferStreamReader) → Advances s t → Advances t u → Advances s u
Advances-trans s t u p q = (q.0 ∙ p.0, omega arith)

Ends-advance :
    {A : Type 0} (s t : ByteBufferStreamReader) (m : Result (A × ByteBufferStreamReader))
    → Advances s t
    → Ends t m
    → Ends s m
Ends-advance s t (ok (a, u)) p h = Advances-trans s t u p h
Ends-advance s t panic p h = tt
Ends-advance s t out_of_fuel p h = absurd h

Ends-bind :
    {A B : Type 0} (s : ByteBufferStreamReader) (m : Result (A × ByteBufferStreamReader))
    (f : A × ByteBufferStreamReader → Result (B × ByteBufferStreamReader))
    → Ends s m
    → ((a : A) (t : ByteBufferStreamReader) → Advances s t → Ends t (f (a, t)))
    → Ends s (m >>= f)
Ends-bind s (ok (a, t)) f h k = Ends-advance s t (f (a, t)) h (k a t h)
Ends-bind s panic f h k = tt
Ends-bind s out_of_fuel f h k = absurd h

left-Advances : (s t : ByteBufferStreamReader) → Advances s t → left t ≤ left s
left-Advances s t p = rw (p.0) (omega (arith, p.1))

read_bytes-Ends :
    (s : ByteBufferStreamReader) (target : List ℕ) (n : ℕ) → Ends s (read_bytes s target n)
unfolding read_bytes
read_bytes-Ends s target n = elim (Bool-cases (ltb (length s.buffer) (s.location + n))) [
  | inl e ↦ rw e (refl, omega arith)
  | inr e ↦ elim (Bool-cases (length target == n)) [
    | inl e' ↦ rw (e, e') (refl, omega arith)
    | inr e' ↦ rw (e, e') tt
  ]
]

read_number-Ends : (width : ℕ) (s : ByteBufferStreamReader) → Ends s (read_number width s)
unfolding read_number
read_number-Ends width s =
    Ends-bind s (read_bytes s (replicate width 0) width) _ (read_bytes-Ends s _ width)
      (λ a t p. (refl, omega arith))

-- At the end of the buffer the byte 0 is read and the reader stays.
abbrev Steps : ByteBufferStreamReader → ℕ × ByteBufferStreamReader → Type 0
Steps s (b, t) = Advances s t × ((b ≡ 0) ⊎ (left t < left s))

read_byte-Steps : (s : ByteBufferStreamReader) → Steps s (read_byte s)
unfolding read_byte
read_byte-Steps s = elim (Option-cases (get_elem? s.buffer s.location)) [
  | inl e ↦ rw (e, read_byte) ((refl, omega arith), inl refl)
  | inr (b, e) ↦
      rw (e, read_byte)
        ((refl, omega arith), inr (omega (arith, lt-length_of_get_elem? s.buffer s.location e)))
]

read_alignment-Advances : (s : ByteBufferStreamReader) (a : ℕ) → Advances s (read_alignment s a)
unfolding read_alignment
read_alignment-Advances s a = elim (Bool-cases (s.location % a == 0)) [
  | inl e ↦ rw e (refl, omega arith)
  | inr e ↦ rw e (refl, omega arith)
]

read_size-Ends : (s : ByteBufferStreamReader) → Ends s (read_size s)
unfolding read_size
read_size-Ends s = Ends-advance s (read_byte s).1 _ (read_byte-Steps s).0 (go (read_byte s))
  where
    go :
        (r : ℕ × ByteBufferStreamReader)
        → Ends r.1 (
            if ltb r.0 254
            then ok (r.0, r.1)
            else if r.0 == 254
            then read_number 2 r.1
            else read_number 4 r.1)
    go (b, t) = elim (Bool-cases (ltb b 254)) [
      | inl e ↦ rw e (refl, omega arith)
      | inr e ↦ elim (Bool-cases (b == 254)) [
        | inl e' ↦ rw (e, e') (read_number-Ends 2 t)
        | inr e' ↦ rw (e, e') (read_number-Ends 4 t)
      ]
    ]

read_vector-Ends : (width : ℕ) (s : ByteBufferStreamReader) → Ends s (read_vector width s)
unfolding read_vector
read_vector-Ends width s = Ends-bind s (read_size s) _ (read_size-Ends s) λ n t p.
    elim (Bool-cases (ltb 1 width)) [
      | inl e ↦ rw e (
          Ends-advance t (read_alignment t width) _ (read_alignment-Advances t width) (
            Ends-bind (read_alignment t width) _ _
              (read_bytes-Ends (read_alignment t width) (replicate n 0) (n * width))
              (λ bs u q. (refl, omega arith))))
      | inr e ↦ rw e (
          Ends-bind t _ _ (read_bytes-Ends t (replicate n 0) (n * width))
            (λ bs u q. (refl, omega arith)))
    ]

read_string-Ends : (s : ByteBufferStreamReader) → Ends s (read_string s)
unfolding read_string
read_string-Ends s = Ends-bind s (read_size s) _ (read_size-Ends s) λ n t p.
    Ends-bind t _ _ (read_bytes-Ends t (replicate n 0) n) λ bs u q. elim (Bool-cases (is_utf8 bs)) [
      | inl e ↦ rw e (refl, omega arith)
      | inr e ↦ rw e tt
    ]

module _ (read : Reads EncodableValue) (bound : ℕ)
    (ends : (s : ByteBufferStreamReader) → left s < bound → Ends s (read s)) where
  read_values-Ends :
      (n : ℕ) (s : ByteBufferStreamReader) → left s < bound → Ends s (read_values read n s)
  unfolding read_values
  read_values-Ends zero s h = (refl, omega arith)
  read_values-Ends (suc n) s h =
      let rest = read_values-Ends n in
      Ends-bind s (read s) _ (ends s h) λ v t p.
        Ends-bind t (read_values read n t) _ (rest t (omega (arith, left-Advances s t p)))
          (λ vs u q. (refl, omega arith))

  read_entries-Ends :
      (n : ℕ) (s : ByteBufferStreamReader) → left s < bound → Ends s (read_entries read n s)
  unfolding read_entries
  read_entries-Ends zero s h = (refl, omega arith)
  read_entries-Ends (suc n) s h =
      let rest = read_entries-Ends n in
      Ends-bind s (read s) _ (ends s h) λ k t p.
        Ends-bind t (read t) _ (ends t (omega (arith, left-Advances s t p))) λ v u q.
          Ends-bind u (read_entries read n u) _
            (rest u (omega (arith, left-Advances s t p, left-Advances t u q)))
            (λ es w r. (refl, omega arith))

  read_value_of_type-Ends :
      (type : EncodedType) (s : ByteBufferStreamReader)
      → left s < bound
      → Ends s (read_value_of_type read type s)
  unfolding read_value_of_type
  read_value_of_type-Ends k_null s h = (refl, omega arith)
  read_value_of_type-Ends k_true s h = (refl, omega arith)
  read_value_of_type-Ends k_false s h = (refl, omega arith)
  read_value_of_type-Ends k_int32 s h =
      Ends-bind s (read_number 4 s) _ (read_number-Ends 4 s) (λ n t p. (refl, omega arith))
  read_value_of_type-Ends k_int64 s h =
      Ends-bind s (read_number 8 s) _ (read_number-Ends 8 s) (λ n t p. (refl, omega arith))
  read_value_of_type-Ends k_float64 s h =
      Ends-advance s (read_alignment s 8) _ (read_alignment-Advances s 8) (
        Ends-bind (read_alignment s 8) _ _ (read_number-Ends 8 (read_alignment s 8))
          (λ n t p. (refl, omega arith)))
  read_value_of_type-Ends k_large_int s h = read_string-Ends s
  read_value_of_type-Ends k_string s h = read_string-Ends s
  read_value_of_type-Ends k_uint8_list s h = read_vector-Ends 1 s
  read_value_of_type-Ends k_int32_list s h = read_vector-Ends 4 s
  read_value_of_type-Ends k_int64_list s h = read_vector-Ends 8 s
  read_value_of_type-Ends k_float64_list s h = read_vector-Ends 8 s
  read_value_of_type-Ends k_list s h = Ends-bind s (read_size s) _ (read_size-Ends s) λ n t p.
      Ends-bind t _ _ (read_values-Ends n t (omega (arith, left-Advances s t p)))
        (λ vs u q. (refl, omega arith))
  read_value_of_type-Ends k_map s h = Ends-bind s (read_size s) _ (read_size-Ends s) λ n t p.
      Ends-bind t _ _ (read_entries-Ends n t (omega (arith, left-Advances s t p)))
        (λ es u q. (refl, omega arith))
  read_value_of_type-Ends k_float32_list s h = read_vector-Ends 4 s

  read_tagged-Ends :
      (tag : Option EncodedType) (s : ByteBufferStreamReader)
      → left s < bound
      → Ends s (read_tagged read tag s)
  read_tagged-Ends none s h = (refl, omega arith)
  read_tagged-Ends (some type) s h = read_value_of_type-Ends type s h

read_next-Ends :
    (fuel : ℕ) (r : ℕ × ByteBufferStreamReader) (s : ByteBufferStreamReader)
    → ((t : ByteBufferStreamReader) → left t < fuel → Ends t (read_value fuel t))
    → left s < suc fuel
    → Steps s r
    → Ends r.1 (read_tagged (read_value fuel) (try_from r.0) r.1)
unfolding try_from read_value_of_type
read_next-Ends fuel (b, t) s ends h (p, inl e) = rw e (refl, omega arith)
read_next-Ends fuel (b, t) s ends h (p, inr l) =
    read_tagged-Ends (read_value fuel) fuel ends (try_from b) t (omega arith)

read_value-Ends :
    (fuel : ℕ) (s : ByteBufferStreamReader) → left s < fuel → Ends s (read_value fuel s)
unfolding read_value
read_value-Ends zero s h = absurd (omega arith)
read_value-Ends (suc fuel) s h =
    Ends-advance s (read_byte s).1 _ (read_byte-Steps s).0
      (read_next-Ends fuel (read_byte s) s (read_value-Ends fuel) h (read_byte-Steps s))

-- With more fuel than bytes left to read a value is read or the code panics, whatever the bytes;
-- the fuel never runs out. After a value the reader is in the same buffer, and not further back.
pub read_value_total :
    (fuel : ℕ) (s : ByteBufferStreamReader)
    → left s < fuel
    → (read_value fuel s ≡ panic)
      ⊎ ((v : EncodableValue) × (t : ByteBufferStreamReader) × (read_value fuel s ≡ ok (v, t))
          × (t.buffer ≡ s.buffer)
          × (s.location ≤ t.location))
read_value_total fuel s h = cases (read_value fuel s) (read_value-Ends fuel s h)
  where
    cases :
        (r : Result (EncodableValue × ByteBufferStreamReader))
        → Ends s r
        → (r ≡ panic)
          ⊎ ((v : EncodableValue) × (t : ByteBufferStreamReader) × (r ≡ ok (v, t))
              × (t.buffer ≡ s.buffer)
              × (s.location ≤ t.location))
    cases (ok (v, t)) e = inr (v, t, refl, e.0, e.1)
    cases panic e = inl refl
    cases out_of_fuel e = absurd e
