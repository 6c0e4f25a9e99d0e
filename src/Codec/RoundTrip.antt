-- ===== src/Codec/RoundTrip.antt =====
-- Reading back what was written (standard_codec_serializer.rs).
use veshell.Base.{
  ℕ, zero, suc, ◌<◌, ◌≤◌, ◌≡◌, refl, ◌∙◌, true, false, List, ◌++◌, some, length, arith,
}
use veshell.Codec.EncodableValue.{
  EncodableValue, null, bool, int32, int64, double, string, byte_list, int32_list, int64_list,
  double_list, list, map, custom, float_list, Values, nil, cons, Entries, end, entry, count,
  count_entries, encoded_type_for_value, as_u8, EncodedType, try_from,
}
use veshell.Codec.Stream.{ok, write_alignment}
use veshell.Codec.Stream.Prefix.{
  StartsWith, behind, read_byte-write_byte, read_number-write_number, StartsWith-write_alignment,
  read_alignment-write_alignment,
}
use veshell.Codec.Writer.{write_value, write_values, write_entries, write_size, write_type}
use veshell.Codec.Reader.{read_value, read_values, read_entries, read_value_of_type}
use veshell.Codec.Supported.{
  IsSupported, AreSupported, EntriesSupported, depth, depth_values, depth_entries,
}
use veshell.Codec.Parts.{
  StartsWith-write_byte, StartsWith-write_number, StartsWith-write_size, read_size-write_size,
  StartsWith-write_string, read_string-write_string, StartsWith-write_vector,
  read_vector-write_vector,
}

-- What is written grows the buffer.
mutual
  unfolding write_value IsSupported

  pub StartsWith-write_value :
      {full : List ℕ} (v : EncodableValue) (xs : List ℕ)
      → IsSupported v
      → StartsWith full (write_value v xs)
      → StartsWith full (write_type xs v)
  StartsWith-write_value null xs v s = s
  StartsWith-write_value (bool b) xs v s = s
  StartsWith-write_value (int32 n) xs v s = StartsWith-write_number 4 (write_type xs (int32 n)) n s
  StartsWith-write_value (int64 n) xs v s = StartsWith-write_number 8 (write_type xs (int64 n)) n s
  StartsWith-write_value (double n) xs v s =
      StartsWith-write_alignment (write_type xs (double n)) 8
        (StartsWith-write_number 8 (write_alignment (write_type xs (double n)) 8) n s)
  StartsWith-write_value (string bs) xs v s =
      StartsWith-write_size (write_type xs (string bs)) (length bs)
        (StartsWith-write_string (write_type xs (string bs)) bs s)
  StartsWith-write_value (byte_list bs) xs v s =
      StartsWith-write_size (write_type xs (byte_list bs)) (length bs)
        (StartsWith-write_vector (write_type xs (byte_list bs)) bs v.0 s)
  StartsWith-write_value (int32_list ns) xs v s = absurd v
  StartsWith-write_value (int64_list ns) xs v s = absurd v
  StartsWith-write_value (double_list ns) xs v s = absurd v
  StartsWith-write_value (list vs) xs v s =
      StartsWith-write_size (write_type xs (list vs)) (count vs)
        (StartsWith-write_values vs (write_size (write_type xs (list vs)) (count vs)) v.0 s)
  StartsWith-write_value (map es) xs v s =
      StartsWith-write_size (write_type xs (map es)) (count_entries es)
        (StartsWith-write_entries es (write_size (write_type xs (map es)) (count_entries es)) v.0 s)
  StartsWith-write_value custom xs v s = absurd v
  StartsWith-write_value (float_list ns) xs v s = absurd v

  StartsWith-write_values :
      {full : List ℕ} (vs : Values) (xs : List ℕ)
      → AreSupported vs
      → StartsWith full (write_values vs xs)
      → StartsWith full xs
  StartsWith-write_values nil xs v s = s
  StartsWith-write_values (cons w vs) xs v s =
      StartsWith-write_byte xs (as_u8 (encoded_type_for_value w))
        (StartsWith-write_value w xs v.0 (StartsWith-write_values vs (write_value w xs) v.1 s))

  StartsWith-write_entries :
      {full : List ℕ} (es : Entries) (xs : List ℕ)
      → EntriesSupported es
      → StartsWith full (write_entries es xs)
      → StartsWith full xs
  StartsWith-write_entries end xs v s = s
  StartsWith-write_entries (entry k w es) xs v s =
      StartsWith-write_byte xs (as_u8 (encoded_type_for_value k)) (
        StartsWith-write_value k xs v.0 (
          StartsWith-write_byte (write_value k xs) (as_u8 (encoded_type_for_value w)) (
            StartsWith-write_value w (write_value k xs) v.1
              (StartsWith-write_entries es (write_value w (write_value k xs)) v.2 s))))

pub try_from-as_u8 : (t : EncodedType) → try_from (as_u8 t) ≡ some t
unfolding try_from
try_from-as_u8 t = ground arith

-- A value is read by its type byte and then by what stands behind it.
pub read_tag :
    (full xs : List ℕ) (fuel : ℕ) (v : EncodableValue)
    → StartsWith full (write_type xs v)
    → read_value (suc fuel) (behind full xs)
      ≡ read_value_of_type
          (read_value fuel)
          (encoded_type_for_value v)
          (behind full (write_type xs v))
unfolding read_value
read_tag full xs fuel v s = rw (
  read_byte-write_byte full xs (as_u8 (encoded_type_for_value v)) s,
  try_from-as_u8 (encoded_type_for_value v),
)

depth-pos : (v : EncodableValue) → 0 < depth v
unfolding depth
depth-pos (list vs) = omega arith
depth-pos (map es) = omega arith
depth-pos _ = omega arith

mutual
  unfolding write_value IsSupported depth read_value_of_type read_values read_entries

  read-write :
      (v : EncodableValue) (full xs : List ℕ) (fuel : ℕ)
      → IsSupported v
      → depth v ≤ suc fuel
      → StartsWith full (write_value v xs)
      → read_value_of_type
          (read_value fuel)
          (encoded_type_for_value v)
          (behind full (write_type xs v))
        ≡ ok (v, behind full (write_value v xs))
  read-write null full xs fuel v d s = refl
  read-write (bool true) full xs fuel v d s = refl
  read-write (bool false) full xs fuel v d s = refl
  read-write (int32 n) full xs fuel v d s =
      rw (read_number-write_number full (write_type xs (int32 n)) 4 n v s)
  read-write (int64 n) full xs fuel v d s =
      rw (read_number-write_number full (write_type xs (int64 n)) 8 n v s)
  read-write (double n) full xs fuel v d s = rw (
    read_alignment-write_alignment full (write_type xs (double n)) 8,
    read_number-write_number full (write_alignment (write_type xs (double n)) 8) 8 n v s,
  )
  read-write (string bs) full xs fuel v d s =
      read_string-write_string full (write_type xs (string bs)) bs v.0 v.1 s
  read-write (byte_list bs) full xs fuel v d s =
      read_vector-write_vector full (write_type xs (byte_list bs)) bs v.0 v.1 s
  read-write (int32_list ns) full xs fuel v d s = absurd v
  read-write (int64_list ns) full xs fuel v d s = absurd v
  read-write (double_list ns) full xs fuel v d s = absurd v
  read-write (list vs) full xs fuel v d s =
      let sized = write_size (write_type xs (list vs)) (count vs) in
      rw (
        read_size-write_size full (write_type xs (list vs)) (count vs) v.1
            (StartsWith-write_values vs sized v.0 s),
        read-write_values vs full sized fuel v.0 (omega arith) s,
      )
  read-write (map es) full xs fuel v d s =
      let sized = write_size (write_type xs (map es)) (count_entries es) in
      rw (
        read_size-write_size full (write_type xs (map es)) (count_entries es) v.1
            (StartsWith-write_entries es sized v.0 s),
        read-write_entries es full sized fuel v.0 (omega arith) s,
      )
  read-write custom full xs fuel v d s = absurd v
  read-write (float_list ns) full xs fuel v d s = absurd v

  read-write_values :
      (vs : Values) (full xs : List ℕ) (fuel : ℕ)
      → AreSupported vs
      → depth_values vs ≤ fuel
      → StartsWith full (write_values vs xs)
      → read_values (read_value fuel) (count vs) (behind full xs)
        ≡ ok (vs, behind full (write_values vs xs))
  read-write_values nil full xs fuel v d s = refl
  read-write_values (cons w vs) full xs zero v d s = absurd (omega (arith, depth-pos w))
  read-write_values (cons w vs) full xs (suc fuel) v d s =
      let s' = StartsWith-write_values vs (write_value w xs) v.1 s in
      rw (
        read_tag full xs fuel w (StartsWith-write_value w xs v.0 s'),
        read-write w full xs fuel v.0 (omega arith) s',
        read-write_values vs full (write_value w xs) (suc fuel) v.1 (omega arith) s,
      )

  read-write_entries :
      (es : Entries) (full xs : List ℕ) (fuel : ℕ)
      → EntriesSupported es
      → depth_entries es ≤ fuel
      → StartsWith full (write_entries es xs)
      → read_entries (read_value fuel) (count_entries es) (behind full xs)
        ≡ ok (es, behind full (write_entries es xs))
  read-write_entries end full xs fuel v d s = refl
  read-write_entries (entry k w es) full xs zero v d s = absurd (omega (arith, depth-pos w))
  read-write_entries (entry k w es) full xs (suc fuel) v d s =
      let xs' = write_value k xs in
      let s'' = StartsWith-write_entries es (write_value w xs') v.2 s in
      let sw = StartsWith-write_value w xs' v.1 s'' in
      let s' = StartsWith-write_byte xs' (as_u8 (encoded_type_for_value w)) sw in
      rw (
        read_tag full xs fuel k (StartsWith-write_value k xs v.0 s'),
        read-write k full xs fuel v.0 (omega arith) s',
        read_tag full xs' fuel w sw,
        read-write w full xs' fuel v.1 (omega arith) s'',
        read-write_entries es full (write_value w xs') (suc fuel) v.2 (omega arith) s,
      )

-- A supported value that is written behind any bytes and followed by any bytes is read back whole
-- from where it begins, and the reader then stands at the bytes that follow.
pub read_value-write_value :
    (v : EncodableValue) (xs rest : List ℕ) (fuel : ℕ)
    → IsSupported v
    → depth v ≤ fuel
    → read_value fuel (record { buffer = write_value v xs ++ rest; location = length xs })
      ≡ ok (v, record { buffer = write_value v xs ++ rest; location = length (write_value v xs) })
read_value-write_value v xs rest zero h d = absurd (omega (arith, depth-pos v))
read_value-write_value v xs rest (suc fuel) h d =
    let full = write_value v xs ++ rest in
    read_tag full xs fuel v (StartsWith-write_value v xs h (rest, refl))
    ∙ read-write v full xs fuel h d (rest, refl)
