-- ===== src/Codec/Reader.antt =====
-- The reading half of platform_channels/standard_codec_serializer.rs. The fuel bounds the depth of
-- nested lists and maps; more of it than bytes left to read is enough.
use veshell.Base.{
  ℕ, zero, suc, ◌*◌, true, false, Option, none, some, replicate, ltb, ◌==◌, if◌then◌else◌,
}
use veshell.Codec.Bytes.{is_utf8}
use veshell.Codec.EncodableValue.{
  EncodableValue, null, bool, int32, int64, double, string, byte_list, list, map, Values, nil, cons,
  Entries, end, entry, EncodedType, k_null, k_true, k_false, k_int32, k_int64, k_large_int,
  k_float64, k_string, k_uint8_list, k_int32_list, k_int64_list, k_float64_list, k_list, k_map,
  k_float32_list, try_from,
}
use veshell.Codec.Stream.{
  Result, ok, panic, out_of_fuel, ◌>>=◌, ByteBufferStreamReader, read_byte, read_bytes,
  read_alignment, read_number,
}

abbrev pub Reads : Type 0 → Type 0
Reads A = ByteBufferStreamReader → Result (A × ByteBufferStreamReader)

unfoldable pub read_size : Reads ℕ
read_size s =
    let (byte, s') = read_byte s in
    if ltb byte 254
    then ok (byte, s')
    else if byte == 254
    then read_number 2 s'
    else read_number 4 s'

-- The buffer has one byte for each element, whatever the size of an element.
unfoldable pub read_vector : ℕ → Reads EncodableValue
read_vector type_size s = do
  (count, s') ← read_size s
  let aligned = if ltb 1 type_size then read_alignment s' type_size else s'
  (vector, s'') ← read_bytes aligned (replicate count 0) (count * type_size)
  ok (byte_list vector, s'')

unfoldable pub read_string : Reads EncodableValue
read_string s = do
  (size, s') ← read_size s
  (bytes, s'') ← read_bytes s' (replicate size 0) size
  if is_utf8 bytes then ok (string bytes, s'') else panic

unfoldable pub read_values : Reads EncodableValue → ℕ → Reads Values
read_values read zero s = ok (nil, s)
read_values read (suc n) s = do
  (v, s') ← read s
  (vs, s'') ← read_values read n s'
  ok (cons v vs, s'')

unfoldable pub read_entries : Reads EncodableValue → ℕ → Reads Entries
read_entries read zero s = ok (end, s)
read_entries read (suc n) s = do
  (k, s') ← read s
  (v, s'') ← read s'
  (es, s''') ← read_entries read n s''
  ok (entry k v es, s''')

abbrev read_list : Reads EncodableValue → Reads EncodableValue
read_list read s = do (n, s') ← read_size s; (vs, s'') ← read_values read n s'; ok (list vs, s'')

abbrev read_map : Reads EncodableValue → Reads EncodableValue
read_map read s = do (n, s') ← read_size s; (es, s'') ← read_entries read n s'; ok (map es, s'')

abbrev read_double : Reads EncodableValue
read_double s = do (n, s') ← read_number 8 (read_alignment s 8); ok (double n, s')

-- The `match` on the type; `read` reads a nested value.
unfoldable pub read_value_of_type : Reads EncodableValue → EncodedType → Reads EncodableValue
read_value_of_type read k_null s = ok (null, s)
read_value_of_type read k_true s = ok (bool true, s)
read_value_of_type read k_false s = ok (bool false, s)
read_value_of_type read k_int32 s = do (n, s') ← read_number 4 s; ok (int32 n, s')
read_value_of_type read k_int64 s = do (n, s') ← read_number 8 s; ok (int64 n, s')
read_value_of_type read k_float64 s = read_double s
read_value_of_type read k_large_int s = read_string s
read_value_of_type read k_string s = read_string s
read_value_of_type read k_uint8_list s = read_vector 1 s
read_value_of_type read k_int32_list s = read_vector 4 s
read_value_of_type read k_int64_list s = read_vector 8 s
read_value_of_type read k_float64_list s = read_vector 8 s
read_value_of_type read k_list s = read_list read s
read_value_of_type read k_map s = read_map read s
read_value_of_type read k_float32_list s = read_vector 4 s

-- A byte that is no type is read as `Null`.
abbrev pub read_tagged : Reads EncodableValue → Option EncodedType → Reads EncodableValue
read_tagged read none s = ok (null, s)
read_tagged read (some type) s = read_value_of_type read type s

unfoldable pub read_value : ℕ → Reads EncodableValue
read_value zero s = out_of_fuel
read_value (suc fuel) s =
    let (type, s') = read_byte s in read_tagged (read_value fuel) (try_from type) s'
