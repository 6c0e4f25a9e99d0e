-- ===== src/Codec/Writer.antt =====
-- The writing half of platform_channels/standard_codec_serializer.rs.
use veshell.Base.{ℕ, List, length, leb, ltb, ◌==◌, if◌then◌else◌}
use veshell.Codec.Bytes.{to_ne_bytes, raw_parts}
use veshell.Codec.EncodableValue.{
  EncodableValue, null, bool, int32, int64, double, string, byte_list, int32_list, int64_list,
  double_list, list, map, custom, float_list, Values, nil, cons, Entries, end, entry, count,
  count_entries, encoded_type_for_value, as_u8,
}
use veshell.Codec.Stream.{write_byte, write_bytes, write_alignment, write_number}

unfoldable pub write_size : List ℕ → ℕ → List ℕ
write_size buffer size =
    if ltb size 254
    then write_byte buffer size
    else if leb size 0xffff
    then write_bytes (write_byte buffer 254) (to_ne_bytes 2 size)
    else write_bytes (write_byte buffer 255) (to_ne_bytes 4 size)

-- `type_size` is the size of an element.
unfoldable pub write_vector : ℕ → List ℕ → List ℕ → List ℕ
write_vector type_size buffer vector =
    let sized = write_size buffer (length vector) in
    let aligned = if ltb 1 type_size then write_alignment sized type_size else sized in
    if length vector == 0 then sized else write_bytes aligned (raw_parts type_size vector)

unfoldable pub write_string : List ℕ → List ℕ → List ℕ
write_string buffer value =
    let sized = write_size buffer (length value) in
    if ltb 0 (length value) then write_bytes sized value else sized

abbrev pub write_type : List ℕ → EncodableValue → List ℕ
write_type buffer value = write_byte buffer (as_u8 (encoded_type_for_value value))

unfoldable mutual
  pub write_value : EncodableValue → List ℕ → List ℕ
  write_value null buffer = write_type buffer null
  write_value (bool b) buffer = write_type buffer (bool b)
  write_value (int32 n) buffer = write_number 4 (write_type buffer (int32 n)) n
  write_value (int64 n) buffer = write_number 8 (write_type buffer (int64 n)) n
  write_value (double n) buffer =
      write_number 8 (write_alignment (write_type buffer (double n)) 8) n
  write_value (string bs) buffer = write_string (write_type buffer (string bs)) bs
  write_value (byte_list bs) buffer = write_vector 1 (write_type buffer (byte_list bs)) bs
  write_value (int32_list ns) buffer = write_vector 4 (write_type buffer (int32_list ns)) ns
  write_value (int64_list ns) buffer = write_vector 8 (write_type buffer (int64_list ns)) ns
  write_value (double_list ns) buffer = write_vector 8 (write_type buffer (double_list ns)) ns
  write_value (list vs) buffer =
      write_values vs (write_size (write_type buffer (list vs)) (count vs))
  write_value (map es) buffer =
      write_entries es (write_size (write_type buffer (map es)) (count_entries es))
  write_value custom buffer = write_type buffer custom
  write_value (float_list ns) buffer = write_vector 4 (write_type buffer (float_list ns)) ns

  pub write_values : Values → List ℕ → List ℕ
  write_values nil buffer = buffer
  write_values (cons v vs) buffer = write_values vs (write_value v buffer)

  pub write_entries : Entries → List ℕ → List ℕ
  write_entries end buffer = buffer
  write_entries (entry k v es) buffer = write_entries es (write_value v (write_value k buffer))
