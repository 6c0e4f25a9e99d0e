-- ===== src/Codec/EncodableValue.antt =====
-- platform_channels/encodable_value.rs, and the type bytes of standard_codec_serializer.rs.
-- An integer or a float is the bit pattern that it is written as, a string its bytes.
use veshell.Base.{ℕ, suc, Bool, true, false, List, Option, none, some, ◌==◌, if◌then◌else◌}

mutual
  pub data EncodableValue : Type 0 where
    null : EncodableValue
    bool : Bool → EncodableValue
    int32 int64 double : ℕ → EncodableValue
    string byte_list int32_list int64_list double_list : List ℕ → EncodableValue
    list : Values → EncodableValue
    map : Entries → EncodableValue
    custom : EncodableValue
    float_list : List ℕ → EncodableValue

  pub data Values : Type 0 where
    nil : Values
    cons : EncodableValue → Values → Values

  pub data Entries : Type 0 where
    end : Entries
    entry : EncodableValue → EncodableValue → Entries → Entries

abbrev pub count : Values → ℕ
count nil = 0
count (cons v vs) = suc (count vs)

abbrev pub count_entries : Entries → ℕ
count_entries end = 0
count_entries (entry k v es) = suc (count_entries es)

pub data EncodedType : Type 0 where
  k_null k_true k_false k_int32 k_int64 k_large_int k_float64 k_string : EncodedType
  k_uint8_list k_int32_list k_int64_list k_float64_list k_list k_map k_float32_list : EncodedType

-- `as u8`.
abbrev pub as_u8 : EncodedType → ℕ
as_u8 k_null = 0
as_u8 k_true = 1
as_u8 k_false = 2
as_u8 k_int32 = 3
as_u8 k_int64 = 4
as_u8 k_large_int = 5
as_u8 k_float64 = 6
as_u8 k_string = 7
as_u8 k_uint8_list = 8
as_u8 k_int32_list = 9
as_u8 k_int64_list = 10
as_u8 k_float64_list = 11
as_u8 k_list = 12
as_u8 k_map = 13
as_u8 k_float32_list = 14

unfoldable pub try_from : ℕ → Option EncodedType
try_from b =
    if b == 0
    then some k_null
    else if b == 1
    then some k_true
    else if b == 2
    then some k_false
    else if b == 3
    then some k_int32
    else if b == 4
    then some k_int64
    else if b == 5
    then some k_large_int
    else if b == 6
    then some k_float64
    else if b == 7
    then some k_string
    else if b == 8
    then some k_uint8_list
    else if b == 9
    then some k_int32_list
    else if b == 10
    then some k_int64_list
    else if b == 11
    then some k_float64_list
    else if b == 12
    then some k_list
    else if b == 13
    then some k_map
    else if b == 14
    then some k_float32_list
    else none

abbrev pub encoded_type_for_value : EncodableValue → EncodedType
encoded_type_for_value null = k_null
encoded_type_for_value (bool true) = k_true
encoded_type_for_value (bool false) = k_false
encoded_type_for_value (int32 n) = k_int32
encoded_type_for_value (int64 n) = k_int64
encoded_type_for_value (double n) = k_float64
encoded_type_for_value (string bs) = k_string
encoded_type_for_value (byte_list bs) = k_uint8_list
encoded_type_for_value (int32_list ns) = k_int32_list
encoded_type_for_value (int64_list ns) = k_int64_list
encoded_type_for_value (double_list ns) = k_float64_list
encoded_type_for_value (list vs) = k_list
encoded_type_for_value (map es) = k_map
encoded_type_for_value custom = k_null
encoded_type_for_value (float_list ns) = k_float32_list
