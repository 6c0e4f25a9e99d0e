-- ===== src/Codec/Examples.antt =====
-- Runs of the codec on small messages.
use veshell.Base.{◌≤◌, ◌≡◌, refl, true, [], ◌∷◌, ◌++◌, length, arith, ◌⊎◌, Bool, some}
use veshell.Codec.Bytes.{to_ne_bytes, is_utf8}
use veshell.Codec.EncodableValue.{
  EncodableValue, bool, double, string, byte_list, int32_list, list, map, nil, cons, end, entry,
  try_from,
}
use veshell.Codec.Stream.{
  ok, panic, ByteBufferStreamReader, write_byte, write_bytes, write_alignment, write_number,
  read_byte, read_bytes,
}
use veshell.Codec.Writer.{write_value, write_size, write_string}
use veshell.Codec.Reader.{read_value, read_value_of_type, read_size, read_string}
use veshell.Codec.Supported.{IsSupported, depth}
use veshell.Codec.RoundTrip.{read_value-write_value}
use veshell.Codec.Method.{
  MethodCall, success, error, decode_method_call, encode_method_call, encode_success_envelope,
  encode_error_envelope, decode_and_process_response_envelope,
}
use veshell.Codec.Envelopes.{
  Fits, decode-encode_method_call, decode-encode_success_envelope, decode-encode_error_envelope,
}
use veshell.Codec.Termination.{read_value_total}
use veshell.Codec.Vectors.{int32s, read_value-vector, read_value-empty_vector}

-- ["hi", {true: 1.0}], the double as its bits.
abbrev message : EncodableValue
message = list (
    cons (string (b'h' ∷ b'i' ∷ []))
      (cons (map (entry (bool true) (double 0x3ff0000000000000) end)) nil))

message_bytes :
    write_value message []
    ≡ 12 ∷ 2 ∷ 7 ∷ 2 ∷ b'h' ∷ b'i' ∷ 13 ∷ 1 ∷ 1 ∷ 6 ∷ 0 ∷ 0 ∷ 0 ∷ 0 ∷ 0 ∷ 0 ∷ 0 ∷ 0 ∷ 0 ∷ 0 ∷ 0 ∷ 0
      ∷ 0xf0 ∷ 0x3f ∷ []
unfolding write_value write_byte write_bytes write_alignment write_number write_size write_string
    to_ne_bytes
message_bytes = refl

wrong_utf8 : is_utf8 (0xc0 ∷ 0x80 ∷ []) ≡ Bool.false
unfolding is_utf8
wrong_utf8 = refl

-- A string longer than the message is read as NUL characters.
short_string :
    read_value 1 (record { buffer = 7 ∷ 3 ∷ b'a' ∷ []; location = 0 })
    ≡ ok (string (0 ∷ 0 ∷ 0 ∷ []), record { buffer = 7 ∷ 3 ∷ b'a' ∷ []; location = 2 })
unfolding read_value read_value_of_type read_string read_size read_byte read_bytes is_utf8 try_from
short_string = refl

message-IsSupported : IsSupported message
unfolding IsSupported is_utf8
message-IsSupported =
    (((refl, omega arith), (((tt, omega arith, tt), omega arith), tt)), omega arith)

read_value-write_value_example :
    read_value 9 (record { buffer = write_value message (0 ∷ []) ++ (3 ∷ []); location = 1 })
    ≡ ok (
      message,
      record {
        buffer = write_value message (0 ∷ []) ++ (3 ∷ []);
        location = length (write_value message (0 ∷ []));
      },
    )
unfolding depth
read_value-write_value_example =
    read_value-write_value message (0 ∷ []) (3 ∷ []) 9 message-IsSupported (omega arith)

abbrev cut_short : ByteBufferStreamReader
cut_short = record { buffer = 12 ∷ 9 ∷ 12 ∷ 200 ∷ []; location = 0 }

read_value_total_example :
    (read_value 5 cut_short ≡ panic)
    ⊎ ((v : EncodableValue) × (t : ByteBufferStreamReader) × (read_value 5 cut_short ≡ ok (v, t))
        × (t.buffer ≡ cut_short.buffer)
        × (0 ≤ t.location))
read_value_total_example = read_value_total 5 cut_short (omega arith)

read_value-vector_example :
    read_value 2 (record { buffer = write_value (int32_list (7 ∷ [])) [] ++ []; location = 0 })
    ≡ panic
read_value-vector_example = read_value-vector int32s 7 [] [] [] 1 (omega arith)

read_value-empty_vector_example :
    read_value 2 (record { buffer = write_value (int32_list []) [] ++ (0 ∷ []); location = 0 })
    ≡ ok (
      byte_list [],
      record {
        buffer = write_value (int32_list []) [] ++ (0 ∷ []);
        location = length (write_alignment (write_value (int32_list []) []) 4);
      },
    )
read_value-empty_vector_example = read_value-empty_vector int32s [] (0 ∷ []) 1

-- setTitle(["hi", {true: 1.0}]).
abbrev set_title : MethodCall
set_title = record { method = b't' ∷ []; arguments = some message }

message-Fits : Fits 9 message
unfolding depth
message-Fits = (message-IsSupported, omega arith)

text-Fits : Fits 9 (string (b't' ∷ []))
unfolding IsSupported is_utf8 depth
text-Fits = ((refl, omega arith), omega arith)

decode-encode_method_call_example :
    decode_method_call 9 (encode_method_call set_title)
    ≡ ok (some (record { method = b't' ∷ []; arguments = some message }))
decode-encode_method_call_example = decode-encode_method_call set_title 9 text-Fits message-Fits

decode-encode_success_envelope_example :
    decode_and_process_response_envelope 9 (encode_success_envelope (some message))
    ≡ ok (some (success (some message)))
decode-encode_success_envelope_example =
    decode-encode_success_envelope (some message) 9 message-Fits

decode-encode_error_envelope_example :
    decode_and_process_response_envelope 9
      (encode_error_envelope (b't' ∷ []) (b't' ∷ []) (some message))
    ≡ ok (some (error (b't' ∷ []) (b't' ∷ []) (some message)))
decode-encode_error_envelope_example =
    decode-encode_error_envelope (b't' ∷ []) (b't' ∷ []) (some message) 9 text-Fits text-Fits
      message-Fits
