-- ===== src/Codec/Method.antt =====
-- The method calls and envelopes of platform_channels/standard_method_codec.rs.
use veshell.Base.{ℕ, List, [], ◌∷◌, Option, none, some, ◌==◌, if◌then◌else◌}
use veshell.Codec.EncodableValue.{EncodableValue, null, string}
use veshell.Codec.Stream.{Result, ok, ◌>>=◌, ByteBufferStreamReader, read_byte, write_byte}
use veshell.Codec.Writer.{write_value}
use veshell.Codec.Reader.{read_value}

pub record MethodCall : Type 0 where
  pub method : List ℕ
  pub arguments : Option EncodableValue

-- What a decoded response calls of its `MethodResult`.
pub data Response : Type 0 where
  success : Option EncodableValue → Response
  error : List ℕ → List ℕ → Option EncodableValue → Response

abbrev pub reader : List ℕ → ByteBufferStreamReader
reader message = record { buffer = message; location = 0 }

abbrev pub or_null : Option EncodableValue → EncodableValue
or_null none = null
or_null (some value) = value

abbrev pub unless_null : EncodableValue → Option EncodableValue
unless_null null = none
unless_null value = some value

abbrev pub call_named : EncodableValue → Result EncodableValue → Result (Option MethodCall)
call_named (string name) arguments =
    arguments >>= λ a. ok (some (record { method = name; arguments = some a }))
call_named _ arguments = ok none

unfoldable pub decode_method_call : ℕ → List ℕ → Result (Option MethodCall)
unfolding read_value
decode_method_call fuel message = do
  (name, s) ← read_value fuel (reader message)
  call_named name (read_value fuel s >>= λ r. ok (r.0))

unfoldable pub encode_method_call : MethodCall → List ℕ
unfolding write_value
encode_method_call call = write_value (or_null call.arguments) (write_value (string call.method) [])

unfoldable pub encode_success_envelope : Option EncodableValue → List ℕ
unfolding write_value write_byte
encode_success_envelope result = write_value (or_null result) (write_byte [] 0)

abbrev pub message_value : List ℕ → EncodableValue
message_value [] = null
message_value (b ∷ bs) = string (b ∷ bs)

unfoldable pub encode_error_envelope : List ℕ → List ℕ → Option EncodableValue → List ℕ
unfolding write_value write_byte
encode_error_envelope code message details =
    write_value (or_null details)
      (write_value (message_value message) (write_value (string code) (write_byte [] 1)))

abbrev pub text_of : EncodableValue → List ℕ
text_of (string text) = text
text_of _ = []

abbrev pub read_success : ℕ → ByteBufferStreamReader → Result (Option Response)
read_success fuel s = do (value, s') ← read_value fuel s; ok (some (success (unless_null value)))

abbrev pub read_error : ℕ → ByteBufferStreamReader → Result (Option Response)
read_error fuel s = do
  (code, s') ← read_value fuel s
  (message, s'') ← read_value fuel s'
  (details, s''') ← read_value fuel s''
  ok (some (error (text_of code) (text_of message) (unless_null details)))

-- No response for a flag that is not 0 or 1.
unfoldable pub decode_and_process_response_envelope : ℕ → List ℕ → Result (Option Response)
unfolding read_byte read_value
decode_and_process_response_envelope fuel response =
    let (flag, s) = read_byte (reader response) in
    let succeeded = read_success fuel s in
    let failed = read_error fuel s in
    if flag == 0 then succeeded else if flag == 1 then failed else ok none
