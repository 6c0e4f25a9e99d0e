-- ===== src/Codec/Envelopes.antt =====
-- Encoding and then decoding a method call or a response (standard_method_codec.rs).
use veshell.Base.{ℕ, ◌≤◌, ◌≡◌, refl, sym, subst, List, [], ◌∷◌, Option, some, append-nil}
use veshell.Codec.EncodableValue.{EncodableValue, string}
use veshell.Codec.Stream.{ok, write_byte}
use veshell.Codec.Stream.Prefix.{StartsWith, behind, StartsWith-append, read_byte-write_byte}
use veshell.Codec.Writer.{write_value}
use veshell.Codec.Reader.{read_value}
use veshell.Codec.Supported.{IsSupported, depth}
use veshell.Codec.RoundTrip.{read_value-write_value, StartsWith-write_value}
use veshell.Codec.Method.{
  MethodCall, success, error, or_null, unless_null, message_value, text_of, decode_method_call,
  encode_method_call, encode_success_envelope, encode_error_envelope,
  decode_and_process_response_envelope,
}

-- A value that can be carried, at a depth that the fuel reaches.
abbrev pub Fits : ℕ → EncodableValue → Type 0
Fits fuel v = IsSupported v × (depth v ≤ fuel)

StartsWith-front :
    {full : List ℕ} (v : EncodableValue) (xs : List ℕ)
    → IsSupported v
    → StartsWith full (write_value v xs)
    → StartsWith full xs
unfolding write_byte
StartsWith-front v xs h s = StartsWith-append xs _ (StartsWith-write_value v xs h s)

read_value-within :
    (full : List ℕ) (v : EncodableValue) (xs : List ℕ) (fuel : ℕ)
    → Fits fuel v
    → StartsWith full (write_value v xs)
    → read_value fuel (behind full xs) ≡ ok (v, behind full (write_value v xs))
read_value-within full v xs fuel (h, d) (rest, p) =
    subst (λ b. read_value fuel (behind b xs) ≡ ok (v, behind b (write_value v xs))) (sym p)
      (read_value-write_value v xs rest fuel h d)

whole : (xs : List ℕ) → StartsWith xs xs
whole xs = ([], sym (append-nil xs))

-- A method call whose name and arguments can be carried, and no deeper than the fuel, is decoded
-- as it was encoded; a call without arguments comes back with `Null`.
pub decode-encode_method_call :
    (call : MethodCall) (fuel : ℕ)
    → Fits fuel (string call.method)
    → Fits fuel (or_null call.arguments)
    → decode_method_call fuel (encode_method_call call)
      ≡ ok (some (record { method = call.method; arguments = some (or_null call.arguments) }))
unfolding decode_method_call encode_method_call
decode-encode_method_call call fuel n a =
    let named = write_value (string call.method) [] in
    let full = write_value (or_null call.arguments) named in
    rw
      (
        read_value-within full (string call.method) [] fuel n
            (StartsWith-front (or_null call.arguments) named a.0 (whole full)),
        read_value-within full (or_null call.arguments) named fuel a (whole full),
      )
      refl

-- A success envelope of a value that can be carried, no deeper than the fuel, is decoded as a
-- success with that value; `Null` counts as no value.
pub decode-encode_success_envelope :
    (result : Option EncodableValue) (fuel : ℕ)
    → Fits fuel (or_null result)
    → decode_and_process_response_envelope fuel (encode_success_envelope result)
      ≡ ok (some (success (unless_null (or_null result))))
unfolding decode_and_process_response_envelope encode_success_envelope
decode-encode_success_envelope result fuel a =
    let flagged = write_byte [] 0 in
    let full = write_value (or_null result) flagged in
    rw
      (
        read_byte-write_byte full [] 0 (StartsWith-front (or_null result) flagged a.0 (whole full)),
        read_value-within full (or_null result) flagged fuel a (whole full),
      )
      refl

message-text : (message : List ℕ) → text_of (message_value message) ≡ message
message-text [] = refl
message-text (b ∷ bs) = refl

-- An error envelope whose code, message and details can be carried, no deeper than the fuel, is
-- decoded as an error with the same code and message and the same details, `Null` counting as
-- none; an empty message passes as `Null`.
pub decode-encode_error_envelope :
    (code message : List ℕ) (details : Option EncodableValue) (fuel : ℕ)
    → Fits fuel (string code)
    → Fits fuel (message_value message)
    → Fits fuel (or_null details)
    → decode_and_process_response_envelope fuel (encode_error_envelope code message details)
      ≡ ok (some (error code message (unless_null (or_null details))))
unfolding decode_and_process_response_envelope encode_error_envelope
decode-encode_error_envelope code message details fuel c m d =
    let flagged = write_byte [] 1 in
    let coded = write_value (string code) flagged in
    let told = write_value (message_value message) coded in
    let full = write_value (or_null details) told in
    let s = StartsWith-front (or_null details) told d.0 (whole full) in
    let s' = StartsWith-front (message_value message) coded m.0 s in
    rw
      (
        read_byte-write_byte full [] 1 (StartsWith-front (string code) flagged c.0 s'),
        read_value-within full (string code) flagged fuel c s',
        read_value-within full (message_value message) coded fuel m s,
        read_value-within full (or_null details) told fuel d (whole full),
        message-text message,
      )
      refl
