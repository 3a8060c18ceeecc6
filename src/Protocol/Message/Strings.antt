-- ===== src/Protocol/Message/Strings.antt =====
-- Messages as text and as bytes.
use fernq.Prelude.{
  ◌≡◌, subst, not, ◌&&◌, Result, ok, err, panic, stuck, take_ok, pass_if, ok-injective,
}
use fernq.Prelude.Bytes.{Bytes}
use fernq.Protocol.Error.{ProtocolResult}
use fernq.Protocol.Json.{Json}
use fernq.Protocol.Message.{
  Message, request, response, allows_body, is_some, as_invalid_json, to_json_string,
  from_json_string, encode_request, encode_response, encode_request_to_bytes,
  encode_response_to_bytes, encode_request_to_string, encode_response_to_string, decode_message,
  decode_from_bytes, decode_from_string,
}
use fernq.Protocol.Message.RoundTrip.{decode_message-encode_request, decode_message-encoded}

pub printed_as : {A : Type 0} (m : Result Bytes A) {a : A} → as_invalid_json m ≡ ok a → m ≡ ok a
printed_as (ok a) h = cc
printed_as (err e) h = cc
printed_as panic h = cc
printed_as stuck h = cc

module _ (json : Json) where
  open json use {Value, to_vec, from_slice, to_str, from_str}

  -- A message written as text, as bytes, and as a value.
  abbrev pub string_of : Message Value → ProtocolResult Bytes
  string_of (request m) = encode_request_to_string json m.path m.content_type m.body
  string_of (response m) = encode_response_to_string json m.state m.content_type m.body

  abbrev pub bytes_of : Message Value → ProtocolResult Bytes
  bytes_of (request m) = encode_request_to_bytes json m.path m.content_type m.body
  bytes_of (response m) = encode_response_to_bytes json m.state m.content_type m.body

  abbrev pub value_of : Message Value → ProtocolResult Value
  value_of (request m) = encode_request json m.path m.content_type m.body
  value_of (response m) = encode_response json m.state m.content_type m.body

  decode_message-value_of :
      (m : Message Value) (v : Value) → value_of m ≡ ok v → decode_message json v ≡ ok m
  unfolding encode_request
  decode_message-value_of (request m) v h =
      pass_if (not (allows_body m.content_type) && is_some m.body) _ _ h λ allowed h1.
        let (v', made, decoded) =
          decode_message-encode_request json m.path m.content_type m.body allowed in
        subst (λ w. decode_message json w ≡ ok (request m)) (ok-injective made h) decoded
  decode_message-value_of (response m) v h =
      decode_message-encoded json m.state m.content_type m.body v h

  string_of-value_of :
      (m : Message Value) (s : Bytes)
      → string_of m ≡ ok s
      → (v : Value) × (value_of m ≡ ok v) × (to_str v ≡ ok s)
  unfolding encode_request_to_string encode_response_to_string to_json_string
  string_of-value_of (request m) s h =
      take_ok (encode_request json m.path m.content_type m.body) _ h
        λ v e h1. (v, e, printed_as (to_str v) h1)
  string_of-value_of (response m) s h =
      take_ok (encode_response json m.state m.content_type m.body) _ h
        λ v e h1. (v, e, printed_as (to_str v) h1)

  bytes_of-value_of :
      (m : Message Value) (bytes : Bytes)
      → bytes_of m ≡ ok bytes
      → (v : Value) × (value_of m ≡ ok v) × (to_vec v ≡ ok bytes)
  unfolding encode_request_to_bytes encode_response_to_bytes
  bytes_of-value_of (request m) bytes h =
      take_ok (encode_request json m.path m.content_type m.body) _ h
        λ v e h1. (v, e, printed_as (to_vec v) h1)
  bytes_of-value_of (response m) bytes h =
      take_ok (encode_response json m.state m.content_type m.body) _ h
        λ v e h1. (v, e, printed_as (to_vec v) h1)

  -- JSON reads the value of the message back as it was written, from text and from bytes.
  abbrev pub IsReadBack : Message Value → Type 0
  IsReadBack m =
      (v : Value) (bytes : Bytes)
      → value_of m ≡ ok v
      → (to_str v ≡ ok bytes → from_str bytes ≡ ok v)
        × (to_vec v ≡ ok bytes → from_slice bytes ≡ ok v)

  -- Where JSON reads back what it writes: a message that is written as text is decoded from that text, and one
  -- that is written as bytes is decoded from those bytes, for requests and responses of any path or state,
  -- content type and body that the encoders accept.
  pub decode_from_string-string_of :
      (m : Message Value) (s bytes : Bytes)
      → IsReadBack m
      → (string_of m ≡ ok s → decode_from_string json s ≡ ok m)
        × (bytes_of m ≡ ok bytes → decode_from_bytes json bytes ≡ ok m)
  unfolding decode_from_string decode_from_bytes from_json_string
  decode_from_string-string_of m s bytes back = (
    λ h.
        let (v, e, w) = string_of-value_of m s h in
        rw ((back v s e).0 w) (decode_message-value_of m v e),
    λ h.
        let (v, e, w) = bytes_of-value_of m bytes h in
        rw ((back v bytes e).1 w) (decode_message-value_of m v e),
  )
