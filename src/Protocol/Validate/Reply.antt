-- ===== src/Protocol/Validate/Reply.antt =====
-- The frames that the server answers with, read by the peer.
use fernq.Prelude.{
  ◌≤◌, All, ℕ, suc, ◌≡◌, refl, sym, ap, ◌∙◌, Bool, some, List, [], ◌∷◌, ◌++◌, append-nil, length,
  ok, arith, take_ok, ok-injective, inl, inr, subst,
}
use fernq.Prelude.Bytes.{Bytes}
use fernq.Prelude.Text.{text, is_utf8}
use fernq.Protocol.{Crc, max_frame_size}
use fernq.Protocol.Frame.{ChannelId, IsChannelId}
use fernq.Protocol.Encoder.{Stream, generate_message_data_stream}
use fernq.Protocol.Stream.{IsStream, IsName}
use fernq.Protocol.Stream.Errors.{generate_message_data_stream_cases}
use fernq.Protocol.Stream.Receive.{
  Received, receive, on_the_wire, payloads, IsFrom, receive-generate_message_data_stream,
}
use fernq.Protocol.Json.{Json}
use fernq.Protocol.Message.{
  json_type, encode_response, encode_response_to_bytes, decode_from_bytes, response,
}
use fernq.Protocol.Message.RoundTrip
use fernq.Protocol.Message.Strings.{printed_as}
use fernq.Protocol.Validate.{
  reply_stream, create_message_response, create_verify_response, verify_object,
}
use fernq.Protocol.Validate.Address.{only_frame_sound}

-- What the peer reads of one frame: one message of the stream, with this payload.
pub record Arrives (crc : Crc) (s : Stream) (frame payload : Bytes) : Type 0 where
  pub reply : Received
  pub read : receive crc 2 frame ≡ ok (reply ∷ [])
  pub payload_of : reply.payload ≡ payload
  pub from : IsFrom s (length payload) (reply ∷ [])
  pub fits : length frame ≤ max_frame_size

one_received :
    (crc : Crc) (s : Stream) (frame bytes : Bytes) (rs : List Received)
    → receive crc 2 (frame ++ []) ≡ ok rs
    → length rs ≡ 1
    → payloads rs ≡ bytes
    → IsFrom s (length bytes) rs
    → length frame ≤ max_frame_size
    → Arrives crc s frame bytes
one_received crc s frame bytes [] r count p f small = absurd (omega arith)
one_received crc s frame bytes (a ∷ b ∷ rs) r count p f small = absurd (omega arith)
one_received crc s frame bytes (a ∷ []) r count p f small = record {
  reply = a;
  read = subst (λ x. receive crc 2 x ≡ ok (a ∷ [])) (append-nil frame) r;
  payload_of = sym (append-nil a.payload) ∙ p;
  from = f;
  fits = small;
}

-- A stream whose generation succeeds with a single frame arrives whole.
pub only_frame-Arrives :
    (crc : Crc) (s : Stream) (bytes frame : Bytes)
    → IsStream s
    → generate_message_data_stream crc s bytes ≡ ok (frame ∷ [])
    → Arrives crc s frame bytes
only_frame-Arrives crc s bytes frame v made =
    elim (generate_message_data_stream_cases crc s bytes) [
      | inr (unfit, e, failed) ↦ absurd (cc)
      | inl (fits, frames, made') ↦
          let (frames', rs, made', read, count, whole, from, small) =
            receive-generate_message_data_stream crc s bytes v fits.stream_fits in
          let same : frames' ≡ frame ∷ [] = ok-injective made' made in
          one_received crc s frame bytes rs
            (subst (λ fs. receive crc (suc (length fs)) (on_the_wire fs) ≡ ok rs) same read)
            (count ∙ ap length same) whole from
            (subst (λ fs. All (λ f. length f ≤ max_frame_size) fs) same small).0
    ]

pub fernq-IsName : IsName (text "fernq")
unfolding text is_utf8
fernq-IsName = record { filled = omega arith; fits = omega arith; utf8 = refl }

reply_stream-IsStream :
    (name : Bytes) (channel_id : ChannelId)
    → IsName name
    → IsChannelId channel_id
    → IsStream (reply_stream name channel_id)
reply_stream-IsStream name channel_id n c = record {
  source = fernq-IsName;
  target = n;
  channel = c;
}

-- JSON reads this response back as it was written.
abbrev pub ReadsBack : Json → ℕ → Bytes → Type 0
ReadsBack json state text_body =
    (v : json.Value) (bytes : Bytes)
    → encode_response json state json_type (some (json.string text_body)) ≡ ok v
    → json.to_vec v ≡ ok bytes
    → json.from_slice bytes ≡ ok v

decoded_payload :
    (crc : Crc) (json : Json) (state : ℕ) (text_body payload : Bytes)
    → ReadsBack json state text_body
    → encode_response_to_bytes json state json_type (some (json.string text_body)) ≡ ok payload
    → decode_from_bytes json payload
      ≡ ok (
          response (record {
            content_type = json_type;
            state = state;
            body = some (json.string text_body);
          }))
unfolding decode_from_bytes encode_response_to_bytes
decoded_payload crc json state text_body payload printed e =
    take_ok (encode_response json state json_type (some (json.string text_body))) _ e λ v e1 e2.
      rw (printed v payload e1 (printed_as (json.to_vec v) e2))
        (RoundTrip.decode_message-encoded json state json_type _ v e1)

module _ (crc : Crc) (json : Json) (name : Bytes) (channel_id : ChannelId) (n : IsName name)
    (c : IsChannelId channel_id) where
  -- The frame of an answer to a validation arrives, with the JSON text of the answer as its payload.
  pub create_verify_response-Arrives :
      (state : Bool) (message frame : Bytes)
      → create_verify_response crc json name channel_id state message ≡ ok frame
      → Arrives crc
          (reply_stream name channel_id)
          frame
          (json.to_string (verify_object crc json state message))
  unfolding create_verify_response
  create_verify_response-Arrives state message frame h =
      let s : Stream = reply_stream name channel_id in
      take_ok (generate_message_data_stream crc s _) _ h λ frames e h1.
        only_frame-Arrives crc s _ frame (reply_stream-IsStream name channel_id n c)
          (e ∙ ap ok (only_frame_sound frames frame h1))

  -- The frame of a response arrives, and where JSON reads the response back as it was written, its payload is
  -- decoded to a response with the state and the text that the frame was made from.
  pub create_message_response-Arrives :
      (state : ℕ) (text_body frame : Bytes)
      → ReadsBack json state text_body
      → create_message_response crc json name channel_id state text_body ≡ ok frame
      → (payload : Bytes) × Arrives crc (reply_stream name channel_id) frame payload
        × (decode_from_bytes json payload
            ≡ ok (
                response (record {
                  content_type = json_type;
                  state = state;
                  body = some (json.string text_body);
                })))
  unfolding create_message_response decode_from_bytes encode_response_to_bytes
  create_message_response-Arrives state text_body frame printed h =
      let s : Stream = reply_stream name channel_id in
      take_ok (encode_response_to_bytes json state json_type (some (json.string text_body))) _ h
        λ payload e h1. take_ok (generate_message_data_stream crc s payload) _ h1 λ frames e2 h2. (
          payload,
          only_frame-Arrives crc s payload frame (reply_stream-IsStream name channel_id n c)
              (e2 ∙ ap ok (only_frame_sound frames frame h2)),
          decoded_payload crc json state text_body payload printed e,
        )
