-- ===== src/Protocol/Validate/Verdict.antt =====
-- The answer to a validation, from the server that makes it to the client that reads it.
use fernq.Prelude.{◌≡◌, Bool, true, some, ok}
use fernq.Prelude.Bytes.{Bytes}
use fernq.Prelude.Text.{text, same, is_utf8}
use fernq.Protocol.{Crc}
use fernq.Protocol.Frame.{ChannelId, IsChannelId}
use fernq.Protocol.Stream.{IsName}
use fernq.Protocol.Json.{Json}
use fernq.Protocol.Validate.{
  reply_stream, verify_object, create_verify_response, member_bool, member_str,
  parse_verify_response,
}
use fernq.Protocol.Validate.Reply.{Arrives, create_verify_response-Arrives}

module _ (json : Json) where
  pub member_str-text :
      (key s : Bytes) (obj : json.Object)
      → json.get key obj ≡ some (json.string s)
      → member_str json key (json.object obj) ≡ some s
  member_str-text key s obj h = rw (member_str, json.as_object-object obj, h, json.as_str-string s)

  member_bool-boolean :
      (key : Bytes) (b : Bool) (obj : json.Object)
      → json.get key obj ≡ some (json.boolean b)
      → member_bool json key (json.object obj) ≡ some b
  member_bool-boolean key b obj h =
      rw (member_bool, json.as_object-object obj, h, json.as_bool-boolean b)

  module _ (crc : Crc) where
    -- The text of the answer is UTF-8, and JSON reads it back.
    abbrev pub IsWritten : Bool → Bytes → Type 0
    IsWritten state message =
        (is_utf8 (json.to_string (verify_object crc json state message)) ≡ true)
        × (json.from_str (json.to_string (verify_object crc json state message))
            ≡ ok (verify_object crc json state message))

    parse_verify_response-verify_object :
        (state : Bool) (message : Bytes)
        → IsWritten state message
        → parse_verify_response json (json.to_string (verify_object crc json state message))
          ≡ ok (state, message)
    unfolding parse_verify_response text same
    parse_verify_response-verify_object state message (utf8, read) =
        let obj : json.Object =
          json.insert (text "message") (json.string message)
            (json.insert (text "state") (json.boolean state) json.empty) in
        rw (
          utf8,
          read,
          member_bool-boolean (text "state") state obj (simp (json.get-insert)),
          member_str-text (text "message") message obj (simp (json.get-insert)),
        )

    -- What the client reads of the frame: one message, whose payload says this.
    abbrev pub Says : Bytes → ChannelId → Bytes → Bool → Bytes → Type 0
    Says name channel_id frame state message =
        (payload : Bytes) × Arrives crc (reply_stream name channel_id) frame payload
        × (parse_verify_response json payload ≡ ok (state, message))

    pub create_verify_response-Says :
        (name : Bytes) (channel_id : ChannelId) (state : Bool) (message frame : Bytes)
        → IsName name
        → IsChannelId channel_id
        → IsWritten state message
        → create_verify_response crc json name channel_id state message ≡ ok frame
        → Says name channel_id frame state message
    create_verify_response-Says name channel_id state message frame n c w h = (
      json.to_string (verify_object crc json state message),
      create_verify_response-Arrives crc json name channel_id n c state message frame h,
      parse_verify_response-verify_object state message w,
    )
