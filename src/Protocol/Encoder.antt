-- ===== src/Protocol/Encoder.antt =====
-- fernq-core/src/protocol/encoder.rs. `stream_loop` is the `while` loop of the data stream, on
-- fuel: each round consumes at least one byte, so the length of the data is enough.
use fernq.Prelude.{
  ℕ, zero, suc, ◌+◌, ◌-◌, Bool, true, false, min, List, [], ◌∷◌, ◌++◌, length, drop, ltb, leb, ◌==◌,
  ok, stuck, ◌>>=◌, ◌>>◌, fail_if,
}
use fernq.Prelude.Bytes.{Bytes, slice, to_be_16, to_be_32, as_u16, as_u32}
use fernq.Prelude.Text.{text}
use fernq.Protocol.{
  Crc, magic, version, magic_len, fixed_header_len, message_fixed_len, max_frame_size,
  max_stream_length, max_name_length,
}
use fernq.Protocol.Error.{
  ProtocolResult, empty_name, name_too_long, invalid_frame_length, stream_too_long,
}
use fernq.Protocol.Frame.{MessageType, ping, pong, type_byte, MessageFlags, new_flags, ChannelId}

-- The checksum of all but the magic number goes behind the frame.
abbrev pub with_crc : Crc → Bytes → Bytes
with_crc crc frame = frame ++ to_be_16 (crc.checksum (drop magic_len frame))

-- Magic number, version, type, flags and frame length.
unfoldable pub fixed_header : MessageType → MessageFlags → ℕ → Bytes
fixed_header t flags frame_len =
    to_be_32 magic ++ version ∷ type_byte t ∷ flags.bits ∷ to_be_32 frame_len

unfoldable pub ping_frame : Crc → Bytes
unfolding fixed_header
ping_frame crc = with_crc crc (fixed_header ping (new_flags true true false) 2)

unfoldable pub pong_frame : Crc → Bytes
unfolding fixed_header
pong_frame crc = with_crc crc (fixed_header pong (new_flags true true true) 2)

-- What every frame of one stream shares.
pub record Stream : Type 0 where
  pub message_type : MessageType
  pub end_channel : Bool
  pub is_response : Bool
  pub channel_id : ChannelId
  pub source_name : Bytes
  pub target_name : Bytes

-- What stands between the fixed header and the checksum: `total` is the length of the stream and
-- `offset` that of the payload in it.
abbrev pub frame_tail : Stream → (total offset : ℕ) → Bytes → Bytes
frame_tail s total offset payload =
    s.channel_id.bytes
    ++ (to_be_16 (as_u16 (length s.source_name))
        ++ (s.source_name
            ++ (to_be_16 (as_u16 (length s.target_name))
                ++ (s.target_name
                    ++ (to_be_32 (as_u32 total) ++ (to_be_32 (as_u32 offset) ++ payload))))))

-- One frame.
unfoldable pub data_frame : Crc → Stream → (end_stream : Bool) (total offset : ℕ) → Bytes → Bytes
data_frame crc s end_stream total offset payload =
    let capacity : ℕ =
      message_fixed_len + length s.source_name + length s.target_name + length payload in
    let frame_len : ℕ = capacity - fixed_header_len in
    let flags : MessageFlags = new_flags end_stream s.end_channel s.is_response in
    with_crc crc
      (fixed_header s.message_type flags (as_u32 frame_len) ++ frame_tail s total offset payload)

unfoldable pub stream_loop :
    Crc
    → Stream
    → (data_bytes : Bytes) (max_payload_len fuel offset : ℕ) → List Bytes
    → ProtocolResult (List Bytes)
stream_loop crc s data_bytes max_payload_len zero offset frames = stuck
stream_loop crc s data_bytes max_payload_len (suc fuel) offset frames =
    let total : ℕ = length data_bytes in
    elim (ltb offset total) [
      | true ↦
          let payload_len : ℕ = min max_payload_len (total - offset) in
          slice data_bytes offset (offset + payload_len) >>= λ payload.
          stream_loop crc s data_bytes max_payload_len fuel (offset + payload_len) (
            frames ++ data_frame crc s (leb total (offset + payload_len)) total offset payload ∷ [])
      | false ↦ ok frames
    ]

-- The subtraction does not underflow: the two names are at most 128 bytes long where it is used.
abbrev pub max_payload : Stream → ℕ
max_payload s = max_frame_size - message_fixed_len - length s.source_name - length s.target_name

unfoldable pub generate_message_data_stream : Crc → Stream → Bytes → ProtocolResult (List Bytes)
generate_message_data_stream crc s data_bytes = do
  fail_if (length s.source_name == 0) (empty_name (text "source"))
  fail_if (length s.target_name == 0) (empty_name (text "target"))
  fail_if (ltb max_name_length (length s.source_name))
      (name_too_long (text "source") (length s.source_name) max_name_length)
  fail_if (ltb max_name_length (length s.target_name))
      (name_too_long (text "target") (length s.target_name) max_name_length)
  fail_if (max_payload s == 0) (invalid_frame_length (text "names too long, no space for payload"))
  fail_if (ltb max_stream_length (length data_bytes))
      (stream_too_long (length data_bytes) max_stream_length)
  stream_loop crc s data_bytes (max_payload s) (suc (length data_bytes)) 0 []
