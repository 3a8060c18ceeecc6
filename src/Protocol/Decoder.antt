-- ===== src/Protocol/Decoder.antt =====
-- fernq-core/src/protocol/decoder.rs. Indexing and slicing out of range panic, as in the source.
pub mod Accepts
pub mod Header
pub mod Safe
pub mod Split
pub mod Arrival
pub mod Panics
pub mod Parsed
use fernq.Prelude.{
  ℕ, ◌+◌, ◌-◌, ◌^◌, not, Option, none, some, length, ltb, leb, ◌==◌, if◌then◌else◌, ok, ◌>>=◌, ◌>>◌,
  fail_if, ok_or,
}
use fernq.Prelude.Bytes.{Bytes, index, slice, read_16, read_32}
use fernq.Prelude.Text.{text, is_utf8}
use fernq.Protocol.{
  Crc, magic_len, version_len, type_len, flags_len, channel_id_len, source_len_size,
  target_len_size, total_stream_len, stream_offset_len, fixed_header_len, message_fixed_len,
  max_name_length,
}
use fernq.Protocol.Error.{
  ProtocolResult, incomplete_frame, length_overflow, malformed_frame, crc_mismatch, name_too_long,
  empty_name, invalid_name,
}
use fernq.Protocol.Frame.{
  MessageType, MessageFlags, ChannelId, MessageHeader, validate_magic, validate_version,
  message_type, message_flags, try_from_slice,
}

unfoldable pub decode_header : Bytes → ProtocolResult (MessageType × MessageFlags × ℕ)
decode_header bytes = do
  fail_if (ltb (length bytes) magic_len)
      (incomplete_frame magic_len (length bytes) (text "fixed header"))
  first ← slice bytes 0 magic_len
  magic ← validate_magic first
  v ← index bytes magic_len
  version ← validate_version v
  t ← index bytes (magic_len + version_len)
  msg_type ← message_type t
  f ← index bytes (magic_len + version_len + type_len)
  flags ← message_flags f
  frame_length ← read_32 bytes (magic_len + version_len + type_len + flags_len)
  ok (msg_type, flags, frame_length)

-- `usize::checked_add` on 64 bits, and `usize::checked_sub`.
unfoldable pub checked_add : ℕ → ℕ → Option ℕ
checked_add a b = if ltb (a + b) (2 ^ 64) then some (a + b) else none

unfoldable pub checked_sub : ℕ → ℕ → Option ℕ
checked_sub a b = if leb b a then some (a - b) else none

-- The comparison of the two checksums.
unfoldable pub check_crc : Crc → Bytes → ℕ → ProtocolResult (Unit {0})
check_crc crc current_frame crc_offset = do
  covered ← slice current_frame magic_len crc_offset
  received ← read_16 current_frame crc_offset
  fail_if (not (crc.checksum covered == received)) (crc_mismatch received (crc.checksum covered))

-- The type and flags of the first frame, its bytes and the bytes behind it.
unfoldable pub decode_basic :
    Crc → Bytes → ProtocolResult (MessageType × MessageFlags × Bytes × Bytes)
decode_basic crc bytes = do
  fail_if (ltb (length bytes) fixed_header_len)
      (incomplete_frame fixed_header_len (length bytes) (text "fixed header"))
  first ← slice bytes 0 magic_len
  magic ← validate_magic first
  frame_length ← read_32 bytes (magic_len + version_len + type_len + flags_len)
  total_frame_len ←
      ok_or (checked_add fixed_header_len frame_length)
        (length_overflow (text "total frame length calculation"))
  fail_if (ltb (length bytes) total_frame_len)
      (incomplete_frame total_frame_len (length bytes) (text "complete frame"))
  current_frame ← slice bytes 0 total_frame_len
  remaining ← slice bytes total_frame_len (length bytes)
  crc_offset ←
      ok_or (checked_sub total_frame_len 2) (malformed_frame (text "frame too short for CRC"))
  check_crc crc current_frame crc_offset
  v ← index bytes magic_len
  version ← validate_version v
  t ← index bytes (magic_len + version_len)
  msg_type ← message_type t
  f ← index bytes (magic_len + version_len + type_len)
  flags ← message_flags f
  ok (msg_type, flags, current_frame, remaining)

unfoldable pub get_channel_id : Bytes → ProtocolResult ChannelId
get_channel_id bytes = do
  fail_if (ltb (length bytes) message_fixed_len)
      (incomplete_frame message_fixed_len (length bytes) (text "channel id"))
  id ← slice bytes fixed_header_len (fixed_header_len + channel_id_len)
  try_from_slice id

-- A name behind its length at `offset`, and the offset behind the name.
unfoldable pub read_name : Bytes → ℕ → ℕ → Bytes → ProtocolResult (Bytes × ℕ)
read_name bytes offset len_size name_type = do
  name_len ← read_16 bytes offset
  fail_if (ltb max_name_length name_len) (name_too_long name_type name_len max_name_length)
  fail_if (name_len == 0) (empty_name name_type)
  name ← slice bytes (offset + len_size) (offset + len_size + name_len)
  fail_if (not (is_utf8 name)) (invalid_name name_type)
  ok (name, offset + len_size + name_len)

unfoldable pub get_message_source_target : Bytes → ProtocolResult (Bytes × Bytes)
get_message_source_target bytes = do
  fail_if (ltb (length bytes) message_fixed_len)
      (incomplete_frame message_fixed_len (length bytes) (text "fixed header"))
  (source_name, offset) ←
      read_name bytes (fixed_header_len + channel_id_len) source_len_size (text "source")
  (target_name, offset') ← read_name bytes offset target_len_size (text "target")
  ok (source_name, target_name)

unfoldable pub parse_message : Bytes → ProtocolResult (MessageHeader × Bytes)
parse_message bytes = do
  fail_if (ltb (length bytes) message_fixed_len)
      (incomplete_frame message_fixed_len (length bytes) (text "channel id"))
  id ← slice bytes fixed_header_len (fixed_header_len + channel_id_len)
  chan_id ← try_from_slice id
  (source_name, offset) ←
      read_name bytes (fixed_header_len + channel_id_len) source_len_size (text "source")
  (target_name, offset') ← read_name bytes offset target_len_size (text "target")
  total_len ← read_32 bytes offset'
  stream_offset ← read_32 bytes (offset' + total_stream_len)
  payload ← slice bytes (offset' + total_stream_len + stream_offset_len) (length bytes - 2)
  ok (
    record {
      channel_id = chan_id;
      source = source_name;
      target = target_name;
      total_len = total_len;
      stream_offset = stream_offset;
    },
    payload,
  )
