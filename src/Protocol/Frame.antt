-- ===== src/Protocol/Frame.antt =====
-- fernq-core/src/protocol/frame.rs: magic, version, message types, flags and channel ids. A `Uuid`
-- of the uuid crate is the sixteen bytes that `from_bytes` takes and `as_bytes` gives back.
pub mod Convert
pub mod Display
pub mod RoundTrip
pub mod Assign
use Prim.Native.Nat.{bit_and, bit_or}
use fernq.Prelude.{
  ℕ, zero, suc, ◌+◌, ◌-◌, ◌*◌, ◌%◌, ◌^◌, ◌≡◌, Bool, true, false, not, ◌||◌, List, [], ◌∷◌, ◌++◌,
  length, All, ◌==◌, if◌then◌else◌, Result, ok, err, panic, ◌>>=◌, ◌>>◌, fail_if,
}
use fernq.Prelude.Bytes.{Bytes, IsByte, index, read_32}
use fernq.Prelude.Text.{text, decimal}
use fernq.Protocol.{magic, version}
use fernq.Protocol.Error.{
  ProtocolResult, unknown_message_type, invalid_flags, invalid_magic, invalid_version,
  invalid_frame_length, invalid_uuid_length, invalid_target_count,
}

unfoldable pub validate_magic : Bytes → ProtocolResult ℕ
validate_magic bytes = do
  fail_if (not (length bytes == 4)) (
      invalid_frame_length
        (text "magic validation requires 4 bytes, got " ++ decimal (length bytes)))
  received ← read_32 bytes 0
  if received == magic then ok received else err (invalid_magic received magic)

unfoldable pub validate_version : ℕ → ProtocolResult ℕ
validate_version byte = if byte == version then ok byte else err (invalid_version byte version)

pub data MessageType : Type 0 where
  header body ping pong : MessageType

-- `MessageType::as_u8`.
unfoldable pub type_byte : MessageType → ℕ
type_byte header = 0x01
type_byte body = 0x02
type_byte ping = 0x03
type_byte pong = 0x04

-- `MessageType::try_from(u8)`.
unfoldable pub message_type : ℕ → ProtocolResult MessageType
message_type value =
    if value == 0x01
    then ok header
    else if value == 0x02
    then ok body
    else if value == 0x03
    then ok ping
    else if value == 0x04
    then ok pong
    else err (unknown_message_type value)

pub record MessageFlags : Type 0 where
  pub bits : ℕ

abbrev pub end_stream_bit : ℕ
end_stream_bit = 0b1000_0000

abbrev pub end_channel_bit : ℕ
end_channel_bit = 0b0100_0000

abbrev pub is_response_bit : ℕ
is_response_bit = 0b0010_0000

abbrev pub reserved_mask : ℕ
reserved_mask = 0b0001_1111

-- `MessageFlags::new`.
unfoldable pub new_flags : Bool → Bool → Bool → MessageFlags
new_flags end_stream end_channel is_response =
    let val : ℕ = 0 in
    let val' : ℕ = if end_stream then bit_or val end_stream_bit else val in
    let val'' : ℕ = if end_channel then bit_or val' end_channel_bit else val' in
    record { bits = if is_response then bit_or val'' is_response_bit else val'' }

unfoldable pub end_stream : MessageFlags → Bool
end_stream flags = not (bit_and flags.bits end_stream_bit == 0)

unfoldable pub end_channel : MessageFlags → Bool
end_channel flags = not (bit_and flags.bits end_channel_bit == 0)

unfoldable pub is_response : MessageFlags → Bool
is_response flags = not (bit_and flags.bits is_response_bit == 0)

unfoldable pub is_request : MessageFlags → Bool
unfolding is_response
is_request flags = not (is_response flags)

unfoldable pub is_valid : MessageFlags → Bool
is_valid flags = bit_and flags.bits reserved_mask == 0

-- `MessageFlags::try_from(u8)`.
unfoldable pub message_flags : ℕ → ProtocolResult MessageFlags
message_flags value =
    if not (bit_and value reserved_mask == 0)
    then err (invalid_flags value)
    else ok (record { bits = value })

-- `<(bool, bool, bool)>::from(flags)`.
unfoldable pub flag_triple : MessageFlags → Bool × Bool × Bool
unfolding end_stream end_channel is_response
flag_triple flags = (end_stream flags, end_channel flags, is_response flags)

pub record ChannelId : Type 0 where
  pub bytes : Bytes

-- The type `[u8; 16]` of its bytes.
pub record IsChannelId (id : ChannelId) : Type 0 where
  pub sixteen : length id.bytes ≡ 16
  pub are_bytes : All IsByte id.bytes

-- `ChannelId::try_from_slice`.
unfoldable pub try_from_slice : Bytes → ProtocolResult ChannelId
try_from_slice slice =
    if length slice == 16
    then ok (record { bytes = slice })
    else err (invalid_uuid_length 16 (length slice))

-- The last eight bytes as a big-endian `u64`.
unfoldable pub hash_u64 : ChannelId → ProtocolResult ℕ
hash_u64 id = do high ← read_32 id.bytes 8; low ← read_32 id.bytes 12; ok (high * 2 ^ 32 + low)

unfoldable pub assign_target : ChannelId → ℕ → ProtocolResult ℕ
assign_target id total_targets = do
  fail_if (total_targets == 0) (invalid_target_count 0 (text "must be greater than 0"))
  hash ← hash_u64 id
  ok (hash % total_targets)

unfoldable pub power_among : ℕ → ℕ → Bool
power_among zero n = false
power_among (suc k) n = n == 2 ^ k || power_among k n

-- `usize::is_power_of_two`, on 64 bits.
unfoldable pub is_power_of_two : ℕ → Bool
unfolding power_among
is_power_of_two n = power_among 64 n

abbrev pub not_a_power : Bytes
not_a_power = text "must be power of 2 for fast path (e.g., 16, 32, 64, 128)"

unfoldable pub assign_target_fast : ChannelId → ℕ → ProtocolResult ℕ
assign_target_fast id total_targets = do
  fail_if (not (is_power_of_two total_targets)) (invalid_target_count total_targets not_a_power)
  hash ← hash_u64 id
  ok (bit_and hash (total_targets - 1))

pub record MessageHeader : Type 0 where
  pub channel_id : ChannelId
  pub source : Bytes
  pub target : Bytes
  pub total_len : ℕ
  pub stream_offset : ℕ
