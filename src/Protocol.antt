-- ===== src/Protocol.antt =====
-- The constants of fernq-core/src/protocol.rs, and the checksum that the protocol takes from the
-- `crc` crate.
pub mod Error
pub mod Frame
pub mod Decoder
pub mod Encoder
pub mod Json
pub mod Message
pub mod Validate
pub mod Stream
pub mod Tests
use fernq.Prelude.{ℕ, ◌+◌, ◌*◌, ◌^◌, ◌<◌}
use fernq.Prelude.Bytes.{Bytes}

abbrev pub magic : ℕ
magic = 20262351

abbrev pub version : ℕ
version = 1

abbrev pub magic_len : ℕ
magic_len = 4

abbrev pub version_len : ℕ
version_len = 1

abbrev pub type_len : ℕ
type_len = 1

abbrev pub flags_len : ℕ
flags_len = 1

abbrev pub frame_length_len : ℕ
frame_length_len = 4

abbrev pub channel_id_len : ℕ
channel_id_len = 16

abbrev pub source_len_size : ℕ
source_len_size = 2

abbrev pub target_len_size : ℕ
target_len_size = 2

abbrev pub total_stream_len : ℕ
total_stream_len = 4

abbrev pub stream_offset_len : ℕ
stream_offset_len = 4

abbrev pub crc_len : ℕ
crc_len = 2

abbrev pub fixed_header_len : ℕ
fixed_header_len = magic_len + version_len + type_len + flags_len + frame_length_len

abbrev pub message_fixed_len : ℕ
message_fixed_len =
    fixed_header_len + channel_id_len + source_len_size + target_len_size + total_stream_len
    + stream_offset_len + crc_len

abbrev pub max_frame_size : ℕ
max_frame_size = 8 * 1024

abbrev pub max_stream_length : ℕ
max_stream_length = 8 * 1024 * 1024

abbrev pub max_name_length : ℕ
max_name_length = 128

-- `NET_CRC` of the `crc` crate: a function of the bytes into `u16`.
pub record Crc : Type 0 where
  pub checksum : Bytes → ℕ
  pub checksum_u16 : (bytes : Bytes) → checksum bytes < 2 ^ 16
