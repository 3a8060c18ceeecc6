-- ===== src/Protocol/Error.antt =====
-- `ProtocolError` and `ProtocolResult` of fernq-core/src/protocol/error.rs. A string is its bytes.
pub mod Display
use fernq.Prelude.{ℕ, Result}
use fernq.Prelude.Bytes.{Bytes}

pub data ProtocolError : Type 0 where
  unknown_message_type : ℕ → ProtocolError
  invalid_flags : ℕ → ProtocolError
  -- received, expected
  invalid_magic : ℕ → ℕ → ProtocolError
  -- received, expected
  invalid_version : ℕ → ℕ → ProtocolError
  invalid_frame_length : Bytes → ProtocolError
  -- required, actual, context
  incomplete_frame : ℕ → ℕ → Bytes → ProtocolError
  -- name_type, length, max
  name_too_long : Bytes → ℕ → ℕ → ProtocolError
  -- length, max
  stream_too_long : ℕ → ℕ → ProtocolError
  length_overflow : Bytes → ProtocolError
  -- offset, total
  invalid_offset : ℕ → ℕ → ProtocolError
  -- received, calculated
  crc_mismatch : ℕ → ℕ → ProtocolError
  malformed_frame : Bytes → ProtocolError
  empty_name : Bytes → ProtocolError
  -- expected, actual
  invalid_uuid_length : ℕ → ℕ → ProtocolError
  invalid_uuid_format : Bytes → ProtocolError
  -- received, reason
  invalid_target_count : ℕ → Bytes → ProtocolError
  invalid_name : Bytes → ProtocolError
  invalid_protocol : Bytes → ProtocolError
  empty_address : ProtocolError
  invalid_port : Bytes → ProtocolError
  invalid_utf8 missing_uuid missing_name missing_password empty_password : ProtocolError
  invalid_json : Bytes → ProtocolError
  invalid_header_type : Bytes → ProtocolError
  invalid_content_type : Bytes → ProtocolError
  missing_path missing_state unexpected_body missing_body : ProtocolError
  invalid_state_code : ℕ → ProtocolError

abbrev pub ProtocolResult : Type 0 → Type 0
ProtocolResult A = Result ProtocolError A
