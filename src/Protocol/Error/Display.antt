-- ===== src/Protocol/Error/Display.antt =====
-- The texts of errors, `Display for ProtocolError` in fernq-core/src/protocol/error.rs.
use fernq.Prelude.{
  ℕ, zero, suc, ◌+◌, ◌-◌, ◌/◌, ◌%◌, ◌≡◌, refl, [], ◌∷◌, ◌++◌, length, ltb, if◌then◌else◌,
}
use fernq.Prelude.Bytes.{Bytes}
use fernq.Prelude.Text.{text, decimal}
use fernq.Protocol.Error.{
  ProtocolError, unknown_message_type, invalid_flags, invalid_magic, invalid_version,
  invalid_frame_length, incomplete_frame, name_too_long, stream_too_long, length_overflow,
  invalid_offset, crc_mismatch, malformed_frame, empty_name, invalid_uuid_length,
  invalid_uuid_format, invalid_target_count, invalid_name, invalid_protocol, empty_address,
  invalid_port, invalid_utf8, missing_uuid, missing_name, missing_password, empty_password,
  invalid_json, invalid_header_type, invalid_content_type, missing_path, missing_state,
  unexpected_body, missing_body, invalid_state_code,
}

hex_digit : ℕ → ℕ
hex_digit n = if ltb n 10 then b'0' + n else b'A' + (n - 10)

hex_fuel : ℕ → ℕ → Bytes
hex_fuel zero n = []
hex_fuel (suc fuel) n =
    let high = hex_fuel fuel (n / 16) in
    if ltb n 16 then hex_digit n ∷ [] else high ++ hex_digit (n % 16) ∷ []

zeros : ℕ → Bytes
zeros zero = []
zeros (suc k) = b'0' ∷ zeros k

-- `{:0…X}`: upper case digits, filled with zeros to the width. A number has no more digits than its value.
unfoldable pub hex : (width : ℕ) → ℕ → Bytes
unfolding hex_digit hex_fuel zeros
hex width n = zeros (width - length (hex_fuel (suc n) n)) ++ hex_fuel (suc n) n

unfoldable pub display : ProtocolError → Bytes
display (unknown_message_type v) = text "unknown message type: 0x" ++ hex 2 v
display (invalid_flags v) =
    text "invalid flags: 0x" ++ (hex 2 v ++ text " (reserved bits must be zero)")
display (invalid_magic received expected) =
    text "magic mismatch: received 0x"
    ++ (hex 8 received ++ (text ", expected 0x" ++ hex 8 expected))
display (invalid_version received expected) =
    text "version mismatch: received "
    ++ (decimal received ++ (text ", expected " ++ decimal expected))
display (invalid_frame_length msg) = text "invalid frame length: " ++ msg
display (incomplete_frame required actual context) =
    text "incomplete frame ("
    ++ (context
        ++ (text "): required " ++ (decimal required ++ (text " bytes, got " ++ decimal actual))))
display (name_too_long name_type length max) =
    name_type
    ++ (text " name too long: "
        ++ (decimal length ++ (text " bytes (max: " ++ (decimal max ++ text ")"))))
display (stream_too_long length max) =
    text "stream too long: "
    ++ (decimal length ++ (text " bytes (max: " ++ (decimal max ++ text " bytes)")))
display (length_overflow context) = text "arithmetic overflow in: " ++ context
display (invalid_offset offset total) =
    text "invalid offset: " ++ (decimal offset ++ (text " (total: " ++ (decimal total ++ text ")")))
display (crc_mismatch received calculated) =
    text "CRC mismatch: received 0x"
    ++ (hex 4 received ++ (text ", calculated 0x" ++ hex 4 calculated))
display (malformed_frame msg) = text "malformed frame: " ++ msg
display (empty_name name_type) = name_type ++ text " name cannot be empty"
display (invalid_uuid_length expected actual) =
    text "invalid UUID length: expected "
    ++ (decimal expected ++ (text " bytes, got " ++ decimal actual))
display (invalid_uuid_format msg) = text "invalid UUID format: " ++ msg
display (invalid_target_count received reason) =
    text "invalid target count: " ++ (decimal received ++ (text " (" ++ (reason ++ text ")")))
display (invalid_name name_type) = name_type ++ text " name cannot be empty"
display (invalid_protocol url) =
    text "invalid protocol scheme: " ++ (url ++ text " (expected fernq://)")
display empty_address = text "address is empty after fernq://"
display (invalid_port port) = text "invalid port number: " ++ port
display invalid_utf8 = text "payload is not valid UTF-8"
display missing_uuid = text "missing UUID in URL path"
display missing_name = text "missing room name (expected #name)"
display missing_password = text "missing room_pass in query string"
display empty_password = text "room_pass cannot be empty"
display (invalid_json msg) = text "json parse error: " ++ msg
display (invalid_header_type ty) =
    text "invalid header_type: " ++ (ty ++ text " (expected 'request' or 'response')")
display (invalid_content_type ty) =
    text "invalid content_type: " ++ (ty ++ text " (expected 'json', 'form', or 'form_flow')")
display missing_path = text "missing required field 'path' for request"
display missing_state = text "missing required field 'state' for response"
display unexpected_body = text "unexpected body field for form/form_flow content type"
display missing_body =
    text "missing required body field for json content type (deprecated: body is now optional)"
display (invalid_state_code code) =
    text "invalid state code: " ++ (decimal code ++ text " (expected HTTP status code)")

magic_text :
    display (invalid_magic 0x0135 0x1352DCF)
    ≡ text "magic mismatch: received 0x00000135, expected 0x01352DCF"
unfolding display hex text
magic_text = refl
