-- ===== src/Protocol/Validate.antt =====
-- fernq-core/src/protocol/validate.rs: the URL of a room, the frame that sends it, and the frames that
-- answer. `Uuid::parse_str` is a parameter, and its error is the text that is shown of it.
pub mod RoundTrip
pub mod Address
pub mod Reply
pub mod Verdict
pub mod Tests
use fernq.Prelude.{
  ℕ, ◌+◌, ◌*◌, ◌-◌, ◌<◌, Bool, true, false, not, ◌&&◌, ◌||◌, Option, none, some, List, [], ◌∷◌,
  ◌++◌, length, ltb, leb, ◌==◌, if◌then◌else◌, Result, ok, err, panic, stuck, ◌>>=◌, ◌>>◌, fail_if,
  ok_or,
}
use fernq.Prelude.Bytes.{Bytes}
use fernq.Prelude.Text.{text, same, is_utf8}
use fernq.Prelude.Search.{
  starts_with, strip_prefix, find, rfind, rsplit_next, split, take_until, or_else,
}
use fernq.Protocol.{Crc}
use fernq.Protocol.Error.{
  ProtocolError, ProtocolResult, invalid_protocol, empty_address, invalid_port, malformed_frame,
  invalid_frame_length, invalid_utf8, invalid_json, invalid_uuid_format, missing_uuid, missing_name,
  missing_password, empty_password,
}
use fernq.Protocol.Frame.{ChannelId, header}
use fernq.Protocol.Encoder.{Stream, generate_message_data_stream}
use fernq.Protocol.Json.{Json}
use fernq.Protocol.Message.{json_type, encode_response_to_bytes, as_invalid_json}

abbrev pub is_empty : Bytes → Bool
is_empty [] = true
is_empty (b ∷ bs) = false

abbrev digits_value : ℕ → Bytes → Option ℕ
digits_value n [] = some n
digits_value n (b ∷ bs) =
    let rest = digits_value (n * 10 + (b - b'0')) bs in
    if leb b'0' b && leb b b'9' then rest else none

-- `s.parse::<u16>()`: digits, with a `+` before them or not, for a number below 2 ^ 16.
unfoldable pub parse_u16 : Bytes → Option ℕ
unfolding text
parse_u16 s =
    let digits : Bytes = elim (strip_prefix (text "+") s) [ none ↦ s | some rest ↦ rest ] in
    if is_empty digits then none else elim (digits_value 0 digits) [
      | none ↦ none
      | some n ↦ if ltb n 65536 then some n else none
    ]

-- The check of an address without brackets: a port, if there is one, and a host before it.
abbrev pub check_host_port : Bytes → Option (Bytes × Bytes) → ProtocolResult Bytes
check_host_port addr none = ok addr
check_host_port addr (some (host, port_str)) = do
  port ← ok_or (parse_u16 port_str) (invalid_port port_str)
  fail_if (is_empty host) (malformed_frame (text "empty host before port"))
  ok addr

unfoldable pub validate_ipv4_or_hostname : Bytes → ProtocolResult Bytes
validate_ipv4_or_hostname addr = check_host_port addr (rfind b':' addr)

-- A string slice that starts at these bytes cannot be cut in front of them: they start inside of a
-- character.
abbrev pub inside_char : Bytes → Bool
inside_char [] = false
inside_char (b ∷ bs) = leb 0x80 b && ltb b 0xc0

abbrev pub check_port : Bytes → ℕ → Bytes → ProtocolResult Bytes
check_port addr b port_str = do
  fail_if (not (b == b':')) (malformed_frame (text "invalid IPv6 format, expected ]:port"))
  port ← ok_or (parse_u16 port_str) (invalid_port port_str)
  ok addr

-- What may stand behind the bracket. `&addr[i..i + 1]` panics if a character of several bytes is there.
abbrev pub check_bracket_port : Bytes → Bytes → ProtocolResult Bytes
check_bracket_port addr [] = ok addr
check_bracket_port addr (b ∷ port_str) =
    if inside_char port_str then panic else check_port addr b port_str

unfoldable pub validate_ipv6_address : Bytes → ProtocolResult Bytes
validate_ipv6_address addr = do
  (inside, behind) ← ok_or (find b']' addr) (malformed_frame (text "unclosed IPv6 bracket"))
  check_bracket_port addr behind

unfoldable pub validate_and_normalize_address : Bytes → ProtocolResult Bytes
validate_and_normalize_address addr =
    if starts_with (text "[") addr
    then validate_ipv6_address addr
    else validate_ipv4_or_hostname addr

-- `frames.remove(0)` of a list that must have one element.
abbrev pub only_frame : List Bytes → ProtocolResult Bytes
only_frame [] = err (invalid_frame_length (text "frame too long"))
only_frame (frame ∷ []) = ok frame
only_frame (frame ∷ other ∷ frames) = err (invalid_frame_length (text "frame too long"))

abbrev pub protocol_prefix : Bytes
protocol_prefix = text "fernq://"

-- `['/', '?', '#']`.
abbrev pub ends_address : ℕ → Bool
ends_address b = (b == b'/') || ((b == b'?') || (b == b'#'))

-- A connection asks for a room with its own name and the URL.
abbrev pub validate_stream : Bytes → ChannelId → Stream
validate_stream name channel_id = record {
  message_type = header;
  end_channel = true;
  is_response = false;
  channel_id = channel_id;
  source_name = name;
  target_name = text "fernq";
}

unfoldable pub create_validate : Crc → Bytes → ChannelId → Bytes → ProtocolResult (Bytes × Bytes)
unfolding text
create_validate crc name channel_id url = do
  rest ← ok_or (strip_prefix protocol_prefix url) (invalid_protocol url)
  let addr_part = take_until ends_address rest
  fail_if (is_empty addr_part) empty_address
  normalized_addr ← validate_and_normalize_address addr_part
  frames ← generate_message_data_stream crc (validate_stream name channel_id) url
  frame ← only_frame frames
  ok (normalized_addr, frame)

abbrev pub find_param : List Bytes → Option Bytes
find_param [] = none
find_param (param ∷ params) = or_else (strip_prefix (text "room_pass=") param) (find_param params)

unfoldable pub extract_password : Bytes → ProtocolResult (Bytes × Bytes)
extract_password url = do
  (base_url, query) ← ok_or (find b'?' url) missing_password
  password ← ok_or (find_param (split b'&' query)) missing_password
  fail_if (is_empty password) empty_password
  ok (base_url, password)

unfoldable pub extract_name : Bytes → ProtocolResult (Bytes × Bytes)
extract_name url = do
  (base, name) ← ok_or (find b'#' url) missing_name
  fail_if (is_empty name) missing_name
  ok (base, name)

-- The replies come from the server, whose name is "fernq".
abbrev pub reply_stream : Bytes → ChannelId → Stream
reply_stream name channel_id = record {
  message_type = header;
  end_channel = true;
  is_response = true;
  channel_id = channel_id;
  source_name = text "fernq";
  target_name = name;
}

module _ (crc : Crc) (json : Json) where
  -- The object of the answer to a validation.
  abbrev pub verify_object : Bool → Bytes → json.Value
  verify_object state message = json.object (
      json.insert (text "message") (json.string message)
        (json.insert (text "state") (json.boolean state) json.empty))

  unfoldable pub create_verify_response : Bytes → ChannelId → Bool → Bytes → ProtocolResult Bytes
  create_verify_response name channel_id state message = do
    frames ←
        generate_message_data_stream crc (reply_stream name channel_id)
          (json.to_string (verify_object state message))
    only_frame frames

  unfoldable pub create_message_response : Bytes → ChannelId → ℕ → Bytes → ProtocolResult Bytes
  create_message_response name channel_id state body = do
    json_obj ← encode_response_to_bytes json state json_type (some (json.string body))
    frames ← generate_message_data_stream crc (reply_stream name channel_id) json_obj
    only_frame frames

-- `value[key]`, which is null where there is no such member, and then `as_bool` and `as_str`.
module _ (json : Json) where
  abbrev pub member_bool : Bytes → json.Value → Option Bool
  member_bool key value = elim (json.as_object value) [
    | none ↦ none
    | some obj ↦ elim (json.get key obj) [ none ↦ none | some v ↦ json.as_bool v ]
  ]

  abbrev pub member_str : Bytes → json.Value → Option Bytes
  member_str key value = elim (json.as_object value) [
    | none ↦ none
    | some obj ↦ elim (json.get key obj) [ none ↦ none | some v ↦ json.as_str v ]
  ]

  unfoldable pub parse_verify_response : Bytes → ProtocolResult (Bool × Bytes)
  unfolding text
  parse_verify_response bytes = do
    fail_if (not (is_utf8 bytes)) invalid_utf8
    value ← as_invalid_json (json.from_str bytes)
    state ←
        ok_or (member_bool (text "state") value)
          (invalid_json (text "field 'state' must be boolean"))
    message ←
        ok_or (member_str (text "message") value)
          (invalid_json (text "field 'message' must be string"))
    ok (state, message)

-- `Uuid::parse_str`.
module _ {Uuid : Type 0} (parse_str : Bytes → Result Bytes Uuid) where
  abbrev pub as_invalid_uuid : Bytes → Result Bytes Uuid → ProtocolResult Uuid
  as_invalid_uuid uuid_str (ok id) = ok id
  as_invalid_uuid uuid_str (err e) =
      err (invalid_uuid_format (text "'" ++ (uuid_str ++ (text "' is not a valid UUID: " ++ e))))
  as_invalid_uuid uuid_str panic = panic
  as_invalid_uuid uuid_str stuck = stuck

  unfoldable pub extract_uuid : Bytes → ProtocolResult Uuid
  extract_uuid url = do
    let uuid_str = rsplit_next b'/' url
    fail_if (is_empty uuid_str) missing_uuid
    as_invalid_uuid uuid_str (parse_str uuid_str)

  unfoldable pub parse_validate : Bytes → ProtocolResult (Uuid × Bytes × Bytes)
  parse_validate url = do
    fail_if (not (is_utf8 url)) invalid_utf8
    fail_if (not (starts_with protocol_prefix url)) (invalid_protocol url)
    (url_without_query, password) ← extract_password url
    (path_part, name) ← extract_name url_without_query
    uuid ← extract_uuid path_part
    ok (uuid, name, password)
