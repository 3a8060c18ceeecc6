-- ===== src/Protocol/Validate/Tests.antt =====
-- The theorems on URLs and replies at concrete values.
use fernq.Prelude.{◌≡◌, refl, true, some, [], ◌∷◌, ◌++◌, Result, ok, err, panic, arith}
use fernq.Prelude.Bytes.{Bytes, slice}
use fernq.Prelude.Text.{text, is_utf8}
use fernq.Prelude.Search.{
  find, rfind, starts_with, strip_prefix, split, take_until, rsplit_next, lacks-Lacks,
}
use fernq.Protocol.Encoder.{data_frame, generate_message_data_stream, stream_loop}
use fernq.Protocol.Stream.{IsName}
use fernq.Protocol.Message.{json_type, response_object}
use fernq.Protocol.Message.Tests.{TestValue, test_string, test_object, json_with}
use fernq.Protocol.Tests.{net_crc, sample_id}
use fernq.Protocol.Validate.{
  parse_u16, validate_ipv4_or_hostname, validate_and_normalize_address, extract_password,
  extract_name, extract_uuid, parse_validate, create_validate, validate_stream, reply_stream,
  create_verify_response,
}
use fernq.Protocol.Validate.RoundTrip.{
  RoomUrl, IsRoomUrl, url_of, parse_validate-url_of, IsParsed, parse_validate_sound,
}
use fernq.Protocol.Validate.Address.{
  IsValidated, create_validate_sound, validate_and_normalize_address_panics,
}

-- A parser of UUIDs that takes the text for the UUID.
abbrev any_uuid : Bytes → Result Bytes Bytes
any_uuid s = ok s

abbrev pub den : RoomUrl
den = record {
  address = text "den.local:9147";
  uuid = text "12ab";
  name = text "den";
  password = text "cat";
}

pub den-IsRoomUrl : IsRoomUrl den
unfolding text is_utf8
den-IsRoomUrl = record {
  utf8 = refl;
  has_uuid = refl;
  has_name = refl;
  has_password = refl;
  address_query = lacks-Lacks b'?' den.address refl;
  uuid_query = lacks-Lacks b'?' den.uuid refl;
  name_query = lacks-Lacks b'?' den.name refl;
  address_hash = lacks-Lacks b'#' den.address refl;
  uuid_hash = lacks-Lacks b'#' den.uuid refl;
  uuid_slash = lacks-Lacks b'/' den.uuid refl;
  password_and = lacks-Lacks b'&' den.password refl;
}

den_url : url_of den ≡ text "fernq://den.local:9147/12ab#den?room_pass=cat"
unfolding text
den_url = refl

parse_validate-url_of_example :
    parse_validate any_uuid (url_of den) ≡ ok (text "12ab", text "den", text "cat")
parse_validate-url_of_example = parse_validate-url_of any_uuid den (text "12ab") den-IsRoomUrl refl

parse_validate_sound_example :
    IsParsed any_uuid (url_of den) (text "12ab") (text "den") (text "cat")
unfolding parse_validate extract_password extract_name extract_uuid text is_utf8 starts_with
    strip_prefix find rfind rsplit_next split
parse_validate_sound_example =
    parse_validate_sound any_uuid (url_of den) (text "12ab") (text "den") (text "cat") refl

-- A connection named "mole" asks for the room.
abbrev pub den_frame : Bytes
den_frame = data_frame net_crc (validate_stream (text "mole") sample_id) true 45 0 (url_of den)

pub den_asked :
    create_validate net_crc (text "mole") sample_id (url_of den)
    ≡ ok (text "den.local:9147", den_frame)
unfolding create_validate validate_and_normalize_address validate_ipv4_or_hostname parse_u16 text
    starts_with strip_prefix find rfind take_until generate_message_data_stream stream_loop slice
den_asked = refl

create_validate_sound_example :
    IsValidated net_crc (text "mole") sample_id (url_of den) (text "den.local:9147") den_frame
create_validate_sound_example =
    create_validate_sound net_crc (text "mole") sample_id (url_of den) (text "den.local:9147")
      den_frame den_asked

-- `[::1]` and a letter of two bytes.
validate_and_normalize_address_panics_example :
    validate_and_normalize_address (b'[' ∷ ((b':' ∷ b':' ∷ b'1' ∷ []) ++ b']' ∷ 0xc3 ∷ 0xa9 ∷ []))
    ≡ panic
validate_and_normalize_address_panics_example =
    validate_and_normalize_address_panics (b':' ∷ b':' ∷ b'1' ∷ []) (0xa9 ∷ []) 0xc3
      (lacks-Lacks b']' (b':' ∷ b':' ∷ b'1' ∷ []) refl) refl

pub mole-IsName : IsName (text "mole")
unfolding text is_utf8
mole-IsName = record { filled = omega arith; fits = omega arith; utf8 = refl }

abbrev pub json_text : Bytes
json_text = text "{}"

abbrev pub welcome_frame : Bytes
welcome_frame = data_frame net_crc (reply_stream (text "mole") sample_id) true 2 0 json_text

pub welcome_made :
    create_verify_response net_crc
      (json_with json_text (err []))
      (text "mole")
      sample_id
      true
      (text "Welcome to FernQ")
    ≡ ok welcome_frame
unfolding create_verify_response generate_message_data_stream stream_loop slice text
welcome_made = refl

abbrev pub not_found : TestValue
not_found = test_object (
    response_object (json_with json_text (err [])) 404 json_type
      (some (test_string (text "404 Not Found !"))))
