-- ===== src/Protocol/Message.antt =====
-- fernq-core/src/protocol/message.rs: requests and responses as JSON objects.
pub mod RoundTrip
pub mod Strings
pub mod Tests
use fernq.Prelude.{
  ℕ, ◌≡◌, Bool, true, false, not, ◌&&◌, ◌||◌, Option, none, some, ltb, leb, if◌then◌else◌, Result,
  ok, err, panic, stuck, ◌>>=◌, ◌>>◌, fail_if, ok_or,
}
use fernq.Prelude.Bytes.{Bytes, as_u16}
use fernq.Prelude.Text.{text, same}
use fernq.Protocol.Error.{
  ProtocolError, ProtocolResult, invalid_header_type, invalid_content_type, unexpected_body,
  invalid_state_code, malformed_frame, missing_path, missing_state, invalid_json,
}
use fernq.Protocol.Json.{Json}

pub data HeaderType : Type 0 where
  request_type response_type : HeaderType

-- `HeaderType::as_str`.
unfoldable pub header_str : HeaderType → Bytes
unfolding text
header_str request_type = text "request"
header_str response_type = text "response"

-- `HeaderType::from_str`.
unfoldable pub parse_header_type : Bytes → ProtocolResult HeaderType
unfolding text same
parse_header_type s =
    if same s (text "request")
    then ok request_type
    else if same s (text "response")
    then ok response_type
    else err (invalid_header_type s)

pub data ContentType : Type 0 where
  json_type form_type form_flow_type : ContentType

-- `ContentType::as_str`.
unfoldable pub content_str : ContentType → Bytes
unfolding text
content_str json_type = text "json"
content_str form_type = text "form"
content_str form_flow_type = text "form_flow"

unfoldable pub allows_body : ContentType → Bool
allows_body json_type = true
allows_body form_type = false
allows_body form_flow_type = false

-- `ContentType::from_str`.
unfoldable pub parse_content_type : Bytes → ProtocolResult ContentType
unfolding text same
parse_content_type s =
    if same s (text "json")
    then ok json_type
    else if same s (text "form")
    then ok form_type
    else if same s (text "form_flow")
    then ok form_flow_type
    else err (invalid_content_type s)

pub record RequestMessage (Value : Type 0) : Type 0 where
  pub content_type : ContentType
  pub path : Bytes
  pub body : Option Value

pub record ResponseMessage (Value : Type 0) : Type 0 where
  pub content_type : ContentType
  pub state : ℕ
  pub body : Option Value

-- `RequestMessage::new` and `with_body`, and those of a response.
abbrev pub new_request : {Value : Type 0} → Bytes → ContentType → RequestMessage Value
new_request path content_type = record { content_type = content_type; path = path; body = none }

abbrev pub request_with_body : {Value : Type 0} → Bytes → Value → RequestMessage Value
request_with_body path body = record { content_type = json_type; path = path; body = some body }

abbrev pub new_response : {Value : Type 0} → ℕ → ContentType → ResponseMessage Value
new_response state content_type = record { content_type = content_type; state = state; body = none }

abbrev pub response_with_body : {Value : Type 0} → ℕ → Value → ResponseMessage Value
response_with_body state body = record { content_type = json_type; state = state; body = some body }

pub data Message (Value : Type 0) : Type 0 where
  request : RequestMessage Value → Message Value
  response : ResponseMessage Value → Message Value

abbrev pub is_some : {A : Type 0} → Option A → Bool
is_some none = false
is_some (some a) = true

-- `!(100..=599).contains(&state)`.
abbrev pub bad_state : ℕ → Bool
bad_state state = not (leb 100 state && leb state 599)

-- `map_err(|e| InvalidJson(e.to_string()))`.
abbrev pub as_invalid_json : {A : Type 0} → Result Bytes A → ProtocolResult A
as_invalid_json (ok a) = ok a
as_invalid_json (err e) = err (invalid_json e)
as_invalid_json panic = panic
as_invalid_json stuck = stuck

module _ (json : Json) where
  open json use {
    Value, Object, empty, insert, get, string, number, object, as_str, as_u64, as_object, to_vec,
    from_slice, to_str, from_str,
  }

  -- `if let Some(b) = body { map.insert("body", b) }`.
  unfoldable pub with_body : Option Value → Object → Object
  with_body none m = m
  with_body (some b) m = insert (text "body") b m

  -- The object of a request or a response: its type, its content type, its path or state, the body.
  abbrev pub request_object : Bytes → ContentType → Option Value → Object
  request_object path content_type body =
      let m1 : Object = insert (text "header_type") (string (header_str request_type)) empty in
      let m2 : Object = insert (text "content_type") (string (content_str content_type)) m1 in
      let m3 : Object = insert (text "path") (string path) m2 in with_body body m3

  abbrev pub response_object : ℕ → ContentType → Option Value → Object
  response_object state content_type body =
      let m1 : Object = insert (text "header_type") (string (header_str response_type)) empty in
      let m2 : Object = insert (text "content_type") (string (content_str content_type)) m1 in
      let m3 : Object = insert (text "state") (number state) m2 in with_body body m3

  unfoldable pub encode_request : Bytes → ContentType → Option Value → ProtocolResult Value
  encode_request path content_type body = do
    fail_if (not (allows_body content_type) && is_some body) unexpected_body
    ok (object (request_object path content_type body))

  unfoldable pub encode_response : ℕ → ContentType → Option Value → ProtocolResult Value
  encode_response state content_type body = do
    fail_if (bad_state state) (invalid_state_code state)
    fail_if (not (allows_body content_type) && is_some body) unexpected_body
    ok (object (response_object state content_type body))

  unfoldable pub encode_request_to_bytes : Bytes → ContentType → Option Value → ProtocolResult Bytes
  encode_request_to_bytes path content_type body = do
    val ← encode_request path content_type body
    as_invalid_json (to_vec val)

  unfoldable pub encode_response_to_bytes : ℕ → ContentType → Option Value → ProtocolResult Bytes
  encode_response_to_bytes state content_type body = do
    val ← encode_response state content_type body
    as_invalid_json (to_vec val)

  -- `obj.get(key).and_then(|v| v.as_str())`, and the same for `as_u64`.
  unfoldable pub get_str : Bytes → Object → Option Bytes
  get_str key obj = elim (get key obj) [ none ↦ none | some v ↦ as_str v ]

  unfoldable pub get_u64 : Bytes → Object → Option ℕ
  get_u64 key obj = elim (get key obj) [ none ↦ none | some v ↦ as_u64 v ]

  unfoldable pub decode_request : Object → ContentType → ProtocolResult (Message Value)
  unfolding get_str
  decode_request obj content_type = do
    path ← ok_or (get_str (text "path") obj) missing_path
    let body = get (text "body") obj
    fail_if (not (allows_body content_type) && is_some body) unexpected_body
    ok (request (record { content_type = content_type; path = path; body = body }))

  unfoldable pub decode_response : Object → ContentType → ProtocolResult (Message Value)
  unfolding get_u64
  decode_response obj content_type = do
    n ← ok_or (get_u64 (text "state") obj) missing_state
    let state = as_u16 n
    fail_if (bad_state state) (invalid_state_code state)
    let body = get (text "body") obj
    fail_if (not (allows_body content_type) && is_some body) unexpected_body
    ok (response (record { content_type = content_type; state = state; body = body }))

  unfoldable pub decode_as : HeaderType → Object → ContentType → ProtocolResult (Message Value)
  decode_as request_type obj content_type = decode_request obj content_type
  decode_as response_type obj content_type = decode_response obj content_type

  unfoldable pub decode_message : Value → ProtocolResult (Message Value)
  unfolding get_str decode_as
  decode_message value = do
    obj ← ok_or (as_object value) (malformed_frame (text "root must be a JSON object"))
    header_str' ←
        ok_or (get_str (text "header_type") obj)
          (malformed_frame (text "missing or invalid header_type"))
    header_type ← parse_header_type header_str'
    content_str' ←
        ok_or (get_str (text "content_type") obj)
          (malformed_frame (text "missing or invalid content_type"))
    content_type ← parse_content_type content_str'
    decode_as header_type obj content_type

  unfoldable pub decode_from_bytes : Bytes → ProtocolResult (Message Value)
  decode_from_bytes bytes = do val ← as_invalid_json (from_slice bytes); decode_message val

  -- The same to and from text.
  unfoldable pub to_json_string : Value → ProtocolResult Bytes
  to_json_string value = as_invalid_json (to_str value)

  unfoldable pub from_json_string : Bytes → ProtocolResult Value
  from_json_string s = as_invalid_json (from_str s)

  unfoldable pub encode_request_to_string :
      Bytes → ContentType → Option Value → ProtocolResult Bytes
  encode_request_to_string path content_type body = do
    val ← encode_request path content_type body
    to_json_string val

  unfoldable pub encode_response_to_string : ℕ → ContentType → Option Value → ProtocolResult Bytes
  encode_response_to_string state content_type body = do
    val ← encode_response state content_type body
    to_json_string val

  unfoldable pub decode_from_string : Bytes → ProtocolResult (Message Value)
  decode_from_string s = do val ← from_json_string s; decode_message val
