-- ===== src/Server/Admission/Tests.antt =====
-- The theorems on new connections: "mole" asks for the room "den".
use fernq.Prelude.{false, ◌≡◌, refl, true, some, [], ◌∷◌, take, drop, Result, ok, err}
use fernq.Prelude.Bytes.{Bytes, slice}
use fernq.Prelude.Text.{text, same, is_utf8}
use fernq.Protocol.Json.{Json}
use fernq.Protocol.Message.Tests.{json_with}
use fernq.Protocol.Tests.{net_crc, sample_id, sample_id-IsChannelId}
use fernq.Protocol.Validate.Tests.{
  den, den-IsRoomUrl, den_frame, den_asked, json_text, welcome_frame, welcome_made, mole-IsName,
}
use fernq.Storage.{RoomModel, get_room, from_bytes}
use fernq.Storage.Tests.{written_room, log_store, plain, den_log}
use fernq.Storage.Tests
use fernq.Server.Node.Tests.{den_node}
use fernq.Server.Node.{ServerNode, open_room}
use fernq.Server.Admission.{filled, Peer, Admitted, add_connection}
use fernq.Server.Admission.Handshake.{handshake, wrong_password}
use fernq.Protocol.Validate.{create_verify_response, verify_object}
use fernq.Protocol.Validate.Verdict.{Says}
use fernq.Protocol.Encoder.{generate_message_data_stream, stream_loop}
use fernq.Server.Admission.Checks.{IsAdmitted, add_connection-IsAdmitted}
use fernq.Server.Admission.Handover.{add_connection-create_validate}

abbrev no_json : Json
no_json = json_with json_text (err [])

-- A parser that knows one UUID.
abbrev one_uuid : Bytes → Result Bytes Bytes
one_uuid s = ok (1 ∷ [])

abbrev mole : Peer
mole = record {
  header_read = filled (take 11 den_frame);
  body_read = λ n. filled (drop 11 den_frame);
  writes_in_time = true;
}

abbrev mole_admitted : Admitted
mole_admitted = record {
  response = welcome_frame;
  conn_name = text "mole";
  room_id = 1 ∷ [];
  room = den_node.rooms (1 ∷ []);
}

den_stored : get_room log_store plain (1 ∷ []) den_log ≡ ok (some Tests.den)
unfolding get_room from_bytes text same
den_stored = refl

mole_let_in :
    add_connection net_crc no_json log_store plain one_uuid den_node mole ≡ ok mole_admitted
mole_let_in =
    add_connection-create_validate net_crc no_json log_store plain one_uuid den_node mole
      (text "mole") sample_id den (1 ∷ []) (text "den.local:9147") den_frame Tests.den welcome_frame
      mole-IsName sample_id-IsChannelId den-IsRoomUrl refl den_asked den_stored refl refl
      welcome_made refl refl refl

add_connection-IsAdmitted_example :
    IsAdmitted net_crc no_json log_store plain one_uuid den_node mole mole_admitted
add_connection-IsAdmitted_example =
    add_connection-IsAdmitted net_crc no_json log_store plain one_uuid den_node mole mole_admitted
      (λ b h. cc) (λ k b h. cc) mole_let_in

-- The JSON that knows the answer.
abbrev hello_json : Json
hello_json = json_with json_text (ok (verify_object net_crc no_json true (text "Welcome to FernQ")))

hello_made :
    create_verify_response net_crc hello_json (text "mole") sample_id true (text "Welcome to FernQ")
    ≡ ok welcome_frame
unfolding create_verify_response generate_message_data_stream stream_loop slice text
hello_made = refl

json_text_utf8 : is_utf8 json_text ≡ true
unfolding is_utf8 text
json_text_utf8 = refl

handshake_example :
    (add_connection net_crc hello_json log_store plain one_uuid den_node mole
      ≡ ok (record {
        response = welcome_frame;
        conn_name = text "mole";
        room_id = 1 ∷ [];
        room = some (open_room (1 ∷ []) (text "den"));
      }))
    × Says hello_json net_crc (text "mole") sample_id welcome_frame true (text "Welcome to FernQ")
unfolding same
handshake_example =
    handshake net_crc hello_json log_store plain one_uuid den_node mole (text "mole") sample_id den
      (1 ∷ []) (text "den.local:9147") den_frame Tests.den welcome_frame
      (open_room (1 ∷ []) (text "den")) refl mole-IsName sample_id-IsChannelId den-IsRoomUrl refl
      den_asked den_stored refl refl hello_made (json_text_utf8, refl) refl refl refl

-- A room of the same name with another password.
abbrev locked : RoomModel
locked = record { id = 1 ∷ []; name = text "den"; password = text "dog" }

abbrev locked_node : ServerNode log_store plain
locked_node = record {
  rooms = den_node.rooms;
  disk = (1 ∷ [], some (written_room locked)) ∷ [];
  is_closed = false;
}

locked_stored : get_room log_store plain (1 ∷ []) locked_node.disk ≡ ok (some locked)
unfolding get_room from_bytes text same
locked_stored = refl

abbrev wrong_json : Json
wrong_json = json_with json_text (ok (verify_object net_crc no_json false (text "密码错误")))

wrong_made :
    create_verify_response net_crc wrong_json (text "mole") sample_id false (text "密码错误")
    ≡ ok welcome_frame
unfolding create_verify_response generate_message_data_stream stream_loop slice text
wrong_made = refl

wrong_password_example :
    (add_connection net_crc wrong_json log_store plain one_uuid locked_node mole
      ≡ err (record { sent = welcome_frame ∷ [] }))
    × Says wrong_json net_crc (text "mole") sample_id welcome_frame false (text "密码错误")
unfolding text same
wrong_password_example =
    wrong_password net_crc wrong_json log_store plain one_uuid locked_node mole (text "mole")
      sample_id den (1 ∷ []) (text "den.local:9147") den_frame locked welcome_frame mole-IsName
      sample_id-IsChannelId den-IsRoomUrl refl den_asked locked_stored refl refl wrong_made
      (json_text_utf8, refl) refl refl
