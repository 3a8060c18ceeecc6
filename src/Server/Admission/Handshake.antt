-- ===== src/Server/Admission/Handshake.antt =====
-- The handshake of a client and the server, with what the client reads of the answer.
use fernq.Prelude.{
  ◌-◌, ap, ◌∙◌, ◌≡◌, true, false, some, [], ◌∷◌, length, take, drop, Result, ok, err,
}
use fernq.Prelude.Bytes.{Bytes}
use fernq.Prelude.Text.{text, same}
use fernq.Protocol.{Crc}
use fernq.Protocol.Frame.{ChannelId, IsChannelId}
use fernq.Protocol.Stream.{IsName}
use fernq.Protocol.Json.{Json}
use fernq.Protocol.Validate.{create_validate, create_verify_response}
use fernq.Protocol.Validate.RoundTrip.{RoomUrl, IsRoomUrl, url_of}
use fernq.Protocol.Validate.Verdict.{IsWritten, Says, create_verify_response-Says}
use fernq.Storage.{RoomModel, Fjall, Bincode, get_room}
use fernq.Server.Node.{Room, ServerNode}
use fernq.Server.Admission.{filled, Peer, add_connection}
use fernq.Server.Admission.Handover.{
  add_connection-create_validate, add_connection-refused, check_room-wrong,
}

module _ (crc : Crc) (json : Json) (fjall : Fjall) (bincode : Bincode)
    (parse_str : Bytes → Result Bytes Bytes) (node : ServerNode fjall bincode) (peer : Peer)
    (name : Bytes) (channel_id : ChannelId) (u : RoomUrl) (id addr frame : Bytes) (room : RoomModel)
    (response : Bytes) where
  -- A client whose name is valid makes its frame by `create_validate` from the URL of a stored room,
  -- with its name and password. If the frame arrives in time, and the server can make and send its
  -- answer, which JSON reads back as it was written, and the room of that UUID is open: the connection is let
  -- in under that name and gets this room, and the client reads one message, which says that it is welcome.
  pub handshake :
      (opened : Room)
      → node.rooms id ≡ some opened
      → IsName name
      → IsChannelId channel_id
      → IsRoomUrl u
      → parse_str u.uuid ≡ ok id
      → create_validate crc name channel_id (url_of u) ≡ ok (addr, frame)
      → get_room fjall bincode id node.disk ≡ ok (some room)
      → room.name ≡ u.name
      → room.password ≡ u.password
      → create_verify_response crc json name channel_id true (text "Welcome to FernQ") ≡ ok response
      → IsWritten json crc true (text "Welcome to FernQ")
      → peer.header_read ≡ filled (take 11 frame)
      → peer.body_read (length frame - 11) ≡ filled (drop 11 frame)
      → peer.writes_in_time ≡ true
      → (add_connection crc json fjall bincode parse_str node peer
          ≡ ok (record { response = response; conn_name = name; room_id = id; room = some opened }))
        × Says json crc name channel_id response true (text "Welcome to FernQ")
  handshake opened there n c v known asked stored named verified answered written head tail sent = (
    add_connection-create_validate crc json fjall bincode parse_str node peer name channel_id u id
          addr frame room response n c v known asked stored named verified answered head tail sent
        ∙ ap (λ r. ok (record { response = response; conn_name = name; room_id = id; room = r }))
            there,
    create_verify_response-Says json crc name channel_id true (text "Welcome to FernQ") response n c
        written answered,
  )

  -- The same client with another password than that of the room: if its frame arrives in time and the
  -- server can make its answer, which JSON reads back as it was written, the connection is shut down
  -- after one frame, and the client reads one message, which says that the password is wrong.
  pub wrong_password :
      IsName name
      → IsChannelId channel_id
      → IsRoomUrl u
      → parse_str u.uuid ≡ ok id
      → create_validate crc name channel_id (url_of u) ≡ ok (addr, frame)
      → get_room fjall bincode id node.disk ≡ ok (some room)
      → room.name ≡ u.name
      → same room.password u.password ≡ false
      → create_verify_response crc json name channel_id false (text "密码错误") ≡ ok response
      → IsWritten json crc false (text "密码错误")
      → peer.header_read ≡ filled (take 11 frame)
      → peer.body_read (length frame - 11) ≡ filled (drop 11 frame)
      → (add_connection crc json fjall bincode parse_str node peer
          ≡ err (record { sent = response ∷ [] }))
        × Says json crc name channel_id response false (text "密码错误")
  wrong_password n c v known asked stored named wrong answered written head tail = (
    add_connection-refused crc json fjall bincode parse_str node peer name channel_id u id addr
        frame (record { sent = response ∷ [] }) n c v known asked
        (check_room-wrong crc json fjall bincode name channel_id id u.name u.password node.disk room
          response stored named wrong answered)
        head tail,
    create_verify_response-Says json crc name channel_id false (text "密码错误") response n c written
        answered,
  )
