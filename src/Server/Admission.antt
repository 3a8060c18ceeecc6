-- ===== src/Server/Admission.antt =====
-- `ServerNode::add_connection` of fernqd/src/server/node.rs: a new connection is checked by its first
-- frame, answered, and handed to its room. What arrives and in what time is an argument.
pub mod Checks
pub mod Handover
pub mod Handshake
mod Tests
use fernq.Prelude.{
  ℕ, Bool, true, false, not, ◌&&◌, ◌||◌, Option, none, some, List, [], ◌∷◌, ◌++◌, ltb, Result, ok,
  err, panic, stuck, ◌>>=◌, ◌>>◌, fail_if,
}
use fernq.Prelude.Bytes.{Bytes}
use fernq.Prelude.Text.{text, same}
use fernq.Protocol.{Crc, max_frame_size}
use fernq.Protocol.Error.{ProtocolResult}
use fernq.Protocol.Frame.{
  MessageType, header, body, ping, pong, end_stream, end_channel, ChannelId, MessageHeader,
}
use fernq.Protocol.Decoder.{decode_header, parse_message}
use fernq.Protocol.Json.{Json}
use fernq.Protocol.Validate.{parse_validate, create_verify_response}
use fernq.Storage.{
  RoomModel, Fjall, Bincode, StorageError, StorageResult, room_exists, get_room, verify_password,
}
use fernq.Server.Node.{Room, ServerNode}

-- How `timeout(5 s, read_exact(&mut buf))` ends: with the buffer filled; with an input error, such as the
-- end of the stream, and whatever is in the buffer then; or after five seconds.
pub data Reading : Type 0 where
  filled : Bytes → Reading
  failed : Bytes → Reading
  elapsed : Reading

-- What a connection does: the two reads, the second for a number of bytes, and whether the write of the
-- last answer ends in five seconds.
pub record Peer : Type 0 where
  pub header_read : Reading
  pub body_read : ℕ → Reading
  pub writes_in_time : Bool

-- A connection that is shut down, after these writes.
pub record Refused : Type 0 where
  pub sent : List Bytes

abbrev pub silently : Refused
silently = record { sent = [] }

-- A connection that was answered, with its name, and its room if that is in the table. If it is not,
-- the connection is dropped.
pub record Admitted : Type 0 where
  pub response : Bytes
  pub conn_name : Bytes
  pub room_id : Bytes
  pub room : Option Room

-- `if let Err(e) = timeout(…).await`: an input error is inside of the `Ok`, and is not looked at.
abbrev pub within : Reading → Result Refused Bytes
within (filled buf) = ok buf
within (failed buf) = ok buf
within elapsed = err silently

-- The other way out when a call returns an error.
abbrev pub on_error : {E A : Type 0} → Result E A → Result Refused A → Result Refused A
on_error (ok a) otherwise = ok a
on_error (err e) otherwise = otherwise
on_error panic otherwise = panic
on_error stuck otherwise = stuck

abbrev pub is_heartbeat : MessageType → Bool
is_heartbeat header = false
is_heartbeat body = false
is_heartbeat ping = true
is_heartbeat pong = true

module _ (crc : Crc) (json : Json) where
  -- An answer with a reason, if it can be made, before the shutdown.
  abbrev pub answer_and_shut : ProtocolResult Bytes → {A : Type 0} → Result Refused A
  answer_and_shut (ok response) = err (record { sent = response ∷ [] })
  answer_and_shut (err e) = err silently
  answer_and_shut panic = panic
  answer_and_shut stuck = stuck

  unfoldable pub refuse : {A : Type 0} → Bytes → ChannelId → Bytes → Result Refused A
  refuse conn_name chan_id reason =
      answer_and_shut (create_verify_response crc json conn_name chan_id false reason)

  -- The first frame: its header, and the frame itself.
  unfoldable pub first_frame : Peer → Result Refused Bytes
  first_frame peer = do
    head ← within peer.header_read
    (msgtype, flags, body_len) ← on_error (decode_header head) (err silently)
    fail_if (is_heartbeat msgtype) silently
    fail_if (not (end_stream flags) && not (end_channel flags)) silently
    fail_if (ltb max_frame_size body_len) silently
    tail ← within (peer.body_read body_len)
    ok (head ++ tail)

  module _ (fjall : Fjall) (bincode : Bincode) where
    open fjall use {Keyspace, Error}

    abbrev pub require_exists :
        Bytes → ChannelId → StorageResult fjall bincode Bool → Result Refused (Unit {0})
    require_exists conn_name chan_id (ok true) = ok tt
    require_exists conn_name chan_id (ok false) = refuse conn_name chan_id (text "房间不存在")
    require_exists conn_name chan_id (err e) = refuse conn_name chan_id (text "系统错误")
    require_exists conn_name chan_id panic = panic
    require_exists conn_name chan_id stuck = stuck

    abbrev pub require_room :
        Bytes
        → ChannelId
        → StorageResult fjall bincode (Option RoomModel)
        → Result Refused RoomModel
    require_room conn_name chan_id (ok (some room)) = ok room
    require_room conn_name chan_id (ok none) = refuse conn_name chan_id (text "房间不存在")
    require_room conn_name chan_id (err e) = refuse conn_name chan_id (text "系统错误")
    require_room conn_name chan_id panic = panic
    require_room conn_name chan_id stuck = stuck

    abbrev pub require : Bytes → ChannelId → Bool → Bytes → Result Refused (Unit {0})
    require conn_name chan_id true reason = ok tt
    require conn_name chan_id false reason = refuse conn_name chan_id reason

    -- The room that the URL names, if the URL has the name and the password that are stored.
    unfoldable pub check_room :
        Bytes → ChannelId → Bytes → Bytes → Bytes → Keyspace → Result Refused RoomModel
    check_room conn_name chan_id room_id room_name room_pass disk = do
      known ← require_exists conn_name chan_id (room_exists fjall bincode room_id disk)
      room ← require_room conn_name chan_id (get_room fjall bincode room_id disk)
      named ← require conn_name chan_id (same room.name room_name) (text "房间名称不匹配")
      verified ←
          require conn_name chan_id (verify_password fjall bincode room room_pass) (text "密码错误")
      ok room

    unfoldable pub add_connection :
        (Bytes → Result Bytes Bytes) → ServerNode fjall bincode → Peer → Result Refused Admitted
    add_connection parse_str node peer = do
      frame ← first_frame peer
      (info, payload) ← on_error (parse_message frame) (err silently)
      let conn_name = info.source
      let chan_id = info.channel_id
      (room_id, room_name, room_pass) ←
          on_error (parse_validate parse_str payload) (refuse conn_name chan_id (text "验证信息格式错误"))
      room ← check_room conn_name chan_id room_id room_name room_pass node.disk
      response ←
          on_error
            (create_verify_response crc json conn_name chan_id true (text "Welcome to FernQ"))
            (err silently)
      fail_if (not peer.writes_in_time) (record { sent = response ∷ [] })
      ok (record {
        response = response;
        conn_name = conn_name;
        room_id = room_id;
        room = node.rooms room_id;
      })
