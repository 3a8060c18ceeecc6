-- ===== src/Server/Admission/Handover.antt =====
-- A client that asks for a room by `create_validate` is let in.
use fernq.Prelude.{
  err, false, ◌∷◌, ◌-◌, ◌≤◌, ◌≡◌, refl, ap, ◌∙◌, true, false, Option, none, some, [], length, take,
  drop, take-append-drop, ltb, le→ltb, Result, ok, arith, take_ok,
}
use fernq.Prelude.Bytes.{Bytes}
use fernq.Prelude.Text.{text, same, same_refl}
use fernq.Protocol.{Crc, max_frame_size}
use fernq.Protocol.Frame.{
  MessageFlags, header, end_stream, flag_triple, ChannelId, IsChannelId, MessageHeader,
}
use fernq.Protocol.Decoder.{decode_header, parse_message}
use fernq.Protocol.Decoder.Header.{decode_header-decode_basic}
use fernq.Protocol.Stream.{IsStream, IsName}
use fernq.Protocol.Stream.Single.{receive_single}
use fernq.Protocol.Json.{Json}
use fernq.Protocol.Validate.{
  validate_stream, create_validate, parse_validate, create_verify_response,
}
use fernq.Protocol.Validate.RoundTrip.{RoomUrl, IsRoomUrl, url_of, parse_validate-url_of}
use fernq.Protocol.Validate.Address.{create_validate_sound}
use fernq.Protocol.Validate.Reply.{Arrives, only_frame-Arrives, fernq-IsName}
use fernq.Storage.{RoomModel, Fjall, Bincode, from_fjall, room_of, room_exists, get_room, is_stored}
use fernq.Server.Node.{ServerNode}
use fernq.Server.Admission.{Refused, refuse, filled, Peer, first_frame, check_room, add_connection}

-- The frame of a client's request, as the server reads it.
record IsRequest (name : Bytes) (channel_id : ChannelId) (url frame : Bytes) : Type 0 where
  flags : MessageFlags
  info : MessageHeader
  payload : Bytes
  decoded : decode_header (take 11 frame) ≡ ok (header, flags, length frame - 11)
  ends : end_stream flags ≡ true
  fits : length frame ≤ max_frame_size
  parsed : parse_message frame ≡ ok (info, payload)
  source : info.source ≡ name
  channel : info.channel_id ≡ channel_id
  carries : payload ≡ url

module _ (crc : Crc) where
  create_validate-IsRequest :
      (name : Bytes) (channel_id : ChannelId) (url addr frame : Bytes)
      → IsName name
      → IsChannelId channel_id
      → create_validate crc name channel_id url ≡ ok (addr, frame)
      → IsRequest name channel_id url frame
  unfolding flag_triple
  create_validate-IsRequest name channel_id url addr frame n c h =
      let v : IsStream (validate_stream name channel_id) = record {
        source = n;
        target = fernq-IsName;
        channel = c;
      } in
      let a : Arrives crc (validate_stream name channel_id) frame url =
        only_frame-Arrives crc (validate_stream name channel_id) url frame v
          (create_validate_sound crc name channel_id url addr frame h).sent in
      let (decoded, parsed) = receive_single crc frame a.reply a.read in
      let (type_is, channel_is, source_is, target_is, total_is, flags_are, rest) = a.from in
      record {
        flags = a.reply.flags;
        info = a.reply.header;
        payload = a.reply.payload;
        decoded =
            decode_header-decode_basic crc frame a.reply.message_type a.reply.flags frame [] decoded
            ∙ ap (λ t. ok (t, a.reply.flags, length frame - 11)) type_is;
        ends = ap (λ t. t.0) flags_are;
        fits = a.fits;
        parsed = parsed;
        source = source_is;
        channel = channel_is;
        carries = a.payload_of;
      }

  module _ (json : Json) (fjall : Fjall) (bincode : Bincode) where
    open fjall use {Keyspace, Error}

    first_frame-IsRequest :
        (name : Bytes) (channel_id : ChannelId) (url frame : Bytes) (peer : Peer)
        → IsRequest name channel_id url frame
        → peer.header_read ≡ filled (take 11 frame)
        → peer.body_read (length frame - 11) ≡ filled (drop 11 frame)
        → first_frame crc json peer ≡ ok frame
    unfolding first_frame
    first_frame-IsRequest name channel_id url frame peer r head tail =
        let small : ltb max_frame_size (length frame - 11) ≡ false =
          le→ltb _ _ (omega (arith, r.fits)) in
        rw (head, r.decoded, r.ends, small, tail, take-append-drop 11 frame)

    room_of-is_stored :
        (o : Option Bytes) (room : RoomModel)
        → room_of fjall bincode o ≡ ok (some room)
        → is_stored fjall bincode o ≡ true
    room_of-is_stored none room h = absurd (cc)
    room_of-is_stored (some bytes) room h = refl

    room_exists-get_room :
        (id : Bytes) (disk : Keyspace) (room : RoomModel)
        → get_room fjall bincode id disk ≡ ok (some room)
        → room_exists fjall bincode id disk ≡ ok true
    unfolding get_room room_exists
    room_exists-get_room id disk room h =
        take_ok (from_fjall fjall bincode (fjall.get id disk)) _ h
          λ o e h1. rw e (ap ok (room_of-is_stored o room h1))

    check_room-allowed :
        (n : Bytes) (c : ChannelId) (id wanted pass : Bytes) (disk : Keyspace) (room : RoomModel)
        → get_room fjall bincode id disk ≡ ok (some room)
        → room.name ≡ wanted
        → room.password ≡ pass
        → check_room crc json fjall bincode n c id wanted pass disk ≡ ok room
    unfolding check_room
    check_room-allowed n c id wanted pass disk room stored named verified =
        let known : same room.name wanted ≡ true =
          ap (λ p. same p wanted) named ∙ same_refl wanted in
        let good : same room.password pass ≡ true =
          ap (λ p. same p pass) verified ∙ same_refl pass in
        rw (room_exists-get_room id disk room stored, stored, known, good)

    pub check_room-wrong :
        (n : Bytes) (c : ChannelId) (id wanted pass : Bytes) (disk : Keyspace) (room : RoomModel)
        (response : Bytes)
        → get_room fjall bincode id disk ≡ ok (some room)
        → room.name ≡ wanted
        → same room.password pass ≡ false
        → create_verify_response crc json n c false (text "密码错误") ≡ ok response
        → check_room crc json fjall bincode n c id wanted pass disk
          ≡ err (record { sent = response ∷ [] })
    unfolding check_room refuse
    check_room-wrong n c id wanted pass disk room response stored named wrong answered =
        let known : same room.name wanted ≡ true =
          ap (λ p. same p wanted) named ∙ same_refl wanted in
        rw (room_exists-get_room id disk room stored, stored, known, wrong, answered)

    -- What comes of the checks when they refuse the request that a client made by `create_validate`.
    pub add_connection-refused :
        (parse_str : Bytes → Result Bytes Bytes) (node : ServerNode fjall bincode) (peer : Peer)
        (name : Bytes) (channel_id : ChannelId) (u : RoomUrl) (id addr frame : Bytes)
        (refusal : Refused)
        → IsName name
        → IsChannelId channel_id
        → IsRoomUrl u
        → parse_str u.uuid ≡ ok id
        → create_validate crc name channel_id (url_of u) ≡ ok (addr, frame)
        → check_room crc json fjall bincode name channel_id id u.name u.password node.disk
          ≡ err refusal
        → peer.header_read ≡ filled (take 11 frame)
        → peer.body_read (length frame - 11) ≡ filled (drop 11 frame)
        → add_connection crc json fjall bincode parse_str node peer ≡ err refusal
    unfolding add_connection
    add_connection-refused parse_str node peer name channel_id u id addr frame refusal n c v known
          asked checked head tail =
        let r : IsRequest name channel_id (url_of u) frame =
          create_validate-IsRequest name channel_id (url_of u) addr frame n c asked in
        let url : parse_validate parse_str r.payload ≡ ok (id, u.name, u.password) =
          ap (parse_validate parse_str) r.carries ∙ parse_validate-url_of parse_str u id v known in
        rw (
          first_frame-IsRequest name channel_id (url_of u) frame peer r head tail,
          r.parsed,
          url,
          r.source,
          r.channel,
          checked,
        )

    -- A client whose name is valid makes its frame by `create_validate` from the URL of a stored room,
    -- with its password. If the frame arrives in time, and the server can make and send its answer, the
    -- connection is let in under that name, and gets the room of that UUID.
    pub add_connection-create_validate :
        (parse_str : Bytes → Result Bytes Bytes) (node : ServerNode fjall bincode) (peer : Peer)
        (name : Bytes) (channel_id : ChannelId) (u : RoomUrl) (id addr frame : Bytes)
        (room : RoomModel) (response : Bytes)
        → IsName name
        → IsChannelId channel_id
        → IsRoomUrl u
        → parse_str u.uuid ≡ ok id
        → create_validate crc name channel_id (url_of u) ≡ ok (addr, frame)
        → get_room fjall bincode id node.disk ≡ ok (some room)
        → room.name ≡ u.name
        → room.password ≡ u.password
        → create_verify_response crc json name channel_id true (text "Welcome to FernQ")
          ≡ ok response
        → peer.header_read ≡ filled (take 11 frame)
        → peer.body_read (length frame - 11) ≡ filled (drop 11 frame)
        → peer.writes_in_time ≡ true
        → add_connection crc json fjall bincode parse_str node peer
          ≡ ok
              (record { response = response; conn_name = name; room_id = id; room = node.rooms id })
    unfolding add_connection
    add_connection-create_validate parse_str node peer name channel_id u id addr frame room response
          n c v known asked stored named verified answered head tail sent =
        let r : IsRequest name channel_id (url_of u) frame =
          create_validate-IsRequest name channel_id (url_of u) addr frame n c asked in
        let url : parse_validate parse_str r.payload ≡ ok (id, u.name, u.password) =
          ap (parse_validate parse_str) r.carries ∙ parse_validate-url_of parse_str u id v known in
        let checked : check_room crc json fjall bincode name channel_id id u.name u.password
              node.disk
            ≡ ok room =
          check_room-allowed name channel_id id u.name u.password node.disk room stored named
            verified in
        rw (
          first_frame-IsRequest name channel_id (url_of u) frame peer r head tail,
          r.parsed,
          url,
          r.source,
          r.channel,
          checked,
          answered,
          sent,
        )
