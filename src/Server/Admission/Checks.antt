-- ===== src/Server/Admission/Checks.antt =====
-- Who is let into a room.
use fernq.Prelude.{
  ℕ, ◌≤◌, ◌≡◌, ◌≢◌, refl, sym, ap, subst, Bool, true, false, not, ◌&&◌, Option, none, some, ◌++◌,
  ltb, ltb→le, Result, ok, err, panic, stuck, ◌>>=◌, take_ok, pass_if, ok-injective,
}
use fernq.Prelude.Bytes.{Bytes}
use fernq.Prelude.Text.{text, same, same-eq}
use fernq.Protocol.{Crc, max_frame_size}
use fernq.Protocol.Error.{ProtocolResult}
use fernq.Protocol.Frame.{
  MessageType, MessageFlags, end_stream, end_channel, ChannelId, MessageHeader,
}
use fernq.Protocol.Decoder.{decode_header, parse_message}
use fernq.Protocol.Json.{Json}
use fernq.Protocol.Validate.{parse_validate, create_verify_response}
use fernq.Storage.{RoomModel, Fjall, Bincode, StorageResult, room_exists, get_room, verify_password}
use fernq.Server.Node.{ServerNode}
use fernq.Server.Admission.{
  Reading, filled, failed, elapsed, Peer, Refused, silently, Admitted, within, on_error,
  is_heartbeat, answer_and_shut, refuse, first_frame, require_exists, require_room, require,
  check_room, add_connection,
}

-- A read that does not end with an input error ends in time.
within-ok :
    (r : Reading) (buf : Bytes) → ((b : Bytes) → r ≢ failed b) → within r ≡ ok buf → r ≡ filled buf
within-ok (filled b) buf whole h = cc
within-ok (failed b) buf whole h = absurd (whole b refl)
within-ok elapsed buf whole h = absurd (cc)

-- A call whose other way out is never a success.
take_on_error :
    {E A B P : Type 0} (r : Result E A) (otherwise : Result Refused A) (f : A → Result Refused B)
    {b : B}
    → ((a : A) → ¬ (otherwise ≡ ok a))
    → (on_error r otherwise >>= f) ≡ ok b
    → ((a : A) → r ≡ ok a → f a ≡ ok b → P)
    → P
take_on_error (ok a) o f never h go = go a refl h
take_on_error (err e) o f never h go = take_ok o f h λ a e' h'. absurd (never a e')
take_on_error panic o f never h go = absurd (cc)
take_on_error stuck o f never h go = absurd (cc)

not-false : (b : Bool) → not b ≡ false → b ≡ true
not-false true h = refl
not-false false h = absurd (cc)

never_silently : {A : Type 0} (a : A) → ¬ (err silently ≡ ok a)
never_silently a h = cc

module _ (crc : Crc) (json : Json) where
  answer_and_shut_never :
      {A : Type 0} (r : ProtocolResult Bytes) (a : A) → ¬ (answer_and_shut crc json r ≡ ok a)
  answer_and_shut_never (ok response) a h = cc
  answer_and_shut_never (err e) a h = cc
  answer_and_shut_never panic a h = cc
  answer_and_shut_never stuck a h = cc

  refuse_never :
      {A : Type 0} (conn_name : Bytes) (chan_id : ChannelId) (reason : Bytes) (a : A)
      → ¬ (refuse crc json conn_name chan_id reason ≡ ok a)
  unfolding refuse
  refuse_never conn_name chan_id reason a h = answer_and_shut_never _ a h

  -- The first frame, which came in time: the header, and as much as the header says.
  pub record IsFirstFrame (peer : Peer) (frame : Bytes) : Type 0 where
    pub head : Bytes
    pub tail : Bytes
    pub msgtype : MessageType
    pub flags : MessageFlags
    pub body_len : ℕ
    pub head_read : peer.header_read ≡ filled head
    pub decoded : decode_header head ≡ ok (msgtype, flags, body_len)
    pub no_heartbeat : is_heartbeat msgtype ≡ false
    pub ends : (not (end_stream flags) && not (end_channel flags)) ≡ false
    pub fits : body_len ≤ max_frame_size
    pub tail_read : peer.body_read body_len ≡ filled tail
    pub whole : frame ≡ head ++ tail

  first_frame_sound :
      (peer : Peer) (frame : Bytes)
      → ((b : Bytes) → peer.header_read ≢ failed b)
      → ((k : ℕ) (b : Bytes) → peer.body_read k ≢ failed b)
      → first_frame crc json peer ≡ ok frame
      → IsFirstFrame peer frame
  unfolding first_frame
  first_frame_sound peer frame whole_head whole_body h =
      take_ok (within peer.header_read) _ h λ head e1 h1.
        take_on_error (decode_header head) _ _ never_silently h1 λ (t, f, n) e2 h2.
          pass_if (is_heartbeat t) _ _ h2 λ e3 h3.
            pass_if (not (end_stream f) && not (end_channel f)) _ _ h3 λ e4 h4.
              pass_if (ltb max_frame_size n) _ _ h4 λ e5 h5.
                take_ok (within (peer.body_read n)) _ h5 λ tail e6 h6. record {
                  head = head;
                  tail = tail;
                  msgtype = t;
                  flags = f;
                  body_len = n;
                  head_read = within-ok _ head whole_head e1;
                  decoded = e2;
                  no_heartbeat = e3;
                  ends = e4;
                  fits = ltb→le _ _ e5;
                  tail_read = within-ok _ tail (whole_body n) e6;
                  whole = sym (ok-injective refl h6);
                }

  module _ (fjall : Fjall) (bincode : Bincode) where
    open fjall use {Keyspace, Error}

    require_room_sound :
        (n : Bytes) (c : ChannelId) (r : StorageResult fjall bincode (Option RoomModel))
        (room : RoomModel)
        → require_room crc json fjall bincode n c r ≡ ok room
        → r ≡ ok (some room)
    require_room_sound n c (ok (some m)) room h = ap (λ x. ok (some x)) (ok-injective refl h)
    require_room_sound n c (ok none) room h = absurd (refuse_never n c _ room h)
    require_room_sound n c (err e) room h = absurd (refuse_never n c _ room h)
    require_room_sound n c panic room h = absurd (cc)
    require_room_sound n c stuck room h = absurd (cc)

    require_sound :
        (n : Bytes) (c : ChannelId) (test : Bool) (reason : Bytes) (u : Unit {0})
        → require crc json fjall bincode n c test reason ≡ ok u
        → test ≡ true
    require_sound n c true reason u h = refl
    require_sound n c false reason u h = absurd (refuse_never n c reason u h)

    -- The URL has the name and the password of the stored room.
    pub record IsAllowed (disk : Keyspace) (room_id room_name room_pass : Bytes) (room : RoomModel)
        : Type 0 where
      pub stored : get_room fjall bincode room_id disk ≡ ok (some room)
      pub named : room.name ≡ room_name
      pub verified : room.password ≡ room_pass

    check_room_sound :
        (n : Bytes) (c : ChannelId) (room_id room_name room_pass : Bytes) (disk : Keyspace)
        (room : RoomModel)
        → check_room crc json fjall bincode n c room_id room_name room_pass disk ≡ ok room
        → IsAllowed disk room_id room_name room_pass room
    unfolding check_room
    check_room_sound n c room_id room_name room_pass disk room h =
        take_ok (require_exists crc json fjall bincode n c (room_exists fjall bincode room_id disk))
          _ h
          λ u e1 h1.
            take_ok (require_room crc json fjall bincode n c (get_room fjall bincode room_id disk))
              _ h1
              λ r e2 h2.
                take_ok (require crc json fjall bincode n c (same r.name room_name) _) _ h2
                  λ u2 e3 h3.
                    take_ok
                      (require crc json fjall bincode n c
                        (verify_password fjall bincode r room_pass) _)
                      _ h3
                      λ u3 e4 h4.
                        subst (IsAllowed disk room_id room_name room_pass) (ok-injective refl h4)
                          (record {
                            stored = require_room_sound n c _ r e2;
                            named = same-eq _ _ (require_sound n c _ _ u2 e3);
                            verified = same-eq _ _ (require_sound n c _ _ u3 e4);
                          })

    -- What holds of a connection that is let in.
    pub record IsAdmitted (parse_str : Bytes → Result Bytes Bytes) (node : ServerNode fjall bincode)
        (peer : Peer) (a : Admitted) : Type 0 where
      pub frame : Bytes
      pub info : MessageHeader
      pub payload : Bytes
      pub room_name : Bytes
      pub room_pass : Bytes
      pub model : RoomModel
      pub first : IsFirstFrame peer frame
      pub parsed : parse_message frame ≡ ok (info, payload)
      pub url : parse_validate parse_str payload ≡ ok (a.room_id, room_name, room_pass)
      pub allowed : IsAllowed node.disk a.room_id room_name room_pass model
      pub answered :
          create_verify_response crc json info.source info.channel_id true (text "Welcome to FernQ")
          ≡ ok a.response
      pub in_time : peer.writes_in_time ≡ true
      pub name : a.conn_name ≡ info.source
      pub table : a.room ≡ node.rooms a.room_id

    -- If no read ends with an input error, a connection is let in only if it sent in time a frame that
    -- carries a URL with the UUID, the name and the password of a stored room, the answer to it could be
    -- made, and the write of the answer ended in time, with or without an error. It gets its name from that
    -- frame, and what the table holds under that UUID.
    pub add_connection-IsAdmitted :
        (parse_str : Bytes → Result Bytes Bytes) (node : ServerNode fjall bincode) (peer : Peer)
        (a : Admitted)
        → ((b : Bytes) → peer.header_read ≢ failed b)
        → ((k : ℕ) (b : Bytes) → peer.body_read k ≢ failed b)
        → add_connection crc json fjall bincode parse_str node peer ≡ ok a
        → IsAdmitted parse_str node peer a
    unfolding add_connection
    add_connection-IsAdmitted parse_str node peer a whole_head whole_body h =
        take_ok (first_frame crc json peer) _ h λ frame e1 h1.
          take_on_error (parse_message frame) _ _ never_silently h1 λ (info, payload) e2 h2.
            take_on_error (parse_validate parse_str payload) _ _
              (refuse_never info.source info.channel_id _) h2
              λ (id, n, p) e3 h3.
                take_ok
                  (check_room crc json fjall bincode info.source info.channel_id id n p node.disk) _
                  h3
                  λ room e4 h4.
                    take_on_error
                      (create_verify_response crc json info.source info.channel_id true
                        (text "Welcome to FernQ"))
                      _ _ never_silently h4
                      λ response e5 h5. pass_if (not peer.writes_in_time) _ _ h5 λ e6 h6.
                        subst (IsAdmitted parse_str node peer) (ok-injective refl h6) (record {
                          frame = frame;
                          info = info;
                          payload = payload;
                          room_name = n;
                          room_pass = p;
                          model = room;
                          first = first_frame_sound peer frame whole_head whole_body e1;
                          parsed = e2;
                          url = e3;
                          allowed = check_room_sound _ _ id n p node.disk room e4;
                          answered = e5;
                          in_time = not-false _ e6;
                          name = refl;
                          table = refl;
                        })
