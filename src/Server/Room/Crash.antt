-- ===== src/Server/Room/Crash.antt =====
-- A frame that makes the listener of its sender panic.
use fernq.Prelude.{
  ℕ, ◌+◌, ◌-◌, ◌≤◌, ◌<◌, ◌≡◌, false, true, some, Option, ◌++◌, ◌==◌, length, take, drop, le→ltb, ok,
  panic, arith,
}
use fernq.Prelude.Bytes.{Bytes, read_16}
use fernq.Prelude.Bytes.Bounds.{slice_le}
use fernq.Protocol.{max_frame_size}
use fernq.Protocol.Error.{ProtocolError}
use fernq.Protocol.Frame.{MessageType, MessageFlags, ChannelId, try_from_slice}
use fernq.Protocol.Decoder.{decode_header, get_channel_id}
use fernq.Protocol.Decoder.Panics.{parse_message_panics}
use fernq.Server.Room.{is_pong, handle_message, handle_frame}

get_channel_id_long :
    (bytes : Bytes) → 41 ≤ length bytes → (id : ChannelId) × (get_channel_id bytes ≡ ok id)
unfolding get_channel_id try_from_slice
get_channel_id_long bytes long =
    let (id_ok, id_len) = slice_le {E = ProtocolError} bytes 11 27 (omega arith) (omega arith) in
    let sixteen : (length (take (27 - 11) (drop 11 bytes)) == 16) ≡ true = ground (arith, id_len) in
    (
      record { bytes = take (27 - 11) (drop 11 bytes) },
      rw (le→ltb (length bytes) 41 long, id_ok, sixteen),
    )

-- A peer that sends a frame of at least 41 bytes with a header that decodes, no pong and not too long,
-- whose source name is said to be 1 to 128 bytes long, and longer than what follows, makes its own
-- listener panic: it hands out nothing, and neither breaks its loop nor cleans up.
pub handle_frame_panics :
    (n : ℕ) (head rest : Bytes) (read_payload : ℕ → Option Bytes) (t : MessageType)
    (flags : MessageFlags) (size name_len : ℕ)
    → decode_header head ≡ ok (t, flags, size)
    → size ≤ max_frame_size
    → read_payload size ≡ some rest
    → is_pong t ≡ false
    → 41 ≤ length (head ++ rest)
    → read_16 {E = ProtocolError} (head ++ rest) 27 ≡ ok name_len
    → 1 ≤ name_len
    → name_len ≤ 128
    → length (head ++ rest) < 29 + name_len
    → handle_frame n head read_payload ≡ panic
unfolding handle_frame handle_message
handle_frame_panics n head rest read_payload t flags size name_len decoded fits read no_pong long e
      lo hi past =
    let (id, known) = get_channel_id_long (head ++ rest) long in
    let (parsed, names) = parse_message_panics (head ++ rest) name_len long e lo hi past in
    rw (decoded, le→ltb max_frame_size size fits, read, no_pong, known, names)
