-- ===== src/Server/Room/Relay.antt =====
-- A stream on its way through a room: from the frames of the sender to the bytes of the receiver.
use fernq.Prelude.{
  ◌+◌, is_nil, ℕ, suc, ◌-◌, ◌≤◌, ◌<◌, ◌≡◌, refl, ap, ◌∙◌, inl, inr, Bool, true, false, Option, none,
  some, List, [], ◌∷◌, ◌++◌, map, length, take, drop, take-append-drop, take_all, length-drop, leb,
  le→leb, if◌then◌else◌, lt→ltb, le→ltb, ok, arith,
}
use fernq.Prelude.Bytes.{Bytes}
use fernq.Protocol.{Crc, max_stream_length, max_frame_size}
use fernq.Protocol.Frame.{new_flags, assign_target_fast, is_power_of_two}
use fernq.Protocol.Frame.Assign.{assign_target_fast_cases}
use fernq.Protocol.Encoder.{Stream, generate_message_data_stream}
use fernq.Protocol.Decoder.Parsed.{parse_message_agrees}
use fernq.Protocol.Stream.{IsStream}
use fernq.Protocol.Stream.Receive.{
  Received, receive, on_the_wire, payloads, IsFrom, receive-generate_message_data_stream,
}
use fernq.Protocol.Json.{Json}
use fernq.Server.Room.{
  Conns, MessageTask, work, worker, is_pong, queues, handle_message, handle_frame, listener,
}
use fernq.Server.Room.Decoded.{IsDecoded, AreDecoded, generate_message_data_stream-IsDecoded}

-- A frame that comes in: its first eleven bytes, and then as many as are asked for, if there are so many.
abbrev pub arrival : Bytes → Bytes × (ℕ → Option Bytes)
arrival frame =
    (take 11 frame, λ n. if leb n (length frame - 11) then some (take n (drop 11 frame)) else none)

arrival_whole : (frame : Bytes) → take 11 frame ++ take (length frame - 11) (drop 11 frame) ≡ frame
arrival_whole frame =
    ap (λ t. take 11 frame ++ t)
      (take_all (length frame - 11) (drop 11 frame) (omega (arith, length-drop 11 frame)))
    ∙ take-append-drop 11 frame

-- The tasks that the frames of a stream become.
abbrev pub task_of : Stream → Bool → Bytes → MessageTask
task_of s last frame = record {
  from = s.source_name;
  to = s.target_name;
  flags = new_flags last s.end_channel s.is_response;
  payload = frame;
}

unfoldable pub tasks_of : Stream → List Bytes → List MessageTask
tasks_of s [] = []
tasks_of s (frame ∷ frames) = task_of s (is_nil frames) frame ∷ tasks_of s frames

module _ (s : Stream) (n w : ℕ) (assigned : assign_target_fast s.channel_id n ≡ ok w)
    (in_range : w < n) (no_pong : is_pong s.message_type ≡ false) where
  handle_message-queues :
      (last : Bool) (frame : Bytes) (d : IsDecoded s last frame)
      → handle_message n (new_flags last s.end_channel s.is_response) frame
        ≡ ok (queues w (task_of s last frame))
  unfolding handle_message
  handle_message-queues last frame d =
      let (channel, names, source_short, target_short) =
        parse_message_agrees frame d.info d.payload d.parsed in
      rw (channel, names, d.channel, d.source, d.target, assigned, lt→ltb w n in_range)

  handle_frame-queues :
      (last : Bool) (frame : Bytes) (d : IsDecoded s last frame)
      → handle_frame n (arrival frame).0 (arrival frame).1 ≡ ok (queues w (task_of s last frame))
  unfolding handle_frame
  handle_frame-queues last frame d =
      let small = le→ltb max_frame_size (length frame - 11) (omega (arith, d.fits)) in
      let there = le→leb (length frame - 11) (length frame - 11) (omega arith) in
      rw (d.decoded, small, there, no_pong, arrival_whole frame)
        (handle_message-queues last frame d)

  listener-queues :
      (frames : List Bytes)
      → AreDecoded s frames
      → listener n (map arrival frames) ≡ map (λ t. (w, t)) (tasks_of s frames)
  unfolding listener tasks_of
  listener-queues [] ds = refl
  listener-queues (frame ∷ frames) (d, ds) =
      rw (handle_frame-queues (is_nil frames) frame d, listener-queues frames ds)

worker-forwards :
    (crc : Crc) (json : Json) (tables : ℕ → Conns) (s : Stream) (conn : Bytes) (frames : List Bytes)
    → ((k : ℕ) → tables k s.target_name ≡ some conn)
    → worker crc json tables (tasks_of s frames) ≡ ok (map (λ f. (conn, f)) frames)
unfolding worker work tasks_of
worker-forwards crc json tables s conn [] there = refl
worker-forwards crc json tables s conn (frame ∷ frames) there =
    rw (there 0, worker-forwards crc json (λ k. tables (k + 2)) s conn frames (λ k. there (k + 2)))

pub generate_message_data_stream-queues :
    (crc : Crc) (s : Stream) (bytes : Bytes) (frames : List Bytes) (n : ℕ)
    → IsStream s
    → length bytes ≤ max_stream_length
    → generate_message_data_stream crc s bytes ≡ ok frames
    → is_pong s.message_type ≡ false
    → is_power_of_two n ≡ true
    → (w : ℕ) × (w < n) × (listener n (map arrival frames) ≡ map (λ t. (w, t)) (tasks_of s frames))
generate_message_data_stream-queues crc s bytes frames n v small made no_pong power =
    elim (assign_target_fast_cases s.channel_id n v.channel) [
      | inl (p, w, assigned, in_range) ↦ (
        w,
        in_range,
        listener-queues s n w assigned in_range no_pong frames
            (generate_message_data_stream-IsDecoded crc s bytes frames v small made),
      )
      | inr (no_power, refused) ↦ absurd (cc)
    ]

-- A stream that a client sends, of any type but pong and of at most 8 MiB, to a room with a number of
-- workers that is a power of two, while every look-up in the table finds one connection under the name of
-- the target: the listener gives all frames to one worker in their order, the worker writes exactly these
-- frames to that connection, in this order, and what the target reads off them joins to the bytes that
-- were sent, with the sender's name and the channel on every message.
pub relay :
    (crc : Crc) (json : Json) (s : Stream) (bytes : Bytes) (n : ℕ) (tables : ℕ → Conns)
    (conn : Bytes)
    → IsStream s
    → length bytes ≤ max_stream_length
    → is_pong s.message_type ≡ false
    → is_power_of_two n ≡ true
    → ((k : ℕ) → tables k s.target_name ≡ some conn)
    → (frames : List Bytes) × (w : ℕ) × (rs : List Received) × (generate_message_data_stream crc s
          bytes
        ≡ ok frames)
      × (w < n)
      × (listener n (map arrival frames) ≡ map (λ t. (w, t)) (tasks_of s frames))
      × (worker crc json tables (tasks_of s frames) ≡ ok (map (λ f. (conn, f)) frames))
      × (receive crc (suc (length frames)) (on_the_wire frames) ≡ ok rs)
      × (payloads rs ≡ bytes)
      × IsFrom s (length bytes) rs
relay crc json s bytes n tables conn v small no_pong power there =
    let (frames, rs, made, read, count, whole, from, fit) =
      receive-generate_message_data_stream crc s bytes v small in
    let (w, in_range, queued) =
      generate_message_data_stream-queues crc s bytes frames n v small made no_pong power in
    (
      frames,
      w,
      rs,
      made,
      in_range,
      queued,
      worker-forwards crc json tables s conn frames there,
      read,
      whole,
      from,
    )
