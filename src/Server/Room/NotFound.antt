-- ===== src/Server/Room/NotFound.antt =====
-- A stream whose target is not in the room, and the answer that its sender gets.
use fernq.Prelude.{
  ◌+◌, map, ◌≢◌, ok-injective, ℕ, ◌≤◌, ◌≡◌, refl, ap, ◌∙◌, Bool, true, false, not, ◌&&◌, none, some,
  List, [], ◌∷◌, is_nil, length, ok, arith,
}
use fernq.Prelude.Bytes.{Bytes}
use fernq.Prelude.Text.{text}
use fernq.Protocol.{Crc, max_stream_length}
use fernq.Protocol.Frame.{is_power_of_two, new_flags, end_stream, end_channel, is_request}
use fernq.Protocol.Encoder.{Stream, generate_message_data_stream}
use fernq.Protocol.Decoder.Parsed.{parse_message_agrees}
use fernq.Protocol.Stream.{IsStream}
use fernq.Protocol.Stream.Receive.{Received, payloads, receive-generate_message_data_stream}
use fernq.Protocol.Json.{Json}
use fernq.Protocol.Message.{json_type, response, decode_from_bytes}
use fernq.Protocol.Validate.{reply_stream, create_message_response}
use fernq.Protocol.Validate.Reply.{Arrives, ReadsBack, create_message_response-Arrives}
use fernq.Server.Room.{Conns, is_pong, listener, work, worker}
use fernq.Server.Room.Decoded.{IsDecoded, AreDecoded, generate_message_data_stream-IsDecoded}
use fernq.Server.Room.Relay.{arrival, task_of, tasks_of, generate_message_data_stream-queues}

request_end :
    (a b c : Bool)
    → (end_stream (new_flags a b c)
        && (end_channel (new_flags a b c) && is_request (new_flags a b c)))
      ≡ (a && (b && not c))
unfolding end_stream end_channel is_request new_flags
request_end true true true = refl
request_end true true false = refl
request_end true false true = refl
request_end true false false = refl
request_end false true true = refl
request_end false true false = refl
request_end false false true = refl
request_end false false false = refl

and_false : (b : Bool) → (b && false) ≡ false
and_false true = refl
and_false false = refl

nothing_read :
    (rs : List Received) (bytes : Bytes)
    → length rs ≡ 0
    → payloads rs ≡ bytes
    → ¬ (1 ≤ length bytes)
nothing_read [] bytes h whole some_bytes = omega (arith, ap length whole)
nothing_read (r ∷ rs) bytes h whole some_bytes = omega (arith, h)

generate_message_data_stream-filled :
    (crc : Crc) (s : Stream) (bytes : Bytes)
    → IsStream s
    → 1 ≤ length bytes
    → length bytes ≤ max_stream_length
    → generate_message_data_stream crc s bytes ≢ ok []
generate_message_data_stream-filled crc s bytes v some_bytes small made =
    let (frames, rs, made', read, count, whole, from, fit) =
      receive-generate_message_data_stream crc s bytes v small in
    let none_sent : frames ≡ [] = ok-injective made' made in
    let none_read : length rs ≡ 0 = count ∙ ap length none_sent in
    nothing_read rs bytes none_read whole some_bytes

module _ (crc : Crc) (json : Json) (s : Stream) where
  not_last :
      (conns later_conns : Conns) (last : Bool) (frame : Bytes)
      → conns s.target_name ≡ none
      → (last && (s.end_channel && not s.is_response)) ≡ false
      → work crc json conns later_conns (task_of s last frame) ≡ ok []
  unfolding work
  not_last conns later_conns last frame absent h =
      rw (absent, request_end last s.end_channel s.is_response, h)

  -- Whoever sends a response, or a request that is to go on in its channel, hears nothing.
  worker-quiet :
      (tables : ℕ → Conns) (frames : List Bytes)
      → ((k : ℕ) → tables k s.target_name ≡ none)
      → (s.end_channel && not s.is_response) ≡ false
      → worker crc json tables (tasks_of s frames) ≡ ok []
  unfolding worker tasks_of
  worker-quiet tables [] absent h = refl
  worker-quiet tables (frame ∷ frames) absent h = rw (
    not_last (tables 0) (tables 1) (is_nil frames) frame (absent 0)
        (rw h (and_false (is_nil frames))),
    worker-quiet (λ k. tables (k + 2)) frames (λ k. absent (k + 2)) h,
  )

  work-last :
      (conns later_conns : Conns) (frame conn res : Bytes)
      → conns s.target_name ≡ none
      → later_conns s.source_name ≡ some conn
      → IsDecoded s true frame
      → (s.end_channel && not s.is_response) ≡ true
      → create_message_response crc json s.source_name s.channel_id 404 (text "404 Not Found !")
        ≡ ok res
      → work crc json conns later_conns (task_of s true frame) ≡ ok ((conn, res) ∷ [])
  unfolding work
  work-last conns later_conns frame conn res absent asker d h made =
      let (channel, names, source_short, target_short) =
        parse_message_agrees frame d.info d.payload d.parsed in
      rw (absent, request_end true s.end_channel s.is_response, h, asker, channel, d.channel, made)

  worker-not_found :
      (tables : ℕ → Conns) (frame : Bytes) (frames : List Bytes) (conn res : Bytes)
      → ((k : ℕ) → tables k s.target_name ≡ none)
      → ((k : ℕ) → tables k s.source_name ≡ some conn)
      → AreDecoded s (frame ∷ frames)
      → (s.end_channel && not s.is_response) ≡ true
      → create_message_response crc json s.source_name s.channel_id 404 (text "404 Not Found !")
        ≡ ok res
      → worker crc json tables (tasks_of s (frame ∷ frames)) ≡ ok ((conn, res) ∷ [])
  unfolding worker tasks_of
  worker-not_found tables frame [] conn res absent asker (d, ds) h made =
      rw (work-last (tables 0) (tables 1) frame conn res (absent 0) (asker 1) d h made)
  worker-not_found tables frame (f ∷ frames) conn res absent asker (d, ds) h made = rw (
    not_last (tables 0) (tables 1) false frame (absent 0) refl,
    worker-not_found (λ k. tables (k + 2)) f frames conn res (λ k. absent (k + 2))
        (λ k. asker (k + 2)) ds h made,
  )

  answered_once :
      (tables : ℕ → Conns) (bytes conn res : Bytes) (frames : List Bytes)
      → ((k : ℕ) → tables k s.target_name ≡ none)
      → ((k : ℕ) → tables k s.source_name ≡ some conn)
      → IsStream s
      → 1 ≤ length bytes
      → length bytes ≤ max_stream_length
      → generate_message_data_stream crc s bytes ≡ ok frames
      → (s.end_channel && not s.is_response) ≡ true
      → create_message_response crc json s.source_name s.channel_id 404 (text "404 Not Found !")
        ≡ ok res
      → worker crc json tables (tasks_of s frames) ≡ ok ((conn, res) ∷ [])
  answered_once tables bytes conn res [] absent asker v some_bytes small made h answer =
      absurd (generate_message_data_stream-filled crc s bytes v some_bytes small made)
  answered_once tables bytes conn res (frame ∷ frames) absent asker v some_bytes small made h
        answer =
      worker-not_found tables frame frames conn res absent asker
        (generate_message_data_stream-IsDecoded crc s bytes (frame ∷ frames) v small made) h answer

-- A request of 1 byte to 8 MiB that is the last of its channel, in a room with a number of workers that is
-- a power of two, while no look-up in the table finds the target and every one finds a connection of the
-- sender: however many frames it has, they all go to one worker, and if the answer can be made, the
-- worker writes one frame, the answer, to the connection of the sender. It reads as the only message of a
-- stream from "fernq" to the sender in the channel of the request, and where JSON reads the answer back
-- as it was written, it is a response of state 404.
pub not_found :
    (crc : Crc) (json : Json) (s : Stream) (bytes : Bytes) (frames : List Bytes) (n : ℕ)
    (tables : ℕ → Conns) (conn res : Bytes)
    → IsStream s
    → 1 ≤ length bytes
    → length bytes ≤ max_stream_length
    → is_pong s.message_type ≡ false
    → is_power_of_two n ≡ true
    → (s.end_channel && not s.is_response) ≡ true
    → generate_message_data_stream crc s bytes ≡ ok frames
    → ((k : ℕ) → tables k s.target_name ≡ none)
    → ((k : ℕ) → tables k s.source_name ≡ some conn)
    → ReadsBack json 404 (text "404 Not Found !")
    → create_message_response crc json s.source_name s.channel_id 404 (text "404 Not Found !")
      ≡ ok res
    → (w : ℕ) × (payload : Bytes) × (listener n (map arrival frames)
        ≡ map (λ t. (w, t)) (tasks_of s frames))
      × (worker crc json tables (tasks_of s frames) ≡ ok ((conn, res) ∷ []))
      × Arrives crc (reply_stream s.source_name s.channel_id) res payload
      × (decode_from_bytes json payload
          ≡ ok (
              response (record {
                content_type = json_type;
                state = 404;
                body = some (json.string (text "404 Not Found !"));
              })))
not_found crc json s bytes frames n tables conn res v some_bytes small no_pong power h made absent
      asker printed answer =
    let (w, in_range, queued) =
      generate_message_data_stream-queues crc s bytes frames n v small made no_pong power in
    let (payload, arrives, decoded) =
      create_message_response-Arrives crc json s.source_name s.channel_id v.source v.channel 404
        (text "404 Not Found !") res printed answer in
    (
      w,
      payload,
      queued,
      answered_once crc json s tables bytes conn res frames absent asker v some_bytes small made h
          answer,
      arrives,
      decoded,
    )

-- While no look-up in the table finds the target, a stream that is a response, or that leaves its channel open, is
-- dropped without a word: no frame of it makes the worker write anything.
pub dropped :
    (crc : Crc) (json : Json) (s : Stream) (tables : ℕ → Conns) (frames : List Bytes)
    → ((k : ℕ) → tables k s.target_name ≡ none)
    → (s.end_channel && not s.is_response) ≡ false
    → worker crc json tables (tasks_of s frames) ≡ ok []
dropped crc json s tables frames absent h = worker-quiet crc json s tables frames absent h
