-- ===== src/Server/Room/Safe.antt =====
-- A worker comes through every task that a listener gives it, and a listener that panics.
use fernq.Prelude.{
  ℕ, ◌≡◌, refl, inl, inr, Bool-cases, Option, none, some, List, [], ◌∷◌, ◌&&◌, Result, ok, err,
  panic, stuck, Returns, >>=-Returns, fail_if-Returns, ok-Returns,
}
use fernq.Prelude.Bytes.{Bytes}
use fernq.Prelude.Text.{text}
use fernq.Protocol.{Crc}
use fernq.Protocol.Error.{ProtocolResult}
use fernq.Protocol.Frame.{ChannelId, end_stream, end_channel, is_request}
use fernq.Protocol.Decoder.{get_channel_id}
use fernq.Protocol.Encoder.{Stream, generate_message_data_stream}
use fernq.Protocol.Stream.Errors.{generate_message_data_stream_cases}
use fernq.Protocol.Json.{Json}
use fernq.Protocol.Message.{
  ContentType, encode_response, encode_response_to_bytes, json_type, as_invalid_json,
}
use fernq.Protocol.Validate.{only_frame, create_message_response, reply_stream}
use fernq.Server.Room.{Conns, MessageTask, Write, or_nothing, not_found, route, work}
use fernq.Server.Room.Queued.{IsQueued}

only_frame-Returns : (frames : List Bytes) → Returns (only_frame frames)
unfolding Returns
only_frame-Returns [] = tt
only_frame-Returns (frame ∷ []) = tt
only_frame-Returns (frame ∷ other ∷ frames) = tt

generate_message_data_stream-Returns :
    (crc : Crc) (s : Stream) (bytes : Bytes) → Returns (generate_message_data_stream crc s bytes)
unfolding Returns
generate_message_data_stream-Returns crc s bytes =
    elim (generate_message_data_stream_cases crc s bytes) [
      | inl (fits, frames, e) ↦ rw e tt
      | inr (apart, error, e) ↦ rw e tt
    ]

as_invalid_json-Returns :
    {A : Type 0} (r : Result Bytes A) → Returns r → Returns (as_invalid_json r)
unfolding Returns
as_invalid_json-Returns (ok a) h = tt
as_invalid_json-Returns (err e) h = tt
as_invalid_json-Returns panic h = absurd h
as_invalid_json-Returns stuck h = absurd h

or_nothing-ok :
    {A : Type 0} (r : ProtocolResult A) (f : A → Result (Unit {0}) (List Write))
    → Returns r
    → ((a : A) → (ws : List Write) × (f a ≡ ok ws))
    → (ws : List Write) × (or_nothing r f ≡ ok ws)
unfolding Returns
or_nothing-ok (ok a) f h k = k a
or_nothing-ok (err e) f h k = ([], refl)
or_nothing-ok panic f h k = absurd h
or_nothing-ok stuck f h k = absurd h

module _ (crc : Crc) (json : Json) (printed : (v : json.Value) → Returns (json.to_vec v)) where
  encode_response-Returns :
      (state : ℕ) (t : ContentType) (body : Option json.Value)
      → Returns (encode_response json state t body)
  unfolding encode_response
  encode_response-Returns state t body = search (fail_if-Returns, ok-Returns)

  encode_response_to_bytes-Returns :
      (state : ℕ) (t : ContentType) (body : Option json.Value)
      → Returns (encode_response_to_bytes json state t body)
  unfolding encode_response_to_bytes
  encode_response_to_bytes-Returns state t body =
      >>=-Returns (encode_response json state t body) _ (encode_response-Returns state t body)
        λ v e. as_invalid_json-Returns (json.to_vec v) (printed v)

  create_message_response-Returns :
      (name : Bytes) (channel_id : ChannelId) (state : ℕ) (body : Bytes)
      → Returns (create_message_response crc json name channel_id state body)
  unfolding create_message_response
  create_message_response-Returns name channel_id state body =
      >>=-Returns (encode_response_to_bytes json state json_type (some (json.string body))) _
        (encode_response_to_bytes-Returns state json_type (some (json.string body)))
        λ bytes e.
          >>=-Returns (generate_message_data_stream crc (reply_stream name channel_id) bytes) _
            (generate_message_data_stream-Returns crc (reply_stream name channel_id) bytes)
            λ frames e1. only_frame-Returns frames

  not_found-ok :
      (task : MessageTask) {channel : ChannelId} (conn : Option Bytes)
      → get_channel_id task.payload ≡ ok channel
      → (ws : List Write) × (not_found crc json task conn ≡ ok ws)
  not_found-ok task none known = ([], refl)
  not_found-ok task {channel} (some conn) known = rw known (
      or_nothing-ok
        (create_message_response crc json task.from channel 404 (text "404 Not Found !")) _
        (create_message_response-Returns task.from channel 404 (text "404 Not Found !"))
        λ res. ((conn, res) ∷ [], refl))

  route-ok :
      (later_conns : Conns) (task : MessageTask) {channel : ChannelId} (conn : Option Bytes)
      → get_channel_id task.payload ≡ ok channel
      → (ws : List Write) × (route crc json later_conns task conn ≡ ok ws)
  route-ok later_conns task (some conn) known = ((conn, task.payload) ∷ [], refl)
  route-ok later_conns task none known =
      elim (Bool-cases
        (end_stream task.flags && (end_channel task.flags && is_request task.flags))) [
          | inl e ↦ rw e (not_found-ok task (later_conns task.from) known)
          | inr e ↦ ([], rw e)
        ]

  -- Whatever the tables hold when it looks, a worker comes through each task that a listener gave it
  -- with some writes, and does not panic, if JSON does not panic when it prints.
  pub work-ok :
      {Read : Bytes → ℕ → Bytes → Type 0} {n w : ℕ} {task : MessageTask}
      → IsQueued Read n w task
      → (conns later_conns : Conns)
      → (ws : List Write) × (work crc json conns later_conns task ≡ ok ws)
  unfolding work
  work-ok {task = task} q conns later_conns = route-ok later_conns task (conns task.to) q.known
