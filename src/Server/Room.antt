-- ===== src/Server/Room.antt =====
-- The tasks of a room, fernqd/src/server/room.rs: a listener for each connection, the workers, and the
-- heartbeat. A connection in the table of the room is its id.
pub mod Decoded
pub mod Queued
pub mod Safe
pub mod Undropped
pub mod Crash
pub mod Pipeline
pub mod Relay
pub mod NotFound
pub mod Heartbeat
pub mod Registry
pub mod Tests
use fernq.Prelude.{
  ℕ, ◌+◌, ◌%◌, ◌^◌, Bool, true, false, not, ◌&&◌, ◌||◌, Option, none, some, List, [], ◌∷◌, ◌++◌,
  map, get_elem?, ltb, if◌then◌else◌, Result, ok, err, panic, stuck, ◌>>=◌, ◌>>◌, fail_if,
}
use fernq.Prelude.Bytes.{Bytes}
use fernq.Prelude.Text.{text}
use fernq.Protocol.{Crc, max_frame_size}
use fernq.Protocol.Error.{ProtocolResult}
use fernq.Protocol.Frame.{
  MessageType, header, body, ping, pong, MessageFlags, end_stream, end_channel, is_request,
  ChannelId, assign_target_fast,
}
use fernq.Protocol.Decoder.{decode_header, get_channel_id, get_message_source_target}
use fernq.Protocol.Json.{Json}
use fernq.Protocol.Validate.{create_message_response}

-- The connections of the room by their names.
abbrev pub Conns : Type 0
Conns = Bytes → Option Bytes

pub record MessageTask : Type 0 where
  pub from : Bytes
  pub to : Bytes
  pub flags : MessageFlags
  pub payload : Bytes

-- A frame for a connection.
abbrev pub Write : Type 0
Write = Bytes × Bytes

-- What no error is left in: `let Ok(…) = … else { continue }`.
abbrev pub or_nothing :
    {A : Type 0}
    → ProtocolResult A
    → (A → Result (Unit {0}) (List Write))
    → Result (Unit {0}) (List Write)
or_nothing (ok a) f = f a
or_nothing (err e) f = ok []
or_nothing panic f = panic
or_nothing stuck f = stuck

module _ (crc : Crc) (json : Json) where
  -- The answer to a request whose target is not there, if the one who asked is.
  abbrev pub not_found : MessageTask → Option Bytes → Result (Unit {0}) (List Write)
  not_found task none = ok []
  not_found task (some conn) = or_nothing (get_channel_id task.payload) λ channel_id.
      or_nothing
        (create_message_response crc json task.from channel_id 404 (text "404 Not Found !"))
        λ res. ok ((conn, res) ∷ [])

  abbrev pub route : Conns → MessageTask → Option Bytes → Result (Unit {0}) (List Write)
  route conns task (some conn) = ok ((conn, task.payload) ∷ [])
  route conns task none =
      if end_stream task.flags && (end_channel task.flags && is_request task.flags)
      then not_found task (conns task.from)
      else ok []

  -- One task of `worker`. The table may change between the look-up of the target and that of the sender.
  unfoldable pub work : Conns → Conns → MessageTask → Result (Unit {0}) (List Write)
  work conns later_conns task = route later_conns task (conns task.to)

  -- The tasks of one worker, one after the other, with the tables that their look-ups meet, two for each
  -- task.
  unfoldable pub worker : (ℕ → Conns) → List MessageTask → Result (Unit {0}) (List Write)
  worker tables [] = ok []
  worker tables (task ∷ tasks) = do
    writes ← work (tables 0) (tables 1) task
    later ← worker (λ k. tables (k + 2)) tasks
    ok (writes ++ later)

abbrev pub is_pong : MessageType → Bool
is_pong header = false
is_pong body = false
is_pong ping = false
is_pong pong = true

-- What a listener does with a frame: it leaves its loop, it takes a pong, it gives a task to a worker, or
-- it drops a frame that no worker can be found for. All but the first reset the heartbeats.
pub data Handled : Type 0 where
  leaves takes_pong drops : Handled
  queues : ℕ → MessageTask → Handled

-- `worker_senders[worker_id]`, which panics out of range.
abbrev pub send_to : ℕ → MessageTask → (worker_id : ℕ) → Result (Unit {0}) Handled
send_to senders task worker_id = if ltb worker_id senders then ok (queues worker_id task) else panic

abbrev pub dispatch : ℕ → MessageTask → ProtocolResult ℕ → Result (Unit {0}) Handled
dispatch senders task (ok worker_id) = send_to senders task worker_id
dispatch senders task (err e) = ok drops
dispatch senders task panic = panic
dispatch senders task stuck = stuck

-- `Err` leaves the loop.
abbrev pub or_leave :
    {A : Type 0} → ProtocolResult A → (A → Result (Unit {0}) Handled) → Result (Unit {0}) Handled
or_leave (ok a) f = f a
or_leave (err e) f = ok leaves
or_leave panic f = panic
or_leave stuck f = stuck

-- A message that is no pong, with its flags.
unfoldable pub handle_message : ℕ → MessageFlags → Bytes → Result (Unit {0}) Handled
handle_message worker_number flags frame = or_leave (get_channel_id frame) λ channel_id.
    or_leave (get_message_source_target frame) λ (source, target).
      dispatch worker_number (record { from = source; to = target; flags = flags; payload = frame })
        (assign_target_fast channel_id worker_number)

-- A pong goes no further than this connection.
abbrev pub handle_payload :
    ℕ → MessageType → MessageFlags → Bytes → Option Bytes → Result (Unit {0}) Handled
handle_payload worker_number msg_type msg_flags head none = ok leaves
handle_payload worker_number msg_type msg_flags head (some payload) =
    if is_pong msg_type
    then ok takes_pong
    else handle_message worker_number msg_flags (head ++ payload)

-- One round of the loop of `listener`: the header that was read, and `read_exact` of the payload, which
-- may fail.
unfoldable pub handle_frame : ℕ → Bytes → (ℕ → Option Bytes) → Result (Unit {0}) Handled
handle_frame worker_number head read_payload =
    or_leave (decode_header head) λ (msg_type, msg_flags, frame_length).
      if ltb max_frame_size frame_length
      then ok leaves
      else handle_payload worker_number msg_type msg_flags head (read_payload frame_length)

-- What a round of `listener` gives to the workers, and what the later rounds give. A panic ends the loop
-- like a break; what was sent before stays sent.
abbrev pub queued : Result (Unit {0}) Handled → List (ℕ × MessageTask) → List (ℕ × MessageTask)
queued (ok leaves) later = []
queued (ok takes_pong) later = later
queued (ok drops) later = later
queued (ok (queues worker_id task)) later = (worker_id, task) ∷ later
queued (err e) later = []
queued panic later = []
queued stuck later = []

-- What a listener gives to the workers, until it leaves its loop, panics, or nothing more comes.
unfoldable pub listener : ℕ → List (Bytes × (ℕ → Option Bytes)) → List (ℕ × MessageTask)
listener worker_number [] = []
listener worker_number ((head, read_payload) ∷ frames) =
    queued (handle_frame worker_number head read_payload) (listener worker_number frames)

-- What the heartbeat sees of a connection: the pings that were not answered, whether it is closed, and
-- the pings that it got.
pub record Link : Type 0 where
  pub pending : ℕ
  pub closed : Bool
  pub pings : ℕ

abbrev pub close_link : Link → Link
close_link link = record { pending = link.pending; closed = true; pings = link.pings }

-- A ping was sent: `increment_heartbeats`, on a `u32`.
abbrev pub pinged : Link → Link
pinged link = record {
  pending = (link.pending + 1) % 2 ^ 32;
  closed = link.closed;
  pings = link.pings + 1;
}

-- One connection in one tick. `writes` tells whether the ping can be written; on a closed connection it
-- cannot.
unfoldable pub beat : ℕ → Bool → Link → Link
beat max_pending writes link =
    if ltb max_pending link.pending
    then close_link link
    else if writes && not link.closed
    then pinged link
    else close_link link

-- One tick, for the connections that the table had when it came: whether the room is cancelled when the
-- turn of a connection comes, which ends the tick, and whether its ping can be written.
unfoldable pub beat_all : ℕ → List (Bool × Bool × Link) → List Link
beat_all max_pending [] = []
beat_all max_pending ((cancelled, writes, link) ∷ conns) =
    let rest = beat_all max_pending conns in
    if cancelled then link ∷ map (λ c. c.2) conns else beat max_pending writes link ∷ rest

-- `reset_heartbeats`, when a frame came.
unfoldable pub answered : Link → Link
answered link = record { pending = 0; closed = link.closed; pings = link.pings }
