-- ===== src/Server/Room/Pipeline.antt =====
-- The listeners and the workers of an open room together, fernqd/src/server/room.rs: any number of
-- listeners send tasks into the channels that `open` made, one for each worker, and every worker takes
-- the tasks of its channel, one at a time. A step is a frame of a listener, a `recv`, or what a worker does
-- with one task; they come in any order. Connections and workers are numbers.
-- The table of connections changes in between as it likes: `Seen` says which tables a look-up may meet.
-- The closing of the room or of a connection, which ends the loops from outside, is left out.
pub mod Order
pub mod Waits
pub mod Progress
pub mod Written
pub mod Delivery
mod Tests
use fernq.Prelude.{
  ℕ, suc, ◌<◌, ◌≡◌, Bool, true, false, Option, none, some, List, [], ◌∷◌, ◌++◌, length, Result, ok,
  err, panic, stuck,
}
use fernq.Prelude.Bytes.{Bytes}
use fernq.Protocol.{Crc}
use fernq.Protocol.Json.{Json}
use fernq.Server.Connection.{update}
use fernq.Server.Room.{
  Conns, MessageTask, Write, Handled, leaves, takes_pong, drops, queues, handle_frame, work,
}

-- The frames of a peer: a header, and what `read_exact` makes of a payload.
abbrev pub Arrivals : Type 0
Arrivals = List (Bytes × (ℕ → Option Bytes))

-- A task, and the connection whose listener sent it.
abbrev pub Sent : Type 0
Sent = ℕ × MessageTask

-- The listener breaks its loop, or its task panics.
abbrev pub ends : Result (Unit {0}) Handled → Bool
ends (ok leaves) = true
ends (ok takes_pong) = false
ends (ok drops) = false
ends (ok (queues worker_id task)) = false
ends (err e) = true
ends panic = true
ends stuck = true

-- The frame goes to no worker, and the loop goes on.
abbrev pub passes : Result (Unit {0}) Handled → Bool
passes (ok takes_pong) = true
passes (ok drops) = true
passes r = false

-- `mpsc::channel::<MessageTask>(1024)`
abbrev pub channel_size : ℕ
channel_size = 1024

pub record Pipes : Type 0 where
  -- What the listener of a connection has not heard of its peer.
  pub rest : ℕ → Arrivals
  -- Whether the listener of a connection left its loop or panicked.
  pub ended : ℕ → Bool
  -- The channel of a worker, the task that the worker has taken from it, and the tasks that it is done
  -- with, with what it gave to `write` for them.
  pub channel : ℕ → List Sent
  pub hand : ℕ → Option Sent
  pub finished : ℕ → List (Sent × List Write)

module _ (crc : Crc) (json : Json) (worker_number : ℕ) (Seen : Conns → Type 0) where
  pub data Step (s : Pipes) : Pipes → Type 0 where
    -- The frame that ends a listener and all that the peer sends after it are left.
    end :
        (i : ℕ) (head : Bytes) (read_payload : ℕ → Option Bytes) (frames : Arrivals)
        → s.ended i ≡ false
        → s.rest i ≡ (head, read_payload) ∷ frames
        → ends (handle_frame worker_number head read_payload) ≡ true
        → Step s (record s { ended = update s.ended i true })
    pass :
        (i : ℕ) (head : Bytes) (read_payload : ℕ → Option Bytes) (frames : Arrivals)
        → s.ended i ≡ false
        → s.rest i ≡ (head, read_payload) ∷ frames
        → passes (handle_frame worker_number head read_payload) ≡ true
        → Step s (record s { rest = update s.rest i frames })
    -- `send` waits while the channel is full.
    send :
        (i : ℕ) (head : Bytes) (read_payload : ℕ → Option Bytes) (frames : Arrivals) (w : ℕ)
        (task : MessageTask)
        → s.ended i ≡ false
        → s.rest i ≡ (head, read_payload) ∷ frames
        → handle_frame worker_number head read_payload ≡ ok (queues w task)
        → length (s.channel w) < channel_size
        → Step s (record s {
          rest = update s.rest i frames;
          channel = update s.channel w (s.channel w ++ (i, task) ∷ []);
        })
    recv :
        (w : ℕ) (sent : Sent) (later : List Sent)
        → s.hand w ≡ none
        → s.channel w ≡ sent ∷ later
        → Step s
            (record s { channel = update s.channel w later; hand = update s.hand w (some sent) })
    deliver :
        (w : ℕ) (sent : Sent) (conns later_conns : Conns) (writes : List Write)
        → s.hand w ≡ some sent
        → Seen conns
        → Seen later_conns
        → work crc json conns later_conns sent.1 ≡ ok writes
        → Step s (record s {
          hand = update s.hand w none;
          finished = update s.finished w (s.finished w ++ (sent, writes) ∷ []);
        })

  -- An open room with nothing in its channels, and what each peer is going to send.
  abbrev pub init : (ℕ → Arrivals) → Pipes
  init input = record {
    rest = input;
    ended = λ i. false;
    channel = λ w. [];
    hand = λ w. none;
    finished = λ w. [];
  }

  -- After this many steps.
  pub data Reach (input : ℕ → Arrivals) : ℕ → Pipes → Type 0 where
    begin : Reach input 0 (init input)
    next : {k : ℕ} {s t : Pipes} → Reach input k s → Step s t → Reach input (suc k) t
