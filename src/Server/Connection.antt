-- ===== src/Server/Connection.antt =====
-- `TcpConn` of fernqd/src/server/conn.rs: the state that the clones of a connection share, and the tasks
-- that call `close` and `write` on it. A task makes one access to the shared state at a time, and the
-- tasks are interleaved in any order. A timeout may strike wherever the code sets one.
pub mod Invariant
pub mod Safety
mod Tests
use mathlib.Core.Logic.{ite}
use fernq.Prelude.{
  ℕ, ◌+◌, ◌%◌, ◌^◌, ◌≡◌, Bool, true, false, Option, none, some, List, [], ◌∷◌, ◌++◌,
}
use fernq.Prelude.Bytes.{Bytes}
use native.Mathlib.Decide.{ℕ_discrete}

-- What the write half did: bytes sent, or the shutdown.
pub data Output : Type 0 where
  wrote : Bytes → Output
  shut : Output

-- What all clones share. `writer` is the task that holds the lock of the write half; `sent` has the
-- latest output first.
pub record Shared : Type 0 where
  pub closed : Bool
  pub cancelled : Bool
  pub writer : Option ℕ
  pub pending_heartbeats : ℕ
  pub sent : List Output

-- A handle: its own fields. The reader is there or taken.
pub record TcpConn : Type 0 where
  pub id : Bytes
  pub name : Bytes
  pub has_reader : Bool

-- `TcpConn::new`, with the fresh UUID.
abbrev pub new_shared : Shared
new_shared = record {
  closed = false;
  cancelled = false;
  writer = none;
  pending_heartbeats = 0;
  sent = [];
}

abbrev pub new_conn : Bytes → Bytes → TcpConn
new_conn id name = record { id = id; name = name; has_reader = true }

-- Whether there was a reader, and the handle without it.
abbrev pub take_reader : TcpConn → Bool × TcpConn
take_reader conn = (conn.has_reader, record { id = conn.id; name = conn.name; has_reader = false })

-- `Clone`: a clone has no reader.
abbrev pub clone : TcpConn → TcpConn
clone conn = record { id = conn.id; name = conn.name; has_reader = false }

-- What a call returned. An error of the operating system stands for any kind.
pub data Answer : Type 0 where
  fresh done broken_pipe timed_out io_error : Answer

-- Where a task stands in `close` or `write`, or between calls with the last answer.
pub data Pc : Type 0 where
  ready : (answer : Answer) → Pc
  -- in `close`: before the lock, before `cancel`, before `shutdown`
  close_locking close_cancelling close_shutting : Pc
  -- in `write`: before the lock, before the second test, before `write_all`
  write_locking write_checking write_writing : (bytes : Bytes) → Pc

-- One access of the task `i`.
pub data Move (i : ℕ) (m : Shared) : Pc → Shared → Pc → Type 0 where
  close_again : {a : Answer} → m.closed ≡ true → Move i m (ready a) m (ready done)
  close_first :
      {a : Answer}
      → m.closed ≡ false
      → Move i m (ready a) (record m { closed = true }) close_locking
  close_lock :
      m.writer ≡ none → Move i m close_locking (record m { writer = some i }) close_cancelling
  close_no_lock : Move i m close_locking (record m { cancelled = true }) (ready done)
  close_cancel : Move i m close_cancelling (record m { cancelled = true }) close_shutting
  close_shutdown :
      Move i m close_shutting (record m { sent = shut ∷ m.sent; writer = none }) (ready done)
  close_shutdown_fails :
      Move i m close_shutting (record m { sent = shut ∷ m.sent; writer = none }) (ready io_error)
  write_closed : {a : Answer} → m.cancelled ≡ true → Move i m (ready a) m (ready broken_pipe)
  write_open :
      {a : Answer} (bytes : Bytes)
      → m.cancelled ≡ false
      → Move i m (ready a) m (write_locking bytes)
  write_lock :
      {bytes : Bytes}
      → m.writer ≡ none
      → Move i m (write_locking bytes) (record m { writer = some i }) (write_checking bytes)
  write_no_lock : {bytes : Bytes} → Move i m (write_locking bytes) m (ready timed_out)
  write_late :
      {bytes : Bytes}
      → m.cancelled ≡ true
      → Move i m (write_checking bytes) (record m { writer = none }) (ready broken_pipe)
  write_go :
      {bytes : Bytes}
      → m.cancelled ≡ false
      → Move i m (write_checking bytes) m (write_writing bytes)
  write_done :
      {bytes : Bytes}
      → Move i m
          (write_writing bytes)
          (record m { sent = wrote bytes ∷ m.sent; writer = none })
          (ready done)
  -- Of a write that fails or is cut off a part may be sent.
  write_fails :
      {bytes : Bytes} (part rest : Bytes)
      → part ++ rest ≡ bytes
      → Move i m
          (write_writing bytes)
          (record m { sent = wrote part ∷ m.sent; writer = none })
          (ready io_error)
  write_timeout :
      {bytes : Bytes} (part rest : Bytes)
      → part ++ rest ≡ bytes
      → Move i m
          (write_writing bytes)
          (record m { sent = wrote part ∷ m.sent; writer = none; cancelled = true })
          (ready timed_out)
  reset_heartbeats :
      {a : Answer} → Move i m (ready a) (record m { pending_heartbeats = 0 }) (ready a)
  increment_heartbeats :
      {a : Answer}
      → Move i m
          (ready a)
          (record m { pending_heartbeats = (m.pending_heartbeats + 1) % 2 ^ 32 })
          (ready a)

abbrev pub update : {A : Type 0} → (ℕ → A) → ℕ → A → ℕ → A
update f i a j = ite (ℕ_discrete i j) a (f j)

-- The tasks of one connection.
pub record System : Type 0 where
  pub mem : Shared
  pub pc : ℕ → Pc

pub data Step (s : System) : System → Type 0 where
  pick :
      (i : ℕ) {m : Shared} {p : Pc}
      → Move i s.mem (s.pc i) m p
      → Step s (record { mem = m; pc = update s.pc i p })

abbrev pub init : System
init = record { mem = new_shared; pc = λ i. ready fresh }

pub data Reach : System → Type 0 where
  start : Reach init
  later : {s t : System} → Reach s → Step s t → Reach t
