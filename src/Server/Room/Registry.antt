-- ===== src/Server/Room/Registry.antt =====
-- The table of connections of a room, fernqd/src/server/room.rs: `add_conn`, `close`, and what a
-- `listener` does to the table before and after its loop. A task makes one access at a time, in any order
-- with the others. Connections are numbers, and their names a parameter.
-- `close` is called once. The heartbeat and the workers, which end at the cancellation, are left out of
-- the tasks that it joins, and the spawning of a listener gives the lock back in the same access.
pub mod Invariant
pub mod Table
pub mod Closing
pub mod Entries
mod Tests
use native.Mathlib.Decide.{ℕ_discrete}
use mathlib.Core.Logic.{ite}
use fernq.Prelude.{ℕ, ◌≡◌, Bool, true, false, Option, none, some, if◌then◌else◌, List}
use fernq.Prelude.Bytes.{Bytes}
use fernq.Prelude.Text.{same}
use fernq.Storage.{put}
use fernq.Server.Connection.{update}

abbrev pub Table : Type 0
Table = Bytes → Option ℕ

-- `existing.id() == listener_id`
abbrev pub is_conn : ℕ → Option ℕ → Bool
is_conn i none = false
is_conn i (some j) = ite (ℕ_discrete i j) true false

unfoldable pub remove_if : Bytes → ℕ → Table → Table
remove_if name i table n =
    if same name n then (if is_conn i (table n) then none else table n) else table n

-- Who holds the lock of `worker_set`.
pub data Holder : Type 0 where
  nobody closer : Holder
  adder : ℕ → Holder

-- Where `close` stands: before the flag, before `cancel`, before the lock, while tasks are joined, before
-- `clear`, at its end.
pub data Stage : Type 0 where
  open_still flagged cancelling joining clearing closed : Stage

-- Where a connection stands.
pub data Pc : Type 0 where
  -- in `add_conn`: before the first test of `is_closed`, before the lock, before the second test, before
  -- `spawn`, before the `close` of a connection that is refused
  outside adding locked spawning refusing : Pc
  -- in `listener`: before the test, before the entry, before the `close` of the connection that had the
  -- name, in the loop, before `remove_if`, before its own `close`
  spawned starting : Pc
  replacing : ℕ → Pc
  listening left removed : Pc
  -- closed at the end, or left as it is by a listener that comes after the cancellation, or by one that
  -- panicked in its loop
  finished turned_away crashed : Pc

pub record Mem : Type 0 where
  pub table : Table
  pub conn_closed : ℕ → Bool
  pub is_closed : Bool
  pub cancelled : Bool
  pub worker_set : Holder
  pub stage : Stage

-- What the entry for the name holds tells what comes after the insertion.
abbrev pub inserted : Option ℕ → Pc
inserted none = listening
inserted (some old) = replacing old

-- A task of the `JoinSet` that has not come to its end.
abbrev pub is_task : Pc → Bool
is_task spawned = true
is_task starting = true
is_task (replacing old) = true
is_task listening = true
is_task left = true
is_task removed = true
is_task p = false

module _ (name : ℕ → Bytes) where
  -- One access for the connection `i`.
  pub data Move (i : ℕ) (m : Mem) : Pc → Mem → Pc → Type 0 where
    add_conn : m.is_closed ≡ false → Move i m outside m adding
    add_refused : m.is_closed ≡ true → Move i m outside m refusing
    add_lock : m.worker_set ≡ nobody → Move i m adding (record m { worker_set = adder i }) locked
    add_go : m.is_closed ≡ false → Move i m locked m spawning
    add_late : m.is_closed ≡ true → Move i m locked (record m { worker_set = nobody }) refusing
    spawn : Move i m spawning (record m { worker_set = nobody }) spawned
    refuse : Move i m refusing (record m { conn_closed = update m.conn_closed i true }) finished
    start : m.cancelled ≡ false → Move i m spawned m starting
    turn_away : m.cancelled ≡ true → Move i m spawned m turned_away
    insert :
        Move i m starting
          (record m { table = put (name i) i m.table })
          (inserted (m.table (name i)))
    close_old :
        {old : ℕ}
        → Move i m
            (replacing old)
            (record m { conn_closed = update m.conn_closed old true })
            listening
    leave : Move i m listening m left
    -- `get_message_source_target` panics, and the task unwinds with no cleanup.
    crash : Move i m listening m crashed
    remove : Move i m left (record m { table = remove_if (name i) i m.table }) removed
    close_self : Move i m removed (record m { conn_closed = update m.conn_closed i true }) finished

  pub record System : Type 0 where
    pub mem : Mem
    pub pc : ℕ → Pc

  -- One access of `close`.
  pub data CloseMove (m : Mem) (pc : ℕ → Pc) : Mem → Type 0 where
    close_flag :
        m.stage ≡ open_still → CloseMove m pc (record m { is_closed = true; stage = flagged })
    close_cancel :
        m.stage ≡ flagged → CloseMove m pc (record m { cancelled = true; stage = cancelling })
    close_lock :
        m.stage ≡ cancelling
        → m.worker_set ≡ nobody
        → CloseMove m pc (record m { worker_set = closer; stage = joining })
    close_join :
        m.stage ≡ joining
        → ((i : ℕ) → is_task (pc i) ≡ false)
        → CloseMove m pc (record m { stage = clearing })
    close_clear :
        m.stage ≡ clearing
        → CloseMove m pc (record m { table = λ n. none; worker_set = nobody; stage = closed })

  pub data Step (s : System) : System → Type 0 where
    pick :
        (i : ℕ) {m : Mem} {p : Pc}
        → Move i s.mem (s.pc i) m p
        → Step s (record { mem = m; pc = update s.pc i p })
    close : {m : Mem} → CloseMove s.mem s.pc m → Step s (record { mem = m; pc = s.pc })

  -- `Room::new` and `open`.
  abbrev pub init : System
  init = record {
    mem = record {
      table = λ n. none;
      conn_closed = λ i. false;
      is_closed = false;
      cancelled = false;
      worker_set = nobody;
      stage = open_still;
    };
    pc = λ i. outside;
  }

  pub data Reach : System → Type 0 where
    begin : Reach init
    later : {s t : System} → Reach s → Step s t → Reach t
