-- ===== src/Server/Shutdown.antt =====
-- `listen` and `close` of `ServerNode`, fernqd/src/server/node.rs: the task that accepts connections, the
-- tasks of the connections, and the caller of `close`, who share the lock of `worker_set`. A step is one
-- access of one of them.
pub mod Waiting
mod Tests
use fernq.Prelude.{ℕ, zero, suc, ◌≡◌, Bool, true, false}

-- Who holds the lock of `worker_set`.
pub data Holder : Type 0 where
  nobody listening_task closing_task : Holder

-- In the accept loop; with a connection, before the lock; with the lock, before `spawn`; at the end.
pub data ListenPc : Type 0 where
  accepting locking spawning stopped : ListenPc

-- Not called; past `cancel`; with all rooms closed, before the lock; with the lock, in `join_next`; at
-- the end.
pub data ClosePc : Type 0 where
  uncalled closing_rooms close_locking joining returned : ClosePc

pub record Mem : Type 0 where
  pub worker_set : Holder
  pub cancelled : Bool
  pub listen_at : ListenPc
  pub close_at : ClosePc
  -- the tasks of `add_connection` that run
  pub tasks : ℕ

pub data Step (m : Mem) : Mem → Type 0 where
  accept : m.listen_at ≡ accepting → Step m (record m { listen_at = locking })
  -- the listener gave an error after which the loop ends
  accept_error : m.listen_at ≡ accepting → Step m (record m { listen_at = stopped })
  stop : m.listen_at ≡ accepting → m.cancelled ≡ true → Step m (record m { listen_at = stopped })
  listen_lock :
      m.listen_at ≡ locking
      → m.worker_set ≡ nobody
      → Step m (record m { worker_set = listening_task; listen_at = spawning })
  spawn :
      m.listen_at ≡ spawning
      → Step m (record m { worker_set = nobody; listen_at = accepting; tasks = suc m.tasks })
  finish : (n : ℕ) → m.tasks ≡ suc n → Step m (record m { tasks = n })
  cancel : m.close_at ≡ uncalled → Step m (record m { cancelled = true; close_at = closing_rooms })
  rooms_closed : m.close_at ≡ closing_rooms → Step m (record m { close_at = close_locking })
  close_lock :
      m.close_at ≡ close_locking
      → m.worker_set ≡ nobody
      → Step m (record m { worker_set = closing_task; close_at = joining })
  -- `join_next` gives `None`
  join_all :
      m.close_at ≡ joining
      → m.listen_at ≡ stopped
      → m.tasks ≡ 0
      → Step m (record m { worker_set = nobody; close_at = returned })

-- `listen` was spawned.
abbrev pub init : Mem
init = record {
  worker_set = nobody;
  cancelled = false;
  listen_at = accepting;
  close_at = uncalled;
  tasks = 0;
}

-- No step or more, one after the other.
pub data Later (m : Mem) : Mem → Type 0 where
  now : Later m m
  next : {k l : Mem} → Later m k → Step k l → Later m l
