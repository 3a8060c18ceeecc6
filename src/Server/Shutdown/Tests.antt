-- ===== src/Server/Shutdown/Tests.antt =====
-- A connection comes just before the node is closed.
use fernq.Prelude.{ℕ, refl, true}
use fernq.Server.Shutdown.{
  closing_task, locking, joining, Mem, accept, cancel, rooms_closed, close_lock, finish,
  listen_lock, spawn, init, Later, now, next,
}
use fernq.Server.Shutdown.Waiting.{IsDeadlock, Later-IsDeadlock}

abbrev waiting : ℕ → Mem
waiting n = record {
  worker_set = closing_task;
  cancelled = true;
  listen_at = locking;
  close_at = joining;
  tasks = n;
}

-- One connection is there, and another one is accepted when `close` takes the lock.
waiting_reached : Later init (waiting 1)
waiting_reached =
    next
      (next
        (next
          (next (next (next (next now (accept refl)) (listen_lock refl refl)) (spawn refl))
            (cancel refl))
          (accept refl))
        (rooms_closed refl))
      (close_lock refl refl)

Later-IsDeadlock_example : IsDeadlock (waiting 0)
Later-IsDeadlock_example =
    Later-IsDeadlock {m = waiting 1} {l = waiting 0} waiting_reached (refl, refl)
      (next now (finish 0 refl))
