-- ===== src/Server/Shutdown/Waiting.antt =====
-- What the caller of `close` may wait for.
use fernq.Prelude.{◌≡◌, refl, arith}
use fernq.Server.Shutdown.{
  listening_task, closing_task, locking, spawning, stopped, joining, returned, Mem, Step, accept,
  accept_error, stop, listen_lock, spawn, finish, cancel, rooms_closed, close_lock, join_all, init,
  Later, now, next,
}

-- The lock is with the task that stands behind it, and whoever returned left no task behind.
pub record Inv (m : Mem) : Type 0 where
  pub listen_holds : m.listen_at ≡ spawning → m.worker_set ≡ listening_task
  pub close_holds : m.close_at ≡ joining → m.worker_set ≡ closing_task
  pub listen_over : m.close_at ≡ returned → m.listen_at ≡ stopped
  pub tasks_over : m.close_at ≡ returned → m.tasks ≡ 0

module _ {m : Mem} (v : Inv m) where
  Step-listen_holds : {l : Mem} → Step m l → l.listen_at ≡ spawning → l.worker_set ≡ listening_task
  Step-listen_holds (accept e) h = absurd (cc)
  Step-listen_holds (close_lock e free) h = absurd (ground (arith, v.listen_holds h))
  Step-listen_holds (join_all e f g) h = absurd (ground arith)
  Step-listen_holds st h = ground (arith, v.listen_holds)

  Step-close_holds : {l : Mem} → Step m l → l.close_at ≡ joining → l.worker_set ≡ closing_task
  Step-close_holds (accept e) h = v.close_holds h
  Step-close_holds (listen_lock e free) h = absurd (ground (arith, v.close_holds h))
  Step-close_holds (spawn e) h = absurd (ground (arith, v.close_holds h, v.listen_holds e))
  Step-close_holds st h = ground (arith, v.close_holds)

  Step-listen_over : {l : Mem} → Step m l → l.close_at ≡ returned → l.listen_at ≡ stopped
  Step-listen_over (accept e) h = absurd (ground (arith, v.listen_over h))
  Step-listen_over (accept_error e) h = refl
  Step-listen_over (stop e f) h = refl
  Step-listen_over (listen_lock e free) h = absurd (ground (arith, v.listen_over h, e))
  Step-listen_over (spawn e) h = absurd (ground (arith, v.listen_over h, e))
  Step-listen_over (join_all e f g) h = f
  Step-listen_over st h = ground (arith, v.listen_over)

  Step-tasks_over : {l : Mem} → Step m l → l.close_at ≡ returned → l.tasks ≡ 0
  Step-tasks_over (accept e) h = v.tasks_over h
  Step-tasks_over (spawn e) h = absurd (ground (arith, v.listen_over h))
  Step-tasks_over (finish n e) h = absurd (ground (arith, v.tasks_over h))
  Step-tasks_over (join_all e f g) h = g
  Step-tasks_over st h = ground (arith, v.tasks_over)

  Step-Inv : {l : Mem} → Step m l → Inv l
  Step-Inv st = record {
    listen_holds = Step-listen_holds st;
    close_holds = Step-close_holds st;
    listen_over = Step-listen_over st;
    tasks_over = Step-tasks_over st;
  }

Later-Inv : {m l : Mem} → Inv m → Later m l → Inv l
Later-Inv v now = v
Later-Inv v (next ls st) = Step-Inv (Later-Inv v ls) st

init-Inv : Inv init
init-Inv = record {
  listen_holds = λ h. cc;
  close_holds = λ h. cc;
  listen_over = λ h. cc;
  tasks_over = λ h. cc;
}

-- When `close` has returned, the accept loop has ended and no task of a connection runs.
pub Later-over :
    {m : Mem} → Later init m → m.close_at ≡ returned → (m.listen_at ≡ stopped) × (m.tasks ≡ 0)
Later-over ls h = let v = Later-Inv init-Inv ls in (v.listen_over h, v.tasks_over h)

-- The accept loop has a connection and waits for the lock, which `close` holds while it waits for the
-- loop to end.
abbrev pub IsDeadlock : Mem → Type 0
IsDeadlock m = (m.listen_at ≡ locking) × (m.close_at ≡ joining)

Step-IsDeadlock : {m l : Mem} → Inv m → IsDeadlock m → Step m l → IsDeadlock l
Step-IsDeadlock v (a, b) (accept e) = absurd (cc)
Step-IsDeadlock v (a, b) (listen_lock e free) = absurd (ground (arith, v.close_holds b))
Step-IsDeadlock v (a, b) (accept_error e) = absurd (cc)
Step-IsDeadlock v (a, b) (stop e f) = absurd (cc)
Step-IsDeadlock v (a, b) (spawn e) = absurd (cc)
Step-IsDeadlock v (a, b) (cancel e) = absurd (cc)
Step-IsDeadlock v (a, b) (rooms_closed e) = absurd (cc)
Step-IsDeadlock v (a, b) (close_lock e free) = absurd (cc)
Step-IsDeadlock v (a, b) (join_all e f g) = absurd (cc)
Step-IsDeadlock v (a, b) st = (ground arith, ground arith)

-- From a state that can be reached, in which the accept loop has a connection and waits for the lock while
-- `close` has the lock and waits for the tasks, neither gets any further, whatever steps come: `close`
-- never returns.
pub Later-IsDeadlock : {m l : Mem} → Later init m → IsDeadlock m → Later m l → IsDeadlock l
Later-IsDeadlock r d now = d
Later-IsDeadlock r d (next ls st) =
    Step-IsDeadlock (Later-Inv (Later-Inv init-Inv r) ls) (Later-IsDeadlock r d ls) st
