-- ===== src/Server/Connection/Tests.antt =====
-- Two tasks on one connection: task 1 writes while task 0 closes it.
use native.Mathlib.Decide.{ℕ_discrete}
use fernq.Prelude.{ℕ, refl, Bool, true, false, Option, none, some, List, [], ◌∷◌}
use fernq.Prelude.Bytes.{Bytes}
use fernq.Server.Connection.{
  Output, wrote, shut, Shared, ready, done, close_locking, close_cancelling, close_shutting,
  write_locking, write_checking, write_writing, close_first, close_lock, close_cancel,
  close_shutdown, write_open, write_lock, write_go, write_done, update, System, pick, init, Reach,
  start, later,
}
use fernq.Server.Connection.Invariant.{IsOrderly}
use fernq.Server.Connection.Safety.{Reach-IsOrderly}

abbrev hello : Bytes
hello = 1 ∷ 2 ∷ []

abbrev shared : (closed cancelled : Bool) → Option ℕ → List Output → Shared
shared closed cancelled writer sent = record {
  closed = closed;
  cancelled = cancelled;
  writer = writer;
  pending_heartbeats = 0;
  sent = sent;
}

-- Task 1 has the lock, and task 0 is past the swap of `close`.
abbrev busy : System
busy = record {
  mem = shared true false (some 1) [];
  pc =
      update (update (update init.pc 1 (write_locking hello)) 1 (write_checking hello)) 0
        close_locking;
}

busy_reached : Reach busy
unfolding ℕ_discrete
busy_reached =
    later (later (later start (pick 1 (write_open hello refl))) (pick 1 (write_lock refl)))
      (pick 0 (close_first refl))

-- Both are done.
abbrev over : System
over = record {
  mem = shared true true none (shut ∷ wrote hello ∷ []);
  pc =
      update
        (update
          (update (update (update busy.pc 1 (write_writing hello)) 1 (ready done)) 0
            close_cancelling)
          0 close_shutting)
        0 (ready done);
}

over_reached : Reach over
unfolding ℕ_discrete
over_reached =
    later
      (later
        (later (later (later busy_reached (pick 1 (write_go refl))) (pick 1 write_done))
          (pick 0 (close_lock refl)))
        (pick 0 close_cancel))
      (pick 0 close_shutdown)

Reach-IsOrderly_example : IsOrderly (shut ∷ wrote hello ∷ [])
Reach-IsOrderly_example = Reach-IsOrderly {s = over} over_reached
