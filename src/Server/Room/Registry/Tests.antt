-- ===== src/Server/Room/Registry/Tests.antt =====
-- Two connections of one name, and a room that is closed while a third comes.
use native.Mathlib.Decide.{ℕ_discrete}
use fernq.Prelude.{arith, ℕ, ◌≡◌, refl, ◌⊎◌, true, false, none, some, [], ◌∷◌}
use fernq.Prelude.Bytes.{Bytes}
use fernq.Prelude.Text.{same}
use fernq.Storage.{put}
use fernq.Server.Connection.{update}
use fernq.Server.Room.Registry.{
  nobody, closer, clearing, outside, adding, locked, spawning, spawned, starting, replacing,
  crashed, closed, refusing, finished, inserted, is_task, add_conn, add_refused, add_lock, add_go,
  spawn, start, insert, refuse, close_flag, close_cancel, close_lock, close_join, System, pick,
  close, init, Reach, begin, later,
}
use fernq.Server.Room.Registry.Invariant.{ended}
use fernq.Server.Room.Registry.Table.{listed}
use fernq.Server.Room.Registry.Closing.{joined-clear}
use fernq.Server.Room.Registry.Entries.{Reach-newest, Step-abandoned}

abbrev gate : Bytes
gate = 103 ∷ []

abbrev all_gate : ℕ → Bytes
all_gate i = gate

-- A listener that came up to its insertion.
abbrev ready : System all_gate → ℕ → System all_gate
ready s i = record {
  mem = record s.mem { worker_set = nobody };
  pc =
      update (update (update (update (update s.pc i adding) i locked) i spawning) i spawned) i
        starting;
}

-- Its insertion.
abbrev entered : System all_gate → ℕ → System all_gate
entered s i = record {
  mem = record s.mem { table = put gate i s.mem.table };
  pc = update s.pc i (inserted (s.mem.table gate));
}

abbrev first : System all_gate
first = entered (ready (init all_gate) 0) 0

first_reached : Reach all_gate first
unfolding ℕ_discrete
first_reached =
    later
      (later
        (later
          (later (later (later begin (pick 0 (add_conn refl))) (pick 0 (add_lock refl)))
            (pick 0 (add_go refl)))
          (pick 0 spawn))
        (pick 0 (start refl)))
      (pick 0 insert)

-- The second one has the entry now, and is about to close the first.
abbrev second : System all_gate
second = entered (ready first 1) 1

second_reached : Reach all_gate second
unfolding ℕ_discrete
second_reached =
    later
      (later
        (later
          (later (later (later first_reached (pick 1 (add_conn refl))) (pick 1 (add_lock refl)))
            (pick 1 (add_go refl)))
          (pick 1 spawn))
        (pick 1 (start refl)))
      (pick 1 insert)

Reach-newest_example :
    (second.mem.table gate ≡ some 0
      → ((listed (second.pc 0) ≡ true) ⊎ (second.pc 0 ≡ crashed)) × (gate ≡ gate))
    × (listed (second.pc 0) ≡ true
        → (second.mem.table gate ≡ some 0)
          ⊎ (second.mem.conn_closed 0 ≡ true)
          ⊎ ((j : ℕ) × (second.pc j ≡ replacing 0)))
Reach-newest_example = Reach-newest all_gate {s = second} second_reached gate 0

-- The listener of the first one panics, and the second one comes up to its insertion.
abbrev abandoned : System all_gate
abandoned = ready (record { mem = first.mem; pc = update first.pc 0 crashed }) 1

Step-abandoned_example :
    ((entered abandoned 1).pc 0 ≡ crashed)
    × (((entered abandoned 1).mem.table gate ≡ some 0)
        ⊎ ((entered abandoned 1).mem.stage ≡ closed)
        ⊎ ((i : ℕ) × (gate ≡ gate)
            × (abandoned.pc i ≡ starting)
            × ((entered abandoned 1).mem.table gate ≡ some i)))
unfolding ℕ_discrete same
Step-abandoned_example =
    Step-abandoned all_gate {s = abandoned} {t = entered abandoned 1} gate 0 (pick 1 insert) refl
      refl

-- A connection comes while the room is closed.
abbrev late : System all_gate
late = record {
  mem = record (init all_gate).mem {
    is_closed = true;
    cancelled = true;
    conn_closed = update (λ i. false) 0 true;
    worker_set = closer;
    stage = clearing;
  };
  pc = update (update (λ i. outside) 0 refusing) 0 finished;
}

no_task_left : (i : ℕ) → is_task (late.pc i) ≡ false
no_task_left i = ground arith

late_reached : Reach all_gate late
unfolding ℕ_discrete
late_reached =
    later
      (later
        (later
          (later (later (later begin (close (close_flag refl))) (pick 0 (add_refused refl)))
            (pick 0 refuse))
          (close (close_cancel refl)))
        (close (close_lock refl refl)))
      (close (close_join refl no_task_left))

joined-clear_example :
    (is_task (late.pc 0) ≡ false)
    × (ended (late.pc 0) ≡ true → late.mem.conn_closed 0 ≡ true)
    × (late.mem.table gate ≡ some 0 → late.pc 0 ≡ crashed)
    × (late.mem.stage ≡ closed → late.mem.table gate ≡ none)
joined-clear_example = joined-clear all_gate {s = late} late_reached refl gate 0
