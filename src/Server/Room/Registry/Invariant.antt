-- ===== src/Server/Room/Registry/Invariant.antt =====
-- The lock and the flag: which tasks there can be while the room closes.
use fernq.Prelude.{ℕ, ◌≡◌, refl, Bool, true, false, Option, none, some, arith}
use fernq.Prelude.Bytes.{Bytes}
use fernq.Server.Connection.{update}
use fernq.Server.Room.Registry.{
  nobody, closer, adder, Stage, open_still, joining, clearing, closed, Pc, locked, spawning,
  finished, Mem, inserted, is_task, Move, add_conn, add_lock, add_go, insert, CloseMove, close_flag,
  close_cancel, close_lock, close_join, close_clear, System, pick, close, init, Reach, begin, later,
}

abbrev pub holds_set : Pc → Bool
holds_set locked = true
holds_set spawning = true
holds_set p = false

abbrev pub about_to_spawn : Pc → Bool
about_to_spawn spawning = true
about_to_spawn p = false

abbrev pub ended : Pc → Bool
ended finished = true
ended p = false

abbrev pub flag_set : Stage → Bool
flag_set open_still = false
flag_set g = true

abbrev pub has_lock : Stage → Bool
has_lock joining = true
has_lock clearing = true
has_lock g = false

abbrev pub past_lock : Stage → Bool
past_lock joining = true
past_lock clearing = true
past_lock closed = true
past_lock g = false

holds_set-inserted : (entry : Option ℕ) → holds_set (inserted entry) ≡ false
holds_set-inserted none = refl
holds_set-inserted (some old) = refl

about_to_spawn-inserted : (entry : Option ℕ) → about_to_spawn (inserted entry) ≡ false
about_to_spawn-inserted none = refl
about_to_spawn-inserted (some old) = refl

ended-inserted : (entry : Option ℕ) → ended (inserted entry) ≡ false
ended-inserted none = refl
ended-inserted (some old) = refl

-- All tasks were joined.
abbrev pub joined : Stage → Bool
joined clearing = true
joined closed = true
joined g = false

pub record Inv (m : Mem) (pc : ℕ → Pc) : Type 0 where
  pub flag : flag_set m.stage ≡ true → m.is_closed ≡ true
  pub holder : (i : ℕ) → holds_set (pc i) ≡ true → m.worker_set ≡ adder i
  pub close_holds : has_lock m.stage ≡ true → m.worker_set ≡ closer
  pub no_spawn : (i : ℕ) → past_lock m.stage ≡ true → about_to_spawn (pc i) ≡ false
  pub no_task : (i : ℕ) → joined m.stage ≡ true → is_task (pc i) ≡ false
  pub shut_down : (i : ℕ) → ended (pc i) ≡ true → m.conn_closed i ≡ true

module _ (name : ℕ → Bytes) where
  -- The test of a move, for the clauses that do not name it.
  abbrev Guard : {i : ℕ} {m m' : Mem} {p p' : Pc} → Move name i m p m' p' → Type 0
  Guard {m} (add_lock e) = m.worker_set ≡ nobody
  Guard {m} (add_go e) = m.is_closed ≡ false
  Guard mv = Unit {0}

  guard : {i : ℕ} {m m' : Mem} {p p' : Pc} (mv : Move name i m p m' p') → Guard mv
  guard (add_lock e) = e
  guard (add_go e) = e
  guard mv = tt

  module _ {m : Mem} {pc : ℕ → Pc} (inv : Inv m pc) (i : ℕ) where
    open inv use {flag, holder, close_holds, no_spawn, no_task, shut_down}

    Move-flag :
        {p p' : Pc} {m' : Mem}
        → Move name i m p m' p'
        → flag_set m'.stage ≡ true
        → m'.is_closed ≡ true
    Move-flag (add_conn e) h = flag h
    Move-flag mv h = ground (arith, flag)

    Move-holder :
        {p p' : Pc} {m' : Mem}
        → Move name i m p m' p'
        → pc i ≡ p
        → (j : ℕ) → holds_set (update pc i p' j) ≡ true
        → m'.worker_set ≡ adder j
    Move-holder (add_conn e) here j h = ground (arith, holder j, holder i)
    Move-holder insert here j h = ground (arith, holder j, holds_set-inserted (m.table (name i)))
    Move-holder mv here j h = ground (arith, guard mv, holder j, holder i)

    Move-close_holds :
        {p p' : Pc} {m' : Mem}
        → Move name i m p m' p'
        → pc i ≡ p
        → has_lock m'.stage ≡ true
        → m'.worker_set ≡ closer
    Move-close_holds (add_conn e) here h = close_holds h
    Move-close_holds mv here h = ground (arith, guard mv, holder i, close_holds)

    Move-no_spawn :
        {p p' : Pc} {m' : Mem}
        → Move name i m p m' p'
        → pc i ≡ p
        → (j : ℕ) → past_lock m'.stage ≡ true
        → about_to_spawn (update pc i p' j) ≡ false
    Move-no_spawn (add_conn e) here j h = ground (arith, no_spawn j)
    Move-no_spawn insert here j h =
        ground (arith, no_spawn j, about_to_spawn-inserted (m.table (name i)))
    Move-no_spawn mv here j h = ground (arith, guard mv, no_spawn j, flag)

    Move-no_task :
        {p p' : Pc} {m' : Mem}
        → Move name i m p m' p'
        → pc i ≡ p
        → (j : ℕ) → joined m'.stage ≡ true
        → is_task (update pc i p' j) ≡ false
    Move-no_task (add_conn e) here j h = ground (arith, no_task j)
    Move-no_task insert here j h = ground (arith, no_task j, no_task i)
    Move-no_task mv here j h = ground (arith, guard mv, no_task j, no_task i, no_spawn i)

    Move-shut_down :
        {p p' : Pc} {m' : Mem}
        → Move name i m p m' p'
        → pc i ≡ p
        → (j : ℕ) → ended (update pc i p' j) ≡ true
        → m'.conn_closed j ≡ true
    Move-shut_down (add_conn e) here j h = ground (arith, shut_down j)
    Move-shut_down insert here j h = ground (arith, shut_down j, ended-inserted (m.table (name i)))
    Move-shut_down mv here j h = ground (arith, guard mv, shut_down j)

  Move-Inv :
      {m : Mem} {pc : ℕ → Pc}
      → Inv m pc
      → (i : ℕ) {m' : Mem} {p' : Pc} → Move name i m (pc i) m' p'
      → Inv m' (update pc i p')
  Move-Inv inv i mv = record {
    flag = Move-flag inv i mv;
    holder = Move-holder inv i mv refl;
    close_holds = Move-close_holds inv i mv refl;
    no_spawn = Move-no_spawn inv i mv refl;
    no_task = Move-no_task inv i mv refl;
    shut_down = Move-shut_down inv i mv refl;
  }

  CloseMove-Inv : {m m' : Mem} {pc : ℕ → Pc} → Inv m pc → CloseMove name m pc m' → Inv m' pc
  CloseMove-Inv inv (close_flag e) = record {
    flag = λ h. refl;
    holder = inv.holder;
    close_holds = λ h. cc;
    no_spawn = λ i h. cc;
    no_task = λ i h. cc;
    shut_down = inv.shut_down;
  }
  CloseMove-Inv inv (close_cancel e) = record {
    flag = λ h. inv.flag (rw e refl);
    holder = inv.holder;
    close_holds = λ h. cc;
    no_spawn = λ i h. cc;
    no_task = λ i h. cc;
    shut_down = inv.shut_down;
  }
  CloseMove-Inv {pc} inv (close_lock e free) = record {
    flag = λ h. inv.flag (rw e refl);
    holder = λ i h. absurd (ground (arith, inv.holder i h));
    close_holds = λ h. refl;
    no_spawn = λ i h. ground (arith, inv.holder i);
    no_task = λ i h. cc;
    shut_down = inv.shut_down;
  }
  CloseMove-Inv inv (close_join e over) = record {
    flag = λ h. inv.flag (rw e refl);
    holder = inv.holder;
    close_holds = λ h. inv.close_holds (rw e refl);
    no_spawn = λ i h. inv.no_spawn i (rw e refl);
    no_task = λ i h. over i;
    shut_down = inv.shut_down;
  }
  CloseMove-Inv inv (close_clear e) = record {
    flag = λ h. inv.flag (rw e refl);
    holder = λ i h. absurd (ground (arith, inv.holder i h, inv.close_holds (rw e refl)));
    close_holds = λ h. cc;
    no_spawn = λ i h. inv.no_spawn i (rw e refl);
    no_task = λ i h. inv.no_task i (rw e refl);
    shut_down = inv.shut_down;
  }

  Inv-init : Inv (init name).mem (init name).pc
  Inv-init = record {
    flag = λ h. cc;
    holder = λ i h. cc;
    close_holds = λ h. cc;
    no_spawn = λ i h. refl;
    no_task = λ i h. refl;
    shut_down = λ i h. cc;
  }

  pub Reach-Inv : {s : System name} → Reach name s → Inv s.mem s.pc
  Reach-Inv begin = Inv-init
  Reach-Inv (later r (pick i mv)) = Move-Inv (Reach-Inv r) i mv
  Reach-Inv (later r (close mv)) = CloseMove-Inv (Reach-Inv r) mv
