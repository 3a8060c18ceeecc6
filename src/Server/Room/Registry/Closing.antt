-- ===== src/Server/Room/Registry/Closing.antt =====
-- What `close` of a room leaves behind.
use fernq.Prelude.{ℕ, ◌≡◌, refl, inl, inr, true, false, none, some, arith}
use fernq.Prelude.Bytes.{Bytes}
use fernq.Server.Room.Registry.{
  remove_if, closed, Pc, crashed, is_task, Mem, Move, add_conn, insert, remove, CloseMove,
  close_flag, close_cancel, close_lock, close_join, close_clear, System, pick, close, Reach, begin,
  later,
}
use fernq.Server.Room.Registry.Invariant.{joined, ended, Inv, Reach-Inv}
use fernq.Server.Room.Registry.Table.{entered_cases, listed-is_task, Reach-InTable}

module _ (name : ℕ → Bytes) where
  -- No listener is left that could insert.
  Move-emptied :
      {m : Mem} {pc : ℕ → Pc} (inv : Inv m pc)
      → (m.stage ≡ closed → (n : Bytes) → m.table n ≡ none)
      → (i : ℕ) {p p' : Pc} {m' : Mem} → Move name i m p m' p'
      → pc i ≡ p
      → m'.stage ≡ closed
      → (n : Bytes) → m'.table n ≡ none
  unfolding remove_if
  Move-emptied inv empty i (add_conn e) here h n = empty h n
  Move-emptied inv empty i insert here h n = absurd (ground (arith, inv.no_task i))
  Move-emptied inv empty i remove here h n = ground (arith, empty h n)
  Move-emptied inv empty i mv here h n = empty h n

  CloseMove-emptied :
      {m m' : Mem} {pc : ℕ → Pc}
      → CloseMove name m pc m'
      → m'.stage ≡ closed
      → (n : Bytes) → m'.table n ≡ none
  CloseMove-emptied (close_flag e) h n = absurd (cc)
  CloseMove-emptied (close_cancel e) h n = absurd (cc)
  CloseMove-emptied (close_lock e free) h n = absurd (cc)
  CloseMove-emptied (close_join e over) h n = absurd (cc)
  CloseMove-emptied (close_clear e) h n = refl

  Reach-emptied :
      {s : System name} → Reach name s → s.mem.stage ≡ closed → (n : Bytes) → s.mem.table n ≡ none
  Reach-emptied begin h n = refl
  Reach-emptied (later r (pick i mv)) h n =
      Move-emptied (Reach-Inv name r) (Reach-emptied r) i mv refl h n
  Reach-emptied (later r (close mv)) h n = CloseMove-emptied mv h n

  -- In whatever order the tasks run, in every state in which `close` has joined the tasks: no listener
  -- runs, a connection that came to its end in the room is closed, and all that the table still holds are
  -- connections whose listener panicked; when `close` has returned, the table is empty.
  pub joined-clear :
      {s : System name}
      → Reach name s
      → joined s.mem.stage ≡ true
      → (n : Bytes) (i : ℕ)
      → (is_task (s.pc i) ≡ false)
        × (ended (s.pc i) ≡ true → s.mem.conn_closed i ≡ true)
        × (s.mem.table n ≡ some i → s.pc i ≡ crashed)
        × (s.mem.stage ≡ closed → s.mem.table n ≡ none)
  joined-clear {s} r h n i = (
    v.no_task i h,
    v.shut_down i,
    λ there. elim (entered_cases (s.pc i) ((Reach-InTable name r).owner n i there)) [
      | inl e ↦ absurd (ground (arith, listed-is_task (s.pc i) e, v.no_task i h))
      | inr e ↦ e
    ],
    λ over. Reach-emptied r over n,
  )
    where
      v : Inv s.mem s.pc
      v = Reach-Inv name r
