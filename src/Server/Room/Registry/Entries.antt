-- ===== src/Server/Room/Registry/Entries.antt =====
-- Which connection stands in the table under a name.
use native.Mathlib.Decide.{ℕ_discrete}
use fernq.Prelude.{ℕ, ◌≡◌, ◌≢◌, refl, ap, ◌∙◌, arith, ◌⊎◌, inl, inr, true, Bool-cases, some}
use fernq.Prelude.Bytes.{Bytes}
use fernq.Prelude.Text.{same, same-eq}
use fernq.Server.Room.Registry.{
  Pc, replacing, starting, left, crashed, closed, Mem, Move, add_conn, insert, remove, CloseMove,
  close_flag, close_cancel, close_lock, close_join, close_clear, System, Step, pick, close, Reach,
}
use fernq.Server.Room.Registry.Table.{listed, entered_cases, remove_if-keeps, Reach-InTable}

-- In whatever order the tasks run: what the table holds under a name is a connection of that name whose
-- listener is between its insertion and its cleanup, or panicked there, and a connection whose listener
-- is there is in the table under its name, or it is closed, or the listener of the connection that took
-- its place is about to close it.
pub Reach-newest :
    (name : ℕ → Bytes) {s : System name}
    → Reach name s
    → (n : Bytes) (i : ℕ)
    → (s.mem.table n ≡ some i → ((listed (s.pc i) ≡ true) ⊎ (s.pc i ≡ crashed)) × (name i ≡ n))
      × (listed (s.pc i) ≡ true
          → (s.mem.table (name i) ≡ some i)
            ⊎ (s.mem.conn_closed i ≡ true)
            ⊎ ((j : ℕ) × (s.pc j ≡ replacing i)))
Reach-newest name {s} r n i =
    let v = Reach-InTable name r in
    (λ h. (entered_cases (s.pc i) (v.owner n i h), v.named n i h), v.replaced i)

-- An entry of the table outlasts whatever any task of a connection does, but for two cases: its own
-- listener cleans up, or a connection of the same name is inserted. The cleanup of a connection that
-- lost its name to a newer one does not remove the newer one.
pub Move-kept :
    (name : ℕ → Bytes) (m : Mem) (n : Bytes) (i j : ℕ) {p p' : Pc} {m' : Mem}
    → Move name i m p m' p'
    → m.table n ≡ some j
    → (m'.table n ≡ some j)
      ⊎ ((i ≡ j) × (p ≡ left))
      ⊎ ((name i ≡ n) × (p ≡ starting) × (m'.table n ≡ some i))
Move-kept name m n i j (add_conn e) there = inl there
Move-kept name m n i j insert there = elim (Bool-cases (same (name i) n)) [
  | inl e ↦ inr (inr (same-eq (name i) n e, refl, rw e refl))
  | inr e ↦ inl (rw e there)
]
Move-kept name m n i j remove there = elim (ℕ_discrete i j) [
  | yes e ↦ inr (inl (e, refl))
  | no apart ↦ inl (remove_if-keeps (name i) i m.table n j there apart)
]
Move-kept name m n i j mv there = inl there

-- Nothing is left that would clean up.
CloseMove-kept :
    (name : ℕ → Bytes) (m : Mem) (pc : ℕ → Pc) (n : Bytes) (j : ℕ) {m' : Mem}
    → CloseMove name m pc m'
    → m.table n ≡ some j
    → (m'.table n ≡ some j) ⊎ (m'.stage ≡ closed)
CloseMove-kept name m pc n j (close_flag e) there = inl there
CloseMove-kept name m pc n j (close_cancel e) there = inl there
CloseMove-kept name m pc n j (close_lock e free) there = inl there
CloseMove-kept name m pc n j (close_join e over) there = inl there
CloseMove-kept name m pc n j (close_clear e) there = inr refl

-- A listener that panicked makes no move.
Move-ne-crashed :
    (name : ℕ → Bytes) (m : Mem) (i : ℕ) {p p' : Pc} {m' : Mem}
    → Move name i m p m' p'
    → p ≢ crashed
Move-ne-crashed name m i (add_conn e) h = cc
Move-ne-crashed name m i mv h = cc

Step-crashed :
    (name : ℕ → Bytes) {s t : System name} (j : ℕ)
    → Step name s t
    → s.pc j ≡ crashed
    → t.pc j ≡ crashed
Step-crashed name {s} j (pick i {p = p} mv) h =
    let apart : ¬ (i ≡ j) = λ e. Move-ne-crashed name s.mem i mv (ap s.pc e ∙ h) in ground arith
Step-crashed name j (close mv) h = h

-- The connection whose listener panicked stays in the table under its name after every further step,
-- though it never gets a listener again, but for two cases: the step inserts a connection of the same
-- name, which has the entry then, or `close` of the room has cleared the table.
pub Step-abandoned :
    (name : ℕ → Bytes) {s t : System name} (n : Bytes) (j : ℕ)
    → Step name s t
    → s.mem.table n ≡ some j
    → s.pc j ≡ crashed
    → (t.pc j ≡ crashed)
      × ((t.mem.table n ≡ some j)
          ⊎ (t.mem.stage ≡ closed)
          ⊎ ((i : ℕ) × (name i ≡ n) × (s.pc i ≡ starting) × (t.mem.table n ≡ some i)))
Step-abandoned name {s} n j (pick i mv) there h = (
  Step-crashed name {s = s} j (pick i mv) h,
  elim (Move-kept name s.mem n i j mv there) [
    | inl kept ↦ inl kept
    | inr (inl (e, leaving)) ↦ absurd (cc)
    | inr (inr (same_name, e, taken)) ↦ inr (inr (i, same_name, e, taken))
  ],
)
Step-abandoned name {s} n j (close mv) there h = (
  h,
  elim (CloseMove-kept name s.mem s.pc n j mv there) [
    | inl kept ↦ inl kept
    | inr over ↦ inr (inl over)
  ],
)
