-- ===== src/Server/Connection/Safety.antt =====
-- What the callers of a connection rely on.
use fernq.Prelude.{ℕ, ◌≡◌, ◌↔◌, refl, ap, ◌∙◌, true, some, arith}
use fernq.Server.Connection.{Shared, Pc, Move, close_again, System, Step, pick, Reach, later}
use fernq.Server.Connection.Invariant.{holds, has_shut, IsOrderly, Inv, Reach-Inv}

-- In whatever order the tasks run, the write half is shut down once at most, and nothing is sent after
-- that.
pub Reach-IsOrderly : {s : System} → Reach s → IsOrderly s.mem.sent
Reach-IsOrderly r = (Reach-Inv r).orderly

-- The lock is held by the task that stands between the lock and the return of `close` or `write`, and by
-- no other; so two tasks never write or shut down at once.
pub Reach-exclusive :
    {s : System}
    → Reach s
    → (i j : ℕ)
    → ((s.mem.writer ≡ some i) ↔ (holds (s.pc i) ≡ true))
      × (holds (s.pc i) ≡ true → holds (s.pc j) ≡ true → i ≡ j)
Reach-exclusive r i j = (
  ((Reach-Inv r).held i, (Reach-Inv r).holder i),
  λ h k. ground (arith, (Reach-Inv r).holder i h, (Reach-Inv r).holder j k),
)

-- One or more steps, one after the other.
pub data Later (s : System) : System → Type 0 where
  now : Later s s
  next : {t u : System} → Later s t → Step t u → Later s u

Move-silent :
    {m : Shared} {pc : ℕ → Pc} (inv : Inv m pc) (i : ℕ) {p p' : Pc} {m' : Shared}
    → Move i m p m' p'
    → pc i ≡ p
    → has_shut m.sent ≡ true
    → m'.sent ≡ m.sent
Move-silent inv i (close_again e) here h = refl
Move-silent inv i mv here h = ground (arith, inv.not_yet i, inv.shut_quiet i)

Later-Reach : {s t : System} → Reach s → Later s t → Reach t
Later-Reach r now = r
Later-Reach r (next l st) = later (Later-Reach r l) st

Step-silent :
    {s t : System}
    → Inv s.mem s.pc
    → Step s t
    → has_shut s.mem.sent ≡ true
    → t.mem.sent ≡ s.mem.sent
Step-silent inv (pick i mv) h = Move-silent inv i mv refl h

-- Once the write half is shut down, nothing is ever sent again.
pub Later-silent :
    {s t : System} → Reach s → has_shut s.mem.sent ≡ true → Later s t → t.mem.sent ≡ s.mem.sent
Later-silent r h now = refl
Later-silent r h (next l st) =
    let same_sent = Later-silent r h l in
    Step-silent (Reach-Inv (Later-Reach r l)) st (ap has_shut same_sent ∙ h) ∙ same_sent
