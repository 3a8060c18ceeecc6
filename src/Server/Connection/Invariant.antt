-- ===== src/Server/Connection/Invariant.antt =====
-- What holds of a connection in every order of its tasks.
use fernq.Prelude.{ℕ, ◌≡◌, refl, Bool, true, false, none, some, List, [], ◌∷◌, arith}
use fernq.Server.Connection.{
  Output, wrote, shut, Shared, Pc, ready, close_locking, close_cancelling, close_shutting,
  write_locking, write_checking, write_writing, Move, close_again, close_first, close_lock,
  write_lock, write_go, update, System, pick, init, Reach, start, later,
}

-- The task has the lock.
abbrev pub holds : Pc → Bool
holds (ready a) = false
holds close_locking = false
holds close_cancelling = true
holds close_shutting = true
holds (write_locking bytes) = false
holds (write_checking bytes) = true
holds (write_writing bytes) = true

-- The task is past the swap of `close`.
abbrev pub closing : Pc → Bool
closing close_locking = true
closing close_cancelling = true
closing close_shutting = true
closing p = false

abbrev pub shutting : Pc → Bool
shutting close_shutting = true
shutting p = false

abbrev pub writing : Pc → Bool
writing (write_writing bytes) = true
writing p = false

abbrev pub has_shut : List Output → Bool
has_shut [] = false
has_shut (wrote bytes ∷ sent) = has_shut sent
has_shut (shut ∷ sent) = true

-- Nothing was sent after a shutdown, and there was one shutdown at most.
abbrev pub IsOrderly : List Output → Type 0
IsOrderly [] = Unit {0}
IsOrderly (o ∷ sent) = has_shut sent ≡ false

pub record Inv (m : Shared) (pc : ℕ → Pc) : Type 0 where
  pub holder : (i : ℕ) → holds (pc i) ≡ true → m.writer ≡ some i
  pub held : (i : ℕ) → m.writer ≡ some i → holds (pc i) ≡ true
  pub told : (i : ℕ) → shutting (pc i) ≡ true → m.cancelled ≡ true
  pub one_closer : (i j : ℕ) → closing (pc i) ≡ true → closing (pc j) ≡ true → i ≡ j
  pub closer_closed : (i : ℕ) → closing (pc i) ≡ true → m.closed ≡ true
  pub not_yet : (i : ℕ) → closing (pc i) ≡ true → has_shut m.sent ≡ false
  pub shut_closed : has_shut m.sent ≡ true → m.closed ≡ true
  pub shut_cancelled : has_shut m.sent ≡ true → m.cancelled ≡ true
  pub shut_quiet : (i : ℕ) → has_shut m.sent ≡ true → writing (pc i) ≡ false
  pub orderly : IsOrderly m.sent

-- The test of a move, for the clauses that do not name it.
abbrev Guard : {i : ℕ} {m m' : Shared} {p p' : Pc} → Move i m p m' p' → Type 0
Guard {m} (close_first e) = m.closed ≡ false
Guard {m} (close_lock e) = m.writer ≡ none
Guard {m} (write_lock e) = m.writer ≡ none
Guard {m} (write_go e) = m.cancelled ≡ false
Guard mv = Unit {0}

guard : {i : ℕ} {m m' : Shared} {p p' : Pc} (mv : Move i m p m' p') → Guard mv
guard (close_first e) = e
guard (close_lock e) = e
guard (write_lock e) = e
guard (write_go e) = e
guard mv = tt

module _ {m : Shared} {pc : ℕ → Pc} (inv : Inv m pc) (i : ℕ) where
  open inv use {
    holder, held, told, one_closer, closer_closed, not_yet, shut_closed, shut_cancelled, shut_quiet,
    orderly,
  }

  Move-holder :
      {p p' : Pc} {m' : Shared}
      → Move i m p m' p'
      → pc i ≡ p
      → (j : ℕ) → holds (update pc i p' j) ≡ true
      → m'.writer ≡ some j
  Move-holder (close_again e) here j h = ground (arith, holder j, holder i)
  Move-holder mv here j h = ground (arith, guard mv, holder j, holder i)

  Move-held :
      {p p' : Pc} {m' : Shared}
      → Move i m p m' p'
      → pc i ≡ p
      → (j : ℕ) → m'.writer ≡ some j
      → holds (update pc i p' j) ≡ true
  Move-held (close_again e) here j h = ground (arith, held j)
  Move-held mv here j h = ground (arith, guard mv, held j, holder i)

  Move-told :
      {p p' : Pc} {m' : Shared}
      → Move i m p m' p'
      → pc i ≡ p
      → (j : ℕ) → shutting (update pc i p' j) ≡ true
      → m'.cancelled ≡ true
  Move-told (close_again e) here j h = ground (arith, told j)
  Move-told mv here j h = ground (arith, guard mv, told j)

  Move-one_closer :
      {p p' : Pc} {m' : Shared}
      → Move i m p m' p'
      → pc i ≡ p
      → (a b : ℕ) → closing (update pc i p' a) ≡ true
      → closing (update pc i p' b) ≡ true
      → a ≡ b
  Move-one_closer (close_again e) here a b h k =
      ground
        (arith, one_closer a b, one_closer i a, one_closer i b, closer_closed a, closer_closed b)
  Move-one_closer mv here a b h k = ground (
    arith,
    guard mv,
    one_closer a b,
    one_closer i a,
    one_closer i b,
    closer_closed a,
    closer_closed b,
  )

  Move-closer_closed :
      {p p' : Pc} {m' : Shared}
      → Move i m p m' p'
      → pc i ≡ p
      → (j : ℕ) → closing (update pc i p' j) ≡ true
      → m'.closed ≡ true
  Move-closer_closed (close_again e) here j h = ground (arith, closer_closed j, closer_closed i)
  Move-closer_closed mv here j h = ground (arith, guard mv, closer_closed j, closer_closed i)

  Move-not_yet :
      {p p' : Pc} {m' : Shared}
      → Move i m p m' p'
      → pc i ≡ p
      → (j : ℕ) → closing (update pc i p' j) ≡ true
      → has_shut m'.sent ≡ false
  Move-not_yet (close_again e) here j h =
      ground (arith, not_yet j, not_yet i, one_closer i j, shut_closed)
  Move-not_yet mv here j h =
      ground (arith, guard mv, not_yet j, not_yet i, one_closer i j, shut_closed)

  Move-shut_closed :
      {p p' : Pc} {m' : Shared}
      → Move i m p m' p'
      → pc i ≡ p
      → has_shut m'.sent ≡ true
      → m'.closed ≡ true
  Move-shut_closed (close_again e) here h = ground (arith, shut_closed, closer_closed i)
  Move-shut_closed mv here h = ground (arith, guard mv, shut_closed, closer_closed i)

  Move-shut_cancelled :
      {p p' : Pc} {m' : Shared}
      → Move i m p m' p'
      → pc i ≡ p
      → has_shut m'.sent ≡ true
      → m'.cancelled ≡ true
  Move-shut_cancelled (close_again e) here h = ground (arith, shut_cancelled, told i)
  Move-shut_cancelled mv here h = ground (arith, guard mv, shut_cancelled, told i)

  Move-shut_quiet :
      {p p' : Pc} {m' : Shared}
      → Move i m p m' p'
      → pc i ≡ p
      → (j : ℕ) → has_shut m'.sent ≡ true
      → writing (update pc i p' j) ≡ false
  Move-shut_quiet (close_again e) here j h =
      ground (arith, shut_quiet j, shut_quiet i, shut_cancelled, holder i, holder j)
  Move-shut_quiet mv here j h =
      ground (arith, guard mv, shut_quiet j, shut_quiet i, shut_cancelled, holder i, holder j)

  Move-IsOrderly : {p p' : Pc} {m' : Shared} → Move i m p m' p' → pc i ≡ p → IsOrderly m'.sent
  Move-IsOrderly (close_again e) here = ground (arith, orderly, shut_quiet i, not_yet i)
  Move-IsOrderly mv here = ground (arith, guard mv, orderly, shut_quiet i, not_yet i)

-- Every step keeps the invariant.
Move-Inv :
    {m : Shared} {pc : ℕ → Pc}
    → Inv m pc
    → (i : ℕ) {m' : Shared} {p' : Pc} → Move i m (pc i) m' p'
    → Inv m' (update pc i p')
Move-Inv inv i mv = record {
  holder = Move-holder inv i mv refl;
  held = Move-held inv i mv refl;
  told = Move-told inv i mv refl;
  one_closer = Move-one_closer inv i mv refl;
  closer_closed = Move-closer_closed inv i mv refl;
  not_yet = Move-not_yet inv i mv refl;
  shut_closed = Move-shut_closed inv i mv refl;
  shut_cancelled = Move-shut_cancelled inv i mv refl;
  shut_quiet = Move-shut_quiet inv i mv refl;
  orderly = Move-IsOrderly inv i mv refl;
}

Inv-init : Inv init.mem init.pc
Inv-init = record {
  holder = λ i h. cc;
  held = λ i h. cc;
  told = λ i h. cc;
  one_closer = λ i j h k. cc;
  closer_closed = λ i h. cc;
  not_yet = λ i h. cc;
  shut_closed = λ h. cc;
  shut_cancelled = λ h. cc;
  shut_quiet = λ i h. cc;
  orderly = tt;
}

pub Reach-Inv : {s : System} → Reach s → Inv s.mem s.pc
Reach-Inv start = Inv-init
Reach-Inv (later r (pick i mv)) = Move-Inv (Reach-Inv r) i mv
