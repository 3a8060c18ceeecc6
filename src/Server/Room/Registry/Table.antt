-- ===== src/Server/Room/Registry/Table.antt =====
-- Which connections the table holds.
use native.Mathlib.Decide.{ℕ_discrete}
use fernq.Prelude.{
  ℕ, ◌≡◌, refl, sym, ap, ◌∙◌, subst, ◌⊎◌, inl, inr, Bool, true, false, Bool-cases, Option, none,
  some, arith,
}
use fernq.Prelude.Bytes.{Bytes}
use fernq.Prelude.Text.{same, same-eq, same_refl}
use fernq.Storage.{put}
use fernq.Server.Node.Tables.{put_same}
use fernq.Server.Connection.{update}
use fernq.Server.Room.Registry.{
  Table, remove_if, Pc, adding, replacing, listening, left, removed, crashed, Mem, inserted,
  is_task, Move, add_conn, insert, close_old, remove, CloseMove, close_flag, close_cancel,
  close_lock, close_join, close_clear, System, pick, close, Reach, begin, later,
}
use fernq.Server.Room.Registry.Invariant.{Inv, Reach-Inv}

-- The listener is between its insertion and its cleanup, or panicked there.
abbrev pub entered : Pc → Bool
entered (replacing old) = true
entered listening = true
entered left = true
entered crashed = true
entered p = false

-- The listener is between its insertion and its cleanup.
abbrev pub listed : Pc → Bool
listed (replacing old) = true
listed listening = true
listed left = true
listed p = false

entered-inserted : (entry : Option ℕ) → entered (inserted entry) ≡ true
entered-inserted none = refl
entered-inserted (some old) = refl

listed-inserted : (entry : Option ℕ) → listed (inserted entry) ≡ true
listed-inserted none = refl
listed-inserted (some old) = refl

pub entered_cases : (p : Pc) → entered p ≡ true → (listed p ≡ true) ⊎ (p ≡ crashed)
entered_cases (replacing old) h = inl refl
entered_cases listening h = inl refl
entered_cases left h = inl refl
entered_cases crashed h = inr refl
entered_cases p h = absurd (ground arith)

pub listed-is_task : (p : Pc) → listed p ≡ true → is_task p ≡ true
listed-is_task (replacing old) h = refl
listed-is_task listening h = refl
listed-is_task left h = refl
listed-is_task p h = ground arith

remove_if_cases :
    (n : Bytes) (i : ℕ) (table : Table) (k : Bytes) (j : ℕ)
    → remove_if n i table k ≡ some j
    → (table k ≡ some j) × (same n k ≡ true → ¬ (i ≡ j))
unfolding remove_if
remove_if_cases n i table k j h = ground arith

pub remove_if-keeps :
    (n : Bytes) (i : ℕ) (table : Table) (k : Bytes) (j : ℕ)
    → table k ≡ some j
    → ¬ (i ≡ j)
    → remove_if n i table k ≡ some j
unfolding remove_if
remove_if-keeps n i table k j h other = ground arith

put_cases :
    (n : Bytes) (i : ℕ) (table : Table) (k : Bytes) (j : ℕ)
    → put n i table k ≡ some j
    → ((same n k ≡ true) × (i ≡ j)) ⊎ ((same n k ≡ false) × (table k ≡ some j))
put_cases n i table k j h = ground arith

module _ (name : ℕ → Bytes) where
  pub record InTable (m : Mem) (pc : ℕ → Pc) : Type 0 where
    pub owner : (n : Bytes) (i : ℕ) → m.table n ≡ some i → entered (pc i) ≡ true
    pub named : (n : Bytes) (i : ℕ) → m.table n ≡ some i → name i ≡ n
    pub replaced :
        (i : ℕ)
        → listed (pc i) ≡ true
        → (m.table (name i) ≡ some i) ⊎ (m.conn_closed i ≡ true) ⊎ ((j : ℕ) × (pc j ≡ replacing i))

  module _ {m : Mem} {pc : ℕ → Pc} (inv : InTable m pc) (i : ℕ) where
    open inv use {owner, named, replaced}

    Move-owner :
        {p p' : Pc} {m' : Mem}
        → Move name i m p m' p'
        → pc i ≡ p
        → (n : Bytes) (j : ℕ) → m'.table n ≡ some j
        → entered (update pc i p' j) ≡ true
    Move-owner (add_conn e) here n j h = ground (arith, owner n j)
    Move-owner insert here n j h = elim (put_cases (name i) i m.table n j h) [
      | inl (same_name, e) ↦ ground (arith, entered-inserted (m.table (name i)))
      | inr (other_name, e) ↦ ground (arith, owner n j e, entered-inserted (m.table (name i)))
    ]
    Move-owner remove here n j h =
        let (there, other) = remove_if_cases (name i) i m.table n j h in
        let apart : ¬ (i ≡ j) = λ e.
          other (subst (λ x. same x n ≡ true) (sym (ap name e ∙ named n j there)) (same_refl n))
            e in
        ground (arith, owner n j there)
    Move-owner mv here n j h = ground (arith, owner n j)

    Move-named :
        {p p' : Pc} {m' : Mem}
        → Move name i m p m' p'
        → pc i ≡ p
        → (n : Bytes) (j : ℕ) → m'.table n ≡ some j
        → name j ≡ n
    Move-named (add_conn e) here n j h = named n j h
    Move-named insert here n j h = elim (put_cases (name i) i m.table n j h) [
      | inl (same_name, e) ↦ ap name (sym e) ∙ same-eq (name i) n same_name
      | inr (other_name, e) ↦ named n j e
    ]
    Move-named remove here n j h = named n j (remove_if_cases (name i) i m.table n j h).0
    Move-named mv here n j h = named n j h

    still_replacing :
        (p' : Pc) (j : ℕ)
        → ¬ (pc i ≡ replacing j)
        → (k : ℕ) × (pc k ≡ replacing j)
        → (k : ℕ) × (update pc i p' k ≡ replacing j)
    still_replacing p' j h (k, e) = (k, ground (arith, ap pc))

    carry :
        (p' : Pc) (m' : Mem) (j : ℕ)
        → (m.table (name j) ≡ some j → m'.table (name j) ≡ some j)
        → (m.conn_closed j ≡ true → m'.conn_closed j ≡ true)
        → ¬ (pc i ≡ replacing j)
        → (m.table (name j) ≡ some j) ⊎ (m.conn_closed j ≡ true) ⊎ ((k : ℕ) × (pc k ≡ replacing j))
        → (m'.table (name j) ≡ some j)
          ⊎ (m'.conn_closed j ≡ true)
          ⊎ ((k : ℕ) × (update pc i p' k ≡ replacing j))
    carry p' m' j t c r (inl h) = inl (t h)
    carry p' m' j t c r (inr (inl h)) = inr (inl (c h))
    carry p' m' j t c r (inr (inr h)) = inr (inr (still_replacing p' j r h))

    Move-replaced :
        {p p' : Pc} {m' : Mem}
        → Move name i m p m' p'
        → pc i ≡ p
        → (j : ℕ) → listed (update pc i p' j) ≡ true
        → (m'.table (name j) ≡ some j)
          ⊎ (m'.conn_closed j ≡ true)
          ⊎ ((k : ℕ) × (update pc i p' k ≡ replacing j))
    Move-replaced (add_conn e) here j h =
        carry adding m j (λ t. t) (λ c. c) (ground arith) (replaced j (ground arith))
    Move-replaced insert here j h = elim (ℕ_discrete i j) [
      | yes e ↦
          inl
            (subst (λ k. put (name i) i m.table (name k) ≡ some k) e (put_same (name i) i m.table))
      | no apart ↦ elim (replaced j (ground arith)) [
        | inl t ↦ elim (Bool-cases (same (name i) (name j))) [
          | inl e ↦
              let old_entry : m.table (name i) ≡ some j =
                ap m.table (same-eq (name i) (name j) e) ∙ t in
              inr (inr (i, ground (arith, ap inserted old_entry)))
          | inr e ↦ inl (rw e t)
        ]
        | inr (inl c) ↦ inr (inl c)
        | inr (inr w) ↦ inr (inr (still_replacing (inserted (m.table (name i))) j (ground arith) w))
      ]
    ]
    Move-replaced remove here j h =
        let apart : ¬ (i ≡ j) = ground arith in
        carry removed (record m { table = remove_if (name i) i m.table }) j
          (λ t. remove_if-keeps (name i) i m.table (name j) j t apart) (λ c. c) (ground arith)
          (replaced j (ground arith))
    Move-replaced close_old here j h = elim (replaced j (ground arith)) [
      | inl t ↦ inl t
      | inr (inl c) ↦ inr (inl (ground arith))
      | inr (inr (k, e)) ↦ elim (ℕ_discrete i k) [
        | yes same_task ↦ inr (inl (ground arith))
        | no apart ↦ inr (inr (k, ground arith))
      ]
    ]
    Move-replaced {p' = p'} {m' = m'} mv here j h =
        carry p' m' j (λ t. t) (λ c. ground arith) (ground arith) (replaced j (ground arith))

  Move-InTable :
      {m : Mem} {pc : ℕ → Pc}
      → InTable m pc
      → (i : ℕ) {m' : Mem} {p' : Pc} → Move name i m (pc i) m' p'
      → InTable m' (update pc i p')
  Move-InTable inv i mv = record {
    owner = Move-owner inv i mv refl;
    named = Move-named inv i mv refl;
    replaced = Move-replaced inv i mv refl;
  }

  same_table :
      {m m' : Mem} {pc : ℕ → Pc}
      → InTable m pc
      → m'.table ≡ m.table
      → m'.conn_closed ≡ m.conn_closed
      → InTable m' pc
  same_table {m' = m'} {pc = pc} inv t c = record {
    owner = λ n i h. inv.owner n i (rw t at h);
    named = λ n i h. inv.named n i (rw t at h);
    replaced = λ i h. rw (t, c) (inv.replaced i h);
  }

  -- `clear` comes when no task is left.
  CloseMove-InTable :
      {m m' : Mem} {pc : ℕ → Pc} → Inv m pc → InTable m pc → CloseMove name m pc m' → InTable m' pc
  CloseMove-InTable v inv (close_flag e) = same_table inv refl refl
  CloseMove-InTable v inv (close_cancel e) = same_table inv refl refl
  CloseMove-InTable v inv (close_lock e free) = same_table inv refl refl
  CloseMove-InTable v inv (close_join e over) = same_table inv refl refl
  CloseMove-InTable {pc} v inv (close_clear e) = record {
    owner = λ n i h. cc;
    named = λ n i h. cc;
    replaced = λ i h. absurd (ground (arith, listed-is_task (pc i) h, v.no_task i (rw e refl)));
  }

  pub Reach-InTable : {s : System name} → Reach name s → InTable s.mem s.pc
  Reach-InTable begin = record { owner = λ n i h. cc; named = λ n i h. cc; replaced = λ i h. cc }
  Reach-InTable (later r (pick i mv)) = Move-InTable (Reach-InTable r) i mv
  Reach-InTable (later r (close mv)) = CloseMove-InTable (Reach-Inv name r) (Reach-InTable r) mv
