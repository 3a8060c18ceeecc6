-- ===== src/Server/Node/Kept.antt =====
-- Nodes whose table holds exactly the stored rooms.
use fernq.Prelude.{
  ◌≡◌, refl, sym, ◌∙◌, subst, fun_ext, inl, inr, Option, none, some, Bool, Bool-cases, ok,
}
use fernq.Prelude.Bytes.{Bytes}
use fernq.Prelude.Text.{same, same-eq}
use fernq.Storage.{RoomModel, put, delete, Fjall, Bincode, from_bytes}
use fernq.Storage.Saved.{IsDeleted}
use fernq.Storage.Listed.{IsKeyed}
use fernq.Server.Node.{Room, open_room, ServerNode}
use fernq.Server.Node.Restored.{IsRestored}

module _ (fjall : Fjall) (bincode : Bincode) where
  open fjall use {Keyspace, Error, contents}

  -- The table holds exactly the stored rooms, each of them under its id.
  pub record IsKept (rooms : Bytes → Option Room) (m : Bytes → Option Bytes) : Type 0 where
    pub restored : IsRestored fjall bincode rooms m
    pub keyed : IsKeyed fjall bincode m

  pub saved-IsKept :
      (rooms : Bytes → Option Room) (m : Bytes → Option Bytes) (room : RoomModel) (bytes : Bytes)
      → from_bytes fjall bincode bytes ≡ ok room
      → IsKept rooms m
      → IsKept (put room.id (open_room room.id room.name) rooms) (put room.id bytes m)
  saved-IsKept rooms m room bytes d v = record {
    restored = record {
      missing = λ k h. elim (Bool-cases (same room.id k)) [
        | inl e ↦ let no : some bytes ≡ none = rw e at h in absurd (cc)
        | inr e ↦ let h' : m k ≡ none = rw e at h in rw e (v.restored.missing k h')
      ];
      present = λ k other (w, at, d'). elim (Bool-cases (same room.id k)) [
        | inl e ↦
            let id_at : room.id ≡ k = same-eq room.id k e in
            let same_bytes : some bytes ≡ some w = rw e at at in
            let same_room : room ≡ other = cc in rw e (cc)
        | inr e ↦
            let at' : m k ≡ some w = rw e at at in rw e (v.restored.present k other (w, at', d'))
      ];
    };
    keyed = λ k other (w, at, d'). elim (Bool-cases (same room.id k)) [
      | inl e ↦
          let id_at : room.id ≡ k = same-eq room.id k e in
          let same_bytes : some bytes ≡ some w = rw e at at in cc
      | inr e ↦ let at' : m k ≡ some w = rw e at at in v.keyed k other (w, at', d')
    ];
  }

  deleted-IsKept :
      (rooms : Bytes → Option Room) (m : Bytes → Option Bytes) (id : Bytes)
      → IsKept rooms m
      → IsKept (delete id rooms) (delete id m)
  deleted-IsKept rooms m id v = record {
    restored = record {
      missing = λ k h. elim (Bool-cases (same id k)) [
        | inl e ↦ rw e refl
        | inr e ↦ let h' : m k ≡ none = rw e at h in rw e (v.restored.missing k h')
      ];
      present = λ k other (w, at, d'). elim (Bool-cases (same id k)) [
        | inl e ↦ let no : none ≡ some w = rw e at at in absurd (cc)
        | inr e ↦
            let at' : m k ≡ some w = rw e at at in rw e (v.restored.present k other (w, at', d'))
      ];
    };
    keyed = λ k other (w, at, d'). elim (Bool-cases (same id k)) [
      | inl e ↦ let no : none ≡ some w = rw e at at in absurd (cc)
      | inr e ↦ let at' : m k ≡ some w = rw e at at in v.keyed k other (w, at', d')
    ];
  }

  delete_nothing : (m : Bytes → Option Bytes) (id : Bytes) → m id ≡ none → delete id m ≡ m
  delete_nothing m id h = fun_ext λ k. elim (Bool-cases (same id k)) [
    | inl e ↦ let id_at : id ≡ k = same-eq id k e in rw e (sym (subst (λ i. m i ≡ none) id_at h))
    | inr e ↦ rw e refl
  ]

  -- The table of a node and its disk.
  abbrev pub IsKeptNode : ServerNode fjall bincode → Type 0
  IsKeptNode node = IsKept node.rooms (contents node.disk)

  pub removed-IsKept :
      (node : ServerNode fjall bincode) (id : Bytes) (existed : Bool) (s : Keyspace)
      → IsKeptNode node
      → IsDeleted fjall bincode id node.disk existed s
      → IsKept (delete id node.rooms) (contents s)
  removed-IsKept node id existed s v (inl (t, gone)) =
      subst (λ m. IsKept (delete id node.rooms) m) (sym gone)
        (deleted-IsKept node.rooms (contents node.disk) id v)
  removed-IsKept node id existed s v (inr (f, missing, same_disk)) =
      subst (λ m. IsKept (delete id node.rooms) m)
        (delete_nothing (contents node.disk) id missing ∙ sym same_disk)
        (deleted-IsKept node.rooms (contents node.disk) id v)
