-- ===== src/Server/Node/Restored.antt =====
-- `start` opens the stored rooms.
use fernq.Prelude.{
  ◌≡◌, refl, sym, ap, ◌∙◌, subst, inl, inr, Option, none, some, List, [], ◌∷◌, Bool-cases, ok,
  ok-injective,
}
use fernq.Prelude.Bytes.{Bytes}
use fernq.Prelude.Text.{same, same-eq}
use fernq.Storage.{RoomModel, put, Among, Fjall, Bincode, StorageError, list_all_rooms}
use fernq.Storage.Listed.{Holds, IsKeyed, IsIterated, list_all_rooms-Holds, Holds-list_all_rooms}
use fernq.Server.Node.{Room, open_room, ServerNode, open_all, start_rooms}
use fernq.Server.Node.Tables.{put_same}

module _ (fjall : Fjall) (bincode : Bincode) where
  open fjall use {Keyspace, Error, contents}

  -- The table holds exactly the rooms of the disk.
  pub record IsRestored (rooms : Bytes → Option Room) (m : Bytes → Option Bytes) : Type 0 where
    pub missing : (k : Bytes) → m k ≡ none → rooms k ≡ none
    pub present :
        (k : Bytes) (room : RoomModel)
        → Holds fjall bincode m k room
        → rooms k ≡ some (open_room k room.name)

  -- Each room of the table is held by its entry.
  abbrev AreHeld : (Bytes → Option Bytes) → (Bytes → Option Room) → Type 0
  AreHeld m rooms =
      (k : Bytes) (r : Room)
      → rooms k ≡ some r
      → (room : RoomModel) × Holds fjall bincode m k room × (r ≡ open_room k room.name)

  one_room :
      (m : Bytes → Option Bytes) (k : Bytes) (a b : RoomModel)
      → Holds fjall bincode m k a
      → Holds fjall bincode m k b
      → a ≡ b
  one_room m k a b (v, at, d) (w, there, e) = cc

  none_there : {A : Type 0} (o : Option A) → ((a : A) → ¬ (o ≡ some a)) → o ≡ none
  none_there none h = refl
  none_there (some a) h = absurd (h a refl)

  put-AreHeld :
      (m : Bytes → Option Bytes) (rooms : Bytes → Option Room) (room : RoomModel)
      → Holds fjall bincode m room.id room
      → AreHeld m rooms
      → AreHeld m (put room.id (open_room room.id room.name) rooms)
  put-AreHeld m rooms room held v k r h = elim (Bool-cases (same room.id k)) [
    | inl e ↦
        let at : room.id ≡ k = same-eq room.id k e in
        let found : some (open_room room.id room.name) ≡ some r = rw e at h in
        (room, subst (λ i. Holds fjall bincode m i room) at held, cc)
    | inr e ↦ v k r (rw e at h)
  ]

  module _ (show_uuid : Bytes → Bytes) (show_error : StorageError Error → Bytes) where
    open_all-AreHeld :
        (m : Bytes → Option Bytes) (models : List RoomModel) (rooms : Bytes → Option Room)
        → ((room : RoomModel) → Among room models → Holds fjall bincode m room.id room)
        → AreHeld m rooms
        → AreHeld m (open_all fjall bincode show_uuid show_error models rooms)
    open_all-AreHeld m [] rooms held v = v
    open_all-AreHeld m (room ∷ models) rooms held v =
        open_all-AreHeld m models (put room.id (open_room room.id room.name) rooms)
          (λ other among. held other (inr among))
          (put-AreHeld m rooms room (held room (inl refl)) v)

    -- What is open stays open, under the same key.
    open_all-keeps :
        (models : List RoomModel) (rooms : Bytes → Option Room) (k : Bytes) (r : Room)
        → rooms k ≡ some r
        → (q : Room) × (open_all fjall bincode show_uuid show_error models rooms k ≡ some q)
    open_all-keeps [] rooms k r h = (r, h)
    open_all-keeps (room ∷ models) rooms k r h = elim (Bool-cases (same room.id k)) [
      | inl e ↦
          open_all-keeps models (put room.id (open_room room.id room.name) rooms) k
            (open_room room.id room.name) (rw e refl)
      | inr e ↦ open_all-keeps models (put room.id (open_room room.id room.name) rooms) k r (rw e h)
    ]

    open_all-opens :
        (models : List RoomModel) (rooms : Bytes → Option Room) (room : RoomModel)
        → Among room models
        → (q : Room) × (open_all fjall bincode show_uuid show_error models rooms room.id ≡ some q)
    open_all-opens [] rooms room k = absurd k
    open_all-opens (first ∷ models) rooms room (inl at) =
        open_all-keeps models (put first.id (open_room first.id first.name) rooms) room.id
          (open_room first.id first.name)
          (subst
            (λ (x : RoomModel).
              put first.id (open_room first.id first.name) rooms x.id
              ≡ some (open_room first.id first.name))
            (sym at) (put_same first.id (open_room first.id first.name) rooms))
    open_all-opens (first ∷ models) rooms room (inr later) = open_all-opens models _ room later

    module _ (node : ServerNode fjall bincode) (models : List RoomModel)
        (empty : node.rooms ≡ (λ k. none)) (keyed : IsKeyed fjall bincode (contents node.disk))
        (iterated : IsIterated fjall bincode node.disk)
        (listed : list_all_rooms fjall bincode node.disk ≡ ok models) where
      held_under_id :
          (room : RoomModel)
          → Among room models
          → Holds fjall bincode (contents node.disk) room.id room
      held_under_id room among =
          let (k, held) =
            list_all_rooms-Holds fjall bincode node.disk models listed iterated room among in
          subst (λ i. Holds fjall bincode (contents node.disk) i room) (sym (keyed k room held))
            held

      opened-AreHeld :
          AreHeld
            (contents node.disk)
            (open_all fjall bincode show_uuid show_error models node.rooms)
      opened-AreHeld =
          open_all-AreHeld (contents node.disk) models node.rooms held_under_id
            λ k r h. let nothing : none ≡ some r = sym (ap (λ f. f k) empty) ∙ h in absurd (cc)

      open_all-IsRestored :
          IsRestored
            (open_all fjall bincode show_uuid show_error models node.rooms)
            (contents node.disk)
      open_all-IsRestored = record {
        missing = λ k h.
            none_there _
              λ r found. let (room, (v, at, d), e) = opened-AreHeld k r found in absurd (cc);
        present = λ k room (v, at, d).
            let (model, among, d') =
              Holds-list_all_rooms fjall bincode node.disk models listed k v at in
            let same_room : model ≡ room = ok-injective d' d in
            let id_at : model.id ≡ k = keyed k model (v, at, d') in
            let (q, found) = open_all-opens models node.rooms model among in
            let found_at : open_all fjall bincode show_uuid show_error models node.rooms k
                ≡ some q =
              subst (λ i. open_all fjall bincode show_uuid show_error models node.rooms i ≡ some q)
                id_at found in
            let (other, held, e) = opened-AreHeld k q found_at in
            let same_other = one_room (contents node.disk) k other room held (v, at, d) in
            found_at ∙ ap some (e ∙ ap (λ (x : RoomModel). open_room k x.name) same_other);
      }

      -- From a node with no rooms, on a disk that can be read, where each room is under its id and an
      -- iteration meets entries only: `start` leaves exactly the stored rooms in the table, each under its
      -- id and with its name, and the disk as it was.
      pub start_rooms-IsRestored :
          ((start_rooms fjall bincode show_uuid show_error node).1.disk ≡ node.disk)
          × IsRestored
              (start_rooms fjall bincode show_uuid show_error node).1.rooms
              (contents node.disk)
      unfolding start_rooms
      start_rooms-IsRestored = rw listed (refl, open_all-IsRestored)
