-- ===== src/Server/Node/Opened.antt =====
-- The rooms in the table of the node are made with the numbers of the node, so that a room has a worker for
-- every channel.
use fernq.Prelude.{
  ◌≡◌, refl, sym, ap, ◌∙◌, subst, inl, inr, ok-injective, Bool, Bool-cases, not, is_nil, Option,
  none, some, List, [], ◌∷◌, ◌++◌, Result, ok, err, panic, stuck, fail_if,
}
use fernq.Prelude.Bytes.{Bytes}
use fernq.Prelude.Text.{text, same, same-eq}
use fernq.Prelude.Action.{Post, Post-run_read, Post-run_next, Post-ok, Post-always}
use fernq.Storage.{
  RoomModel, put, delete, Fjall, Bincode, StorageError, other, create_room, find_rooms_by_name,
  list_all_rooms, delete_room, room_exists,
}
use fernq.Server.Node.{
  Room, open_room, ServerNode, with_disk, set_rooms, add_room, existence, remove_room, open_all,
  opened, start_rooms,
}
use fernq.Server.Node.Invariant.{Post-with_disk}

-- Each room stands under its id, with the numbers of the node.
abbrev pub AreOpened : (Bytes → Option Room) → Type 0
AreOpened rooms =
    (k : Bytes) (r : Room) → rooms k ≡ some r → (name : Bytes) × (r ≡ open_room k name)

some_injective : {A : Type 0} {a b : A} → some a ≡ some b → a ≡ b
some_injective h = cc

put-AreOpened :
    (id name : Bytes) (rooms : Bytes → Option Room)
    → AreOpened rooms
    → AreOpened (put id (open_room id name) rooms)
put-AreOpened id name rooms v k r h = elim (Bool-cases (same id k)) [
  | inl e ↦ (name, sym (some_injective (rw e at h)) ∙ ap (λ i. open_room i name) (same-eq id k e))
  | inr e ↦ v k r (rw e at h)
]

delete-AreOpened :
    (id : Bytes) (rooms : Bytes → Option Room) → AreOpened rooms → AreOpened (delete id rooms)
delete-AreOpened id rooms v k r h = elim (Bool-cases (same id k)) [
  | inl e ↦ let gone : none ≡ some r = rw e at h in absurd (cc)
  | inr e ↦ v k r (rw e at h)
]

module _ (fjall : Fjall) (bincode : Bincode) (show_uuid : Bytes → Bytes)
    (show_error : StorageError fjall.Error → Bytes) where
  open fjall use {Error, Keyspace}

  abbrev pub Keeps :
      {A : Type 0} → Result (StorageError Error) A × ServerNode fjall bincode → Type 0
  Keeps o = Post (λ a node. AreOpened node.rooms) (λ node. AreOpened node.rooms) o

  open_all-AreOpened :
      (models : List RoomModel) (rooms : Bytes → Option Room)
      → AreOpened rooms
      → AreOpened (open_all fjall bincode show_uuid show_error models rooms)
  open_all-AreOpened [] rooms v = v
  open_all-AreOpened (room ∷ models) rooms v =
      open_all-AreOpened models (put room.id (open_room room.id room.name) rooms)
        (put-AreOpened room.id room.name rooms v)

  with_disk-AreOpened :
      {A : Type 0} (node : ServerNode fjall bincode) (o : Result (StorageError Error) A × Keyspace)
      → AreOpened node.rooms
      → Keeps (with_disk fjall bincode show_uuid show_error node o)
  with_disk-AreOpened node o v =
      Post-with_disk fjall bincode _ _ show_uuid show_error node o
        (Post-always (λ s. Unit {0}) o tt) (λ a s u. v) (λ s u. v)

  pub add_room-AreOpened :
      (id name password : Bytes) (node : ServerNode fjall bincode)
      → AreOpened node.rooms
      → Keeps (add_room fjall bincode show_uuid show_error id name password node)
  unfolding add_room
  add_room-AreOpened id name password node v =
      Post-run_read _ _ (fail_if node.is_closed (other (text "Server node is closed"))) node _
        (λ u e0.
          Post-run_read _ _ (find_rooms_by_name fjall bincode name node.disk) node _
            (λ existing e1.
              Post-run_read _ _
                (fail_if (not (is_nil existing))
                  (other (text "Room '" ++ (name ++ text "' already exists"))))
                node _
                (λ u' e2.
                  Post-run_next _ (λ (model : RoomModel) node'. AreOpened node'.rooms) _
                    (with_disk fjall bincode show_uuid show_error node
                      (create_room fjall bincode id name password node.disk))
                    _
                    (with_disk-AreOpened node (create_room fjall bincode id name password node.disk)
                      v)
                    λ model node' w. Post-ok _ _ _ tt _ (put-AreOpened model.id name node'.rooms w))
                v)
            v)
        v

  pub remove_room-AreOpened :
      (id : Bytes) (node : ServerNode fjall bincode)
      → AreOpened node.rooms
      → Keeps (remove_room fjall bincode show_uuid show_error id node)
  unfolding remove_room
  remove_room-AreOpened id node v =
      Post-run_read _ _ (fail_if node.is_closed (other (text "Server node is closed"))) node _
        (λ u e0.
          Post-run_read _ _
            (existence fjall bincode show_uuid show_error id
              (room_exists fjall bincode id node.disk))
            node _
            (λ u' e1.
              Post-run_next _ (λ (existed : Bool) node'. AreOpened node'.rooms) _
                (with_disk fjall bincode show_uuid show_error
                  (set_rooms fjall bincode show_uuid show_error (delete id node.rooms) node)
                  (delete_room fjall bincode id node.disk))
                _
                (with_disk-AreOpened
                  (set_rooms fjall bincode show_uuid show_error (delete id node.rooms) node)
                  (delete_room fjall bincode id node.disk) (delete-AreOpened id node.rooms v))
                λ existed node' w. Post-ok _ _ _ tt _ w)
            v)
        v

  opened-AreOpened :
      (models : Result (StorageError Error) (List RoomModel)) (rooms rooms' : Bytes → Option Room)
      → AreOpened rooms
      → opened fjall bincode show_uuid show_error models rooms ≡ ok rooms'
      → AreOpened rooms'
  opened-AreOpened (ok models) rooms rooms' v h =
      subst AreOpened (ok-injective refl h) (open_all-AreOpened models rooms v)
  opened-AreOpened (err e) rooms rooms' v h = subst AreOpened (ok-injective refl h) v
  opened-AreOpened panic rooms rooms' v h = absurd (cc)
  opened-AreOpened stuck rooms rooms' v h = absurd (cc)

  pub start_rooms-AreOpened :
      (node : ServerNode fjall bincode)
      → AreOpened node.rooms
      → Keeps (start_rooms fjall bincode show_uuid show_error node)
  unfolding start_rooms
  start_rooms-AreOpened node v =
      Post-run_read _ _
        (opened fjall bincode show_uuid show_error (list_all_rooms fjall bincode node.disk)
          node.rooms)
        node _
        (λ rooms e.
          Post-ok _ _ _ tt _
            (opened-AreOpened (list_all_rooms fjall bincode node.disk) node.rooms rooms v e))
        v
