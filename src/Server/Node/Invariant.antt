-- ===== src/Server/Node/Invariant.antt =====
-- What holds of a node between its operations.
use fernq.Prelude.{
  is_nil, ◌≡◌, refl, sym, ap, ◌∙◌, subst, inl, inr, Bool, not, Option, none, some, List, [], ◌∷◌,
  ◌++◌, Result, ok, err, panic, stuck, fail_if,
}
use fernq.Prelude.Bytes.{Bytes}
use fernq.Prelude.Text.{text}
use fernq.Prelude.Action.{Post, Post-run_next, Post-run_read, Post-ok}
use fernq.Storage.{
  RoomModel, put, delete, Fjall, Bincode, StorageError, other, create_room, find_rooms_by_name,
  delete_room, room_exists, new_model,
}
use fernq.Storage.Saved.{IsSaved, create_room_lem, delete_room_lem}
use fernq.Storage.Names.{
  HasUniqueNames, IsUnused, find_rooms_by_name-IsUnused, HasUniqueNames-put, HasUniqueNames-delete,
}
use fernq.Server.Node.Tables.{
  IsWithin, put_same, delete_same, put-IsWithin, put-put-IsWithin, delete-IsWithin,
  delete-delete-IsWithin,
}
use fernq.Server.Node.{
  Room, open_room, ServerNode, with_disk, set_rooms, existence, add_room, remove_room,
}

module _ (fjall : Fjall) (bincode : Bincode) where
  open fjall use {Keyspace, Error, contents}

  -- Stored names are unique, and every open room is stored.
  pub record IsSound (node : ServerNode fjall bincode) : Type 0 where
    pub names : HasUniqueNames fjall bincode (contents node.disk)
    pub stored : IsWithin node.rooms (contents node.disk)

  pub Post-with_disk :
      {A : Type 0} {Q : A → Keyspace → Type 0} {K : Keyspace → Type 0}
      (R : A → ServerNode fjall bincode → Type 0) (J' : ServerNode fjall bincode → Type 0)
      (show_uuid : Bytes → Bytes) (show_error : StorageError Error → Bytes)
      (node : ServerNode fjall bincode) (o : Result (StorageError Error) A × Keyspace)
      → Post Q K o
      → ((a : A) (s : Keyspace)
          → Q a s
          → R a (record { rooms = node.rooms; disk = s; is_closed = node.is_closed }))
      → ((s : Keyspace)
          → K s
          → J' (record { rooms = node.rooms; disk = s; is_closed = node.is_closed }))
      → Post R J' (with_disk fjall bincode show_uuid show_error node o)
  unfolding Post
  Post-with_disk R J' u e node (ok a, s) h f g = f a s h
  Post-with_disk R J' u e node (err x, s) h f g = g s h
  Post-with_disk R J' u e node (panic, s) h f g = g s h
  Post-with_disk R J' u e node (stuck, s) h f g = g s h

  -- The node with other rooms on the disk, or in the table too.
  abbrev pub with_state : (Bytes → Option Room) → Keyspace → Bool → ServerNode fjall bincode
  with_state rooms disk is_closed = record { rooms = rooms; disk = disk; is_closed = is_closed }

  saved-IsSound :
      (node : ServerNode fjall bincode) (room : RoomModel) (r : Room) (s : Keyspace)
      → IsSound node
      → IsUnused fjall bincode room.name (contents node.disk)
      → IsSaved fjall bincode room node.disk s
      → IsSound (with_state node.rooms s node.is_closed)
        × IsSound (with_state (put room.id r node.rooms) s node.is_closed)
  saved-IsSound node room r s sound free (bytes, d, e) =
      let names : HasUniqueNames fjall bincode (contents s) =
        subst (λ m. HasUniqueNames fjall bincode m) (sym e)
          (HasUniqueNames-put fjall bincode (contents node.disk) bytes room sound.names free d) in
      (
        record {
          names = names;
          stored =
              subst (λ m. IsWithin node.rooms m) (sym e)
                (put-IsWithin room.id bytes node.rooms (contents node.disk) sound.stored);
        },
        record {
          names = names;
          stored =
              subst (λ m. IsWithin (put room.id r node.rooms) m) (sym e)
                (put-put-IsWithin room.id r bytes node.rooms (contents node.disk) sound.stored);
        },
      )

  kept-IsSound :
      (node : ServerNode fjall bincode) (s : Keyspace)
      → IsSound node
      → contents s ≡ contents node.disk
      → IsSound (with_state node.rooms s node.is_closed)
  kept-IsSound node s sound e = record {
    names = subst (λ m. HasUniqueNames fjall bincode m) (sym e) sound.names;
    stored = subst (λ m. IsWithin node.rooms m) (sym e) sound.stored;
  }

  closed_room-IsSound :
      (node : ServerNode fjall bincode) (id : Bytes)
      → IsSound node
      → IsSound (with_state (delete id node.rooms) node.disk node.is_closed)
  closed_room-IsSound node id sound = record {
    names = sound.names;
    stored = delete-IsWithin id node.rooms (contents node.disk) sound.stored;
  }

  deleted-IsSound :
      (node : ServerNode fjall bincode) (id : Bytes) (s : Keyspace)
      → IsSound node
      → contents s ≡ delete id (contents node.disk)
      → IsSound (with_state (delete id node.rooms) s node.is_closed)
  deleted-IsSound node id s sound e = record {
    names =
        subst (λ m. HasUniqueNames fjall bincode m) (sym e)
          (HasUniqueNames-delete fjall bincode (contents node.disk) id sound.names);
    stored =
        subst (λ m. IsWithin (delete id node.rooms) m) (sym e)
          (delete-delete-IsWithin id node.rooms (contents node.disk) sound.stored);
  }

  module _ (show_uuid : Bytes → Bytes) (show_error : StorageError Error → Bytes) where
    none_existing :
        (rooms : List RoomModel) (e : StorageError Error)
        → fail_if (not (is_nil rooms)) e ≡ ok tt
        → rooms ≡ []
    none_existing [] e h = refl
    none_existing (r ∷ rs) e h = cc

    -- The room is open, and on the disk with its name and password, under a name that was not in use.
    pub record IsAdded (id name password : Bytes) (node node' : ServerNode fjall bincode)
        : Type 0 where
      pub sound : IsSound node'
      pub in_table : node'.rooms id ≡ some (open_room id name)
      pub saved :
          IsSaved fjall bincode (new_model fjall bincode id name password) node.disk node'.disk
      pub unused : IsUnused fjall bincode name (contents node.disk)

    room_opened :
        (id name password : Bytes) (node node' : ServerNode fjall bincode) (model : RoomModel)
        (s : Keyspace)
        → IsSound node
        → IsUnused fjall bincode name (contents node.disk)
        → node' ≡ with_state node.rooms s node.is_closed
        → model ≡ new_model fjall bincode id name password
        → IsSaved fjall bincode (new_model fjall bincode id name password) node.disk s
        → IsAdded id name password node (
            set_rooms fjall bincode show_uuid show_error
              (put model.id (open_room model.id name) node'.rooms)
              node')
    room_opened id name password node node' model s sound free at m saved =
        subst
          (λ (x : RoomModel). IsAdded id name password node (
            set_rooms fjall bincode show_uuid show_error
              (put x.id (open_room x.id name) node'.rooms) node'))
          (sym m)
          (subst
            (λ (y : ServerNode fjall bincode).
              IsAdded id name password node (
                set_rooms fjall bincode show_uuid show_error (put id (open_room id name) y.rooms)
                  y))
            (sym at)
            (record {
              sound =
                  (saved-IsSound node (new_model fjall bincode id name password) (open_room id name)
                    s sound free saved).1;
              in_table = put_same id (open_room id name) node.rooms;
              saved = saved;
              unused = free;
            }))

    -- `add_room` keeps the node sound, whatever it returns; when it succeeds, the room is open, and it
    -- is on the disk with its name and password, under a name that no stored room had.
    pub add_room-IsSound :
        (id name password : Bytes) (node : ServerNode fjall bincode)
        → IsSound node
        → Post
            (λ u node'. IsAdded id name password node node')
            IsSound
            (add_room fjall bincode show_uuid show_error id name password node)
    unfolding add_room
    add_room-IsSound id name password node sound =
        let room : RoomModel = new_model fjall bincode id name password in
        Post-run_read _ IsSound (fail_if node.is_closed (other (text "Server node is closed"))) node
          _
          (λ u e0.
            Post-run_read _ IsSound (find_rooms_by_name fjall bincode name node.disk) node _
              (λ existing e1.
                Post-run_read _ IsSound
                  (fail_if (not (is_nil existing))
                    (other (text "Room '" ++ (name ++ text "' already exists"))))
                  node _
                  (λ u' e2.
                    let free : IsUnused fjall bincode name (contents node.disk) =
                      find_rooms_by_name-IsUnused fjall bincode name node.disk
                        (e1 ∙ ap ok (none_existing existing _ e2)) in
                    Post-run_next _
                      (λ (model : RoomModel) node'.
                        (s : Keyspace) × (node' ≡ with_state node.rooms s node.is_closed)
                        × (model ≡ room)
                        × IsSaved fjall bincode room node.disk s)
                      IsSound
                      (with_disk fjall bincode show_uuid show_error node
                        (create_room fjall bincode id name password node.disk))
                      _
                      (Post-with_disk _ IsSound show_uuid show_error node _
                        (create_room_lem fjall bincode id name password node.disk)
                        (λ model s (m, saved). (s, refl, m, saved))
                        (λ s either. elim either [
                          | inl saved ↦
                              (saved-IsSound node room (open_room id name) s sound free saved).0
                          | inr kept ↦ kept-IsSound node s sound kept
                        ]))
                      λ model node' (s, at, m, saved).
                        Post-ok _ _ _ tt _
                          (room_opened id name password node node' model s sound free at m saved))
                  sound)
              sound)
          sound

    -- `remove_room` keeps the node sound, whatever it returns; when it succeeds, the room is neither in
    -- the table nor on the disk.
    pub remove_room-IsSound :
        (id : Bytes) (node : ServerNode fjall bincode)
        → IsSound node
        → Post
            (λ u node'. IsSound node' × (node'.rooms id ≡ none) × (contents node'.disk id ≡ none))
            IsSound
            (remove_room fjall bincode show_uuid show_error id node)
    unfolding remove_room
    remove_room-IsSound id node sound =
        Post-run_read _ IsSound (fail_if node.is_closed (other (text "Server node is closed"))) node
          _
          (λ u e0.
            Post-run_read _ IsSound
              (existence fjall bincode show_uuid show_error id
                (room_exists fjall bincode id node.disk))
              node _
              (λ u' e1.
                Post-run_next _
                  (λ (existed : Bool) node'.
                    IsSound node' × (node'.rooms id ≡ none) × (contents node'.disk id ≡ none))
                  IsSound
                  (with_disk fjall bincode show_uuid show_error
                    (with_state (delete id node.rooms) node.disk node.is_closed)
                    (delete_room fjall bincode id node.disk))
                  _
                  (Post-with_disk _ IsSound show_uuid show_error
                    (with_state (delete id node.rooms) node.disk node.is_closed) _
                    (delete_room_lem fjall bincode id node.disk)
                    (λ existed s gone. elim gone [
                      | inl (e, deleted) ↦ (
                        deleted-IsSound node id s sound deleted,
                        delete_same id node.rooms,
                        ap (λ m. m id) deleted ∙ delete_same id (contents node.disk),
                      )
                      | inr (e, missing, kept) ↦ (
                        kept-IsSound (with_state (delete id node.rooms) node.disk node.is_closed) s
                            (closed_room-IsSound node id sound) kept,
                        delete_same id node.rooms,
                        ap (λ m. m id) kept ∙ missing,
                      )
                    ])
                    (λ s either. elim either [
                      | inl deleted ↦ deleted-IsSound node id s sound deleted
                      | inr kept ↦
                          kept-IsSound (with_state (delete id node.rooms) node.disk node.is_closed)
                            s (closed_room-IsSound node id sound) kept
                    ]))
                  λ existed node' done. Post-ok _ _ _ tt node' done)
              sound)
          sound
