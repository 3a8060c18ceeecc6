-- ===== src/Server/Node/Answers.antt =====
-- When `add_room` succeeds and when it refuses.
use fernq.Prelude.{◌≡◌, ◌⊎◌, inl, inr, true, false, List, [], ◌∷◌, ◌++◌, ok, err}
use fernq.Prelude.Bytes.{Bytes}
use fernq.Prelude.Text.{text}
use fernq.Storage.{
  RoomModel, put, Fjall, Bincode, StorageError, other, create_room, find_rooms_by_name,
}
use fernq.Server.Node.{open_room, ServerNode, add_room}

module _ (fjall : Fjall) (bincode : Bincode) (show_uuid : Bytes → Bytes)
    (show_error : StorageError fjall.Error → Bytes) where
  open fjall use {Keyspace, Error}

  -- On a running node, with no stored room of the name and a disk that accepts the new one, `add_room`
  -- succeeds: the disk is what `create_room` leaves, and the room that it made is in the table.
  pub add_room_succeeds :
      (id name password : Bytes) (node : ServerNode fjall bincode) (room : RoomModel)
      (disk : Keyspace)
      → node.is_closed ≡ false
      → find_rooms_by_name fjall bincode name node.disk ≡ ok []
      → create_room fjall bincode id name password node.disk ≡ (ok room, disk)
      → add_room fjall bincode show_uuid show_error id name password node ≡ (
        ok tt,
        record {
          rooms = put room.id (open_room room.id name) node.rooms;
          disk = disk;
          is_closed = node.is_closed;
        },
      )
  unfolding add_room
  add_room_succeeds id name password node room disk running unused made = rw (running, unused, made)

  -- A closed node refuses a room, and so does a running one that has a stored room of the name; the node
  -- stays as it is.
  pub add_room_refuses :
      (id name password : Bytes) (node : ServerNode fjall bincode) (first : RoomModel)
      (others : List RoomModel)
      → ((node.is_closed ≡ true)
          ⊎ ((node.is_closed ≡ false)
              × (find_rooms_by_name fjall bincode name node.disk ≡ ok (first ∷ others))))
      → (e : StorageError Error) × (add_room fjall bincode show_uuid show_error id name password
            node
          ≡ (err e, node))
  unfolding add_room
  add_room_refuses id name password node first others (inl closed) =
      (other (text "Server node is closed"), rw closed)
  add_room_refuses id name password node first others (inr (running, found)) =
      (other (text "Room '" ++ (name ++ text "' already exists")), rw (running, found))
