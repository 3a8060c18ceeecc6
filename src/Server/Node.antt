-- ===== src/Server/Node.antt =====
-- fernqd/src/server/node.rs: adding, removing and listing rooms. The table of open rooms is a function
-- of the UUID. Errors and UUIDs are shown by parameters, and a fresh UUID is an argument.
pub mod Tables
pub mod Invariant
pub mod Answers
pub mod Opened
pub mod Requests
pub mod Restored
pub mod Kept
pub mod Restart
pub mod Tests
use fernq.Prelude.{
  is_nil, ℕ, ◌≡◌, Bool, true, false, not, Option, none, some, List, [], ◌∷◌, ◌++◌, map, Result, ok,
  err, panic, stuck, fail_if,
}
use fernq.Prelude.Bytes.{Bytes}
use fernq.Prelude.Text.{text}
use fernq.Prelude.Action.{Action, ◌>>=◌, return, lift, read, change}
use fernq.Storage.{
  RoomModel, put, delete, Fjall, Bincode, StorageError, other, StorageResult, create_room,
  list_all_rooms, find_rooms_by_name, delete_room, room_exists, get_info,
}

-- What the node gives to `Room::new`, with the time in seconds. The connections, channels and tasks of a
-- room change without the node and are no part of its state.
pub record Room : Type 0 where
  pub id : Bytes
  pub name : Bytes
  pub worker_number : ℕ
  pub heartbeat_interval : ℕ
  pub max_pending_heartbeats : ℕ

-- `Room::new` and `open`, with the numbers that the node gives.
abbrev pub open_room : Bytes → Bytes → Room
open_room id name = record {
  id = id;
  name = name;
  worker_number = 32;
  heartbeat_interval = 60;
  max_pending_heartbeats = 5;
}

module _ (fjall : Fjall) (bincode : Bincode) where
  open fjall use {Keyspace, Error}

  pub record ServerNode : Type 0 where
    pub rooms : Bytes → Option Room
    pub disk : Keyspace
    pub is_closed : Bool

  -- `ServerNode::new`.
  abbrev pub new_node : Keyspace → ServerNode
  new_node storage_db = record { rooms = λ k. none; disk = storage_db; is_closed = false }

module _ (fjall : Fjall) (bincode : Bincode) (show_uuid : Bytes → Bytes)
    (show_error : StorageError fjall.Error → Bytes) where
  open fjall use {Keyspace, Error}

  abbrev pub NodeAction : Type 0 → Type 0
  NodeAction A = Action (ServerNode fjall bincode) (StorageError Error) A

  -- What the storage does happens to the disk of the node.
  abbrev pub with_disk :
      {A : Type 0}
      → ServerNode fjall bincode
      → Result (StorageError Error) A × Keyspace
      → Result (StorageError Error) A × ServerNode fjall bincode
  with_disk node (r, disk) =
      (r, record { rooms = node.rooms; disk = disk; is_closed = node.is_closed })

  abbrev pub set_rooms : (Bytes → Option Room) → ServerNode fjall bincode → ServerNode fjall bincode
  set_rooms rooms node = record { rooms = rooms; disk = node.disk; is_closed = node.is_closed }

  -- `self.is_closed()` and the early return.
  abbrev pub check_open : NodeAction (Unit {0})
  check_open = read (λ node. fail_if node.is_closed (other (text "Server node is closed")))

  unfoldable pub add_room : (fresh_id room_name room_pwd : Bytes) → NodeAction (Unit {0})
  add_room fresh_id room_name room_pwd = do
    running ← check_open
    existing ← read (λ node. find_rooms_by_name fjall bincode room_name node.disk)
    unused ← lift (
        fail_if (not (is_nil existing))
          (other (text "Room '" ++ (room_name ++ text "' already exists"))))
    room_model ←
        λ node. with_disk node (create_room fjall bincode fresh_id room_name room_pwd node.disk)
    change
        (λ node. set_rooms (put room_model.id (open_room room_model.id room_name) node.rooms) node)

  -- An error of the check, shown in another.
  abbrev pub existence :
      Bytes → Result (StorageError Error) Bool → Result (StorageError Error) (Unit {0})
  existence room_id (ok true) = ok tt
  existence room_id (ok false) =
      err (other (text "Room '" ++ (show_uuid room_id ++ text "' not found")))
  existence room_id (err e) = err (other (text "Failed to check room existence: " ++ show_error e))
  existence room_id panic = panic
  existence room_id stuck = stuck

  -- A removed room is closed, which changes nothing that is kept here.
  unfoldable pub remove_room : (room_id : Bytes) → NodeAction (Unit {0})
  remove_room room_id = do
    running ← check_open
    present ← read (λ node. existence room_id (room_exists fjall bincode room_id node.disk))
    closed ← change (λ node. set_rooms (delete room_id node.rooms) node)
    existed ← λ node. with_disk node (delete_room fjall bincode room_id node.disk)
    return tt

  abbrev pub shown : RoomModel → Bytes × Bytes × Bytes
  shown room = (show_uuid room.id, room.name, room.password)

  abbrev pub listed :
      Result (StorageError Error) (List RoomModel)
      → Result (StorageError Error) (List (Bytes × Bytes × Bytes))
  listed (ok storage_rooms) = ok (map shown storage_rooms)
  listed (err e) = ok []
  listed panic = panic
  listed stuck = stuck

  unfoldable pub list_rooms :
      ServerNode fjall bincode → Result (StorageError Error) (List (Bytes × Bytes × Bytes))
  list_rooms node = listed (list_all_rooms fjall bincode node.disk)

  -- The rooms that `start` opens.
  abbrev pub open_all : List RoomModel → (Bytes → Option Room) → Bytes → Option Room
  open_all [] rooms = rooms
  open_all (room ∷ storage_rooms) rooms =
      open_all storage_rooms (put room.id (open_room room.id room.name) rooms)

  -- The part of `start` before the socket is bound: the stored rooms are opened, and if they cannot be
  -- read the table stays as it is.
  abbrev pub opened :
      Result (StorageError Error) (List RoomModel)
      → (Bytes → Option Room)
      → Result (StorageError Error) (Bytes → Option Room)
  opened (ok storage_rooms) rooms = ok (open_all storage_rooms rooms)
  opened (err e) rooms = ok rooms
  opened panic rooms = panic
  opened stuck rooms = stuck

  unfoldable pub start_rooms : NodeAction (Unit {0})
  start_rooms = do
    rooms ← read (λ node. opened (list_all_rooms fjall bincode node.disk) node.rooms)
    change (set_rooms rooms)
