-- ===== src/Storage.antt =====
-- fernqd/src/storage: the rooms on disk. The fjall keyspace and bincode are interfaces; a fresh UUID
-- is an argument.
pub mod Saved
pub mod Names
pub mod Listed
pub mod ReadBack
pub mod Tests
use fernq.Prelude.{
  ℕ, ◌≡◌, ◌⊎◌, Bool, true, false, Option, none, some, List, [], ◌∷◌, ◌++◌, if◌then◌else◌, Result,
  ok, err, panic, stuck,
}
use fernq.Prelude.Bytes.{Bytes}
use fernq.Prelude.Text.{text, same}
use fernq.Prelude.Action.{Action, ◌>>=◌, return, lift, read}

infixl 5 ◌|>=◌
-- `?` where no state is at hand.
abbrev pub ◌|>=◌ : {E A B : Type 0} → Result E A → (A → Result E B) → Result E B
ok a |>= f = f a
err e |>= f = err e
panic |>= f = panic
stuck |>= f = stuck

pub record RoomModel : Type 0 where
  pub id : Bytes
  pub name : Bytes
  pub password : Bytes

abbrev pub put : {A : Type 0} → Bytes → A → (Bytes → Option A) → Bytes → Option A
put k v m = λ j. if same k j then some v else m j

abbrev pub delete : {A : Type 0} → Bytes → (Bytes → Option A) → Bytes → Option A
delete k m = λ j. if same k j then none else m j

-- The element is in the list.
abbrev pub Among : {A : Type 0} → A → List A → Type 0
Among x [] = ⊥
Among x (y ∷ ys) = (x ≡ y) ⊎ Among x ys

-- What the storage uses of the fjall crate. `contents` is for the laws: what a keyspace holds.
pub record Fjall : Type 1 where
  pub Keyspace : Type 0
  pub Error : Type 0
  pub get : Bytes → Keyspace → Result Error (Option Bytes)
  pub insert : Bytes → Bytes → Action Keyspace Error (Unit {0})
  pub remove : Bytes → Action Keyspace Error (Unit {0})
  -- `Database::persist`.
  pub persist : Keyspace → Result Error (Unit {0})
  -- `iter`, with `value` of each item.
  pub iter : Keyspace → List (Result Error Bytes)
  pub len : Keyspace → Result Error ℕ
  pub contents : Keyspace → Bytes → Option Bytes
  pub get-contents :
      (k : Bytes) (s : Keyspace) (o : Option Bytes) → get k s ≡ ok o → contents s k ≡ o
  -- A write that fails is done or not done.
  pub insert-contents :
      (k v : Bytes) (s : Keyspace)
      → (contents (insert k v s).1 ≡ put k v (contents s))
        ⊎ ((e : Error) × ((insert k v s).0 ≡ err e) × (contents (insert k v s).1 ≡ contents s))
  pub remove-contents :
      (k : Bytes) (s : Keyspace)
      → (contents (remove k s).1 ≡ delete k (contents s))
        ⊎ ((e : Error) × ((remove k s).0 ≡ err e) × (contents (remove k s).1 ≡ contents s))
  -- An iteration meets every entry, or fails at some item.
  pub iter-contents :
      (k v : Bytes) (s : Keyspace)
      → contents s k ≡ some v
      → Among (ok v) (iter s) ⊎ ((e : Error) × Among (err e) (iter s))

-- What it uses of bincode: an error is its text.
pub record Bincode : Type 0 where
  pub encode_to_vec : RoomModel → Result Bytes Bytes
  pub decode_from_slice : Bytes → Result Bytes RoomModel
  pub decode-encode :
      (r : RoomModel) (bytes : Bytes) → encode_to_vec r ≡ ok bytes → decode_from_slice bytes ≡ ok r

pub data StorageError (Error : Type 0) : Type 0 where
  fjall_error : Error → StorageError Error
  serialization : Bytes → StorageError Error
  invalid_data : Bytes → StorageError Error
  other : Bytes → StorageError Error

-- `Display`, with that of the errors of fjall.
unfoldable pub display_error : {Error : Type 0} → (Error → Bytes) → StorageError Error → Bytes
display_error show_fjall (fjall_error e) = text "database error: " ++ show_fjall e
display_error show_fjall (serialization msg) = text "serialization error: " ++ msg
display_error show_fjall (invalid_data msg) = text "invalid data: " ++ msg
display_error show_fjall (other msg) = msg

module _ (fjall : Fjall) (bincode : Bincode) where
  open fjall use {Keyspace, Error}

  abbrev pub StorageResult : Type 0 → Type 0
  StorageResult A = Result (StorageError Error) A

  -- `From` of the errors, which `?` applies.
  abbrev pub from_fjall : {A : Type 0} → Result Error A → StorageResult A
  from_fjall (ok a) = ok a
  from_fjall (err e) = err (fjall_error e)
  from_fjall panic = panic
  from_fjall stuck = stuck

  -- `StorageDB::new`, over the calls that open the database and its keyspace.
  unfoldable pub new_storage :
      {Database : Type 0}
      → (open_database : Bytes → Result Error Database)
      → (keyspace : Database → Bytes → Result Error Keyspace) → (db_path : Bytes)
      → StorageResult Keyspace
  new_storage open_database keyspace db_path =
      from_fjall (open_database db_path) |>= λ db. from_fjall (keyspace db (text "rooms"))

  abbrev pub as_serialization : {A : Type 0} → Bytes → Result Bytes A → StorageResult A
  as_serialization context (ok a) = ok a
  as_serialization context (err e) = err (serialization (context ++ e))
  as_serialization context panic = panic
  as_serialization context stuck = stuck

  unfoldable pub to_bytes : RoomModel → StorageResult Bytes
  to_bytes room = as_serialization (text "encode failed: ") (bincode.encode_to_vec room)

  unfoldable pub from_bytes : Bytes → StorageResult RoomModel
  from_bytes bytes = as_serialization (text "decode failed: ") (bincode.decode_from_slice bytes)

  -- `RoomModel::new`, with the fresh UUID.
  abbrev pub new_model : Bytes → Bytes → Bytes → RoomModel
  new_model id name password = record { id = id; name = name; password = password }

  abbrev pub get_info : RoomModel → Bytes × Bytes × Bytes
  get_info room = (room.id, room.name, room.password)

  abbrev pub verify_password : RoomModel → Bytes → Bool
  verify_password room input = same room.password input

  abbrev pub with_fjall : {A : Type 0} → Result Error A × Keyspace → StorageResult A × Keyspace
  with_fjall (r, s) = (from_fjall r, s)

  unfoldable pub save_room : RoomModel → Action Keyspace (StorageError Error) (Unit {0})
  save_room room = do
    bytes ← lift (to_bytes room)
    done ← λ s. with_fjall (fjall.insert room.id bytes s)
    kept ← read (λ s. from_fjall (fjall.persist s))
    return tt

  unfoldable pub create_room :
      Bytes → Bytes → Bytes → Action Keyspace (StorageError Error) RoomModel
  create_room id name password = do
    let room = new_model id name password
    saved ← save_room room
    return room

  abbrev pub room_of : Option Bytes → StorageResult (Option RoomModel)
  room_of none = ok none
  room_of (some bytes) = from_bytes bytes |>= λ room. ok (some room)

  unfoldable pub get_room : Bytes → Keyspace → StorageResult (Option RoomModel)
  get_room id s = from_fjall (fjall.get id s) |>= room_of

  abbrev pub collect : List (Result Error Bytes) → StorageResult (List RoomModel)
  collect [] = ok []
  collect (item ∷ items) = from_fjall item |>= λ value_bytes.
      from_bytes value_bytes |>= λ room. collect items |>= λ rooms. ok (room ∷ rooms)

  unfoldable pub list_all_rooms : Keyspace → StorageResult (List RoomModel)
  list_all_rooms s = collect (fjall.iter s)

  abbrev pub collect_named : Bytes → List (Result Error Bytes) → StorageResult (List RoomModel)
  collect_named name [] = ok []
  collect_named name (item ∷ items) = from_fjall item |>= λ value_bytes.
      from_bytes value_bytes |>= λ room.
      collect_named name items |>= λ rooms. ok (if same room.name name then room ∷ rooms else rooms)

  unfoldable pub find_rooms_by_name : Bytes → Keyspace → StorageResult (List RoomModel)
  find_rooms_by_name name s = collect_named name (fjall.iter s)

  abbrev pub is_stored : Option Bytes → Bool
  is_stored none = false
  is_stored (some bytes) = true

  unfoldable pub room_exists : Bytes → Keyspace → StorageResult Bool
  room_exists id s = from_fjall (fjall.get id s) |>= λ o. ok (is_stored o)

  -- What `delete_room` does when the room exists.
  abbrev pub remove_stored : Bytes → Bool → Action Keyspace (StorageError Error) (Unit {0})
  remove_stored id false = return tt
  remove_stored id true = do
    done ← λ s. with_fjall (fjall.remove id s)
    read (λ s. from_fjall (fjall.persist s))

  unfoldable pub delete_room : Bytes → Action Keyspace (StorageError Error) Bool
  delete_room id = do
    existed ← read (room_exists id)
    done ← remove_stored id existed
    return existed

  unfoldable pub count_rooms : Keyspace → StorageResult ℕ
  count_rooms s = from_fjall (fjall.len s)
