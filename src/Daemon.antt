-- ===== src/Daemon.antt =====
-- The control socket of the daemon, fernqd/src/main.rs: `handle_request`. The JSON text of requests and
-- responses is made and read by serde, a parameter.
pub mod Truth
pub mod Rooms
pub mod Start
pub mod Tests
use fernq.Prelude.{
  ◌≡◌, Bool, true, false, Option, none, some, List, [], ◌∷◌, ◌++◌, map, take, if◌then◌else◌, Result,
  ok, err, panic, stuck,
}
use fernq.Prelude.Bytes.{Bytes}
use fernq.Prelude.Text.{text, same}
use fernq.Prelude.Action.{return, ◌>>=◌}
use fernq.Protocol.Json.{Json}
use fernq.Storage.{Fjall, Bincode, StorageError}
use fernq.Server.Node.{ServerNode, NodeAction, add_room, remove_room, list_rooms}

-- `Value::Array`.
pub record Arrays (json : Json) : Type 0 where
  pub array : List json.Value → json.Value
  pub as_array : json.Value → Option (List json.Value)
  pub as_array-array : (values : List json.Value) → as_array (array values) ≡ some values

pub record Request : Type 0 where
  pub cmd : Bytes
  pub room_name : Option Bytes
  pub password : Option Bytes
  pub room_id : Option Bytes

pub record Response (Value : Type 0) : Type 0 where
  pub success : Bool
  pub content : Option Value
  pub error : Option Bytes

-- `filter(|s| !s.is_empty())`
abbrev pub filled : Option Bytes → Option Bytes
filled none = none
filled (some []) = none
filled (some (b ∷ bs)) = some (b ∷ bs)

abbrev pub done : {Value : Type 0} → Value → Response Value
done v = record { success = true; content = some v; error = none }

abbrev pub refused : {Value : Type 0} → Bytes → Response Value
refused message = record { success = false; content = none; error = some message }

module _ (json : Json) (arrays : Arrays json) (fjall : Fjall) (bincode : Bincode)
    (show_uuid : Bytes → Bytes) (show_error : StorageError fjall.Error → Bytes) where
  open json use {Value, empty, insert, string, object}
  open fjall use {Error}

  -- The answer to a call of the node that gives nothing back.
  abbrev pub answer :
      Value
      → Bytes
      → Result (StorageError Error) (Unit {0}) × ServerNode fjall bincode
      → Result (StorageError Error) (Response Value) × ServerNode fjall bincode
  answer told complaint (ok u, node) = (ok (done told), node)
  answer told complaint (err e, node) = (ok (refused (complaint ++ show_error e)), node)
  answer told complaint (panic, node) = (panic, node)
  answer told complaint (stuck, node) = (stuck, node)

  abbrev pub handle_add :
      Bytes
      → Option Bytes
      → Option Bytes
      → NodeAction fjall bincode show_uuid show_error (Response Value)
  handle_add fresh_id none pwd = return (refused (text "room_name is required"))
  handle_add fresh_id (some name) none = return (refused (text "password is required"))
  handle_add fresh_id (some name) (some pwd) = λ node.
      answer (string (text "room added")) (text "Failed to add room: ")
        (add_room fjall bincode show_uuid show_error fresh_id name pwd node)

  abbrev pub remove_parsed :
      Result Bytes Bytes → NodeAction fjall bincode show_uuid show_error (Response Value)
  remove_parsed (ok id) = λ node.
      answer (string (text "room removed")) (text "Failed to remove room: ")
        (remove_room fjall bincode show_uuid show_error id node)
  remove_parsed (err e) = return (refused (text "Invalid UUID format: " ++ e))
  remove_parsed panic = λ node. (panic, node)
  remove_parsed stuck = λ node. (stuck, node)

  abbrev pub handle_remove :
      (Bytes → Result Bytes Bytes)
      → Option Bytes
      → NodeAction fjall bincode show_uuid show_error (Response Value)
  handle_remove parse_str none = return (refused (text "room_id is required"))
  handle_remove parse_str (some id_str) = remove_parsed (parse_str id_str)

  unfoldable pub room_value : Bytes × Bytes × Bytes → Value
  room_value (id, name, pwd) = object (
      insert (text "password") (string pwd)
        (insert (text "name") (string name) (insert (text "id") (string id) empty)))

  abbrev pub listing :
      Result (StorageError Error) (List (Bytes × Bytes × Bytes))
      → Result (StorageError Error) (Response Value)
  listing (ok rooms) = ok (done (arrays.array (map room_value rooms)))
  listing (err e) = err e
  listing panic = panic
  listing stuck = stuck

  unfoldable pub handle_request :
      (Bytes → Result Bytes Bytes)
      → (fresh_id addr : Bytes) → Request
      → NodeAction fjall bincode show_uuid show_error (Response Value)
  handle_request parse_str fresh_id addr req =
      if same req.cmd (text "add")
      then handle_add fresh_id (filled req.room_name) req.password
      else if same req.cmd (text "remove")
      then handle_remove parse_str (filled req.room_id)
      else if same req.cmd (text "list")
      then (λ node. (listing (list_rooms fjall bincode show_uuid show_error node), node))
      else if same req.cmd (text "address")
      then return (done (string addr))
      else return (refused (text "Unknown command: " ++ req.cmd))

  -- A client of the socket: what the one `read` of at most 4096 bytes finds, if it does not fail, is the
  -- request. `decode` is serde's. There is no response to a read that fails or finds nothing.
  abbrev pub handle_decoded :
      (Bytes → Result Bytes Bytes)
      → (fresh_id addr : Bytes) → Result Bytes Request
      → NodeAction fjall bincode show_uuid show_error (Option (Response Value))
  handle_decoded parse_str fresh_id addr (ok req) = do
    resp ← handle_request parse_str fresh_id addr req
    return (some resp)
  handle_decoded parse_str fresh_id addr (err e) =
      return (some (refused (text "Invalid JSON: " ++ e)))
  handle_decoded parse_str fresh_id addr panic = λ node. (panic, node)
  handle_decoded parse_str fresh_id addr stuck = λ node. (stuck, node)

  unfoldable pub handle_stream :
      (Bytes → Result Bytes Bytes)
      → (Bytes → Result Bytes Request)
      → (fresh_id addr : Bytes) → (arrived : Option Bytes)
      → NodeAction fjall bincode show_uuid show_error (Option (Response Value))
  handle_stream parse_str decode fresh_id addr none = return none
  handle_stream parse_str decode fresh_id addr (some []) = return none
  handle_stream parse_str decode fresh_id addr (some (b ∷ bs)) =
      handle_decoded parse_str fresh_id addr (decode (take 4096 (b ∷ bs)))

  -- One request after the other, each with the fresh UUID that it may use.
  unfoldable pub serve :
      (Bytes → Result Bytes Bytes)
      → Bytes
      → List (Bytes × Request)
      → ServerNode fjall bincode
      → ServerNode fjall bincode
  serve parse_str addr [] node = node
  serve parse_str addr ((fresh_id, req) ∷ requests) node =
      serve parse_str addr requests (handle_request parse_str fresh_id addr req node).1
