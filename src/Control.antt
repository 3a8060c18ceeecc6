-- ===== src/Control.antt =====
-- The control command, fernqctl/src/main.rs: the request that a command becomes, and what is shown of the
-- response. Colours and padding are left out. The socket is a parameter.
pub mod Asked
pub mod Shown
pub mod Socket
mod Tests
use fernq.Prelude.{
  ℕ, ◌≡◌, Bool, true, false, not, Option, none, some, List, [], ◌∷◌, ◌++◌, map, length, is_nil,
  if◌then◌else◌, Result, ok, err, panic, stuck, ◌>>=◌, ◌>>◌, fail_if,
}
use fernq.Prelude.Bytes.{Bytes}
use fernq.Prelude.Text.{text, same}
use fernq.Protocol.Json.{Json}
use fernq.Protocol.Validate.{member_str}
use fernq.Daemon.{Arrays, Request, Response}

pub data Commands : Type 0 where
  add : (name password : Bytes) → Commands
  remove : (id : Bytes) → Commands
  list address uninstall : Commands

pub record Cli : Type 0 where
  pub socket : Option Bytes
  pub dev : Bool
  pub raw_json : Bool
  pub show_pwd : Bool
  pub command : Commands

abbrev pub unwrap_or : {A : Type 0} → Option A → A → A
unwrap_or none a = a
unwrap_or (some b) a = b

unfoldable pub socket_path : Cli → Bytes
socket_path cli =
    unwrap_or cli.socket (if cli.dev then text "/tmp/fernq.sock" else text "/run/fernq/fernq.sock")

-- What the command does to the system.
pub data SystemCall : Type 0 where
  systemctl : List Bytes → SystemCall
  remove_file remove_dir_all : Bytes → SystemCall

abbrev pub uninstall_calls : List SystemCall
uninstall_calls =
    systemctl (text "stop" ∷ text "fernq" ∷ [])
    ∷ systemctl (text "disable" ∷ text "fernq" ∷ [])
    ∷ remove_file (text "/etc/systemd/system/fernq.service")
    ∷ systemctl (text "daemon-reload" ∷ [])
    ∷ remove_file (text "/usr/local/bin/fernqd")
    ∷ remove_file (text "/usr/local/bin/fernq")
    ∷ remove_dir_all (text "/etc/fernq")
    ∷ remove_dir_all (text "/var/lib/fernq")
    ∷ []

-- `user_id` is what `id -u` gives, trimmed.
unfoldable pub run_uninstall : Result Bytes Bytes → Result Bytes (List SystemCall)
run_uninstall user_id = do
  uid ← user_id
  fail_if (not (same uid (text "0"))) (text "Please run: sudo fernq uninstall")
  ok uninstall_calls

-- Only a UUID is sent.
abbrev pub remove_request : Bytes → Result Bytes Bytes → Result Bytes (Option Request)
remove_request id (ok parsed) =
    ok (some (record { cmd = text "remove"; room_name = none; password = none; room_id = some id }))
remove_request id (err e) = err (text "Invalid UUID format: " ++ id)
remove_request id panic = panic
remove_request id stuck = stuck

-- The request of a command, or none for the one that the daemon has no part in.
unfoldable pub request_of : (Bytes → Result Bytes Bytes) → Commands → Result Bytes (Option Request)
request_of parse_str (add name password) = ok (
    some (record {
      cmd = text "add";
      room_name = some name;
      password = some password;
      room_id = none;
    }))
request_of parse_str (remove id) = remove_request id (parse_str id)
request_of parse_str list =
    ok (some (record { cmd = text "list"; room_name = none; password = none; room_id = none }))
request_of parse_str address =
    ok (some (record { cmd = text "address"; room_name = none; password = none; room_id = none }))
request_of parse_str uninstall = ok none

-- What is shown. A line of the room list has the id, the name and the password.
pub data Printed (Value : Type 0) : Type 0 where
  raw : Response Value → Printed Value
  no_rooms no_address : Printed Value
  room_list : List (Bytes × Bytes × Bytes) → (total : ℕ) → Printed Value
  unexpected server_address : Value → Printed Value
  listening_on room_added room_removed : Bytes → Printed Value
  uninstalled : List SystemCall → Printed Value

module _ (json : Json) (arrays : Arrays json) where
  open json use {Value, as_str}

  -- `room[key].as_str().unwrap_or("N/A")`
  abbrev pub room_field : Bytes → Value → Bytes
  room_field key room = unwrap_or (member_str json key room) (text "N/A")

  unfoldable pub room_line : Bool → Value → Bytes × Bytes × Bytes
  room_line show_password room = (
    room_field (text "id") room,
    room_field (text "name") room,
    if show_password then room_field (text "password") room else text "******",
  )

  abbrev pub print_rooms : Bool → Value → Option (List Value) → Printed Value
  print_rooms show_password v none = unexpected v
  print_rooms show_password v (some rooms) =
      if is_nil rooms
      then no_rooms
      else room_list (map (room_line show_password) rooms) (length rooms)

  unfoldable pub print_room_list : Option Value → Bool → Printed Value
  print_room_list none show_password = no_rooms
  print_room_list (some v) show_password = print_rooms show_password v (arrays.as_array v)

  abbrev pub print_text : Value → Option Bytes → Printed Value
  print_text v none = server_address v
  print_text v (some addr) = listening_on addr

  unfoldable pub print_address : Option Value → Printed Value
  print_address none = no_address
  print_address (some v) = print_text v (as_str v)

  module _ (user_id : Result Bytes Bytes) where
    unfoldable pub print_success : Commands → Option Value → Bool → Result Bytes (Printed Value)
    print_success (add name password) content show_pwd = ok (room_added name)
    print_success (remove id) content show_pwd = ok (room_removed id)
    print_success list content show_pwd = ok (print_room_list content show_pwd)
    print_success address content show_pwd = ok (print_address content)
    print_success uninstall content show_pwd =
        run_uninstall user_id >>= λ calls. ok (uninstalled calls)

    unfoldable pub print_response : Cli → Response Value → Result Bytes (Printed Value)
    print_response cli response =
        if cli.raw_json
        then ok (raw response)
        else if not response.success
        then err (text "Server error: " ++ unwrap_or response.error (text "Unknown error"))
        else print_success cli.command response.content cli.show_pwd

    abbrev pub send_and_print :
        (Bytes → Request → Result Bytes (Response Value))
        → Cli
        → Option Request
        → Result Bytes (Printed Value)
    send_and_print send_request cli none = run_uninstall user_id >>= λ calls. ok (uninstalled calls)
    send_and_print send_request cli (some request) = do
      response ← send_request (socket_path cli) request
      print_response cli response

    -- `run`, on the parsed command line. `send_request` is given with the context of its error.
    unfoldable pub run :
        (Bytes → Result Bytes Bytes)
        → (Bytes → Request → Result Bytes (Response Value))
        → Cli
        → Result Bytes (Printed Value)
    run parse_str send_request cli = do
      request ← request_of parse_str cli.command
      send_and_print send_request cli request
