-- ===== src/Control/Socket/Tests.antt =====
-- `fernqctl add lair key` at the daemon of a node that has the room "den".
use fernq.Prelude.{
  zero, suc, ◌≤◌, ◌≡◌, refl, sym, ap, ◌∙◌, false, true, Option, none, some, [], ◌∷◌, ◌++◌, length,
  take, drop, take-append, drop-append, Result, ok, arith,
}
use fernq.Prelude.Bytes.{Bytes}
use fernq.Prelude.Text.{text, same}
use fernq.Protocol.Message.Tests.{TestValue, test_string, test_json}
use fernq.Storage.Tests.{log_store, plain}
use fernq.Storage.{find_rooms_by_name, from_bytes, create_room, save_room, to_bytes}
use fernq.Server.Node.{ServerNode, add_room}
use fernq.Server.Node.Tests.{den_node, den_node-IsSound}
use fernq.Daemon.{Request, Response, done, handle_request}
use fernq.Daemon.Tests.{test_arrays, one_uuid, add_lair}
use fernq.Control.{add, Cli, request_of, room_added, print_response, print_success, run}
use fernq.Control.Socket.{Wire, Socket, sent_to}
use fernq.Control.Socket.Exchange.{Meets, run-Meets, reply}
use fernq.Control.Socket.Told.{Told, run-Told}

put_str : Bytes → Bytes → Bytes
put_str s rest = length s ∷ (s ++ rest)

get_str : Bytes → Bytes × Bytes
get_str [] = ([], [])
get_str (n ∷ bytes) = (take n bytes, drop n bytes)

get_str-put_str : (s rest : Bytes) → get_str (put_str s rest) ≡ (s, rest)
unfolding get_str put_str
get_str-put_str s rest = rw (take-append s rest, drop-append s rest)

put_option : Option Bytes → Bytes → Bytes
put_option none rest = 0 ∷ rest
put_option (some s) rest = 1 ∷ put_str s rest

-- What follows the mark.
abbrev some_of : Bytes × Bytes → Option Bytes × Bytes
some_of (s, rest) = (some s, rest)

get_option : Bytes → Option Bytes × Bytes
get_option [] = (none, [])
get_option (zero ∷ bytes) = (none, bytes)
get_option (suc k ∷ bytes) = some_of (get_str bytes)

get_option-put_option :
    (o : Option Bytes) (rest : Bytes) → get_option (put_option o rest) ≡ (o, rest)
unfolding get_option put_option
get_option-put_option none rest = refl
get_option-put_option (some s) rest = ap some_of (get_str-put_str s rest)

put_request : Request → Bytes
put_request r =
    put_str r.cmd (put_option r.room_name (put_option r.password (put_option r.room_id [])))

get_request : Bytes → Request
get_request bytes =
    let (cmd, after_cmd) = get_str bytes in
    let (room_name, after_name) = get_option after_cmd in
    let (password, after_password) = get_option after_name in
    let (room_id, after_id) = get_option after_password in
    record { cmd = cmd; room_name = room_name; password = password; room_id = room_id }

get_request-put_request : (r : Request) → get_request (put_request r) ≡ r
unfolding get_request put_request
get_request-put_request r = rw (
  get_str-put_str r.cmd (put_option r.room_name (put_option r.password (put_option r.room_id []))),
  get_option-put_option r.room_name (put_option r.password (put_option r.room_id [])),
  get_option-put_option r.password (put_option r.room_id []),
  get_option-put_option r.room_id [],
)

put_request-filled : (r : Request) (bytes : Bytes) → put_request r ≡ bytes → 1 ≤ length bytes
unfolding put_request put_str
put_request-filled r bytes h = omega (arith, ap length h)

abbrev room_was_added : Response TestValue
room_was_added = done (test_string (text "room added"))

wire_filled :
    (r : Request) (bytes : Bytes)
    → ◌≡◌ {A = Result Bytes Bytes} (ok (put_request r)) (ok bytes)
    → 1 ≤ length bytes
wire_filled r bytes h = put_request-filled r bytes (cc)

wire_back :
    (r : Request) (bytes : Bytes)
    → ◌≡◌ {A = Result Bytes Bytes} (ok (put_request r)) (ok bytes)
    → ◌≡◌ {A = Result Bytes Request} (ok (get_request bytes)) (ok r)
wire_back r bytes h =
    let same_bytes : put_request r ≡ bytes = cc in
    ap ok (ap get_request (sym same_bytes) ∙ get_request-put_request r)

byte_filled :
    (r : Response TestValue) (bytes : Bytes)
    → ◌≡◌ {A = Result Bytes Bytes} (ok (7 ∷ [])) (ok bytes)
    → 1 ≤ length bytes
byte_filled r bytes h =
    let same_bytes : ◌≡◌ {A = Bytes} (7 ∷ []) bytes = cc in omega (arith, ap length same_bytes)

-- Requests are written with their lengths. The only text of a response stands for this one.
abbrev test_wire : Wire TestValue
test_wire = record {
  request_to_vec = λ r. ok (put_request r);
  request_from_slice = λ bytes. ok (get_request bytes);
  response_to_vec = λ r. ok (7 ∷ []);
  response_from_slice = λ bytes. ok room_was_added;
  request_filled = wire_filled;
  response_filled = byte_filled;
  request_back = wire_back;
}

abbrev lair_answer : Bytes → Bytes × ServerNode log_store plain
lair_answer bytes =
    reply test_json test_arrays log_store plain (λ s. s) (λ e. []) one_uuid (2 ∷ [])
      (text "den.local") test_wire (some bytes) den_node

abbrev test_socket : Bytes → Socket
test_socket path = record {
  connect = ok tt;
  set_read_timeout = ok tt;
  set_write_timeout = ok tt;
  write_all = λ bytes. ok tt;
  shutdown = ok tt;
  read_to_end = λ bytes. ok (lair_answer bytes).0;
}

abbrev lair_cli : Cli
lair_cli = record {
  socket = none;
  dev = true;
  raw_json = false;
  show_pwd = false;
  command = add (text "lair") (text "key");
}

abbrev lair_node : ServerNode log_store plain
lair_node =
    (handle_request test_json test_arrays log_store plain (λ s. s) (λ e. []) one_uuid (2 ∷ [])
      (text "den.local") add_lair den_node).1

abbrev MeetsHere : Type 0
MeetsHere =
    Meets test_json test_arrays log_store plain (λ s. s) (λ e. []) one_uuid (2 ∷ [])
      (text "den.local") test_wire (ok []) test_socket lair_cli add_lair den_node lair_node
      room_was_added (put_request add_lair) (7 ∷ [])

meets : MeetsHere
unfolding request_of handle_request text same put_request put_str put_option add_room
    find_rooms_by_name from_bytes create_room save_room to_bytes
meets = record {
  asked = refl;
  printed = refl;
  fits = omega arith;
  handled = refl;
  sent = refl;
  read_back = refl;
  answers = record {
    connected = refl;
    read_limit = refl;
    write_limit = refl;
    written = refl;
    ended = refl;
    back = refl;
  };
}

lair_shown :
    run test_json test_arrays (ok []) one_uuid (sent_to test_wire test_socket) lair_cli
    ≡ ok (room_added (text "lair"))
unfolding print_response print_success
lair_shown =
    run-Meets test_json test_arrays log_store plain (λ s. s) (λ e. []) one_uuid (2 ∷ [])
      (text "den.local") test_wire (ok []) test_socket lair_cli add_lair den_node lair_node
      room_was_added (put_request add_lair) (7 ∷ []) meets

run-Told_example :
    Told test_json test_arrays log_store plain
      (λ s. s)
      (λ e. [])
      one_uuid
      (2 ∷ [])
      (text "den.local")
      (add (text "lair") (text "key"))
      den_node
      lair_node
run-Told_example =
    run-Told test_json test_arrays log_store plain (λ s. s) (λ e. []) one_uuid (2 ∷ [])
      (text "den.local") test_wire (ok []) test_socket lair_cli refl add_lair den_node lair_node
      room_was_added (put_request add_lair) (7 ∷ []) (room_added (text "lair")) den_node-IsSound
      meets lair_shown
