-- ===== src/Daemon/Tests.antt =====
-- The theorems on the control socket at a concrete node, which has the room "den".
use fernq.Prelude.{◌≡◌, ◌≢◌, refl, false, ap, Option, none, some, List, [], ◌∷◌, Result, ok, err}
use fernq.Prelude.Bytes.{Bytes}
use fernq.Prelude.Text.{text, same}
use fernq.Prelude.Action.{Post}
use fernq.Protocol.Message.Tests.{
  TestValue, TestList, last, item, test_string, test_number, test_bool, test_object, test_array,
  test_json,
}
use fernq.Storage.Tests.{log_store, plain, den_log}
use fernq.Storage.{list_all_rooms, from_bytes, create_room, find_rooms_by_name, save_room, to_bytes}
use fernq.Server.Node.{ServerNode, open_room, add_room, start_rooms}
use fernq.Server.Room.{drops, handle_frame}
use fernq.Server.Node.Tests.{den_node, den_node-IsSound}
use fernq.Server.Node.Invariant.{IsSound}
use fernq.Daemon.{Arrays, Request, handle_request, serve}
use fernq.Daemon.Rooms.{serve-keeps_frames}
use fernq.Daemon.Truth.{IsTrue, handle_request-IsTrue}

abbrev pub listed_from : List TestValue → TestList
listed_from [] = last
listed_from (v ∷ vs) = item v (listed_from vs)

abbrev pub list_from : TestList → List TestValue
list_from last = []
list_from (item v l) = v ∷ list_from l

pub list_from-listed_from : (vs : List TestValue) → list_from (listed_from vs) ≡ vs
list_from-listed_from [] = refl
list_from-listed_from (v ∷ vs) = ap (λ l. v ∷ l) (list_from-listed_from vs)

abbrev pub items_of : TestValue → Option (List TestValue)
items_of (test_array l) = some (list_from l)
items_of (test_string s) = none
items_of (test_number n) = none
items_of (test_bool b) = none
items_of (test_object m) = none

abbrev pub test_arrays : Arrays test_json
test_arrays = record {
  array = λ vs. test_array (listed_from vs);
  as_array = items_of;
  as_array-array = λ vs. ap some (list_from-listed_from vs);
}

-- A parser of UUIDs that knows one.
abbrev pub one_uuid : Bytes → Result Bytes Bytes
one_uuid [] = err (text "empty")
one_uuid (b ∷ bs) = ok (1 ∷ [])

abbrev pub add_lair : Request
add_lair = record {
  cmd = text "add";
  room_name = some (text "lair");
  password = some (text "key");
  room_id = none;
}

abbrev remove_den : Request
remove_den = record {
  cmd = text "remove";
  room_name = none;
  password = none;
  room_id = some (text "1");
}

handle_request-IsTrue_example :
    Post
      (IsTrue test_json test_arrays log_store plain
        (λ s. s)
        (λ e. [])
        one_uuid
        (text "den.local")
        (2 ∷ [])
        add_lair
        den_node)
      (IsSound log_store plain)
      (handle_request test_json test_arrays log_store plain
        (λ s. s)
        (λ e. [])
        one_uuid
        (2 ∷ [])
        (text "den.local")
        add_lair
        den_node)
handle_request-IsTrue_example =
    handle_request-IsTrue test_json test_arrays log_store plain (λ s. s) (λ e. []) one_uuid
      (text "den.local") (2 ∷ []) add_lair den_node den_node-IsSound

abbrev stopped_node : ServerNode log_store plain
stopped_node = record { rooms = λ k. none; disk = den_log; is_closed = false }

-- The room that is on the disk is open after the start, and stays so while another is added.
abbrev served : ServerNode log_store plain
served =
    serve test_json test_arrays log_store plain (λ s. s) (λ e. []) one_uuid (text "den.local")
      ((2 ∷ [], add_lair) ∷ []) (start_rooms log_store plain (λ s. s) (λ e. []) stopped_node).1

den_there : served.rooms (1 ∷ []) ≡ some (open_room (1 ∷ []) (text "den"))
unfolding serve handle_request start_rooms add_room find_rooms_by_name create_room save_room
    to_bytes from_bytes list_all_rooms text same
den_there = refl

serve-keeps_frames_example :
    (◌≡◌ {A = Bytes} (1 ∷ []) (1 ∷ [])) × (handle_frame 32 (7 ∷ []) (λ n. none) ≢ ok drops)
serve-keeps_frames_example =
    serve-keeps_frames test_json test_arrays log_store plain (λ s. s) (λ e. []) one_uuid
      (text "den.local") stopped_node ((2 ∷ [], add_lair) ∷ []) (1 ∷ [])
      (open_room (1 ∷ []) (text "den")) (7 ∷ []) (λ n. none) refl den_there
