-- ===== src/Control/Tests.antt =====
-- The theorems on the control command, with the daemon of a node that has the room "den".
use fernq.Prelude.{◌≡◌, refl, false, true, none, [], ◌∷◌, Result, ok}
use fernq.Prelude.Bytes.{Bytes}
use fernq.Prelude.Text.{text, same}
use fernq.Protocol.Message.Tests.{TestValue, test_json}
use fernq.Storage.Tests.{log_store, plain}
use fernq.Storage.{list_all_rooms, from_bytes}
use fernq.Server.Node.{list_rooms}
use fernq.Server.Node.Tests.{den_node}
use fernq.Daemon.{Request, Response, done, room_value, handle_request}
use fernq.Daemon.Tests.{test_arrays, one_uuid}
use fernq.Control.{list, Cli, room_list, run}
use fernq.Control.Shown.{run-listed}

abbrev show_rooms : Cli
show_rooms = record {
  socket = none;
  dev = true;
  raw_json = false;
  show_pwd = false;
  command = list;
}

abbrev one_room : Response TestValue
one_room = done (
    test_arrays.array (
      room_value test_json test_arrays log_store plain (λ s. s) (λ e. [])
        (1 ∷ [], text "den", text "cat")
      ∷ []))

abbrev daemon : Bytes → Request → Result Bytes (Response TestValue)
daemon path request = ok one_room

run-listed_example :
    run test_json test_arrays (ok []) one_uuid daemon show_rooms
    ≡ ok (room_list ((1 ∷ [], text "den", text "******") ∷ []) 1)
unfolding handle_request list_rooms list_all_rooms from_bytes text same
run-listed_example =
    run-listed test_json test_arrays log_store plain (λ s. s) (λ e. []) one_uuid []
      (text "den.local") (ok []) daemon show_rooms den_node den_node one_room
      ((1 ∷ [], text "den", text "cat") ∷ []) refl refl refl refl refl
