-- ===== src/Daemon/Start/Tests.antt =====
-- A start in development mode, where an earlier run left its socket behind, on a disk with the room "den".
use fernq.Prelude.{refl, Bool, true, false, none, [], ◌∷◌, if◌then◌else◌, ok}
use fernq.Prelude.Bytes.{Bytes}
use fernq.Prelude.Text.{text, same}
use fernq.Prelude.Action.{Post}
use fernq.Storage.{new_storage, list_all_rooms, from_bytes}
use fernq.Storage.Tests.{log_store, plain, den, den_log}
use fernq.Server.Node.Restart.Tests.{den_log-IsKept, den_log-IsIterated}
use fernq.Control
use fernq.Control.{list}
use fernq.Daemon.Start.{Cli, Outside, launch}
use fernq.Daemon.Start.Launched.{IsLaunched, launch-IsLaunched}

-- A file system is the paths that are there, and every call on it succeeds.
abbrev with_path : Bytes → Bool → (Bytes → Bool) → Bytes → Bool
with_path p there s q = if same p q then there else s q

abbrev machine : Outside log_store
machine = record {
  Config = Bytes;
  Database = Bytes;
  Addr = Bytes;
  Files = Bytes → Bool;
  build = λ path. ok path;
  get_server = λ cfg. ok (record { host = text "::"; port = 80 });
  open_database = λ path. ok path;
  keyspace = λ db name. ok den_log;
  parse_addr = λ s. ok s;
  exists = λ p s. s p;
  create_dir_all = λ p s. (ok tt, with_path p true s);
  remove_file = λ p s. (ok tt, with_path p false s);
  bind = λ p s. (ok tt, with_path p true s);
  set_permissions = λ p s. (ok tt, s);
}

abbrev old_socket : Bytes → Bool
old_socket p = true

abbrev dev_mode : Cli
dev_mode = record { config = text "config.ini"; storage = text "data"; dev = true }

abbrev list_rooms_there : Control.Cli
list_rooms_there = record {
  socket = none;
  dev = true;
  raw_json = false;
  show_pwd = false;
  command = list;
}

launch-IsLaunched_example :
    Post
      (λ d s'. IsLaunched log_store machine plain (λ s. s) (λ e. []) den_log list_rooms_there d)
      (λ s'. Unit {0})
      (launch log_store machine plain (λ s. s) (λ e. []) dev_mode old_socket)
unfolding new_storage list_all_rooms from_bytes text
launch-IsLaunched_example =
    launch-IsLaunched log_store machine plain (λ s. s) (λ e. []) den_log (den ∷ [])
      den_log-IsKept.keyed den_log-IsIterated refl dev_mode list_rooms_there old_socket refl refl
      refl
