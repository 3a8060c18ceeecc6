-- ===== src/Server/Node/Restart/Tests.antt =====
-- A start on a disk with the rooms "den" and "pit".
use fernq.Prelude.{◌≡◌, refl, inl, inr, false, none, some, [], ◌∷◌, Result, ok}
use fernq.Prelude.Bytes.{Bytes}
use fernq.Prelude.Text.{text, same}
use fernq.Storage.{
  put, from_bytes, to_bytes, save_room, create_room, find_rooms_by_name, list_all_rooms,
}
use fernq.Storage.Listed.{IsIterated}
use fernq.Storage.Tests.{log_store, plain, lookup, den, den_log, written_room}
use fernq.Server.Node.{open_room, new_node, start_rooms, add_room}
use fernq.Server.Node.Tests.{den_node, pit, two_log}
use fernq.Server.Node.Requests.{add_job}
use fernq.Server.Node.Restored.{IsRestored, start_rooms-IsRestored}
use fernq.Server.Node.Kept.{IsKept, saved-IsKept}
use fernq.Server.Node.Restart.{all_done-restart}

nothing_held : {v : Bytes} → ¬ (none ≡ some v)
nothing_held h = cc

-- A store with nothing in it.
nothing-IsKept : IsKept log_store plain (λ k. none) (lookup [])
nothing-IsKept = record {
  restored = record {
    missing = λ k h. refl;
    present = λ k room (v, at, d). absurd (nothing_held at);
  };
  keyed = λ k room (v, at, d). absurd (nothing_held at);
}

pub den_log-IsKept : IsKept log_store plain den_node.rooms (lookup den_log)
unfolding from_bytes text
den_log-IsKept =
    saved-IsKept log_store plain (λ k. none) (lookup []) den (written_room den) refl nothing-IsKept

held_first : {a v : Bytes} → ◌≡◌ {A = Result (Unit {0}) Bytes} (ok v) (ok a) → some a ≡ some v
held_first h = cc

two_log-IsIterated : IsIterated log_store plain two_log
unfolding same
two_log-IsIterated v (inl at) = (2 ∷ [], held_first at)
two_log-IsIterated v (inr (inl at)) = (1 ∷ [], held_first at)
two_log-IsIterated v (inr (inr nowhere)) = absurd nowhere

pub den_log-IsIterated : IsIterated log_store plain den_log
unfolding same
den_log-IsIterated v (inl at) = (1 ∷ [], held_first at)
den_log-IsIterated v (inr nowhere) = absurd nowhere

all_done-restart_example :
    (start_rooms log_store plain (λ s. s) (λ e. []) (new_node log_store plain two_log)).1.rooms
    ≡ put (2 ∷ []) (open_room (2 ∷ []) (text "pit")) den_node.rooms
unfolding find_rooms_by_name create_room save_room to_bytes from_bytes list_all_rooms add_room text
    same
all_done-restart_example =
    all_done-restart log_store plain (λ s. s) (λ e. [])
      (add_job (2 ∷ []) (text "pit") (text "dog") ∷ []) den_node
      (record {
        rooms = put (2 ∷ []) (open_room (2 ∷ []) (text "pit")) den_node.rooms;
        disk = two_log;
        is_closed = false;
      })
      (pit ∷ den ∷ []) den_log-IsKept refl two_log-IsIterated refl

start_rooms-IsRestored_example :
    ((start_rooms log_store plain (λ s. s) (λ e. []) (new_node log_store plain den_log)).1.disk
      ≡ den_log)
    × IsRestored log_store plain
        (start_rooms log_store plain (λ s. s) (λ e. []) (new_node log_store plain den_log)).1.rooms
        (lookup den_log)
unfolding from_bytes list_all_rooms text
start_rooms-IsRestored_example =
    start_rooms-IsRestored log_store plain (λ s. s) (λ e. []) (new_node log_store plain den_log)
      (den ∷ []) refl den_log-IsKept.keyed den_log-IsIterated refl
