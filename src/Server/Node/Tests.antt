-- ===== src/Server/Node/Tests.antt =====
-- The theorems on the node at a concrete store.
use fernq.Prelude.{◌≡◌, false, none, some, [], ◌∷◌}
use fernq.Prelude.Bytes.{Bytes}
use fernq.Prelude.Text.{text}
use fernq.Storage.{put, RoomModel}
use fernq.Storage.Names.{HasUniqueNames-put}
use fernq.Storage.Tests.{
  Log, log_store, plain, lookup, den, den_log, written_room, read_room-written_room,
}
use fernq.Server.Node.{Room, open_room, ServerNode}
use fernq.Server.Node.Tables.{put-put-IsWithin}
use fernq.Server.Node.Invariant.{IsSound}

no_room : {r : Room} → ¬ (none ≡ some r)
no_room h = cc

nothing_known : {a : Bytes} → ¬ (none ≡ some a)
nothing_known h = cc

abbrev pub empty_node : ServerNode log_store plain
empty_node = record { rooms = λ k. none; disk = []; is_closed = false }

pub empty_node-IsSound : IsSound log_store plain empty_node
empty_node-IsSound = record {
  names = λ k j v w r q at. absurd (nothing_known at);
  stored = λ k r at. absurd (no_room at);
}

-- A node with one room, stored and open.
abbrev pub den_node : ServerNode log_store plain
den_node = record {
  rooms = put (1 ∷ []) (open_room (1 ∷ []) (text "den")) (λ k. none);
  disk = den_log;
  is_closed = false;
}

pub den_node-IsSound : IsSound log_store plain den_node
den_node-IsSound = record {
  names =
      HasUniqueNames-put log_store plain (lookup []) (written_room den) den empty_node-IsSound.names
        (λ k v r at. absurd (nothing_known at)) (read_room-written_room den);
  stored =
      put-put-IsWithin (1 ∷ []) (open_room (1 ∷ []) (text "den")) (written_room den) (λ k. none)
        (lookup []) empty_node-IsSound.stored;
}

-- A second room is added next to the first.
abbrev pub pit : RoomModel
pit = record { id = 2 ∷ []; name = text "pit"; password = text "dog" }

abbrev pub two_log : Log
two_log = (2 ∷ [], some (written_room pit)) ∷ den_log
