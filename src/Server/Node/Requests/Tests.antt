-- ===== src/Server/Node/Requests/Tests.antt =====
-- Requests that take turns, at a concrete store.
use fernq.Prelude.{
  ℕ, zero, suc, ◌≡◌, refl, inl, inr, true, none, some, List, [], ◌∷◌, ◌++◌, ok, err,
}
use fernq.Prelude.Text.{text, same}
use fernq.Storage.{
  RoomModel, other, find_rooms_by_name, create_room, save_room, to_bytes, from_bytes, room_exists,
  delete_room,
}
use fernq.Storage.Tests.{Log, log_store, plain, lookup, den, den_log, written_room}
use fernq.Server.Node.{open_room, remove_room}
use fernq.Server.Node.Tests.{empty_node, den_node, den_node-IsSound}
use fernq.Server.Node.Requests.{Job, add_job, remove_job, settled, start, turns}
use fernq.Server.Node.Requests.Settled.{AreApart, IsSettled, start-turns, Reach-IsSettled}
use fernq.Storage.Names.{HasUniqueNames}
use fernq.Server.Node.Requests.Race.{both_add, crossed, crossed_repeats}
use fernq.Server.Node.Requests.Lost.{removed_between, removed_between_lost}

-- The lair is added, and the den is removed by all others.
abbrev lair_for_den : ℕ → Job
lair_for_den zero = add_job (2 ∷ []) (text "lair") (text "key")
lair_for_den (suc i) = remove_job (1 ∷ [])

lair_for_den-AreApart : AreApart lair_for_den
unfolding same
lair_for_den-AreApart zero zero h = absurd (h refl)
lair_for_den-AreApart zero (suc j) h = inl refl
lair_for_den-AreApart (suc i) zero h = inl refl
lair_for_den-AreApart (suc i) (suc j) h = inr (refl, refl)

abbrev in_turn : List ℕ
in_turn = 0 ∷ 1 ∷ 0 ∷ 1 ∷ 2 ∷ 0 ∷ 1 ∷ 2 ∷ 0 ∷ 1 ∷ 2 ∷ []

Reach-IsSettled_example :
    IsSettled log_store plain
      (λ s. s)
      (λ e. [])
      lair_for_den
      den_node
      (turns log_store plain
        (λ s. s)
        (λ e. [])
        lair_for_den
        in_turn
        (start log_store plain (λ s. s) (λ e. []) den_node))
Reach-IsSettled_example =
    Reach-IsSettled log_store plain (λ s. s) (λ e. []) lair_for_den den_node lair_for_den-AreApart
      den_node-IsSound.stored
      (start-turns log_store plain (λ s. s) (λ e. []) lair_for_den den_node in_turn)

abbrev no_den : Log
no_den = (1 ∷ [], none) ∷ den_log

removed_between_lost_example :
    ((removed_between log_store plain
          (λ s. s)
          (λ e. [])
          (1 ∷ [])
          (text "den")
          (text "cat")
          empty_node).pc
        0
      ≡ settled (ok tt))
    × ((removed_between log_store plain
            (λ s. s)
            (λ e. [])
            (1 ∷ [])
            (text "den")
            (text "cat")
            empty_node).pc
          1
        ≡ settled (ok tt))
    × ((removed_between log_store plain
            (λ s. s)
            (λ e. [])
            (1 ∷ [])
            (text "den")
            (text "cat")
            empty_node).node.rooms
          (1 ∷ [])
        ≡ some (open_room (1 ∷ []) (text "den")))
    × (lookup
          (removed_between log_store plain
            (λ s. s)
            (λ e. [])
            (1 ∷ [])
            (text "den")
            (text "cat")
            empty_node).node.disk
          (1 ∷ [])
        ≡ none)
    × (remove_room log_store plain
          (λ s. s)
          (λ e. [])
          (1 ∷ [])
          (removed_between log_store plain
            (λ s. s)
            (λ e. [])
            (1 ∷ [])
            (text "den")
            (text "cat")
            empty_node).node
        ≡ (
          err (other (text "Room '" ++ ((1 ∷ []) ++ text "' not found"))),
          (removed_between log_store plain
              (λ s. s)
              (λ e. [])
              (1 ∷ [])
              (text "den")
              (text "cat")
              empty_node).node,
        ))
unfolding find_rooms_by_name create_room save_room to_bytes from_bytes room_exists delete_room text
    same
removed_between_lost_example =
    removed_between_lost log_store plain (λ s. s) (λ e. []) (1 ∷ []) (text "den") (text "cat")
      empty_node den den_log no_den true none refl refl refl refl refl refl

-- Two requests for "den" on a node without rooms.
abbrev other_den : RoomModel
other_den = record { id = 2 ∷ []; name = text "den"; password = text "dog" }

abbrev two_dens : Log
two_dens = (2 ∷ [], some (written_room other_den)) ∷ den_log

abbrev both_den : ℕ → Job
both_den = both_add (1 ∷ []) (2 ∷ []) (text "den") (text "cat") (text "dog")

crossed_repeats_example :
    ((crossed log_store plain (λ s. s) (λ e. []) both_den empty_node).pc 0 ≡ settled (ok tt))
    × ((crossed log_store plain (λ s. s) (λ e. []) both_den empty_node).pc 1 ≡ settled (ok tt))
    × ¬ HasUniqueNames log_store plain
        (lookup (crossed log_store plain (λ s. s) (λ e. []) both_den empty_node).node.disk)
unfolding find_rooms_by_name create_room save_room to_bytes from_bytes text same
crossed_repeats_example =
    crossed_repeats log_store plain (λ s. s) (λ e. []) (1 ∷ []) (2 ∷ []) (text "den") (text "cat")
      (text "dog") empty_node den other_den den_log two_dens refl refl refl refl refl
