-- ===== src/Server/Node/Requests/Lost.antt =====
-- A room that is removed while it is added.
use native.Mathlib.Decide.{ℕ_discrete}
use fernq.Prelude.{
  ℕ, zero, suc, ◌≡◌, refl, sym, ap, ◌∙◌, subst, inl, inr, true, false, Bool, Option, none, some, [],
  ◌∷◌, ◌++◌, ok, err,
}
use fernq.Prelude.Bytes.{Bytes}
use fernq.Prelude.Text.{text}
use fernq.Prelude.Action.{Post}
use fernq.Storage.{
  RoomModel, delete, Fjall, Bincode, StorageError, other, create_room, find_rooms_by_name,
  room_exists, delete_room,
}
use fernq.Storage.Saved.{IsDeleted, IsDeletedOrNot, delete_room_lem}
use fernq.Storage.ReadBack.{create_room-IsSaved}
use fernq.Server.Node.{open_room, ServerNode, remove_room}
use fernq.Server.Node.Tables.{put_same, delete_same}
use fernq.Server.Node.Requests.{Job, add_job, remove_job, settled, Jobs, start, turns}

-- One request adds a room, and the others remove the room of that UUID.
abbrev pub add_and_remove : (id name pwd : Bytes) → ℕ → Job
add_and_remove id name pwd zero = add_job id name pwd
add_and_remove id name pwd (suc i) = remove_job id

module _ (fjall : Fjall) (bincode : Bincode) (show_uuid : Bytes → Bytes)
    (show_error : StorageError fjall.Error → Bytes) where
  open fjall use {Keyspace, Error, contents}

  -- The removal comes between the creation of the room and its entry into the table.
  abbrev pub removed_between :
      (id name pwd : Bytes) → ServerNode fjall bincode → Jobs fjall bincode show_uuid show_error
  unfolding turns ℕ_discrete
  removed_between id name pwd node =
      turns fjall bincode show_uuid show_error (add_and_remove id name pwd)
        (0 ∷ 0 ∷ 0 ∷ 1 ∷ 1 ∷ 1 ∷ 1 ∷ 0 ∷ []) (start fjall bincode show_uuid show_error node)

  gone_from_disk :
      (id : Bytes) (s t : Keyspace) (existed : Bool)
      → delete_room fjall bincode id s ≡ (ok existed, t)
      → contents t id ≡ none
  unfolding Post
  gone_from_disk id s t existed h =
      let gone : IsDeleted fjall bincode id s existed t =
        subst (λ r. Post (IsDeleted fjall bincode id s) (IsDeletedOrNot fjall bincode id s) r) h
          (delete_room_lem fjall bincode id s) in
      elim gone [
        | inl (e, deleted) ↦ ap (λ m. m id) deleted ∙ delete_same id (contents s)
        | inr (e, missing, kept) ↦ ap (λ m. m id) kept ∙ missing
      ]

  not_found :
      (id : Bytes) (node : ServerNode fjall bincode) (o : Option Bytes)
      → node.is_closed ≡ false
      → contents node.disk id ≡ none
      → fjall.get id node.disk ≡ ok o
      → remove_room fjall bincode show_uuid show_error id node
        ≡ (err (other (text "Room '" ++ (show_uuid id ++ text "' not found"))), node)
  unfolding remove_room room_exists
  not_found id node o running gone read =
      let nothing : fjall.get id node.disk ≡ ok none =
        read ∙ ap ok (sym (fjall.get-contents id node.disk o read) ∙ gone) in
      rw (running, nothing)

  -- On a running node with no stored room of the name, on a disk that accepts a new room, finds it and
  -- deletes it: when a room is removed between its creation on the disk and its entry into the table, both
  -- requests are answered with success; the room is open and not on the disk; and if the disk can be read,
  -- another removal of it is refused as not found and leaves the node as it is.
  pub removed_between_lost :
      (id name pwd : Bytes) (node : ServerNode fjall bincode) (room : RoomModel)
      (disk_a disk_b : Keyspace) (existed : Bool) (o : Option Bytes)
      → node.is_closed ≡ false
      → find_rooms_by_name fjall bincode name node.disk ≡ ok []
      → create_room fjall bincode id name pwd node.disk ≡ (ok room, disk_a)
      → room_exists fjall bincode id disk_a ≡ ok true
      → delete_room fjall bincode id disk_a ≡ (ok existed, disk_b)
      → fjall.get id disk_b ≡ ok o
      → ((removed_between id name pwd node).pc 0 ≡ settled (ok tt))
        × ((removed_between id name pwd node).pc 1 ≡ settled (ok tt))
        × ((removed_between id name pwd node).node.rooms id ≡ some (open_room id name))
        × (contents (removed_between id name pwd node).node.disk id ≡ none)
        × (remove_room fjall bincode show_uuid show_error id (removed_between id name pwd node).node
            ≡ (
              err (other (text "Room '" ++ (show_uuid id ++ text "' not found"))),
              (removed_between id name pwd node).node,
            ))
  unfolding removed_between turns ℕ_discrete
  removed_between_lost id name pwd node room disk_a disk_b existed o running unused made found
        deleted read =
      let (m, saved) = create_room-IsSaved fjall bincode id name pwd node.disk disk_a room made in
      let gone = gone_from_disk id disk_a disk_b existed deleted in
      rw (running, unused, made, found, deleted, m)
        (
          refl,
          refl,
          put_same id (open_room id name) (delete id node.rooms),
          gone,
          not_found id _ o refl gone read,
        )
