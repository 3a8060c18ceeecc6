-- ===== src/Server/Node/Requests/Race.antt =====
-- Two requests for one name, taken in turns.
use native.Mathlib.Decide.{ℕ_discrete}
use fernq.Prelude.{ℕ, zero, suc, ◌≡◌, refl, sym, ap, ◌∙◌, subst, false, true, some, [], ◌∷◌, ok}
use fernq.Prelude.Bytes.{Bytes}
use fernq.Prelude.Text.{same, same_refl}
use fernq.Storage.{
  RoomModel, Fjall, Bincode, StorageError, create_room, find_rooms_by_name, from_bytes,
}
use fernq.Storage.Saved.{IsSaved}
use fernq.Storage.Names.{HasUniqueNames}
use fernq.Storage.ReadBack.{create_room-IsSaved}
use fernq.Server.Node.Tables.{put_same}
use fernq.Server.Node.{ServerNode}
use fernq.Server.Node.Requests.{Job, add_job, settled, Jobs, start, turns}

-- The requests with the numbers 0 and 1 add rooms of one name.
abbrev pub both_add : (a b name pwd_a pwd_b : Bytes) → ℕ → Job
both_add a b name pwd_a pwd_b zero = add_job a name pwd_a
both_add a b name pwd_a pwd_b (suc n) = add_job b name pwd_b

module _ (fjall : Fjall) (bincode : Bincode) (show_uuid : Bytes → Bytes)
    (show_error : StorageError fjall.Error → Bytes) where
  open fjall use {Keyspace, Error, contents}

  -- Both look, and then both create.
  abbrev pub crossed :
      (ℕ → Job) → ServerNode fjall bincode → Jobs fjall bincode show_uuid show_error
  unfolding turns ℕ_discrete
  crossed jobs node =
      turns fjall bincode show_uuid show_error jobs (0 ∷ 1 ∷ 0 ∷ 1 ∷ 0 ∷ 1 ∷ 0 ∷ 1 ∷ [])
        (start fjall bincode show_uuid show_error node)

  -- Two saved rooms of one name under different ids.
  names_repeat :
      (a b : RoomModel) (s t u : Keyspace)
      → a.name ≡ b.name
      → same b.id a.id ≡ false
      → IsSaved fjall bincode a s t
      → IsSaved fjall bincode b t u
      → ¬ HasUniqueNames fjall bincode (contents u)
  unfolding from_bytes
  names_repeat a b s t u named apart (x, dx, ex) (y, dy, ey) unique =
      let at_a : contents u a.id ≡ some x =
        ap (λ m. m a.id) ey ∙ rw apart (ap (λ m. m a.id) ex ∙ put_same a.id x (contents s)) in
      let at_b : contents u b.id ≡ some y = ap (λ m. m b.id) ey ∙ put_same b.id y (contents t) in
      let one : b.id ≡ a.id = unique b.id a.id y x b a at_b at_a (rw dy) (rw dx) (sym named) in
      let equal : same b.id a.id ≡ true = subst (λ k. same b.id k ≡ true) one (same_refl b.id) in
      absurd (cc)

  -- On a running node with no stored room of the name: when two requests to add a room of that name, under
  -- different UUIDs, take turns, so that both look at the names before either creates its room, and the disk
  -- accepts both rooms, both are answered with success, and the names on the disk are not unique.
  pub crossed_repeats :
      (a b name pwd_a pwd_b : Bytes) (node : ServerNode fjall bincode) (room_a room_b : RoomModel)
      (disk_a disk_b : Keyspace)
      → node.is_closed ≡ false
      → same b a ≡ false
      → find_rooms_by_name fjall bincode name node.disk ≡ ok []
      → create_room fjall bincode a name pwd_a node.disk ≡ (ok room_a, disk_a)
      → create_room fjall bincode b name pwd_b disk_a ≡ (ok room_b, disk_b)
      → ((crossed (both_add a b name pwd_a pwd_b) node).pc 0 ≡ settled (ok tt))
        × ((crossed (both_add a b name pwd_a pwd_b) node).pc 1 ≡ settled (ok tt))
        × ¬ HasUniqueNames fjall bincode
            (contents (crossed (both_add a b name pwd_a pwd_b) node).node.disk)
  unfolding crossed turns ℕ_discrete
  crossed_repeats a b name pwd_a pwd_b node room_a room_b disk_a disk_b running apart unused made_a
        made_b =
      let (same_a, saved_a) =
        create_room-IsSaved fjall bincode a name pwd_a node.disk disk_a room_a made_a in
      let (same_b, saved_b) =
        create_room-IsSaved fjall bincode b name pwd_b disk_a disk_b room_b made_b in
      rw (running, unused, made_a, made_b)
        (refl, refl, names_repeat _ _ node.disk disk_a disk_b refl apart saved_a saved_b)
