-- ===== src/Server/Node/Requests/Alone.antt =====
-- A request that nothing comes between.
use fernq.Prelude.{
  ◌≡◌, refl, not, List, [], ◌∷◌, ◌++◌, is_nil, Bool, Result, ok, err, panic, stuck, fail_if,
}
use fernq.Prelude.Bytes.{Bytes}
use fernq.Prelude.Text.{text}
use fernq.Prelude.Action.{run_next}
use fernq.Storage.{
  RoomModel, put, delete, Fjall, Bincode, StorageError, other, create_room, find_rooms_by_name,
  room_exists, delete_room,
}
use fernq.Server.Node.{
  open_room, NodeAction, with_disk, set_rooms, existence, add_room, remove_room,
}
use fernq.Server.Node.Requests.{
  Job, add_job, remove_job, JobPc, asked, running, looked, created, settled, after, Node, checked,
  name_unused, access,
}

module _ (fjall : Fjall) (bincode : Bincode) (show_uuid : Bytes → Bytes)
    (show_error : StorageError fjall.Error → Bytes) where
  open fjall use {Keyspace, Error}

  abbrev pub At : Type 0
  At = JobPc (StorageError Error) × Node fjall bincode show_uuid show_error

  abbrev again : Job → At → At
  again job (p, node) = access fjall bincode show_uuid show_error job p node

  -- Four accesses, one after the other.
  abbrev pub alone : Job → Node fjall bincode show_uuid show_error → At
  alone job node = again job (again job (again job (again job (asked, node))))

  -- The function of the source for the request.
  abbrev pub whole : Job → NodeAction fjall bincode show_uuid show_error (Unit {0})
  whole (add_job id name pwd) = add_room fjall bincode show_uuid show_error id name pwd
  whole (remove_job id) = remove_room fjall bincode show_uuid show_error id

  abbrev pub answer_of :
      Result (StorageError Error) (Unit {0}) × Node fjall bincode show_uuid show_error → At
  answer_of (r, node) = (settled r, node)

  module _ (id name pwd : Bytes) (node : Node fjall bincode show_uuid show_error) where
    abbrev opens : RoomModel → NodeAction fjall bincode show_uuid show_error (Unit {0})
    opens model n = (
      ok tt,
      set_rooms fjall bincode show_uuid show_error (put model.id (open_room model.id name) n.rooms)
          n,
    )

    abbrev creates : NodeAction fjall bincode show_uuid show_error (Unit {0})
    creates n =
        run_next
          (with_disk fjall bincode show_uuid show_error n
            (create_room fjall bincode id name pwd n.disk))
          opens

    abbrev looks : List RoomModel → NodeAction fjall bincode show_uuid show_error (Unit {0})
    looks existing n =
        run_next
          (
            fail_if (not (is_nil existing))
                (other (text "Room '" ++ (name ++ text "' already exists"))),
            n,
          )
          (λ u. creates)

    after_create :
        (o : Result (StorageError Error) RoomModel × Keyspace)
        → again (add_job id name pwd) (
          after o.0 created,
          record { rooms = node.rooms; disk = o.1; is_closed = node.is_closed },
        )
          ≡ answer_of (run_next (with_disk fjall bincode show_uuid show_error node o) opens)
    after_create (ok model, s) = refl
    after_create (err e, s) = refl
    after_create (panic, s) = refl
    after_create (stuck, s) = refl

    after_look :
        (r : Result (StorageError Error) (List RoomModel))
        → again (add_job id name pwd) (
            again
              (add_job id name pwd)
              (after (name_unused fjall bincode show_uuid show_error name r) (λ u. looked), node))
          ≡ answer_of (run_next (r, node) looks)
    after_look (ok []) = after_create (create_room fjall bincode id name pwd node.disk)
    after_look (ok (model ∷ models)) = refl
    after_look (err e) = refl
    after_look panic = refl
    after_look stuck = refl

    after_check :
        (r : Result (StorageError Error) (Unit {0}))
        → again (add_job id name pwd) (
            again
              (add_job id name pwd)
              (again (add_job id name pwd) (after r (λ u. running), node)))
          ≡ answer_of (
              run_next
                (r, node)
                (λ u n. run_next (find_rooms_by_name fjall bincode name n.disk, n) looks))
    after_check (ok u) = after_look (find_rooms_by_name fjall bincode name node.disk)
    after_check (err e) = refl
    after_check panic = refl
    after_check stuck = refl

  module _ (id : Bytes) (node : Node fjall bincode show_uuid show_error) where
    abbrev deletes : NodeAction fjall bincode show_uuid show_error (Unit {0})
    deletes n =
        run_next
          (with_disk fjall bincode show_uuid show_error n (delete_room fjall bincode id n.disk))
          (λ existed m. (ok tt, m))

    abbrev taken_out : Node fjall bincode show_uuid show_error
    taken_out = set_rooms fjall bincode show_uuid show_error (delete id node.rooms) node

    deleted_last :
        (o : Result (StorageError Error) Bool × Keyspace)
        → (
          after o.0 (λ existed. settled (ok tt)),
          record { rooms = delete id node.rooms; disk = o.1; is_closed = node.is_closed },
        )
          ≡ answer_of (
              run_next
                (with_disk fjall bincode show_uuid show_error taken_out o)
                (λ existed m. (ok tt, m)))
    deleted_last (ok existed, s) = refl
    deleted_last (err e, s) = refl
    deleted_last (panic, s) = refl
    deleted_last (stuck, s) = refl

    after_found :
        (r : Result (StorageError Error) (Unit {0}))
        → again (remove_job id) (again (remove_job id) (after r (λ u. looked), node))
          ≡ answer_of (
              run_next
                (r, node)
                (λ u n.
                  deletes (set_rooms fjall bincode show_uuid show_error (delete id n.rooms) n)))
    after_found (ok u) = deleted_last (delete_room fjall bincode id node.disk)
    after_found (err e) = refl
    after_found panic = refl
    after_found stuck = refl

    after_open :
        (r : Result (StorageError Error) (Unit {0}))
        → again
            (remove_job id)
            (again (remove_job id) (again (remove_job id) (after r (λ u. running), node)))
          ≡ answer_of (
              run_next
                (r, node)
                (λ u n.
                  run_next
                    (
                      existence fjall bincode show_uuid show_error id
                          (room_exists fjall bincode id n.disk),
                      n,
                    )
                    (λ v m.
                      deletes
                        (set_rooms fjall bincode show_uuid show_error (delete id m.rooms) m))))
    after_open (ok u) =
        after_found
          (existence fjall bincode show_uuid show_error id (room_exists fjall bincode id node.disk))
    after_open (err e) = refl
    after_open panic = refl
    after_open stuck = refl

  -- The accesses of a request, one after the other, are `add_room` and `remove_room`: the same answer, and the
  -- same node.
  pub alone-whole :
      (job : Job) (node : Node fjall bincode show_uuid show_error)
      → alone job node ≡ answer_of (whole job node)
  unfolding add_room remove_room
  alone-whole (add_job id name pwd) node =
      after_check id name pwd node (checked fjall bincode show_uuid show_error node)
  alone-whole (remove_job id) node =
      after_open id node (checked fjall bincode show_uuid show_error node)
