-- ===== src/Server/Node/Restart.antt =====
-- The daemon is stopped and started again.
pub mod Tests
use fernq.Prelude.{
  ◌≡◌, refl, sym, ap, ◌∙◌, subst, fun_ext, inl, inr, Option, none, some, List, [], ◌∷◌, ◌++◌, Bool,
  Bool-cases, true, false, not, is_nil, Result, ok, err, panic, stuck, fail_if, ok-injective,
  if◌then◌else◌,
}
use fernq.Prelude.Bytes.{Bytes}
use fernq.Prelude.Text.{text, same, same_refl, same-eq}
use fernq.Prelude.Action.{Action, return, ◌>>=◌, Post, Post-run_read, Post-run_next, Post-ok}
use fernq.Storage.{
  RoomModel, put, delete, Fjall, Bincode, StorageError, other, from_bytes, new_model, create_room,
  find_rooms_by_name, room_exists, delete_room, list_all_rooms,
}
use fernq.Storage.Saved.{IsSaved, create_room_lem, IsDeleted, delete_room_lem}
use fernq.Storage.Listed.{Holds, IsKeyed, IsIterated, Holds-list_all_rooms}
use fernq.Server.Node.{
  Room, open_room, ServerNode, new_node, with_disk, set_rooms, existence, add_room, remove_room,
  start_rooms,
}
use fernq.Server.Node.Invariant.{Post-with_disk, with_state}
use fernq.Server.Node.Tables.{put_same, delete_same}
use fernq.Server.Node.Restored.{start_rooms-IsRestored}
use fernq.Server.Node.Kept.{IsKept, IsKeptNode, saved-IsKept, removed-IsKept}
use fernq.Server.Node.Requests.{Job, add_job, remove_job}
use fernq.Server.Node.Requests.Alone.{whole}

module _ (fjall : Fjall) (bincode : Bincode) where
  open fjall use {Keyspace, Error, contents}

  option_cases :
      {A : Type 0} {P : Type 0} (o : Option A) → (o ≡ none → P) → ((a : A) → o ≡ some a → P) → P
  option_cases none f g = f refl
  option_cases (some a) f g = g a refl

  module _ (show_uuid : Bytes → Bytes) (show_error : StorageError Error → Bytes) where
    opened-IsKept :
        (id name password : Bytes) (node node' : ServerNode fjall bincode) (model : RoomModel)
        → IsKeptNode fjall bincode node
        → node'.rooms ≡ node.rooms
        → model ≡ new_model fjall bincode id name password
        → IsSaved fjall bincode (new_model fjall bincode id name password) node.disk node'.disk
        → IsKept fjall bincode
            (put model.id (open_room model.id name) node'.rooms)
            (contents node'.disk)
    unfolding from_bytes
    opened-IsKept id name password node node' model v at m (bytes, d, e) =
        rw (at, m, e)
          (saved-IsKept fjall bincode node.rooms (contents node.disk)
            (new_model fjall bincode id name password) bytes (rw d refl) v)

    add_room-IsKept :
        (id name password : Bytes) (node : ServerNode fjall bincode)
        → IsKeptNode fjall bincode node
        → Post
            (λ u. IsKeptNode fjall bincode)
            (λ n. Unit {0})
            (add_room fjall bincode show_uuid show_error id name password node)
    unfolding add_room
    add_room-IsKept id name password node v =
        Post-run_read _ _ (fail_if node.is_closed (other (text "Server node is closed"))) node _
          (λ u e0.
            Post-run_read _ _ (find_rooms_by_name fjall bincode name node.disk) node _
              (λ existing e1.
                Post-run_read _ _
                  (fail_if (not (is_nil existing))
                    (other (text "Room '" ++ (name ++ text "' already exists"))))
                  node _
                  (λ u' e2.
                    Post-run_next _
                      (λ (model : RoomModel) node'.
                        (node'.rooms ≡ node.rooms)
                        × (model ≡ new_model fjall bincode id name password)
                        × IsSaved fjall bincode (new_model fjall bincode id name password) node.disk
                            node'.disk)
                      _
                      (with_disk fjall bincode show_uuid show_error node
                        (create_room fjall bincode id name password node.disk))
                      _
                      (Post-with_disk fjall bincode _ _ show_uuid show_error node _
                        (create_room_lem fjall bincode id name password node.disk)
                        (λ model s (m, saved). (refl, m, saved)) (λ s either. tt))
                      λ model node' (at, m, saved).
                        Post-ok _ _ _ tt _
                          (opened-IsKept id name password node node' model v at m saved))
                  tt)
              tt)
          tt

    remove_room-IsKept :
        (id : Bytes) (node : ServerNode fjall bincode)
        → IsKeptNode fjall bincode node
        → Post
            (λ u. IsKeptNode fjall bincode)
            (λ n. Unit {0})
            (remove_room fjall bincode show_uuid show_error id node)
    unfolding remove_room
    remove_room-IsKept id node v =
        Post-run_read _ _ (fail_if node.is_closed (other (text "Server node is closed"))) node _
          (λ u e0.
            Post-run_read _ _
              (existence fjall bincode show_uuid show_error id
                (room_exists fjall bincode id node.disk))
              node _
              (λ u' e1.
                Post-run_next _ (λ (existed : Bool). IsKeptNode fjall bincode) _
                  (with_disk fjall bincode show_uuid show_error
                    (with_state fjall bincode (delete id node.rooms) node.disk node.is_closed)
                    (delete_room fjall bincode id node.disk))
                  _
                  (Post-with_disk fjall bincode _ _ show_uuid show_error
                    (with_state fjall bincode (delete id node.rooms) node.disk node.is_closed) _
                    (delete_room_lem fjall bincode id node.disk)
                    (λ existed s gone. removed-IsKept fjall bincode node id existed s v gone)
                    (λ s either. tt))
                  λ existed node' w. Post-ok _ _ _ tt node' w)
              tt)
          tt

    -- Requests one after the other, up to the first that fails.
    abbrev pub all_done :
        List Job → Action (ServerNode fjall bincode) (StorageError Error) (Unit {0})
    all_done [] = return tt
    all_done (job ∷ jobs) = whole fjall bincode show_uuid show_error job >>= λ u. all_done jobs

    whole-IsKept :
        (job : Job) (node : ServerNode fjall bincode)
        → IsKeptNode fjall bincode node
        → Post
            (λ u. IsKeptNode fjall bincode)
            (λ n. Unit {0})
            (whole fjall bincode show_uuid show_error job node)
    whole-IsKept (add_job id name pwd) node v = add_room-IsKept id name pwd node v
    whole-IsKept (remove_job id) node v = remove_room-IsKept id node v

    all_done-IsKept :
        (jobs : List Job) (node : ServerNode fjall bincode)
        → IsKeptNode fjall bincode node
        → Post (λ u. IsKeptNode fjall bincode) (λ n. Unit {0}) (all_done jobs node)
    all_done-IsKept [] node v = Post-ok _ _ _ tt node v
    all_done-IsKept (job ∷ jobs) node v =
        Post-run_next _ (λ u. IsKeptNode fjall bincode) _
          (whole fjall bincode show_uuid show_error job node) _ (whole-IsKept job node v)
          λ u node' w. all_done-IsKept jobs node' w

    restart-rooms :
        (node : ServerNode fjall bincode) (models : List RoomModel)
        → IsKeptNode fjall bincode node
        → IsIterated fjall bincode node.disk
        → list_all_rooms fjall bincode node.disk ≡ ok models
        → (start_rooms fjall bincode show_uuid show_error
            (new_node fjall bincode node.disk)).1.rooms
          ≡ node.rooms
    restart-rooms node models v iterated listed =
        let again =
          (start_rooms-IsRestored fjall bincode show_uuid show_error
            (new_node fjall bincode node.disk) models refl v.keyed iterated listed).1 in
        fun_ext λ k.
          option_cases (contents node.disk k)
            (λ h. again.missing k h ∙ sym (v.restored.missing k h))
            λ w at.
              let (model, among, d) =
                Holds-list_all_rooms fjall bincode node.disk models listed k w at in
              again.present k model (w, at, d) ∙ sym (v.restored.present k model (w, at, d))

    -- On a node whose table holds exactly the stored rooms, each under its id: after requests to add and to remove
    -- rooms that all succeeded, a daemon that is started on that disk has the same table, if the disk can be
    -- read and an iteration meets entries only.
    pub all_done-restart :
        (jobs : List Job) (node node' : ServerNode fjall bincode) (models : List RoomModel)
        → IsKeptNode fjall bincode node
        → all_done jobs node ≡ (ok tt, node')
        → IsIterated fjall bincode node'.disk
        → list_all_rooms fjall bincode node'.disk ≡ ok models
        → (start_rooms fjall bincode show_uuid show_error
            (new_node fjall bincode node'.disk)).1.rooms
          ≡ node'.rooms
    unfolding Post
    all_done-restart jobs node node' models v served iterated listed =
        restart-rooms node' models
          (subst (Post (λ u. IsKeptNode fjall bincode) (λ n. Unit {0})) served
            (all_done-IsKept jobs node v))
          iterated listed
