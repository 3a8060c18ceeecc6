-- ===== src/Server/Node/Requests/Additions.antt =====
-- The accesses of a request to add a room.
use fernq.Prelude.{◌≡◌, refl, sym, ap, ◌∙◌, subst, inl, inr, Result, ok, err, panic, stuck}
use fernq.Prelude.Bytes.{Bytes}
use fernq.Prelude.Action.{Post}
use fernq.Storage.{RoomModel, put, Fjall, Bincode, StorageError, new_model}
use fernq.Storage.Saved.{IsSaved, IsSavedOrNot}
use fernq.Server.Node.{open_room, set_rooms}
use fernq.Server.Node.Tables.{IsWithin, put_same, put-IsWithin}
use fernq.Server.Node.Requests.{add_job, JobPc, created, settled, after}
use fernq.Server.Node.Requests.Moves.{
  put_else, put-stored-IsWithin, N, IsStored, Going, StandsHere, on_disk, Moves,
}

module _ (fjall : Fjall) (bincode : Bincode) (show_uuid : Bytes → Bytes)
    (show_error : StorageError fjall.Error → Bytes) where
  open fjall use {Keyspace, Error, contents}

  module _ (id name pwd : Bytes) (node : N fjall bincode show_uuid show_error)
      (within : IsWithin node.rooms (contents node.disk)) where
    saved_else :
        (s : Keyspace)
        → IsSaved fjall bincode (new_model fjall bincode id name pwd) node.disk s
        → Moves fjall bincode show_uuid show_error
            (add_job id name pwd)
            node
            (on_disk fjall bincode show_uuid show_error node s)
    saved_else s (bytes, d, e) = record {
      rooms_else = λ k apart. refl;
      disk_else = λ k apart. ap (λ m. m k) e ∙ put_else id k bytes (contents node.disk) apart;
      kept_open = refl;
      takes_rooms = λ r k h. absurd (cc);
      takes_disk = λ r k h. absurd (cc);
    }

    kept_else :
        (s : Keyspace)
        → contents s ≡ contents node.disk
        → Moves fjall bincode show_uuid show_error
            (add_job id name pwd)
            node
            (on_disk fjall bincode show_uuid show_error node s)
    kept_else s e = record {
      rooms_else = λ k apart. refl;
      disk_else = λ k apart. ap (λ m. m k) e;
      kept_open = refl;
      takes_rooms = λ r k h. absurd (cc);
      takes_disk = λ r k h. absurd (cc);
    }

    saved-IsWithin :
        (s : Keyspace)
        → IsSaved fjall bincode (new_model fjall bincode id name pwd) node.disk s
        → IsWithin node.rooms (contents s)
    saved-IsWithin s (bytes, d, e) =
        subst (λ m. IsWithin node.rooms m) (sym e)
          (put-IsWithin id bytes node.rooms (contents node.disk) within)

    saved-IsStored :
        (s : Keyspace)
        → IsSaved fjall bincode (new_model fjall bincode id name pwd) node.disk s
        → IsStored fjall bincode show_uuid show_error
            (new_model fjall bincode id name pwd)
            (on_disk fjall bincode show_uuid show_error node s)
    saved-IsStored s (bytes, d, e) =
        (bytes, d, ap (λ m. m id) e ∙ put_same id bytes (contents node.disk))

    saved_or_not :
        (s : Keyspace) (p : JobPc (StorageError Error))
        → StandsHere fjall bincode show_uuid show_error
            (add_job id name pwd)
            p
            (on_disk fjall bincode show_uuid show_error node s)
        → IsSavedOrNot fjall bincode (new_model fjall bincode id name pwd) node.disk s
        → Going fjall bincode show_uuid show_error
            (add_job id name pwd)
            node
            (p, on_disk fjall bincode show_uuid show_error node s)
    saved_or_not s p h (inl saved) = record {
      moves = saved_else s saved;
      within = saved-IsWithin s saved;
      stands = h;
    }
    saved_or_not s p h (inr kept) = record {
      moves = kept_else s kept;
      within = subst (λ m. IsWithin node.rooms m) (sym kept) within;
      stands = h;
    }

    pub create-Going :
        (o : Result (StorageError Error) RoomModel × Keyspace)
        → Post
            (λ room s'.
              (room ≡ new_model fjall bincode id name pwd)
              × IsSaved fjall bincode (new_model fjall bincode id name pwd) node.disk s')
            (IsSavedOrNot fjall bincode (new_model fjall bincode id name pwd) node.disk)
            o
        → Going fjall bincode show_uuid show_error
            (add_job id name pwd)
            node
            (after o.0 created, on_disk fjall bincode show_uuid show_error node o.1)
    unfolding Post
    create-Going (ok room, s) (m, saved) = record {
      moves = saved_else s saved;
      within = saved-IsWithin s saved;
      stands = (m, saved-IsStored s saved);
    }
    create-Going (err e, s) h = saved_or_not s (settled (err e)) tt h
    create-Going (panic, s) h = saved_or_not s (settled panic) tt h
    create-Going (stuck, s) h = saved_or_not s (settled stuck) tt h

    pub open-Going :
        (room : RoomModel)
        → StandsHere fjall bincode show_uuid show_error (add_job id name pwd) (created room) node
        → Going fjall bincode show_uuid show_error (add_job id name pwd) node (
          settled (ok tt),
          set_rooms fjall bincode show_uuid show_error
              (put room.id (open_room room.id name) node.rooms)
              node,
        )
    open-Going room (m, (bytes, d, at)) =
        subst
          (λ (x : RoomModel). Going fjall bincode show_uuid show_error (add_job id name pwd) node (
            settled (ok tt),
            set_rooms fjall bincode show_uuid show_error (put x.id (open_room x.id name) node.rooms)
                node,
          ))
          (sym m)
          (record {
            moves = record {
              rooms_else = λ k apart. put_else id k (open_room id name) node.rooms apart;
              disk_else = λ k apart. refl;
              kept_open = refl;
              takes_rooms = λ r k h. absurd (cc);
              takes_disk = λ r k h. absurd (cc);
            };
            within =
                put-stored-IsWithin id (open_room id name) bytes node.rooms (contents node.disk) at
                  within;
            stands = ((bytes, d, at), λ open_still. put_same id (open_room id name) node.rooms);
          })
