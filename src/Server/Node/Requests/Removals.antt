-- ===== src/Server/Node/Requests/Removals.antt =====
-- The accesses of a request to remove a room.
use fernq.Prelude.{
  Bool, ◌≡◌, refl, sym, ap, ◌∙◌, subst, inl, inr, none, Result, ok, err, panic, stuck,
}
use fernq.Prelude.Bytes.{Bytes}
use fernq.Prelude.Action.{Post}
use fernq.Storage.{delete, Fjall, Bincode, StorageError}
use fernq.Storage.Saved.{IsDeleted, IsDeletedOrNot}
use fernq.Server.Node.{set_rooms}
use fernq.Server.Node.Tables.{IsWithin, delete_same, delete-IsWithin}
use fernq.Server.Node.Requests.{remove_job, JobPc, taken, settled, after}
use fernq.Server.Node.Requests.Moves.{
  delete_else, delete-none, delete-absent-IsWithin, N, Going, StandsHere, on_disk,
}

module _ (fjall : Fjall) (bincode : Bincode) (show_uuid : Bytes → Bytes)
    (show_error : StorageError fjall.Error → Bytes) where
  open fjall use {Keyspace, Error, contents}

  module _ (id : Bytes) (node : N fjall bincode show_uuid show_error)
      (within : IsWithin node.rooms (contents node.disk)) where
    pub take-Going :
        Going fjall bincode show_uuid show_error
          (remove_job id)
          node
          (taken, set_rooms fjall bincode show_uuid show_error (delete id node.rooms) node)
    take-Going = record {
      moves = record {
        rooms_else = λ k apart. delete_else id k node.rooms apart;
        disk_else = λ k apart. refl;
        kept_open = refl;
        takes_rooms = λ r k h. delete-none id k node.rooms h;
        takes_disk = λ r k h. h;
      };
      within = delete-IsWithin id node.rooms (contents node.disk) within;
      stands = delete_same id node.rooms;
    }

    deleted-Going :
        (s : Keyspace) (p : JobPc (StorageError Error))
        → node.rooms id ≡ none
        → contents s ≡ delete id (contents node.disk)
        → StandsHere fjall bincode show_uuid show_error
            (remove_job id)
            p
            (on_disk fjall bincode show_uuid show_error node s)
        → Going fjall bincode show_uuid show_error
            (remove_job id)
            node
            (p, on_disk fjall bincode show_uuid show_error node s)
    deleted-Going s p gone e h = record {
      moves = record {
        rooms_else = λ k apart. refl;
        disk_else = λ k apart. ap (λ m. m k) e ∙ delete_else id k (contents node.disk) apart;
        kept_open = refl;
        takes_rooms = λ r k none_there. none_there;
        takes_disk =
            λ r k none_there. ap (λ m. m k) e ∙ delete-none id k (contents node.disk) none_there;
      };
      within =
          subst (λ m. IsWithin node.rooms m) (sym e)
            (delete-absent-IsWithin id node.rooms (contents node.disk) gone within);
      stands = h;
    }

    kept-Going :
        (s : Keyspace) (p : JobPc (StorageError Error))
        → contents s ≡ contents node.disk
        → StandsHere fjall bincode show_uuid show_error
            (remove_job id)
            p
            (on_disk fjall bincode show_uuid show_error node s)
        → Going fjall bincode show_uuid show_error
            (remove_job id)
            node
            (p, on_disk fjall bincode show_uuid show_error node s)
    kept-Going s p e h = record {
      moves = record {
        rooms_else = λ k apart. refl;
        disk_else = λ k apart. ap (λ m. m k) e;
        kept_open = refl;
        takes_rooms = λ r k none_there. none_there;
        takes_disk = λ r k none_there. ap (λ m. m k) e ∙ none_there;
      };
      within = subst (λ m. IsWithin node.rooms m) (sym e) within;
      stands = h;
    }

    deleted_or_not :
        (s : Keyspace) (p : JobPc (StorageError Error))
        → node.rooms id ≡ none
        → StandsHere fjall bincode show_uuid show_error
            (remove_job id)
            p
            (on_disk fjall bincode show_uuid show_error node s)
        → IsDeletedOrNot fjall bincode id node.disk s
        → Going fjall bincode show_uuid show_error
            (remove_job id)
            node
            (p, on_disk fjall bincode show_uuid show_error node s)
    deleted_or_not s p gone h (inl deleted) = deleted-Going s p gone deleted h
    deleted_or_not s p gone h (inr kept) = kept-Going s p kept h

    pub delete-Going :
        (o : Result (StorageError Error) Bool × Keyspace)
        → node.rooms id ≡ none
        → Post (IsDeleted fjall bincode id node.disk) (IsDeletedOrNot fjall bincode id node.disk) o
        → Going fjall bincode show_uuid show_error (remove_job id) node (
          after o.0 (λ existed. settled (ok tt)),
          on_disk fjall bincode show_uuid show_error node o.1,
        )
    unfolding Post
    delete-Going (ok existed, s) gone (inl (t, e)) =
        deleted-Going s (settled (ok tt)) gone e
          (gone, ap (λ m. m id) e ∙ delete_same id (contents node.disk))
    delete-Going (ok existed, s) gone (inr (f, missing, e)) =
        kept-Going s (settled (ok tt)) e (gone, ap (λ m. m id) e ∙ missing)
    delete-Going (err e, s) gone h = deleted_or_not s (settled (err e)) gone tt h
    delete-Going (panic, s) gone h = deleted_or_not s (settled panic) gone tt h
    delete-Going (stuck, s) gone h = deleted_or_not s (settled stuck) gone tt h
