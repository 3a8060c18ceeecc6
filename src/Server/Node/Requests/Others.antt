-- ===== src/Server/Node/Requests/Others.antt =====
-- What one request may rely on survives the accesses of the others.

use fernq.Prelude.{◌≡◌, sym, ◌∙◌, ◌⊎◌, inl, inr, true, false, none, ok, err, panic, stuck}
use fernq.Prelude.Bytes.{Bytes}
use fernq.Prelude.Text.{same}
use fernq.Storage.{Fjall, Bincode, StorageError, new_model}
use fernq.Server.Node.Requests.{
  Job, add_job, remove_job, target, is_removal, JobPc, asked, running, looked, taken, created,
  settled,
}
use fernq.Server.Node.Requests.Moves.{N, IsStored, Stands, Moves}

module _ (fjall : Fjall) (bincode : Bincode) (show_uuid : Bytes → Bytes)
    (show_error : StorageError fjall.Error → Bytes) where
  open fjall use {Error, contents}

  abbrev StandsHere :
      Job → JobPc (StorageError Error) → N fjall bincode show_uuid show_error → Type 0
  StandsHere job p node = Stands fjall bincode show_uuid show_error job p node

  module _ (job : Job) (node node' : N fjall bincode show_uuid show_error)
      (m : Moves fjall bincode show_uuid show_error job node node') where
    IsStored-Moves :
        (id name pwd : Bytes)
        → same (target job) id ≡ false
        → IsStored fjall bincode show_uuid show_error (new_model fjall bincode id name pwd) node
        → IsStored fjall bincode show_uuid show_error (new_model fjall bincode id name pwd) node'
    IsStored-Moves id name pwd apart (bytes, d, at) = (bytes, d, m.disk_else id apart ∙ at)

    rooms_none :
        (id : Bytes)
        → (same (target job) id ≡ false) ⊎ ((is_removal job ≡ true) × (true ≡ true))
        → node.rooms id ≡ none
        → node'.rooms id ≡ none
    rooms_none id (inl apart) h = m.rooms_else id apart ∙ h
    rooms_none id (inr (r, q)) h = m.takes_rooms r id h

    disk_none :
        (id : Bytes)
        → (same (target job) id ≡ false) ⊎ ((is_removal job ≡ true) × (true ≡ true))
        → contents node.disk id ≡ none
        → contents node'.disk id ≡ none
    disk_none id (inl apart) h = m.disk_else id apart ∙ h
    disk_none id (inr (r, q)) h = m.takes_disk r id h

    -- An access of one request takes nothing from another.
    pub Stands-Moves :
        (other : Job) (p : JobPc (StorageError Error))
        → (same (target job) (target other) ≡ false)
          ⊎ ((is_removal job ≡ true) × (is_removal other ≡ true))
        → StandsHere other p node
        → StandsHere other p node'
    Stands-Moves (add_job id name pwd) p (inr (r, q)) h = absurd (cc)
    Stands-Moves (add_job id name pwd) (created room) (inl apart) (e, stored) =
        (e, IsStored-Moves id name pwd apart stored)
    Stands-Moves (add_job id name pwd) (settled (ok u)) (inl apart) (stored, opened) = (
      IsStored-Moves id name pwd apart stored,
      λ open_still. m.rooms_else id apart ∙ opened (sym m.kept_open ∙ open_still),
    )
    Stands-Moves (add_job id name pwd) (settled (err e)) (inl apart) h = tt
    Stands-Moves (add_job id name pwd) (settled panic) (inl apart) h = tt
    Stands-Moves (add_job id name pwd) (settled stuck) (inl apart) h = tt
    Stands-Moves (add_job id name pwd) asked (inl apart) h = tt
    Stands-Moves (add_job id name pwd) running (inl apart) h = tt
    Stands-Moves (add_job id name pwd) looked (inl apart) h = tt
    Stands-Moves (add_job id name pwd) taken (inl apart) h = tt
    Stands-Moves (remove_job id) taken apart h = rooms_none id apart h
    Stands-Moves (remove_job id) (settled (ok u)) apart (h, k) =
        (rooms_none id apart h, disk_none id apart k)
    Stands-Moves (remove_job id) (settled (err e)) apart h = tt
    Stands-Moves (remove_job id) (settled panic) apart h = tt
    Stands-Moves (remove_job id) (settled stuck) apart h = tt
    Stands-Moves (remove_job id) asked apart h = tt
    Stands-Moves (remove_job id) running apart h = tt
    Stands-Moves (remove_job id) looked apart h = tt
    Stands-Moves (remove_job id) (created room) apart h = tt
