-- ===== src/Server/Node/Requests/Accesses.antt =====
-- Each access of a request keeps the table within the disk, and leaves what the request may rely on next.
use fernq.Prelude.{Result, ok, err, panic, stuck}
use fernq.Prelude.Bytes.{Bytes}
use fernq.Storage.{Fjall, Bincode, StorageError, create_room, delete_room}
use fernq.Storage.Saved.{create_room_lem, delete_room_lem}
use fernq.Server.Node.Tables.{IsWithin}
use fernq.Server.Node.Requests.{
  Job, add_job, remove_job, JobPc, asked, running, looked, taken, created, settled, after, access,
}
use fernq.Server.Node.Requests.Moves.{N, Going, StandsHere, stays}
use fernq.Server.Node.Requests.Additions.{create-Going, open-Going}
use fernq.Server.Node.Requests.Removals.{take-Going, delete-Going}

module _ (fjall : Fjall) (bincode : Bincode) (show_uuid : Bytes → Bytes)
    (show_error : StorageError fjall.Error → Bytes) where
  open fjall use {Keyspace, Error, contents}

  still :
      (job : Job) (node : N fjall bincode show_uuid show_error) (p : JobPc (StorageError Error))
      → IsWithin node.rooms (contents node.disk)
      → StandsHere fjall bincode show_uuid show_error job p node
      → Going fjall bincode show_uuid show_error job node (p, node)
  still job node p within h = record {
    moves = stays fjall bincode show_uuid show_error job node;
    within = within;
    stands = h;
  }

  -- A test leads to the next access, if it passes.
  tested :
      (job : Job) (node : N fjall bincode show_uuid show_error)
      (r : Result (StorageError Error) (Unit {0})) (next : JobPc (StorageError Error))
      → IsWithin node.rooms (contents node.disk)
      → StandsHere fjall bincode show_uuid show_error job next node
      → Going fjall bincode show_uuid show_error job node (after r (λ u. next), node)
  tested job node (ok u) next within h = still job node next within h
  tested (add_job id name pwd) node (err e) next within h = still _ node _ within tt
  tested (add_job id name pwd) node panic next within h = still _ node _ within tt
  tested (add_job id name pwd) node stuck next within h = still _ node _ within tt
  tested (remove_job id) node (err e) next within h = still _ node _ within tt
  tested (remove_job id) node panic next within h = still _ node _ within tt
  tested (remove_job id) node stuck next within h = still _ node _ within tt

  -- Every access, at every point of a request.
  pub access-Goes :
      (job : Job) (p : JobPc (StorageError Error)) (node : N fjall bincode show_uuid show_error)
      → IsWithin node.rooms (contents node.disk)
      → StandsHere fjall bincode show_uuid show_error job p node
      → Going fjall bincode show_uuid show_error job node
          (access fjall bincode show_uuid show_error job p node)
  access-Goes (add_job id name pwd) asked node within h =
      tested (add_job id name pwd) node _ running within tt
  access-Goes (add_job id name pwd) running node within h =
      tested (add_job id name pwd) node _ looked within tt
  access-Goes (add_job id name pwd) looked node within h =
      create-Going fjall bincode show_uuid show_error id name pwd node within
        (create_room fjall bincode id name pwd node.disk)
        (create_room_lem fjall bincode id name pwd node.disk)
  access-Goes (add_job id name pwd) (created room) node within h =
      open-Going fjall bincode show_uuid show_error id name pwd node within room h
  access-Goes (add_job id name pwd) taken node within h =
      still (add_job id name pwd) node taken within tt
  access-Goes (add_job id name pwd) (settled r) node within h =
      still (add_job id name pwd) node (settled r) within h
  access-Goes (remove_job id) asked node within h = tested (remove_job id) node _ running within tt
  access-Goes (remove_job id) running node within h = tested (remove_job id) node _ looked within tt
  access-Goes (remove_job id) looked node within h =
      take-Going fjall bincode show_uuid show_error id node within
  access-Goes (remove_job id) taken node within h =
      delete-Going fjall bincode show_uuid show_error id node within
        (delete_room fjall bincode id node.disk) h (delete_room_lem fjall bincode id node.disk)
  access-Goes (remove_job id) (created room) node within h =
      still (remove_job id) node (created room) within tt
  access-Goes (remove_job id) (settled r) node within h =
      still (remove_job id) node (settled r) within h
