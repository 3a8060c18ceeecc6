-- ===== src/Server/Node/Requests/Moves.antt =====
-- What one access of a request changes, and what stays.
use fernq.Prelude.{
  ◌≡◌, refl, sym, ◌∙◌, subst, inl, inr, Bool-cases, true, false, Option, none, some, ok, err, panic,
  stuck,
}
use fernq.Prelude.Bytes.{Bytes}
use fernq.Prelude.Text.{same, same-eq}
use fernq.Storage.{RoomModel, put, delete, Fjall, Bincode, StorageError, new_model}
use fernq.Server.Node.{open_room}
use fernq.Server.Node.Tables.{IsWithin}
use fernq.Server.Node.Requests.{
  Job, add_job, remove_job, target, is_removal, JobPc, asked, running, looked, taken, created,
  settled, Node,
}

pub put_else :
    {A : Type 0} (i k : Bytes) (a : A) (m : Bytes → Option A) → same i k ≡ false → put i a m k ≡ m k
put_else i k a m e = rw e refl

pub delete_else :
    {A : Type 0} (i k : Bytes) (m : Bytes → Option A) → same i k ≡ false → delete i m k ≡ m k
delete_else i k m e = rw e refl

pub delete-none :
    {A : Type 0} (i k : Bytes) (m : Bytes → Option A) → m k ≡ none → delete i m k ≡ none
delete-none i k m h = elim (Bool-cases (same i k)) [ inl e ↦ rw e refl | inr e ↦ rw e h ]

pub put-stored-IsWithin :
    {A B : Type 0} (i : Bytes) (a : A) (b : B) (rooms : Bytes → Option A) (m : Bytes → Option B)
    → m i ≡ some b
    → IsWithin rooms m
    → IsWithin (put i a rooms) m
put-stored-IsWithin i a b rooms m at h k r found = elim (Bool-cases (same i k)) [
  | inl e ↦ (b, subst (λ x. m x ≡ some b) (same-eq i k e) at)
  | inr e ↦ h k r (rw e at found)
]

pub delete-absent-IsWithin :
    {A B : Type 0} (i : Bytes) (rooms : Bytes → Option A) (m : Bytes → Option B)
    → rooms i ≡ none
    → IsWithin rooms m
    → IsWithin rooms (delete i m)
delete-absent-IsWithin i rooms m gone h k r found = elim (Bool-cases (same i k)) [
  | inl e ↦
      let none_there : none ≡ some r =
        sym (subst (λ x. rooms x ≡ none) (same-eq i k e) gone) ∙ found in
      absurd (cc)
  | inr e ↦ let (v, at) = h k r found in (v, rw e at)
]

module _ (fjall : Fjall) (bincode : Bincode) (show_uuid : Bytes → Bytes)
    (show_error : StorageError fjall.Error → Bytes) where
  open fjall use {Keyspace, Error, contents}

  abbrev pub N : Type 0
  N = Node fjall bincode show_uuid show_error

  -- The room is on the disk.
  abbrev pub IsStored : RoomModel → N → Type 0
  IsStored room node =
      (bytes : Bytes) × (bincode.decode_from_slice bytes ≡ ok room)
      × (contents node.disk room.id ≡ some bytes)

  -- What a request may rely on where it is. An added room is on the disk once it was created, and in the table
  -- too at the end, until `close` cancels the token; a removed room is not in the table once it was taken out,
  -- and at the end it is not on the disk either.
  abbrev pub Stands : Job → JobPc (StorageError Error) → N → Type 0
  Stands (add_job id name pwd) (created room) node =
      (room ≡ new_model fjall bincode id name pwd)
      × IsStored (new_model fjall bincode id name pwd) node
  Stands (add_job id name pwd) (settled (ok u)) node =
      IsStored (new_model fjall bincode id name pwd) node
      × (node.is_closed ≡ false → node.rooms id ≡ some (open_room id name))
  Stands (add_job id name pwd) (settled (err e)) node = Unit {0}
  Stands (add_job id name pwd) (settled panic) node = Unit {0}
  Stands (add_job id name pwd) (settled stuck) node = Unit {0}
  Stands (add_job id name pwd) asked node = Unit {0}
  Stands (add_job id name pwd) running node = Unit {0}
  Stands (add_job id name pwd) looked node = Unit {0}
  Stands (add_job id name pwd) taken node = Unit {0}
  Stands (remove_job id) taken node = node.rooms id ≡ none
  Stands (remove_job id) (settled (ok u)) node =
      (node.rooms id ≡ none) × (contents node.disk id ≡ none)
  Stands (remove_job id) (settled (err e)) node = Unit {0}
  Stands (remove_job id) (settled panic) node = Unit {0}
  Stands (remove_job id) (settled stuck) node = Unit {0}
  Stands (remove_job id) asked node = Unit {0}
  Stands (remove_job id) running node = Unit {0}
  Stands (remove_job id) looked node = Unit {0}
  Stands (remove_job id) (created room) node = Unit {0}

  -- Only what belongs to the request changes, and a removal puts nothing anywhere.
  pub record Moves (job : Job) (node node' : N) : Type 0 where
    pub rooms_else : (k : Bytes) → same (target job) k ≡ false → node'.rooms k ≡ node.rooms k
    pub disk_else :
        (k : Bytes) → same (target job) k ≡ false → contents node'.disk k ≡ contents node.disk k
    pub kept_open : node'.is_closed ≡ node.is_closed
    pub takes_rooms :
        is_removal job ≡ true → (k : Bytes) → node.rooms k ≡ none → node'.rooms k ≡ none
    pub takes_disk :
        is_removal job ≡ true
        → (k : Bytes) → contents node.disk k ≡ none
        → contents node'.disk k ≡ none

  pub record Goes (job : Job) (pc' : JobPc (StorageError Error)) (node node' : N) : Type 0 where
    pub moves : Moves job node node'
    pub within : IsWithin node'.rooms (contents node'.disk)
    pub stands : Stands job pc' node'

  pub stays : (job : Job) (node : N) → Moves job node node
  stays job node = record {
    rooms_else = λ k e. refl;
    disk_else = λ k e. refl;
    kept_open = refl;
    takes_rooms = λ r k h. h;
    takes_disk = λ r k h. h;
  }

  abbrev pub Going : Job → N → JobPc (StorageError Error) × N → Type 0
  Going job node (p, node') = Goes job p node node'

  abbrev pub StandsHere : Job → JobPc (StorageError Error) → N → Type 0
  StandsHere job p node = Stands job p node

  -- The node on another disk.
  abbrev pub on_disk : N → Keyspace → N
  on_disk node s = record { rooms = node.rooms; disk = s; is_closed = node.is_closed }
