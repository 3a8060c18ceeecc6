-- ===== src/Server/Node/Requests.antt =====
-- `add_room`, `remove_room` and `close` of fernqd/src/server/node.rs, access by access, in any order. Every
-- request on the control socket is a task of its own, and `close` runs when the daemon is stopped.
mod Tests
pub mod Race
pub mod Alone
pub mod Lost
pub mod Others
pub mod Settled
pub mod Additions
pub mod Removals
pub mod Accesses
pub mod Moves
use fernq.Prelude.{
  ℕ, ◌≡◌, Bool, true, false, not, List, [], ◌∷◌, ◌++◌, is_nil, none, Result, ok, err, panic, stuck,
  fail_if,
}
use fernq.Prelude.Bytes.{Bytes}
use fernq.Prelude.Text.{text}
use fernq.Storage.{
  RoomModel, put, delete, Fjall, Bincode, StorageError, other, create_room, find_rooms_by_name,
  room_exists, delete_room,
}
use fernq.Server.Connection.{update}
use fernq.Server.Node.{open_room, ServerNode, with_disk, set_rooms, existence}

-- A request, to add a room under a fresh UUID, or to remove one.
pub data Job : Type 0 where
  add_job : (fresh_id room_name room_pwd : Bytes) → Job
  remove_job : (room_id : Bytes) → Job

abbrev pub target : Job → Bytes
target (add_job id name pwd) = id
target (remove_job id) = id

abbrev pub is_removal : Job → Bool
is_removal (add_job id name pwd) = false
is_removal (remove_job id) = true

-- At the start; past the test of the token; past the look on the disk; with the room on the disk, before it is
-- in the table; with the room out of the table, before it leaves the disk; at the end.
pub data JobPc (E : Type 0) : Type 0 where
  asked running looked taken : JobPc E
  created : RoomModel → JobPc E
  settled : Result E (Unit {0}) → JobPc E

-- `?`
abbrev pub after : {E A : Type 0} → Result E A → (A → JobPc E) → JobPc E
after (ok a) next = next a
after (err e) next = settled (err e)
after panic next = settled panic
after stuck next = settled stuck

module _ (fjall : Fjall) (bincode : Bincode) (show_uuid : Bytes → Bytes)
    (show_error : StorageError fjall.Error → Bytes) where
  open fjall use {Error}

  abbrev pub Node : Type 0
  Node = ServerNode fjall bincode

  -- `is_closed` and the early return.
  abbrev pub checked : Node → Result (StorageError Error) (Unit {0})
  checked node = fail_if node.is_closed (other (text "Server node is closed"))

  -- The name is on no stored room.
  abbrev pub name_unused :
      Bytes → Result (StorageError Error) (List RoomModel) → Result (StorageError Error) (Unit {0})
  name_unused name (ok existing) =
      fail_if (not (is_nil existing)) (other (text "Room '" ++ (name ++ text "' already exists")))
  name_unused name (err e) = err e
  name_unused name panic = panic
  name_unused name stuck = stuck

  -- The next access of a request.
  abbrev pub access : Job → JobPc (StorageError Error) → Node → JobPc (StorageError Error) × Node
  access job asked node = (after (checked node) (λ u. running), node)
  access (add_job id name pwd) running node = (
    after (name_unused name (find_rooms_by_name fjall bincode name node.disk)) (λ u. looked),
    node,
  )
  access (add_job id name pwd) looked node =
      let (r, node') =
        with_disk fjall bincode show_uuid show_error node
          (create_room fjall bincode id name pwd node.disk) in
      (after r created, node')
  access (add_job id name pwd) (created room_model) node = (
    settled (ok tt),
    set_rooms fjall bincode show_uuid show_error
        (put room_model.id (open_room room_model.id name) node.rooms) node,
  )
  access (add_job id name pwd) taken node = (taken, node)
  access (remove_job id) running node = (
    after (existence fjall bincode show_uuid show_error id (room_exists fjall bincode id node.disk))
        (λ u. looked),
    node,
  )
  access (remove_job id) looked node =
      (taken, set_rooms fjall bincode show_uuid show_error (delete id node.rooms) node)
  access (remove_job id) taken node =
      let (r, node') =
        with_disk fjall bincode show_uuid show_error node
          (delete_room fjall bincode id node.disk) in
      (after r (λ existed. settled (ok tt)), node')
  access (remove_job id) (created room_model) node = (created room_model, node)
  access job (settled r) node = (settled r, node)

  pub record Jobs : Type 0 where
    pub node : Node
    pub pc : ℕ → JobPc (StorageError Error)

  abbrev pub start : Node → Jobs
  start node = record { node = node; pc = λ i. asked }

  abbrev pub turn : (ℕ → Job) → ℕ → Jobs → Jobs
  turn jobs i s =
      let (p, node) = access (jobs i) (s.pc i) s.node in
      record { node = node; pc = update s.pc i p }

  -- The requests that take a turn, one after the other.
  unfoldable pub turns : (ℕ → Job) → List ℕ → Jobs → Jobs
  turns jobs [] s = s
  turns jobs (i ∷ order) s = turns jobs order (turn jobs i s)

  -- A request takes its turn; `close` cancels the token, and then it empties the table.
  pub data Step (jobs : ℕ → Job) (s : Jobs) : Jobs → Type 0 where
    taking : (i : ℕ) → Step jobs s (turn jobs i s)
    cancel : Step jobs s (record {
      node = record { rooms = s.node.rooms; disk = s.node.disk; is_closed = true };
      pc = s.pc;
    })
    clear :
        s.node.is_closed ≡ true
        → Step jobs s (record {
          node = record { rooms = λ k. none; disk = s.node.disk; is_closed = s.node.is_closed };
          pc = s.pc;
        })

  pub data Reach (jobs : ℕ → Job) (s : Jobs) : Jobs → Type 0 where
    here : Reach jobs s s
    later : {t u : Jobs} → Reach jobs s t → Step jobs t u → Reach jobs s u
