-- ===== src/Server/Node/Requests/Settled.antt =====
-- What holds when requests have been answered, whatever the order of their accesses.
use native.Mathlib.Decide.{ℕ_discrete}
use mathlib.Core.Logic.{ite}
use fernq.Prelude.{
  ℕ, ◌≡◌, ◌≢◌, refl, sym, ap, ◌∙◌, subst, ◌⊎◌, true, false, List, [], ◌∷◌, none, ok, err, panic,
  stuck,
}
use fernq.Prelude.Bytes.{Bytes}
use fernq.Prelude.Text.{same}
use fernq.Storage.{Fjall, Bincode, StorageError}
use fernq.Server.Connection.{update}
use fernq.Server.Node.Tables.{IsWithin}
use fernq.Server.Node.Requests.{
  Job, add_job, remove_job, target, is_removal, JobPc, asked, running, looked, taken, created,
  settled, access, Jobs, start, turn, turns, Step, taking, cancel, clear, Reach, here, later,
}
use fernq.Server.Node.Requests.Moves.{N, Stands, Goes}
use fernq.Server.Node.Requests.Accesses.{access-Goes}
use fernq.Server.Node.Requests.Others.{Stands-Moves}

-- Two requests are about different rooms, unless both are removals.
abbrev pub AreApart : (ℕ → Job) → Type 0
AreApart jobs =
    (i j : ℕ)
    → i ≢ j
    → (same (target (jobs i)) (target (jobs j)) ≡ false)
      ⊎ ((is_removal (jobs i) ≡ true) × (is_removal (jobs j) ≡ true))

update-others :
    {A : Type 0} (P : ℕ → A → Type 0) (f : ℕ → A) (i : ℕ) (a : A)
    → P i a
    → ((j : ℕ) → i ≢ j → P j (f j))
    → (j : ℕ) → P j (update f i a j)
update-others P f i a h k j = elim (ℕ_discrete i j) as (λ d. P j (ite d a (f j))) [
  | yes e ↦ subst (λ x. P x a) e h
  | no apart ↦ k j apart
]

module _ (fjall : Fjall) (bincode : Bincode) (show_uuid : Bytes → Bytes)
    (show_error : StorageError fjall.Error → Bytes) where
  open fjall use {Error, contents}

  abbrev StandsHere :
      Job → JobPc (StorageError Error) → N fjall bincode show_uuid show_error → Type 0
  StandsHere job p node = Stands fjall bincode show_uuid show_error job p node

  module _ (jobs : ℕ → Job) (node : N fjall bincode show_uuid show_error) where
    turns-Reach :
        (order : List ℕ) (s : Jobs fjall bincode show_uuid show_error)
        → Reach fjall bincode show_uuid show_error jobs
            (start fjall bincode show_uuid show_error node)
            s
        → Reach fjall bincode show_uuid show_error jobs
            (start fjall bincode show_uuid show_error node)
            (turns fjall bincode show_uuid show_error jobs order s)
    unfolding turns
    turns-Reach [] s steps = steps
    turns-Reach (i ∷ order) s steps = turns-Reach order _ (later steps (taking i))

    pub start-turns :
        (order : List ℕ)
        → Reach fjall bincode show_uuid show_error jobs
            (start fjall bincode show_uuid show_error node)
            (turns fjall bincode show_uuid show_error jobs order
              (start fjall bincode show_uuid show_error node))
    start-turns order = turns-Reach order _ here

    -- Each open room is stored; each request left behind what its point says; and the rooms that no request is
    -- about are as they were, in the table until `close` cancels the token.
    pub record IsSettled (s : Jobs fjall bincode show_uuid show_error) : Type 0 where
      pub within : IsWithin s.node.rooms (contents s.node.disk)
      pub stands : (i : ℕ) → StandsHere (jobs i) (s.pc i) s.node
      pub disk_else :
          (k : Bytes)
          → ((i : ℕ) → same (target (jobs i)) k ≡ false)
          → contents s.node.disk k ≡ contents node.disk k
      pub rooms_else :
          (k : Bytes)
          → ((i : ℕ) → same (target (jobs i)) k ≡ false)
          → s.node.is_closed ≡ false
          → s.node.rooms k ≡ node.rooms k

    asked-Stands : (job : Job) → StandsHere job asked node
    asked-Stands (add_job id name pwd) = tt
    asked-Stands (remove_job id) = tt

    start-IsSettled :
        IsWithin node.rooms (contents node.disk)
        → IsSettled (start fjall bincode show_uuid show_error node)
    start-IsSettled within = record {
      within = within;
      stands = λ i. asked-Stands (jobs i);
      disk_else = λ k others. refl;
      rooms_else = λ k others open_still. refl;
    }

    closing-Stands :
        (job : Job) (p : JobPc (StorageError Error)) (n n' : N fjall bincode show_uuid show_error)
        → n'.is_closed ≡ true
        → n'.disk ≡ n.disk
        → ((k : Bytes) → n.rooms k ≡ none → n'.rooms k ≡ none)
        → StandsHere job p n
        → StandsHere job p n'
    closing-Stands (add_job id name pwd) (created room) n n' closed d empty (e, (bytes, back, at)) =
        (e, (bytes, back, ap (λ x. contents x id) d ∙ at))
    closing-Stands (add_job id name pwd) (settled (ok u)) n n' closed d empty
          ((bytes, back, at), opened) =
        ((bytes, back, ap (λ x. contents x id) d ∙ at), λ open_still. absurd (cc))
    closing-Stands (add_job id name pwd) (settled (err e)) n n' closed d empty h = tt
    closing-Stands (add_job id name pwd) (settled panic) n n' closed d empty h = tt
    closing-Stands (add_job id name pwd) (settled stuck) n n' closed d empty h = tt
    closing-Stands (add_job id name pwd) asked n n' closed d empty h = tt
    closing-Stands (add_job id name pwd) running n n' closed d empty h = tt
    closing-Stands (add_job id name pwd) looked n n' closed d empty h = tt
    closing-Stands (add_job id name pwd) taken n n' closed d empty h = tt
    closing-Stands (remove_job id) taken n n' closed d empty h = empty id h
    closing-Stands (remove_job id) (settled (ok u)) n n' closed d empty (h, k) =
        (empty id h, ap (λ x. contents x id) d ∙ k)
    closing-Stands (remove_job id) (settled (err e)) n n' closed d empty h = tt
    closing-Stands (remove_job id) (settled panic) n n' closed d empty h = tt
    closing-Stands (remove_job id) (settled stuck) n n' closed d empty h = tt
    closing-Stands (remove_job id) asked n n' closed d empty h = tt
    closing-Stands (remove_job id) running n n' closed d empty h = tt
    closing-Stands (remove_job id) looked n n' closed d empty h = tt
    closing-Stands (remove_job id) (created room) n n' closed d empty h = tt

    module _ (apart : AreApart jobs) where
      turn-IsSettled :
          (i : ℕ) (s : Jobs fjall bincode show_uuid show_error)
          → IsSettled s
          → IsSettled (turn fjall bincode show_uuid show_error jobs i s)
      turn-IsSettled i s v =
          let o = access fjall bincode show_uuid show_error (jobs i) (s.pc i) s.node in
          let g : Goes fjall bincode show_uuid show_error (jobs i) o.0 s.node o.1 =
            access-Goes fjall bincode show_uuid show_error (jobs i) (s.pc i) s.node v.within
              (v.stands i) in
          let m = g.moves in
          record {
            within = g.within;
            stands =
                update-others (λ j p. StandsHere (jobs j) p o.1) s.pc i o.0 g.stands
                  (λ j other.
                    Stands-Moves fjall bincode show_uuid show_error (jobs i) s.node o.1 m (jobs j)
                      (s.pc j) (apart i j other) (v.stands j));
            disk_else = λ k others. m.disk_else k (others i) ∙ v.disk_else k others;
            rooms_else = λ k others open_still.
                m.rooms_else k (others i) ∙ v.rooms_else k others (sym m.kept_open ∙ open_still);
          }

      Step-IsSettled :
          {s t : Jobs fjall bincode show_uuid show_error}
          → Step fjall bincode show_uuid show_error jobs s t
          → IsSettled s
          → IsSettled t
      Step-IsSettled {s} (taking i) v = turn-IsSettled i s v
      Step-IsSettled {s} cancel v = record {
        within = v.within;
        stands = λ i. closing-Stands (jobs i) (s.pc i) s.node _ refl refl (λ k h. h) (v.stands i);
        disk_else = v.disk_else;
        rooms_else = λ k others open_still. absurd (cc);
      }
      Step-IsSettled {s} (clear closed) v = record {
        within = λ k r h. absurd (cc);
        stands =
            λ i. closing-Stands (jobs i) (s.pc i) s.node _ closed refl (λ k h. refl) (v.stands i);
        disk_else = v.disk_else;
        rooms_else = λ k others open_still. absurd (cc);
      }

      -- From a node on which each open room is stored, when the accesses of requests that are about different
      -- rooms, removals aside, and those of `close` happen in any order: at each moment each open room is
      -- stored; a request to add a room that was answered with success has its room on the disk, with the
      -- name and the password, and in the table until the token is cancelled; a removal that was answered
      -- with success has its room neither in the table nor on the disk; and every other room is as it was, in
      -- the table until the token is cancelled.
      pub Reach-IsSettled :
          {s : Jobs fjall bincode show_uuid show_error}
          → IsWithin node.rooms (contents node.disk)
          → Reach fjall bincode show_uuid show_error jobs
              (start fjall bincode show_uuid show_error node)
              s
          → IsSettled s
      Reach-IsSettled within here = start-IsSettled within
      Reach-IsSettled within (later steps step) = Step-IsSettled step (Reach-IsSettled within steps)
