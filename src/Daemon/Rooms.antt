-- ===== src/Daemon/Rooms.antt =====
-- The rooms of the daemon, from its start through all requests on the control socket.
use fernq.Prelude.{
  ℕ, ◌≡◌, ◌≢◌, refl, sym, ap, ◌∙◌, subst, inl, inr, Bool-cases, true, Option, none, some, List, [],
  ◌∷◌, Result, ok, err, panic, stuck,
}
use fernq.Prelude.Bytes.{Bytes}
use fernq.Prelude.Text.{text, same}
use fernq.Prelude.Action.{Post-forget}
use fernq.Protocol.Json.{Json}
use fernq.Protocol.Frame.{is_power_of_two}
use fernq.Storage.{Fjall, Bincode, StorageError}
use fernq.Server.Node.{Room, ServerNode, add_room, remove_room, start_rooms}
use fernq.Server.Node.Opened.{
  AreOpened, Keeps, add_room-AreOpened, remove_room-AreOpened, start_rooms-AreOpened,
}
use fernq.Server.Room.{drops, handle_frame}
use fernq.Server.Room.Undropped.{handle_frame-ne-drops}
use fernq.Daemon.{
  Arrays, Request, filled, answer, handle_add, remove_parsed, handle_remove, handle_request, serve,
}

module _ (json : Json) (arrays : Arrays json) (fjall : Fjall) (bincode : Bincode)
    (show_uuid : Bytes → Bytes) (show_error : StorageError fjall.Error → Bytes) where
  open json use {Value}
  open fjall use {Error}

  answer-node :
      (told : Value) (complaint : Bytes)
      (o : Result (StorageError Error) (Unit {0}) × ServerNode fjall bincode)
      → (answer json arrays fjall bincode show_uuid show_error told complaint o).1 ≡ o.1
  answer-node told complaint (ok u, node) = refl
  answer-node told complaint (err e, node) = refl
  answer-node told complaint (panic, node) = refl
  answer-node told complaint (stuck, node) = refl

  answer-AreOpened :
      (told : Value) (complaint : Bytes)
      (o : Result (StorageError Error) (Unit {0}) × ServerNode fjall bincode)
      → Keeps fjall bincode show_uuid show_error o
      → AreOpened (answer json arrays fjall bincode show_uuid show_error told complaint o).1.rooms
  answer-AreOpened told complaint o h =
      subst (λ (n : ServerNode fjall bincode). AreOpened n.rooms)
        (sym (answer-node told complaint o))
        (Post-forget (λ (n : ServerNode fjall bincode). AreOpened n.rooms) o h)

  module _ (node : ServerNode fjall bincode) (v : AreOpened node.rooms) where
    handle_add-AreOpened :
        (fresh_id : Bytes) (name pwd : Option Bytes)
        → AreOpened
            (handle_add json arrays fjall bincode show_uuid show_error fresh_id name pwd
              node).1.rooms
    handle_add-AreOpened fresh_id none pwd = v
    handle_add-AreOpened fresh_id (some name) none = v
    handle_add-AreOpened fresh_id (some name) (some pwd) =
        answer-AreOpened _ _ (add_room fjall bincode show_uuid show_error fresh_id name pwd node)
          (add_room-AreOpened fjall bincode show_uuid show_error fresh_id name pwd node v)

    remove_parsed-AreOpened :
        (parsed : Result Bytes Bytes)
        → AreOpened
            (remove_parsed json arrays fjall bincode show_uuid show_error parsed node).1.rooms
    remove_parsed-AreOpened (ok id) =
        answer-AreOpened _ _ (remove_room fjall bincode show_uuid show_error id node)
          (remove_room-AreOpened fjall bincode show_uuid show_error id node v)
    remove_parsed-AreOpened (err e) = v
    remove_parsed-AreOpened panic = v
    remove_parsed-AreOpened stuck = v

    handle_remove-AreOpened :
        (parse_str : Bytes → Result Bytes Bytes) (room_id : Option Bytes)
        → AreOpened
            (handle_remove json arrays fjall bincode show_uuid show_error parse_str room_id
              node).1.rooms
    handle_remove-AreOpened parse_str none = v
    handle_remove-AreOpened parse_str (some id_str) = remove_parsed-AreOpened (parse_str id_str)

    handle_request-AreOpened :
        (parse_str : Bytes → Result Bytes Bytes) (fresh_id addr : Bytes) (req : Request)
        → AreOpened
            (handle_request json arrays fjall bincode show_uuid show_error parse_str fresh_id addr
              req node).1.rooms
    unfolding handle_request
    handle_request-AreOpened parse_str fresh_id addr req =
        elim (Bool-cases (same req.cmd (text "add"))) [
          | inl add ↦ rw add (handle_add-AreOpened fresh_id (filled req.room_name) req.password)
          | inr no_add ↦ elim (Bool-cases (same req.cmd (text "remove"))) [
            | inl remove ↦
                rw (no_add, remove) (handle_remove-AreOpened parse_str (filled req.room_id))
            | inr no_remove ↦ elim (Bool-cases (same req.cmd (text "list"))) [
              | inl list ↦ rw (no_add, no_remove, list) v
              | inr no_list ↦ elim (Bool-cases (same req.cmd (text "address"))) [
                | inl address ↦ rw (no_add, no_remove, no_list, address) v
                | inr no_address ↦ rw (no_add, no_remove, no_list, no_address) v
              ]
            ]
          ]
        ]

  module _ (parse_str : Bytes → Result Bytes Bytes) (addr : Bytes) where
    serve-AreOpened :
        (requests : List (Bytes × Request)) (node : ServerNode fjall bincode)
        → AreOpened node.rooms
        → AreOpened
            (serve json arrays fjall bincode show_uuid show_error parse_str addr requests
              node).rooms
    unfolding serve
    serve-AreOpened [] node v = v
    serve-AreOpened ((fresh_id, req) ∷ requests) node v =
        serve-AreOpened requests _ (handle_request-AreOpened node v parse_str fresh_id addr req)

    power : is_power_of_two 32 ≡ true
    unfolding is_power_of_two
    power = refl

    none_open : (node : ServerNode fjall bincode) → node.rooms ≡ (λ i. none) → AreOpened node.rooms
    none_open node empty k r h =
        let nothing : none ≡ some r = ap (λ f. f k) (sym empty) ∙ h in absurd (cc)

    -- From a node with no rooms, after the rooms of the disk were opened and any requests were served, one
    -- after the other: whatever the disk holds and whatever fails, each room in the table stands under
    -- its id, and the listeners of a room with its number of workers drop no frame for lack of one.
    pub serve-keeps_frames :
        (node : ServerNode fjall bincode) (requests : List (Bytes × Request)) (k : Bytes) (r : Room)
        (head : Bytes) (read_payload : ℕ → Option Bytes)
        → node.rooms ≡ (λ i. none)
        → (serve json arrays fjall bincode show_uuid show_error parse_str addr requests
              (start_rooms fjall bincode show_uuid show_error node).1).rooms
            k
          ≡ some r
        → (r.id ≡ k) × (handle_frame r.worker_number head read_payload ≢ ok drops)
    serve-keeps_frames node requests k r head read_payload empty found =
        let started =
          Post-forget (λ (n : ServerNode fjall bincode). AreOpened n.rooms)
            (start_rooms fjall bincode show_uuid show_error node)
            (start_rooms-AreOpened fjall bincode show_uuid show_error node
              (none_open node empty)) in
        let (name, e) = serve-AreOpened requests _ started k r found in
        (
          ap (λ (x : Room). x.id) e,
          subst (λ (x : Room). handle_frame x.worker_number head read_payload ≢ ok drops) (sym e)
              (handle_frame-ne-drops 32 power head read_payload),
        )
