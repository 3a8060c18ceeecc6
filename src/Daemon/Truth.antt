-- ===== src/Daemon/Truth.antt =====
-- What a response tells of the node.
use fernq.Prelude.{
  ◌≡◌, refl, sym, ◌⊎◌, inl, inr, Bool-cases, Option, none, some, List, [], ◌∷◌, ◌++◌, map, Result,
  ok, err, panic, stuck, ok-injective,
}
use fernq.Prelude.Bytes.{Bytes}
use fernq.Prelude.Text.{text, same, same-eq}
use fernq.Prelude.Action.{Post}
use fernq.Protocol.Json.{Json}
use fernq.Storage.{RoomModel, Among, Fjall, Bincode, StorageError, from_bytes, list_all_rooms}
use fernq.Storage.Listed.{Holds-list_all_rooms}
use fernq.Server.Node
use fernq.Server.Node.{ServerNode, shown, list_rooms}
use fernq.Server.Node.Invariant.{IsSound, IsAdded, add_room-IsSound, remove_room-IsSound}
use fernq.Daemon.{
  Arrays, Request, Response, filled, done, refused, answer, handle_add, remove_parsed,
  handle_remove, room_value, listing, handle_request, serve,
}

-- The response is a success with its content, or a refusal with its message.
abbrev pub IsAnswer : {Value : Type 0} → Response Value → Type 0
IsAnswer {Value} resp =
    ((v : Value) × (resp ≡ done v)) ⊎ ((message : Bytes) × (resp ≡ refused message))

done_injective : {Value : Type 0} {a b : Value} → done a ≡ done b → a ≡ b
done_injective h = cc

module _ (json : Json) (arrays : Arrays json) (fjall : Fjall) (bincode : Bincode)
    (show_uuid : Bytes → Bytes) (show_error : StorageError fjall.Error → Bytes)
    (parse_str : Bytes → Result Bytes Bytes) (addr : Bytes) where
  open json use {Value, string}
  open fjall use {Error, contents}

  -- The rooms are those of the disk, and every entry of the disk holds one of them; or the disk cannot be read,
  -- and there are none.
  abbrev pub IsRoomList : fjall.Keyspace → List (Bytes × Bytes × Bytes) → Type 0
  IsRoomList disk rooms =
      ((models : List RoomModel) × (list_all_rooms fjall bincode disk ≡ ok models)
        × (rooms ≡ map (shown fjall bincode show_uuid show_error) models)
        × ((k v : Bytes)
            → contents disk k ≡ some v
            → (room : RoomModel) × Among room models × (from_bytes fjall bincode v ≡ ok room)))
      ⊎ ((e : StorageError Error) × (list_all_rooms fjall bincode disk ≡ err e) × (rooms ≡ []))

  -- What was done, when a request was answered with success.
  pub data Done (fresh_id : Bytes) (req : Request) (node node' : ServerNode fjall bincode)
      (v : Value) : Type 0 where
    added :
        (name pwd : Bytes)
        → req.cmd ≡ text "add"
        → filled req.room_name ≡ some name
        → req.password ≡ some pwd
        → IsAdded fjall bincode show_uuid show_error fresh_id name pwd node node'
        → Done fresh_id req node node' v
    removed :
        (id_str id : Bytes)
        → req.cmd ≡ text "remove"
        → filled req.room_id ≡ some id_str
        → parse_str id_str ≡ ok id
        → node'.rooms id ≡ none
        → contents node'.disk id ≡ none
        → Done fresh_id req node node' v
    listed :
        (rooms : List (Bytes × Bytes × Bytes))
        → req.cmd ≡ text "list"
        → IsRoomList node.disk rooms
        → v ≡ arrays.array (map (room_value json arrays fjall bincode show_uuid show_error) rooms)
        → node' ≡ node
        → Done fresh_id req node node' v
    told :
        req.cmd ≡ text "address" → v ≡ string addr → node' ≡ node → Done fresh_id req node node' v

  pub record IsTrue (fresh_id : Bytes) (req : Request) (node : ServerNode fjall bincode)
      (resp : Response Value) (node' : ServerNode fjall bincode) : Type 0 where
    pub sound : IsSound fjall bincode node'
    pub shape : IsAnswer resp
    pub done_so : (v : Value) → resp ≡ done v → Done fresh_id req node node' v

  listed-IsRoomList :
      (disk : fjall.Keyspace) (r : Result (StorageError Error) (List RoomModel))
      (rooms : List (Bytes × Bytes × Bytes))
      → list_all_rooms fjall bincode disk ≡ r
      → Node.listed fjall bincode show_uuid show_error r ≡ ok rooms
      → IsRoomList disk rooms
  listed-IsRoomList disk (ok models) rooms e h =
      inl (models, e, sym (ok-injective refl h), Holds-list_all_rooms fjall bincode disk models e)
  listed-IsRoomList disk (err error) rooms e h = inr (error, e, sym (ok-injective refl h))
  listed-IsRoomList disk panic rooms e h = absurd (cc)
  listed-IsRoomList disk stuck rooms e h = absurd (cc)

  list_rooms-IsRoomList :
      (node : ServerNode fjall bincode) (rooms : List (Bytes × Bytes × Bytes))
      → list_rooms fjall bincode show_uuid show_error node ≡ ok rooms
      → IsRoomList node.disk rooms
  unfolding list_rooms
  list_rooms-IsRoomList node rooms h = listed-IsRoomList node.disk _ rooms refl h

  refused_not_done : (message : Bytes) (v : Value) → ¬ (refused message ≡ done v)
  refused_not_done message v h = cc

  refused-IsTrue :
      (fresh_id : Bytes) (req : Request) (node node' : ServerNode fjall bincode) (message : Bytes)
      → IsSound fjall bincode node'
      → IsTrue fresh_id req node (refused message) node'
  refused-IsTrue fresh_id req node node' message sound = record {
    sound = sound;
    shape = inr (message, refl);
    done_so = λ v h. absurd (refused_not_done message v h);
  }

  done-IsTrue :
      (fresh_id : Bytes) (req : Request) (node node' : ServerNode fjall bincode) (v : Value)
      → IsSound fjall bincode node'
      → ((w : Value) → Done fresh_id req node node' w)
      → IsTrue fresh_id req node (done v) node'
  done-IsTrue fresh_id req node node' v sound d = record {
    sound = sound;
    shape = inl (v, refl);
    done_so = λ w h. d w;
  }

  answer-IsTrue :
      (fresh_id : Bytes) (req : Request) (node : ServerNode fjall bincode) (v : Value)
      (complaint : Bytes) (Q : ServerNode fjall bincode → Type 0)
      (o : Result (StorageError Error) (Unit {0}) × ServerNode fjall bincode)
      → Post (λ u node'. Q node') (IsSound fjall bincode) o
      → ((node' : ServerNode fjall bincode) → Q node' → IsSound fjall bincode node')
      → ((node' : ServerNode fjall bincode) (w : Value) → Q node' → Done fresh_id req node node' w)
      → Post
          (IsTrue fresh_id req node)
          (IsSound fjall bincode)
          (answer json arrays fjall bincode show_uuid show_error v complaint o)
  unfolding Post
  answer-IsTrue fresh_id req node v complaint Q (ok u, node') h f g =
      done-IsTrue fresh_id req node node' v (f node' h) (λ w. g node' w h)
  answer-IsTrue fresh_id req node v complaint Q (err e, node') h f g =
      refused-IsTrue fresh_id req node node' (complaint ++ show_error e) h
  answer-IsTrue fresh_id req node v complaint Q (panic, node') h f g = h
  answer-IsTrue fresh_id req node v complaint Q (stuck, node') h f g = h

  kept-IsSound :
      (fresh_id : Bytes) (req : Request) (node : ServerNode fjall bincode)
      (o : Result (StorageError Error) (Response Value) × ServerNode fjall bincode)
      → Post (IsTrue fresh_id req node) (IsSound fjall bincode) o
      → IsSound fjall bincode o.1
  unfolding Post
  kept-IsSound fresh_id req node (ok resp, node') h = h.sound
  kept-IsSound fresh_id req node (err e, node') h = h
  kept-IsSound fresh_id req node (panic, node') h = h
  kept-IsSound fresh_id req node (stuck, node') h = h

  module _ (fresh_id : Bytes) (req : Request) (node : ServerNode fjall bincode)
      (sound : IsSound fjall bincode node) where
    IsTruly : Result (StorageError Error) (Response Value) × ServerNode fjall bincode → Type 0
    IsTruly o = Post (IsTrue fresh_id req node) (IsSound fjall bincode) o

    refused-IsTruly : (message : Bytes) → IsTruly (ok (refused message), node)
    unfolding IsTruly Post
    refused-IsTruly message = refused-IsTrue fresh_id req node node message sound

    handle_add-IsTruly :
        (name pwd : Option Bytes)
        → req.cmd ≡ text "add"
        → filled req.room_name ≡ name
        → req.password ≡ pwd
        → IsTruly (handle_add json arrays fjall bincode show_uuid show_error fresh_id name pwd node)
    unfolding IsTruly
    handle_add-IsTruly none pwd c n p = refused-IsTruly _
    handle_add-IsTruly (some name) none c n p = refused-IsTruly _
    handle_add-IsTruly (some name) (some pwd) c n p =
        answer-IsTrue fresh_id req node _ _
          (IsAdded fjall bincode show_uuid show_error fresh_id name pwd node) _
          (add_room-IsSound fjall bincode show_uuid show_error fresh_id name pwd node sound)
          (λ node' h. h.sound) (λ node' w h. added name pwd c n p h)

    remove_parsed-IsTruly :
        (id_str : Bytes) (parsed : Result Bytes Bytes)
        → req.cmd ≡ text "remove"
        → filled req.room_id ≡ some id_str
        → parse_str id_str ≡ parsed
        → IsTruly (remove_parsed json arrays fjall bincode show_uuid show_error parsed node)
    unfolding IsTruly Post
    remove_parsed-IsTruly id_str (ok id) c n p =
        answer-IsTrue fresh_id req node _ _
          (λ node'.
            IsSound fjall bincode node' × (node'.rooms id ≡ none) × (contents node'.disk id ≡ none))
          _ (remove_room-IsSound fjall bincode show_uuid show_error id node sound)
          (λ node' (s, t, d). s) (λ node' w (s, t, d). removed id_str id c n p t d)
    remove_parsed-IsTruly id_str (err e) c n p = refused-IsTruly _
    remove_parsed-IsTruly id_str panic c n p = sound
    remove_parsed-IsTruly id_str stuck c n p = sound

    handle_remove-IsTruly :
        (room_id : Option Bytes)
        → req.cmd ≡ text "remove"
        → filled req.room_id ≡ room_id
        → IsTruly
            (handle_remove json arrays fjall bincode show_uuid show_error parse_str room_id node)
    handle_remove-IsTruly none c n = refused-IsTruly _
    handle_remove-IsTruly (some id_str) c n =
        remove_parsed-IsTruly id_str (parse_str id_str) c n refl

    listing-IsTruly :
        (rooms : Result (StorageError Error) (List (Bytes × Bytes × Bytes)))
        → req.cmd ≡ text "list"
        → list_rooms fjall bincode show_uuid show_error node ≡ rooms
        → IsTruly (listing json arrays fjall bincode show_uuid show_error rooms, node)
    unfolding IsTruly Post
    listing-IsTruly (ok rooms) c l = record {
      sound = sound;
      shape = inl (_, refl);
      done_so =
          λ v h. listed rooms c (list_rooms-IsRoomList node rooms l) (sym (done_injective h)) refl;
    }
    listing-IsTruly (err e) c l = sound
    listing-IsTruly panic c l = sound
    listing-IsTruly stuck c l = sound

    -- On a node that is sound, the response to a request is a success with its content, or a refusal with
    -- its message, and the node is sound after either. A success tells the truth: a room was added under the name and the password
    -- of the request, open and on the disk; or the room with the UUID of the request is neither open nor
    -- on the disk; or the content is the list of the rooms of the disk, where every entry holds a listed
    -- room, but the empty list if the disk cannot be read, or the address, and the node is as it was.
    pub handle_request-IsTrue : Post (IsTrue fresh_id req node) (IsSound fjall bincode) (
        handle_request json arrays fjall bincode show_uuid show_error parse_str fresh_id addr req
          node)
    unfolding handle_request IsTruly Post
    handle_request-IsTrue = elim (Bool-cases (same req.cmd (text "add"))) [
      | inl add ↦ rw add (
          handle_add-IsTruly (filled req.room_name) req.password (same-eq req.cmd (text "add") add)
            refl refl)
      | inr no_add ↦ elim (Bool-cases (same req.cmd (text "remove"))) [
        | inl remove ↦
            rw (no_add, remove)
              (handle_remove-IsTruly (filled req.room_id) (same-eq req.cmd (text "remove") remove)
                refl)
        | inr no_remove ↦ elim (Bool-cases (same req.cmd (text "list"))) [
          | inl list ↦
              rw (no_add, no_remove, list)
                (listing-IsTruly (list_rooms fjall bincode show_uuid show_error node)
                  (same-eq req.cmd (text "list") list) refl)
          | inr no_list ↦ elim (Bool-cases (same req.cmd (text "address"))) [
            | inl address ↦
                rw (no_add, no_remove, no_list, address)
                  (record {
                    sound = sound;
                    shape = inl (string addr, refl);
                    done_so = λ v h.
                        told (same-eq req.cmd (text "address") address) (sym (done_injective h))
                          refl;
                  })
            | inr no_address ↦
                rw (no_add, no_remove, no_list, no_address)
                  (refused-IsTruly (text "Unknown command: " ++ req.cmd))
          ]
        ]
      ]
    ]

  handle_request-IsSound :
      (fresh_id : Bytes) (req : Request) (node : ServerNode fjall bincode)
      → IsSound fjall bincode node
      → IsSound fjall bincode
          (handle_request json arrays fjall bincode show_uuid show_error parse_str fresh_id addr req
            node).1
  handle_request-IsSound fresh_id req node sound =
      kept-IsSound fresh_id req node _ (handle_request-IsTrue fresh_id req node sound)

  -- A node that is sound stays so, whatever requests come, one after the other.
  pub serve-IsSound :
      (requests : List (Bytes × Request)) (node : ServerNode fjall bincode)
      → IsSound fjall bincode node
      → IsSound fjall bincode
          (serve json arrays fjall bincode show_uuid show_error parse_str addr requests node)
  unfolding serve
  serve-IsSound [] node sound = sound
  serve-IsSound ((fresh_id, req) ∷ requests) node sound =
      serve-IsSound requests _ (handle_request-IsSound fresh_id req node sound)
