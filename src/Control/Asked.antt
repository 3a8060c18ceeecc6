-- ===== src/Control/Asked.antt =====
-- What the daemon does for the request of a command.
use fernq.Prelude.{
  ◌≢◌, ◌≡◌, refl, sym, ap, ◌∙◌, Option, none, some, ok, err, panic, stuck, Result, ok-injective, [],
  ◌∷◌,
}
use fernq.Prelude.Bytes.{Bytes}
use fernq.Prelude.Text.{text, same}
use fernq.Protocol.Json.{Json}
use fernq.Storage.{Fjall, Bincode, StorageError}
use fernq.Server.Node.{ServerNode, add_room, list_rooms}
use fernq.Daemon.{
  Arrays, Request, Response, done, refused, answer, remove_parsed, listing, handle_request,
}
use fernq.Control.{Commands, add, remove, list, address, uninstall, remove_request, request_of}

module _ (json : Json) (arrays : Arrays json) (fjall : Fjall) (bincode : Bincode)
    (show_uuid : Bytes → Bytes) (show_error : StorageError fjall.Error → Bytes)
    (parse_str : Bytes → Result Bytes Bytes) (fresh_id addr : Bytes) where
  open json use {Value, string}

  abbrev pub Outcome : Type 0
  Outcome = Result (StorageError fjall.Error) (Response Value) × ServerNode fjall bincode

  -- What a command asks of the node, if it asks anything.
  abbrev pub meant : Commands → ServerNode fjall bincode → Option Outcome
  meant (add [] password) node = some (ok (refused (text "room_name is required")), node)
  meant (add (b ∷ bs) password) node = some (
      answer json arrays fjall bincode show_uuid show_error (string (text "room added"))
        (text "Failed to add room: ")
        (add_room fjall bincode show_uuid show_error fresh_id (b ∷ bs) password node))
  meant (remove id_str) node =
      some (remove_parsed json arrays fjall bincode show_uuid show_error (parse_str id_str) node)
  meant list node = some (
    listing json arrays fjall bincode show_uuid show_error
        (list_rooms fjall bincode show_uuid show_error node),
    node,
  )
  meant address node = some (ok (done (string addr)), node)
  meant uninstall node = none

  abbrev pub handled : Option Request → ServerNode fjall bincode → Option Outcome
  handled none node = none
  handled (some req) node = some (
      handle_request json arrays fjall bincode show_uuid show_error parse_str fresh_id addr req
        node)

  handled_remove :
      (id_str id : Bytes) (node : ServerNode fjall bincode)
      → ((u : Bytes) → parse_str [] ≢ ok u)
      → parse_str id_str ≡ ok id
      → handled
          (some (record {
            cmd = text "remove";
            room_name = none;
            password = none;
            room_id = some id_str;
          }))
          node
        ≡ meant (remove id_str) node
  unfolding handle_request text same
  handled_remove [] id node no_empty known = absurd (no_empty id known)
  handled_remove (b ∷ bs) id node no_empty known = refl

  removed_if_parsed :
      (id_str : Bytes) (parsed : Result Bytes Bytes) (request : Option Request)
      (node : ServerNode fjall bincode)
      → ((u : Bytes) → parse_str [] ≢ ok u)
      → parse_str id_str ≡ parsed
      → remove_request id_str parsed ≡ ok request
      → handled request node ≡ meant (remove id_str) node
  removed_if_parsed id_str (ok id) request node no_empty p h =
      ap (λ r. handled r node) (sym (ok-injective refl h))
      ∙ handled_remove id_str id node no_empty p
  removed_if_parsed id_str (err e) request node no_empty p h = absurd (cc)
  removed_if_parsed id_str panic request node no_empty p h = absurd (cc)
  removed_if_parsed id_str stuck request node no_empty p h = absurd (cc)

  -- With a parser of UUIDs that refuses the empty text: the request that a command becomes makes the daemon
  -- do what the command asks. A room is added under the name and the password, or refused if the name
  -- is empty; the room of the UUID is removed; the rooms are listed; the address is told.
  pub handle_request-request_of :
      (command : Commands) (request : Option Request) (node : ServerNode fjall bincode)
      → ((u : Bytes) → parse_str [] ≢ ok u)
      → request_of parse_str command ≡ ok request
      → handled request node ≡ meant command node
  unfolding request_of handle_request text same
  handle_request-request_of (add [] password) request node no_empty h =
      ap (λ r. handled r node) (sym (ok-injective refl h))
  handle_request-request_of (add (b ∷ bs) password) request node no_empty h =
      ap (λ r. handled r node) (sym (ok-injective refl h))
  handle_request-request_of (remove id_str) request node no_empty h =
      removed_if_parsed id_str (parse_str id_str) request node no_empty refl h
  handle_request-request_of list request node no_empty h =
      ap (λ r. handled r node) (sym (ok-injective refl h))
  handle_request-request_of address request node no_empty h =
      ap (λ r. handled r node) (sym (ok-injective refl h))
  handle_request-request_of uninstall request node no_empty h =
      ap (λ r. handled r node) (sym (ok-injective refl h))
