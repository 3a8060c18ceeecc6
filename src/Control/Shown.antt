-- ===== src/Control/Shown.antt =====
-- What `fernqctl list` shows.
use fernq.Prelude.{
  ◌≡◌, refl, sym, ap, ◌∙◌, Bool, false, none, some, List, [], ◌∷◌, map, length, length-map,
  if◌then◌else◌, Result, ok, ok-injective, ◌>>=◌,
}
use fernq.Prelude.Bytes.{Bytes}
use fernq.Prelude.Text.{text, same}
use fernq.Protocol.Json.{Json}
use fernq.Protocol.Validate.Verdict.{member_str-text}
use fernq.Storage.{Fjall, Bincode, StorageError}
use fernq.Server.Node.{ServerNode, list_rooms}
use fernq.Daemon.{Arrays, Request, Response, done, room_value, listing, handle_request}
use fernq.Control.{
  list, Cli, socket_path, request_of, Printed, no_rooms, room_list, room_line, print_room_list,
  print_success, print_response, send_and_print, run,
}

-- The line of a room, with its password or with stars.
abbrev pub line_of : Bool → Bytes × Bytes × Bytes → Bytes × Bytes × Bytes
line_of show_pwd (id, name, pwd) = (id, name, if show_pwd then pwd else text "******")

abbrev pub shown_rooms : {Value : Type 0} → Bool → List (Bytes × Bytes × Bytes) → Printed Value
shown_rooms show_pwd [] = no_rooms
shown_rooms show_pwd (room ∷ rooms) =
    room_list (map (line_of show_pwd) (room ∷ rooms)) (length (room ∷ rooms))

abbrev pub list_request : Request
list_request = record { cmd = text "list"; room_name = none; password = none; room_id = none }

module _ (json : Json) (arrays : Arrays json) (fjall : Fjall) (bincode : Bincode)
    (show_uuid : Bytes → Bytes) (show_error : StorageError fjall.Error → Bytes) where
  room_line-room_value :
      (show_pwd : Bool) (room : Bytes × Bytes × Bytes)
      → room_line json arrays show_pwd
          (room_value json arrays fjall bincode show_uuid show_error room)
        ≡ line_of show_pwd room
  unfolding room_line room_value text same
  room_line-room_value show_pwd (id, name, pwd) =
      let obj : json.Object = json.insert (text "password") (json.string pwd) (
        json.insert (text "name") (json.string name)
          (json.insert (text "id") (json.string id) json.empty)) in
      rw (
        member_str-text json (text "id") id obj (simp (json.get-insert)),
        member_str-text json (text "name") name obj (simp (json.get-insert)),
        member_str-text json (text "password") pwd obj (simp (json.get-insert)),
      )

  room_lines :
      (show_pwd : Bool) (rooms : List (Bytes × Bytes × Bytes))
      → map
          (room_line json arrays show_pwd)
          (map (room_value json arrays fjall bincode show_uuid show_error) rooms)
        ≡ map (line_of show_pwd) rooms
  room_lines show_pwd [] = refl
  room_lines show_pwd (room ∷ rooms) =
      rw (room_line-room_value show_pwd room, room_lines show_pwd rooms)

  print_room_list-listed :
      (show_pwd : Bool) (rooms : List (Bytes × Bytes × Bytes))
      → print_room_list json arrays
          (some
            (arrays.array (map (room_value json arrays fjall bincode show_uuid show_error) rooms)))
          show_pwd
        ≡ shown_rooms show_pwd rooms
  unfolding print_room_list
  print_room_list-listed show_pwd [] = rw arrays.as_array-array
  print_room_list-listed show_pwd (room ∷ rooms) = rw (
    arrays.as_array-array,
    length-map rooms (room_value json arrays fjall bincode show_uuid show_error),
    room_line-room_value show_pwd room,
    room_lines show_pwd rooms,
  )

  handle_list :
      (parse_str : Bytes → Result Bytes Bytes) (fresh_id addr : Bytes)
      (node : ServerNode fjall bincode)
      → handle_request json arrays fjall bincode show_uuid show_error parse_str fresh_id addr
          list_request node
        ≡ (
          listing json arrays fjall bincode show_uuid show_error
              (list_rooms fjall bincode show_uuid show_error node),
          node,
        )
  unfolding handle_request text same
  handle_list parse_str fresh_id addr node = refl

  print_response-list :
      (user_id : Result Bytes Bytes) (cli : Cli) (v : json.Value)
      → cli.command ≡ list
      → cli.raw_json ≡ false
      → print_response json arrays user_id cli (done v)
        ≡ ok (print_room_list json arrays (some v) cli.show_pwd)
  unfolding print_response print_success
  print_response-list user_id cli v c plain = rw (plain, c)

  -- `fernqctl list` without the option for raw JSON, if the daemon gets the request and its response comes back: it
  -- shows one line for each room that the node lists, in that order, with the id, the name, and
  -- the password if that was asked for and stars if not, and the number of the rooms; or that there are
  -- none.
  pub run-listed :
      (parse_str : Bytes → Result Bytes Bytes) (fresh_id addr : Bytes)
      (user_id : Result Bytes Bytes)
      (send_request : Bytes → Request → Result Bytes (Response json.Value)) (cli : Cli)
      (node node' : ServerNode fjall bincode) (response : Response json.Value)
      (rooms : List (Bytes × Bytes × Bytes))
      → cli.command ≡ list
      → cli.raw_json ≡ false
      → list_rooms fjall bincode show_uuid show_error node ≡ ok rooms
      → handle_request json arrays fjall bincode show_uuid show_error parse_str fresh_id addr
          list_request node
        ≡ (ok response, node')
      → send_request (socket_path cli) list_request ≡ ok response
      → run json arrays user_id parse_str send_request cli ≡ ok (shown_rooms cli.show_pwd rooms)
  unfolding run request_of
  run-listed parse_str fresh_id addr user_id send_request cli node node' response rooms c plain
        listed handled sent =
      let v : json.Value =
        arrays.array (map (room_value json arrays fjall bincode show_uuid show_error) rooms) in
      let content : ◌≡◌ {A = Result (StorageError fjall.Error) (Response json.Value)} (ok response)
          (ok (done v)) =
        sym (
          ap
            (λ (o : Result (StorageError fjall.Error) (Response json.Value)
                × ServerNode fjall bincode).
              o.0)
            handled)
        ∙ (ap
              (λ (o : Result (StorageError fjall.Error) (Response json.Value)
                  × ServerNode fjall bincode).
                o.0)
              (handle_list parse_str fresh_id addr node)
            ∙ ap (listing json arrays fjall bincode show_uuid show_error) listed) in
      let told : response ≡ done v = ok-injective refl content in
      ap
        (λ command.
          request_of parse_str command >>= send_and_print json arrays user_id send_request cli)
        c
      ∙ (ap (λ r. r >>= print_response json arrays user_id cli) (sent ∙ ap ok told)
          ∙ (print_response-list user_id cli v c plain
              ∙ ap ok (print_room_list-listed cli.show_pwd rooms)))
