-- ===== src/Control/Socket/Told.antt =====
-- What fernqctl may be trusted with when it shows a success.
use fernq.Prelude.{
  ◌≡◌, refl, sym, ap, subst, ◌∙◌, inl, inr, false, Option, none, some, [], ◌∷◌, ◌++◌, Result, ok,
  err, panic, stuck,
}
use fernq.Prelude.Bytes.{Bytes}
use fernq.Prelude.Text.{text}
use fernq.Prelude.Action.{Post}
use fernq.Protocol.Json.{Json}
use fernq.Storage.{Fjall, Bincode, StorageError}
use fernq.Server.Node.{ServerNode}
use fernq.Server.Node.Invariant.{IsSound, IsAdded}
use fernq.Daemon.{Arrays, Request, Response, done, refused, filled}
use fernq.Daemon.Truth.{IsAnswer, IsTrue, Done, added, removed, listed, told, handle_request-IsTrue}
use fernq.Control.{
  Commands, add, remove, list, address, uninstall, Cli, request_of, remove_request, Printed,
  print_response, run,
}
use fernq.Control.Socket.{Wire, Socket, sent_to}
use fernq.Control.Socket.Exchange.{Meets, run-Meets}

filled_some : (o : Option Bytes) (s : Bytes) → filled o ≡ some s → o ≡ some s
filled_some none s h = absurd (cc)
filled_some (some []) s h = absurd (cc)
filled_some (some (b ∷ bs)) s h = h

err_not_ok : {A : Type 0} {e : Bytes} {a : A} → ¬ (◌≡◌ {A = Result Bytes A} (err e) (ok a))
err_not_ok h = cc

asked_for :
    {a b : Request} → ◌≡◌ {A = Result Bytes (Option Request)} (ok (some a)) (ok (some b)) → b ≡ a
asked_for h = cc

module _ (json : Json) (arrays : Arrays json) (fjall : Fjall) (bincode : Bincode)
    (show_uuid : Bytes → Bytes) (show_error : StorageError fjall.Error → Bytes)
    (parse_str : Bytes → Result Bytes Bytes) (fresh_id addr : Bytes) where
  open fjall use {contents}

  -- What a success of a command means for the node.
  abbrev pub Told : Commands → ServerNode fjall bincode → ServerNode fjall bincode → Type 0
  Told (add name password) node node' =
      IsAdded fjall bincode show_uuid show_error fresh_id name password node node'
  Told (remove id_str) node node' =
      (id : Bytes) × (parse_str id_str ≡ ok id)
      × (node'.rooms id ≡ none)
      × (contents node'.disk id ≡ none)
  Told list node node' = node' ≡ node
  Told address node node' = node' ≡ node
  Told uninstall node node' = Unit {0}

  abbrev DoneSo :
      Request → ServerNode fjall bincode → ServerNode fjall bincode → json.Value → Type 0
  DoneSo req node node' v =
      Done json arrays fjall bincode show_uuid show_error parse_str addr fresh_id req node node' v

  same_name : (name n : Bytes) → filled (some name) ≡ some n → n ≡ name
  same_name name n h = cc (filled_some (some name) n h)

  module _ (node node' : ServerNode fjall bincode) (v : json.Value) where
    add-Told :
        (name password : Bytes)
        → DoneSo
            (record {
              cmd = text "add";
              room_name = some name;
              password = some password;
              room_id = none;
            })
            node
            node'
            v
        → Told (add name password) node node'
    unfolding text
    add-Told name password (added n p c f e a) =
        let same_password : p ≡ password = cc in
        subst (λ q. IsAdded fjall bincode show_uuid show_error fresh_id name q node node')
          same_password
          (subst (λ m. IsAdded fjall bincode show_uuid show_error fresh_id m p node node')
            (same_name name n f) a)
    add-Told name password (removed id_str id c f p t d) = absurd (cc)
    add-Told name password (listed rooms c l e same) = absurd (cc)
    add-Told name password (told c e same) = absurd (cc)

    remove-Told :
        (id_str : Bytes)
        → DoneSo
            (record {
              cmd = text "remove";
              room_name = none;
              password = none;
              room_id = some id_str;
            })
            node
            node'
            v
        → Told (remove id_str) node node'
    unfolding text
    remove-Told id_str (added n p c f e a) = absurd (cc)
    remove-Told id_str (removed i id c f p t d) =
        (id, subst (λ s. parse_str s ≡ ok id) (same_name id_str i f) p, t, d)
    remove-Told id_str (listed rooms c l e same) = absurd (cc)
    remove-Told id_str (told c e same) = absurd (cc)

    list-Told :
        DoneSo
          (record { cmd = text "list"; room_name = none; password = none; room_id = none })
          node
          node'
          v
        → Told list node node'
    unfolding text
    list-Told (added n p c f e a) = absurd (cc)
    list-Told (removed i id c f p t d) = absurd (cc)
    list-Told (listed rooms c l e same) = same
    list-Told (told c e same) = same

    address-Told :
        DoneSo
          (record { cmd = text "address"; room_name = none; password = none; room_id = none })
          node
          node'
          v
        → Told address node node'
    unfolding text
    address-Told (added n p c f e a) = absurd (cc)
    address-Told (removed i id c f p t d) = absurd (cc)
    address-Told (listed rooms c l e same) = same
    address-Told (told c e same) = same

    removed-Told :
        (id_str : Bytes) (parsed : Result Bytes Bytes) (req : Request)
        → remove_request id_str parsed ≡ ok (some req)
        → DoneSo req node node' v
        → Told (remove id_str) node node'
    removed-Told id_str (ok id) req h d =
        remove-Told id_str (subst (λ r. DoneSo r node node' v) (asked_for h) d)
    removed-Told id_str (err e) req h d = absurd (cc)
    removed-Told id_str panic req h d = absurd (cc)
    removed-Told id_str stuck req h d = absurd (cc)

    Done-Told :
        (command : Commands) (req : Request)
        → request_of parse_str command ≡ ok (some req)
        → DoneSo req node node' v
        → Told command node node'
    unfolding request_of
    Done-Told (add name password) req h d =
        add-Told name password (subst (λ r. DoneSo r node node' v) (asked_for h) d)
    Done-Told (remove id_str) req h d = removed-Told id_str (parse_str id_str) req h d
    Done-Told list req h d = list-Told (subst (λ r. DoneSo r node node' v) (asked_for h) d)
    Done-Told address req h d = address-Told (subst (λ r. DoneSo r node node' v) (asked_for h) d)
    Done-Told uninstall req h d = tt

  module _ (wire : Wire json.Value) (user_id : Result Bytes Bytes) (sockets : Bytes → Socket)
      (cli : Cli) (plain : cli.raw_json ≡ false) where
    succeeded :
        (resp : Response json.Value) (shown : Printed json.Value)
        → IsAnswer resp
        → print_response json arrays user_id cli resp ≡ ok shown
        → (v : json.Value) × (resp ≡ done v)
    unfolding print_response
    succeeded resp shown (inl (v, e)) h = (v, e)
    succeeded resp shown (inr (message, e)) h =
        let told_error : print_response json arrays user_id cli (refused message)
            ≡ err (text "Server error: " ++ message) =
          rw plain refl in
        absurd
          (err_not_ok (sym told_error ∙ (ap (print_response json arrays user_id cli) (sym e) ∙ h)))

    -- On a sound node, if the command and the daemon meet: when fernqctl shows anything but an error, and
    -- not the raw JSON, it is so. An added room is open, and on the disk with the name and the password
    -- of the command, under a name that was not in use; the room of a removed UUID is neither open nor
    -- on the disk; and the list and the address leave the node as it was.
    pub run-Told :
        (req : Request) (node node' : ServerNode fjall bincode) (resp : Response json.Value)
        (req_json buf : Bytes) (shown : Printed json.Value)
        → IsSound fjall bincode node
        → Meets json arrays fjall bincode show_uuid show_error parse_str fresh_id addr wire user_id
            sockets cli req node node' resp req_json buf
        → run json arrays user_id parse_str (sent_to wire sockets) cli ≡ ok shown
        → Told cli.command node node'
    unfolding Post
    run-Told req node node' resp req_json buf shown sound m h =
        let true_so =
          handle_request-IsTrue json arrays fjall bincode show_uuid show_error parse_str addr
            fresh_id req node sound in
        let t : IsTrue json arrays fjall bincode show_uuid show_error parse_str addr fresh_id req
            node resp node' =
          subst
            (Post
              (IsTrue json arrays fjall bincode show_uuid show_error parse_str addr fresh_id req
                node)
              (IsSound fjall bincode))
            m.handled true_so in
        let printed =
          sym (
            run-Meets json arrays fjall bincode show_uuid show_error parse_str fresh_id addr wire
              user_id sockets cli req node node' resp req_json buf m)
          ∙ h in
        let (v, e) = succeeded resp shown t.shape printed in
        Done-Told node node' v cli.command req m.asked (t.done_so v e)
