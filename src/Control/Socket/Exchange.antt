-- ===== src/Control/Socket/Exchange.antt =====
-- A command on its way from fernqctl to the node and back.
use fernq.Prelude.{
  ◌≤◌, ◌≡◌, refl, ap, subst, false, Option, some, [], ◌∷◌, length, is_nil, take_all, Result, ok,
  arith,
}
use fernq.Prelude.Bytes.{Bytes}
use fernq.Protocol.Json.{Json}
use fernq.Storage.{Fjall, Bincode, StorageError}
use fernq.Server.Node.{ServerNode}
use fernq.Daemon.{Arrays, Request, Response, handle_request, handle_stream}
use fernq.Control.{Cli, socket_path, request_of, print_response, run}
use fernq.Control.Socket.{Wire, Socket, send_request, sent_to, or_empty, written_back}

module _ {Value : Type 0} (wire : Wire Value) where
  -- Nothing on the socket fails, and this comes back.
  pub record Answers (stream : Socket) (req_json buf : Bytes) : Type 0 where
    pub connected : stream.connect ≡ ok tt
    pub read_limit : stream.set_read_timeout ≡ ok tt
    pub write_limit : stream.set_write_timeout ≡ ok tt
    pub written : stream.write_all req_json ≡ ok tt
    pub ended : stream.shutdown ≡ ok tt
    pub back : stream.read_to_end req_json ≡ ok buf

  is_nil-filled : (bytes : Bytes) → 1 ≤ length bytes → is_nil bytes ≡ false
  is_nil-filled [] h = absurd (omega arith)
  is_nil-filled (b ∷ bytes) h = refl

  send_request-Answers :
      (stream : Socket) (req : Request) (req_json buf : Bytes) (resp : Response Value)
      → wire.request_to_vec req ≡ ok req_json
      → Answers stream req_json buf
      → 1 ≤ length buf
      → wire.response_from_slice buf ≡ ok resp
      → send_request wire stream req ≡ ok resp
  unfolding send_request
  send_request-Answers stream req req_json buf resp printed a some_bytes read_back = rw (
    a.connected,
    a.read_limit,
    a.write_limit,
    printed,
    a.written,
    a.ended,
    a.back,
    is_nil-filled buf some_bytes,
    read_back,
  )

module _ (json : Json) (arrays : Arrays json) (fjall : Fjall) (bincode : Bincode)
    (show_uuid : Bytes → Bytes) (show_error : StorageError fjall.Error → Bytes)
    (parse_str : Bytes → Result Bytes Bytes) (fresh_id addr : Bytes) (wire : Wire json.Value) where
  -- What a client of the daemon gets back, and the node that it leaves.
  abbrev pub reply : Option Bytes → ServerNode fjall bincode → Bytes × ServerNode fjall bincode
  reply arrived node =
      let o =
        handle_stream json arrays fjall bincode show_uuid show_error parse_str
          wire.request_from_slice fresh_id addr arrived node in
      (written_back wire o, o.1)

  reply-request :
      (req : Request) (req_json buf : Bytes) (resp : Response json.Value)
      (node node' : ServerNode fjall bincode)
      → wire.request_to_vec req ≡ ok req_json
      → length req_json ≤ 4096
      → handle_request json arrays fjall bincode show_uuid show_error parse_str fresh_id addr req
          node
        ≡ (ok resp, node')
      → wire.response_to_vec resp ≡ ok buf
      → reply (some req_json) node ≡ (buf, node')
  unfolding handle_stream
  reply-request req [] buf resp node node' printed fits handled sent =
      absurd (omega (arith, wire.request_filled req [] printed))
  reply-request req (b ∷ bs) buf resp node node' printed fits handled sent = rw (
    take_all 4096 (b ∷ bs) fits,
    wire.request_back req (b ∷ bs) printed,
    handled,
    ap or_empty sent,
  )

  module _ (user_id : Result Bytes Bytes) (sockets : Bytes → Socket) (cli : Cli) (req : Request)
      (node node' : ServerNode fjall bincode) (resp : Response json.Value)
      (req_json buf : Bytes) where
    -- The command and the daemon meet: nothing on the socket fails, the request has 4096 bytes at most
    -- and is there at once, and the response can be written and read back.
    pub record Meets : Type 0 where
      pub asked : request_of parse_str cli.command ≡ ok (some req)
      pub printed : wire.request_to_vec req ≡ ok req_json
      pub fits : length req_json ≤ 4096
      pub handled :
          handle_request json arrays fjall bincode show_uuid show_error parse_str fresh_id addr req
            node
          ≡ (ok resp, node')
      pub sent : wire.response_to_vec resp ≡ ok buf
      pub read_back : wire.response_from_slice buf ≡ ok resp
      pub answers : Answers wire (sockets (socket_path cli)) req_json (reply (some req_json) node).0

    pub run-Meets :
        Meets
        → run json arrays user_id parse_str (sent_to wire sockets) cli
          ≡ print_response json arrays user_id cli resp
    unfolding run
    run-Meets m =
        let came_back =
          ap (λ (o : Bytes × ServerNode fjall bincode). o.0)
            (reply-request req req_json buf resp node node' m.printed m.fits m.handled m.sent) in
        let got =
          send_request-Answers wire (sockets (socket_path cli)) req req_json buf resp m.printed
            (subst (Answers wire (sockets (socket_path cli)) req_json) came_back m.answers)
            (wire.response_filled resp buf m.sent) m.read_back in
        rw (m.asked, got)
