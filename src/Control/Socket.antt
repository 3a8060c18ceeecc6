-- ===== src/Control/Socket.antt =====
-- The control socket between fernqctl and fernqd: `send_request` of fernqctl/src/main.rs, and the answer of
-- a client's task in fernqd/src/main.rs with `send_response`. What serde and the socket do is a parameter.
pub mod Exchange
pub mod Told
mod Tests
use fernq.Prelude.{
  ℕ, ◌≤◌, ◌≡◌, Bool, Option, none, some, List, [], ◌∷◌, ◌++◌, length, is_nil, Result, ok, err,
  panic, stuck, ◌>>=◌, ◌>>◌, fail_if,
}
use fernq.Prelude.Bytes.{Bytes}
use fernq.Prelude.Text.{text}
use fernq.Protocol.Json.{Json}
use fernq.Storage.{Fjall, Bincode, StorageError}
use fernq.Server.Node.{ServerNode}
use fernq.Daemon.{Arrays, Request, Response, handle_stream}
use fernq.Control.{Cli, Printed, run}

-- `to_vec` and `from_slice` of serde_json for requests and responses: no JSON text is empty, and a request
-- that was written is read back.
pub record Wire (Value : Type 0) : Type 0 where
  pub request_to_vec : Request → Result Bytes Bytes
  pub request_from_slice : Bytes → Result Bytes Request
  pub response_to_vec : Response Value → Result Bytes Bytes
  pub response_from_slice : Bytes → Result Bytes (Response Value)
  pub request_filled :
      (r : Request) (bytes : Bytes) → request_to_vec r ≡ ok bytes → 1 ≤ length bytes
  pub response_filled :
      (r : Response Value) (bytes : Bytes) → response_to_vec r ≡ ok bytes → 1 ≤ length bytes
  pub request_back :
      (r : Request) (bytes : Bytes) → request_to_vec r ≡ ok bytes → request_from_slice bytes ≡ ok r

-- A `UnixStream`, with what becomes of each call on it. What comes back is the answer to what was written.
pub record Socket : Type 0 where
  pub connect : Result Bytes (Unit {0})
  pub set_read_timeout : Result Bytes (Unit {0})
  pub set_write_timeout : Result Bytes (Unit {0})
  pub write_all : Bytes → Result Bytes (Unit {0})
  pub shutdown : Result Bytes (Unit {0})
  pub read_to_end : Bytes → Result Bytes Bytes

-- `with_context`: of an error with a context, `{}` shows the context.
abbrev pub with_context : {A : Type 0} → Bytes → Result Bytes A → Result Bytes A
with_context context (ok a) = ok a
with_context context (err e) = err context
with_context context panic = panic
with_context context stuck = stuck

-- `let _ = …`
abbrev pub or_empty : Result Bytes Bytes → Bytes
or_empty (ok bytes) = bytes
or_empty (err e) = []
or_empty panic = []
or_empty stuck = []

module _ {Value : Type 0} (wire : Wire Value) where
  unfoldable pub send_request : Socket → Request → Result Bytes (Response Value)
  send_request stream req = do
    connected ← with_context (text "Is fernqd running?") stream.connect
    read_limit ← stream.set_read_timeout
    write_limit ← stream.set_write_timeout
    req_json ← wire.request_to_vec req
    written ← stream.write_all req_json
    ended ← stream.shutdown
    buf ← stream.read_to_end req_json
    fail_if (is_nil buf) (text "Empty response from server")
    with_context (text "Invalid response format") (wire.response_from_slice buf)

  -- The call of `send_request` in `run`.
  abbrev pub sent_to : (Bytes → Socket) → Bytes → Request → Result Bytes (Response Value)
  sent_to sockets socket_path request =
      with_context (text "Cannot connect to fernqd at " ++ socket_path)
        (send_request (sockets socket_path) request)

  -- What `send_response` writes, if it is called. Its own errors are dropped.
  abbrev pub send_response : Option (Response Value) → Bytes
  send_response none = []
  send_response (some resp) = or_empty (wire.response_to_vec resp)

  -- The socket is closed when the task is over, also when it panics.
  abbrev pub written_back : {E S : Type 0} → Result E (Option (Response Value)) × S → Bytes
  written_back (ok resp, s) = send_response resp
  written_back (err e, s) = []
  written_back (panic, s) = []
  written_back (stuck, s) = []
