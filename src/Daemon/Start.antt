-- ===== src/Daemon/Start.antt =====
-- The start of the daemon, `main` of fernqd/src/main.rs up to its loop: the configuration, the storage, the
-- stored rooms and the control socket. The configuration file, the database and the file system are a
-- parameter.
pub mod Launched
mod Tests
use fernq.Prelude.{
  ℕ, ◌≡◌, Bool, true, false, Option, none, some, ◌++◌, if◌then◌else◌, Result, ok, err, panic, stuck,
}
use fernq.Prelude.Bytes.{Bytes}
use fernq.Prelude.Text.{text, same, decimal}
use fernq.Prelude.Search.{rfind}
use fernq.Prelude.Action.{Action, lift, return, ◌>>=◌, ◌>>◌}
use fernq.Storage.{Fjall, Bincode, StorageError, new_storage}
use fernq.Server.Node.{ServerNode, new_node, start_rooms}

-- The command line.
pub record Cli : Type 0 where
  pub config : Bytes
  pub storage : Bytes
  pub dev : Bool

pub record ServerConfig : Type 0 where
  pub host : Bytes
  pub port : ℕ

-- What `main` calls: the crate config, the opening of a database by fjall, the parser of socket addresses, and the
-- file system, in a state of its own.
pub record Outside (fjall : Fjall) : Type 1 where
  pub Config : Type 0
  pub Database : Type 0
  pub Addr : Type 0
  pub Files : Type 0
  pub build : Bytes → Result Bytes Config
  pub get_server : Config → Result Bytes ServerConfig
  pub open_database : Bytes → Result fjall.Error Database
  pub keyspace : Database → Bytes → Result fjall.Error fjall.Keyspace
  pub parse_addr : Bytes → Result Bytes Addr
  pub exists : Bytes → Files → Bool
  pub create_dir_all : Bytes → Action Files Bytes (Unit {0})
  pub remove_file : Bytes → Action Files Bytes (Unit {0})
  pub bind : Bytes → Action Files Bytes (Unit {0})
  pub set_permissions : Bytes → Action Files Bytes (Unit {0})

-- `map_err` with a text before the error.
abbrev pub map_err : {A : Type 0} → Bytes → Result Bytes A → Result Bytes A
map_err prefix (ok a) = ok a
map_err prefix (err e) = err (prefix ++ e)
map_err prefix panic = panic
map_err prefix stuck = stuck

abbrev pub map_err_of : {S A : Type 0} → Bytes → Result Bytes A × S → Result Bytes A × S
map_err_of prefix (r, s) = (map_err prefix r, s)

unfoldable pub sock_path : (dev : Bool) → Bytes
sock_path dev = if dev then text "/tmp/fernq.sock" else text "/run/fernq/fernq.sock"

-- `Path::parent`, of a path with a directory.
unfoldable pub parent : Bytes → Option Bytes
parent path = elim (rfind b'/' path) [ none ↦ none | some (dir, file) ↦ some dir ]

module _ (fjall : Fjall) (outside : Outside fjall) where
  open outside use {Files, Addr, exists, create_dir_all, remove_file, bind, set_permissions}

  abbrev pub make_parent : Option Bytes → Action Files Bytes (Unit {0})
  make_parent none = return tt
  make_parent (some dir) = λ s.
      if exists dir s
      then (ok tt, s)
      else map_err_of (text "Failed to create socket dir: ") (create_dir_all dir s)

  abbrev pub remove_old : Bytes → Action Files Bytes (Unit {0})
  remove_old path = λ s.
      if exists path s
      then map_err_of (text "Failed to remove old socket: ") (remove_file path s)
      else (ok tt, s)

  -- What is done before the control socket is bound.
  unfoldable pub prepare : Bytes → Action Files Bytes (Unit {0})
  prepare path = make_parent (parent path) >> remove_old path

  unfoldable pub open_socket : Bytes → Action Files Bytes (Unit {0})
  open_socket path = do
    ready ← prepare path
    bound ← λ s. map_err_of (text "Failed to bind unix socket: ") (bind path s)
    set_permissions path

  module _ (bincode : Bincode) (show_uuid : Bytes → Bytes)
      (show_error : StorageError fjall.Error → Bytes) where
    abbrev pub shown_error : {A : Type 0} → Result (StorageError fjall.Error) A → Result Bytes A
    shown_error (ok a) = ok a
    shown_error (err e) = err (show_error e)
    shown_error panic = panic
    shown_error stuck = stuck

    -- The address that is listened on: none, if it cannot be parsed_addr.
    abbrev pub parsed_addr : Result Bytes Addr → Result (StorageError fjall.Error) (Option Addr)
    parsed_addr (ok addr) = ok (some addr)
    parsed_addr (err e) = ok none
    parsed_addr panic = panic
    parsed_addr stuck = stuck

    -- `ServerNode::start`. What it listens on is a task of its own.
    unfoldable pub start :
        (bind_addr : Bytes)
        → Action (ServerNode fjall bincode) (StorageError fjall.Error) (Option Addr)
    start bind_addr = do
      opened ← start_rooms fjall bincode show_uuid show_error
      lift (parsed_addr (outside.parse_addr bind_addr))

    pub record RunningDaemon : Type 0 where
      pub node : ServerNode fjall bincode
      pub listening : Option Addr
      pub bind_addr : Bytes
      pub socket : Bytes

    abbrev pub started :
        Result (StorageError fjall.Error) (Option Addr) × ServerNode fjall bincode
        → Result (StorageError fjall.Error) (Option Addr × ServerNode fjall bincode)
    started (ok a, node) = ok (a, node)
    started (err e, node) = err e
    started (panic, node) = panic
    started (stuck, node) = stuck

    -- `main`, up to its loop.
    unfoldable pub launch : Cli → Action Files Bytes RunningDaemon
    launch cli = do
      cfg ← lift (map_err (text "Failed to load config: ") (outside.build cli.config))
      server_cfg ← lift (map_err (text "Missing [server] section: ") (outside.get_server cfg))
      let bind_addr = server_cfg.host ++ (text ":" ++ decimal server_cfg.port)
      storage ← lift (
          shown_error
            (new_storage fjall bincode outside.open_database outside.keyspace cli.storage))
      at ← lift (shown_error (started (start bind_addr (new_node fjall bincode storage))))
      opened ← open_socket (sock_path cli.dev)
      return (record {
        node = at.1;
        listening = at.0;
        bind_addr = bind_addr;
        socket = sock_path cli.dev;
      })
