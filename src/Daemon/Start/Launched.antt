-- ===== src/Daemon/Start/Launched.antt =====
-- What holds when the daemon was started.
use fernq.Prelude.{
  ◌≡◌, refl, sym, subst, Bool, Option, none, List, ◌++◌, Result, ok, err, panic, stuck,
}
use fernq.Prelude.Bytes.{Bytes}
use fernq.Prelude.Text.{text, decimal}
use fernq.Prelude.Action.{run_next, Post, Post-run_read, Post-run_next, Post-always, Post-ok}
use fernq.Storage.{RoomModel, Fjall, Bincode, StorageError, new_storage, list_all_rooms}
use fernq.Storage.Listed.{IsKeyed, IsIterated}
use fernq.Server.Node.{ServerNode, new_node, start_rooms}
use fernq.Server.Node.Restored.{IsRestored, start_rooms-IsRestored}
use fernq.Server.Node.Kept.{IsKeptNode}
use fernq.Control.{socket_path}
use fernq.Control
use fernq.Daemon.Start.{
  Cli, Outside, map_err, sock_path, open_socket, shown_error, started, start, RunningDaemon, launch,
}

module _ (fjall : Fjall) (outside : Outside fjall) where
  open outside use {Files, Addr}

  module _ (bincode : Bincode) (show_uuid : Bytes → Bytes)
      (show_error : StorageError fjall.Error → Bytes) where
    run_next-kept :
        {S E A B : Type 0} (o : Result E A × S) (r : Result E B)
        → (run_next o (λ a s. (r, s))).1 ≡ o.1
    run_next-kept (ok a, s) r = refl
    run_next-kept (err e, s) r = refl
    run_next-kept (panic, s) r = refl
    run_next-kept (stuck, s) r = refl

    started_node :
        (o : Result (StorageError fjall.Error) (Option Addr) × ServerNode fjall bincode)
        (at : Option Addr × ServerNode fjall bincode)
        → shown_error fjall outside bincode show_uuid show_error
            (started fjall outside bincode show_uuid show_error o)
          ≡ ok at
        → at.1 ≡ o.1
    started_node (ok a, node) at h = cc
    started_node (err e, node) at h = absurd (cc)
    started_node (panic, node) at h = absurd (cc)
    started_node (stuck, node) at h = absurd (cc)

    start-node :
        (bind_addr : Bytes) (node : ServerNode fjall bincode)
        → (start fjall outside bincode show_uuid show_error bind_addr node).1
          ≡ (start_rooms fjall bincode show_uuid show_error node).1
    unfolding start
    start-node bind_addr node =
        run_next-kept (start_rooms fjall bincode show_uuid show_error node) _

    known_storage :
        {A : Type 0} (r : Result (StorageError fjall.Error) A) (a b : A)
        → r ≡ ok a
        → shown_error fjall outside bincode show_uuid show_error r ≡ ok b
        → b ≡ a
    known_storage (ok c) a b h k = cc
    known_storage (err e) a b h k = absurd (cc)
    known_storage panic a b h k = absurd (cc)
    known_storage stuck a b h k = absurd (cc)

    -- The daemon took its node from the disk, with exactly the stored rooms in the table, each under its id, and it
    -- listens where the command connects.
    pub record IsLaunched (disk : fjall.Keyspace) (ctl : Control.Cli)
        (d : RunningDaemon fjall outside bincode show_uuid show_error) : Type 0 where
      pub disk_read : d.node.disk ≡ disk
      pub kept : IsKeptNode fjall bincode d.node
      pub meets : socket_path ctl ≡ d.socket

    meeting :
        (ctl : Control.Cli) (dev : Bool)
        → ctl.socket ≡ none
        → ctl.dev ≡ dev
        → socket_path ctl ≡ sock_path dev
    unfolding socket_path sock_path
    meeting ctl dev unset same_mode = rw (unset, same_mode) refl

    module _ (disk : fjall.Keyspace) (models : List RoomModel)
        (keyed : IsKeyed fjall bincode (fjall.contents disk))
        (iterated : IsIterated fjall bincode disk)
        (listed : list_all_rooms fjall bincode disk ≡ ok models) where
      started-IsKept :
          (bind_addr : Bytes)
          → ((start fjall outside bincode show_uuid show_error bind_addr
                (new_node fjall bincode disk)).1.disk
              ≡ disk)
            × IsKeptNode fjall bincode
                (start fjall outside bincode show_uuid show_error bind_addr
                  (new_node fjall bincode disk)).1
      started-IsKept bind_addr =
          let (same_disk, restored) =
            start_rooms-IsRestored fjall bincode show_uuid show_error (new_node fjall bincode disk)
              models refl keyed iterated listed in
          subst (λ (n : ServerNode fjall bincode). (n.disk ≡ disk) × IsKeptNode fjall bincode n)
            (sym (start-node bind_addr (new_node fjall bincode disk)))
            (
              same_disk,
              record {
                restored =
                    subst
                      (λ s.
                        IsRestored fjall bincode
                          (start_rooms fjall bincode show_uuid show_error
                            (new_node fjall bincode disk)).1.rooms
                          (fjall.contents s))
                      (sym same_disk) restored;
                keyed = subst (λ s. IsKeyed fjall bincode (fjall.contents s)) (sym same_disk) keyed;
              },
            )

      launched :
          (cli : Cli) (ctl : Control.Cli)
          → ctl.socket ≡ none
          → ctl.dev ≡ cli.dev
          → (storage : fjall.Keyspace) (at : Option Addr × ServerNode fjall bincode)
          → (bind_addr : Bytes) → storage ≡ disk
          → at.1
            ≡ (start fjall outside bincode show_uuid show_error bind_addr
                (new_node fjall bincode storage)).1
          → IsLaunched disk ctl (record {
            node = at.1;
            listening = at.0;
            bind_addr = bind_addr;
            socket = sock_path cli.dev;
          })
      launched cli ctl unset same_mode storage at bind_addr at_disk e =
          let from_disk : at.1
              ≡ (start fjall outside bincode show_uuid show_error bind_addr
                  (new_node fjall bincode disk)).1 =
            subst
              (λ x.
                at.1
                ≡ (start fjall outside bincode show_uuid show_error bind_addr
                    (new_node fjall bincode x)).1)
              at_disk e in
          let (same_disk, kept) =
            subst (λ (n : ServerNode fjall bincode). (n.disk ≡ disk) × IsKeptNode fjall bincode n)
              (sym from_disk) (started-IsKept bind_addr) in
          record { disk_read = same_disk; kept = kept; meets = meeting ctl cli.dev unset same_mode }

      -- When the daemon starts on a disk that can be opened and read, where each room is under its id and an
      -- iteration meets entries only: if the start succeeds, its node has this disk, and exactly the stored
      -- rooms in the table, and fernqctl with the same --dev and no --socket connects to the path on which
      -- the daemon listens.
      pub launch-IsLaunched :
          (cli : Cli) (ctl : Control.Cli) (s : Files)
          → new_storage fjall bincode outside.open_database outside.keyspace cli.storage ≡ ok disk
          → ctl.socket ≡ none
          → ctl.dev ≡ cli.dev
          → Post
              (λ d s'. IsLaunched disk ctl d)
              (λ s'. Unit {0})
              (launch fjall outside bincode show_uuid show_error cli s)
      unfolding launch
      launch-IsLaunched cli ctl s opens unset same_mode =
          Post-run_read _ _ (map_err (text "Failed to load config: ") (outside.build cli.config)) s
            _
            (λ cfg e0.
              Post-run_read _ _
                (map_err (text "Missing [server] section: ") (outside.get_server cfg)) s _
                (λ server_cfg e1.
                  Post-run_read _ _
                    (shown_error fjall outside bincode show_uuid show_error (
                      new_storage fjall bincode outside.open_database outside.keyspace cli.storage))
                    s _
                    (λ storage e2.
                      let at_disk = known_storage _ disk storage opens e2 in
                      let bind_addr = server_cfg.host ++ (text ":" ++ decimal server_cfg.port) in
                      let o =
                        start fjall outside bincode show_uuid show_error bind_addr
                          (new_node fjall bincode storage) in
                      Post-run_read _ _
                        (shown_error fjall outside bincode show_uuid show_error
                          (started fjall outside bincode show_uuid show_error o))
                        s _
                        (λ at e3.
                          Post-run_next _ (λ u s'. Unit {0}) _
                            (open_socket fjall outside (sock_path cli.dev) s) _
                            (Post-always (λ s'. Unit {0}) _ tt)
                            λ u s' v. Post-ok _ _ _ _ s' (
                              launched cli ctl unset same_mode storage at bind_addr at_disk
                                (started_node o at e3)))
                        tt)
                    tt)
                tt)
            tt
