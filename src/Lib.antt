-- ===== src/Lib.antt =====
-- FernQ: a message queue over TCP in which rooms relay framed messages between named connections.
--
-- fernq-core/src/protocol is the wire protocol, modelled under Protocol. A frame is a magic number, a
-- version, a type, flags, a length, then for messages a channel id, two names, the position in the
-- stream and a payload, and last a CRC-16.
-- - protocol.rs, the constants, and the checksum of the crc crate as the record `Crc`: Protocol.antt.
-- - protocol/error.rs, `ProtocolError`: Protocol/Error.antt, with the texts of errors in
--   Protocol/Error/Display.antt. A string is its UTF-8 bytes.
-- - protocol/frame.rs, magic, version, types, flags, channel ids and their worker: Protocol/Frame.antt, with
--   texts in Protocol/Frame/Display.antt and the conversions of ids in Protocol/Frame/Convert.antt.
-- - protocol/decoder.rs: Protocol/Decoder.antt, one function for each function of the source. The
--   reading of a name, written out four times in the source, is `read_name`.
-- - protocol/encoder.rs: Protocol/Encoder.antt. The arguments that all frames of a stream share are
--   the record `Stream`; the `while` loop is `stream_loop`.
-- - protocol/message.rs: Protocol/Message.antt. The serde_json crate is the record `Json` of
--   Protocol/Json.antt, whose laws say what its objects and values keep.
-- - protocol/validate.rs: Protocol/Validate.antt. `Uuid::parse_str` is a parameter. A search in a
--   string is a search in its bytes (Prelude/Search.antt), since only ASCII characters are looked for.
-- A Rust function returns a `Result`: a value, an error, a panic (an index or a slice out of range), or
-- `stuck`, which is no Rust outcome: a loop of the model ran out of fuel. `stream_loop` gets one round
-- more than there are bytes, and each round consumes one byte at least.
-- Bytes are numbers, and theorems that need it assume that they are below 256. Integers wrap where the
-- source casts them (`as u32`); `usize` has 64 bits.
-- Prelude holds the shared names, lists and results, byte slices with their big-endian integers, and
-- text as UTF-8.
--
-- fernqd/src is the daemon. Code that changes a state and may fail is a function from a state to a result
-- and the state that it leaves (Prelude/Action.antt), as one step; where tasks share memory, each
-- access is a step of a relation, and the tasks are interleaved in any order.
-- - storage/db.rs, model.rs and error.rs, the rooms on disk: Storage.antt. The fjall and bincode crates
--   are the records `Fjall` and `Bincode`; a write that fails is done or not done.
-- - server/node.rs, adding, removing, listing and loading rooms: Server/Node.antt. The table of open
--   rooms is a function of the UUID; a room in it is its id, name and numbers. Server/Node/Requests.antt
--   has `add_room`, `remove_room` and `close` in their accesses: any number of requests, in any order.
--   Server/Node/Restored.antt and Server/Node/Restart.antt are about what a start makes of the disk.
-- - server/node.rs, `add_connection`: Server/Admission.antt. What the peer sends, and whether in time,
--   is an argument; the result is the room and name of a connection, or what was sent before a shutdown.
-- - server/node.rs, `listen` and `close` with the lock that they share: Server/Shutdown.antt.
-- - server/conn.rs, `TcpConn`: Server/Connection.antt, with the memory that its clones share.
-- - server/room.rs: Server/Room.antt has one round of the loops of `listener`, `worker` and `heartbeat`,
--   and Server/Room/Registry.antt the table of connections with `add_conn`, `close`, and what `listener`
--   does to the table before and after its loop, or when it panics. Each look-up of a worker meets a
--   state of the table of its own. Server/Room/Pipeline.antt has the channels between the listeners and
--   the workers: any number of listeners and workers, one frame or one task a step, in any order, while
--   nobody closes the room or a connection from outside.
--   The heartbeat is one tick over the connections, and one connection over many ticks
--   (Server/Room/Heartbeat.antt), where a ping may fail to be written.
-- - main.rs, `handle_request` and the reading of a request: Daemon.antt. `main` up to its loop, from the
--   configuration to the control socket: Daemon/Start.antt, with `start` of server/node.rs. The file system,
--   the configuration file and the opening of the database are the record `Outside`.
--
-- fernqctl/src/main.rs is the command that controls the daemon: Control.antt, from the parsed command line
-- to what is shown. Colours and padding are left out. Control/Socket.antt has the exchange with the
-- daemon, `send_request` of fernqctl and `send_response` of fernqd/src/main.rs: what the socket does is the
-- record `Socket`, and how serde_json writes and reads requests and responses the record `Wire`.
--
-- Not modelled: log output, the parsing of the command lines and of the configuration file, the signal
-- handler, the asynchronous runtime and the TCP sockets, whose calls are steps or arguments. Time is not
-- measured: a timeout may strike wherever the code sets one.
pub mod Control
pub mod Daemon
pub mod Prelude
pub mod Protocol
pub mod Server
pub mod Storage
