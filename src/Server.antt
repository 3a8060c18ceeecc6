-- ===== src/Server.antt =====
-- fernqd/src/server: the node, which keeps the stored rooms open and lets connections into them.
pub mod Node
pub mod Connection
pub mod Admission
pub mod Room
pub mod Shutdown
