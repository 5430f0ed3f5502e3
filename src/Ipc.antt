-- ===== src/Ipc.antt =====
-- crates/node/src/ipc: the JSON-RPC methods that a client calls over the local socket.
pub mod Handler
pub mod Connection
