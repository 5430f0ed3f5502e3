-- ===== src/P2p.antt =====
-- crates/p2p/src: the exchange of messages between nodes.
pub mod Messages
pub mod Stream
pub mod Framing
pub mod Protocol
pub mod Swarm
