-- ===== src/Raft.antt =====
-- crates/node/src/raft/: what the node does with the library raft-rs. Of the library's data only
-- the fields that the code reads or writes are kept.
pub mod Node
pub mod Storage
pub mod Network
pub mod Ready
use edge_orchestrator.Common.{ℕ, Bytes}

-- `eraftpb::Entry`
pub record Entry : Type 0 where
  pub index : ℕ
  pub term : ℕ
  pub data' : Bytes
