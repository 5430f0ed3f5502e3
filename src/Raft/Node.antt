-- ===== src/Raft/Node.antt =====
-- node.rs: the part of `process_ready` that applies committed entries to the replicated state.
pub mod Replay
use edge_orchestrator.Common.{◌≡◌, ◌≢◌, Option, none, some, List, [], ◌∷◌, Bytes}
use edge_orchestrator.Cluster.{ClusterState, Proposal, apply}
use edge_orchestrator.Raft.{Entry}

-- `Proposal::encode` and `decode`: serde_json, which reads back what it wrote, and writes no empty
-- text.
pub record Codec : Type 0 where
  pub encode : Proposal → Option Bytes
  pub decode : Bytes → Option Proposal
  pub decode-encode : (p : Proposal) (b : Bytes) → encode p ≡ some b → decode b ≡ some p
  pub encode-ne-nil : (p : Proposal) (b : Bytes) → encode p ≡ some b → b ≢ []

apply_decoded : ClusterState → Entry → Option Proposal → ClusterState
apply_decoded s entry none = s
apply_decoded s entry (some proposal) = record (apply s proposal).0 {
  last_applied_index = entry.index;
}

module _ (c : Codec) where
  -- an empty entry is passed over
  apply_data : ClusterState → Entry → Bytes → ClusterState
  unfolding apply_decoded
  apply_data s entry [] = s
  apply_data s entry (x ∷ xs) = apply_decoded s entry (c.decode (x ∷ xs))

  -- one round of the loop over the committed entries
  pub apply_entry : ClusterState → Entry → ClusterState
  unfolding apply_data
  apply_entry s entry = apply_data s entry entry.data'

  unfoldable pub apply_committed : ClusterState → List Entry → ClusterState
  unfolding apply_entry
  apply_committed s [] = s
  apply_committed s (entry ∷ rest) = apply_committed (apply_entry s entry) rest
