-- ===== src/Project/Catalog/Named.antt =====
-- The peer of a node that is named as the target.
use edge_orchestrator.Common.{ℕ, ◌≡◌, Option, none, some, nat_eq, arith}
use edge_orchestrator.Common.HashMap
use edge_orchestrator.Types.{NodeId, NodeDescriptor, network}
use edge_orchestrator.Cluster.{ClusterState}
use edge_orchestrator.P2p.Messages.{PeerId}
use edge_orchestrator.Raft.Network
use edge_orchestrator.Raft.Network.{RaftIdRegistry}
use edge_orchestrator.Storage.Store.Interfaces.{Result, ok, err}
use edge_orchestrator.Project.Catalog.{
  raft, choose_node, peer_of_raft_id, peer_of_node, resolve_peer,
}

-- `ok_or_else(...)` on the registry's answer
abbrev pub peer_or_network : Option PeerId → Result PeerId
peer_or_network none = err network
peer_or_network (some p) = ok p

-- A named node that the Raft state knows with a Raft id is reached at the peer of that id.
pub resolve_peer_named :
    (self_id : NodeId) (state : ClusterState) (registry : RaftIdRegistry) (id : NodeId)
    (d : NodeDescriptor) (rid : ℕ)
    → HashMap.get id state.nodes ≡ some d
    → d.raft_id ≡ some rid
    → resolve_peer self_id (raft state registry) (some id)
      ≡ peer_or_network (Network.get registry rid)
unfolding resolve_peer choose_node peer_of_node peer_of_raft_id
resolve_peer_named self_id state registry id d rid at has = ground (arith, at, has)
