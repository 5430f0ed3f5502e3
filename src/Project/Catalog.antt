-- ===== src/Project/Catalog.antt =====
-- project_client.rs: how a target node becomes a peer. The lock around the state is left out, and
-- with it the error of a poisoned lock.
pub mod Sorted
pub mod Least
pub mod Named
use edge_orchestrator.Common.{
  ℕ, Bool, true, false, not, ◌&&◌, Option, none, some, List, [], ◌∷◌, leb, filter, map, ◌==◌,
  if◌then◌else◌, nat_eq,
}
use edge_orchestrator.Common.HashMap
use edge_orchestrator.Common.HashMap.{HashMap}
use edge_orchestrator.Types.{NodeId, NodeDescriptor, CoreError, network, invalid_state}
use edge_orchestrator.Cluster.{ClusterState}
use edge_orchestrator.P2p.Messages.{PeerId}
use edge_orchestrator.Raft.Network
use edge_orchestrator.Raft.Network.{RaftIdRegistry}
use edge_orchestrator.Storage.Store.Interfaces.{Result, ok, err, panic}

pub data Catalog : Type 0 where
  raft : ClusterState → RaftIdRegistry → Catalog
  peers : HashMap PeerId NodeDescriptor → Catalog

-- the order of `Option<u64>`
abbrev pub raft_id_le : Option ℕ → Option ℕ → Bool
raft_id_le none b = true
raft_id_le (some a) none = false
raft_id_le (some a) (some b) = leb a b

module _ {A : Type 0} (key : A → Option ℕ) where
  unfoldable pub insert_by_key : A → List A → List A
  insert_by_key x [] = x ∷ []
  insert_by_key x (y ∷ ys) =
      let rest = insert_by_key x ys in if raft_id_le (key x) (key y) then x ∷ y ∷ ys else y ∷ rest

  -- `sort_by_key`, which is stable
  unfoldable pub sort_by_key : List A → List A
  unfolding insert_by_key
  sort_by_key [] = []
  sort_by_key (x ∷ xs) = insert_by_key x (sort_by_key xs)

-- `d.capabilities.project_sandbox && d.node_id != self_id`
abbrev pub is_capable : NodeId → NodeDescriptor → Bool
is_capable self_id d = d.capabilities.project_sandbox && not (d.node_id == self_id)

-- the node that the Raft state names
unfoldable pub choose_node : NodeId → ClusterState → Option NodeId → Result NodeDescriptor
unfolding sort_by_key
choose_node self_id state (some id) = elim (HashMap.get id state.nodes) [
  | none ↦ err invalid_state
  | some d ↦ ok d
]
choose_node self_id state none =
    elim (sort_by_key (λ d. d.raft_id) (filter (is_capable self_id) (map (λ n. n.1) state.nodes))) [
      | [] ↦ err invalid_state
      | d ∷ others ↦ ok d
    ]

unfoldable pub peer_of_raft_id : RaftIdRegistry → Option ℕ → Result PeerId
peer_of_raft_id registry none = err invalid_state
peer_of_raft_id registry (some raft_id) = elim (Network.get registry raft_id) [
  | none ↦ err network
  | some peer ↦ ok peer
]

unfoldable pub peer_of_node : RaftIdRegistry → Result NodeDescriptor → Result PeerId
unfolding peer_of_raft_id
peer_of_node registry (ok d) = peer_of_raft_id registry d.raft_id
peer_of_node registry (err e) = err e
peer_of_node registry panic = panic

-- `peers.iter().find(|(_, d)| d.node_id == id)`
pub find_node : NodeId → HashMap PeerId NodeDescriptor → Option PeerId
find_node id [] = none
find_node id ((p, d) ∷ rest) =
    let next = find_node id rest in if d.node_id == id then some p else next

pub pick_peer : NodeId → HashMap PeerId NodeDescriptor → Option NodeId → Option PeerId
unfolding find_node sort_by_key
pick_peer self_id known (some id) = find_node id known
pick_peer self_id known none =
    elim (sort_by_key (λ n. n.1.raft_id) (filter (λ n. is_capable self_id n.1) known)) [
      | [] ↦ none
      | n ∷ others ↦ some n.0
    ]

unfoldable pub resolve_peer : NodeId → Catalog → Option NodeId → Result PeerId
unfolding choose_node peer_of_node pick_peer
resolve_peer self_id (raft state registry) target =
    peer_of_node registry (choose_node self_id state target)
resolve_peer self_id (peers known) target = elim (pick_peer self_id known target) [
  | none ↦ err invalid_state
  | some p ↦ ok p
]
