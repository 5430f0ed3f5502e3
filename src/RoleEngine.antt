-- ===== src/RoleEngine.antt =====
-- crates/node/src/orchestration/role_engine.rs: the engine that applies a topology and reassigns
-- the roles of a failed node. The proposals go into the channel of the Raft node.
pub mod Failover
use edge_orchestrator.Common.{
  Bool, true, false, not, ◌||◌, Option, none, some, List, [], ◌∷◌, Bytes, bytes_eq, nat_eq,
  contains, ite, if◌then◌else◌, map,
}
use edge_orchestrator.Common.HashMap
use edge_orchestrator.Common.HashMap.{HashMap}
use edge_orchestrator.Common.Channel.{Channel}
use edge_orchestrator.Types.{
  NodeId, NodeDescriptor, Capabilities, Role, storage, execution, inference, coordinator, bootstrap,
  heavy, NodeType-discrete, CoreError, network,
}
use edge_orchestrator.Cluster.{Proposal, assign_role}
use edge_orchestrator.Topology.{ClusterTopologySpec, diff_topology}

pub data Result {ℓ} (A : Type ℓ) : Type ℓ where
  ok : A → Result A
  err : CoreError → Result A

-- `iter().any(|r| other.contains(r))`
unfoldable pub shares : List Bytes → List Bytes → Bool
shares [] other = false
shares (r ∷ rs) other = contains r other || shares rs other

-- the test in `find_alternative`: can a node take over a role of a node with these capabilities?
unfoldable pub fits : Role → Capabilities → NodeDescriptor → Bool
unfolding shares
fits execution lost desc = shares desc.capabilities.runtimes lost.runtimes
fits storage lost desc = desc.capabilities.storage
fits inference lost desc = desc.capabilities.gpu_acceleration
fits coordinator lost desc = true
fits bootstrap lost desc = elim (NodeType-discrete desc.node_type heavy) [
  | yes _ ↦ true
  | no _ ↦ false
]

-- the first entry of the iteration that fits
unfoldable pub find_alternative :
    HashMap NodeId NodeDescriptor → Role → Capabilities → Option NodeId
find_alternative [] role lost = none
find_alternative ((id, desc) ∷ nodes) role lost =
    if fits role lost desc then some id else find_alternative nodes role lost

module _ (ch : Channel Proposal) where
  pub record Engine : Type 0 where
    pub proposal_tx : ch.Sender
    pub desired_topology : Option ClusterTopologySpec
    pub nodes : HashMap NodeId NodeDescriptor

  pub new : ch.Sender → Engine
  new tx = record { proposal_tx = tx; desired_topology = none; nodes = [] }

  -- A proposal that cannot be sent is logged and skipped.
  pub send_all : ch.Sender → List Proposal → ch.Sender
  send_all tx [] = tx
  send_all tx (p ∷ ps) = send_all (elim (ch.send tx p) [ none ↦ tx | some tx' ↦ tx' ]) ps

  abbrev pub current_roles : Engine → HashMap NodeId (List Role)
  current_roles e = map (λ entry. (entry.0, entry.1.current_assigned_roles)) e.nodes

  pub apply_topology : Engine → ClusterTopologySpec → Engine
  unfolding send_all
  apply_topology e spec = record e {
    proposal_tx = send_all e.proposal_tx (diff_topology (current_roles e) spec);
    desired_topology = some spec;
  }

  pub register_node : Engine → NodeDescriptor → Engine
  register_node e desc = record e { nodes = HashMap.insert desc.node_id desc e.nodes }

  -- the loop over the roles of the failed node; a failed send leaves it with an error
  unfoldable pub reassign : Engine → Capabilities → List Role → Engine × Result (Unit {0})
  reassign e lost [] = (e, ok tt)
  reassign e lost (role ∷ roles) = elim (find_alternative e.nodes role lost) [
    | none ↦ reassign e lost roles
    | some alternative ↦ elim (ch.send e.proposal_tx (assign_role alternative role)) [
      | none ↦ (e, err network)
      | some tx ↦ reassign (record e { proposal_tx = tx }) lost roles
    ]
  ]

  abbrev is_empty : List Role → Bool
  is_empty [] = true
  is_empty (r ∷ rs) = false

  -- `?` after the loop, and the result when it went through
  unfoldable pub finish : Bool → Engine × Result (Unit {0}) → Engine × Result Bool
  finish lost_any (e, ok _) = (e, ok lost_any)
  finish lost_any (e, err x) = (e, err x)

  unfoldable pub handle_node_failure : Engine → NodeId → Engine × Result Bool
  unfolding reassign finish
  handle_node_failure e node_id = elim (HashMap.get node_id e.nodes) [
    | none ↦ (e, ok false)
    | some desc ↦
        let lost_roles = desc.current_assigned_roles in
        let rest : Engine = record e { nodes = HashMap.remove node_id e.nodes } in
        finish (not (is_empty lost_roles)) (reassign rest desc.capabilities lost_roles)
  ]
