-- ===== src/Cluster.antt =====
-- crates/node/src/raft/state_machine.rs and proposal.rs: the replicated state, the proposals
-- that change it, and what applying one returns.
pub mod Invariant
pub mod View
use edge_orchestrator.Common.{
  ℕ, Bool, true, false, not, Option, none, some, List, [], ◌∷◌, ◌++◌, contains, position, remove_at,
  get_or_default, if◌then◌else◌, nat_eq,
}
use edge_orchestrator.Common.HashMap
use edge_orchestrator.Common.HashMap.{HashMap}
use edge_orchestrator.Types.{NodeId, Role, role_eq, NodeDescriptor}

pub data Proposal : Type 0 where
  register_node : NodeDescriptor → Proposal
  deregister_node : NodeId → Proposal
  assign_role : NodeId → Role → Proposal
  revoke_role : NodeId → Role → Proposal

-- The text of a rejection names the unknown node, and nothing else that varies.
pub data ApplyResult : Type 0 where
  ok : ApplyResult
  node_registered : NodeId → ApplyResult
  node_deregistered : NodeId → ApplyResult
  role_assigned : NodeId → Role → ApplyResult
  role_revoked : NodeId → Role → ApplyResult
  rejected : NodeId → ApplyResult

pub record ClusterState : Type 0 where
  pub nodes : HashMap NodeId NodeDescriptor
  pub role_assignments : HashMap NodeId (List Role)
  pub last_applied_index : ℕ

-- `ClusterState::default()`
abbrev pub default : ClusterState
default = record { nodes = []; role_assignments = []; last_applied_index = 0 }

unfoldable pub apply : ClusterState → Proposal → ClusterState × ApplyResult
apply s (register_node desc) =
    let node_id = desc.node_id in
    let is_new = not (HashMap.contains_key node_id s.nodes) in
    let s' : ClusterState = record s { nodes = HashMap.insert node_id desc s.nodes } in
    if is_new then (s', node_registered node_id) else (s', ok)
apply s (deregister_node node_id) = (
  record s {
    nodes = HashMap.remove node_id s.nodes;
    role_assignments = HashMap.remove node_id s.role_assignments;
  },
  node_deregistered node_id,
)
apply s (assign_role node_id role) =
    if not (HashMap.contains_key node_id s.nodes)
    then (s, rejected node_id)
    else (let roles = get_or_default (HashMap.get node_id s.role_assignments) in
        if contains role roles
        then (record s { role_assignments = HashMap.insert node_id roles s.role_assignments }, ok)
        else (
          record s {
            role_assignments = HashMap.insert node_id (roles ++ role ∷ []) s.role_assignments;
          },
          role_assigned node_id role,
        ))
apply s (revoke_role node_id role) = elim (HashMap.get node_id s.role_assignments) [
  | none ↦ (s, ok)
  | some roles ↦ elim (position role roles) [
    | none ↦ (s, ok)
    | some pos ↦ (
      record s {
        role_assignments = HashMap.insert node_id (remove_at pos roles) s.role_assignments;
      },
      role_revoked node_id role,
    )
  ]
]

pub record ClusterSnapshot : Type 0 where
  pub nodes : HashMap NodeId NodeDescriptor
  pub role_assignments : HashMap NodeId (List Role)
  pub last_applied_index : ℕ

unfoldable pub snapshot : ClusterState → ClusterSnapshot
snapshot s = record {
  nodes = s.nodes;
  role_assignments = s.role_assignments;
  last_applied_index = s.last_applied_index;
}

unfoldable pub restore : ClusterSnapshot → ClusterState
restore c = record {
  nodes = c.nodes;
  role_assignments = c.role_assignments;
  last_applied_index = c.last_applied_index;
}
