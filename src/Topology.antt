-- ===== src/Topology.antt =====
-- crates/node/src/orchestration/topology.rs: the desired assignment of roles, and the proposals
-- that lead to it. Parsing the YAML text is serde's.
pub mod Desired
pub mod Converges
use edge_orchestrator.Common.{
  Bool, Option, none, some, List, [], ◌∷◌, ◌++◌, Bytes, contains, get_or_default, if◌then◌else◌,
  nat_eq,
}
use edge_orchestrator.Common.HashMap
use edge_orchestrator.Common.HashMap.{HashMap}
use edge_orchestrator.Types.{NodeId, Role, role_eq}
use edge_orchestrator.Cluster.{Proposal, assign_role, revoke_role}

-- `NodeSelector` of role_engine.rs
pub record NodeSelector : Type 0 where
  pub node_id : Option NodeId
  pub has_capabilities : List Bytes
  pub os : Option Bytes

pub record NodeAssignment : Type 0 where
  pub node_selector : NodeSelector
  pub roles : List Role

pub record ClusterTopologySpec : Type 0 where
  pub version : Bytes
  pub assignments : List NodeAssignment

-- the loop over `assignment.roles`
pub push_missing : List Role → List Role → List Role
push_missing entry [] = entry
push_missing entry (role ∷ roles) =
    push_missing (if contains role entry then entry else entry ++ role ∷ []) roles

-- one round of the loop over `desired.assignments`
pub add_assignment : HashMap NodeId (List Role) → NodeAssignment → HashMap NodeId (List Role)
unfolding push_missing
add_assignment desired a = elim a.node_selector.node_id [
  | none ↦ desired
  | some node_id ↦
      HashMap.insert node_id (push_missing (get_or_default (HashMap.get node_id desired)) a.roles)
        desired
]

pub desired_roles : HashMap NodeId (List Role) → List NodeAssignment → HashMap NodeId (List Role)
unfolding add_assignment
desired_roles desired [] = desired
desired_roles desired (a ∷ rest) = desired_roles (add_assignment desired a) rest

-- the inner loop of both passes: a proposal for each role that `have` lacks
pub propose_missing : (Role → Proposal) → List Role → List Role → List Proposal
propose_missing propose have [] = []
propose_missing propose have (role ∷ roles) =
    let rest = propose_missing propose have roles in
    if contains role have then rest else propose role ∷ rest

pub assign_missing : HashMap NodeId (List Role) → HashMap NodeId (List Role) → List Proposal
unfolding propose_missing
assign_missing current [] = []
assign_missing current ((node_id, roles) ∷ desired) =
    propose_missing (assign_role node_id) (get_or_default (HashMap.get node_id current)) roles
    ++ assign_missing current desired

pub revoke_extra : HashMap NodeId (List Role) → HashMap NodeId (List Role) → List Proposal
unfolding propose_missing
revoke_extra desired [] = []
revoke_extra desired ((node_id, roles) ∷ current) =
    propose_missing (revoke_role node_id) (get_or_default (HashMap.get node_id desired)) roles
    ++ revoke_extra desired current

unfoldable pub diff_topology : HashMap NodeId (List Role) → ClusterTopologySpec → List Proposal
unfolding desired_roles assign_missing revoke_extra
diff_topology current spec =
    let desired = desired_roles [] spec.assignments in
    assign_missing current desired ++ revoke_extra desired current
