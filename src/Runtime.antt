-- ===== src/Runtime.antt =====
-- crates/node/src/orchestration/runtime_loop.rs: the choice of an executor, and one round of the
-- registration loop.
pub mod Executor
use edge_orchestrator.Common.{
  ℕ, Bool, true, false, ◌&&◌, ◌||◌, Option, none, some, List, [], ◌∷◌, contains, ℕ_discrete,
  if◌then◌else◌,
}
use edge_orchestrator.Common.HashMap.{HashMap}
use edge_orchestrator.Common.Channel.{Channel}
use edge_orchestrator.Types.{NodeId, NodeDescriptor, Role, role_eq, execution}
use edge_orchestrator.Cluster.{ClusterState, Proposal, register_node}

-- `Some(*rid) != exclude`
abbrev pub differs : ℕ → Option ℕ → Bool
differs rid none = true
differs rid (some x) = elim (ℕ_discrete rid x) [ yes _ ↦ false | no _ ↦ true ]

-- the Raft id of a node that passes the filters
abbrev pub candidate : Option ℕ → NodeDescriptor → Option ℕ
candidate exclude d = elim d.raft_id [
  | none ↦ none
  | some rid ↦
      if contains execution d.current_assigned_roles && differs rid exclude then some rid else none
]

pub pick_from : Option ℕ → HashMap NodeId NodeDescriptor → Option ℕ
pick_from exclude [] = none
pick_from exclude ((id, d) ∷ nodes) = elim (candidate exclude d) [
  | some rid ↦ some rid
  | none ↦ pick_from exclude nodes
]

pub pick_executor : ClusterState → Option ℕ → Option ℕ
unfolding pick_from
pick_executor s exclude = pick_from exclude s.nodes

-- `d.raft_id == Some(self_raft_id)`
abbrev pub has_raft_id : ℕ → Option ℕ → Bool
has_raft_id self none = false
has_raft_id self (some x) = elim (ℕ_discrete x self) [ yes _ ↦ true | no _ ↦ false ]

pub is_registered : ℕ → HashMap NodeId NodeDescriptor → Bool
is_registered self [] = false
is_registered self ((id, d) ∷ nodes) = has_raft_id self d.raft_id || is_registered self nodes

-- the loop of `spawn_register_loop` once; a refused send is ignored
pub register_round :
    (ch : Channel Proposal) → ℕ → NodeDescriptor → ch.Sender → ClusterState → ch.Sender
unfolding is_registered
register_round ch self_raft_id self_desc tx s =
    if is_registered self_raft_id s.nodes
    then tx
    else elim (ch.send tx (register_node self_desc)) [ none ↦ tx | some tx' ↦ tx' ]
