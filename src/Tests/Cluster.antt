-- ===== src/Tests/Cluster.antt =====
-- The replicated state, the topology and the log.
use edge_orchestrator.Common.{◌≡◌, refl, ℕ_discrete, ◌&&◌, List, [], ◌∷◌, contains}
use edge_orchestrator.Common.HashMap
use edge_orchestrator.Types.{NodeId, Role, storage, execution, Role-discrete}
use edge_orchestrator.Cluster.{
  ClusterState, Proposal, register_node, assign_role, revoke_role, default, apply, rejected,
}
use edge_orchestrator.Cluster.Invariant.{IsWellFormed, default-IsWellFormed, apply-IsWellFormed}
use edge_orchestrator.Cluster.View.{
  run, run-IsWellFormed, view, step, steps, answer, apply-refines, known,
}
use edge_orchestrator.Topology.{diff_topology}
use edge_orchestrator.Topology.Desired.{wants}
use edge_orchestrator.Topology.Converges.{diff_topology-converges}
use edge_orchestrator.Raft.{Entry}
use edge_orchestrator.Raft.Node.{apply_committed}
use edge_orchestrator.Raft.Node.Replay.{nothing, noop, carry, apply_committed-refines}
use edge_orchestrator.Tests.Samples.{node, one_execution, small}

-- node 5 is known and stores
abbrev history : List Proposal
history = register_node (node 5) ∷ assign_role 5 storage ∷ []

abbrev five : ClusterState
five = run default history

abbrev five-IsWellFormed : IsWellFormed five
five-IsWellFormed = run-IsWellFormed default history default-IsWellFormed

-- tests of topology.rs: Storage is revoked, Execution is assigned
reassignment :
    diff_topology five.role_assignments one_execution
    ≡ assign_role 5 execution ∷ revoke_role 5 storage ∷ []
unfolding diff_topology apply HashMap.get HashMap.insert HashMap.contains_key contains Role-discrete
    ℕ_discrete
reassignment = refl

unknown_rejected : (apply default (assign_role 1 storage)).1 ≡ rejected 1
unfolding apply HashMap.contains_key
unknown_rejected = refl

apply-IsWellFormed_example : IsWellFormed (apply five (revoke_role 5 storage)).0
apply-IsWellFormed_example = apply-IsWellFormed five (revoke_role 5 storage) five-IsWellFormed

apply-refines_example :
    (view (apply five (revoke_role 5 storage)).0 ≡ step (view five) (revoke_role 5 storage))
    × ((apply five (revoke_role 5 storage)).1 ≡ answer (view five) (revoke_role 5 storage))
apply-refines_example = apply-refines five five-IsWellFormed (revoke_role 5 storage)

diff_topology-converges_example :
    ((n : NodeId) (r : Role)
      → (view (run five (diff_topology five.role_assignments one_execution))).holds n r
        ≡ (known (view five) n && wants one_execution.assignments n r))
    × ((view (run five (diff_topology five.role_assignments one_execution))).registry
        ≡ (view five).registry)
diff_topology-converges_example = diff_topology-converges five one_execution five-IsWellFormed

abbrev log : List Entry
log =
    record { index = 1; term = 1; data' = [] }
    ∷ record { index = 2; term = 1; data' = 1 ∷ 5 ∷ 1 ∷ [] }
    ∷ []

apply_committed-refines_example :
    view (apply_committed small five log) ≡ steps (view five) (assign_role 5 execution ∷ [])
apply_committed-refines_example =
    apply_committed-refines small five {es = log} five-IsWellFormed (noop refl (carry refl nothing))
