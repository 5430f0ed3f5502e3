-- ===== src/Tests/Runtime.antt =====
-- The choice of an executor on a concrete state.
use edge_orchestrator.Common.{some, [], ◌∷◌}
use edge_orchestrator.Types.{NodeDescriptor, execution}
use edge_orchestrator.Cluster.{ClusterState, default, apply, register_node}
use edge_orchestrator.Runtime.{pick_executor}
use edge_orchestrator.Runtime.Executor.{Picks, pick_executor-Picks}
use edge_orchestrator.Tests.Samples.{node}

abbrev executor : NodeDescriptor
executor = record (node 4) { current_assigned_roles = execution ∷ [] }

abbrev cluster : ClusterState
cluster = (apply default (register_node executor)).0

pick_executor-Picks_example : Picks (some 9) cluster.nodes (pick_executor cluster (some 9))
pick_executor-Picks_example = pick_executor-Picks cluster (some 9)
