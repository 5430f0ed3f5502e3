-- ===== src/Reporter.antt =====
-- crates/node/src/orchestration/reporter.rs: the latest report of each node, and their summary. A
-- count is taken to fit 64 bits.
use edge_orchestrator.Common.{ℕ, ◌+◌, Bool, true, false, List, [], ◌∷◌, nat_eq, length, map, filter}
use edge_orchestrator.Common.HashMap
use edge_orchestrator.Common.HashMap.{HashMap}
use edge_orchestrator.Types.{NodeId}

pub data HealthStatus : Type 0 where
  healthy degraded unhealthy unknown : HealthStatus

pub record NodeReport : Type 0 where
  pub node_id : NodeId
  pub health : HealthStatus
  pub tasks_completed : ℕ
  pub tasks_in_flight : ℕ
  pub avg_execution_time_ms : ℕ
  pub peer_count : ℕ

abbrev pub Reporter : Type 0
Reporter = HashMap NodeId NodeReport

pub report : Reporter → NodeReport → Reporter
report reports r = HashMap.insert r.node_id r reports

pub remove : Reporter → NodeId → Reporter
remove reports node_id = HashMap.remove node_id reports

abbrev pub is_unhealthy : HealthStatus → Bool
is_unhealthy unhealthy = true
is_unhealthy healthy = false
is_unhealthy degraded = false
is_unhealthy unknown = false

abbrev pub is_healthy : HealthStatus → Bool
is_healthy healthy = true
is_healthy degraded = false
is_healthy unhealthy = false
is_healthy unknown = false

pub unhealthy_nodes : Reporter → List NodeId
unhealthy_nodes reports = map (λ r. r.0) (filter (λ r. is_unhealthy r.1.health) reports)

pub record ClusterSummary : Type 0 where
  pub total_nodes : ℕ
  pub healthy_nodes : ℕ
  pub total_tasks_completed : ℕ
  pub total_tasks_in_flight : ℕ

abbrev pub sum : List ℕ → ℕ
sum [] = 0
sum (n ∷ ns) = n + sum ns

pub cluster_summary : Reporter → ClusterSummary
cluster_summary reports = record {
  total_nodes = length reports;
  healthy_nodes = length (filter (λ r. is_healthy r.1.health) reports);
  total_tasks_completed = sum (map (λ r. r.1.tasks_completed) reports);
  total_tasks_in_flight = sum (map (λ r. r.1.tasks_in_flight) reports);
}
