-- ===== src/Types/Project.antt =====
-- crates/core/src/types.rs: a project to build and run, its snapshot, and the results.
use edge_orchestrator.Common.{ℕ, Bool, false, Option, List, [], Bytes, length}
use edge_orchestrator.Common.Int.{ℤ}
use edge_orchestrator.Types.{Hash, NodeId, TaskId}

pub record ResourceLimits : Type 0 where
  pub max_memory_mb : ℕ
  pub max_cpu_time_ms : ℕ
  pub max_disk_mb : ℕ
  pub allow_network : Bool
  pub max_fds : ℕ

-- `Default for ResourceLimits`
abbrev pub default_limits : ResourceLimits
default_limits = record {
  max_memory_mb = 256;
  max_cpu_time_ms = 30_000;
  max_disk_mb = 100;
  allow_network = false;
  max_fds = 64;
}

pub record ProjectSpec : Type 0 where
  pub snapshot_hash : Hash
  pub local_project_dir : Option Bytes
  pub work_dir : Bytes
  pub build_cmd : List Bytes
  pub run_cmd : List Bytes
  pub timeout_ms : ℕ
  pub resource_limits : ResourceLimits

pub record ProjectSnapshot : Type 0 where
  pub hash : Hash
  pub tar_bytes : Bytes

abbrev pub from_hash : Hash → ProjectSnapshot
from_hash hash = record { hash = hash; tar_bytes = [] }

abbrev pub inline_len : ProjectSnapshot → ℕ
inline_len s = length s.tar_bytes

pub record ProjectTask : Type 0 where
  pub task_id : TaskId
  pub snapshot : ProjectSnapshot
  pub work_dir : Bytes
  pub build_cmd : List Bytes
  pub run_cmd : List Bytes
  pub timeout_ms : ℕ
  pub resource_limits : ResourceLimits
  pub pinned_node : Option NodeId

pub record ProjectResult : Type 0 where
  pub task_id : TaskId
  pub exit_code : ℤ
  pub stdout : Bytes
  pub stderr : Bytes
  pub execution_time_ms : ℕ
  pub executed_on : NodeId

pub record ExecutionResult : Type 0 where
  pub exit_code : ℤ
  pub stdout : Bytes
  pub stderr : Bytes
  pub execution_time_ms : ℕ
  pub peak_memory_bytes : ℕ
  pub result_hash : Option Hash
