-- ===== src/Project/Executor.antt =====
-- project_executor.rs: running a project task in the sandbox. The temporary directory, std::path and
-- the directory that is unpacked are arguments; a sandbox that fails gives `none`.
use edge_orchestrator.Common.{◌≡◌, Bool, Option, none, some, Bytes, codes, arith}
use edge_orchestrator.Types.{NodeId}
use edge_orchestrator.Types.Project.{ProjectTask, ProjectResult, ProjectSpec, ExecutionResult}
use edge_orchestrator.Storage.Store.Interfaces.{Result, ok, err, panic, FileSystem, Format, Digest}
use edge_orchestrator.Project.Snapshot.{extract_snapshot}

-- `std::path` and the temporary directory: its path, whether the directory in it is made, and
-- whether a tar unpacks there
pub record Scratch : Type 0 where
  pub tempdir : Option Bytes
  pub file_name : Bytes → Option Bytes
  pub join_path : Bytes → Bytes → Bytes
  pub made : Bytes → Bool
  pub unpacks : Bytes → Bytes → Bool

abbrev pub or_project : Option Bytes → Bytes
or_project none = codes "project"
or_project (some name) = name

abbrev pub spec_of : ProjectTask → Bytes → ProjectSpec
spec_of task project_dir = record {
  snapshot_hash = task.snapshot.hash;
  local_project_dir = some project_dir;
  work_dir = task.work_dir;
  build_cmd = task.build_cmd;
  run_cmd = task.run_cmd;
  timeout_ms = task.timeout_ms;
  resource_limits = task.resource_limits;
}

abbrev pub result_of : NodeId → ProjectTask → ExecutionResult → ProjectResult
result_of self_node_id task er = record {
  task_id = task.task_id;
  exit_code = er.exit_code;
  stdout = er.stdout;
  stderr = er.stderr;
  execution_time_ms = er.execution_time_ms;
  executed_on = self_node_id;
}

-- How a run ends: with a result, an error, or a panic.
pub data Run : Type 0 where
  done : ProjectResult → Run
  failed : Run
  panicked : Run

-- A panic of the sandbox is one of the blocking task, and with it an error.
abbrev pub finished : NodeId → ProjectTask → Option ExecutionResult → Run
finished self_node_id task none = failed
finished self_node_id task (some er) = done (result_of self_node_id task er)

pub after_extract :
    NodeId → (ProjectSpec → Option ExecutionResult) → ProjectTask → Bytes → Result (Unit {0}) → Run
after_extract self_node_id run_project task dir (ok unpacked) =
    finished self_node_id task (run_project (spec_of task dir))
after_extract self_node_id run_project task dir (err e) = failed
after_extract self_node_id run_project task dir panic = panicked

module _ (F : FileSystem) (c : Format) (D : Digest) (self_node_id : NodeId)
    (run_project : ProjectSpec → Option ExecutionResult) (s : Scratch) where
  pub in_tempdir : F.Fs → ProjectTask → Option Bytes → Run
  unfolding after_extract
  in_tempdir store task none = failed
  in_tempdir store task (some tmp) =
      let project_dir = s.join_path tmp (or_project (s.file_name task.work_dir)) in
      after_extract self_node_id run_project task project_dir
        (extract_snapshot F c D store task.snapshot (s.made project_dir) (s.unpacks project_dir))

  -- `run`, once `ensure_blob` ended, with the store that it left
  unfoldable pub run : F.Fs → ProjectTask → Result Bytes → Run
  unfolding in_tempdir
  run store task (ok bytes) = in_tempdir store task s.tempdir
  run store task (err e) = failed
  run store task panic = panicked

  extracted_id :
      (task : ProjectTask) (dir : Bytes) (x : Result (Unit {0})) (r : ProjectResult)
      → after_extract self_node_id run_project task dir x ≡ done r
      → r.task_id ≡ task.task_id
  unfolding after_extract
  extracted_id task dir (ok unpacked) r e = ran (run_project (spec_of task dir)) e
    where
      ran :
          (o : Option ExecutionResult)
          → finished self_node_id task o ≡ done r
          → r.task_id ≡ task.task_id
      ran none f = absurd (cc)
      ran (some er) f = ground arith
  extracted_id task dir (err x) r e = absurd (cc)
  extracted_id task dir panic r e = absurd (cc)

  tempdir_id :
      (store : F.Fs) (task : ProjectTask) (tmp : Option Bytes) (r : ProjectResult)
      → in_tempdir store task tmp ≡ done r
      → r.task_id ≡ task.task_id
  unfolding in_tempdir
  tempdir_id store task none r e = absurd (cc)
  tempdir_id store task (some tmp) r e =
      let dir = s.join_path tmp (or_project (s.file_name task.work_dir)) in
      extracted_id task dir
        (extract_snapshot F c D store task.snapshot (s.made dir) (s.unpacks dir)) r e

  -- The executor returns a result of its task's id: what the event loop of the swarm relies on.
  pub run-task_id :
      (store : F.Fs) (task : ProjectTask) (fetched : Result Bytes) (r : ProjectResult)
      → run store task fetched ≡ done r
      → r.task_id ≡ task.task_id
  unfolding run
  run-task_id store task (ok bytes) r e = tempdir_id store task s.tempdir r e
  run-task_id store task (err x) r e = absurd (cc)
  run-task_id store task panic r e = absurd (cc)
