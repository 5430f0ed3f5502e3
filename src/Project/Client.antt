-- ===== src/Project/Client.antt =====
-- project_client.rs: submitting a project and recording its result. The locks are left out; an
-- `Instant` is a number of nanoseconds, and a fresh UUID is an argument.
use edge_orchestrator.Common.{
  ℕ, ◌-◌, ◌*◌, Option, none, some, List, [], Bytes, length, ltb, if◌then◌else◌, nat_eq,
}
use edge_orchestrator.Common.HashMap
use edge_orchestrator.Common.HashMap.{HashMap}
use edge_orchestrator.Common.Channel.{Channel}
use edge_orchestrator.Types.{NodeId, TaskId, network, internal}
use edge_orchestrator.Types.Project.{ProjectTask, ProjectResult, ProjectSnapshot, default_limits}
use edge_orchestrator.P2p.Messages.{PeerId, SwarmCommand, send_project_task}
use edge_orchestrator.Storage.Store
use edge_orchestrator.Storage.Store.{◌>>=◌}
use edge_orchestrator.Storage.Store.Interfaces.{Result, ok, err, panic, FileSystem, Format, Digest}
use edge_orchestrator.Project.Catalog.{Catalog, resolve_peer}
use edge_orchestrator.Project.Snapshot.{snapshot_from_dir}

-- `RESULT_GRACE`, in nanoseconds
abbrev pub result_grace : ℕ
result_grace = 1920 * 1_000_000_000

-- why a task counts as failed; the text of the source
pub data Failure : Type 0 where
  unknown_task no_result_in_time : Failure

pub data TaskState : Type 0 where
  dispatched : TaskState
  failed : Failure → TaskState
  done : TaskState

-- what `submit_local_project` is called with, less the directory
pub record Submission : Type 0 where
  pub work_dir : Bytes
  pub build_cmd : List Bytes
  pub run_cmd : List Bytes
  pub timeout_ms : ℕ
  pub target : Option NodeId

abbrev pub task_of : Submission → TaskId → ProjectSnapshot → ProjectTask
task_of a task_id snapshot = record {
  task_id = task_id;
  snapshot = snapshot;
  work_dir = a.work_dir;
  build_cmd = a.build_cmd;
  run_cmd = a.run_cmd;
  timeout_ms = a.timeout_ms;
  resource_limits = default_limits;
  pinned_node = a.target;
}

module _ (F : FileSystem) (c : Format) (D : Digest) (ch : Channel SwarmCommand) where
  pub record ProjectClient : Type 0 where
    pub swarm_commands : ch.Sender
    pub catalog : Catalog
    pub results : HashMap TaskId ProjectResult
    pub store : F.Fs
    pub tasks : HashMap TaskId (TaskState × ℕ)
    pub self_node_id : NodeId

  abbrev pub new : ch.Sender → Catalog → F.Fs → NodeId → ProjectClient
  new swarm_commands catalog store self_node_id = record {
    swarm_commands = swarm_commands;
    catalog = catalog;
    results = [];
    store = store;
    tasks = [];
    self_node_id = self_node_id;
  }

  -- `.map(|b| b.len()).unwrap_or(0)`
  abbrev pub size_or_zero : Result Bytes → Result ℕ
  size_or_zero (ok b) = ok (length b)
  size_or_zero (err e) = ok 0
  size_or_zero panic = panic

  -- the snapshot, once it is known to be in the store, and the peer to send it to
  unfoldable pub route :
      ProjectClient → Option NodeId → Result ProjectSnapshot → Result (ProjectSnapshot × PeerId)
  route cl target packed = do
    snapshot ← packed
    task_size ← size_or_zero (Store.get_blob F c cl.store snapshot.hash)
    stored ← Store.exists F c cl.store snapshot.hash
    peer_id ← if stored then resolve_peer cl.self_node_id cl.catalog target else err internal
    ok (snapshot, peer_id)

  -- `swarm_commands.send(..).await`, where the call can be held up
  unfoldable pub dispatch :
      ProjectClient
      → Submission
      → TaskId
      → Result (ProjectSnapshot × PeerId)
      → ProjectClient × Result TaskId
  dispatch cl a task_id (err e) = (cl, err e)
  dispatch cl a task_id panic = (cl, panic)
  dispatch cl a task_id (ok (snapshot, peer_id)) =
      elim (ch.send cl.swarm_commands (send_project_task peer_id (task_of a task_id snapshot))) [
        | none ↦ (cl, err network)
        | some tx ↦ (record cl { swarm_commands = tx }, ok task_id)
      ]

  -- the call up to the end of that send; `packed` is what the crate tar makes of the directory
  unfoldable pub send_local_project :
      ProjectClient → Option Bytes → Submission → TaskId → ProjectClient × Result TaskId
  unfolding dispatch
  send_local_project cl packed a task_id =
      let (fs, snapshot) = snapshot_from_dir F c D cl.store packed in
      let cl' : ProjectClient = record cl { store = fs } in
      dispatch cl' a task_id (route cl' a.target snapshot)

  -- the entry of the task after the send, at the clock `now`
  unfoldable pub note_dispatched : ProjectClient → TaskId → ℕ → ProjectClient
  note_dispatched cl task_id now = record cl {
    tasks = HashMap.insert task_id (dispatched, now) cl.tasks;
  }

  abbrev pub noted : ℕ → ProjectClient × Result TaskId → ProjectClient × Result TaskId
  noted now (cl, ok task_id) = (note_dispatched cl task_id now, ok task_id)
  noted now (cl, err e) = (cl, err e)
  noted now (cl, panic) = (cl, panic)

  -- the whole call, where nothing comes in between
  unfoldable pub submit_local_project :
      ProjectClient → Option Bytes → Submission → TaskId → ℕ → ProjectClient × Result TaskId
  submit_local_project cl packed a task_id now = noted now (send_local_project cl packed a task_id)

  unfoldable pub record_result : ProjectClient → ProjectResult → ℕ → ProjectClient
  record_result cl result now = record cl {
    tasks = HashMap.insert result.task_id (done, now) cl.tasks;
    results = HashMap.insert result.task_id result cl.results;
  }

  unfoldable pub get_result : ProjectClient → TaskId → Option ProjectResult
  get_result cl task_id = HashMap.get task_id cl.results

  -- a dispatched task that is older than the grace period counts as failed
  abbrev pub aged : TaskState → ℕ → TaskState
  aged dispatched elapsed =
      if ltb result_grace elapsed then failed no_result_in_time else dispatched
  aged (failed e) elapsed = failed e
  aged done elapsed = done

  unfoldable pub task_status : ProjectClient → TaskId → ℕ → TaskState
  task_status cl task_id now = elim (HashMap.get task_id cl.tasks) [
    | none ↦ failed unknown_task
    | some t ↦ aged t.0 (now - t.1)
  ]

  pub tracked_tasks : ProjectClient → ℕ
  tracked_tasks cl = length cl.tasks
