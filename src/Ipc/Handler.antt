-- ===== src/Ipc/Handler.antt =====
-- ipc/handler.rs: the JSON-RPC methods. serde_json is given by `Params`, whose `Value` is its
-- `Value`; the channel of proposals and the object store, which no method uses, are left out.
pub mod Answers
use edge_orchestrator.Common.{
  ℕ, Option, none, some, List, [], Bytes, codes, if◌then◌else◌, Bytes-discrete,
}
use edge_orchestrator.Common.Int.{ℤ, neg}
use edge_orchestrator.Common.Channel.{Channel}
use edge_orchestrator.Types.{NodeId, TaskId}
use edge_orchestrator.Types.Project.{ProjectResult}
use edge_orchestrator.P2p.Messages.{SwarmCommand}
use edge_orchestrator.Storage.Store.Interfaces as Store
use edge_orchestrator.Storage.Store.Interfaces.{FileSystem, Format, Digest}
use edge_orchestrator.Project.Client.{
  ProjectClient, Submission, Failure, TaskState, dispatched, failed, done, submit_local_project,
  task_status, get_result,
}

-- `SubmitProjectParams` before the defaults of its fields
pub record SubmitProjectParams : Type 0 where
  pub project_dir : Bytes
  pub work_dir : Option Bytes
  pub build_cmd : Option (List Bytes)
  pub run_cmd : Option (List Bytes)
  pub timeout_ms : Option ℕ
  pub target_node : Option Bytes

-- `serde_json::from_value` at the two types of parameters, `Uuid::parse_str` and
-- base64's `encode`.
pub record Params : Type 1 where
  pub Value : Type 0
  pub submit_params : Value → Option SubmitProjectParams
  pub fetch_params : Value → Option Bytes
  pub parse_uuid : Bytes → Option ℕ
  pub encode_base64 : Bytes → Bytes

abbrev pub unwrap_or {ℓ} : {A : Type ℓ} → Option A → A → A
unwrap_or none d = d
unwrap_or (some a) d = a

abbrev pub default_timeout : ℕ
default_timeout = 30000

abbrev pub default_project_work_dir : Bytes
default_project_work_dir = codes "/root/project"

-- a result as a client is shown it, the outputs in base64
pub record ResultReply : Type 0 where
  pub exit_code : ℤ
  pub stdout : Bytes
  pub stderr : Bytes
  pub execution_time_ms : ℕ
  pub executed_on : NodeId

-- the objects that `json!` builds
pub data Reply : Type 0 where
  topology : ℕ → Reply
  submitted : TaskId → Reply
  task_failed : Failure → Reply
  completed : ResultReply → Reply
  pending : Reply

-- The message of an error is left out.
pub record JsonRpcErrorPayload : Type 0 where
  pub code : ℤ

abbrev pub json_rpc_error : ℕ → JsonRpcErrorPayload
json_rpc_error n = record { code = neg n }

-- A method returns a value or an error payload, or panics.
pub data Outcome {ℓ} (A : Type ℓ) : Type ℓ where
  ok : A → Outcome A
  err : JsonRpcErrorPayload → Outcome A
  panic : Outcome A

infixl 5 ◌>>=◌
abbrev pub ◌>>=◌ {ℓ κ} : {A : Type ℓ} {B : Type κ} → Outcome A → (A → Outcome B) → Outcome B
ok a >>= rest = rest a
err e >>= rest = err e
panic >>= rest = panic

abbrev pub or_code {ℓ} : {A : Type ℓ} → Option A → ℕ → Outcome A
or_code none n = err (json_rpc_error n)
or_code (some a) n = ok a

module _ (F : FileSystem) (c : Format) (D : Digest) (ch : Channel SwarmCommand) (P : Params) where
  open P use {Value, submit_params, fetch_params, parse_uuid, encode_base64}

  pub record JsonRpcRequest : Type 0 where
    pub method : Bytes
    pub params : Value
    pub id : Value

  pub record JsonRpcResponse : Type 0 where
    pub result : Option Reply
    pub error : Option JsonRpcErrorPayload
    pub id : Value

  pub record JsonRpcHandler : Type 0 where
    pub tasks_completed : ℕ
    pub project_client : Option (ProjectClient F c D ch)

  abbrev pub get_cluster_topology : JsonRpcHandler → Outcome Reply
  get_cluster_topology h = ok (topology h.tasks_completed)

  pub parse_target : Option Bytes → Outcome (Option NodeId)
  parse_target none = ok none
  parse_target (some s) = do id ← or_code (parse_uuid s) 32602; ok (some id)

  abbrev pub with_defaults : SubmitProjectParams → Option NodeId → Submission
  with_defaults p target = record {
    work_dir = unwrap_or p.work_dir default_project_work_dir;
    build_cmd = unwrap_or p.build_cmd [];
    run_cmd = unwrap_or p.run_cmd [];
    timeout_ms = unwrap_or p.timeout_ms default_timeout;
    target = target;
  }

  abbrev pub submission_reply : Store.Result TaskId → Outcome Reply
  submission_reply (Store.ok id) = ok (submitted id)
  submission_reply (Store.err e) = err (json_rpc_error 32011)
  submission_reply Store.panic = panic

  -- `pack` is what the crate tar makes of a directory, `uuid` the next UUID, `now` the clock
  unfoldable pub submit_project :
      (Bytes → Option Bytes) → ℕ → ℕ → JsonRpcHandler → Value → JsonRpcHandler × Outcome Reply
  unfolding parse_target
  submit_project pack uuid now h params =
      let checked : Outcome (SubmitProjectParams × ProjectClient F c D ch × Option NodeId) = (do
        p ← or_code (submit_params params) 32602
        cl ← or_code h.project_client 32010
        target ← parse_target p.target_node
        ok (p, cl, target)) in
      elim checked [
        | err e ↦ (h, err e)
        | panic ↦ (h, panic)
        | ok (p, cl, target) ↦
            (let (cl', r) =
                submit_local_project F c D ch cl (pack p.project_dir) (with_defaults p target) uuid
                  now in
              (record h { project_client = some cl' }, submission_reply r))
      ]

  abbrev pub shown : ProjectResult → ResultReply
  shown r = record {
    exit_code = r.exit_code;
    stdout = encode_base64 r.stdout;
    stderr = encode_base64 r.stderr;
    execution_time_ms = r.execution_time_ms;
    executed_on = r.executed_on;
  }

  abbrev pub result_reply : Option ProjectResult → Reply
  result_reply none = pending
  result_reply (some r) = completed (shown r)

  pub status_reply : ProjectClient F c D ch → TaskId → TaskState → Reply
  status_reply cl task_id (failed e) = task_failed e
  status_reply cl task_id done = result_reply (get_result F c D ch cl task_id)
  status_reply cl task_id dispatched = result_reply (get_result F c D ch cl task_id)

  unfoldable pub fetch_project_result : ℕ → JsonRpcHandler → Value → Outcome Reply
  unfolding status_reply
  fetch_project_result now h params = do
    text ← or_code (fetch_params params) 32602
    cl ← or_code h.project_client 32010
    task_id ← or_code (parse_uuid text) 32602
    ok (status_reply cl task_id (task_status F c D ch cl task_id now))

  -- `none` where the handler panicked
  pub respond : Value → Outcome Reply → Option JsonRpcResponse
  respond id (ok value) = some (record { result = some value; error = none; id = id })
  respond id (err e) = some (record { result = none; error = some e; id = id })
  respond id panic = none

  pub data Method : Type 0 where
    topology_method submit_method fetch_method unknown_method : Method

  -- the `match` on the method's name
  pub method_of : Bytes → Method
  method_of m = elim (Bytes-discrete m (codes "get_cluster_topology")) [
    | yes _ ↦ topology_method
    | no _ ↦ elim (Bytes-discrete m (codes "submit_project")) [
      | yes _ ↦ submit_method
      | no _ ↦ elim (Bytes-discrete m (codes "fetch_project_result")) [
        | yes _ ↦ fetch_method
        | no _ ↦ unknown_method
      ]
    ]
  ]

  unfoldable pub call :
      (Bytes → Option Bytes)
      → ℕ
      → ℕ
      → JsonRpcHandler
      → Method
      → Value
      → JsonRpcHandler × Outcome Reply
  call pack uuid now h topology_method params = (h, get_cluster_topology h)
  call pack uuid now h submit_method params = submit_project pack uuid now h params
  call pack uuid now h fetch_method params = (h, fetch_project_result now h params)
  call pack uuid now h unknown_method params = (h, err (json_rpc_error 32601))

  unfoldable pub handle :
      (Bytes → Option Bytes)
      → ℕ
      → ℕ
      → JsonRpcHandler
      → JsonRpcRequest
      → JsonRpcHandler × Option JsonRpcResponse
  unfolding call respond method_of
  handle pack uuid now h r =
      let (h', outcome) = call pack uuid now h (method_of r.method) r.params in
      (h', respond r.id outcome)
