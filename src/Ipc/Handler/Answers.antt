-- ===== src/Ipc/Handler/Answers.antt =====
-- What `fetch_project_result` answers, over every run of submissions and results.
use edge_orchestrator.Common.{
  [], ℕ, ◌-◌, ◌≡◌, refl, Option, none, some, List, Bytes, codes, arith, ltb, if◌then◌else◌,
  Bytes-discrete, ℕ_discrete,
}
use edge_orchestrator.Common.HashMap
use edge_orchestrator.Common.Channel.{Channel}
use edge_orchestrator.Types.{NodeId, TaskId}
use edge_orchestrator.P2p.Messages.{SwarmCommand}
use edge_orchestrator.Storage.Store.Interfaces.{FileSystem, Format, Digest}
use edge_orchestrator.Project.Catalog.{Catalog}
use edge_orchestrator.Project.Client.{
  ProjectClient, new, unknown_task, no_result_in_time, result_grace, task_status, get_result,
}
use edge_orchestrator.Project.Lifecycle.{
  Life, unknown, waiting, finished, overtaken, Call, Session, run, life, Follows, run-Follows,
}
use edge_orchestrator.Ipc.Handler.{
  Params, Reply, task_failed, completed, pending, shown, JsonRpcHandler, status_reply,
  fetch_project_result, handle, call, method_of, respond, fetch_method, ok,
}

module _ (F : FileSystem) (c : Format) (D : Digest) (ch : Channel SwarmCommand) (P : Params) where
  -- What a task's life means to the one who polls.
  abbrev pub answer : Life → ℕ → Reply
  answer unknown now = task_failed unknown_task
  answer (waiting since) now =
      if ltb result_grace (now - since) then task_failed no_result_in_time else pending
  answer (finished r) now = completed (shown F c D ch P r)
  answer (overtaken since r) now =
      if ltb result_grace (now - since)
      then task_failed no_result_in_time
      else completed (shown F c D ch P r)

  status_answer :
      (cl : ProjectClient F c D ch) (id : TaskId) (l : Life) (now : ℕ)
      → Follows F c D ch cl id l
      → status_reply F c D ch P cl id (task_status F c D ch cl id now) ≡ answer l now
  unfolding status_reply task_status get_result
  status_answer cl id unknown now h = ground (arith, h.0)
  status_answer cl id (waiting since) now h = ground (arith, h.0, h.1)
  status_answer cl id (finished r) now (at, t, s) = ground (arith, t, s)
  status_answer cl id (overtaken since r) now h = ground (arith, h.0, h.1)

  fetch_answer :
      (h : JsonRpcHandler F c D ch P) (cl : ProjectClient F c D ch) (now : ℕ) (params : P.Value)
      (text : Bytes) (task_id : TaskId)
      → h.project_client ≡ some cl
      → P.fetch_params params ≡ some text
      → P.parse_uuid text ≡ some task_id
      → fetch_project_result F c D ch P now h params
        ≡ ok (status_reply F c D ch P cl task_id (task_status F c D ch cl task_id now))
  unfolding fetch_project_result
  fetch_answer h cl now params text task_id e p u = rw p (rw e (rw u refl))

  fetch_named : method_of F c D ch P (codes "fetch_project_result") ≡ fetch_method
  unfolding method_of Bytes-discrete ℕ_discrete
  fetch_named = refl

  -- The client of a node that has just started, with no submission under way.
  abbrev pub fresh : ch.Sender → Catalog → F.Fs → NodeId → Session F c D ch
  fresh tx catalog fs self_id = record {
    client = new F c D ch tx catalog fs self_id;
    in_flight = [];
  }

  -- After any run of submissions, each a send and, later, the entry of its task, with the results
  -- that come in between or after, a request for a task's result is answered by what the run made of
  -- the task: pending where it was entered at most 1920 seconds ago, and failed where that is longer
  -- ago, or it was not entered; its result once one came, the latest; but where the entry came after
  -- the result, only up to 1920 seconds after the entry, and failed from then on, until another
  -- result comes. The answer carries the request's id.
  pub handle-run :
      (tx : ch.Sender) (catalog : Catalog) (fs : F.Fs) (self_id : NodeId) (ks : List Call)
      (pack : Bytes → Option Bytes) (uuid now completed_count : ℕ) (params id : P.Value)
      (text : Bytes) (task_id : TaskId)
      → P.fetch_params params ≡ some text
      → P.parse_uuid text ≡ some task_id
      → let s = fresh tx catalog fs self_id in
        (handle F c D ch P pack uuid now
          (record {
            tasks_completed = completed_count;
            project_client = some (run F c D ch s ks).client;
          })
          (record { method = codes "fetch_project_result"; params = params; id = id })).1
        ≡ some (record {
          result = some (answer (life F c D ch s ks task_id unknown) now);
          error = none;
          id = id;
        })
  unfolding handle call respond HashMap.get
  handle-run tx catalog fs self_id ks pack uuid now completed_count params id text task_id p u =
      let s : Session F c D ch = fresh tx catalog fs self_id in
      let cl = (run F c D ch s ks).client in
      let h : JsonRpcHandler F c D ch P = record {
        tasks_completed = completed_count;
        project_client = some cl;
      } in
      rw fetch_named (
        rw (fetch_answer h cl now params text task_id refl p u) (
          rw
            (status_answer cl task_id (life F c D ch s ks task_id unknown) now
              (run-Follows F c D ch s ks task_id unknown (refl, refl)))
            refl))
