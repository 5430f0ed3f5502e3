-- ===== src/Tests/Projects.antt =====
-- The project client, with a store in memory and a channel that takes every message.
use edge_orchestrator.Common.{
  ℕ, ◌≡◌, refl, true, Option, none, some, List, [], ◌∷◌, Bytes, codes, nat_eq, bytes_eq, All,
  ℕ_discrete,
}
use edge_orchestrator.Common.Int.{pos}
use edge_orchestrator.Common.HashMap
use edge_orchestrator.Common.Channel.{Channel}
use mathlib.Core.List.{Memᴰ}
use edge_orchestrator.Types.{NodeId, NodeDescriptor, default_capabilities}
use edge_orchestrator.Types.Project.{ProjectResult}
use edge_orchestrator.Cluster.{ClusterState}
use edge_orchestrator.P2p.Messages.{SwarmCommand, descriptor_received}
use edge_orchestrator.Raft.Network
use edge_orchestrator.Raft.Network.{RaftIdRegistry}
use edge_orchestrator.Storage.Store.Interfaces.{ok}
use edge_orchestrator.Project.Catalog.{
  Catalog, raft, resolve_peer, choose_node, peer_of_node, peer_of_raft_id, sort_by_key,
  insert_by_key,
}
use edge_orchestrator.Project.Catalog.Least.{IsCapable, IsPassed, resolve_peer_least}
use edge_orchestrator.Project.Client.{Submission}
use edge_orchestrator.Project.Lifecycle.{Call, sends, notes, receive, run, life, live}
use edge_orchestrator.Ipc.Handler.{Params, handle, completed, shown}
use edge_orchestrator.Ipc.Handler.Answers.{fresh, handle-run}
use edge_orchestrator.Bootstrap.{Node, Turn, tick, event, run_event_monitor, client_of}
use edge_orchestrator.Bootstrap.Routes.{resolve_peer-run}
use edge_orchestrator.Tests.Samples.{node}
use edge_orchestrator.Tests.Stores.{memory, tiny, marked, no_files, content}
use edge_orchestrator.Tests.Channels.{mailbox}

abbrev worker_node : ℕ → NodeDescriptor
worker_node n = record (node n) {
  capabilities = record default_capabilities { project_sandbox = true };
}

-- node 1 is the master itself; 2 cannot run projects; 4 has the smaller Raft id of the others
abbrev state : ClusterState
state = record {
  nodes = (1, worker_node 1) ∷ (2, node 2) ∷ (5, worker_node 5) ∷ (4, worker_node 4) ∷ [];
  role_assignments = [];
  last_applied_index = 0;
}

abbrev registry : RaftIdRegistry
registry = (4, codes "four") ∷ (5, codes "five") ∷ []

four : resolve_peer 1 (raft state registry) none ≡ ok (codes "four")
unfolding resolve_peer choose_node peer_of_node peer_of_raft_id sort_by_key insert_by_key
    Network.get HashMap.get ℕ_discrete
four = refl

resolve_peer_least_example :
    (n : NodeId × NodeDescriptor) × (rid : ℕ) × Memᴰ n state.nodes
    × IsCapable 1 n.1
    × (n.1.raft_id ≡ some rid)
    × (Network.get registry rid ≡ some (codes "four"))
    × All (λ k. IsPassed 1 rid k.1) state.nodes
resolve_peer_least_example = resolve_peer_least 1 state registry (codes "four") four

-- `Value` is the text of a task id, a number or two.
abbrev id_of : Bytes → Option ℕ
id_of [] = none
id_of (n ∷ l) = some n

abbrev json : Params
json = record {
  Value = Bytes;
  submit_params = λ v. none;
  fetch_params = λ v. some v;
  parse_uuid = id_of;
  encode_base64 = λ b. b;
}

abbrev commands : Channel SwarmCommand
commands = mailbox SwarmCommand

abbrev catalog : Catalog
catalog = raft state registry

abbrev build : Submission
build = record {
  work_dir = codes "/root/project";
  build_cmd = [];
  run_cmd = codes "make" ∷ [];
  timeout_ms = 1000;
  target = none;
}

abbrev made : ProjectResult
made = record {
  task_id = 7;
  exit_code = pos 0;
  stdout = codes "ok";
  stderr = [];
  execution_time_ms = 5;
  executed_on = 4;
}

-- a result that comes while its submission is still held up, and one that comes afterwards
abbrev calls : List Call
calls = sends (some content) build 7 ∷ receive made 90 ∷ notes 7 100 ∷ receive made 200 ∷ []

handle-run_example :
    (handle memory tiny marked commands json
      (λ d. none)
      0
      300
      (record {
        tasks_completed = 0;
        project_client =
            some
              (run memory tiny marked commands
                (fresh memory tiny marked commands json [] catalog no_files 1)
                calls).client;
      })
      (record { method = codes "fetch_project_result"; params = 7 ∷ []; id = [] })).1
    ≡ some (record {
      result = some (completed (shown memory tiny marked commands json made));
      error = none;
      id = [];
    })
unfolding ℕ_discrete life live
handle-run_example =
    handle-run memory tiny marked commands json [] catalog no_files 1 calls (λ d. none) 0 300 0
      (7 ∷ []) [] (7 ∷ []) 7 refl refl

abbrev raft_in : Channel Bytes
raft_in = mailbox Bytes

abbrev member : Node memory tiny marked commands raft_in
member = record {
  self_node_id = 1;
  commands = [];
  raft_incoming = [];
  store = no_files;
  state = some state;
  raft_registry = [];
  known_peers = [];
  peer_addrs = [];
  bootstrap_addrs = [];
  waiters = [];
  channels = [];
  next = 0;
  tasks = [];
  results = [];
}

-- a tick, a descriptor of node 4 from one peer, and then from another
abbrev turns : List (Turn memory tiny marked commands raft_in)
turns =
    tick
    ∷ event 10 (descriptor_received (codes "old") (worker_node 4))
    ∷ event 20 (descriptor_received (codes "four") (worker_node 4))
    ∷ []

node_4 : HashMap.get 4 state.nodes ≡ some (worker_node 4)
unfolding HashMap.get ℕ_discrete
node_4 = refl

resolve_peer-run_example :
    let n = run_event_monitor memory tiny marked commands raft_in member turns in
    resolve_peer n.self_node_id (client_of memory tiny marked commands raft_in n).catalog (some 4)
    ≡ ok (codes "four")
unfolding ℕ_discrete
resolve_peer-run_example =
    resolve_peer-run memory tiny marked commands raft_in member turns state 4 (worker_node 4) 4 refl
      node_4 refl
