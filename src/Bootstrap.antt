-- ===== src/Bootstrap.antt =====
-- crates/node/src/bootstrap.rs: the blob provider, the capability that is advertised, and the event
-- monitor. What the parts share, the registry of peers, the known peers, the store and the sending
-- half of the command channel, stands once in `Node`; a part sees it through `fetcher_of` or
-- `client_of`. Log lines are left out.
pub mod Routes
use edge_orchestrator.Common.{
  ℕ, Bool, true, false, not, ◌&&◌, Option, none, some, List, [], ◌∷◌, Bytes, Bytes-discrete,
  bytes_eq, nat_eq, map, if◌then◌else◌,
}
use edge_orchestrator.Common.HashMap
use edge_orchestrator.Common.HashMap.{HashMap}
use edge_orchestrator.Common.Channel.{Channel}
use edge_orchestrator.Types.{NodeId, TaskId, Hash, NodeDescriptor}
use edge_orchestrator.Types.Project.{ProjectResult}
use edge_orchestrator.Cluster.{ClusterState}
use edge_orchestrator.P2p.Messages.{
  PeerId, Multiaddr, SwarmCommand, dial, request_descriptor, Event, peer_discovered, peer_expired,
  descriptor_received, descriptor_sent, new_listen_addr, identified, connection_closed,
  peer_connected, project_result_received, raft_message_received, blob_request_received,
  blob_response_received,
}
use edge_orchestrator.Raft.Network as Registry
use edge_orchestrator.Raft.Network.{RaftIdRegistry}
use edge_orchestrator.Storage.Store
use edge_orchestrator.Storage.Store.Interfaces.{Result, ok, err, panic, FileSystem, Format, Digest}
use edge_orchestrator.Project.Catalog.{Catalog, raft, peers}
use edge_orchestrator.Project.Client.{ProjectClient, TaskState, record_result}
use edge_orchestrator.Project.Fetch.{BlobFetcher, Oneshot, on_blob_received}

-- A node without an executor does not advertise the project sandbox.
abbrev pub advertised : NodeDescriptor → Bool → NodeDescriptor
advertised d has_executor =
    if not has_executor && d.capabilities.project_sandbox
    then record d { capabilities = record d.capabilities { project_sandbox = false } }
    else d

-- Cluster members resolve nodes from the Raft state, light clients from the descriptors they saw.
abbrev pub catalog_of :
    Option ClusterState → RaftIdRegistry → HashMap PeerId NodeDescriptor → Catalog
catalog_of (some state) registry known = raft state registry
catalog_of none registry known = peers known

module _ (F : FileSystem) (c : Format) (D : Digest) (ch : Channel SwarmCommand)
    (raft_ch : Channel Bytes) where
  -- `CasBlobProvider::get_blob`: `.ok()`, where the store does not panic
  abbrev pub answered : Result Bytes → Result (Option Bytes)
  answered (ok b) = ok (some b)
  answered (err e) = ok none
  answered panic = panic

  pub provider_get_blob : F.Fs → Hash → Result (Option Bytes)
  provider_get_blob store hash = answered (Store.get_blob F c store hash)

  pub record Node : Type 0 where
    pub self_node_id : NodeId
    pub commands : ch.Sender
    pub raft_incoming : raft_ch.Sender
    pub store : F.Fs
    -- the Raft state of a cluster member, as it is when the node is looked at
    pub state : Option ClusterState
    pub raft_registry : RaftIdRegistry
    pub known_peers : HashMap PeerId NodeDescriptor
    pub peer_addrs : HashMap PeerId Multiaddr
    pub bootstrap_addrs : List Multiaddr
    -- the fetcher's own state
    pub waiters : HashMap Hash (List ℕ)
    pub channels : HashMap ℕ Oneshot
    pub next : ℕ
    -- the project client's own state
    pub tasks : HashMap TaskId (TaskState × ℕ)
    pub results : HashMap TaskId ProjectResult

  abbrev pub fetcher_of : Node → BlobFetcher F c D ch
  fetcher_of n = record {
    store = n.store;
    swarm_commands = n.commands;
    raft_registry = n.raft_registry;
    waiters = n.waiters;
    channels = n.channels;
    next = n.next;
  }

  abbrev pub put_fetcher : Node → BlobFetcher F c D ch → Node
  put_fetcher n f = record n {
    store = f.store;
    commands = f.swarm_commands;
    waiters = f.waiters;
    channels = f.channels;
    next = f.next;
  }

  abbrev pub client_of : Node → ProjectClient F c D ch
  client_of n = record {
    swarm_commands = n.commands;
    catalog = catalog_of n.state n.raft_registry n.known_peers;
    results = n.results;
    store = n.store;
    tasks = n.tasks;
    self_node_id = n.self_node_id;
  }

  abbrev pub put_client : Node → ProjectClient F c D ch → Node
  put_client n cl = record n { tasks = cl.tasks; results = cl.results }

  abbrev pub with_sender : Node → Option ch.Sender → Node
  with_sender n none = n
  with_sender n (some tx) = record n { commands = tx }

  -- A refused send is ignored.
  abbrev pub command : Node → SwarmCommand → Node
  command n m = with_sender n (ch.send n.commands m)

  pub dial_all : Node → List Multiaddr → Node
  dial_all n [] = n
  dial_all n (addr ∷ addrs) = dial_all (command n (dial addr)) addrs

  -- the tick: the configured peers and every peer that was seen
  pub on_tick : Node → Node
  unfolding dial_all
  on_tick n = dial_all (dial_all n n.bootstrap_addrs) (map (λ p. p.1) n.peer_addrs)

  abbrev pub learn_raft_id : Node → PeerId → Option ℕ → Node
  learn_raft_id n peer none = n
  learn_raft_id n peer (some raft_id) = record n {
    raft_registry = Registry.insert n.raft_registry raft_id peer;
  }

  -- a peer whose connection closed is dialled again where its address is known
  abbrev pub redial : Node → Option Multiaddr → Node
  redial n none = n
  redial n (some addr) = command n (dial addr)

  abbrev pub to_raft : Node → Option raft_ch.Sender → Node
  to_raft n none = n
  to_raft n (some tx) = record n { raft_incoming = tx }

  -- `now` is the clock
  unfoldable pub on_event : Node → ℕ → Event → Node
  on_event n now (peer_discovered peer address) =
      command (record n { peer_addrs = HashMap.insert peer address n.peer_addrs }) (dial address)
  on_event n now (peer_connected peer) = command n (request_descriptor peer)
  on_event n now (peer_expired peer) = n
  on_event n now (descriptor_received peer d) =
      let n' = learn_raft_id n peer d.raft_id in
      record n' { known_peers = HashMap.insert peer d n'.known_peers }
  on_event n now (blob_request_received peer hash) = n
  on_event n now (blob_response_received peer hash found data') =
      put_fetcher n (on_blob_received F c D ch (fetcher_of n) hash found data').0
  on_event n now (project_result_received peer r) =
      put_client n (record_result F c D ch (client_of n) r now)
  on_event n now (raft_message_received peer data') = to_raft n (raft_ch.send n.raft_incoming data')
  on_event n now (descriptor_sent peer) = n
  on_event n now (new_listen_addr address) = n
  on_event n now (identified peer) = n
  on_event n now (connection_closed peer) = redial n (HashMap.get peer n.peer_addrs)

  -- a turn of the monitor: the tick, or an event at its time
  pub data Turn : Type 0 where
    tick : Turn
    event : ℕ → Event → Turn

  unfoldable pub turn : Node → Turn → Node
  unfolding on_tick
  turn n tick = on_tick n
  turn n (event now e) = on_event n now e

  -- until the stream of events ends
  unfoldable pub run_event_monitor : Node → List Turn → Node
  unfolding turn
  run_event_monitor n [] = n
  run_event_monitor n (t ∷ ts) = run_event_monitor (turn n t) ts
