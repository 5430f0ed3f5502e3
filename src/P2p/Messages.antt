-- ===== src/P2p/Messages.antt =====
-- crates/p2p/src/swarm.rs and discovery.rs: what the node asks of the swarm, and what it is told.
-- A `PeerId` and a `Multiaddr` are the bytes of their text.
use edge_orchestrator.Common.{Bool, Bytes}
use edge_orchestrator.Types.{Hash, NodeDescriptor}
use edge_orchestrator.Types.Project.{ProjectTask, ProjectResult}

abbrev pub PeerId : Type 0
PeerId = Bytes

abbrev pub Multiaddr : Type 0
Multiaddr = Bytes

pub data SwarmCommand : Type 0 where
  dial : Multiaddr → SwarmCommand
  request_descriptor : PeerId → SwarmCommand
  send_raft_message : PeerId → Bytes → SwarmCommand
  request_blob : PeerId → Hash → SwarmCommand
  send_project_task : PeerId → ProjectTask → SwarmCommand

-- The information that identify received is left out: it is only logged.
pub data Event : Type 0 where
  peer_discovered : PeerId → Multiaddr → Event
  peer_expired : PeerId → Event
  descriptor_received : PeerId → NodeDescriptor → Event
  descriptor_sent : PeerId → Event
  new_listen_addr : Multiaddr → Event
  identified : PeerId → Event
  connection_closed : PeerId → Event
  peer_connected : PeerId → Event
  project_result_received : PeerId → ProjectResult → Event
  raft_message_received : PeerId → Bytes → Event
  blob_request_received : PeerId → Hash → Event
  blob_response_received : PeerId → Hash → Bool → Bytes → Event
