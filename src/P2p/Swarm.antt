-- ===== src/P2p/Swarm.antt =====
-- crates/p2p/src/swarm.rs: the handlers of the four protocols. The calls on the libp2p swarm are
-- returned as `Action`s, in their order; a `ResponseChannel` is a number. Log lines are left out.
pub mod Loop
use edge_orchestrator.Common.{
  ℕ, Bool, true, false, Option, none, some, List, [], ◌∷◌, Bytes, Bytes-discrete, codes, nat_eq,
  map, filter,
}
use edge_orchestrator.Common.Int.{ℤ, pos}
use edge_orchestrator.Common.HashMap
use edge_orchestrator.Common.HashMap.{HashMap}
use edge_orchestrator.Types.{NodeId, TaskId, Hash, NodeDescriptor}
use edge_orchestrator.Types.Project.{ProjectTask, ProjectResult}
use edge_orchestrator.P2p.Messages.{
  PeerId, Multiaddr, Event, peer_discovered, peer_expired, descriptor_received, descriptor_sent,
  identified, project_result_received, raft_message_received, blob_request_received,
  blob_response_received,
}
use edge_orchestrator.P2p.Protocol.{
  Json, DescriptorRequest, DescriptorResponse, RaftMessageRequest, RaftMessageResponse, BlobRequest,
  BlobResponse, from_descriptor, to_descriptor,
}

pub data Request : Type 0 where
  descriptor_request : DescriptorRequest → Request
  raft_request : RaftMessageRequest → Request
  blob_request : BlobRequest → Request
  project_request : ProjectTask → Request

pub data Response : Type 0 where
  descriptor_response : DescriptorResponse → Response
  raft_response : RaftMessageResponse → Response
  blob_response : BlobResponse → Response
  project_response : ProjectResult → Response

-- What the loop does to the swarm, and the jobs that it spawns.
pub data Action : Type 0 where
  dials : Multiaddr → Action
  send_request : PeerId → Request → Action
  send_response : ℕ → Response → Action

-- `request_response::Event`
pub data Exchange (Q R : Type 0) : Type 0 where
  request : PeerId → Q → ℕ → Exchange Q R
  response : PeerId → R → Exchange Q R
  outbound_failure : PeerId → Exchange Q R
  inbound_failure : PeerId → Exchange Q R
  response_sent : PeerId → Exchange Q R

abbrev pub Handled : Type 0
Handled = List Action × List Event

abbrev pub quiet : Handled
quiet = ([], [])

-- `project_failure`
abbrev pub project_failure : ProjectTask → ℤ → Bytes → ProjectResult
project_failure task exit_code msg = record {
  task_id = task.task_id;
  exit_code = exit_code;
  stdout = [];
  stderr = msg;
  execution_time_ms = 0;
  executed_on = 0;
}

abbrev pub rejection : Bytes
rejection =
    codes
      "no project executor on this node (Linux+KVM required); task rejected instead of silently dropped"

-- a job that was spawned for a request of a peer
pub record Job : Type 0 where
  pub peer : PeerId
  pub task : ProjectTask

-- What the handler of project tasks does besides: the parked channels, and the job to run.
unfoldable pub handle_project_exchange :
    Bool
    → HashMap TaskId ℕ
    → Exchange ProjectTask ProjectResult
    → HashMap TaskId ℕ × Option Job × List Action × List Event
handle_project_exchange false pending (request peer task channel) = (
  pending,
  none,
  send_response channel (project_response (project_failure task (pos 101) rejection)) ∷ [],
  [],
)
handle_project_exchange true pending (request peer task channel) = (
  HashMap.insert task.task_id channel pending,
  some (record { peer = peer; task = task }),
  [],
  [],
)
handle_project_exchange executor pending (response peer r) =
    (pending, none, [], project_result_received peer r ∷ [])
handle_project_exchange executor pending (outbound_failure peer) = (pending, none, [], [])
handle_project_exchange executor pending (inbound_failure peer) = (pending, none, [], [])
handle_project_exchange executor pending (response_sent peer) = (pending, none, [], [])

-- How the executor's `run` ended: a result, an error with its text, or a panic, which ends the
-- spawned job with it.
pub data JobEnd : Type 0 where
  ran : ProjectResult → JobEnd
  broke : Bytes → JobEnd
  panicked : JobEnd

unfoldable pub job_result : ProjectTask → JobEnd → Option ProjectResult
job_result task (ran r) = some r
job_result task (broke msg) = some (project_failure task (pos 1) msg)
job_result task panicked = none

-- `blob_provider.and_then(|p| p.get_blob(&hash))`, of a provider that returns
abbrev pub provided : Option (Hash → Option Bytes) → Hash → Option Bytes
provided none hash = none
provided (some get_blob) hash = get_blob hash

abbrev pub blob_answer : Hash → Option Bytes → BlobResponse
blob_answer hash none = record { hash = hash; found = false; data' = [] }
blob_answer hash (some bytes) = record { hash = hash; found = true; data' = bytes }

unfoldable pub handle_blob_exchange :
    Option (Hash → Option Bytes) → Exchange BlobRequest BlobResponse → Handled
handle_blob_exchange provider (request peer q channel) = (
  send_response channel (blob_response (blob_answer q.hash (provided provider q.hash))) ∷ [],
  blob_request_received peer q.hash ∷ [],
)
handle_blob_exchange provider (response peer r) =
    ([], blob_response_received peer r.hash r.found r.data' ∷ [])
handle_blob_exchange provider (outbound_failure peer) = quiet
handle_blob_exchange provider (inbound_failure peer) = quiet
handle_blob_exchange provider (response_sent peer) = quiet

unfoldable pub handle_raft_exchange : Exchange RaftMessageRequest RaftMessageResponse → Handled
handle_raft_exchange (request peer q channel) = (
  send_response channel (raft_response (record { accepted = true })) ∷ [],
  raft_message_received peer q.data' ∷ [],
)
handle_raft_exchange (response peer r) = quiet
handle_raft_exchange (outbound_failure peer) = quiet
handle_raft_exchange (inbound_failure peer) = quiet
handle_raft_exchange (response_sent peer) = quiet

-- A descriptor that cannot be written leaves the request without an answer.
abbrev pub answer_descriptor : PeerId → ℕ → Option DescriptorResponse → Handled
answer_descriptor peer channel none = quiet
answer_descriptor peer channel (some r) =
    (send_response channel (descriptor_response r) ∷ [], descriptor_sent peer ∷ [])

abbrev pub learn_descriptor : PeerId → Option NodeDescriptor → Handled
learn_descriptor peer none = quiet
learn_descriptor peer (some d) = ([], descriptor_received peer d ∷ [])

unfoldable pub handle_descriptor_exchange :
    Json NodeDescriptor → NodeDescriptor → Exchange DescriptorRequest DescriptorResponse → Handled
handle_descriptor_exchange j self_descriptor (request peer q channel) =
    answer_descriptor peer channel (from_descriptor j self_descriptor)
handle_descriptor_exchange j self_descriptor (response peer r) =
    learn_descriptor peer (to_descriptor j r)
handle_descriptor_exchange j self_descriptor (outbound_failure peer) = quiet
handle_descriptor_exchange j self_descriptor (inbound_failure peer) = quiet
handle_descriptor_exchange j self_descriptor (response_sent peer) = quiet

-- `peer_id != self_peer_id`
abbrev pub is_other : PeerId → PeerId → Bool
is_other self_peer peer = elim (Bytes-discrete peer self_peer) [ yes _ ↦ false | no _ ↦ true ]

unfoldable pub discovered : PeerId → List (PeerId × Multiaddr) → List Event
discovered self_peer peers =
    map (λ p. peer_discovered p.0 p.1) (filter (λ p. is_other self_peer p.0) peers)

unfoldable pub expired : PeerId → List (PeerId × Multiaddr) → List Event
expired self_peer peers = map (λ p. peer_expired p.0) (filter (λ p. is_other self_peer p.0) peers)
