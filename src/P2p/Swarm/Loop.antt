-- ===== src/P2p/Swarm/Loop.antt =====
-- swarm.rs: the turns of `run_event_loop`, and the ends of the jobs that it spawned. The two ends
-- of the event channel are a `Channel`; the channel of outcomes is a list.
pub mod Kept
pub mod Jobs
pub mod Answered
use edge_orchestrator.Common.{
  ℕ, Bool, true, false, Option, none, some, List, [], ◌∷◌, ◌++◌, Bytes, nat_eq, map, remove_at, suc,
  zero, if◌then◌else◌,
}
use edge_orchestrator.Common.HashMap
use edge_orchestrator.Common.HashMap.{HashMap}
use edge_orchestrator.Common.Channel.{Channel}
use edge_orchestrator.Types.{TaskId, Hash, NodeDescriptor}
use edge_orchestrator.Types.Project.{ProjectTask, ProjectResult}
use edge_orchestrator.P2p.Messages.{
  PeerId, Multiaddr, Event, identified, new_listen_addr, connection_closed, peer_connected,
  project_result_received, SwarmCommand, dial, request_descriptor, send_raft_message, request_blob,
  send_project_task,
}
use edge_orchestrator.P2p.Protocol.{
  Json, DescriptorRequest, DescriptorResponse, RaftMessageRequest, RaftMessageResponse, BlobRequest,
  BlobResponse,
}
use edge_orchestrator.P2p.Swarm.{
  Action, dials, send_request, send_response, descriptor_request, raft_request, blob_request,
  project_request, project_response, Exchange, Handled, quiet, Job, JobEnd, job_result,
  handle_project_exchange, handle_blob_exchange, handle_raft_exchange, handle_descriptor_exchange,
  discovered, expired,
}

pub data BehaviourEvent : Type 0 where
  mdns_discovered : List (PeerId × Multiaddr) → BehaviourEvent
  mdns_expired : List (PeerId × Multiaddr) → BehaviourEvent
  identify_received : PeerId → BehaviourEvent
  identify_other : BehaviourEvent
  ping : PeerId → BehaviourEvent
  descriptor_exchange : Exchange DescriptorRequest DescriptorResponse → BehaviourEvent
  raft_exchange : Exchange RaftMessageRequest RaftMessageResponse → BehaviourEvent
  blob_exchange : Exchange BlobRequest BlobResponse → BehaviourEvent
  project_exchange : Exchange ProjectTask ProjectResult → BehaviourEvent

pub data SwarmEvent : Type 0 where
  listens : Multiaddr → SwarmEvent
  closes : PeerId → SwarmEvent
  connects : PeerId → SwarmEvent
  behaviour : BehaviourEvent → SwarmEvent
  other : SwarmEvent

pub record Outcome : Type 0 where
  pub task_id : TaskId
  pub result : ProjectResult

-- A branch of the `select!`, with what it received, or the end of a spawned job.
pub data Turn : Type 0 where
  swarm_turn : Option SwarmEvent → Turn
  outcome_turn : Turn
  command_turn : Option SwarmCommand → Turn
  job_turn : ℕ → JobEnd → Turn

-- What the loop is started with.
pub record Setup : Type 0 where
  pub self_peer_id : PeerId
  pub self_descriptor : NodeDescriptor
  -- the text of the node's UUID
  pub node_id_text : Bytes
  pub bootstrap_peers : List Multiaddr
  pub blob_provider : Option (Hash → Option Bytes)
  pub has_executor : Bool
  pub json : Json NodeDescriptor

abbrev pub job_at : List Job → ℕ → Option Job
job_at [] i = none
job_at (j ∷ js) zero = some j
job_at (j ∷ js) (suc i) = job_at js i

module _ (ch : Channel Event) (setup : Setup) where
  pub record Loop : Type 0 where
    pub event_tx : ch.Sender
    pub pending : HashMap TaskId ℕ
    pub jobs : List Job
    pub outcomes : List Outcome
    -- the calls on the swarm so far
    pub log : List Action
    pub running : Bool

  -- the dials at the start
  abbrev pub start : ch.Sender → Loop
  start event_tx = record {
    event_tx = event_tx;
    pending = [];
    jobs = [];
    outcomes = [];
    log = map dials setup.bootstrap_peers;
    running = true;
  }

  -- `for event in app_event`: a refused send ends this list of events, and nothing else
  pub send_events : ch.Sender → List Event → ch.Sender
  send_events tx [] = tx
  send_events tx (e ∷ es) = elim (ch.send tx e) [ none ↦ tx | some tx' ↦ send_events tx' es ]

  pub do_handled : Loop → Handled → Loop
  unfolding send_events
  do_handled l (actions, events) = record l {
    log = l.log ++ actions;
    event_tx = send_events l.event_tx events;
  }

  abbrev pub add_job : List Job → Option Job → List Job
  add_job js none = js
  add_job js (some j) = js ++ j ∷ []

  pub put_project : Loop → HashMap TaskId ℕ × Option Job × List Action × List Event → Loop
  unfolding do_handled
  put_project l (pending, job, actions, events) =
      do_handled (record l { pending = pending; jobs = add_job l.jobs job }) (actions, events)

  unfoldable pub do_project : Loop → Exchange ProjectTask ProjectResult → Loop
  unfolding put_project
  do_project l e = put_project l (handle_project_exchange setup.has_executor l.pending e)

  unfoldable pub handle_behaviour_event : Loop → BehaviourEvent → Loop
  unfolding do_handled do_project
  handle_behaviour_event l (mdns_discovered peers) =
      do_handled l ([], discovered setup.self_peer_id peers)
  handle_behaviour_event l (mdns_expired peers) =
      do_handled l ([], expired setup.self_peer_id peers)
  handle_behaviour_event l (identify_received peer) = do_handled l ([], identified peer ∷ [])
  handle_behaviour_event l identify_other = do_handled l quiet
  handle_behaviour_event l (ping peer) = do_handled l quiet
  handle_behaviour_event l (descriptor_exchange e) =
      do_handled l (handle_descriptor_exchange setup.json setup.self_descriptor e)
  handle_behaviour_event l (raft_exchange e) = do_handled l (handle_raft_exchange e)
  handle_behaviour_event l (blob_exchange e) =
      do_handled l (handle_blob_exchange setup.blob_provider e)
  handle_behaviour_event l (project_exchange e) = do_project l e

  unfoldable pub on_swarm_event : Loop → SwarmEvent → Loop
  unfolding do_handled handle_behaviour_event
  on_swarm_event l (listens address) = do_handled l ([], new_listen_addr address ∷ [])
  on_swarm_event l (closes peer) = do_handled l ([], connection_closed peer ∷ [])
  on_swarm_event l (connects peer) = do_handled l ([], peer_connected peer ∷ [])
  on_swarm_event l (behaviour e) = handle_behaviour_event l e
  on_swarm_event l other = do_handled l quiet

  abbrev pub command_action : SwarmCommand → Action
  command_action (dial addr) = dials addr
  command_action (request_descriptor peer) =
      send_request peer (descriptor_request (record { requester_id = setup.node_id_text }))
  command_action (send_raft_message peer data') =
      send_request peer (raft_request (record { data' = data' }))
  command_action (request_blob peer hash) =
      send_request peer (blob_request (record { hash = hash }))
  command_action (send_project_task peer task) = send_request peer (project_request task)

  abbrev pub answer_action : Option ℕ → ProjectResult → List Action
  answer_action none result = []
  answer_action (some channel) result = send_response channel (project_response result) ∷ []

  -- the branch of `project_rx`
  unfoldable pub on_outcome : Loop → List Outcome → Loop
  on_outcome l [] = l
  on_outcome l (o ∷ rest) = record l {
    pending = HashMap.remove o.task_id l.pending;
    outcomes = rest;
    log = l.log ++ answer_action (HashMap.get o.task_id l.pending) o.result;
  }

  -- The receiver of outcomes lives as long as the loop runs.
  abbrev pub queue : Bool → List Outcome → Outcome → List Outcome
  queue true os o = os ++ o ∷ []
  queue false os o = os

  -- A job sends its result to the application, then to the loop; one that panicked sends neither.
  pub deliver : Loop → Job → Option ProjectResult → Loop
  unfolding send_events
  deliver l j none = l
  deliver l j (some result) = record l {
    event_tx = send_events l.event_tx (project_result_received j.peer result ∷ []);
    outcomes = queue l.running l.outcomes (record { task_id = j.task.task_id; result = result });
  }

  unfoldable pub end_job : Loop → ℕ → JobEnd → Option Job → Loop
  unfolding deliver
  end_job l i e none = l
  end_job l i e (some j) = deliver (record l { jobs = remove_at i l.jobs }) j (job_result j.task e)

  unfoldable pub turn : Loop → Turn → Loop
  unfolding on_swarm_event on_outcome end_job
  turn l (swarm_turn none) = record l { running = false }
  turn l (swarm_turn (some e)) = on_swarm_event l e
  turn l outcome_turn = on_outcome l l.outcomes
  turn l (command_turn none) = record l { running = false }
  turn l (command_turn (some cmd)) = record l { log = l.log ++ command_action cmd ∷ [] }
  turn l (job_turn i e) = end_job l i e (job_at l.jobs i)

  -- What goes on once the loop has ended: its jobs.
  unfoldable pub after_break : Loop → Turn → Loop
  unfolding end_job
  after_break l (job_turn i e) = end_job l i e (job_at l.jobs i)
  after_break l t = l

  -- The loop takes turns until one of its two `break`s.
  unfoldable pub step : Loop → Turn → Loop
  unfolding turn after_break
  step l t = if l.running then turn l t else after_break l t

  unfoldable pub run : Loop → List Turn → Loop
  unfolding step
  run l [] = l
  run l (t ∷ ts) = run (step l t) ts
