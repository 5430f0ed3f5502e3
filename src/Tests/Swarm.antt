-- ===== src/Tests/Swarm.antt =====
-- The loop of the swarm, with an executor and a channel that takes every event.
use edge_orchestrator.Common.{
  ◌≡◌, refl, true, Option, none, some, List, [], ◌∷◌, Bytes, codes, nat_eq, remove_at,
}
use edge_orchestrator.Common.HashMap
use edge_orchestrator.Common.Channel.{Channel}
use edge_orchestrator.Types.{NodeDescriptor}
use edge_orchestrator.Types.Project.{ProjectTask, from_hash, default_limits}
use edge_orchestrator.P2p.Messages.{Event}
use edge_orchestrator.P2p.Protocol.{Json}
use edge_orchestrator.P2p.Swarm.{broke, handle_project_exchange, job_result}
use edge_orchestrator.P2p.Swarm.Loop.{Setup, Loop, Turn, outcome_turn, job_turn, start, run, turn}
use edge_orchestrator.P2p.Swarm.Loop.Kept.{IsAnswered, arrival}
use edge_orchestrator.P2p.Swarm.Loop.Answered.{project_task_answered}
use edge_orchestrator.Tests.Samples.{node}
use edge_orchestrator.Tests.Channels.{mailbox}

abbrev unread : NodeDescriptor → Bytes → Option Bytes
unread d b = none

pub nothing_written : (d : NodeDescriptor) (b : Bytes) → none ≡ some b → none ≡ some d
nothing_written d b e = absurd (cc)

-- no descriptor can be written
abbrev mute : Json NodeDescriptor
mute = record { to_vec = λ d. none; from_slice = λ b. none; from_slice-to_vec = nothing_written }

abbrev setup : Setup
setup = record {
  self_peer_id = codes "me";
  self_descriptor = node 1;
  node_id_text = codes "1";
  bootstrap_peers = codes "/ip4/10.0.0.2" ∷ [];
  blob_provider = none;
  has_executor = true;
  json = mute;
}

abbrev task : ProjectTask
task = record {
  task_id = 7;
  snapshot = from_hash [];
  work_dir = codes "/root/project";
  build_cmd = [];
  run_cmd = codes "make" ∷ [];
  timeout_ms = 1000;
  resource_limits = default_limits;
  pinned_node = none;
}

abbrev events : Channel Event
events = mailbox Event

abbrev begun : Loop events setup
begun = start events setup []

-- the task's job panics, and its outcome is taken
abbrev turns : List Turn
turns = job_turn 0 (broke (codes "panicked")) ∷ outcome_turn ∷ []

project_task_answered_example :
    IsAnswered events setup
      (run events setup
        (turn events setup begun (arrival events setup (codes "peer") task 3))
        turns)
      7
      3
unfolding HashMap.get run turn handle_project_exchange remove_at job_result
project_task_answered_example =
    project_task_answered events setup begun (codes "peer") task 3 turns tt (tt, (tt, tt)) refl refl
      refl
