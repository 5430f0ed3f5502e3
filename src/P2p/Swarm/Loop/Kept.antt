-- ===== src/P2p/Swarm/Loop/Kept.antt =====
-- The parked channel of a task, through what the swarm reports.
use mathlib.Core.List.{Memᴰ}
use edge_orchestrator.Common.{
  ℕ, ◌≡◌, ◌≢◌, ◌⊎◌, ◌∙◌, ap, inl, inr, Bool, true, false, ◌||◌, none, some, List, [], ◌∷◌, ◌++◌,
  contains, nat_eq,
}
use edge_orchestrator.Common.HashMap
use edge_orchestrator.Common.HashMap.{HashMap}
use edge_orchestrator.Common.Channel.{Channel}
use edge_orchestrator.Types.{TaskId}
use edge_orchestrator.Types.Project.{ProjectTask, ProjectResult}
use edge_orchestrator.P2p.Messages.{PeerId, Event}
use edge_orchestrator.P2p.Swarm.{
  Action, send_response, project_response, Exchange, request, response, outbound_failure,
  inbound_failure, response_sent, Handled, quiet, Job, ran, panicked, handle_project_exchange,
  handle_descriptor_exchange, handle_raft_exchange, handle_blob_exchange,
}
use edge_orchestrator.P2p.Swarm.Loop.{
  Setup, Loop, Turn, swarm_turn, job_turn, SwarmEvent, behaviour, listens, closes, connects, other,
  BehaviourEvent, mdns_discovered, mdns_expired, identify_received, identify_other, ping,
  descriptor_exchange, raft_exchange, blob_exchange, project_exchange, job_at, do_handled,
  put_project, do_project, handle_behaviour_event, on_swarm_event, step,
}
use edge_orchestrator.P2p.Swarm.Loop.Jobs.{
  job_ids, outcome_ids, IsNamed, mem-append_left, job_ids-append,
}

module _ (ch : Channel Event) (setup : Setup) where
  abbrev pub Swarm : Type 0
  Swarm = Loop ch setup

  abbrev pub IsAnswered : Swarm → TaskId → ℕ → Type 0
  IsAnswered l t k =
      (r : ProjectResult) × (r.task_id ≡ t) × Memᴰ (send_response k (project_response r)) l.log

  -- The channel is parked and its job runs or has ended, or the answer was sent.
  abbrev pub Kept : Swarm → TaskId → ℕ → Type 0
  Kept l t k =
      ((HashMap.get t l.pending ≡ some k)
        × ((contains t (job_ids l.jobs) ≡ true) ⊎ (contains t (outcome_ids l.outcomes) ≡ true)))
      ⊎ IsAnswered l t k

  abbrev pub FairExchange : Swarm → Exchange ProjectTask ProjectResult → Type 0
  FairExchange l (request peer task channel) = HashMap.get task.task_id l.pending ≡ none
  FairExchange l (response peer r) = Unit {0}
  FairExchange l (outbound_failure peer) = Unit {0}
  FairExchange l (inbound_failure peer) = Unit {0}
  FairExchange l (response_sent peer) = Unit {0}

  -- A request draws no id of a task that is parked, a job's result carries its task's id, and the
  -- job of the task `t` does not panic.
  abbrev pub Fair : TaskId → Swarm → Turn → Type 0
  Fair t l (swarm_turn (some (behaviour (project_exchange e)))) = FairExchange l e
  Fair t l (job_turn i (ran r)) = (j : Job) → job_at l.jobs i ≡ some j → r.task_id ≡ j.task.task_id
  Fair t l (job_turn i panicked) = (j : Job) → job_at l.jobs i ≡ some j → j.task.task_id ≢ t
  Fair t l u = Unit {0}

  abbrev pub IsFair : TaskId → Swarm → List Turn → Type 0
  IsFair t l [] = Unit {0}
  IsFair t l (u ∷ us) = Fair t l u × IsFair t (step ch setup l u) us

  abbrev pub arrival : PeerId → ProjectTask → ℕ → Turn
  arrival peer task channel =
      swarm_turn (some (behaviour (project_exchange (request peer task channel))))

  abbrev pub Good : Swarm → TaskId → ℕ → Type 0
  Good l t k = IsNamed l.outcomes × Kept l t k

  pub still_answered :
      (l : Swarm) (t : TaskId) (k : ℕ) (actions : List Action)
      → IsAnswered l t k
      → (r : ProjectResult) × (r.task_id ≡ t)
        × Memᴰ (send_response k (project_response r)) (l.log ++ actions)
  still_answered l t k actions (r, e, m) = (r, e, mem-append_left _ l.log actions m)

  pub handled-Good :
      (l : Swarm) (t : TaskId) (k : ℕ) (h : Handled)
      → Good l t k
      → Good (do_handled ch setup l h) t k
  unfolding do_handled
  handled-Good l t k h (named, inl parked) = (named, inl parked)
  handled-Good l t k h (named, inr a) = (named, inr (still_answered l t k h.0 a))

  pub quiet-Good :
      (l : Swarm) (t : TaskId) (k : ℕ) → Good l t k → Good (do_handled ch setup l quiet) t k
  quiet-Good l t k g = handled-Good l t k quiet g

  pub accepted-Good :
      (l : Swarm) (t : TaskId) (k : ℕ) (peer : PeerId) (task : ProjectTask) (channel : ℕ)
      → HashMap.get task.task_id l.pending ≡ none
      → Good l t k
      → Good
          (put_project ch setup l
            (handle_project_exchange true l.pending (request peer task channel)))
          t
          k
  unfolding put_project do_handled handle_project_exchange
  accepted-Good l t k peer task channel fresh (named, inr a) =
      (named, inr (still_answered l t k [] a))
  accepted-Good l t k peer task channel fresh (named, inl (parked, due)) = (
    named,
    inl (
      HashMap.get-insert_ne channel l.pending (λ (e : task.task_id ≡ t). absurd (
            let f = fresh in
            let p = parked in
            let q = ap (λ (x : TaskId). HashMap.get x l.pending) e in cc (f, p, q)))
          ∙ parked,
      (elim due [
        | inl runs ↦ inl (
            job_ids-append t l.jobs (record { peer = peer; task = task })
            ∙ ap (λ (b : Bool). b || contains t (task.task_id ∷ [])) runs)
        | inr queued ↦ inr queued
      ]),
    ),
  )

  pub project-Good :
      (l : Swarm) (t : TaskId) (k : ℕ) (executor : Bool) (e : Exchange ProjectTask ProjectResult)
      → FairExchange l e
      → Good l t k
      → Good (put_project ch setup l (handle_project_exchange executor l.pending e)) t k
  unfolding put_project handle_project_exchange
  project-Good l t k false (request peer task channel) fair g =
      handled-Good l t k
        ((handle_project_exchange false l.pending (request peer task channel)).2, []) g
  project-Good l t k true (request peer task channel) fair g =
      accepted-Good l t k peer task channel fair g
  project-Good l t k executor (response peer r) fair g = quiet-Good l t k g
  project-Good l t k executor (outbound_failure peer) fair g = quiet-Good l t k g
  project-Good l t k executor (inbound_failure peer) fair g = quiet-Good l t k g
  project-Good l t k executor (response_sent peer) fair g = quiet-Good l t k g

  pub behaviour-Good :
      (l : Swarm) (t : TaskId) (k : ℕ) (e : BehaviourEvent)
      → Fair t l (swarm_turn (some (behaviour e)))
      → Good l t k
      → Good (handle_behaviour_event ch setup l e) t k
  unfolding handle_behaviour_event do_project
  behaviour-Good l t k (project_exchange e) fair g = project-Good l t k setup.has_executor e fair g
  behaviour-Good l t k (mdns_discovered ps) fair g = handled-Good l t k ([], []) g
  behaviour-Good l t k (mdns_expired ps) fair g = handled-Good l t k ([], []) g
  behaviour-Good l t k (identify_received p) fair g = handled-Good l t k ([], []) g
  behaviour-Good l t k identify_other fair g = quiet-Good l t k g
  behaviour-Good l t k (ping p) fair g = quiet-Good l t k g
  behaviour-Good l t k (descriptor_exchange e) fair g =
      handled-Good l t k (handle_descriptor_exchange setup.json setup.self_descriptor e) g
  behaviour-Good l t k (raft_exchange e) fair g = handled-Good l t k (handle_raft_exchange e) g
  behaviour-Good l t k (blob_exchange e) fair g =
      handled-Good l t k (handle_blob_exchange setup.blob_provider e) g

  pub swarm-Good :
      (l : Swarm) (t : TaskId) (k : ℕ) (e : SwarmEvent)
      → Fair t l (swarm_turn (some e))
      → Good l t k
      → Good (on_swarm_event ch setup l e) t k
  unfolding on_swarm_event
  swarm-Good l t k (behaviour e) fair g = behaviour-Good l t k e fair g
  swarm-Good l t k (listens a) fair g = handled-Good l t k ([], []) g
  swarm-Good l t k (closes p) fair g = handled-Good l t k ([], []) g
  swarm-Good l t k (connects p) fair g = handled-Good l t k ([], []) g
  swarm-Good l t k other fair g = quiet-Good l t k g
