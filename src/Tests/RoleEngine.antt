-- ===== src/Tests/RoleEngine.antt =====
-- The role engine with a channel that takes a number of messages.
use edge_orchestrator.Common.{
  ℕ, zero, suc, ◌≡◌, refl, ap, Bool, true, false, Option, none, some, List, [], ◌∷◌, ◌++◌, arith,
  nat_eq, Bytes-discrete, ℕ_discrete, All, contains, ◌⊎◌,
}
use edge_orchestrator.Common.HashMap
use edge_orchestrator.Common.HashMap.{HashMap}
use edge_orchestrator.Common.Channel.{Channel}
use edge_orchestrator.Types.{NodeId, NodeDescriptor, execution, coordinator, default_capabilities}
use edge_orchestrator.Types.{Role-discrete, network}
use edge_orchestrator.Cluster.{Proposal, assign_role}
use edge_orchestrator.RoleEngine.{
  Engine, ok, err, fits, find_alternative, handle_node_failure, reassign, finish,
}
use edge_orchestrator.RoleEngine.Failover.{
  takeovers, CanTake, Member, handle_node_failure-Reassigned, Outcome, handle_node_failure-Outcome,
  handle_node_failure_no_retry,
}
use edge_orchestrator.Tests.Samples.{node}

-- so many more messages are taken, and those that were
abbrev Queue : Type 0
Queue = ℕ × List Proposal

abbrev queue_send : Queue → Proposal → Option Queue
queue_send (zero, sent) p = none
queue_send (suc k, sent) p = some (k, sent ++ p ∷ [])

abbrev has_room : ℕ → Bool
has_room zero = false
has_room (suc k) = true

some_inj : {c d : Queue} → some c ≡ some d → d ≡ c
some_inj e = cc

pub sent_behind : (c c' : Queue) (p : Proposal) → queue_send c p ≡ some c' → c'.1 ≡ c.1 ++ p ∷ []
sent_behind (zero, sent) c' p e = absurd (cc)
sent_behind (suc k, sent) c' p e = ap (λ (c : Queue). c.1) (some_inj e)

pub full_closed : (c : Queue) (p : Proposal) → has_room c.0 ≡ false → queue_send c p ≡ none
full_closed (zero, sent) p e = refl
full_closed (suc k, sent) p e = absurd (ground arith)

pub refused_full : (c : Queue) (p : Proposal) → queue_send c p ≡ none → has_room c.0 ≡ false
refused_full (zero, sent) p e = refl
refused_full (suc k, sent) p e = absurd (cc)

abbrev queue : Channel Proposal
queue = record {
  Sender = Queue;
  send = queue_send;
  sent = λ c. c.1;
  is_open = λ c. has_room c.0;
  sent-send = sent_behind;
  send_closed = full_closed;
  send_open = refused_full;
}

-- node 1 coordinates and executes; node 2 can take over both
abbrev busy : NodeDescriptor
busy = record (node 1) { current_assigned_roles = coordinator ∷ execution ∷ [] }

abbrev table : HashMap NodeId NodeDescriptor
table = (1, busy) ∷ (2, node 2) ∷ []

abbrev rest : HashMap NodeId NodeDescriptor
rest = (2, node 2) ∷ []

abbrev engine : ℕ → Engine queue
engine k = record { proposal_tx = (k, []); desired_topology = none; nodes = table }

known : HashMap.get 1 table ≡ some busy
unfolding HashMap.get ℕ_discrete
known = refl

handle_node_failure-Outcome_example :
    ((handle_node_failure queue (engine 1) 1).0.nodes ≡ HashMap.remove 1 table)
    × Outcome queue
        (engine 1)
        (takeovers (HashMap.remove 1 table) default_capabilities (coordinator ∷ execution ∷ []))
        true
        (handle_node_failure queue (engine 1) 1).0
        (handle_node_failure queue (engine 1) 1).1
handle_node_failure-Outcome_example = handle_node_failure-Outcome queue (engine 1) 1 busy known

refused : (handle_node_failure queue (engine 1) 1).1 ≡ err network
unfolding handle_node_failure reassign finish find_alternative HashMap.get HashMap.remove ℕ_discrete
    contains Bytes-discrete fits Role-discrete
refused = refl

handle_node_failure_no_retry_example :
    handle_node_failure queue (handle_node_failure queue (engine 1) 1).0 1
    ≡ ((handle_node_failure queue (engine 1) 1).0, ok false)
handle_node_failure_no_retry_example = handle_node_failure_no_retry queue (engine 1) 1 refused

table-IsUnique : HashMap.IsUnique table
unfolding HashMap.contains_key ℕ_discrete
table-IsUnique = (refl, (refl, tt))

-- with room for both messages
both_sent : (handle_node_failure queue (engine 2) 1).1 ≡ ok true
unfolding handle_node_failure reassign finish find_alternative HashMap.get HashMap.remove ℕ_discrete
    contains Bytes-discrete fits Role-discrete
both_sent = refl

handle_node_failure-Reassigned_example :
    ((a : NodeId) × (d : NodeDescriptor) × (ps : List Proposal) × (HashMap.get a
          (HashMap.remove 1 table)
        ≡ some d)
      × CanTake execution default_capabilities d
      × Member (assign_role a execution) ps
      × ((handle_node_failure queue (engine 2) 1).0.proposal_tx.1 ≡ [] ++ ps))
    ⊎ All (λ k. ¬ CanTake execution default_capabilities k.1) (HashMap.remove 1 table)
unfolding contains Role-discrete
handle_node_failure-Reassigned_example =
    handle_node_failure-Reassigned queue (engine 2) 1 busy execution true table-IsUnique known refl
      both_sent
