-- ===== src/Raft/Ready.antt =====
-- node.rs and network.rs: the turns of a Raft node. The crate raft is the record `RawNode`, prost
-- gives a message's bytes and serde_json
-- a hard state's; the store inside the raw node stands beside it. Log lines are left out.
use edge_orchestrator.Common.{ℕ, Bool, true, false, Option, none, some, List, [], ◌∷◌, Bytes}
use edge_orchestrator.Common.Channel.{Channel}
use edge_orchestrator.Types.{network, serialization, raft}
use edge_orchestrator.Cluster.{ClusterState, Proposal}
use edge_orchestrator.P2p.Messages.{SwarmCommand, send_raft_message}
use edge_orchestrator.Raft.{Entry}
use edge_orchestrator.Raft.Node.{Codec, apply_committed}
use edge_orchestrator.Raft.Network as Registry
use edge_orchestrator.Raft.Network.{RaftIdRegistry}
use edge_orchestrator.Raft.Storage.{CasRaftStorage, HardState, append_entry, set_hard_state}
use edge_orchestrator.Raft.Storage.Interfaces.{EntryCache, ObjectStore, Result, ok, err}

-- a message of the crate raft: its receiver, and what prost encodes it to
pub record RaftMessage : Type 0 where
  pub to : ℕ
  pub encoded : Bytes

-- `Ready`
pub record Ready : Type 0 where
  pub messages : List RaftMessage
  pub hs : Option HardState
  pub entries : List Entry
  pub persisted_messages : List RaftMessage
  pub committed_entries : List Entry

-- `LightReady`
pub record LightReady : Type 0 where
  pub messages : List RaftMessage
  pub committed_entries : List Entry

module _ (C : EntryCache) (O : ObjectStore) (ch : Channel SwarmCommand) (codec : Codec)
    (to_json : HardState → Option Bytes) where
  abbrev pub Store : Type 0
  Store = CasRaftStorage C O

  -- A `step` decodes its bytes; what cannot be decoded is passed over.
  pub record RawNode : Type 1 where
    pub Raw : Type 0
    pub tick : Raw → Store → Raw
    pub step : Raw → Store → Bytes → Raw
    pub propose : Raw → Store → Bytes → Raw × Bool
    pub ready : Raw → Store → Raw × Option Ready
    pub advance : Raw → Store → Ready → Raw × LightReady

  module _ (R : RawNode) where
    open R use {Raw}

    pub record RaftNode : Type 0 where
      pub raw_node : Raw
      pub store : Store
      pub swarm_commands : ch.Sender
      pub registry : RaftIdRegistry
      pub state : ClusterState

    abbrev pub queued : RaftNode → Option ch.Sender → RaftNode × Result (Unit {0})
    queued n none = (n, err network)
    queued n (some tx) = (record n { swarm_commands = tx }, ok tt)

    -- `Libp2pRaftTransport::send`; `try_send` also refuses where the channel is full
    pub send : RaftNode → RaftMessage → RaftNode × Result (Unit {0})
    send n msg = elim (Registry.get n.registry msg.to) [
      | none ↦ (n, err network)
      | some peer_id ↦ queued n (ch.send n.swarm_commands (send_raft_message peer_id msg.encoded))
    ]

    -- An error is logged.
    pub send_message : RaftNode → RaftMessage → RaftNode
    unfolding send
    send_message n msg = (send n msg).0

    pub send_all : RaftNode → List RaftMessage → RaftNode
    unfolding send_message
    send_all n [] = n
    send_all n (msg ∷ msgs) = send_all (send_message n msg) msgs

    pub persist_hard_state : RaftNode → Option HardState → RaftNode
    persist_hard_state n none = n
    persist_hard_state n (some hs) = record n { store = (set_hard_state C O to_json n.store hs).0 }

    -- An entry that could not be appended is logged, and the next one is appended.
    pub persist_entries : RaftNode → List Entry → RaftNode
    persist_entries n [] = n
    persist_entries n (entry ∷ entries) =
        persist_entries (record n { store = (append_entry C O n.store entry).0 }) entries

    -- The light ready is dropped.
    pub handle_ready : RaftNode → Ready → RaftNode
    unfolding send_all persist_hard_state persist_entries
    handle_ready n ready =
        let sent = send_all n ready.messages in
        let persisted = persist_entries (persist_hard_state sent ready.hs) ready.entries in
        let sent_again = send_all persisted ready.persisted_messages in
        record sent_again {
          state = apply_committed codec sent_again.state ready.committed_entries;
          raw_node = (R.advance sent_again.raw_node sent_again.store ready).0;
        }

    abbrev pub process : RaftNode → Raw × Option Ready → RaftNode
    process n (raw, none) = record n { raw_node = raw }
    process n (raw, some ready) = handle_ready (record n { raw_node = raw }) ready

    unfoldable pub process_ready : RaftNode → RaftNode
    unfolding handle_ready
    process_ready n = process n (R.ready n.raw_node n.store)

    abbrev pub proposed : RaftNode → Raw × Bool → RaftNode × Result (Unit {0})
    proposed n (raw, true) = (record n { raw_node = raw }, ok tt)
    proposed n (raw, false) = (record n { raw_node = raw }, err raft)

    abbrev pub propose_encoded : RaftNode → Option Bytes → RaftNode × Result (Unit {0})
    propose_encoded n none = (n, err serialization)
    propose_encoded n (some data') = proposed n (R.propose n.raw_node n.store data')

    pub propose : RaftNode → Proposal → RaftNode × Result (Unit {0})
    propose n proposal = propose_encoded n (codec.encode proposal)

    -- a branch of the `select!`
    pub data Turn : Type 0 where
      ticked : Turn
      received : Bytes → Turn
      asked : Proposal → Turn

    pub take_turn : RaftNode → Turn → RaftNode
    unfolding propose
    take_turn n ticked = record n { raw_node = R.tick n.raw_node n.store }
    take_turn n (received envelope) = record n { raw_node = R.step n.raw_node n.store envelope }
    take_turn n (asked proposal) = (propose n proposal).0

    -- the loop, until one of the channels closes
    unfoldable pub run : RaftNode → List Turn → RaftNode
    unfolding take_turn process_ready
    run n [] = n
    run n (t ∷ ts) = run (process_ready (take_turn n t)) ts
