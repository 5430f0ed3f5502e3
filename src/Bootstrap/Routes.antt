-- ===== src/Bootstrap/Routes.antt =====
-- Which peer a node of the cluster is reached at, over every run of the monitor.
use edge_orchestrator.Common.{
  ℕ, ◌≡◌, ◌∙◌, refl, ap, map, Option, none, some, List, [], ◌∷◌, Bytes, bytes_eq, nat_eq, ite,
  ℕ_discrete,
}
use edge_orchestrator.Common.HashMap
use edge_orchestrator.Common.HashMap.{HashMap}
use edge_orchestrator.Common.Channel.{Channel}
use edge_orchestrator.Types.{NodeId, NodeDescriptor}
use edge_orchestrator.Cluster.{ClusterState}
use edge_orchestrator.P2p.Messages.{
  PeerId, Multiaddr, SwarmCommand, dial, request_descriptor, peer_discovered, descriptor_received,
  connection_closed, peer_connected, raft_message_received,
}
use edge_orchestrator.Raft.Network as Registry
use edge_orchestrator.Storage.Store.Interfaces.{FileSystem, Format, Digest}
use edge_orchestrator.Project.Catalog.{resolve_peer}
use edge_orchestrator.Project.Catalog.Named.{peer_or_network, resolve_peer_named}
use edge_orchestrator.Bootstrap.{
  Node, Turn, tick, event, turn, run_event_monitor, on_event, on_tick, command, with_sender,
  to_raft, dial_all, redial, learn_raft_id, client_of, catalog_of,
}

module _ (F : FileSystem) (c : Format) (D : Digest) (ch : Channel SwarmCommand)
    (raft_ch : Channel Bytes) where
  abbrev State : Type 0
  State = Node F c D ch raft_ch

  -- The peer that last announced a Raft id.
  abbrev announced : ℕ → PeerId → Option ℕ → Option PeerId → Option PeerId
  announced rid peer none last = last
  announced rid peer (some r) last = ite (ℕ_discrete r rid) (some peer) last

  abbrev heard : ℕ → Turn F c D ch raft_ch → Option PeerId → Option PeerId
  heard rid (event now (descriptor_received peer d)) last = announced rid peer d.raft_id last
  heard rid t last = last

  abbrev pub last_announcer : ℕ → List (Turn F c D ch raft_ch) → Option PeerId → Option PeerId
  last_announcer rid [] last = last
  last_announcer rid (t ∷ ts) last = last_announcer rid ts (heard rid t last)

  -- Sending a command touches the commands only.
  abbrev Same : State → State → Type 0
  Same n n' =
      (n'.raft_registry ≡ n.raft_registry)
      × (n'.state ≡ n.state)
      × (n'.self_node_id ≡ n.self_node_id)

  Same-refl : (n : State) → Same n n
  Same-refl n = (refl, refl, refl)

  Same-trans : (n m k : State) → Same n m → Same m k → Same n k
  Same-trans n m k a b = (b.0 ∙ a.0, b.1 ∙ a.1, b.2 ∙ a.2)

  sender-Same : (n : State) (o : Option ch.Sender) → Same n (with_sender F c D ch raft_ch n o)
  sender-Same n none = Same-refl n
  sender-Same n (some tx) = (refl, refl, refl)

  raft-Same : (n : State) (o : Option raft_ch.Sender) → Same n (to_raft F c D ch raft_ch n o)
  raft-Same n none = Same-refl n
  raft-Same n (some tx) = (refl, refl, refl)

  dial_all-Same : (n : State) (addrs : List Multiaddr) → Same n (dial_all F c D ch raft_ch n addrs)
  unfolding dial_all
  dial_all-Same n [] = Same-refl n
  dial_all-Same n (a ∷ addrs) =
      let m = command F c D ch raft_ch n (dial a) in
      Same-trans n m (dial_all F c D ch raft_ch m addrs)
        (sender-Same n (ch.send n.commands (dial a))) (dial_all-Same m addrs)

  redial-Same : (n : State) (o : Option Multiaddr) → Same n (redial F c D ch raft_ch n o)
  redial-Same n none = Same-refl n
  redial-Same n (some a) = sender-Same n (ch.send n.commands (dial a))

  -- What a turn does to the registry, and that it leaves the node's identity and Raft state.
  Follows : ℕ → Option PeerId → State → State → Type 0
  Follows rid last n n' =
      (Registry.get n'.raft_registry rid ≡ last)
      × (n'.state ≡ n.state)
      × (n'.self_node_id ≡ n.self_node_id)

  Same-Follows :
      (rid : ℕ) (last : Option PeerId) (n n' : State)
      → Registry.get n.raft_registry rid ≡ last
      → Same n n'
      → Follows rid last n n'
  unfolding Follows
  Same-Follows rid last n n' h s =
      (ap (λ (r : Registry.RaftIdRegistry). Registry.get r rid) s.0 ∙ h, s.1, s.2)

  learned-Follows :
      (rid : ℕ) (last : Option PeerId) (n : State) (peer : PeerId) (o : Option ℕ)
      → Registry.get n.raft_registry rid ≡ last
      → Follows rid (announced rid peer o last) n (learn_raft_id F c D ch raft_ch n peer o)
  unfolding Follows Registry.get Registry.insert
  learned-Follows rid last n peer none h = (h, refl, refl)
  learned-Follows rid last n peer (some r) h = (
    HashMap.get-insert r rid peer n.raft_registry ∙ ap (ite (ℕ_discrete r rid) (some peer)) h,
    refl,
    refl,
  )

  turn-Follows :
      (rid : ℕ) (last : Option PeerId) (n : State) (t : Turn F c D ch raft_ch)
      → Registry.get n.raft_registry rid ≡ last
      → Follows rid (heard rid t last) n (turn F c D ch raft_ch n t)
  unfolding turn on_event on_tick Follows
  turn-Follows rid last n tick h =
      let m = dial_all F c D ch raft_ch n n.bootstrap_addrs in
      Same-Follows rid last n (on_tick F c D ch raft_ch n) h (
        Same-trans n m (on_tick F c D ch raft_ch n) (dial_all-Same n n.bootstrap_addrs)
          (dial_all-Same m (map (λ p. p.1) n.peer_addrs)))
  turn-Follows rid last n (event now (peer_discovered peer address)) h =
      Same-Follows rid last n (turn F c D ch raft_ch n (event now (peer_discovered peer address))) h
        (sender-Same (record n { peer_addrs = HashMap.insert peer address n.peer_addrs })
          (ch.send n.commands (dial address)))
  turn-Follows rid last n (event now (peer_connected peer)) h =
      Same-Follows rid last n (turn F c D ch raft_ch n (event now (peer_connected peer))) h
        (sender-Same n (ch.send n.commands (request_descriptor peer)))
  turn-Follows rid last n (event now (descriptor_received peer d)) h =
      learned-Follows rid last n peer d.raft_id h
  turn-Follows rid last n (event now (raft_message_received peer data')) h =
      Same-Follows rid last n
        (turn F c D ch raft_ch n (event now (raft_message_received peer data'))) h
        (raft-Same n (raft_ch.send n.raft_incoming data'))
  turn-Follows rid last n (event now (connection_closed peer)) h =
      Same-Follows rid last n (turn F c D ch raft_ch n (event now (connection_closed peer))) h
        (redial-Same n (HashMap.get peer n.peer_addrs))
  turn-Follows rid last n (event now e) h = (h, refl, refl)

  run-Follows :
      (rid : ℕ) (last : Option PeerId) (n : State) (ts : List (Turn F c D ch raft_ch))
      → Registry.get n.raft_registry rid ≡ last
      → Follows rid (last_announcer rid ts last) n (run_event_monitor F c D ch raft_ch n ts)
  unfolding run_event_monitor Follows
  run-Follows rid last n [] h = (h, refl, refl)
  run-Follows rid last n (t ∷ ts) h =
      let n' = turn F c D ch raft_ch n t in
      let (now, st, self) = turn-Follows rid last n t h in
      let (now', st', self') = run-Follows rid (heard rid t last) n' ts now in
      (now', st' ∙ st, self' ∙ self)

  -- After any run of the monitor, a cluster member reaches a named node of the Raft state at the
  -- peer that was the last to announce the node's Raft id in a descriptor, or at the one that was
  -- known before where none announced it, and gets a network error where there is none of either.
  pub resolve_peer-run :
      (n : State) (ts : List (Turn F c D ch raft_ch)) (state : ClusterState) (id : NodeId)
      (d : NodeDescriptor) (rid : ℕ)
      → n.state ≡ some state
      → HashMap.get id state.nodes ≡ some d
      → d.raft_id ≡ some rid
      → let n' = run_event_monitor F c D ch raft_ch n ts in
        resolve_peer n'.self_node_id (client_of F c D ch raft_ch n').catalog (some id)
        ≡ peer_or_network (last_announcer rid ts (Registry.get n.raft_registry rid))
  unfolding Follows
  resolve_peer-run n ts state id d rid member at has =
      let n' = run_event_monitor F c D ch raft_ch n ts in
      let (now, st, self) = run-Follows rid (Registry.get n.raft_registry rid) n ts refl in
      ap
        (λ (s : Option ClusterState).
          resolve_peer n'.self_node_id (catalog_of s n'.raft_registry n'.known_peers) (some id))
        (st ∙ member)
      ∙ resolve_peer_named n'.self_node_id state n'.raft_registry id d rid at has
      ∙ ap peer_or_network now
