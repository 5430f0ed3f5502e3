-- ===== src/Project/Catalog/Least.antt =====
-- Which peer is chosen where no target is named.
use mathlib.Core.List.{Memᴰ}
use edge_orchestrator.Common.{
  ℕ, ◌≡◌, ◌≢◌, ◌≤◌, refl, sym, ap, ◌∙◌, inl, inr, Bool, true, false, Option, none, some, List, [],
  ◌∷◌, filter, map, arith, All, ℕ_discrete, ◌⊎◌, Bool-cases, Option-cases, subst,
}
use edge_orchestrator.Types.{NodeId, NodeDescriptor, invalid_state}
use edge_orchestrator.Cluster.{ClusterState}
use edge_orchestrator.P2p.Messages.{PeerId}
use edge_orchestrator.Raft.Network
use edge_orchestrator.Raft.Network.{RaftIdRegistry}
use edge_orchestrator.Storage.Store.Interfaces.{Result, ok, err, panic}
use edge_orchestrator.Project.Catalog.{
  raft, raft_id_le, sort_by_key, is_capable, choose_node, peer_of_raft_id, peer_of_node,
  resolve_peer,
}
use edge_orchestrator.Project.Catalog.Sorted.{IsHead, FrontIsHead, front_of_sort}

abbrev pub IsCapable : NodeId → NodeDescriptor → Type 0
IsCapable self_id d = (d.capabilities.project_sandbox ≡ true) × (d.node_id ≢ self_id)

is_capable-IsCapable :
    (self_id : NodeId) (d : NodeDescriptor) → is_capable self_id d ≡ true → IsCapable self_id d
is_capable-IsCapable self_id d h = (ground arith, λ e. ground arith)

IsCapable-is_capable :
    (self_id : NodeId) (d : NodeDescriptor) → IsCapable self_id d → is_capable self_id d ≡ true
IsCapable-is_capable self_id d h = ground arith

abbrev candidates : NodeId → List (NodeId × NodeDescriptor) → List NodeDescriptor
candidates self_id nodes = filter (is_capable self_id) (map (λ n. n.1) nodes)

module _ {A : Type 0} (p : A → Bool) where
  mem-filter_back : (x : A) (xs : List A) → Memᴰ x (filter p xs) → Memᴰ x xs × (p x ≡ true)
  mem-filter_back x [] m = elim m [ ]
  mem-filter_back x (y ∷ xs) m = elim (Bool-cases (p y)) [
    | inl keep ↦ found keep (mem-filter_back x xs) (rw keep at m)
    | inr drop ↦ (let (m', e) = mem-filter_back x xs (rw drop at m) in (Memᴰ.tail m', e))
  ]
    where
      found :
          p y ≡ true
          → (Memᴰ x (filter p xs) → Memᴰ x xs × (p x ≡ true))
          → Memᴰ x (y ∷ filter p xs)
          → Memᴰ x (y ∷ xs) × (p x ≡ true)
      found keep back (Memᴰ.head e) = (Memᴰ.head e, ap p e ∙ keep)
      found keep back (Memᴰ.tail n) = let (m', e) = back n in (Memᴰ.tail m', e)

  mem-filter : (x : A) (xs : List A) → Memᴰ x xs → p x ≡ true → Memᴰ x (filter p xs)
  mem-filter x [] m h = elim m [ ]
  mem-filter x (y ∷ xs) (Memᴰ.head e) h = rw (sym (ap p e) ∙ h) (Memᴰ.head e)
  mem-filter x (y ∷ xs) (Memᴰ.tail m) h = elim (Bool-cases (p y)) [
    | inl keep ↦ rw keep (Memᴰ.tail (mem-filter x xs m h))
    | inr drop ↦ rw drop (mem-filter x xs m h)
  ]

mem-map :
    (n : NodeId × NodeDescriptor) (nodes : List (NodeId × NodeDescriptor))
    → Memᴰ n nodes
    → Memᴰ n.1 (map (λ k. k.1) nodes)
mem-map n [] m = elim m [ ]
mem-map n (k ∷ nodes) (Memᴰ.head e) = Memᴰ.head (ap (λ (x : NodeId × NodeDescriptor). x.1) e)
mem-map n (k ∷ nodes) (Memᴰ.tail m) = Memᴰ.tail (mem-map n nodes m)

mem-map_back :
    (d : NodeDescriptor) (nodes : List (NodeId × NodeDescriptor))
    → Memᴰ d (map (λ k. k.1) nodes)
    → (id : NodeId) × Memᴰ (id, d) nodes
mem-map_back d [] m = elim m [ ]
mem-map_back d (k ∷ nodes) (Memᴰ.head e) =
    (k.0, Memᴰ.head (ap (λ (x : NodeDescriptor). (k.0, x)) e))
mem-map_back d (k ∷ nodes) (Memᴰ.tail m) =
    let (id, m') = mem-map_back d nodes m in (id, Memᴰ.tail m')

abbrev raft_key : NodeDescriptor → Option ℕ
raft_key d = d.raft_id

same_node : {x d : NodeDescriptor} → ok x ≡ ok d → x ≡ d
same_node e = cc

chosen :
    (sorted all : List NodeDescriptor) (d : NodeDescriptor)
    → FrontIsHead raft_key sorted all
    → elim sorted [ [] ↦ err invalid_state | x ∷ others ↦ ok x ] ≡ ok d
    → IsHead raft_key d all
chosen [] all d f e = absurd (cc)
chosen (x ∷ others) all d f e =
    subst (λ (y : NodeDescriptor). IsHead raft_key y all) (same_node e) f

-- Where the choice without a target returns a node, it is a front of the capable nodes.
chosen_front :
    (self_id : NodeId) (state : ClusterState) (d : NodeDescriptor)
    → choose_node self_id state none ≡ ok d
    → IsHead raft_key d (candidates self_id state.nodes)
unfolding choose_node
chosen_front self_id state d h =
    chosen (sort_by_key raft_key (candidates self_id state.nodes)) (candidates self_id state.nodes)
      d (front_of_sort raft_key (candidates self_id state.nodes)) h

raft_id_le-some :
    (rid : ℕ) (o : Option ℕ) → raft_id_le (some rid) o ≡ true → (y : ℕ) × (o ≡ some y) × (rid ≤ y)
raft_id_le-some rid none h = absurd (cc)
raft_id_le-some rid (some y) h = (y, refl, ground arith)

-- What a resolved peer comes from.
resolved :
    (registry : RaftIdRegistry) (r : Result NodeDescriptor) (p : PeerId)
    → peer_of_node registry r ≡ ok p
    → (d : NodeDescriptor) × (rid : ℕ) × (r ≡ ok d)
      × (d.raft_id ≡ some rid)
      × (Network.get registry rid ≡ some p)
unfolding peer_of_node peer_of_raft_id
resolved registry (err e) p h = absurd (cc)
resolved registry panic p h = absurd (cc)
resolved registry (ok d) p h = elim (Option-cases d.raft_id) [
  | inl nothing ↦ absurd (ground (arith, nothing))
  | inr (rid, here) ↦ elim (Option-cases (Network.get registry rid)) [
    | inl unknown ↦ absurd (ground (arith, here, unknown))
    | inr (q, known) ↦ (d, rid, refl, here, ground (arith, here, known))
  ]
]

least_lem :
    (self_id : NodeId) (state : ClusterState) (registry : RaftIdRegistry) (p : PeerId)
    → resolve_peer self_id (raft state registry) none ≡ ok p
    → (n : NodeId × NodeDescriptor) × (rid : ℕ) × Memᴰ n state.nodes
      × IsCapable self_id n.1
      × (n.1.raft_id ≡ some rid)
      × (Network.get registry rid ≡ some p)
      × ((k : NodeId × NodeDescriptor)
          → Memᴰ k state.nodes
          → IsCapable self_id k.1
          → (y : ℕ) × (k.1.raft_id ≡ some y) × (rid ≤ y))
unfolding resolve_peer
least_lem self_id state registry p h =
    let (d, rid, chose, here, known) = resolved registry (choose_node self_id state none) p h in
    let (m, least) = chosen_front self_id state d chose in
    let (m', capable) = mem-filter_back (is_capable self_id) d (map (λ k. k.1) state.nodes) m in
    let (id, at) = mem-map_back d state.nodes m' in
    (
      (id, d),
      rid,
      at,
      is_capable-IsCapable self_id d capable,
      here,
      known,
      λ k mk ck. raft_id_le-some rid k.1.raft_id (
          subst (λ (o : Option ℕ). raft_id_le o k.1.raft_id ≡ true) here
            (least k.1 (
              mem-filter (is_capable self_id) k.1 (map (λ j. j.1) state.nodes)
                (mem-map k state.nodes mk) (IsCapable-is_capable self_id k.1 ck)))),
    )

All-mem : {A : Type 0} (P : A → Type 0) (xs : List A) → ((x : A) → Memᴰ x xs → P x) → All P xs
All-mem P [] h = tt
All-mem P (x ∷ xs) h = (h x (Memᴰ.head refl), All-mem P xs (λ y m. h y (Memᴰ.tail m)))

-- A node that cannot be asked, or that has a Raft id which is no smaller.
abbrev pub IsPassed : NodeId → ℕ → NodeDescriptor → Type 0
IsPassed self_id rid d =
    (d.capabilities.project_sandbox ≡ false)
    ⊎ (d.node_id ≡ self_id)
    ⊎ ((y : ℕ) × (d.raft_id ≡ some y) × (rid ≤ y))

passed :
    (self_id : NodeId) (rid : ℕ) (d : NodeDescriptor)
    → (IsCapable self_id d → (y : ℕ) × (d.raft_id ≡ some y) × (rid ≤ y))
    → IsPassed self_id rid d
passed self_id rid d h = elim (Bool-cases d.capabilities.project_sandbox) [
  | inr cannot ↦ inl cannot
  | inl can ↦ elim (ℕ_discrete d.node_id self_id) [
    | yes same ↦ inr (inl same)
    | no other ↦ inr (inr (h (can, other)))
  ]
]

-- Where no target is named and the Raft state resolves a peer, that peer is registered under the
-- Raft id of a node of the state that can run projects and is not the node itself; and every other
-- such node has a Raft id too, which is no smaller.
pub resolve_peer_least :
    (self_id : NodeId) (state : ClusterState) (registry : RaftIdRegistry) (p : PeerId)
    → resolve_peer self_id (raft state registry) none ≡ ok p
    → (n : NodeId × NodeDescriptor) × (rid : ℕ) × Memᴰ n state.nodes
      × IsCapable self_id n.1
      × (n.1.raft_id ≡ some rid)
      × (Network.get registry rid ≡ some p)
      × All (λ k. IsPassed self_id rid k.1) state.nodes
resolve_peer_least self_id state registry p h =
    let (n, rid, at, capable, here, known, least) = least_lem self_id state registry p h in
    (
      n,
      rid,
      at,
      capable,
      here,
      known,
      All-mem (λ k. IsPassed self_id rid k.1) state.nodes
          (λ k m. passed self_id rid k.1 (least k m)),
    )

-- One node of the state that can run projects, is not the node itself and has no Raft id makes the
-- resolution without a target fail, whichever other nodes could serve.
pub resolve_peer_blocked :
    (self_id : NodeId) (state : ClusterState) (registry : RaftIdRegistry)
    (k : NodeId × NodeDescriptor)
    → Memᴰ k state.nodes
    → IsCapable self_id k.1
    → k.1.raft_id ≡ none
    → (p : PeerId) → resolve_peer self_id (raft state registry) none ≢ ok p
resolve_peer_blocked self_id state registry k m c nothing p h =
    let (n, rid, at, capable, here, known, least) = least_lem self_id state registry p h in
    let (y, some_id, le) = least k m c in absurd (cc (nothing, some_id))
