-- ===== src/Raft/Network.antt =====
-- network.rs: the registry of the peers behind Raft ids. The lock around it is left out; a peer id
-- is the bytes of its text.
use edge_orchestrator.Common.{
  ℕ, Bool, true, ◌&&◌, Option, List, [], ◌∷◌, Bytes, nat_eq, leb, if◌then◌else◌,
}
use edge_orchestrator.Common.HashMap
use edge_orchestrator.Common.HashMap.{HashMap}

abbrev pub RaftIdRegistry : Type 0
RaftIdRegistry = HashMap ℕ Bytes

unfoldable pub insert : RaftIdRegistry → ℕ → Bytes → RaftIdRegistry
insert registry raft_id peer_id = HashMap.insert raft_id peer_id registry

unfoldable pub get : RaftIdRegistry → ℕ → Option Bytes
get registry raft_id = HashMap.get raft_id registry

pub remove : RaftIdRegistry → ℕ → RaftIdRegistry
remove registry raft_id = HashMap.remove raft_id registry

unfoldable pub knows_all : RaftIdRegistry → List ℕ → Bool
knows_all registry [] = true
knows_all registry (id ∷ ids) = HashMap.contains_key id registry && knows_all registry ids

-- by key, each of which stands once
unfoldable pub insert_sorted : ℕ × Bytes → List (ℕ × Bytes) → List (ℕ × Bytes)
insert_sorted p [] = p ∷ []
insert_sorted p (q ∷ qs) =
    let rest = insert_sorted p qs in if leb p.0 q.0 then p ∷ q ∷ qs else q ∷ rest

-- the known pairs, in the order of the ids
unfoldable pub snapshot : RaftIdRegistry → List (ℕ × Bytes)
unfolding insert_sorted
snapshot [] = []
snapshot (p ∷ ps) = insert_sorted p (snapshot ps)
