-- ===== src/Tests/Fetches.antt =====
-- The blob fetcher, with a store in memory.
use edge_orchestrator.Common.{
  ◌≡◌, refl, true, false, some, List, [], ◌∷◌, codes, nat_eq, contains, ℕ_discrete, Bytes-discrete,
}
use edge_orchestrator.Common.HashMap
use edge_orchestrator.Common.Channel.{Channel}
use edge_orchestrator.Types.{network, Hash}
use edge_orchestrator.P2p.Messages.{SwarmCommand, request_blob}
use edge_orchestrator.Raft.Network.{snapshot}
use edge_orchestrator.Storage.Store.Interfaces.{ok, err}
use edge_orchestrator.Storage.Decimal.{show_decimal}
use edge_orchestrator.Storage.Store.Faults.{get_blob_missing}
use edge_orchestrator.Storage.Objects.{hash_blob}
use edge_orchestrator.Project.Fetch.{
  BlobFetcher, new, begin, begin_with, ask, request_all, waits, finish, on_blob_received, empty,
}
use edge_orchestrator.Project.Fetch.Tracked.{Move, receives, run, perform}
use edge_orchestrator.Project.Fetch.Waiting.{fetch_answered, timeout_ends_others}
use edge_orchestrator.Tests.Stores.{memory, tiny, marked, no_files, content, mark}
use edge_orchestrator.Tests.Storage.{stored, path_of_content, content_path-IsPlain}
use edge_orchestrator.Tests.Channels.{mailbox}

abbrev commands : Channel SwarmCommand
commands = mailbox SwarmCommand

abbrev Fetcher : Type 0
Fetcher = BlobFetcher memory tiny marked commands

abbrev one_peer : Fetcher
one_peer = new memory tiny marked commands no_files [] ((2, codes "two") ∷ [])

abbrev hash : Hash
hash = hash_blob mark content

-- two fetches of the hash `h` wait
abbrev two_waiting : Fetcher
two_waiting = record one_peer {
  waiters = (hash, 0 ∷ 1 ∷ []) ∷ [];
  channels = (0, empty) ∷ (1, empty) ∷ [];
  next = 2;
}

abbrev asked : Fetcher
asked = record one_peer {
  waiters = (hash, 0 ∷ []) ∷ [];
  channels = (0, empty) ∷ [];
  next = 1;
  swarm_commands = request_blob (codes "two") hash ∷ [];
}

began : begin memory tiny marked commands one_peer hash ≡ (asked, waits 0)
unfolding begin begin_with ask request_all hash_blob Bytes-discrete ℕ_discrete show_decimal
    HashMap.get snapshot HashMap.insert
began =
    rw (get_blob_missing memory tiny no_files hash path_of_content content_path-IsPlain refl) refl

-- an answer without data comes first
abbrev moves : List (Move memory tiny marked commands)
moves = receives hash false [] ∷ []

fetch_answered_example :
    (finish memory tiny marked commands
      (on_blob_received memory tiny marked commands
        (run memory tiny marked commands asked moves)
        hash
        true
        content).0
      hash
      0
      true).1
    ≡ some (ok content)
unfolding run perform on_blob_received ℕ_discrete HashMap.get
fetch_answered_example =
    fetch_answered memory tiny marked commands one_peer asked hash 0 moves 1
      (0 ∷ 0 ∷ 0 ∷ 0 ∷ 0 ∷ 0 ∷ 0 ∷ []) hash true began refl stored

timeout_ends_others_example :
    (finish memory tiny marked commands
      (finish memory tiny marked commands two_waiting hash 0 true).0
      hash
      1
      false).1
    ≡ some (err network)
unfolding HashMap.get ℕ_discrete Bytes-discrete contains hash_blob show_decimal
timeout_ends_others_example =
    timeout_ends_others memory tiny marked commands two_waiting hash 0 1 refl refl
