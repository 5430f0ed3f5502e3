-- ===== src/Project/Fetch.antt =====
-- cas_fetch.rs: fetching a missing blob from the peers. A oneshot channel is a number, with what its
-- receiver sees; the call of `ensure_blob` is cut where it waits.
pub mod Tracked
pub mod Waiting
use edge_orchestrator.Common.{
  ℕ, suc, ◌++◌, Bool, true, false, ◌||◌, not, Option, none, some, List, [], ◌∷◌, Bytes, bytes_eq,
  get_or_default, if◌then◌else◌, nat_eq,
}
use edge_orchestrator.Common.HashMap
use edge_orchestrator.Common.HashMap.{HashMap}
use edge_orchestrator.Common.Channel.{Channel}
use edge_orchestrator.Types.{Hash, CoreError, network}
use edge_orchestrator.P2p.Messages.{PeerId, SwarmCommand, request_blob}
use edge_orchestrator.Raft.Network.{RaftIdRegistry, snapshot}
use edge_orchestrator.Storage.Store
use edge_orchestrator.Storage.Store.Interfaces.{Result, ok, err, panic, FileSystem, Format, Digest}

-- what the receiver of a oneshot channel sees
pub data Oneshot : Type 0 where
  empty : Oneshot
  sent : Bytes → Oneshot
  closed : Oneshot

-- A call returns at once, or waits on a channel.
pub data Begun : Type 0 where
  returned : Result Bytes → Begun
  waits : ℕ → Begun

-- Every one of these channels gets the same end.
unfoldable pub settle : Oneshot → List ℕ → HashMap ℕ Oneshot → HashMap ℕ Oneshot
settle v [] m = m
settle v (i ∷ is) m = settle v is (HashMap.insert i v m)

module _ (F : FileSystem) (c : Format) (D : Digest) (ch : Channel SwarmCommand) where
  pub record BlobFetcher : Type 0 where
    pub store : F.Fs
    pub swarm_commands : ch.Sender
    pub raft_registry : RaftIdRegistry
    pub waiters : HashMap Hash (List ℕ)
    pub channels : HashMap ℕ Oneshot
    -- the number of the next channel
    pub next : ℕ

  abbrev pub new : F.Fs → ch.Sender → RaftIdRegistry → BlobFetcher
  new store swarm_commands raft_registry = record {
    store = store;
    swarm_commands = swarm_commands;
    raft_registry = raft_registry;
    waiters = [];
    channels = [];
    next = 0;
  }

  abbrev pub waiters_of : BlobFetcher → Hash → List ℕ
  waiters_of f hash = get_or_default (HashMap.get hash f.waiters)

  -- the waiters of a hash leave the map, and their channels get the same end
  pub take : Hash → Oneshot → BlobFetcher → BlobFetcher
  take hash v f = record f {
    waiters = HashMap.remove hash f.waiters;
    channels = settle v (waiters_of f hash) f.channels;
  }

  -- Removing the senders closes their channels.
  unfoldable pub drop_waiter : Hash → BlobFetcher → BlobFetcher
  unfolding take
  drop_waiter hash f = take hash closed f

  pub wake : Hash → Bytes → BlobFetcher → Result Hash → BlobFetcher × Result Bool
  unfolding take
  wake hash data' f (ok stored) = (take hash (sent data') f, ok true)
  wake hash data' f (err e) = (f, ok false)
  wake hash data' f panic = (f, panic)

  abbrev pub is_empty : Bytes → Bool
  is_empty [] = true
  is_empty (x ∷ l) = false

  unfoldable pub on_blob_received : BlobFetcher → Hash → Bool → Bytes → BlobFetcher × Result Bool
  unfolding wake
  on_blob_received f hash found data' =
      if not found || is_empty data'
      then (f, ok false)
      else (let (fs, put) = Store.put_blob F c D.digest f.store data' in
          wake hash data' (record f { store = fs }) put)

  abbrev pub push_waiter : Hash → BlobFetcher → BlobFetcher
  push_waiter hash f = record f {
    waiters = HashMap.insert hash (waiters_of f hash ++ f.next ∷ []) f.waiters;
    channels = HashMap.insert f.next empty f.channels;
    next = suc f.next;
  }

  -- a refused send is ignored
  abbrev pub send : ch.Sender → SwarmCommand → ch.Sender
  send tx m = elim (ch.send tx m) [ none ↦ tx | some tx' ↦ tx' ]

  unfoldable pub request_all : Hash → List (ℕ × PeerId) → ch.Sender → ch.Sender
  request_all hash [] tx = tx
  request_all hash ((raft_id, peer) ∷ rest) tx =
      request_all hash rest (send tx (request_blob peer hash))

  unfoldable pub ask : Hash → BlobFetcher → List (ℕ × PeerId) → ℕ → BlobFetcher × Begun
  unfolding drop_waiter request_all
  ask hash f [] id = (drop_waiter hash f, returned (err network))
  ask hash f (p ∷ ps) id =
      (record f { swarm_commands = request_all hash (p ∷ ps) f.swarm_commands }, waits id)

  unfoldable pub begin_with : Hash → BlobFetcher → Result Bytes → BlobFetcher × Begun
  unfolding ask
  begin_with hash f (ok bytes) = (f, returned (ok bytes))
  begin_with hash f panic = (f, returned panic)
  begin_with hash f (err e) = ask hash (push_waiter hash f) (snapshot f.raft_registry) f.next

  -- `ensure_blob` up to its wait
  unfoldable pub begin : BlobFetcher → Hash → BlobFetcher × Begun
  unfolding begin_with
  begin f hash = begin_with hash f (Store.get_blob F c f.store hash)

  pub end_with : Hash → BlobFetcher → Bool → Option Oneshot → BlobFetcher × Option (Result Bytes)
  unfolding drop_waiter
  end_with hash f timed_out (some (sent bytes)) = (f, some (ok bytes))
  end_with hash f timed_out (some closed) = (drop_waiter hash f, some (err network))
  end_with hash f true (some empty) = (drop_waiter hash f, some (err network))
  end_with hash f false (some empty) = (f, none)
  end_with hash f timed_out none = (f, none)

  -- The rest of it, when the channel is looked at again or the time is up; `none` while it waits.
  unfoldable pub finish : BlobFetcher → Hash → ℕ → Bool → BlobFetcher × Option (Result Bytes)
  unfolding end_with
  finish f hash id timed_out = end_with hash f timed_out (HashMap.get id f.channels)
