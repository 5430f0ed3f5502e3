-- ===== src/Project/Fetch/Waiting.antt =====
-- What becomes of a fetch that waits.
use edge_orchestrator.Common.{
  ℕ, ◌≡◌, refl, ap, subst, inr, Bool, true, false, some, List, [], ◌∷◌, Bytes, bytes_eq, contains,
  nat_eq,
}
use edge_orchestrator.Common.HashMap
use edge_orchestrator.Common.HashMap.{HashMap}
use edge_orchestrator.Common.Channel.{Channel}
use edge_orchestrator.Types.{Hash, network}
use edge_orchestrator.P2p.Messages.{PeerId, SwarmCommand}
use edge_orchestrator.Raft.Network.{snapshot}
use edge_orchestrator.Storage.Store
use edge_orchestrator.Storage.Store.Interfaces.{Result, ok, err, panic, FileSystem, Format, Digest}
use edge_orchestrator.Project.Fetch.{
  empty, sent, closed, Begun, waits, waiters_of, take, wake, on_blob_received, push_waiter, ask,
  begin, begin_with, end_with, finish, drop_waiter,
}
use edge_orchestrator.Project.Fetch.Tracked.{
  settle_member, Fetcher, Tracked, Move, run, run-Tracked, new-Tracked,
}

module _ (F : FileSystem) (c : Format) (D : Digest) (ch : Channel SwarmCommand) where
  same_channel : {i j : ℕ} → waits i ≡ waits j → i ≡ j
  same_channel e = cc

  ask_waits :
      (f f' : Fetcher F c D ch) (hash : Hash) (peers : List (ℕ × PeerId)) (i id : ℕ)
      → ask F c D ch hash f peers i ≡ (f', waits id)
      → Tracked F c D ch f hash i
      → Tracked F c D ch f' hash id
  unfolding ask
  ask_waits f f' hash [] i id e t = absurd (cc)
  ask_waits f f' hash (p ∷ ps) i id e t =
      let g = (ask F c D ch hash f (p ∷ ps) i).0 in
      let same : g ≡ f' = ap (λ (q : Fetcher F c D ch × Begun). q.0) e in
      let named : i ≡ id = same_channel (ap (λ (q : Fetcher F c D ch × Begun). q.1) e) in
      let t' : Tracked F c D ch g hash i = record { older = t.older; known = t.known } in
      subst (λ (k : ℕ). Tracked F c D ch f' hash k) named
        (subst (λ (h : Fetcher F c D ch). Tracked F c D ch h hash i) same t')

  -- A call that waits does so on a new channel, which stands among the waiters of its hash.
  waits-Tracked :
      (f f' : Fetcher F c D ch) (hash : Hash) (id : ℕ) (r : Result Bytes)
      → begin_with F c D ch hash f r ≡ (f', waits id)
      → Tracked F c D ch f' hash id
  unfolding begin_with
  waits-Tracked f f' hash id (ok b) e = absurd (cc)
  waits-Tracked f f' hash id panic e = absurd (cc)
  waits-Tracked f f' hash id (err x) e =
      ask_waits (push_waiter F c D ch hash f) f' hash (snapshot f.raft_registry) f.next id e
        (new-Tracked F c D ch f hash)

  woken :
      (f : Fetcher F c D ch) (hash : Hash) (id : ℕ) (data' : Bytes) (r : Result Hash)
      {stored : Hash}
      → r ≡ ok stored
      → contains id (waiters_of F c D ch f hash) ≡ true
      → HashMap.get id (wake F c D ch hash data' f r).0.channels ≡ some (sent data')
  unfolding wake take
  woken f hash id data' (ok x) e w =
      settle_member (sent data') id (waiters_of F c D ch f hash) f.channels (inr w)
  woken f hash id data' (err x) e w = absurd (cc)
  woken f hash id data' panic e w = absurd (cc)

  -- A fetch that waits goes on waiting among those of its hash, whatever other fetches begin, end
  -- or time out and whatever arrives meanwhile, unless its channel has got its end: where it has
  -- not, the next answer with data for the hash that the store takes ends the fetch with that data.
  pub fetch_answered :
      (f f' : Fetcher F c D ch) (hash : Hash) (id : ℕ) (ms : List (Move F c D ch)) (x : ℕ)
      (l : Bytes) (stored : Hash) (timed_out : Bool)
      → begin F c D ch f hash ≡ (f', waits id)
      → HashMap.get id (run F c D ch f' ms).channels ≡ some empty
      → (Store.put_blob F c D.digest (run F c D ch f' ms).store (x ∷ l)).1 ≡ ok stored
      → (finish F c D ch
          (on_blob_received F c D ch (run F c D ch f' ms) hash true (x ∷ l)).0
          hash
          id
          timed_out).1
        ≡ some (ok (x ∷ l))
  unfolding begin finish end_with on_blob_received
  fetch_answered f f' hash id ms x l stored timed_out e waiting put =
      let t = waits-Tracked f f' hash id (Store.get_blob F c f.store hash) e in
      let w = (run-Tracked F c D ch f' ms hash id t).known waiting in
      let g = run F c D ch f' ms in
      let r = Store.put_blob F c D.digest g.store (x ∷ l) in
      rw (woken (record g { store = r.0 }) hash id (x ∷ l) r.1 put w) refl

  -- Where two fetches of one hash wait, and the time of one is up, the other one ends with a
  -- network error when it is looked at again, though its own time is not up.
  pub timeout_ends_others :
      (f : Fetcher F c D ch) (hash : Hash) (id other : ℕ)
      → HashMap.get id f.channels ≡ some empty
      → contains other (waiters_of F c D ch f hash) ≡ true
      → (finish F c D ch (finish F c D ch f hash id true).0 hash other false).1 ≡ some (err network)
  unfolding finish end_with drop_waiter take
  timeout_ends_others f hash id other waiting w =
      rw waiting
        (rw (settle_member closed other (waiters_of F c D ch f hash) f.channels (inr w)) refl)
