-- ===== src/Project/Fetch/Tracked.antt =====
-- The channel of a waiting fetch, over every run of the program.
use edge_orchestrator.Common.{
  ℕ, ◌<◌, ◌≡◌, ◌≢◌, ◌⊎◌, ◌∙◌, refl, sym, ap, inl, inr, Bool, true, false, ◌||◌, Option, none, some,
  List, [], ◌∷◌, ◌++◌, Bytes, Bytes-discrete, bytes_eq, arith, get_or_default, contains,
  contains-append, Bool-cases, ℕ_discrete, nat_eq,
}
use edge_orchestrator.Common.HashMap
use edge_orchestrator.Common.HashMap.{HashMap}
use edge_orchestrator.Common.Channel.{Channel}
use edge_orchestrator.Types.{Hash}
use edge_orchestrator.P2p.Messages.{PeerId, SwarmCommand}
use edge_orchestrator.Raft.Network.{snapshot}
use edge_orchestrator.Storage.Store
use edge_orchestrator.Storage.Store.Interfaces.{Result, ok, err, panic, FileSystem, Format, Digest}
use edge_orchestrator.Project.Fetch.{
  Oneshot, empty, sent, closed, settle, BlobFetcher, waiters_of, take, wake, on_blob_received,
  push_waiter, ask, begin, begin_with, end_with, finish, drop_waiter,
}

pub settle_member :
    (v : Oneshot) (id : ℕ) (is : List ℕ) (m : HashMap ℕ Oneshot)
    → (HashMap.get id m ≡ some v) ⊎ (contains id is ≡ true)
    → HashMap.get id (settle v is m) ≡ some v
unfolding settle contains
settle_member v id [] m (inl h) = h
settle_member v id [] m (inr h) = cc
settle_member v id (i ∷ is) m h = elim (ℕ_discrete i id) [
  | yes same ↦ settle_member v id is (HashMap.insert i v m) (inl (HashMap.get-insert_eq v m same))
  | no ne ↦ settle_member v id is (HashMap.insert i v m) (elim h [
    | inl there ↦ inl (HashMap.get-insert_ne v m ne ∙ there)
    | inr later ↦ inr (ground (arith, ne, later))
  ])
]

settle_other :
    (v : Oneshot) (id : ℕ) (is : List ℕ) (m : HashMap ℕ Oneshot)
    → contains id is ≡ false
    → HashMap.get id (settle v is m) ≡ HashMap.get id m
unfolding settle contains
settle_other v id [] m h = refl
settle_other v id (i ∷ is) m h = elim (ℕ_discrete i id) [
  | yes same ↦ absurd (ground (arith, same))
  | no ne ↦
      settle_other v id is (HashMap.insert i v m) (ground (arith, ne))
      ∙ HashMap.get-insert_ne v m ne
]

module _ (F : FileSystem) (c : Format) (D : Digest) (ch : Channel SwarmCommand) where
  abbrev pub Fetcher : Type 0
  Fetcher = BlobFetcher F c D ch

  -- A channel that is still empty stands among the waiters of its hash.
  pub record Tracked (f : Fetcher) (hash : Hash) (id : ℕ) : Type 0 where
    pub older : id < f.next
    pub known :
        HashMap.get id f.channels ≡ some empty → contains id (waiters_of F c D ch f hash) ≡ true

  -- What the program does with a fetcher.
  pub data Move : Type 0 where
    begins : Hash → Move
    receives : Hash → Bool → Bytes → Move
    finishes : Hash → ℕ → Bool → Move

  unfoldable pub perform : Fetcher → Move → Fetcher
  perform f (begins hash) = (begin F c D ch f hash).0
  perform f (receives hash found data') = (on_blob_received F c D ch f hash found data').0
  perform f (finishes hash id timed_out) = (finish F c D ch f hash id timed_out).0

  unfoldable pub run : Fetcher → List Move → Fetcher
  unfolding perform
  run f [] = f
  run f (m ∷ ms) = run (perform f m) ms

  take-Tracked :
      (f : Fetcher) (h hash : Hash) (id : ℕ) (v : Oneshot)
      → v ≢ empty
      → Tracked f hash id
      → Tracked (take F c D ch h v f) hash id
  unfolding take
  take-Tracked f h hash id v ne t = record {
    older = t.older;
    known = λ now. elim (Bool-cases (contains id (waiters_of F c D ch f h))) [
      | inl taken ↦ absurd (
          ne (
            let e = settle_member v id (waiters_of F c D ch f h) f.channels (inr taken) in
            cc (now, e)))
      | inr spared ↦
          (let before : HashMap.get id f.channels ≡ some empty =
              sym (settle_other v id (waiters_of F c D ch f h) f.channels spared) ∙ now in
            elim (Bytes-discrete h hash) [
              | yes same ↦
                  absurd (let w = t.known before in cc (w, spared, ap (waiters_of F c D ch f) same))
              | no other ↦
                  ap (λ (o : Option (List ℕ)). contains id (get_or_default o))
                    (HashMap.get-remove_ne f.waiters other)
                  ∙ t.known before
            ])
    ];
  }

  push-Tracked :
      (f : Fetcher) (h hash : Hash) (id : ℕ)
      → Tracked f hash id
      → Tracked (push_waiter F c D ch h f) hash id
  push-Tracked f h hash id t = record {
    older = let o = t.older in omega (arith, o);
    known = λ now.
        let before : HashMap.get id f.channels ≡ some empty =
          sym (
            HashMap.get-insert_ne empty f.channels
              (let o = t.older in λ (e : f.next ≡ id). omega (arith, o, e)))
          ∙ now in
        elim (Bytes-discrete h hash) [
          | yes same ↦
              ap (λ (o : Option (List ℕ)). contains id (get_or_default o))
                (HashMap.get-insert_eq (waiters_of F c D ch f h ++ f.next ∷ []) f.waiters same)
              ∙ contains-append id (waiters_of F c D ch f h) (f.next ∷ [])
              ∙ ap (λ (b : Bool). b || contains id (f.next ∷ []))
                  (ap (λ (k : Hash). contains id (waiters_of F c D ch f k)) same ∙ t.known before)
          | no other ↦
              ap (λ (o : Option (List ℕ)). contains id (get_or_default o))
                (HashMap.get-insert_ne (waiters_of F c D ch f h ++ f.next ∷ []) f.waiters other)
              ∙ t.known before
        ];
  }

  ask-Tracked :
      (f : Fetcher) (h hash : Hash) (id : ℕ) (peers : List (ℕ × PeerId)) (new_id : ℕ)
      → Tracked f hash id
      → Tracked (ask F c D ch h f peers new_id).0 hash id
  unfolding ask drop_waiter
  ask-Tracked f h hash id [] new_id t = take-Tracked f h hash id closed (λ e. cc) t
  ask-Tracked f h hash id (p ∷ ps) new_id t = record { older = t.older; known = t.known }

  begin-Tracked :
      (f : Fetcher) (h hash : Hash) (id : ℕ) (r : Result Bytes)
      → Tracked f hash id
      → Tracked (begin_with F c D ch h f r).0 hash id
  unfolding begin_with
  begin-Tracked f h hash id (ok b) t = t
  begin-Tracked f h hash id panic t = t
  begin-Tracked f h hash id (err e) t =
      ask-Tracked (push_waiter F c D ch h f) h hash id (snapshot f.raft_registry) f.next
        (push-Tracked f h hash id t)

  wake-Tracked :
      (f : Fetcher) (h hash : Hash) (id : ℕ) (data' : Bytes) (r : Result Hash)
      → Tracked f hash id
      → Tracked (wake F c D ch h data' f r).0 hash id
  unfolding wake
  wake-Tracked f h hash id data' (ok x) t = take-Tracked f h hash id (sent data') (λ e. cc) t
  wake-Tracked f h hash id data' (err e) t = t
  wake-Tracked f h hash id data' panic t = t

  receive-Tracked :
      (f : Fetcher) (h hash : Hash) (id : ℕ) (found : Bool) (data' : Bytes)
      → Tracked f hash id
      → Tracked (on_blob_received F c D ch f h found data').0 hash id
  unfolding on_blob_received
  receive-Tracked f h hash id false data' t = t
  receive-Tracked f h hash id true [] t = t
  receive-Tracked f h hash id true (x ∷ l) t =
      let put = Store.put_blob F c D.digest f.store (x ∷ l) in
      wake-Tracked (record f { store = put.0 }) h hash id (x ∷ l) put.1
        (record { older = t.older; known = t.known })

  end-Tracked :
      (f : Fetcher) (h hash : Hash) (id : ℕ) (timed_out : Bool) (o : Option Oneshot)
      → Tracked f hash id
      → Tracked (end_with F c D ch h f timed_out o).0 hash id
  unfolding end_with drop_waiter
  end-Tracked f h hash id timed_out (some (sent b)) t = t
  end-Tracked f h hash id timed_out (some closed) t = take-Tracked f h hash id closed (λ e. cc) t
  end-Tracked f h hash id true (some empty) t = take-Tracked f h hash id closed (λ e. cc) t
  end-Tracked f h hash id false (some empty) t = t
  end-Tracked f h hash id timed_out none t = t

  pub run-Tracked :
      (f : Fetcher) (ms : List Move) (hash : Hash) (id : ℕ)
      → Tracked f hash id
      → Tracked (run f ms) hash id
  unfolding run perform begin finish
  run-Tracked f [] hash id t = t
  run-Tracked f (begins h ∷ ms) hash id t =
      run-Tracked (perform f (begins h)) ms hash id
        (begin-Tracked f h hash id (Store.get_blob F c f.store h) t)
  run-Tracked f (receives h found data' ∷ ms) hash id t =
      run-Tracked (perform f (receives h found data')) ms hash id
        (receive-Tracked f h hash id found data' t)
  run-Tracked f (finishes h i timed_out ∷ ms) hash id t =
      run-Tracked (perform f (finishes h i timed_out)) ms hash id
        (end-Tracked f h hash id timed_out (HashMap.get i f.channels) t)

  pub new-Tracked : (f : Fetcher) (hash : Hash) → Tracked (push_waiter F c D ch hash f) hash f.next
  unfolding contains
  new-Tracked f hash = record {
    older = omega arith;
    known = λ now.
        ap (λ (o : Option (List ℕ)). contains f.next (get_or_default o))
          (HashMap.get-insert_eq (waiters_of F c D ch f hash ++ f.next ∷ []) f.waiters refl)
        ∙ contains-append f.next (waiters_of F c D ch f hash) (f.next ∷ [])
        ∙ ground arith;
  }
