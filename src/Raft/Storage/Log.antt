-- ===== src/Raft/Storage/Log.antt =====
-- What the storage keeps of the log, through appending and compacting.
use edge_orchestrator.Common.{
  ℕ, zero, suc, ◌≤◌, ◌≡◌, ◌≢◌, refl, subst, ap, sym, ◌∙◌, ◌⊎◌, inl, inr, Option, none, some, List,
  [], ◌∷◌, Bytes, ltb, leb, ◌&&◌, ◌+◌, ◌<◌, if◌then◌else◌, ℕ_discrete, arith, Bool-cases,
}
use edge_orchestrator.Types.{Hash, CoreError, invalid_state}
use edge_orchestrator.Raft.{Entry}
use edge_orchestrator.Raft.Storage.Interfaces.{Result, ok, err, EntryCache, ObjectStore}
use edge_orchestrator.Raft.Storage.{
  CasRaftStorage, set_hash, hash_at, append_stored, append_entry, pop_upto, compact, new_empty,
}

-- The entry last appended at an index.
abbrev pub Log : Type 0
Log = ℕ → Option Entry

abbrev pub extend : Log → Entry → Log
extend log e i = elim (ℕ_discrete e.index i) [ yes _ ↦ some e | no _ ↦ log i ]

pub hash_at-set_hash_eq :
    (i : ℕ) (h : Hash) (l : List (Option Hash)) → hash_at i (set_hash i h l) ≡ some h
unfolding hash_at set_hash
hash_at-set_hash_eq zero h [] = refl
hash_at-set_hash_eq zero h (x ∷ l) = refl
hash_at-set_hash_eq (suc i) h [] = hash_at-set_hash_eq i h []
hash_at-set_hash_eq (suc i) h (x ∷ l) = hash_at-set_hash_eq i h l

pub hash_at-set_hash_ne :
    (i j : ℕ) (h : Hash) (l : List (Option Hash)) → i ≢ j → hash_at j (set_hash i h l) ≡ hash_at j l
unfolding hash_at set_hash
hash_at-set_hash_ne zero zero h l ne = absurd (ne refl)
hash_at-set_hash_ne zero (suc j) h [] ne = refl
hash_at-set_hash_ne zero (suc j) h (x ∷ l) ne = refl
hash_at-set_hash_ne (suc i) zero h [] ne = refl
hash_at-set_hash_ne (suc i) zero h (x ∷ l) ne = refl
hash_at-set_hash_ne (suc i) (suc j) h [] ne = hash_at-set_hash_ne i j h [] (λ e. ne (ap suc e))
hash_at-set_hash_ne (suc i) (suc j) h (x ∷ l) ne = hash_at-set_hash_ne i j h l (λ e. ne (ap suc e))

-- A read entry stands for the logged one: its term may be lost.
pub record Stands (e read : Entry) : Type 0 where
  pub index : read.index ≡ e.index
  pub data' : read.data' ≡ e.data'
  pub term : (read.term ≡ e.term) ⊎ (read.term ≡ 0)

no_hash : (i : ℕ) → hash_at i (none ∷ []) ≡ none
unfolding hash_at
no_hash zero = refl
no_hash (suc i) = refl

pub Stands-self : (e : Entry) → Stands e e
Stands-self e = record { index = refl; data' = refl; term = inl refl }

Result-cases {ℓ} :
    {A : Type ℓ} (r : Result A) → ((a : A) × (r ≡ ok a)) ⊎ ((x : CoreError) × (r ≡ err x))
Result-cases (ok a) = inl (a, refl)
Result-cases (err x) = inr (x, refl)

module _ (C : EntryCache) (O : ObjectStore) where
  -- The entries that the storage holds are those of the log, one for each index.
  pub record Follows (s : CasRaftStorage C O) (log : Log) : Type 0 where
    pub stored :
        (i : ℕ) (e : Entry)
        → log i ≡ some e
        → (h : Hash) × (hash_at i s.entry_hashes ≡ some h)
          × O.IsName h
          × (O.get_blob s.object_store h ≡ some e.data')
    pub unlogged : (i : ℕ) → log i ≡ none → hash_at i s.entry_hashes ≡ none
    pub cached :
        (i : ℕ) (c : Entry)
        → C.peek s.entry_cache i ≡ some c
        → (e : Entry) × (log i ≡ some e) × Stands e c
    pub placed : (i : ℕ) (e : Entry) → log i ≡ some e → (e.index ≡ i) × (i ≤ s.last_index)

  append_stored-Follows :
      (s : CasRaftStorage C O) (log : Log) (e : Entry) (store : O.Store) (h : Hash)
      → Follows s log
      → O.IsName h
      → O.get_blob store h ≡ some e.data'
      → ((g : Hash) (d : Bytes)
          → O.IsName g
          → O.get_blob s.object_store g ≡ some d
          → O.get_blob store g ≡ some d)
      → Follows (append_stored C O s e (store, ok h)).0 (extend log e)
  unfolding append_stored
  append_stored-Follows s log e store h f name new keeps = record {
    stored = λ i x at. elim (ℕ_discrete e.index i) [
      | yes here ↦ (
        h,
        ap (λ k. hash_at i (set_hash k h s.entry_hashes)) here
            ∙ hash_at-set_hash_eq i h s.entry_hashes,
        name,
        ground (arith, new),
      )
      | no other ↦
          (let (g, a, n, b) = f.stored i x (ground arith) in
            (g, hash_at-set_hash_ne e.index i h s.entry_hashes other ∙ a, n, keeps g x.data' n b))
    ];
    unlogged = λ i at. elim (ℕ_discrete e.index i) [
      | yes here ↦ absurd (ground arith)
      | no other ↦
          hash_at-set_hash_ne e.index i h s.entry_hashes other ∙ f.unlogged i (ground arith)
    ];
    cached = λ i c at. elim (ℕ_discrete e.index i) [
      | yes here ↦
          (let same : e ≡ c = cc (
            C.peek-put_eq s.entry_cache e.index e,
            at,
            ap (C.peek (C.put s.entry_cache e.index e)) here,
          ) in
            (e, ground arith, subst (Stands e) same (Stands-self e)))
      | no other ↦ elim (C.peek-put_ne s.entry_cache e.index i e other) [
        | inl kept ↦ (let (x, a, b) = f.cached i c (sym kept ∙ at) in (x, ground (arith, a), b))
        | inr gone ↦ absurd (cc (gone, at))
      ]
    ];
    placed = λ i x at. elim (ℕ_discrete e.index i) [
      | yes here ↦ ground arith
      | no other ↦ (let (a, b) = f.placed i x (ground arith) in (a, ground arith))
    ];
  }

  append_failed-Follows :
      (s : CasRaftStorage C O) (log : Log) (e : Entry) (store : O.Store) (x : CoreError)
      → Follows s log
      → ((g : Hash) (d : Bytes)
          → O.IsName g
          → O.get_blob s.object_store g ≡ some d
          → O.get_blob store g ≡ some d)
      → Follows (append_stored C O s e (store, err x)).0 log
  unfolding append_stored
  append_failed-Follows s log e store x f keeps = record {
    stored = λ i y at. (let (g, a, n, b) = f.stored i y at in (g, a, n, keeps g y.data' n b));
    unlogged = f.unlogged;
    cached = f.cached;
    placed = f.placed;
  }

  -- Appending an entry to a storage that follows a log, over a sound object store: either it
  -- succeeds, and then the storage follows the log with the entry at its index, in place of what
  -- was there, over a sound store; or it fails, and the storage follows the log as it was.
  pub append_entry-Follows :
      (s : CasRaftStorage C O) (log : Log) (e : Entry)
      → Follows s log
      → O.IsSound s.object_store
      → O.Storable e.data'
      → (((append_entry C O s e).1 ≡ ok tt)
          × Follows (append_entry C O s e).0 (extend log e)
          × O.IsSound (append_entry C O s e).0.object_store)
        ⊎ ((x : CoreError) × ((append_entry C O s e).1 ≡ err x)
            × Follows (append_entry C O s e).0 log)
  unfolding append_entry
  append_entry-Follows s log e f sound storable =
      let st = s.object_store in
      let d = e.data' in
      let keeps : (g : Hash) (y : Bytes)
          → O.IsName g
          → O.get_blob st g ≡ some y
          → O.get_blob (O.put_blob st d).0 g ≡ some y =
        λ g y n held. O.get_blob_keeps st d y g n held in
      elim (Result-cases (O.put_blob st d).1) [
        | inl (h, done) ↦
            rw (done, append_stored)
              (inl (
                refl,
                append_stored-Follows s log e (O.put_blob st d).0 h f
                    (O.put_blob-IsName st d h done) (O.get_blob-put_blob st d h sound storable done)
                    keeps,
                O.put_blob-IsSound st d h sound done,
              ))
        | inr (x, failed) ↦
            rw (failed, append_stored)
              (inr (x, refl, append_failed-Follows s log e (O.put_blob st d).0 x f keeps))
      ]

  pop_upto_kept :
      (n : ℕ) (c : C.Cache) (i : ℕ) (e : Entry)
      → C.peek (pop_upto C O n c) i ≡ some e
      → C.peek c i ≡ some e
  unfolding pop_upto
  pop_upto_kept zero c i e h = h
  pop_upto_kept (suc n) c i e h = elim (ℕ_discrete (suc n) i) [
    | yes here ↦ absurd (cc (C.peek-pop_eq (pop_upto C O n c) (suc n), h, here))
    | no other ↦ pop_upto_kept n c i e (sym (C.peek-pop_ne (pop_upto C O n c) (suc n) i other) ∙ h)
  ]

  peek-pop_upto :
      (n : ℕ) (c : C.Cache) (i : ℕ)
      → C.peek (pop_upto C O n c) i ≡ (if leb 1 i && leb i n then none else C.peek c i)
  unfolding pop_upto
  peek-pop_upto zero c i = ground arith
  peek-pop_upto (suc n) c i = elim (ℕ_discrete (suc n) i) [
    | yes here ↦
        ap (C.peek (pop_upto C O (suc n) c)) (sym here)
        ∙ C.peek-pop_eq (pop_upto C O n c) (suc n)
        ∙ ground (arith, here)
    | no other ↦
        C.peek-pop_ne (pop_upto C O n c) (suc n) i other
        ∙ peek-pop_upto n c i
        ∙ ground (arith, other)
  ]

  -- What a compaction up to `n` comes to, for the entry at `i`.
  abbrev pub Compacts :
      CasRaftStorage C O → Log → ℕ → ℕ → CasRaftStorage C O × Result (Unit {0}) → Type 0
  Compacts s log n i (s', err x) = (s.last_index < n) × (x ≡ invalid_state) × (s' ≡ s)
  Compacts s log n i (s', ok done) =
      (n ≤ s.last_index)
      × (s'.first_index ≡ n + 1)
      × (s'.last_index ≡ s.last_index)
      × (C.peek s'.entry_cache i ≡ (if leb 1 i && leb i n then none else C.peek s.entry_cache i))
      × Follows s' log

  -- A compaction beyond the last index is refused and changes nothing. Any other makes the log begin
  -- after the index and drops from the cache the entries from 1 up to it, and those only; but every
  -- entry of the log, those up to the index too, stays in the object store under its recorded hash.
  pub compact-Compacts :
      (s : CasRaftStorage C O) (log : Log) (n i : ℕ)
      → Follows s log
      → Compacts s log n i (compact C O s n)
  unfolding compact
  compact-Compacts s log n i f = elim (Bool-cases (ltb s.last_index n)) [
    | inl beyond ↦ rw beyond (ground arith, refl, refl)
    | inr within ↦ rw within (
      ground arith,
      refl,
      refl,
      peek-pop_upto n s.entry_cache i,
      record {
        stored = f.stored;
        unlogged = f.unlogged;
        cached = λ k c at. f.cached k c (pop_upto_kept n s.entry_cache k c at);
        placed = f.placed;
      },
    )
  ]

  -- A new storage follows the empty log.
  pub new_empty-Follows :
      (store : O.Store) (cache : C.Cache) (voters : List ℕ)
      → ((i : ℕ) → C.peek cache i ≡ none)
      → Follows (new_empty C O store cache voters) (λ i. none)
  unfolding new_empty hash_at
  new_empty-Follows store cache voters empty = record {
    stored = λ i e at. absurd (cc);
    unlogged = λ i at. no_hash i;
    cached = λ i c at. absurd (cc (empty i, at));
    placed = λ i e at. absurd (cc);
  }
