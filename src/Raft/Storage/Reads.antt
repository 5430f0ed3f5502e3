-- ===== src/Raft/Storage/Reads.antt =====
-- storage.rs: what Raft reads from the log, `impl Storage for CasRaftStorage`.
pub mod Entries
pub mod Terms
use edge_orchestrator.Common.{
  ℕ, zero, suc, ◌+◌, ◌-◌, ◌*◌, ◌^◌, ◌≡◌, Bool, true, false, ◌&&◌, Option, none, some, List, [], ◌∷◌,
  ◌++◌, Bytes, length, ltb, leb, ◌==◌, if◌then◌else◌,
}
use edge_orchestrator.Types.{Hash}
use edge_orchestrator.Raft.{Entry}
use edge_orchestrator.Raft.Storage.Interfaces.{EntryCache, ObjectStore}
use edge_orchestrator.Raft.Storage.{
  CasRaftStorage, ConfState, default_conf_state, unwrap_or_default, hash_at,
}

-- `raft::Error::Store`
pub data StorageError : Type 0 where
  unavailable snapshot_temporarily_unavailable : StorageError

pub data Result {ℓ} (A : Type ℓ) : Type ℓ where
  ok : A → Result A
  err : StorageError → Result A
  panic : Result A

pub record Snapshot : Type 0 where
  pub data' : Bytes
  pub index : ℕ
  pub term : ℕ
  pub conf_state : ConfState

-- what a look-up of an index found
pub data Found : Type 0 where
  cached loaded : Entry → Found
  absent : Found

-- `u64::from_le_bytes` of the first eight bytes, if there are so many
abbrev pub first_term : Bytes → Option ℕ
first_term (a ∷ b ∷ c ∷ d ∷ e ∷ f ∷ g ∷ h ∷ rest) =
    some
      (a + b * 2 ^ 8 + c * 2 ^ 16 + d * 2 ^ 24 + e * 2 ^ 32 + f * 2 ^ 40 + g * 2 ^ 48 + h * 2 ^ 56)
first_term short = none

-- `!entries.is_empty() && total_size + size > limit`
abbrev pub over_limit : Option ℕ → Bool → ℕ → ℕ → Bool
over_limit none any total size = false
over_limit (some limit) any total size = any && ltb limit (total + size)

module _ (C : EntryCache) (O : ObjectStore) where
  load : O.Store → ℕ → Option Hash → Found
  load store idx none = absent
  load store idx (some hash) = elim (O.get_blob store hash) [
    | none ↦ absent
    | some d ↦ loaded (record { index = idx; term = 0; data' = d })
  ]

  -- the cache first, then the object store
  pub look_up : CasRaftStorage C O → C.Cache → ℕ → C.Cache × Found
  unfolding load hash_at
  look_up s cache idx =
      let (cache₁, hit) = C.get cache idx in
      (
        cache₁,
        elim hit [
          | some entry ↦ cached entry
          | none ↦ load s.object_store idx (hash_at idx s.entry_hashes)
        ],
      )

  -- an entry that was found ends the loop or stands before the rest
  pub push_entry :
      Option ℕ → Bool → ℕ → C.Cache → Entry → C.Cache × List Entry → C.Cache × List Entry
  push_entry max_size any total cache entry (cache', rest) =
      if over_limit max_size any total (length entry.data')
      then (cache, [])
      else (cache', entry ∷ rest)

  -- the loop of `entries` from `idx` on, for so many more indices
  pub collect :
      CasRaftStorage C O → Option ℕ → C.Cache → (n idx total : ℕ) → Bool → C.Cache × List Entry
  unfolding look_up push_entry
  collect s max_size cache zero idx total any = (cache, [])
  collect s max_size cache (suc n) idx total any =
      let cache₁ = (look_up s cache idx).0 in
      elim (look_up s cache idx).1 [
        | absent ↦ collect s max_size cache₁ n (suc idx) total any
        | cached entry ↦
            push_entry max_size any total cache₁ entry
              (collect s max_size cache₁ n (suc idx) (total + length entry.data') true)
        | loaded entry ↦ push_entry max_size any total cache₁ entry (
            collect s max_size (C.put cache₁ idx entry) n (suc idx) (total + length entry.data')
              true)
      ]

  pub entries :
      CasRaftStorage C O → (low high : ℕ) → Option ℕ → CasRaftStorage C O × Result (List Entry)
  unfolding collect
  entries s low high max_size =
      if ltb (s.last_index + 1) high
      then (s, panic)
      else (let (cache, found) = collect s max_size s.entry_cache (high - low) low 0 false in
          (record s { entry_cache = cache }, ok found))

  pub term_of : CasRaftStorage C O → ℕ → Option Entry → Result ℕ
  term_of s idx (some entry) = ok entry.term
  term_of s idx none = elim (hash_at idx s.entry_hashes) [
    | none ↦ err unavailable
    | some hash ↦ elim (O.get_blob s.object_store hash) [
      | none ↦ err unavailable
      | some d ↦ elim (first_term d) [ none ↦ err unavailable | some t ↦ ok t ]
    ]
  ]

  -- `first_index` is at least 1.
  pub term : CasRaftStorage C O → ℕ → CasRaftStorage C O × Result ℕ
  unfolding term_of
  term s idx =
      if ltb idx (s.first_index - 1)
      then (s, err unavailable)
      else if idx == s.first_index - 1
      then (s, ok 0)
      else (let (cache, hit) = C.get s.entry_cache idx in
          (record s { entry_cache = cache }, term_of s idx hit))

  -- the data of the entries up to an index, each with a line feed behind it
  pub snapshot_data : CasRaftStorage C O → ℕ → Bytes
  unfolding hash_at
  snapshot_data s zero = []
  snapshot_data s (suc i) =
      let before = snapshot_data s i in
      elim (hash_at (suc i) s.entry_hashes) [
        | none ↦ before
        | some hash ↦ elim (O.get_blob s.object_store hash) [
          | none ↦ before
          | some d ↦ before ++ (d ++ 10 ∷ [])
        ]
      ]

  pub snapshot : CasRaftStorage C O → ℕ → Result Snapshot
  unfolding snapshot_data
  snapshot s request_index =
      if ltb s.last_index request_index
      then err snapshot_temporarily_unavailable
      else ok (record {
        data' = snapshot_data s s.last_index;
        index = s.last_index;
        term = 1;
        conf_state = unwrap_or_default default_conf_state s.conf_state;
      })
