-- ===== src/Raft/Storage.antt =====
-- storage.rs: the log of Raft over the object store, `CasRaftStorage`.
pub mod Interfaces
pub mod Reads
pub mod Log
pub mod Local
use edge_orchestrator.Common.{
  ℕ, zero, suc, ◌+◌, ◌-◌, ◌*◌, ◌^◌, ◌≡◌, Bool, true, false, ◌&&◌, Option, none, some, List, [], ◌∷◌,
  ◌++◌, Bytes, length, ltb, leb, ◌==◌, if◌then◌else◌,
}
use edge_orchestrator.Types.{Hash, CoreError, invalid_state, serialization}
use edge_orchestrator.Raft.{Entry}
use edge_orchestrator.Raft.Storage.Interfaces.{Result, ok, err, EntryCache, ObjectStore}

pub record HardState : Type 0 where
  pub term : ℕ
  pub vote : ℕ
  pub commit : ℕ

pub record ConfState : Type 0 where
  pub voters : List ℕ
  pub learners : List ℕ
  pub voters_outgoing : List ℕ
  pub auto_leave : Bool

abbrev pub default_hard_state : HardState
default_hard_state = record { term = 0; vote = 0; commit = 0 }

abbrev pub default_conf_state : ConfState
default_conf_state = record { voters = []; learners = []; voters_outgoing = []; auto_leave = false }

abbrev pub unwrap_or_default {ℓ} : {A : Type ℓ} → A → Option A → A
unwrap_or_default a none = a
unwrap_or_default a (some b) = b

-- `while hashes.len() <= idx { hashes.push(None) }; hashes[idx] = Some(hash)`
unfoldable pub set_hash : ℕ → Hash → List (Option Hash) → List (Option Hash)
set_hash zero h [] = some h ∷ []
set_hash zero h (x ∷ hashes) = some h ∷ hashes
set_hash (suc i) h [] = none ∷ set_hash i h []
set_hash (suc i) h (x ∷ hashes) = x ∷ set_hash i h hashes

-- `hashes.get(idx).cloned().flatten()`
pub hash_at : ℕ → List (Option Hash) → Option Hash
hash_at i [] = none
hash_at zero (x ∷ hashes) = x
hash_at (suc i) (x ∷ hashes) = hash_at i hashes

module _ (C : EntryCache) (O : ObjectStore) where
  pub record CasRaftStorage : Type 0 where
    pub object_store : O.Store
    pub entry_cache : C.Cache
    pub hard_state : Option HardState
    pub conf_state : Option ConfState
    pub first_index : ℕ
    pub last_index : ℕ
    pub entry_hashes : List (Option Hash)

  -- `cache` is `LruCache::new(1024)`
  unfoldable pub new_empty : O.Store → C.Cache → List ℕ → CasRaftStorage
  new_empty object_store cache voters = record {
    object_store = object_store;
    entry_cache = cache;
    hard_state = none;
    conf_state = some (record default_conf_state { voters = voters });
    first_index = 1;
    last_index = 0;
    entry_hashes = none ∷ [];
  }

  -- `new`: nothing is restored from the object store
  pub new : O.Store → C.Cache → CasRaftStorage
  new object_store cache = record {
    object_store = object_store;
    entry_cache = cache;
    hard_state = none;
    conf_state = none;
    first_index = 1;
    last_index = 0;
    entry_hashes = none ∷ [];
  }

  -- `append_entry`, after `put_blob`
  unfoldable pub append_stored :
      CasRaftStorage → Entry → O.Store × Result Hash → CasRaftStorage × Result (Unit {0})
  unfolding set_hash
  append_stored s entry (store, err e) = (record s { object_store = store }, err e)
  append_stored s entry (store, ok hash) = (
    record s {
      object_store = store;
      entry_hashes = set_hash entry.index hash s.entry_hashes;
      entry_cache = C.put s.entry_cache entry.index entry;
      last_index = if ltb s.last_index entry.index then entry.index else s.last_index;
    },
    ok tt,
  )

  unfoldable pub append_entry : CasRaftStorage → Entry → CasRaftStorage × Result (Unit {0})
  unfolding append_stored
  append_entry s entry = append_stored s entry (O.put_blob s.object_store entry.data')

  -- The text of a state goes into the object store, the state itself into its field.
  set_hard_stored :
      CasRaftStorage → HardState → O.Store × Result Hash → CasRaftStorage × Result (Unit {0})
  set_hard_stored s hs (store, err e) = (record s { object_store = store }, err e)
  set_hard_stored s hs (store, ok hash) =
      (record s { object_store = store; hard_state = some hs }, ok tt)

  -- `to_json` is the JSON of the term, the vote and the commit
  pub set_hard_state :
      (HardState → Option Bytes) → CasRaftStorage → HardState → CasRaftStorage × Result (Unit {0})
  unfolding set_hard_stored
  set_hard_state to_json s hs = elim (to_json hs) [
    | none ↦ (s, err serialization)
    | some d ↦ set_hard_stored s hs (O.put_blob s.object_store d)
  ]

  set_conf_stored :
      CasRaftStorage → ConfState → O.Store × Result Hash → CasRaftStorage × Result (Unit {0})
  set_conf_stored s cs (store, err e) = (record s { object_store = store }, err e)
  set_conf_stored s cs (store, ok hash) =
      (record s { object_store = store; conf_state = some cs }, ok tt)

  -- `to_json` is the JSON of the voters, the learners and auto_leave
  pub set_conf_state :
      (ConfState → Option Bytes) → CasRaftStorage → ConfState → CasRaftStorage × Result (Unit {0})
  unfolding set_conf_stored
  set_conf_state to_json s cs = elim (to_json cs) [
    | none ↦ (s, err serialization)
    | some d ↦ set_conf_stored s cs (O.put_blob s.object_store d)
  ]

  -- `for i in 1..=compact_index { cache.pop(&i); }`, from the last on
  pub pop_upto : ℕ → C.Cache → C.Cache
  pop_upto zero cache = cache
  pop_upto (suc i) cache = C.pop (pop_upto i cache) (suc i)

  pub compact : CasRaftStorage → ℕ → CasRaftStorage × Result (Unit {0})
  unfolding pop_upto
  compact s compact_index = if ltb s.last_index compact_index then (s, err invalid_state) else (
    record s {
      first_index = compact_index + 1;
      entry_cache = pop_upto compact_index s.entry_cache;
    },
    ok tt,
  )

  pub initial_state : CasRaftStorage → HardState × ConfState
  initial_state s = (
    unwrap_or_default default_hard_state s.hard_state,
    unwrap_or_default default_conf_state s.conf_state,
  )
