-- ===== src/Raft/Storage/Interfaces.antt =====
-- What the log storage uses: the cache of the crate lru, and the object store.
use edge_orchestrator.Common.{ℕ, ◌≡◌, ◌≢◌, ◌⊎◌, Option, none, some, Bytes}
use edge_orchestrator.Types.{Hash, CoreError}
use edge_orchestrator.Raft.{Entry}

pub data Result {ℓ} (A : Type ℓ) : Type ℓ where
  ok : A → Result A
  err : CoreError → Result A

-- `LruCache<u64, Entry>`: `peek` is what `get` returns, and `get` only makes its key the most
-- recent. A `put` may evict any other entry.
pub record EntryCache : Type 1 where
  pub Cache : Type 0
  pub peek : Cache → ℕ → Option Entry
  pub get : Cache → ℕ → Cache × Option Entry
  pub put : Cache → ℕ → Entry → Cache
  pub pop : Cache → ℕ → Cache
  pub peek-get : (c : Cache) (k j : ℕ) → peek (get c k).0 j ≡ peek c j
  pub get-eq-peek : (c : Cache) (k : ℕ) → (get c k).1 ≡ peek c k
  pub peek-put_eq : (c : Cache) (k : ℕ) (e : Entry) → peek (put c k e) k ≡ some e
  pub peek-put_ne :
      (c : Cache) (k j : ℕ) (e : Entry)
      → k ≢ j
      → (peek (put c k e) j ≡ peek c j) ⊎ (peek (put c k e) j ≡ none)
  pub peek-pop_eq : (c : Cache) (k : ℕ) → peek (pop c k) k ≡ none
  pub peek-pop_ne : (c : Cache) (k j : ℕ) → k ≢ j → peek (pop c k) j ≡ peek c j

-- The two operations of `LocalObjectStore` that the log uses; `get_blob` is `none` where it
-- returns an error. The hashes asked for were all returned by `put_blob`.
pub record ObjectStore : Type 1 where
  pub Store : Type 0
  pub put_blob : Store → Bytes → Store × Result Hash
  pub get_blob : Store → Hash → Option Bytes
  pub IsSound : Store → Type 0
  pub Storable : Bytes → Type 0
  -- a hash that the store may return
  pub IsName : Hash → Type 0
  pub put_blob-IsName : (s : Store) (d : Bytes) (h : Hash) → (put_blob s d).1 ≡ ok h → IsName h
  pub put_blob-IsSound :
      (s : Store) (d : Bytes) (h : Hash)
      → IsSound s
      → (put_blob s d).1 ≡ ok h
      → IsSound (put_blob s d).0
  pub get_blob-put_blob :
      (s : Store) (d : Bytes) (h : Hash)
      → IsSound s
      → Storable d
      → (put_blob s d).1 ≡ ok h
      → get_blob (put_blob s d).0 h ≡ some d
  pub get_blob_keeps :
      (s : Store) (x d : Bytes) (h : Hash)
      → IsName h
      → get_blob s h ≡ some d
      → get_blob (put_blob s x).0 h ≡ some d
