-- ===== src/Tests/Raft.antt =====
-- The log over a store in memory, with a cache of one entry.
use edge_orchestrator.Common.{
  ℕ, ◌+◌, ◌-◌, ◌≤◌, ◌<◌, ◌≡◌, ◌≢◌, refl, ◌⊎◌, inl, inr, false, Option, none, some, List, [], ◌∷◌,
  Bytes-discrete, ℕ_discrete, arith,
}
use edge_orchestrator.Types.{CoreError}
use edge_orchestrator.Storage.Store.{
  put_blob, write_file, encode, write_encoded, write_at, write_object, after_write,
}
use edge_orchestrator.Storage.Store.Interfaces.{object_path}
use edge_orchestrator.Storage.Store.Writes.{Path'-discrete}
use edge_orchestrator.Storage.Objects.{hash_blob}
use edge_orchestrator.Storage.Decimal.{show_decimal}
use edge_orchestrator.Raft.{Entry}
use edge_orchestrator.Raft.Storage.{CasRaftStorage, new_empty, append_stored, append_entry, compact}
use edge_orchestrator.Raft.Storage.Interfaces.{EntryCache, ObjectStore, ok, err}
use edge_orchestrator.Raft.Storage.Local.{local_store, put}
use edge_orchestrator.Raft.Storage.Log.{
  Log, extend, Follows, append_entry-Follows, Compacts, compact-Compacts, new_empty-Follows,
}
use edge_orchestrator.Raft.Storage.Reads.{panic, entries, term}
use edge_orchestrator.Raft.Storage.Reads as Reads
use edge_orchestrator.Raft.Storage.Reads.Entries.{limited, logged, AllStand, entries-limited}
use edge_orchestrator.Raft.Storage.Reads.Terms.{term_evicted}
use edge_orchestrator.Tests.Stores.{
  memory, tiny, marked, content, marked_unique, clock, no_files, no_files-IsSound, no_such_tag,
}

abbrev One : Type 0
One = Option (ℕ × Entry)

abbrev peek_one : One → ℕ → Option Entry
peek_one none k = none
peek_one (some (j, e)) k = elim (ℕ_discrete j k) [ yes _ ↦ some e | no _ ↦ none ]

abbrev pop_one : One → ℕ → One
pop_one none k = none
pop_one (some (j, e)) k = elim (ℕ_discrete j k) [ yes _ ↦ none | no _ ↦ some (j, e) ]

pub put_eq : (k : ℕ) (e : Entry) → peek_one (some (k, e)) k ≡ some e
put_eq k e = ground arith

pub put_ne :
    (c : One) (k j : ℕ) (e : Entry)
    → k ≢ j
    → (peek_one (some (k, e)) j ≡ peek_one c j) ⊎ (peek_one (some (k, e)) j ≡ none)
put_ne c k j e ne = inr (ground arith)

pub pop_eq : (c : One) (k : ℕ) → peek_one (pop_one c k) k ≡ none
pop_eq none k = refl
pop_eq (some (j, e)) k = ground arith

pub pop_ne : (c : One) (k j : ℕ) → k ≢ j → peek_one (pop_one c k) j ≡ peek_one c j
pop_ne none k j ne = refl
pop_ne (some (i, e)) k j ne = ground arith

abbrev one : EntryCache
one = record {
  Cache = One;
  peek = peek_one;
  get = λ c k. (c, peek_one c k);
  put = λ c k e. some (k, e);
  pop = pop_one;
  peek-get = λ c k j. refl;
  get-eq-peek = λ c k. refl;
  peek-put_eq = λ c k e. put_eq k e;
  peek-put_ne = put_ne;
  peek-pop_eq = pop_eq;
  peek-pop_ne = pop_ne;
}

abbrev store : ObjectStore
store = local_store memory tiny marked clock (λ fs p z e. e)

abbrev entry : ℕ → Entry
entry i = record { index = i; term = 7; data' = content }

abbrev s₀ : CasRaftStorage one store
unfolding local_store
s₀ = new_empty one store no_files none (1 ∷ 2 ∷ 3 ∷ [])

abbrev log₀ : Log
log₀ i = none

s₀-Follows : Follows one store s₀ log₀
unfolding local_store
s₀-Follows = new_empty-Follows one store no_files none (1 ∷ 2 ∷ 3 ∷ []) (λ i. refl)

abbrev s₁ : CasRaftStorage one store
s₁ = (append_entry one store s₀ (entry 1)).0

appended : (append_entry one store s₀ (entry 1)).1 ≡ ok tt
unfolding local_store append_entry append_stored new_empty put put_blob object_path write_file
    encode write_encoded write_at write_object after_write hash_blob Bytes-discrete ℕ_discrete
    show_decimal Path'-discrete
appended = refl

append_entry-Follows_example :
    (((append_entry one store s₀ (entry 1)).1 ≡ ok tt)
      × Follows one store s₁ (extend log₀ (entry 1))
      × store.IsSound s₁.object_store)
    ⊎ ((x : CoreError) × ((append_entry one store s₀ (entry 1)).1 ≡ err x)
        × Follows one store s₁ log₀)
unfolding local_store new_empty
append_entry-Follows_example =
    append_entry-Follows one store s₀ log₀ (entry 1) s₀-Follows no_files-IsSound
      (marked_unique, no_such_tag)

s₁-both : Follows one store s₁ (extend log₀ (entry 1)) × store.IsSound s₁.object_store
s₁-both = elim append_entry-Follows_example [
  | inl (done, follows, sound) ↦ (follows, sound)
  | inr (x, failed, same) ↦ absurd (cc (failed, appended))
]

compact-Compacts_example :
    Compacts one store s₁ (extend log₀ (entry 1)) 1 1 (compact one store s₁ 1)
compact-Compacts_example = compact-Compacts one store s₁ (extend log₀ (entry 1)) 1 1 s₁-both.0

entries-limited_example :
    ((2 ≤ s₁.last_index + 1)
      × ((es : List Entry) × ((entries one store s₁ 1 2 none).1 ≡ Reads.ok es)
          × AllStand (limited none 0 false (logged (extend log₀ (entry 1)) (2 - 1) 1)) es)
      × Follows one store (entries one store s₁ 1 2 none).0 (extend log₀ (entry 1)))
    ⊎ ((s₁.last_index + 1 < 2) × (entries one store s₁ 1 2 none ≡ (s₁, panic)))
entries-limited_example = entries-limited one store s₁ (extend log₀ (entry 1)) s₁-both.0 1 2 none

abbrev s₂ : CasRaftStorage one store
s₂ = (append_entry one store s₁ (entry 2)).0

appended_again : (append_entry one store s₁ (entry 2)).1 ≡ ok tt
unfolding local_store append_entry append_stored new_empty put put_blob object_path write_file
    encode write_encoded write_at write_object after_write hash_blob Bytes-discrete ℕ_discrete
    show_decimal Path'-discrete
appended_again = refl

abbrev log₂ : Log
log₂ = extend (extend log₀ (entry 1)) (entry 2)

s₂-Follows : Follows one store s₂ log₂
unfolding local_store
s₂-Follows =
    elim (append_entry-Follows one store s₁ (extend log₀ (entry 1)) (entry 2) s₁-both.0 s₁-both.1
      (marked_unique, no_such_tag)) [
        | inl (done, follows, sound) ↦ follows
        | inr (x, failed, same) ↦ absurd (cc (failed, appended_again))
      ]

entry_1_logged : log₂ 1 ≡ some (entry 1)
unfolding ℕ_discrete
entry_1_logged = refl

entry_1_evicted : peek_one s₂.entry_cache 1 ≡ none
unfolding local_store append_entry append_stored new_empty put put_blob object_path write_file
    encode write_encoded write_at write_object after_write hash_blob Bytes-discrete ℕ_discrete
    show_decimal Path'-discrete
entry_1_evicted = refl

first_is_1 : s₂.first_index ≡ 1
unfolding local_store append_entry append_stored new_empty put put_blob object_path write_file
    encode write_encoded write_at write_object after_write hash_blob Bytes-discrete ℕ_discrete
    show_decimal Path'-discrete
first_is_1 = refl

-- the entry's term is not the number that its data begin with
term_evicted_example : (term one store s₂ 1).1 ≡ Reads.ok 1
term_evicted_example =
    term_evicted one store s₂ log₂ s₂-Follows 1 (entry 1) entry_1_logged (omega (arith, first_is_1))
      (omega (arith, first_is_1)) 1 [] entry_1_evicted refl (omega arith)
