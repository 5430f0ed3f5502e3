-- ===== src/Raft/Storage/Reads/Entries.antt =====
-- What `entries` returns of the log.
use edge_orchestrator.Common.{
  not, leb, ℕ, zero, suc, ◌+◌, ◌-◌, ◌≤◌, ◌<◌, ◌≡◌, refl, subst, ap, sym, ◌∙◌, ◌⊎◌, inl, inr, Bool,
  true, false, Option, none, some, List, [], ◌∷◌, length, ltb, arith, ℕ_discrete, Bool-cases,
  Option-cases, if◌then◌else◌,
}
use edge_orchestrator.Raft.{Entry}
use edge_orchestrator.Raft.Storage.Interfaces.{EntryCache, ObjectStore}
use edge_orchestrator.Raft.Storage.{CasRaftStorage}
use edge_orchestrator.Raft.Storage.Log.{Log, Stands, Follows}
use edge_orchestrator.Raft.Storage.Reads.{
  ok, panic, Found, cached, loaded, absent, load, look_up, over_limit, push_entry, collect, entries,
}

-- the logged entries from an index on, among so many indices
pub logged : Log → (n idx : ℕ) → List Entry
logged log zero idx = []
logged log (suc n) idx =
    let rest = logged log n (suc idx) in elim (log idx) [ none ↦ rest | some e ↦ e ∷ rest ]

-- The first entry of an answer is allowed, and another while the size stays within the limit.
abbrev pub allowed : Option ℕ → Bool → ℕ → Bool
allowed max_size false size = true
allowed none true size = true
allowed (some limit) true size = leb size limit

-- As many entries from the front as the limit allows: `size` is that of the ones before, and
-- `any` whether there were some.
pub limited : Option ℕ → (size : ℕ) → Bool → List Entry → List Entry
limited max_size size any [] = []
limited max_size size any (e ∷ es) =
    let size₁ = size + length e.data' in
    let rest = limited max_size size₁ true es in if allowed max_size any size₁ then e ∷ rest else []

over-allowed :
    (max_size : Option ℕ) (any : Bool) (total size : ℕ)
    → over_limit max_size any total size ≡ not (allowed max_size any (total + size))
over-allowed none true total size = refl
over-allowed none false total size = refl
over-allowed (some limit) false total size = refl
over-allowed (some limit) true total size = ground arith

-- One by one, the second entries stand for the first.
abbrev pub AllStand : List Entry → List Entry → Type 0
AllStand [] [] = Unit {0}
AllStand [] (r ∷ rs) = ⊥
AllStand (e ∷ es) [] = ⊥
AllStand (e ∷ es) (r ∷ rs) = Stands e r × AllStand es rs

-- what a look-up may find for what is in the log
abbrev Finds : Option Entry → Found → Type 0
Finds none absent = Unit {0}
Finds none (cached r) = ⊥
Finds none (loaded r) = ⊥
Finds (some e) absent = ⊥
Finds (some e) (cached r) = Stands e r
Finds (some e) (loaded r) = Stands e r

module _ (C : EntryCache) (O : ObjectStore) where
  -- Cached entries stand for those of the log.
  abbrev CacheFollows : C.Cache → Log → Type 0
  CacheFollows cache log =
      (i : ℕ) (c : Entry) → C.peek cache i ≡ some c → (e : Entry) × (log i ≡ some e) × Stands e c

  put-CacheFollows :
      (cache : C.Cache) (log : Log) (i : ℕ) (e r : Entry)
      → CacheFollows cache log
      → log i ≡ some e
      → Stands e r
      → CacheFollows (C.put cache i r) log
  put-CacheFollows cache log i e r f at stands j c held = elim (ℕ_discrete i j) [
    | yes here ↦
        (let same : r ≡ c = cc (C.peek-put_eq cache i r, held, here) in
          (e, cc (at, here), subst (Stands e) same stands))
    | no other ↦ elim (C.peek-put_ne cache i j r other) [
      | inl kept ↦ f j c (sym kept ∙ held)
      | inr gone ↦ absurd (cc (gone, held))
    ]
  ]

  module _ (s : CasRaftStorage C O) (log : Log) (f : Follows C O s log) where
    look_up-CacheFollows :
        (cache : C.Cache) (i : ℕ)
        → CacheFollows cache log
        → CacheFollows (look_up C O s cache i).0 log
    unfolding look_up
    look_up-CacheFollows cache i g j c held = g j c (sym (C.peek-get cache i j) ∙ held)

    look_up-Finds :
        (cache : C.Cache) (i : ℕ) → CacheFollows cache log → Finds (log i) (look_up C O s cache i).1
    unfolding look_up load
    look_up-Finds cache i g = elim (Option-cases (C.peek cache i)) [
      | inr (c, hit) ↦
          (let (e, at, stands) = g i c hit in
            rw at (rw (C.get-eq-peek cache i, look_up) (rw hit stands)))
      | inl miss ↦ elim (Option-cases (log i)) [
        | inl nothing ↦
            rw nothing
              (rw (C.get-eq-peek cache i, look_up) (rw miss (rw (f.unlogged i nothing, load) tt)))
        | inr (e, at) ↦
            (let (h, hashed, _, held) = f.stored i e at in
              let placed = (f.placed i e at).0 in
              rw at (
                rw (C.get-eq-peek cache i, look_up)
                  (rw miss (
                    rw (hashed, load)
                      (rw held (record { index = sym placed; data' = refl; term = inr refl }))))))
      ]
    ]

    -- The round of an entry that was found, before a rest that is right.
    push_entry-AllStand :
        (max_size : Option ℕ) (any : Bool) (total : ℕ) (cache : C.Cache) (e r : Entry)
        (rest : C.Cache × List Entry) (es : List Entry)
        → Stands e r
        → CacheFollows cache log
        → CacheFollows rest.0 log
        → AllStand (limited max_size (total + length r.data') true es) rest.1
        → CacheFollows (push_entry C O max_size any total cache r rest).0 log
          × AllStand
              (limited max_size total any (e ∷ es))
              (push_entry C O max_size any total cache r rest).1
    unfolding push_entry limited
    push_entry-AllStand max_size any total cache e r rest es stands g g' all =
        let size : length r.data' ≡ length e.data' = ap length stands.data' in
        let test : over_limit max_size any total (length r.data')
            ≡ not (allowed max_size any (total + length e.data')) =
          over-allowed max_size any total (length r.data')
          ∙ ap (λ k. not (allowed max_size any (total + k))) size in
        elim (Bool-cases (allowed max_size any (total + length e.data'))) [
          | inr over ↦ rw over (rw (test ∙ ap not over) (g, tt))
          | inl within ↦ rw within (
              rw (test ∙ ap not within) (
                g',
                (
                  stands,
                  subst (λ k. AllStand (limited max_size (total + k) true es) rest.1) size all,
                ),
              ))
        ]

    -- What is to be shown of the loop from one index on.
    abbrev Collects : Option ℕ → (n idx : ℕ) → Type 0
    Collects max_size n idx =
        (cache : C.Cache) (total : ℕ) (any : Bool)
        → CacheFollows cache log
        → CacheFollows (collect C O s max_size cache n idx total any).0 log
          × AllStand (limited max_size total any (logged log n idx))
              (collect C O s max_size cache n idx total any).1

    round :
        (max_size : Option ℕ) (n idx : ℕ)
        → Collects max_size n (suc idx)
        → (o : Option Entry) (x : Found) (cache : C.Cache) (total : ℕ) (any : Bool) → log idx ≡ o
        → (look_up C O s cache idx).1 ≡ x
        → Finds o x
        → CacheFollows cache log
        → CacheFollows (collect C O s max_size cache (suc n) idx total any).0 log
          × AllStand
              (limited max_size total any (logged log (suc n) idx))
              (collect C O s max_size cache (suc n) idx total any).1
    unfolding collect logged
    round max_size n idx ih none absent cache total any at found w g =
        let cache₁ : C.Cache = (look_up C O s cache idx).0 in
        rw (at, logged)
          (rw (found, collect) (ih cache₁ total any (look_up-CacheFollows cache idx g)))
    round max_size n idx ih none (cached r) cache total any at found w g = absurd w
    round max_size n idx ih none (loaded r) cache total any at found w g = absurd w
    round max_size n idx ih (some e) absent cache total any at found w g = absurd w
    round max_size n idx ih (some e) (cached r) cache total any at found w g =
        let cache₁ : C.Cache = (look_up C O s cache idx).0 in
        let g₁ : CacheFollows cache₁ log = look_up-CacheFollows cache idx g in
        let (g', all) = ih cache₁ (total + length r.data') true g₁ in
        rw (at, logged)
          (rw (found, collect)
            (push_entry-AllStand max_size any total cache₁ e r _ (logged log n (suc idx)) w g₁ g'
              all))
    round max_size n idx ih (some e) (loaded r) cache total any at found w g =
        let cache₁ : C.Cache = (look_up C O s cache idx).0 in
        let g₁ : CacheFollows cache₁ log = look_up-CacheFollows cache idx g in
        let (g', all) =
          ih (C.put cache₁ idx r) (total + length r.data') true
            (put-CacheFollows cache₁ log idx e r g₁ at w) in
        rw (at, logged)
          (rw (found, collect)
            (push_entry-AllStand max_size any total cache₁ e r _ (logged log n (suc idx)) w g₁ g'
              all))

    collect-Collects : (max_size : Option ℕ) (n idx : ℕ) → Collects max_size n idx
    unfolding collect logged limited
    collect-Collects max_size zero idx cache total any g = (g, tt)
    collect-Collects max_size (suc n) idx cache total any g =
        round max_size n idx (collect-Collects max_size n (suc idx)) (log idx)
          (look_up C O s cache idx).1 cache total any refl refl (look_up-Finds cache idx g) g

    -- A request up to the last index is answered by the logged entries of the range, as many from
    -- its front as the limit allows and one in any case, with their indices and data, and with
    -- their terms or 0; and the storage goes on following the log. A request beyond it panics.
    pub entries-limited :
        (low high : ℕ) (max_size : Option ℕ)
        → ((high ≤ s.last_index + 1)
            × ((es : List Entry) × ((entries C O s low high max_size).1 ≡ ok es)
                × AllStand (limited max_size 0 false (logged log (high - low) low)) es)
            × Follows C O (entries C O s low high max_size).0 log)
          ⊎ ((s.last_index + 1 < high) × (entries C O s low high max_size ≡ (s, panic)))
    unfolding entries
    entries-limited low high max_size = elim (Bool-cases (ltb (s.last_index + 1) high)) [
      | inl beyond ↦ inr (ground arith, rw beyond refl)
      | inr within ↦
          (let (g, all) =
              collect-Collects max_size (high - low) low s.entry_cache 0 false f.cached in
            inl (
              ground arith,
              rw within (_, refl, all),
              rw within (record {
                stored = f.stored;
                unlogged = f.unlogged;
                cached = g;
                placed = f.placed;
              }),
            ))
    ]
