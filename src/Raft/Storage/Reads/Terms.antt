-- ===== src/Raft/Storage/Reads/Terms.antt =====
-- What `term` returns for an entry of the log.
use edge_orchestrator.Common.{
  ℕ, zero, suc, ◌%◌, ◌/◌, ◌^◌, ◌<◌, [], ◌∷◌, ◌++◌, ◌-◌, ◌≤◌, ◌≡◌, refl, ap, ◌∙◌, ◌⊎◌, inl, inr,
  false, Option, none, some, Bytes, ltb, ◌==◌, arith,
}
use edge_orchestrator.Raft.{Entry}
use edge_orchestrator.Raft.Storage.Interfaces.{EntryCache, ObjectStore}
use edge_orchestrator.Raft.Storage.{CasRaftStorage}
use edge_orchestrator.Raft.Storage.Log.{Log, Follows}
use edge_orchestrator.Raft.Storage.Reads.{Result, ok, err, unavailable, first_term, term_of, term}

-- the lowest bytes of a number, the lowest first
abbrev pub le_bytes : ℕ → ℕ → Bytes
le_bytes zero n = []
le_bytes (suc k) n = n % 256 ∷ le_bytes k (n / 256)

abbrev as_result : Option ℕ → Result ℕ
as_result o = elim o [ none ↦ err unavailable | some t ↦ ok t ]

first_term-le_bytes :
    (t : ℕ) (rest : Bytes) → t < 2 ^ 64 → first_term (le_bytes 8 t ++ rest) ≡ some t
first_term-le_bytes t rest small = ap some (omega (arith, small))

module _ (C : EntryCache) (O : ObjectStore) (s : CasRaftStorage C O) (log : Log)
    (f : Follows C O s log) (i : ℕ) (e : Entry) (at : log i ≡ some e) (positive : 1 ≤ s.first_index)
    (kept : s.first_index ≤ i) where
  term-eq-term_of : (term C O s i).1 ≡ term_of C O s i (C.get s.entry_cache i).1
  unfolding term
  term-eq-term_of =
      let late : ltb i (s.first_index - 1) ≡ false = ground arith in
      let past : (i == s.first_index - 1) ≡ false = ground arith in rw late (rw past refl)

  -- While an entry of the log is cached, its term is the logged one, or 0.
  pub term_cached :
      {c : Entry}
      → C.peek s.entry_cache i ≡ some c
      → ((term C O s i).1 ≡ ok e.term) ⊎ ((term C O s i).1 ≡ ok 0)
  unfolding term_of
  term_cached {c = c} hit =
      let (x, at', stands) = f.cached i c hit in
      let same : x.term ≡ e.term = cc (at, at') in
      let result : (term C O s i).1 ≡ ok c.term =
        term-eq-term_of ∙ ap (term_of C O s i) (C.get-eq-peek s.entry_cache i ∙ hit) in
      elim stands.term [ inl t ↦ inl (result ∙ ap ok (t ∙ same)) | inr z ↦ inr (result ∙ ap ok z) ]

  -- Once an entry of the log, from the first index on, is no longer cached, `term` returns the number
  -- whose eight bytes, the lowest first, its data begin with, whatever its term was.
  pub term_evicted :
      (t : ℕ) (rest : Bytes)
      → C.peek s.entry_cache i ≡ none
      → e.data' ≡ le_bytes 8 t ++ rest
      → t < 2 ^ 64
      → (term C O s i).1 ≡ ok t
  unfolding term_of
  term_evicted t rest miss begins small =
      let (h, hashed, _, held) = f.stored i e at in
      term-eq-term_of
      ∙ ap (term_of C O s i) (C.get-eq-peek s.entry_cache i ∙ miss)
      ∙ rw (hashed, term_of)
          (rw held (ap as_result (ap first_term begins ∙ first_term-le_bytes t rest small)))
