-- ===== src/Storage/Store/Sound.antt =====
-- Stores in which every object is the one that its name identifies.
use edge_orchestrator.Common.{
  ℕ, ◌≡◌, refl, ◌∙◌, ap, sym, inl, inr, Option, some, List, [], Bytes, arith,
}
use edge_orchestrator.Types.{Hash}
use edge_orchestrator.Storage.Objects.{
  TreeEntry, Commit, Tag, Object, blob, tree, commit, tag, object_hash, hash_blob, hash_tree,
  hash_commit,
}
use edge_orchestrator.Storage.Store.Interfaces.{
  IsPlain, Result, ok, err, panic, Path', FileSystem, Format, Digest, object_path,
  object_path-injective, digest-path,
}
use edge_orchestrator.Storage.Store.{decode, write_at, write_object, after_write, store_object}
use edge_orchestrator.Storage.Store.Writes.{
  Path'-discrete, decode-encode, write_at_ne, write_at_ok, write_at_keeps,
}

module _ (F : FileSystem) (c : Format) (D : Digest) (format_timestamp : ℕ → Bytes) where
  -- The hash that an object carries is the one computed from its content.
  abbrev pub Genuine : Object → Type 0
  Genuine (blob b) = hash_blob D.digest b.data' ≡ b.hash
  Genuine (tree t) = hash_tree D.digest t.entries ≡ t.hash
  Genuine (commit x) =
      hash_commit D.digest format_timestamp x.tree_hash x.parent_hashes x.author x.timestamp
        x.message
      ≡ x.hash
  Genuine (tag t) =
      (j : Bytes) × (c.tag_to_json (record t { hash = [] }) ≡ some j)
      × (hash_blob D.digest j ≡ t.hash)

  -- A file decodes to a genuine object with the hash that the file is named after.
  pub record IsSound (fs : F.Fs) : Type 0 where
    pub at :
        (h : Hash) (p : Path') (z : Bytes)
        → object_path h ≡ some p
        → IsPlain p
        → F.holds fs p ≡ some z
        → (o : Object) × (decode F c z ≡ ok o) × (object_hash o ≡ h) × Genuine o

  write_at-IsSound :
      (fs : F.Fs) (o : Object) (p : Path')
      → object_path (object_hash o) ≡ some p
      → IsPlain p
      → Genuine o
      → IsSound fs
      → (write_at F c fs o p).1 ≡ ok tt
      → IsSound (write_at F c fs o p).0
  write_at-IsSound fs o p own named g s h = elim (write_at_ok F c fs o p named h) [
    | inl (same, _) ↦ rw same s
    | inr (z, encoded, written) ↦ record {
      at = λ k q y at hq held. elim (Path'-discrete p q) [
        | yes e ↦ (
          o,
          decode-encode F c o y
              (encoded ∙ ap ok (cc (written, held, ap (F.holds (write_at F c fs o p).0) e))),
          object_path-injective (object_hash o) k own (at ∙ ap some (sym e)),
          g,
        )
        | no other ↦ s.at k q y at hq (sym (write_at_ne F c fs o p q named hq other) ∙ held)
      ];
    }
  ]

  -- the object of a call: its hash is the digest of a text, and it is genuine
  pub record Stores (o : Object) : Type 0 where
    pub text : Bytes
    pub hashed : object_hash o ≡ D.digest text
    pub genuine : Genuine o

  pub after_write_ok :
      (h : Hash) (r : F.Fs × Result (Unit {0})) {g : Hash}
      → (after_write F c h r).1 ≡ ok g
      → (r.1 ≡ ok tt) × (g ≡ h)
  unfolding after_write
  after_write_ok h (fs, ok tt) e = (refl, ground arith)
  after_write_ok h (fs, err x) e = absurd (cc)
  after_write_ok h (fs, panic) e = absurd (cc)

  pub after_write_fs : (h : Hash) (r : F.Fs × Result (Unit {0})) → (after_write F c h r).0 ≡ r.0
  unfolding after_write
  after_write_fs h (fs, ok tt) = refl
  after_write_fs h (fs, err x) = refl
  after_write_fs h (fs, panic) = refl

  -- With the path named, a call is a write at that path.
  pub write_object_at :
      (fs : F.Fs) (o : Object) {p : Path'}
      → object_path (object_hash o) ≡ some p
      → write_object F c fs o (object_hash o) ≡ write_at F c fs o p
  unfolding write_object
  write_object_at fs o e = rw (e, write_object)

  pub Stores-path :
      (o : Object) → Stores o → (p : Path') × (object_path (object_hash o) ≡ some p) × (IsPlain p)
  Stores-path o t = let (p, at, named) = digest-path D t.text in (p, rw t.hashed at, named)

  pub store_object-IsSound :
      (fs : F.Fs) (o : Object) {g : Hash}
      → Stores o
      → IsSound fs
      → (store_object F c fs o (object_hash o)).1 ≡ ok g
      → IsSound (store_object F c fs o (object_hash o)).0
  store_object-IsSound fs o t s e =
      let (p, at, named) = Stores-path o t in
      let h = object_hash o in
      let done = (after_write_ok h (write_object F c fs o h) e).0 in
      rw (after_write_fs h (write_object F c fs o h), write_object_at fs o at)
        (write_at-IsSound fs o p at named t.genuine s (rw (write_object_at fs o at) at done))

  pub store_object_keeps :
      (fs : F.Fs) (o : Object) (q : Path') (z : Bytes)
      → Stores o
      → IsPlain q
      → F.holds fs q ≡ some z
      → F.holds (store_object F c fs o (object_hash o)).0 q ≡ some z
  store_object_keeps fs o q z t hq held =
      let (p, at, named) = Stores-path o t in
      let h = object_hash o in
      rw (after_write_fs h (write_object F c fs o h), write_object_at fs o at)
        (write_at_keeps F c fs o p q z named hq held)

  pub blob-Stores :
      (content : Bytes)
      → Stores (blob (record { hash = hash_blob D.digest content; data' = content }))
  unfolding object_hash hash_blob
  blob-Stores content = record { text = _; hashed = refl; genuine = refl }

  pub tree-Stores :
      (es : List TreeEntry) → Stores (tree (record { hash = hash_tree D.digest es; entries = es }))
  unfolding object_hash hash_tree
  tree-Stores es = record { text = _; hashed = refl; genuine = refl }

  abbrev pub unhashed : Hash → Bytes → Option Bytes → Tag
  unhashed commit_hash name message = record {
    hash = [];
    commit_hash = commit_hash;
    name = name;
    message = message;
  }

  pub tag-Stores :
      (x : Hash) (name : Bytes) (message : Option Bytes) (j : Bytes)
      → c.tag_to_json (unhashed x name message) ≡ some j
      → Stores (tag (record (unhashed x name message) { hash = hash_blob D.digest j }))
  unfolding object_hash hash_blob
  tag-Stores x name message j e = record { text = _; hashed = refl; genuine = (j, e, refl) }

  pub commit-Stores :
      (x : Commit)
      → Stores (
          commit (record x {
            hash =
                hash_commit D.digest format_timestamp x.tree_hash x.parent_hashes x.author
                  x.timestamp x.message;
          }))
  unfolding object_hash hash_commit
  commit-Stores x = record { text = _; hashed = refl; genuine = refl }
