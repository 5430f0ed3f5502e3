-- ===== src/Storage/Store/RoundTrip.antt =====
-- Reading back what was stored.
use edge_orchestrator.Common.{
  ℕ, ◌≡◌, ◌≢◌, refl, ◌∙◌, ap, sym, ◌⊎◌, inl, inr, some, [], Bytes, arith, Option-cases,
}
use edge_orchestrator.Types.{Hash}
use edge_orchestrator.Storage.Objects.{
  Blob, Tag, Object, blob, tree, commit, tag, object_hash, hash_blob,
}
use edge_orchestrator.Storage.Objects.Hashing.{
  NoCollision, blob_text, hash_blob-injective, hash_tree-ne-hash_blob, hash_commit-ne-hash_blob,
}
use edge_orchestrator.Storage.Store.Interfaces.{
  IsPlain, ok, Path', FileSystem, Format, Digest, object_path, digest-IsPlain,
}
use edge_orchestrator.Storage.Store.{
  both_ok, ◌>>=◌, decode, encode, store_object, write_object, read_object, check_hash, get_blob,
  as_blob, put_blob,
}
use edge_orchestrator.Storage.Store.Sound.{
  IsSound, Genuine, after_write_ok, after_write_fs, write_object_at,
}
use edge_orchestrator.Storage.Store.Writes.{write_at_ok}
use edge_orchestrator.Storage.Store.Calls.{perform, perform-IsSound, blob_call}

ok-injective {ℓ} : {A : Type ℓ} {a b : A} → ok a ≡ ok b → a ≡ b
ok-injective e = cc

module _ (F : FileSystem) (c : Format) where
  -- A read that succeeds goes through a file of that name, which decodes to an object that
  -- carries the hash.
  pub read_object_ok :
      (fs : F.Fs) (h : Hash) (o : Object)
      → read_object F c fs h ≡ ok o
      → (p : Path') × (z : Bytes) × (object_path h ≡ some p)
        × (F.holds fs p ≡ some z)
        × (decode F c z ≡ ok o)
        × (object_hash o ≡ h)
  unfolding read_object check_hash
  read_object_ok fs h o e = elim (Option-cases (object_path h)) [
    | inl bad ↦ absurd (ground arith)
    | inr (p, at) ↦ elim (Option-cases (F.read fs p)) [
      | inl failed ↦ absurd (ground arith)
      | inr (z, got) ↦ (p, z, at, F.read-holds fs p z got, ground arith, ground arith)
    ]
  ]

  -- Where the file is there and can be read, a read returns what it decodes to, if that carries
  -- the hash.
  pub read_object_total :
      (fs : F.Fs) (h : Hash) (p : Path') (z : Bytes) (o : Object)
      → object_path h ≡ some p
      → IsPlain p
      → F.read fs p ≡ some z
      → decode F c z ≡ ok o
      → object_hash o ≡ h
      → read_object F c fs h ≡ ok o
  unfolding read_object check_hash
  read_object_total fs h p z o at named got d own =
      ground (arith, F.exists-holds fs p named, F.read-holds fs p z got)

  as_blob_ok :
      (h : Hash) (o : Object) {d : Bytes}
      → as_blob F c h o ≡ ok d
      → (x : Blob) × (o ≡ blob x) × (x.data' ≡ d)
  unfolding as_blob
  as_blob_ok h (blob x) e = (x, refl, ground arith)
  as_blob_ok h (tree x) e = absurd (ground arith)
  as_blob_ok h (commit x) e = absurd (ground arith)
  as_blob_ok h (tag x) e = absurd (ground arith)

  pub get_blob_ok :
      (fs : F.Fs) (h : Hash) {d : Bytes}
      → get_blob F c fs h ≡ ok d
      → (x : Blob) × (read_object F c fs h ≡ ok (blob x)) × (x.data' ≡ d)
  unfolding get_blob
  get_blob_ok fs h e =
      let (o, b, a) = both_ok (as_blob F c h) (read_object F c fs h) e in
      let (x, s, t) = as_blob_ok h o b in (x, a ∙ ap ok s, t)

module _ (F : FileSystem) (c : Format) (D : Digest) (format_timestamp : ℕ → Bytes) where
  -- After a call that succeeds, the file is there: an old one, or one with the encoded object.
  pub stored :
      (fs : F.Fs) (o : Object) {p : Path'} {g : Hash}
      → object_path (object_hash o) ≡ some p
      → IsPlain p
      → (store_object F c fs o (object_hash o)).1 ≡ ok g
      → (g ≡ object_hash o)
        × ((z : Bytes) × (F.holds (store_object F c fs o (object_hash o)).0 p ≡ some z)
            × (F.holds fs p ≡ some z ⊎ encode F c o ≡ ok z))
  stored fs o {p = p} at named e =
      let h = object_hash o in
      let (done, same) = after_write_ok F c D format_timestamp h (write_object F c fs o h) e in
      (
        same,
        rw
            (
              after_write_fs F c D format_timestamp h (write_object F c fs o h),
              write_object_at F c D format_timestamp fs o at,
            )
            (elim (write_at_ok F c fs o p named
              (rw (write_object_at F c D format_timestamp fs o at) at done)) [
                | inl (kept, (z, held)) ↦ (z, ap (λ x. F.holds x p) kept ∙ held, inl held)
                | inr (z, encoded, held) ↦ (z, held, inr encoded)
              ]),
      )

module _ (F : FileSystem) (c : Format) (D : Digest) (format_timestamp : ℕ → Bytes) (fs : F.Fs)
    (s : IsSound F c D format_timestamp fs) where
  module _ (d : Bytes) (unique : NoCollision D.digest (blob_text d))
      (no_tag : (t : Tag) → c.tag_to_json t ≢ some d) where
    -- A genuine object under the hash of a blob is that blob.
    blob_of_hash :
        (o : Object)
        → Genuine F c D format_timestamp o
        → object_hash o ≡ hash_blob D.digest d
        → (x : Blob) × (o ≡ blob x) × (x.data' ≡ d)
    unfolding object_hash
    blob_of_hash (blob x) g e = (x, refl, hash_blob-injective D.digest d unique x.data' (g ∙ e))
    blob_of_hash (tree x) g e = absurd (hash_tree-ne-hash_blob D.digest d unique x.entries (g ∙ e))
    blob_of_hash (commit x) g e = absurd (
        hash_commit-ne-hash_blob D.digest d unique format_timestamp x.tree_hash x.parent_hashes
          x.author x.timestamp x.message (g ∙ e))
    blob_of_hash (tag x) (j, written, g) e = absurd (
        no_tag (record x { hash = [] })
          (written ∙ ap some (hash_blob-injective D.digest d unique j (g ∙ e))))

    -- Round trip: the hash that a successful `put_blob` returns on a sound store is that of the
    -- content, and where reading its file does not fail, `get_blob` returns the content; for a
    -- content with whose blob no other text collides and which is not the serialisation of a tag.
    pub get_blob-put_blob :
        {h : Hash} {p : Path'}
        → (put_blob F c D.digest fs d).1 ≡ ok h
        → object_path h ≡ some p
        → ((z : Bytes)
            → F.holds (put_blob F c D.digest fs d).0 p ≡ some z
            → F.read (put_blob F c D.digest fs d).0 p ≡ some z)
        → (h ≡ hash_blob D.digest d) × (get_blob F c (put_blob F c D.digest fs d).0 h ≡ ok d)
    unfolding put_blob perform object_hash get_blob as_blob hash_blob
    get_blob-put_blob {h = h} {p = p} done at readable =
        let fs' : F.Fs = (put_blob F c D.digest fs d).0 in
        let same : h ≡ hash_blob D.digest d =
          (after_write_ok F c D format_timestamp (hash_blob D.digest d)
            (write_object F c fs (blob (record { hash = hash_blob D.digest d; data' = d }))
              (hash_blob D.digest d))
            done).1 in
        let s' : IsSound F c D format_timestamp fs' =
          perform-IsSound F c D format_timestamp fs (blob_call d) s done in
        let named : IsPlain p = digest-IsPlain D (blob_text d) (ap object_path (sym same) ∙ at) in
        let (_, (z, held, _)) =
          stored F c D format_timestamp fs
            (blob (record { hash = hash_blob D.digest d; data' = d }))
            (ap object_path (sym same) ∙ at) named done in
        let (o, decoded, own, genuine) = s'.at h p z at named held in
        let got : F.read fs' p ≡ some z = readable z held in
        let (x, is_blob, content) = blob_of_hash o genuine (own ∙ same) in
        (
          same,
          ap (λ r. r >>= as_blob F c h) (read_object_total F c fs' h p z o at named got decoded own)
              ∙ ap (as_blob F c h) is_blob
              ∙ ap ok content,
        )
