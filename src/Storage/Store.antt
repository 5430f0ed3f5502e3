-- ===== src/Storage/Store.antt =====
-- store.rs: the object store on disk, `LocalObjectStore`. The file system, serde_json and flate2
-- are the records `FileSystem` and `Format`; SHA-256 and chrono's text of a time are `digest` and
-- `format_timestamp`.
pub mod Interfaces
pub mod Writes
pub mod Sound
pub mod Calls
pub mod RoundTrip
pub mod Faults
use edge_orchestrator.Common.{
  ℕ, ◌≡◌, refl, Bool, true, false, Option, none, some, List, [], ◌∷◌, Bytes, Bytes-discrete,
  if◌then◌else◌,
}
use edge_orchestrator.Types.{
  Hash, CoreError, object_not_found, hash_mismatch, storage_io, serialization,
}
use edge_orchestrator.Storage.Objects.{
  TreeEntry, Blob, Tree, Commit, Tag, Object, blob, tree, commit, tag, object_hash, hash_blob,
  hash_tree, hash_commit,
}
use edge_orchestrator.Storage.Store.Interfaces.{
  Result, ok, err, panic, Path', FileSystem, Format, object_path,
}

-- `?`: an error or a panic ends the operation.
module _ {ℓ κ} {A : Type ℓ} {B : Type κ} where
  infixl 5 ◌>>=◌
  abbrev pub ◌>>=◌ : Result A → (A → Result B) → Result B
  panic >>= rest = panic
  err reason >>= rest = err reason
  ok value >>= rest = rest value

  -- The steps of a chain that returned.
  pub both_ok :
      (rest : A → Result B) (first : Result A) {b : B}
      → (first >>= rest) ≡ ok b
      → (a : A) × (rest a ≡ ok b) × (first ≡ ok a)
  both_ok rest panic returned = cc
  both_ok rest (err reason) returned = cc
  both_ok rest (ok value) returned = (value, returned, refl)

-- `map_err(...)?` on a value that may be missing
abbrev pub or_err {ℓ} : {A : Type ℓ} → Option A → CoreError → Result A
or_err none e = err e
or_err (some a) e = ok a

module _ (F : FileSystem) (c : Format) where
  open F use {Fs}

  -- `File::create` and `write_all`
  unfoldable pub write_file : Fs → Path' → Bytes → Fs × Result (Unit {0})
  write_file fs p z =
      let (fs₁, created) = F.create fs p in
      if created
      then (let (fs₂, written) = F.write fs₁ p z in
          if written then (fs₂, ok tt) else (fs₂, err storage_io))
      else (fs₁, err storage_io)

  -- serialisation and compression
  unfoldable pub encode : Object → Result Bytes
  encode o = do j ← or_err (c.to_json o) serialization; or_err (c.compress j) storage_io

  unfoldable pub write_encoded : Fs → Path' → Result Bytes → Fs × Result (Unit {0})
  unfolding write_file
  write_encoded fs p (ok z) = write_file fs p z
  write_encoded fs p (err e) = (fs, err e)
  write_encoded fs p panic = (fs, panic)

  -- `write_object`, once the path is known
  unfoldable pub write_at : Fs → Object → Path' → Fs × Result (Unit {0})
  unfolding write_encoded encode
  write_at fs o p =
      if F.exists fs p
      then (fs, ok tt)
      else (let (fs₁, made) = F.mkdir fs p.dir in
          if made then write_encoded fs₁ p (encode o) else (fs₁, err storage_io))

  unfoldable pub write_object : Fs → Object → Hash → Fs × Result (Unit {0})
  unfolding write_at
  write_object fs o h = elim (object_path h) [ none ↦ (fs, panic) | some p ↦ write_at fs o p ]

  -- what the bytes of a file stand for
  pub decode : Bytes → Result Object
  decode z = do j ← or_err (c.decompress z) storage_io; or_err (c.from_json j) serialization

  pub check_hash : Hash → Object → Result Object
  check_hash h o = elim (Bytes-discrete (object_hash o) h) [
    | yes _ ↦ ok o
    | no _ ↦ err (hash_mismatch h)
  ]

  pub read_object : Fs → Hash → Result Object
  unfolding decode check_hash
  read_object fs h = elim (object_path h) [
    | none ↦ panic
    | some p ↦
        if F.exists fs p
        then (do z ← or_err (F.read fs p) storage_io; o ← decode z; check_hash h o)
        else err (object_not_found h)
  ]

  -- `self.write_object(..)?; Ok(hash)`
  unfoldable pub after_write : Hash → Fs × Result (Unit {0}) → Fs × Result Hash
  after_write h (fs, ok _) = (fs, ok h)
  after_write h (fs, err e) = (fs, err e)
  after_write h (fs, panic) = (fs, panic)

  abbrev pub store_object : Fs → Object → Hash → Fs × Result Hash
  store_object fs o h = after_write h (write_object fs o h)

  unfoldable pub as_blob : Hash → Object → Result Bytes
  as_blob h (blob b) = ok b.data'
  as_blob h o = err (hash_mismatch h)

  unfoldable pub get_blob : Fs → Hash → Result Bytes
  unfolding as_blob
  get_blob fs h = do o ← read_object fs h; as_blob h o

  as_tree : Hash → Object → Result (List TreeEntry)
  as_tree h (tree t) = ok t.entries
  as_tree h o = err (hash_mismatch h)

  pub get_tree : Fs → Hash → Result (List TreeEntry)
  unfolding as_tree
  get_tree fs h = do o ← read_object fs h; as_tree h o

  as_commit : Hash → Object → Result Commit
  as_commit h (commit x) = ok x
  as_commit h o = err (hash_mismatch h)

  pub get_commit : Fs → Hash → Result Commit
  unfolding as_commit
  get_commit fs h = do o ← read_object fs h; as_commit h o

  pub exists : Fs → Hash → Result Bool
  exists fs h = elim (object_path h) [ none ↦ panic | some p ↦ ok (F.exists fs p) ]

  -- `gc` keeps everything
  pub gc : Fs → List Hash → Result (List Hash)
  gc fs keep_roots = ok []

  module _ (digest : Bytes → Hash) where
    unfoldable pub put_blob : Fs → Bytes → Fs × Result Hash
    unfolding write_object after_write
    put_blob fs content =
        let h = hash_blob digest content in
        store_object fs (blob (record { hash = h; data' = content })) h

    pub put_tree : Fs → List TreeEntry → Fs × Result Hash
    unfolding write_object after_write
    put_tree fs entries =
        let h = hash_tree digest entries in
        store_object fs (tree (record { hash = h; entries = entries })) h

    -- The hash of a tag is that of a blob with the tag's serialisation, its hash field empty.
    unfoldable pub put_serialized_tag : Fs → Tag → Option Bytes → Fs × Result Hash
    unfolding write_object after_write
    put_serialized_tag fs t none = (fs, err serialization)
    put_serialized_tag fs t (some serialized) =
        let h = hash_blob digest serialized in store_object fs (tag (record t { hash = h })) h

    unfoldable pub put_tag : Fs → Hash → Bytes → Option Bytes → Fs × Result Hash
    unfolding put_serialized_tag
    put_tag fs commit_hash name message =
        let t : Tag = record {
          hash = [];
          commit_hash = commit_hash;
          name = name;
          message = message;
        } in
        put_serialized_tag fs t (c.tag_to_json t)

    -- `commit`; `now` is the clock
    pub put_commit : (ℕ → Bytes) → Fs → ℕ → Hash → List Hash → Bytes → Bytes → Fs × Result Hash
    unfolding write_object after_write
    put_commit format_timestamp fs now tree_hash parents author message =
        let h = hash_commit digest format_timestamp tree_hash parents author now message in
        store_object fs
          (commit (record {
            hash = h;
            tree_hash = tree_hash;
            parent_hashes = parents;
            author = author;
            timestamp = now;
            message = message;
          }))
          h
