-- ===== src/Raft/Storage/Local.antt =====
-- The object store of crates/storage as the store of the log.
use edge_orchestrator.Common.{ℕ, ◌≡◌, ◌≢◌, ap, sym, ◌∙◌, subst, Option, none, some, Bytes}
use edge_orchestrator.Types.{Hash, internal}
use edge_orchestrator.Storage.Objects.{Tag, blob, hash_blob, object_hash}
use edge_orchestrator.Storage.Objects.Hashing.{NoCollision, blob_text}
use edge_orchestrator.Storage.Store
use edge_orchestrator.Storage.Store.{◌>>=◌, as_blob, write_object, read_object}
use edge_orchestrator.Storage.Store.Interfaces as Interfaces
use edge_orchestrator.Storage.Store.Interfaces.{
  FileSystem, Format, Digest, Path', IsPlain, object_path, digest-path, digest-IsPlain,
}
use edge_orchestrator.Storage.Store.Sound.{IsSound, after_write_ok}
use edge_orchestrator.Storage.Store.Calls.{perform, blob_call, perform-IsSound, perform_keeps}
use edge_orchestrator.Storage.Store.RoundTrip.{
  get_blob_ok, read_object_ok, read_object_total, get_blob-put_blob,
}
use edge_orchestrator.Raft.Storage.Interfaces.{Result, ok, err, ObjectStore}

-- `put_blob` does not panic: its hash has 64 digits.
abbrev pub narrow : Interfaces.Result Hash → Result Hash
narrow (Interfaces.ok h) = ok h
narrow (Interfaces.err e) = err e
narrow Interfaces.panic = err internal

-- `if let Ok(data) = ...`
abbrev pub returned : Interfaces.Result Bytes → Option Bytes
returned (Interfaces.ok d) = some d
returned (Interfaces.err e) = none
returned Interfaces.panic = none

pub narrow-ok : (r : Interfaces.Result Hash) {h : Hash} → narrow r ≡ ok h → r ≡ Interfaces.ok h
narrow-ok (Interfaces.ok g) e = ap Interfaces.ok (cc)
narrow-ok (Interfaces.err x) e = absurd (cc)
narrow-ok Interfaces.panic e = absurd (cc)

pub returned-some :
    (r : Interfaces.Result Bytes) {d : Bytes} → returned r ≡ some d → r ≡ Interfaces.ok d
returned-some (Interfaces.ok g) e = ap Interfaces.ok (cc)
returned-some (Interfaces.err x) e = absurd (cc)
returned-some Interfaces.panic e = absurd (cc)

-- A hash that names a plain file.
abbrev pub IsName : Hash → Type 0
IsName h = (p : Path') × (object_path h ≡ some p) × IsPlain p

module _ (F : FileSystem) (c : Format) (D : Digest) (format_timestamp : ℕ → Bytes)
    (readable : (fs : F.Fs) (p : Path') (z : Bytes)
      → F.holds fs p ≡ some z
      → F.read fs p ≡ some z) where
  unfoldable pub put : F.Fs → Bytes → F.Fs × Interfaces.Result Hash
  unfolding Store.put_blob
  put fs d = Store.put_blob F c D.digest fs d

  put_hash :
      (fs : F.Fs) (d : Bytes) {h : Hash} → (put fs d).1 ≡ Interfaces.ok h → h ≡ hash_blob D.digest d
  unfolding put Store.put_blob
  put_hash fs d e =
      (after_write_ok F c D format_timestamp (hash_blob D.digest d)
        (write_object F c fs (blob (record { hash = hash_blob D.digest d; data' = d }))
          (hash_blob D.digest d))
        e).1

  hash_blob-IsName : (d : Bytes) → IsName (hash_blob D.digest d)
  unfolding hash_blob
  hash_blob-IsName d = digest-path D (blob_text d)

  pub put-IsName : (fs : F.Fs) (d : Bytes) (h : Hash) → (put fs d).1 ≡ Interfaces.ok h → IsName h
  put-IsName fs d h e = subst IsName (sym (put_hash fs d e)) (hash_blob-IsName d)

  pub get_keeps :
      (fs : F.Fs) (x d : Bytes) (h : Hash)
      → IsName h
      → Store.get_blob F c fs h ≡ Interfaces.ok d
      → Store.get_blob F c (put fs x).0 h ≡ Interfaces.ok d
  unfolding put perform Store.get_blob as_blob
  get_keeps fs x d h (q, at', plain) e =
      let (b, got, same) = get_blob_ok F c fs h e in
      let (p, z, at, held, decoded, own) = read_object_ok F c fs h (blob b) got in
      let named : IsPlain p = subst IsPlain (cc (at, at')) plain in
      let held' : F.holds (put fs x).0 p ≡ some z =
        perform_keeps F c D format_timestamp fs (blob_call x) p z named held in
      ap (λ m. m >>= as_blob F c h)
        (read_object_total F c (put fs x).0 h p z (blob b) at named
          (readable (put fs x).0 p z held') decoded own)
      ∙ ap Interfaces.ok same

  abbrev pub Storable : Bytes → Type 0
  Storable d = NoCollision D.digest (blob_text d) × ((t : Tag) → c.tag_to_json t ≢ some d)

  pub get-put :
      (fs : F.Fs) (d : Bytes) (h : Hash)
      → IsSound F c D format_timestamp fs
      → Storable d
      → (put fs d).1 ≡ Interfaces.ok h
      → Store.get_blob F c (put fs d).0 h ≡ Interfaces.ok d
  unfolding put Store.put_blob object_hash
  get-put fs d h s storable e =
      let (p, at, named) = put-IsName fs d h e in
      (get_blob-put_blob F c D format_timestamp fs s d storable.0 storable.1 e at
        (λ z held. readable (put fs d).0 p z held)).1

  -- Where existing files can be read, the object store is a store for the log.
  unfoldable pub local_store : ObjectStore
  unfolding perform put
  local_store = record {
    Store = F.Fs;
    put_blob = λ fs d. ((put fs d).0, narrow (put fs d).1);
    get_blob = λ fs h. returned (Store.get_blob F c fs h);
    IsSound = IsSound F c D format_timestamp;
    Storable = Storable;
    IsName = IsName;
    put_blob-IsName = λ fs d h e. put-IsName fs d h (narrow-ok (put fs d).1 e);
    put_blob-IsSound = λ fs d h s e.
        perform-IsSound F c D format_timestamp fs (blob_call d) s (narrow-ok (put fs d).1 e);
    get_blob-put_blob =
        λ fs d h s storable e. ap returned (get-put fs d h s storable (narrow-ok (put fs d).1 e));
    get_blob_keeps = λ fs x d h name e.
        ap returned (get_keeps fs x d h name (returned-some (Store.get_blob F c fs h) e));
  }
