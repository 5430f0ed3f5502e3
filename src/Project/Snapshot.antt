-- ===== src/Project/Snapshot.antt =====
-- project_snapshot.rs: packing a directory into the store, and unpacking it. What the crate tar
-- makes of a directory, and whether it unpacks, is an argument.
use edge_orchestrator.Common.{Bool, Option, none, some, [], ◌∷◌, Bytes, if◌then◌else◌}
use edge_orchestrator.Types.{internal}
use edge_orchestrator.Types.Project.{ProjectSnapshot, from_hash}
use edge_orchestrator.Storage.Store
use edge_orchestrator.Storage.Store.{◌>>=◌}
use edge_orchestrator.Storage.Store.Interfaces.{Result, ok, err, panic, FileSystem, Format, Digest}

abbrev pub pack_directory : Option Bytes → Result Bytes
pack_directory none = err internal
pack_directory (some b) = ok b

-- The directory is made first.
abbrev pub unpack_tar : Bool → (Bytes → Bool) → Bytes → Result (Unit {0})
unpack_tar made unpacks b =
    if made then (if unpacks b then ok tt else err internal) else err internal

module _ (F : FileSystem) (c : Format) (D : Digest) where
  unfoldable pub store_packed : F.Fs → Result Bytes → F.Fs × Result ProjectSnapshot
  store_packed fs (ok tar_bytes) =
      let (fs', hash) = Store.put_blob F c D.digest fs tar_bytes in
      (fs', do h ← hash; ok (from_hash h))
  store_packed fs (err e) = (fs, err e)
  store_packed fs panic = (fs, panic)

  abbrev pub snapshot_from_dir : F.Fs → Option Bytes → F.Fs × Result ProjectSnapshot
  snapshot_from_dir fs packed = store_packed fs (pack_directory packed)

  -- the bytes that are not inline, `map_err(...)?`
  abbrev pub or_internal : Result Bytes → Result Bytes
  or_internal (ok b) = ok b
  or_internal (err e) = err internal
  or_internal panic = panic

  abbrev pub snapshot_bytes : F.Fs → ProjectSnapshot → Result Bytes
  snapshot_bytes fs s = elim s.tar_bytes [
    | [] ↦ or_internal (Store.get_blob F c fs s.hash)
    | x ∷ l ↦ ok (x ∷ l)
  ]

  pub extract_snapshot : F.Fs → ProjectSnapshot → Bool → (Bytes → Bool) → Result (Unit {0})
  extract_snapshot fs s made unpacks = do b ← snapshot_bytes fs s; unpack_tar made unpacks b
