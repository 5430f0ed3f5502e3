-- ===== src/Storage/Store/Calls.antt =====
-- The writing operations together, and what each of them keeps.
use edge_orchestrator.Common.{
  ℕ, ◌≡◌, refl, ◌⊎◌, inl, inr, Option, some, List, [], Bytes, Option-cases,
}
use edge_orchestrator.Types.{Hash, CoreError, serialization}
use edge_orchestrator.Storage.Objects.{TreeEntry, Object, object_hash}
use edge_orchestrator.Storage.Store.Interfaces.{
  IsPlain, Result, ok, err, Path', FileSystem, Format, Digest,
}
use edge_orchestrator.Storage.Store.{
  store_object, put_blob, put_tree, put_tag, put_serialized_tag, put_commit,
}
use edge_orchestrator.Storage.Store.Sound.{
  IsSound, Stores, store_object-IsSound, store_object_keeps, blob-Stores, tree-Stores, tag-Stores,
  commit-Stores, unhashed,
}

module _ (F : FileSystem) (c : Format) (D : Digest) (format_timestamp : ℕ → Bytes) where
  -- The writing operations of the store.
  pub data Call : Type 0 where
    blob_call : Bytes → Call
    tree_call : List TreeEntry → Call
    tag_call : Hash → Bytes → Option Bytes → Call
    commit_call : ℕ → Hash → List Hash → Bytes → Bytes → Call

  unfoldable pub perform : F.Fs → Call → F.Fs × Result Hash
  perform fs (blob_call content) = put_blob F c D.digest fs content
  perform fs (tree_call entries) = put_tree F c D.digest fs entries
  perform fs (tag_call x name message) = put_tag F c D.digest fs x name message
  perform fs (commit_call now x parents author message) =
      put_commit F c D.digest format_timestamp fs now x parents author message

  -- A call is refused before any write, or stores an object under its own hash.
  Performs : F.Fs → Call → Type 0
  Performs fs call =
      ((e : CoreError) × (perform fs call ≡ (fs, err e)))
      ⊎ ((o : Object) × Stores F c D format_timestamp o
          × (perform fs call ≡ store_object F c fs o (object_hash o)))

  perform-Performs : (fs : F.Fs) (call : Call) → Performs fs call
  unfolding Performs perform put_blob put_tree put_tag put_commit object_hash
  perform-Performs fs (blob_call content) =
      inr (_, blob-Stores F c D format_timestamp content, refl)
  perform-Performs fs (tree_call entries) =
      inr (_, tree-Stores F c D format_timestamp entries, refl)
  perform-Performs fs (tag_call x name message) =
      elim (Option-cases (c.tag_to_json (unhashed F c D format_timestamp x name message))) [
        | inl e ↦ inl (serialization, rw (e, put_serialized_tag) refl)
        | inr (j, e) ↦ inr (
          _,
          tag-Stores F c D format_timestamp x name message j e,
          rw (e, put_serialized_tag) refl,
        )
      ]
  perform-Performs fs (commit_call now x parents author message) = inr (
    _,
    commit-Stores F c D format_timestamp (record {
      hash = [];
      tree_hash = x;
      parent_hashes = parents;
      author = author;
      timestamp = now;
      message = message;
    }),
    refl,
  )

  -- A writing operation that succeeds leaves a sound store sound.
  pub perform-IsSound :
      (fs : F.Fs) (call : Call) {g : Hash}
      → IsSound F c D format_timestamp fs
      → (perform fs call).1 ≡ ok g
      → IsSound F c D format_timestamp (perform fs call).0
  unfolding Performs
  perform-IsSound fs call s h = elim (perform-Performs fs call) [
    | inl (e, refused) ↦ rw refused s
    | inr (o, t, stored) ↦
        rw stored (store_object-IsSound F c D format_timestamp fs o t s (rw stored at h))
  ]

  -- A writing operation, also one that fails half-way, never changes what a file of the store with
  -- a plain path holds.
  pub perform_keeps :
      (fs : F.Fs) (call : Call) (q : Path') (z : Bytes)
      → IsPlain q
      → F.holds fs q ≡ some z
      → F.holds (perform fs call).0 q ≡ some z
  unfolding Performs
  perform_keeps fs call q z hq held = elim (perform-Performs fs call) [
    | inl (e, refused) ↦ rw refused held
    | inr (o, t, stored) ↦ rw stored (store_object_keeps F c D format_timestamp fs o q z t hq held)
  ]
