-- ===== src/Tests/Storage.antt =====
-- The store on concrete inputs.
use edge_orchestrator.Common.{
  ℕ, length, ◌<◌, ◌≤◌, ◌⊎◌, ◌≡◌, ◌↔◌, refl, Option, none, some, [], ◌∷◌, Bytes, codes, inl,
  ℕ_discrete, Bytes-discrete, arith,
}
use mathlib.Core.List.{Nodup, Nodup-cons, eq-or-mem_of_mem-cons, not-mem-nil}
use mathlib.Core.List.Pairwise
use mathlib.Core.Logic.Or
use mathlib.Core.HLevel.{⊥_prop}
use mathlib.Core.List.Perm
use edge_orchestrator.Storage.Decimal.{show_decimal}
use edge_orchestrator.Types.{Hash, hash_mismatch}
use edge_orchestrator.Storage.Objects.{TreeEntry, blob_mode, hash_blob, hash_tree}
use edge_orchestrator.Storage.Objects.Hashing.{blob_text}
use edge_orchestrator.Storage.Objects.Order.{names, hash_tree_perm}
use edge_orchestrator.Storage.Store.{
  get_blob, put_blob, put_tag, write_file, encode, write_encoded, write_at, write_object,
  after_write, put_serialized_tag,
}
use edge_orchestrator.Storage.Store.Interfaces.{
  ok, err, panic, Path', object_path, IsPlain, digest-IsPlain,
}
use edge_orchestrator.Storage.Store.Sound.{IsSound}
use edge_orchestrator.Storage.Store.Calls.{perform, blob_call, perform-IsSound, perform_keeps}
use edge_orchestrator.Storage.Store.RoundTrip.{get_blob-put_blob}
use edge_orchestrator.Storage.Store.Faults.{
  third, get_blob_panics_iff, put_blob_again, put_tag_hides_blob,
}
use edge_orchestrator.Tests.Stores.{
  clock, no_files, no_files-IsSound, no_such_tag, memory, tiny, marked, mark, content,
  marked_unique, repeat, repeat_hex, pair,
}
use edge_orchestrator.Storage.Store.Writes.{Path'-discrete}

abbrev pub content_hash : Hash
content_hash = hash_blob mark content

pub stored : (put_blob memory tiny mark no_files content).1 ≡ ok content_hash
unfolding put_blob put_tag put_serialized_tag object_path write_file encode write_encoded write_at
    write_object after_write hash_blob Bytes-discrete ℕ_discrete show_decimal Path'-discrete
stored = refl

abbrev files : Path' → Option Bytes
files = (put_blob memory tiny mark no_files content).0

abbrev pub content_path : Path'
content_path = record { dir = 49 ∷ 48 ∷ []; file = repeat 62 }

abbrev content_file : Bytes
content_file = 0 ∷ pair (49 ∷ repeat 63) content

pub path_of_content : object_path content_hash ≡ some content_path
unfolding put_blob put_tag put_serialized_tag object_path write_file encode write_encoded write_at
    write_object after_write hash_blob Bytes-discrete ℕ_discrete show_decimal Path'-discrete
path_of_content = refl

pub content_path-IsPlain : IsPlain content_path
content_path-IsPlain =
    (λ e. cc, (inl (omega arith, omega arith), (inl (omega arith, omega arith), tt)), repeat_hex 62)

content_hash-IsPlain : (p : Path') → object_path content_hash ≡ some p → IsPlain p
unfolding hash_blob
content_hash-IsPlain p at = digest-IsPlain marked (blob_text content) at

file_of_content : files content_path ≡ some content_file
unfolding put_blob put_tag put_serialized_tag object_path write_file encode write_encoded write_at
    write_object after_write hash_blob Bytes-discrete ℕ_discrete show_decimal Path'-discrete
file_of_content = refl

perform-IsSound_example : IsSound memory tiny marked clock files
unfolding perform
perform-IsSound_example =
    perform-IsSound memory tiny marked clock no_files (blob_call content) no_files-IsSound stored

perform_keeps_example :
    (perform memory tiny marked clock files (blob_call (2 ∷ []))).0 content_path ≡ some content_file
perform_keeps_example =
    perform_keeps memory tiny marked clock files (blob_call (2 ∷ [])) content_path content_file
      content_path-IsPlain file_of_content

get_blob-put_blob_example :
    (content_hash ≡ hash_blob mark content) × (get_blob memory tiny files content_hash ≡ ok content)
get_blob-put_blob_example =
    get_blob-put_blob memory tiny marked clock no_files no_files-IsSound content marked_unique
      no_such_tag stored path_of_content (λ z held. held)

get_blob_panics_iff_example : (get_blob memory tiny files (97 ∷ []) ≡ panic) ↔ (
    (length {A = ℕ} (97 ∷ []) < 2) ⊎ ((b : ℕ) × (third (97 ∷ []) ≡ some b) × (128 ≤ b) × (b ≤ 191)))
get_blob_panics_iff_example = get_blob_panics_iff memory tiny files (97 ∷ [])

put_blob_again_example : put_blob memory tiny mark files content ≡ (files, ok content_hash)
put_blob_again_example = put_blob_again memory tiny marked clock no_files content stored

-- the tag named `name`, whose serialisation is the text `content` of a blob
abbrev tag_content : Bytes
tag_content = 84 ∷ codes "v1"

abbrev tag_hash : Hash
tag_hash = hash_blob mark tag_content

abbrev tagged : Path' → Option Bytes
tagged = (put_tag memory tiny mark no_files [] (codes "v1") none).0

tag_stored : (put_tag memory tiny mark no_files [] (codes "v1") none).1 ≡ ok tag_hash
unfolding put_blob put_tag put_serialized_tag object_path write_file encode write_encoded write_at
    write_object after_write hash_blob Bytes-discrete ℕ_discrete show_decimal Path'-discrete
tag_stored = refl

abbrev tag_path : Path'
tag_path = record { dir = 48 ∷ 48 ∷ []; file = repeat 62 }

path_of_tag : object_path tag_hash ≡ some tag_path
unfolding put_blob put_tag put_serialized_tag object_path write_file encode write_encoded write_at
    write_object after_write hash_blob Bytes-discrete ℕ_discrete show_decimal Path'-discrete
path_of_tag = refl

file_of_tag : tagged tag_path ≡ some (1 ∷ pair (repeat 64) (codes "v1"))
unfolding put_blob put_tag put_serialized_tag object_path write_file encode write_encoded write_at
    write_object after_write hash_blob Bytes-discrete ℕ_discrete show_decimal Path'-discrete
file_of_tag = refl

put_tag_hides_blob_example :
    (put_blob memory tiny mark tagged tag_content ≡ (tagged, ok tag_hash))
    × (get_blob memory tiny tagged tag_hash ≡ err (hash_mismatch tag_hash))
put_tag_hides_blob_example =
    put_tag_hides_blob memory tiny marked clock no_files [] (codes "v1") none tag_content refl
      tag_stored path_of_tag refl file_of_tag

abbrev entry : Bytes → TreeEntry
entry name = record { name = name; hash = []; mode = blob_mode }

two_names : Nodup (names (entry (codes "b") ∷ entry (codes "a") ∷ []))
two_names = Nodup-cons.1 (
  λ m. Or.elim ⊥_prop (eq-or-mem_of_mem-cons m) (λ e. ground arith) not-mem-nil,
  Nodup-cons.1 (not-mem-nil, Pairwise.nil),
)

hash_tree_perm_example :
    hash_tree mark (entry (codes "b") ∷ entry (codes "a") ∷ [])
    ≡ hash_tree mark (entry (codes "a") ∷ entry (codes "b") ∷ [])
hash_tree_perm_example = hash_tree_perm mark (Perm.swap _ _ _) two_names
