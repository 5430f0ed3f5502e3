-- ===== src/Storage/Objects.antt =====
-- objects.rs and the entries of a tree in crates/core/src/traits.rs.
pub mod Hashing
pub mod Order
use edge_orchestrator.Common.{
  ℕ, Bool, true, false, ◌++◌, Option, List, [], ◌∷◌, Bytes, codes, length, ltb, if◌then◌else◌,
}
use edge_orchestrator.Types.{Hash}
use edge_orchestrator.Storage.Decimal.{show_decimal}

pub data ObjectMode : Type 0 where
  blob_mode tree_mode executable_mode : ObjectMode

pub ObjectMode-discrete : Discrete ObjectMode
ObjectMode-discrete = hlevel

pub record TreeEntry : Type 0 where
  pub name : Bytes
  pub hash : Hash
  pub mode : ObjectMode

pub record Blob : Type 0 where
  pub hash : Hash
  pub data' : Bytes

pub record Tree : Type 0 where
  pub hash : Hash
  pub entries : List TreeEntry

pub record Commit : Type 0 where
  pub hash : Hash
  pub tree_hash : Hash
  pub parent_hashes : List Hash
  pub author : Bytes
  pub timestamp : ℕ
  pub message : Bytes

pub record Tag : Type 0 where
  pub hash : Hash
  pub commit_hash : Hash
  pub name : Bytes
  pub message : Option Bytes

pub data Object : Type 0 where
  blob : Blob → Object
  tree : Tree → Object
  commit : Commit → Object
  tag : Tag → Object

-- `Object::hash`
unfoldable pub object_hash : Object → Hash
object_hash (blob b) = b.hash
object_hash (tree t) = t.hash
object_hash (commit c) = c.hash
object_hash (tag t) = t.hash

-- `a <= b` on `String`s: the bytes, lexicographically
unfoldable pub bytes_le : Bytes → Bytes → Bool
bytes_le [] b = true
bytes_le (x ∷ a) [] = false
bytes_le (x ∷ a) (y ∷ b) =
    let rest = bytes_le a b in if ltb x y then true else if ltb y x then false else rest

-- The stable `sort_by` on names: an entry goes before the first that is not below it.
unfoldable pub insert_sorted : TreeEntry → List TreeEntry → List TreeEntry
unfolding bytes_le
insert_sorted e [] = e ∷ []
insert_sorted e (f ∷ fs) =
    let rest = insert_sorted e fs in if bytes_le e.name f.name then e ∷ f ∷ fs else f ∷ rest

pub sort_by_name : List TreeEntry → List TreeEntry
unfolding insert_sorted
sort_by_name [] = []
sort_by_name (e ∷ es) = insert_sorted e (sort_by_name es)

pub mode_str : ObjectMode → Bytes
mode_str blob_mode = codes "100644"
mode_str executable_mode = codes "100755"
mode_str tree_mode = codes "040000"

-- `"{} {} {}\n"`
pub entry_line : TreeEntry → Bytes
unfolding mode_str
entry_line e = mode_str e.mode ++ (codes " " ++ (e.hash ++ (codes " " ++ (e.name ++ 10 ∷ []))))

pub tree_lines : List TreeEntry → Bytes
unfolding entry_line
tree_lines [] = []
tree_lines (e ∷ es) = entry_line e ++ tree_lines es

-- `"<kind> <len>\0"` and the content
pub framed : Bytes → Bytes → Bytes
framed kind content = kind ++ (32 ∷ show_decimal (length content) ++ 0 ∷ content)

-- SHA-256 written in hexadecimal is the parameter `digest`, chrono's `%s %z` the parameter
-- `format_timestamp`.
module _ (digest : Bytes → Hash) where
  unfoldable pub hash_blob : Bytes → Hash
  unfolding framed
  hash_blob content = digest (framed (codes "blob") content)

  unfoldable pub hash_tree : List TreeEntry → Hash
  unfolding framed
  hash_tree entries = digest (framed (codes "tree") (tree_lines (sort_by_name entries)))

parent_lines : List Hash → Bytes
parent_lines [] = []
parent_lines (h ∷ hs) = codes "parent " ++ (h ++ (10 ∷ parent_lines hs))

pub commit_text : (ℕ → Bytes) → Hash → List Hash → Bytes → ℕ → Bytes → Bytes
unfolding parent_lines
commit_text format_timestamp tree_hash parents author timestamp message =
    codes "tree "
    ++ (tree_hash
        ++ (10
            ∷ (parent_lines parents
                ++ (codes "author "
                    ++ (author
                        ++ (32
                            ∷ (format_timestamp timestamp
                                ++ (10
                                    ∷ (codes "committer "
                                        ++ (author
                                            ++ (32
                                                ∷ (format_timestamp timestamp
                                                    ++ (10
                                                        ∷ (10 ∷ (message ++ 10 ∷ [])))))))))))))))

module _ (digest : Bytes → Hash) (format_timestamp : ℕ → Bytes) where
  unfoldable pub hash_commit : Hash → List Hash → Bytes → ℕ → Bytes → Hash
  unfolding framed
  hash_commit tree_hash parents author timestamp message = digest (
      framed (codes "commit")
        (commit_text format_timestamp tree_hash parents author timestamp message))
