-- ===== src/Storage/Diff.antt =====
-- crates/storage/src/diff.rs: the difference of two trees.
pub mod Patch
use edge_orchestrator.Common.{
  ℕ, ◌+◌, Bool, true, false, not, ◌&&◌, Option, none, some, List, [], ◌∷◌, Bytes, Bytes-discrete,
  length, filter, if◌then◌else◌,
}
use edge_orchestrator.Storage.Objects.{TreeEntry, insert_sorted}

pub record TreeDiff : Type 0 where
  pub added_or_modified : List TreeEntry
  pub removed : List TreeEntry
  pub unchanged : List TreeEntry

-- `BTreeMap<&str, &TreeEntry>`: entries in the order of their names, one for each.
pub get : Bytes → List TreeEntry → Option TreeEntry
get name [] = none
get name (e ∷ es) = elim (Bytes-discrete e.name name) [ yes _ ↦ some e | no _ ↦ get name es ]

pub without : Bytes → List TreeEntry → List TreeEntry
without name [] = []
without name (e ∷ es) =
    let rest = without name es in
    elim (Bytes-discrete e.name name) [ yes _ ↦ rest | no _ ↦ e ∷ rest ]

-- `collect()`: of two entries with one name the later stays
pub collect_from : List TreeEntry → List TreeEntry → List TreeEntry
unfolding without insert_sorted
collect_from map [] = map
collect_from map (e ∷ es) = collect_from (insert_sorted e (without e.name map)) es

-- `old_entry.hash == new_entry.hash`, for an old entry of that name
abbrev pub same_hash : TreeEntry → Option TreeEntry → Bool
same_hash e none = false
same_hash e (some o) = elim (Bytes-discrete o.hash e.hash) [ yes _ ↦ true | no _ ↦ false ]

abbrev pub is_none : Option TreeEntry → Bool
is_none none = true
is_none (some e) = false

pub diff_trees : List TreeEntry → List TreeEntry → TreeDiff
unfolding collect_from get
diff_trees old new =
    let old_map = collect_from [] old in
    let new_map = collect_from [] new in
    record {
      added_or_modified = filter (λ e. not (same_hash e (get e.name old_map))) new_map;
      removed = filter (λ e. is_none (get e.name new_map)) old_map;
      unchanged = filter (λ e. same_hash e (get e.name old_map)) new_map;
    }

abbrev is_nil : List TreeEntry → Bool
is_nil [] = true
is_nil (e ∷ es) = false

pub is_empty : TreeDiff → Bool
is_empty d = is_nil d.added_or_modified && is_nil d.removed

pub change_count : TreeDiff → ℕ
change_count d = length d.added_or_modified + length d.removed
