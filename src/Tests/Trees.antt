-- ===== src/Tests/Trees.antt =====
-- Differences of trees and the pool of machines on concrete inputs.
use edge_orchestrator.Common.{true, arith, ◌+◌, ◌≤◌, ◌≡◌, false, List, [], ◌∷◌, codes, Bytes}
use edge_orchestrator.Types.{Hash}
use edge_orchestrator.Storage.Objects.{TreeEntry, blob_mode}
use edge_orchestrator.Storage.Diff.{diff_trees}
use edge_orchestrator.Storage.Diff.Patch.{patched, hash_of, last_named, diff_trees-patched}
use edge_orchestrator.Sandbox.{
  keep, discard, refill, new, boots_needed, after_job, take_from_pool_when_available,
}
use edge_orchestrator.Sandbox.Bounds.{max, pool_bounds}

abbrev file : Bytes → Hash → TreeEntry
file name hash = record { name = name; hash = hash; mode = blob_mode }

abbrev old_tree : List TreeEntry
old_tree = file (codes "a") (codes "1") ∷ file (codes "b") (codes "2") ∷ []

abbrev new_tree : List TreeEntry
new_tree = file (codes "b") (codes "3") ∷ file (codes "c") (codes "4") ∷ []

diff_trees-patched_example :
    hash_of (patched (diff_trees old_tree new_tree) old_tree (codes "b"))
    ≡ hash_of (last_named (codes "b") new_tree)
diff_trees-patched_example = diff_trees-patched old_tree new_tree (codes "b")

pool_bounds_example :
    ((new false 20).target ≤ 20)
    × ((new false 20).target ≤ 8)
    × (8 ≤ (new false 20).target)
    × (1 + boots_needed (new false 20) 1 ≡ max 1 (new false 20).target)
    × (after_job (new false 20) ≡ discard ∷ refill (new false 20).target ∷ [])
    × (take_from_pool_when_available (new false 20) ≡ true)
    × (boots_needed (new true 20) 1 ≡ 0)
    × (after_job (new true 20) ≡ keep ∷ [])
    × (take_from_pool_when_available (new true 20) ≡ false)
pool_bounds_example = pool_bounds 20 1 8 (omega arith) (omega arith)
