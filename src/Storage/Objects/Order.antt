-- ===== src/Storage/Objects/Order.antt =====
-- The order of names, and the independence of a tree's hash from the order of its entries.
use edge_orchestrator.Common.{
  ◌≡◌, ◌≢◌, refl, ap, ◌∙◌, Bytes-discrete, codes, true, false, List, [], ◌∷◌, arith, Bytes, map,
}
use edge_orchestrator.Types.{Hash}
use mathlib.Core.Path.{ap₂}
use mathlib.Core.HLevel.{hedberg}
use mathlib.Core.List.Perm
use mathlib.Core.List.{Perm, Permᴰ, Nodup, Nodup-cons, mem-cons_self}
use mathlib.Core.Logic.{∥∥₁_elim}
use edge_orchestrator.Storage.Objects.{
  TreeEntry, bytes_le, insert_sorted, sort_by_name, framed, tree_lines, hash_tree,
}

bytes_le_trans : (a b c : Bytes) → bytes_le a b ≡ true → bytes_le b c ≡ true → bytes_le a c ≡ true
unfolding bytes_le
bytes_le_trans [] b c h k = refl
bytes_le_trans (x ∷ a) [] c h k = cc
bytes_le_trans (x ∷ a) (y ∷ b) [] h k = cc
bytes_le_trans (x ∷ a) (y ∷ b) (z ∷ c) h k = ground (arith, bytes_le_trans a b c)

bytes_le_total : (a b : Bytes) → bytes_le a b ≡ false → bytes_le b a ≡ true
unfolding bytes_le
bytes_le_total [] b h = cc
bytes_le_total (x ∷ a) [] h = refl
bytes_le_total (x ∷ a) (y ∷ b) h = ground (arith, bytes_le_total a b)

bytes_le_antisymm : (a b : Bytes) → bytes_le a b ≡ true → bytes_le b a ≡ true → a ≡ b
unfolding bytes_le
bytes_le_antisymm [] [] h k = refl
bytes_le_antisymm [] (y ∷ b) h k = cc
bytes_le_antisymm (x ∷ a) [] h k = cc
bytes_le_antisymm (x ∷ a) (y ∷ b) h k = ground (arith, bytes_le_antisymm a b)

-- Entries with different names may be inserted in either order.
insert_sorted_comm :
    (e f : TreeEntry) (es : List TreeEntry)
    → e.name ≢ f.name
    → insert_sorted e (insert_sorted f es) ≡ insert_sorted f (insert_sorted e es)
unfolding insert_sorted
insert_sorted_comm e f [] ne =
    ground (arith, bytes_le_total e.name f.name, bytes_le_antisymm e.name f.name)
insert_sorted_comm e f (g ∷ es) ne = ground (
  arith,
  bytes_le_total e.name f.name,
  bytes_le_antisymm e.name f.name,
  bytes_le_trans e.name f.name g.name,
  bytes_le_trans f.name e.name g.name,
  insert_sorted_comm e f es ne,
)

abbrev pub names : List TreeEntry → List Bytes
names = map (λ e. e.name)

sort_by_name-Permᴰ :
    {es fs : List TreeEntry} → Permᴰ es fs → Nodup (names es) → sort_by_name es ≡ sort_by_name fs
unfolding sort_by_name
sort_by_name-Permᴰ Permᴰ.nil d = refl
sort_by_name-Permᴰ (Permᴰ.cons e p) d =
    ap₂ insert_sorted e (sort_by_name-Permᴰ p (Nodup-cons.0 d).1)
sort_by_name-Permᴰ (Permᴰ.swap {a = a} {b = b} {l = l} e f) d =
    insert_sorted_comm a b (sort_by_name l) (λ same. (Nodup-cons.0 d).0 (rw same mem-cons_self))
    ∙ ap₂ (λ x y. insert_sorted x (insert_sorted y (sort_by_name l))) f e
sort_by_name-Permᴰ (Permᴰ.trans p q) d =
    sort_by_name-Permᴰ p d ∙ sort_by_name-Permᴰ q (Perm.nodup (Perm.map (λ e. e.name) ∣ p ∣₁) d)

-- Trees with the same entries in any order, under different names, have the same hash.
pub hash_tree_perm :
    (digest : Bytes → Hash) {es fs : List TreeEntry}
    → Perm es fs
    → Nodup (names es)
    → hash_tree digest es ≡ hash_tree digest fs
unfolding hash_tree
hash_tree_perm digest p d =
    ∥∥₁_elim p (hedberg Bytes-discrete _ _)
      (λ q. ap (λ l. digest (framed (codes "tree") (tree_lines l))) (sort_by_name-Permᴰ q d))
