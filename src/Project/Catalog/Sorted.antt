-- ===== src/Project/Catalog/Sorted.antt =====
-- The head of a list that is sorted by Raft id.
use mathlib.Core.List.{Memᴰ}
use edge_orchestrator.Common.{
  ℕ, ◌≡◌, refl, inl, inr, true, false, Option, none, some, List, [], ◌∷◌, arith, Bool-cases,
}
use edge_orchestrator.Project.Catalog.{raft_id_le, insert_by_key, sort_by_key}

pub raft_id_le_trans :
    (a b c : Option ℕ) → raft_id_le a b ≡ true → raft_id_le b c ≡ true → raft_id_le a c ≡ true
raft_id_le_trans none b c h k = refl
raft_id_le_trans (some a) none c h k = cc
raft_id_le_trans (some a) (some b) none h k = cc
raft_id_le_trans (some a) (some b) (some c) h k = ground arith

pub raft_id_le_refl : (a : Option ℕ) → raft_id_le a a ≡ true
raft_id_le_refl none = refl
raft_id_le_refl (some a) = ground arith

pub raft_id_le_total : (a b : Option ℕ) → raft_id_le a b ≡ false → raft_id_le b a ≡ true
raft_id_le_total none b h = cc
raft_id_le_total (some a) none h = refl
raft_id_le_total (some a) (some b) h = ground arith

module _ {A : Type 0} (key : A → Option ℕ) where
  abbrev pub IsHead : A → List A → Type 0
  IsHead d xs = Memᴰ d xs × ((x : A) → Memᴰ x xs → raft_id_le (key d) (key x) ≡ true)

  abbrev pub FrontIsHead : List A → List A → Type 0
  FrontIsHead [] xs = xs ≡ []
  FrontIsHead (d ∷ others) xs = IsHead d xs

  pub head_of_one : (x : A) → IsHead x (x ∷ [])
  head_of_one x = (Memᴰ.head refl, one)
    where
      one : (y : A) → Memᴰ y (x ∷ []) → raft_id_le (key x) (key y) ≡ true
      one y (Memᴰ.head e) = rw e (raft_id_le_refl (key x))
      one y (Memᴰ.tail m) = elim m [ ]

  pub head_kept :
      (x y : A) (xs : List A) → IsHead y xs → raft_id_le (key x) (key y) ≡ true → IsHead x (x ∷ xs)
  head_kept x y xs h le = (Memᴰ.head refl, first)
    where
      first : (z : A) → Memᴰ z (x ∷ xs) → raft_id_le (key x) (key z) ≡ true
      first z (Memᴰ.head e) = rw e (raft_id_le_refl (key x))
      first z (Memᴰ.tail m) = raft_id_le_trans (key x) (key y) (key z) le (h.1 z m)

  pub head_passed :
      (x y : A) (xs : List A) → IsHead y xs → raft_id_le (key x) (key y) ≡ false → IsHead y (x ∷ xs)
  head_passed x y xs h gt = (Memᴰ.tail h.0, first)
    where
      first : (z : A) → Memᴰ z (x ∷ xs) → raft_id_le (key y) (key z) ≡ true
      first z (Memᴰ.head e) = rw e (raft_id_le_total (key x) (key y) gt)
      first z (Memᴰ.tail m) = h.1 z m

  pub front_of_insert :
      (x : A) (sorted xs : List A)
      → FrontIsHead sorted xs
      → FrontIsHead (insert_by_key key x sorted) (x ∷ xs)
  unfolding insert_by_key
  front_of_insert x [] xs h = rw h (head_of_one x)
  front_of_insert x (y ∷ ys) xs h = elim (Bool-cases (raft_id_le (key x) (key y))) [
    | inl le ↦ rw le (head_kept x y xs h le)
    | inr gt ↦ rw gt (head_passed x y xs h gt)
  ]

  -- The front of the sorted list is a member of least key.
  pub front_of_sort : (xs : List A) → FrontIsHead (sort_by_key key xs) xs
  unfolding sort_by_key
  front_of_sort [] = refl
  front_of_sort (x ∷ xs) = front_of_insert x (sort_by_key key xs) xs (front_of_sort xs)
