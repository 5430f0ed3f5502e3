-- ===== src/Common/Lists.antt =====
-- Lists measured by native numbers, membership by a test, and facts on all members.
use Prim.Native.Nat.{ℕ, zero, suc, ◌+◌}
use mathlib.Core.Path.{◌≡◌, refl}
use mathlib.Core.Logic.{inl, inr}
use mathlib.Core.Bool.{Bool, true, false, ◌||◌}
use mathlib.Core.Option.{Option, none, some}
use mathlib.Core.Option
use mathlib.Core.List.{List, [], ◌∷◌, ◌++◌}
use native.Mathlib.Omega.{arith}
use edge_orchestrator.Common.Tests.{Eq, if◌then◌else◌, Option-cases}

module _ {ℓ} {A : Type ℓ} where
  abbrev pub length : List A → ℕ
  length [] = 0
  length (x ∷ xs) = suc (length xs)

  pub length-append : (xs ys : List A) → length (xs ++ ys) ≡ length xs + length ys
  length-append [] ys = omega arith
  length-append (x ∷ xs) ys = omega (arith, length-append xs ys)

  pub append_cancel_left : (k a b : List A) → k ++ a ≡ k ++ b → a ≡ b
  append_cancel_left [] a b e = e
  append_cancel_left (x ∷ k) a b e = append_cancel_left k a b (cc)

  abbrev pub All {κ} : (A → Type κ) → List A → Type κ
  All P [] = Unit
  All P (x ∷ xs) = P x × All P xs

  abbrev pub get_or_default : Option (List A) → List A
  get_or_default none = []
  get_or_default (some xs) = xs

  -- `Vec::remove`, at an index in range
  unfoldable pub remove_at : ℕ → List A → List A
  remove_at i [] = []
  remove_at zero (x ∷ xs) = xs
  remove_at (suc i) (x ∷ xs) = x ∷ remove_at i xs

  -- `iter().filter(p)`
  abbrev pub filter : (A → Bool) → List A → List A
  filter p [] = []
  filter p (x ∷ xs) = let rest = filter p xs in if p x then x ∷ rest else rest

module _ {ℓ} {A : Type ℓ} ⦃e : Eq A⦄ where
  -- `contains`
  unfoldable pub contains : A → List A → Bool
  contains a [] = false
  contains a (x ∷ xs) = elim (e.dec x a) [ yes _ ↦ true | no _ ↦ contains a xs ]

  abbrev pub IsDistinct : List A → Type 0
  IsDistinct [] = Unit {0}
  IsDistinct (x ∷ xs) = (contains x xs ≡ false) × IsDistinct xs

  pub contains-append :
      (a : A) (xs ys : List A) → contains a (xs ++ ys) ≡ (contains a xs || contains a ys)
  unfolding contains
  contains-append a [] ys = refl
  contains-append a (x ∷ xs) ys = ground (arith, contains-append a xs ys)

  -- `iter().position(|x| *x == a)`
  unfoldable pub position : A → List A → Option ℕ
  position a [] = none
  position a (x ∷ xs) = elim (e.dec x a) [ yes _ ↦ some 0 | no _ ↦ Option.map suc (position a xs) ]

  pub position-contains : (a : A) (xs : List A) → position a xs ≡ none → contains a xs ≡ false
  unfolding position contains
  position-contains a [] h = refl
  position-contains a (x ∷ xs) h = ground (arith, position-contains a xs)

  -- Removing at the position of a member takes that member out, and no other.
  pub contains-remove_at :
      (a b : A) (xs : List A) {i : ℕ}
      → position a xs ≡ some i
      → IsDistinct xs
      → contains b (remove_at i xs) ≡ elim (e.dec a b) [ yes _ ↦ false | no _ ↦ contains b xs ]
  unfolding position contains remove_at
  contains-remove_at a b [] h d = cc
  contains-remove_at a b (x ∷ xs) {i} h d = elim (Option-cases (position a xs)) [
    | inl gone ↦ ground (arith, position-contains a xs)
    | inr (j, found) ↦ ground (arith, contains-remove_at a b xs found)
  ]

  pub contains_of_position :
      (a : A) (xs : List A) {i : ℕ} → position a xs ≡ some i → contains a xs ≡ true
  unfolding position contains
  contains_of_position a [] h = cc
  contains_of_position a (x ∷ xs) h = elim (Option-cases (position a xs)) [
    | inl gone ↦ ground arith
    | inr (j, found) ↦ ground (arith, contains_of_position a xs found)
  ]

  not-contains-remove_at :
      (a : A) (xs : List A) (i : ℕ) → contains a xs ≡ false → contains a (remove_at i xs) ≡ false
  unfolding remove_at contains
  not-contains-remove_at a [] i h = refl
  not-contains-remove_at a (x ∷ xs) zero h = ground arith
  not-contains-remove_at a (x ∷ xs) (suc i) h = ground (arith, not-contains-remove_at a xs i)

  pub remove_at-IsDistinct : (xs : List A) (i : ℕ) → IsDistinct xs → IsDistinct (remove_at i xs)
  unfolding remove_at
  remove_at-IsDistinct [] i h = tt
  remove_at-IsDistinct (x ∷ xs) zero h = h.1
  remove_at-IsDistinct (x ∷ xs) (suc i) h =
      (not-contains-remove_at x xs i h.0, remove_at-IsDistinct xs i h.1)
