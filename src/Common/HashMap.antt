-- ===== src/Common/HashMap.antt =====
-- `HashMap<K, V>` (and `BTreeMap`): an association list, whose order stands for the order of iteration.
use edge_orchestrator.Common.Tests.{Eq}
use mathlib.Core.Path.{◌≡◌, refl, ◌∙◌}
use mathlib.Core.Logic.{ite, ◌≢◌}
use mathlib.Core.Bool.{Bool, true, false}
use mathlib.Core.Option.{Option, none, some}
use mathlib.Core.List.{List, [], ◌∷◌}
use native.Mathlib.Omega.{arith}

abbrev pub HashMap {ℓ} : Type ℓ → Type ℓ → Type ℓ
HashMap K V = List (K × V)

module _ {ℓ} {K V : Type ℓ} ⦃e : Eq K⦄ where
  unfoldable pub get : K → HashMap K V → Option V
  get k [] = none
  get k ((j, v) ∷ m) = ite (e.dec j k) (some v) (get k m)

  unfoldable pub contains_key : K → HashMap K V → Bool
  contains_key k [] = false
  contains_key k ((j, v) ∷ m) = elim (e.dec j k) [ yes _ ↦ true | no _ ↦ contains_key k m ]

  unfoldable pub insert : K → V → HashMap K V → HashMap K V
  insert k v [] = (k, v) ∷ []
  insert k v ((j, w) ∷ m) = ite (e.dec j k) ((k, v) ∷ m) ((j, w) ∷ insert k v m)

  unfoldable pub remove : K → HashMap K V → HashMap K V
  remove k [] = []
  remove k ((j, w) ∷ m) = let rest = remove k m in ite (e.dec j k) rest ((j, w) ∷ rest)

  -- Every key stands once.
  abbrev pub IsUnique : HashMap K V → Type 0
  IsUnique [] = Unit {0}
  IsUnique ((k, v) ∷ m) = (contains_key k m ≡ false) × IsUnique m

  pub contains_key_iff_get :
      (k : K) (m : HashMap K V) → contains_key k m ≡ elim (get k m) [ none ↦ false | some _ ↦ true ]
  unfolding contains_key get
  contains_key_iff_get k [] = refl
  contains_key_iff_get k ((i, w) ∷ m) = ground (arith, contains_key_iff_get k m)

  pub get-insert :
      (k j : K) (v : V) (m : HashMap K V)
      → get j (insert k v m) ≡ ite (e.dec k j) (some v) (get j m)
  unfolding get insert
  get-insert k j v [] = refl
  get-insert k j v ((i, w) ∷ m) = ground (arith, get-insert k j v m)

  pub get-remove : (k j : K) (m : HashMap K V) → get j (remove k m) ≡ ite (e.dec k j) none (get j m)
  unfolding get remove
  get-remove k j [] = ground arith
  get-remove k j ((i, w) ∷ m) = ground (arith, get-remove k j m)

  pub get-insert_eq : {k j : K} (v : V) (m : HashMap K V) → k ≡ j → get j (insert k v m) ≡ some v
  get-insert_eq {k} {j} v m same = get-insert k j v m ∙ ground (arith, same)

  pub get-insert_ne : {k j : K} (v : V) (m : HashMap K V) → k ≢ j → get j (insert k v m) ≡ get j m
  get-insert_ne {k} {j} v m ne = get-insert k j v m ∙ ground (arith, ne)

  pub get-remove_eq : {k j : K} (m : HashMap K V) → k ≡ j → get j (remove k m) ≡ none
  get-remove_eq {k} {j} m same = get-remove k j m ∙ ground (arith, same)

  pub get-remove_ne : {k j : K} (m : HashMap K V) → k ≢ j → get j (remove k m) ≡ get j m
  get-remove_ne {k} {j} m ne = get-remove k j m ∙ ground (arith, ne)

  pub contains_key-insert :
      (k j : K) (v : V) (m : HashMap K V)
      → contains_key j (insert k v m) ≡ elim (e.dec k j) [ yes _ ↦ true | no _ ↦ contains_key j m ]
  unfolding contains_key insert
  contains_key-insert k j v [] = refl
  contains_key-insert k j v ((i, w) ∷ m) = ground (arith, contains_key-insert k j v m)

  pub contains_key-remove :
      (k j : K) (m : HashMap K V)
      → contains_key j (remove k m) ≡ elim (e.dec k j) [ yes _ ↦ false | no _ ↦ contains_key j m ]
  unfolding contains_key remove
  contains_key-remove k j [] = ground arith
  contains_key-remove k j ((i, w) ∷ m) = ground (arith, contains_key-remove k j m)

  pub insert-IsUnique : (k : K) (v : V) (m : HashMap K V) → IsUnique m → IsUnique (insert k v m)
  unfolding insert contains_key
  insert-IsUnique k v [] h = (refl, tt)
  insert-IsUnique k v ((j, w) ∷ m) h =
      ground (arith, contains_key-insert k j v m, insert-IsUnique k v m)

  pub remove-IsUnique : (k : K) (m : HashMap K V) → IsUnique m → IsUnique (remove k m)
  unfolding remove
  remove-IsUnique k [] h = tt
  remove-IsUnique k ((j, w) ∷ m) h = ground (arith, contains_key-remove k j m, remove-IsUnique k m)
