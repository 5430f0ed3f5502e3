-- ===== src/Storage/Diff/Patch.antt =====
-- What a difference says of each name.
use edge_orchestrator.Common.{
  ◌≡◌, refl, ap, sym, ◌∙◌, Bool, not, Option, none, some, List, [], ◌∷◌, Bytes, Bytes-discrete,
  arith, filter, Bool-cases, Option-cases, inl, inr, if◌then◌else◌,
}
use edge_orchestrator.Types.{Hash}
use edge_orchestrator.Storage.Objects.{TreeEntry, insert_sorted}
use edge_orchestrator.Storage.Diff.{
  get, without, collect_from, same_hash, is_none, TreeDiff, diff_trees,
}

-- the entries of a map have different names
abbrev IsUnique : List TreeEntry → Type 0
IsUnique [] = Unit {0}
IsUnique (e ∷ es) = (get e.name es ≡ none) × IsUnique es

get-without :
    (n m : Bytes) (es : List TreeEntry)
    → get m (without n es) ≡ elim (Bytes-discrete n m) [ yes _ ↦ none | no _ ↦ get m es ]
unfolding get without
get-without n m [] = ground arith
get-without n m (e ∷ es) = ground (arith, get-without n m es)

without-IsUnique : (n : Bytes) (es : List TreeEntry) → IsUnique es → IsUnique (without n es)
unfolding without
without-IsUnique n [] u = tt
without-IsUnique n (e ∷ es) u = ground (arith, get-without n e.name es, without-IsUnique n es)

get-insert_sorted :
    (e : TreeEntry) (m : Bytes) (es : List TreeEntry)
    → get e.name es ≡ none
    → get m (insert_sorted e es)
      ≡ elim (Bytes-discrete e.name m) [ yes _ ↦ some e | no _ ↦ get m es ]
unfolding get insert_sorted
get-insert_sorted e m [] f = refl
get-insert_sorted e m (x ∷ es) f = ground (arith, get-insert_sorted e m es)

insert_sorted-IsUnique :
    (e : TreeEntry) (es : List TreeEntry)
    → get e.name es ≡ none
    → IsUnique es
    → IsUnique (insert_sorted e es)
unfolding insert_sorted get
insert_sorted-IsUnique e [] f u = (refl, tt)
insert_sorted-IsUnique e (x ∷ es) f u =
    ground (arith, get-insert_sorted e x.name es, insert_sorted-IsUnique e es)

collect_from-IsUnique : (map es : List TreeEntry) → IsUnique map → IsUnique (collect_from map es)
unfolding collect_from
collect_from-IsUnique map [] u = u
collect_from-IsUnique map (e ∷ es) u =
    collect_from-IsUnique (insert_sorted e (without e.name map)) es (
      insert_sorted-IsUnique e (without e.name map) (get-without e.name e.name map ∙ ground arith)
        (without-IsUnique e.name map u))

-- an entry that passes a test
abbrev kept_by : (TreeEntry → Bool) → Option TreeEntry → Option TreeEntry
kept_by p none = none
kept_by p (some e) = if p e then some e else none

get-filter :
    (p : TreeEntry → Bool) (n : Bytes) (es : List TreeEntry)
    → IsUnique es
    → get n (filter p es) ≡ kept_by p (get n es)
unfolding get
get-filter p n [] u = refl
get-filter p n (e ∷ es) u = elim (Bool-cases (p e)) [
  | inl keeps ↦ rw keeps (ground (arith, keeps, get-filter p n es u.1))
  | inr drops ↦ elim (Bytes-discrete e.name n) [
    | yes here ↦ rw drops (get-filter p n es u.1 ∙ ground (arith, drops, u.0, here))
    | no other ↦ rw drops (get-filter p n es u.1 ∙ ground arith)
  ]
]

name-get : (n : Bytes) (es : List TreeEntry) {e : TreeEntry} → get n es ≡ some e → e.name ≡ n
unfolding get
name-get n [] h = absurd (cc)
name-get n (x ∷ es) {e = e} h = elim (Bytes-discrete x.name n) [
  | yes here ↦ (let same : some x ≡ some e = ground arith in cc (same, here))
  | no other ↦ name-get n es {e = e} (ground arith)
]

-- The last entry of a name in a tree as it is listed.
pub last_named : Bytes → List TreeEntry → Option TreeEntry
last_named n [] = none
last_named n (e ∷ es) = elim (last_named n es) [
  | some later ↦ some later
  | none ↦ elim (Bytes-discrete e.name n) [ yes _ ↦ some e | no _ ↦ none ]
]

get-collect_from :
    (n : Bytes) (map es : List TreeEntry)
    → get n (collect_from map es)
      ≡ elim (last_named n es) [ some later ↦ some later | none ↦ get n map ]
unfolding collect_from last_named
get-collect_from n map [] = refl
get-collect_from n map (e ∷ es) =
    get-collect_from n (insert_sorted e (without e.name map)) es
    ∙ elim (Option-cases (last_named n es)) [
      | inr (later, at) ↦ rw at refl
      | inl nothing ↦ ground (
        arith,
        nothing,
        get-insert_sorted e n (without e.name map) (get-without e.name e.name map ∙ ground arith),
        get-without e.name n map,
      )
    ]

-- what is under a name: added or modified, removed, or as it was
abbrev pub over : (added removed old : Option TreeEntry) → Option TreeEntry
over (some e) removed old = some e
over none (some e) old = none
over none none old = old

-- the old tree with a difference applied
pub patched : TreeDiff → List TreeEntry → Bytes → Option TreeEntry
patched d old n = over (get n d.added_or_modified) (get n d.removed) (last_named n old)

abbrev pub hash_of : Option TreeEntry → Option Hash
hash_of none = none
hash_of (some e) = some e.hash

-- What the two passes over the maps come to, at a name with `old` and `new` under it.
pass :
    (old new : Option TreeEntry)
    → hash_of (over (kept_by (λ e. not (same_hash e old)) new) (kept_by (λ e. is_none new) old) old)
      ≡ hash_of new
pass none none = refl
pass (some o) none = refl
pass none (some e) = refl
pass (some o) (some e) = elim (Bytes-discrete o.hash e.hash) [
  | yes same ↦ ground (arith, same)
  | no other ↦ ground (arith, other)
]

module _ (m : List TreeEntry) (u : IsUnique m) (n : Bytes) (test : TreeEntry → Bytes → Bool) where
  -- A pass that looks a name up in the other map looks up the name in question.
  get-pass : get n (filter (λ e. test e e.name) m) ≡ kept_by (λ e. test e n) (get n m)
  get-pass = elim (Option-cases (get n m)) [
    | inl gone ↦ get-filter (λ e. test e e.name) n m u ∙ rw gone refl
    | inr (e, there) ↦
        get-filter (λ e. test e e.name) n m u
        ∙ rw there (ap (λ k. if test e k then some e else none) (name-get n m there))
  ]

-- Taking the removed entries out of the old tree and putting the added and modified ones in gives
-- under each name the hash that the new tree has there; of several entries with one name the last
-- counts, in both trees.
pub diff_trees-patched :
    (old new : List TreeEntry) (n : Bytes)
    → hash_of (patched (diff_trees old new) old n) ≡ hash_of (last_named n new)
unfolding patched diff_trees
diff_trees-patched old new n =
    let old_map : List TreeEntry = collect_from [] old in
    let new_map : List TreeEntry = collect_from [] new in
    let in_old : last_named n old ≡ get n old_map =
      sym (get-collect_from n [] old ∙ ground arith) in
    let in_new : get n new_map ≡ last_named n new = get-collect_from n [] new ∙ ground arith in
    let by_new : (k : Bytes) → TreeEntry → Bool = λ k e. not (same_hash e (get k old_map)) in
    let by_old : (k : Bytes) → TreeEntry → Bool = λ k e. is_none (get k new_map) in
    ap (λ a. hash_of (over a (get n (diff_trees old new).removed) (last_named n old)))
      (get-pass new_map (collect_from-IsUnique [] new tt) n (λ e k. by_new k e))
    ∙ ap (λ r. hash_of (over (kept_by (by_new n) (get n new_map)) r (last_named n old)))
        (get-pass old_map (collect_from-IsUnique [] old tt) n (λ e k. by_old k e))
    ∙ ap
        (λ o.
          hash_of
            (over (kept_by (by_new n) (get n new_map)) (kept_by (by_old n) (get n old_map)) o))
        in_old
    ∙ pass (get n old_map) (get n new_map)
    ∙ ap hash_of in_new
