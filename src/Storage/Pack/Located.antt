-- ===== src/Storage/Pack/Located.antt =====
-- Where the appended objects lie in the packfile.
use edge_orchestrator.Common.{
  ◌≡◌, ◌∙◌, refl, sym, ap, subst, Option, none, some, List, [], ◌∷◌, ◌++◌, Bytes, Bytes-discrete,
  bytes_eq, length, length-append, arith, ite, All, if_pos, if_neg,
}
use mathlib.Core.List.{append_assoc, append-nil}
use edge_orchestrator.Common.HashMap
use edge_orchestrator.Common.HashMap.{HashMap, IsUnique}
use edge_orchestrator.Types.{Hash}
use edge_orchestrator.Storage.Pack.{
  IndexEntry, PackIndex, insert, get, PackWriter, new, append, pack_bytes, drop, take, read_at,
}

-- The data last appended for a hash.
unfoldable pub last_data : Hash → List (Hash × Bytes) → Option Bytes
last_data h [] = none
last_data h ((k, d) ∷ os) = elim (last_data h os) [
  | some x ↦ some x
  | none ↦ ite (Bytes-discrete k h) (some d) none
]

unfoldable pub append_all : PackWriter → List (Hash × Bytes) → PackWriter
append_all w [] = w
append_all w ((h, d) ∷ os) = append_all (append w h d) os

last_data-append :
    (h k : Hash) (d : Bytes) (os : List (Hash × Bytes))
    → last_data h (os ++ (k, d) ∷ []) ≡ ite (Bytes-discrete k h) (some d) (last_data h os)
unfolding last_data
last_data-append h k d [] = refl
last_data-append h k d ((j, c) ∷ os) = ground (arith, last_data-append h k d os)

pack_bytes-append :
    (os : List (Hash × Bytes)) (h : Hash) (d : Bytes)
    → pack_bytes (os ++ (h, d) ∷ []) ≡ pack_bytes os ++ d
unfolding pack_bytes
pack_bytes-append [] h d = append-nil d
pack_bytes-append ((k, c) ∷ os) h d =
    ap (λ (x : Bytes). c ++ x) (pack_bytes-append os h d) ∙ sym (append_assoc c (pack_bytes os) d)

drop-append : (a b : Bytes) → drop (length a) (a ++ b) ≡ b
drop-append [] b = refl
drop-append (x ∷ a) b = drop-append a b

take-append : (a b : Bytes) → take (length a) (a ++ b) ≡ a
take-append [] b = refl
take-append (x ∷ a) b = ap (λ (s : Bytes). x ∷ s) (take-append a b)

pub read_at-append : (a d b : Bytes) → read_at (a ++ (d ++ b)) (length a) (length d) ≡ some d
unfolding read_at
read_at-append a d b =
    rw (drop-append a (d ++ b)) (rw (take-append d b) (ground (arith, length-append d b)))

-- Where an entry says that its object lies.
pub record Lies (e : IndexEntry) (h : Hash) (d file : Bytes) : Type 0 where
  pub before : Bytes
  pub after : Bytes
  pub named : e.hash ≡ h
  pub here : file ≡ before ++ (d ++ after)
  pub starts : e.offset ≡ length before
  pub spans : e.length ≡ length d

-- The index locates the data last appended for each hash, and nothing else.
pub data Located (h : Hash) (file : Bytes) (entry : Option IndexEntry) (d : Option Bytes)
    : Type 0 where
  nowhere : entry ≡ none → d ≡ none → Located h file entry d
  found :
      (e : IndexEntry) (x : Bytes)
      → entry ≡ some e
      → d ≡ some x
      → Lies e h x file
      → Located h file entry d

abbrev pub IsKeyed : PackIndex → Type 0
IsKeyed index = All (λ p. p.1.hash ≡ p.0) index

pub record Inv (w : PackWriter) : Type 0 where
  pub keyed : IsKeyed w.index
  pub ends : w.offset ≡ length (pack_bytes w.objects)
  pub unique : IsUnique w.index
  pub locates :
      (h : Hash) → Located h (pack_bytes w.objects) (get w.index h) (last_data h w.objects)

Lies-grown :
    (e : IndexEntry) (h : Hash) (x file more : Bytes) → Lies e h x file → Lies e h x (file ++ more)
Lies-grown e h x file more l = record {
  before = l.before;
  after = l.after ++ more;
  named = l.named;
  here =
      (let at = l.here in ap (λ (f : Bytes). f ++ more) at)
      ∙ append_assoc l.before (x ++ l.after) more
      ∙ ap (λ (f : Bytes). l.before ++ f) (append_assoc x l.after more);
  starts = l.starts;
  spans = l.spans;
}

Located-grown :
    (h : Hash) (file more : Bytes) (entry : Option IndexEntry) (d : Option Bytes)
    → Located h file entry d
    → Located h (file ++ more) entry d
Located-grown h file more entry d (nowhere a b) = nowhere a b
Located-grown h file more entry d (found e x a b l) = found e x a b (Lies-grown e h x file more l)

pub Located-moved :
    (h : Hash) (file file' : Bytes) (entry entry' : Option IndexEntry) (d d' : Option Bytes)
    → file ≡ file'
    → entry' ≡ entry
    → d' ≡ d
    → Located h file entry d
    → Located h file' entry' d'
Located-moved h file file' entry entry' d d' f e g (nowhere a b) = nowhere (e ∙ a) (g ∙ b)
Located-moved h file file' entry entry' d d' f e g (found i x a b l) =
    found i x (e ∙ a) (g ∙ b) (subst (λ (c : Bytes). Lies i h x c) f l)

insert-IsKeyed :
    (index : PackIndex) (e : IndexEntry) → IsKeyed index → IsKeyed (HashMap.insert e.hash e index)
unfolding HashMap.insert
insert-IsKeyed [] e k = (refl, tt)
insert-IsKeyed ((h, i) ∷ index) e k = elim (Bytes-discrete h e.hash) [
  | yes same ↦ rw (if_pos (Bytes-discrete h e.hash) same) (refl, k.1)
  | no ne ↦ rw (if_neg (Bytes-discrete h e.hash) ne) (k.0, insert-IsKeyed index e k.1)
]

append-Inv : (w : PackWriter) (h : Hash) (d : Bytes) → Inv w → Inv (append w h d)
unfolding append insert get
append-Inv w h d i =
    let e : IndexEntry = record { offset = w.offset; length = length d; hash = h } in
    let file : pack_bytes w.objects ++ d ≡ pack_bytes (w.objects ++ (h, d) ∷ []) =
      sym (pack_bytes-append w.objects h d) in
    record {
      keyed = insert-IsKeyed w.index e i.keyed;
      ends =
          let o = i.ends in
          omega (
            arith,
            o,
            ap length (pack_bytes-append w.objects h d),
            length-append (pack_bytes w.objects) d,
          );
      unique = HashMap.insert-IsUnique h e w.index i.unique;
      locates = λ k. elim (Bytes-discrete h k) [
        | yes same ↦
            found e d (HashMap.get-insert_eq e w.index same)
              (last_data-append k h d w.objects ∙ ground (arith, same))
              (record {
                before = pack_bytes w.objects;
                after = [];
                named = same;
                here =
                    sym file ∙ ap (λ (f : Bytes). pack_bytes w.objects ++ f) (sym (append-nil d));
                starts = i.ends;
                spans = refl;
              })
        | no ne ↦
            Located-moved k (pack_bytes w.objects ++ d) (pack_bytes (w.objects ++ (h, d) ∷ []))
              (get w.index k) (HashMap.get k (HashMap.insert h e w.index)) (last_data k w.objects)
              (last_data k (w.objects ++ (h, d) ∷ [])) file (HashMap.get-insert_ne e w.index ne)
              (last_data-append k h d w.objects ∙ ground (arith, ne))
              (Located-grown k (pack_bytes w.objects) d (get w.index k) (last_data k w.objects)
                (i.locates k))
      ];
    }

pub append_all-Inv : (w : PackWriter) (os : List (Hash × Bytes)) → Inv w → Inv (append_all w os)
unfolding append_all
append_all-Inv w [] i = i
append_all-Inv w ((h, d) ∷ os) i = append_all-Inv (append w h d) os (append-Inv w h d i)

pub objects-append_all :
    (w : PackWriter) (os : List (Hash × Bytes)) → (append_all w os).objects ≡ w.objects ++ os
unfolding append_all append
objects-append_all w [] = sym (append-nil w.objects)
objects-append_all w ((h, d) ∷ os) =
    objects-append_all (append w h d) os ∙ append_assoc w.objects ((h, d) ∷ []) os

pub new-Inv : Inv new
unfolding pack_bytes last_data get HashMap.get
new-Inv = record { keyed = tt; ends = refl; unique = tt; locates = λ h. nowhere refl refl }
