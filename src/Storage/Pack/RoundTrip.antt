-- ===== src/Storage/Pack/RoundTrip.antt =====
-- Reading from the files of a pack what was appended to it.
use edge_orchestrator.Common.{
  ◌≡◌, ◌∙◌, refl, sym, ap, subst, inl, inr, Bool, true, false, Option, none, some, List, [], ◌∷◌,
  Bytes, Bytes-discrete, bytes_eq, length, map, arith, Option-cases,
}
use edge_orchestrator.Common.HashMap
use edge_orchestrator.Common.HashMap.{HashMap, IsUnique}
use edge_orchestrator.Types.{Hash, object_not_found}
use edge_orchestrator.Raft.Storage.Interfaces.{Result, ok, err}
use edge_orchestrator.Storage.Pack.{
  IndexEntry, PackIndex, insert, get, iter, PackWriter, new, raw, IndexFormat, Disk, pack_bytes,
  flush, load, open_reader, read_at, read_entry, read, parsed, or_io,
}
use edge_orchestrator.Storage.Pack.Located.{
  last_data, append_all, read_at-append, Lies, Located, nowhere, found, IsKeyed, Located-moved,
  append_all-Inv, objects-append_all, new-Inv,
}

abbrev or_else : Option IndexEntry → Option IndexEntry → Option IndexEntry
or_else none o = o
or_else (some e) o = some e

none_above : (o : Option IndexEntry) → or_else o none ≡ o
none_above none = refl
none_above (some e) = refl

missing :
    (j h : Hash) (m : PackIndex) → j ≡ h → HashMap.contains_key j m ≡ false → HashMap.get h m ≡ none
missing j h m same gone = elim (Option-cases (HashMap.get h m)) [
  | inl nothing ↦ nothing
  | inr (e, there) ↦ absurd (
      let c = HashMap.contains_key_iff_get h m in
      let g = ap (λ (k : Hash). HashMap.contains_key k m) same in
      let t =
        ap (λ (o : Option IndexEntry). elim o as (λ _. Bool) [ none ↦ false | some _ ↦ true ])
          there in
      cc (c, g, gone, t))
]

-- Reading the entries back gives the map that was written.
get-load :
    (h : Hash) (m acc : PackIndex)
    → IsUnique m
    → IsKeyed m
    → HashMap.get h (load acc (map raw (iter m))) ≡ or_else (HashMap.get h m) (HashMap.get h acc)
unfolding load iter insert HashMap.get
get-load h [] acc u k = refl
get-load h ((j, e) ∷ m) acc u k =
    let acc' = HashMap.insert e.hash e acc in
    let later = get-load h m acc' u.1 k.1 in
    elim (Bytes-discrete j h) [
      | yes same ↦
          (let gone : HashMap.get h m ≡ none = missing j h m same u.0 in
            later
            ∙ ap (λ (o : Option IndexEntry). or_else o (HashMap.get h acc')) gone
            ∙ HashMap.get-insert_eq e acc (k.0 ∙ same)
            ∙ ground (arith, same))
      | no ne ↦
          later
          ∙ ap (or_else (HashMap.get h m))
              (HashMap.get-insert_ne e acc (λ (f : e.hash ≡ h). ne (sym k.0 ∙ f)))
          ∙ ground (arith, ne)
    ]

-- The index that is opened is the one that was flushed.
get-open_reader :
    (f : IndexFormat) (index : PackIndex) (text : Bytes) (h : Hash)
    → IsUnique index
    → IsKeyed index
    → f.to_string_pretty (iter index) ≡ some text
    → (r : PackIndex) × (open_reader f (some text) ≡ ok r) × (get r h ≡ get index h)
unfolding open_reader get HashMap.get
get-open_reader f index text h u k e = (
  load [] (map raw (iter index)),
  ap parsed (f.from_str-to_string_pretty (iter index) text e),
  get-load h index [] u k ∙ none_above (HashMap.get h index),
)

-- What was read, as what was appended.
abbrev pub expected : Hash → Option Bytes → Result Bytes
expected h none = err (object_not_found h)
expected h (some d) = ok d

read_found :
    (r : PackIndex) (file : Bytes) (h : Hash) (e : IndexEntry) (x : Bytes)
    → get r h ≡ some e
    → Lies e h x file
    → read r (some file) h ≡ ok x
unfolding read read_entry
read_found r file h e x a l =
    let at : read_at file e.offset e.length ≡ some x = rw l.starts (
      rw l.spans (
        subst (λ (c : Bytes). read_at c (length l.before) (length x) ≡ some x) (sym l.here)
          (read_at-append l.before x l.after))) in
    rw (a, read) (ap or_io at)

read-Located :
    (r : PackIndex) (file : Bytes) (h : Hash) (d : Option Bytes)
    → Located h file (get r h) d
    → read r (some file) h ≡ expected h d
unfolding read
read-Located r file h d (nowhere a b) = rw (a, read) (rw b refl)
read-Located r file h d (found e x a b l) = rw b (read_found r file h e x a l)

flushed :
    (f : IndexFormat) (disk : Disk) (w : PackWriter) (pack text : Bytes)
    → flush f disk w ≡ ok (pack, text)
    → (pack_bytes w.objects ≡ pack) × (f.to_string_pretty (iter w.index) ≡ some text)
unfolding flush
flushed f disk w pack text e = elim (Option-cases (f.to_string_pretty (iter w.index))) [
  | inl nothing ↦ absurd (ground (arith, nothing, e))
  | inr (t, wrote) ↦ (ground (arith, wrote, e), ground (arith, wrote, e))
]

-- A pack of any appended objects, once written, opens; and reading a hash from it gives the data
-- that was last appended for the hash, or that the object is not found where none was.
pub read-flush :
    (f : IndexFormat) (disk : Disk) (os : List (Hash × Bytes)) (pack text : Bytes) (h : Hash)
    → flush f disk (append_all new os) ≡ ok (pack, text)
    → (r : PackIndex) × (open_reader f (some text) ≡ ok r)
      × (read r (some pack) h ≡ expected h (last_data h os))
read-flush f disk os pack text h e =
    let w = append_all new os in
    let i = append_all-Inv new os new-Inv in
    let (file, wrote) = flushed f disk w pack text e in
    let (r, opened, same) = get-open_reader f w.index text h i.unique i.keyed wrote in
    (
      r,
      opened,
      read-Located r pack h (last_data h os) (
          Located-moved h (pack_bytes w.objects) pack (get w.index h) (get r h)
            (last_data h w.objects) (last_data h os) file same
            (ap (last_data h) (sym (objects-append_all new os))) (i.locates h)),
    )
