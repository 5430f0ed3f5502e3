-- ===== src/Storage/Pack.antt =====
-- crates/storage/src/index.rs: packfiles, their writer and their reader. The two files are what
-- `flush` leaves on disk; serde_json is the record `IndexFormat`. Offsets are taken to fit 64 bits.
pub mod Located
pub mod RoundTrip
use edge_orchestrator.Common.{
  ℕ, zero, suc, ◌+◌, ◌≡◌, Bool, true, false, Option, none, some, List, [], ◌∷◌, ◌++◌, Bytes,
  bytes_eq, length, map, leb, if◌then◌else◌,
}
use edge_orchestrator.Common.HashMap
use edge_orchestrator.Common.HashMap.{HashMap}
use edge_orchestrator.Types.{Hash, CoreError, object_not_found, storage_io, serialization}
use edge_orchestrator.Raft.Storage.Interfaces.{Result, ok, err}

pub record IndexEntry : Type 0 where
  pub offset : ℕ
  pub length : ℕ
  pub hash : Hash

-- `PackIndex`
abbrev pub PackIndex : Type 0
PackIndex = HashMap Hash IndexEntry

unfoldable pub insert : PackIndex → IndexEntry → PackIndex
insert index entry = HashMap.insert entry.hash entry index

pub get : PackIndex → Hash → Option IndexEntry
get index hash = HashMap.get hash index

-- `iter`: the values of the map
unfoldable pub iter : PackIndex → List IndexEntry
iter index = map (λ p. p.1) index

pub record PackWriter : Type 0 where
  pub objects : List (Hash × Bytes)
  pub index : PackIndex
  pub offset : ℕ

abbrev pub new : PackWriter
new = record { objects = []; index = []; offset = 0 }

unfoldable pub append : PackWriter → Hash → Bytes → PackWriter
unfolding insert
append w hash data' = record {
  index = insert w.index (record { offset = w.offset; length = length data'; hash = hash });
  objects = w.objects ++ (hash, data') ∷ [];
  offset = w.offset + length data';
}

-- one entry of the index file as it is read, its fields perhaps missing
pub record RawEntry : Type 0 where
  pub offset : Option ℕ
  pub length : Option ℕ
  pub hash : Option Hash

abbrev pub raw : IndexEntry → RawEntry
raw e = record { offset = some e.offset; length = some e.length; hash = some e.hash }

-- serde_json reads back the array that it wrote.
pub record IndexFormat : Type 0 where
  pub to_string_pretty : List IndexEntry → Option Bytes
  pub from_str : Bytes → Option (List RawEntry)
  pub from_str-to_string_pretty :
      (es : List IndexEntry) (text : Bytes)
      → to_string_pretty es ≡ some text
      → from_str text ≡ some (map raw es)

-- which calls of the file system succeed
pub record Disk : Type 0 where
  pub created : Bool
  pub written : Bool
  pub flushed : Bool
  pub index_written : Bool

-- what all the objects' writes leave in the packfile
unfoldable pub pack_bytes : List (Hash × Bytes) → Bytes
pack_bytes [] = []
pack_bytes ((h, d) ∷ os) = d ++ pack_bytes os

abbrev pub write_index : Disk → Bytes → Option Bytes → Result (Bytes × Bytes)
write_index disk pack none = err serialization
write_index disk pack (some text) = if disk.index_written then ok (pack, text) else err storage_io

-- the packfile and the index file
unfoldable pub flush : IndexFormat → Disk → PackWriter → Result (Bytes × Bytes)
unfolding iter
flush f disk w =
    if disk.created
    then (if disk.written
        then (if disk.flushed
            then write_index disk (pack_bytes w.objects) (f.to_string_pretty (iter w.index))
            else err storage_io)
        else err storage_io)
    else err storage_io

abbrev pub unwrap_or {ℓ} : {A : Type ℓ} → Option A → A → A
unwrap_or none d = d
unwrap_or (some a) d = a

abbrev pub entry_of : RawEntry → IndexEntry
entry_of e = record {
  offset = unwrap_or e.offset 0;
  length = unwrap_or e.length 0;
  hash = unwrap_or e.hash [];
}

unfoldable pub load : PackIndex → List RawEntry → PackIndex
unfolding insert
load index [] = index
load index (e ∷ es) = load (insert index (entry_of e)) es

abbrev pub parsed : Option (List RawEntry) → Result PackIndex
parsed none = err serialization
parsed (some es) = ok (load [] es)

-- `PackReader::open`, of the index file's text; the packfile is opened by each read
unfoldable pub open_reader : IndexFormat → Option Bytes → Result PackIndex
open_reader f none = err storage_io
open_reader f (some text) = parsed (f.from_str text)

abbrev pub drop : ℕ → Bytes → Bytes
drop zero s = s
drop (suc n) [] = []
drop (suc n) (x ∷ s) = drop n s

abbrev pub take : ℕ → Bytes → Bytes
take zero s = []
take (suc n) [] = []
take (suc n) (x ∷ s) = x ∷ take n s

-- `seek` and `read_exact`
pub read_at : Bytes → ℕ → ℕ → Option Bytes
read_at file offset n =
    let rest = drop offset file in if leb n (length rest) then some (take n rest) else none

abbrev pub or_io : Option Bytes → Result Bytes
or_io none = err storage_io
or_io (some b) = ok b

pub read_entry : Option Bytes → IndexEntry → Result Bytes
unfolding read_at
read_entry none e = err storage_io
read_entry (some file) e = or_io (read_at file e.offset e.length)

-- `file` is the packfile, where it can be opened
unfoldable pub read : PackIndex → Option Bytes → Hash → Result Bytes
unfolding get read_entry
read index file hash = elim (get index hash) [
  | none ↦ err (object_not_found hash)
  | some e ↦ read_entry file e
]

pub exists : PackIndex → Hash → Bool
unfolding get
exists index hash = elim (get index hash) [ none ↦ false | some e ↦ true ]
