-- ===== src/Tests/Packs.antt =====
-- A pack of one object, whose index file has one number and a hash.
use edge_orchestrator.Common.{
  ◌≡◌, refl, true, Option, none, some, List, [], ◌∷◌, Bytes, map, arith, nat_eq, bytes_eq,
  ℕ_discrete, Bytes-discrete,
}
use edge_orchestrator.Common.HashMap
use edge_orchestrator.Types.{Hash}
use edge_orchestrator.Raft.Storage.Interfaces.{ok}
use edge_orchestrator.Storage.Pack.{
  IndexEntry, PackIndex, RawEntry, raw, IndexFormat, Disk, append, new, flush, open_reader, read,
  iter, insert, pack_bytes,
}
use edge_orchestrator.Storage.Pack.Located.{append_all, last_data}
use edge_orchestrator.Storage.Pack.RoundTrip.{read-flush}

-- an index of one entry can be written
abbrev write : List IndexEntry → Option Bytes
write [] = none
write (e ∷ []) = some (e.offset ∷ e.length ∷ e.hash)
write (e ∷ d ∷ es) = none

abbrev read_text : Bytes → Option (List RawEntry)
read_text (o ∷ n ∷ h) = some (record { offset = some o; length = some n; hash = some h } ∷ [])
read_text _ = none

pub write_back :
    (es : List IndexEntry) (text : Bytes)
    → write es ≡ some text
    → read_text text ≡ some (map raw es)
write_back [] text h = absurd (cc)
write_back (e ∷ []) text h = ground (arith, h)
write_back (e ∷ d ∷ es) text h = absurd (cc)

abbrev single : IndexFormat
single = record {
  to_string_pretty = write;
  from_str = read_text;
  from_str-to_string_pretty = write_back;
}

abbrev good_disk : Disk
good_disk = record { created = true; written = true; flushed = true; index_written = true }

-- the same object twice: the second copy is read
abbrev objects : List (Hash × Bytes)
objects = (9 ∷ [], 1 ∷ 2 ∷ []) ∷ (9 ∷ [], 3 ∷ []) ∷ []

flushed : flush single good_disk (append_all new objects) ≡ ok (1 ∷ 2 ∷ 3 ∷ [], 2 ∷ 1 ∷ 9 ∷ [])
unfolding flush append_all append insert iter pack_bytes HashMap.insert ℕ_discrete Bytes-discrete
flushed = refl

read-flush_example :
    (r : PackIndex) × (open_reader single (some (2 ∷ 1 ∷ 9 ∷ [])) ≡ ok r)
    × (read r (some (1 ∷ 2 ∷ 3 ∷ [])) (9 ∷ []) ≡ ok (3 ∷ []))
unfolding last_data ℕ_discrete Bytes-discrete
read-flush_example =
    read-flush single good_disk objects (1 ∷ 2 ∷ 3 ∷ []) (2 ∷ 1 ∷ 9 ∷ []) (9 ∷ []) flushed
