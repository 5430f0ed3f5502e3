-- ===== src/Tests/Stores.antt =====
-- A store in memory: files as a function, a small format, a digest of two values.
use edge_orchestrator.Common.{
  ℕ, ◌≡◌, ◌≢◌, ◌≢◌, refl, ap, sym, true, Option, none, some, [], ◌∷◌, ◌++◌, Bytes, Bytes-discrete,
  arith, length, All, inl, zero, suc,
}
use edge_orchestrator.Types.{Hash}
use edge_orchestrator.Storage.Objects.{Object, blob, tree, commit, tag, Tag}
use edge_orchestrator.Storage.Objects.Hashing.{NoCollision, blob_text}
use edge_orchestrator.Storage.Store.Interfaces.{
  Path', FileSystem, Format, Digest, is_some, HexDigit,
}
use edge_orchestrator.Storage.Store.Sound.{IsSound}
use edge_orchestrator.Storage.Store.Writes.{Path'-discrete}

abbrev Files : Type 0
Files = Path' → Option Bytes

abbrev put : Files → Path' → Bytes → Files
put fs p b q = elim (Path'-discrete p q) [ yes _ ↦ some b | no _ ↦ fs q ]

pub put_same : (fs : Files) (p : Path') (b : Bytes) → put fs p b p ≡ some b
put_same fs p b = ground arith

pub put_ne : (fs : Files) (p q : Path') (b : Bytes) → p ≢ q → put fs p b q ≡ fs q
put_ne fs p q b ne = ground arith

abbrev pub memory : FileSystem
memory = record {
  Fs = Files;
  holds = λ fs p. fs p;
  exists = λ fs p. is_some (fs p);
  read = λ fs p. fs p;
  mkdir = λ fs d. (fs, true);
  create = λ fs p. (put fs p [], true);
  write = λ fs p b. (put fs p b, true);
  exists-holds = λ fs p named. refl;
  read-holds = λ fs p b e. e;
  holds-mkdir = λ fs d p hp. refl;
  holds-create_ne = λ fs p q hp hq ne. put_ne fs p q [] ne;
  holds-write_ne = λ fs p q b hp hq ne. put_ne fs p q b ne;
  holds-write = λ fs p b hp e f. put_same fs p b;
  holds-create = λ fs p hp e. put_same fs p [];
}

-- two texts, the first one's length before them
abbrev pub pair : Bytes → Bytes → Bytes
pair a b = length a ∷ a ++ b

abbrev cut : ℕ → Bytes → Bytes × Bytes
cut zero l = ([], l)
cut (suc n) [] = ([], [])
cut (suc n) (x ∷ l) = (x ∷ (cut n l).0, (cut n l).1)

cut_pair : (a b : Bytes) → cut (length a) (a ++ b) ≡ (a, b)
cut_pair [] b = refl
cut_pair (x ∷ a) b = ap (λ (r : Bytes × Bytes). (x ∷ r.0, r.1)) (cut_pair a b)

-- Blobs, and tags of the empty hash without a message.
abbrev write_tag : Tag → Option Bytes
write_tag t = elim t.commit_hash [
  | [] ↦ elim t.message [ none ↦ some (1 ∷ pair t.hash t.name) | some m ↦ none ]
  | x ∷ h ↦ none
]

abbrev write_json : Object → Option Bytes
write_json (blob b) = some (0 ∷ pair b.hash b.data')
write_json (tag t) = write_tag t
write_json (tree t) = none
write_json (commit c) = none

abbrev as_object : ℕ → Bytes × Bytes → Object
as_object zero (h, b) = blob (record { hash = h; data' = b })
as_object (suc k) (h, b) = tag (record { hash = h; commit_hash = []; name = b; message = none })

abbrev read_json : Bytes → Option Object
read_json (k ∷ n ∷ l) = some (as_object k (cut n l))
read_json l = none

tag_back : (t : Tag) (j : Bytes) → write_tag t ≡ some j → read_json j ≡ some (tag t)
tag_back t j e = ground (arith, cut_pair t.hash t.name)

pub reads_back : (o : Object) (j : Bytes) → write_json o ≡ some j → read_json j ≡ some o
reads_back (blob b) j e = ground (arith, cut_pair b.hash b.data')
reads_back (tag t) j e = tag_back t j e
reads_back (tree t) j e = cc
reads_back (commit c) j e = cc

pub some_back : (j z : Bytes) → some j ≡ some z → some z ≡ some j
some_back j z e = sym e

abbrev pub tiny : Format
tiny = record {
  to_json = write_json;
  from_json = read_json;
  tag_to_json = λ t. some (84 ∷ t.name);
  compress = some;
  decompress = some;
  from_json-to_json = reads_back;
  decompress-compress = some_back;
}

abbrev pub content : Bytes
content = 1 ∷ 0 ∷ 0 ∷ 0 ∷ 0 ∷ 0 ∷ 0 ∷ 0 ∷ []

abbrev pub repeat : ℕ → Bytes
repeat zero = []
repeat (suc n) = 48 ∷ repeat n

-- 1 marks the text of the one blob, 0 all others
abbrev chosen : {P : Type 0} → Dec P → Hash
chosen (yes _) = 49 ∷ repeat 63
chosen (no _) = repeat 64

abbrev pub mark : Bytes → Hash
mark b = chosen (Bytes-discrete b (blob_text content))

length-chosen : {P : Type 0} (d : Dec P) → length (chosen d) ≡ 64
length-chosen (yes _) = refl
length-chosen (no _) = refl

pub repeat_hex : (n : ℕ) → All HexDigit (repeat n)
repeat_hex zero = tt
repeat_hex (suc n) = (inl (omega arith, omega arith), repeat_hex n)

chosen_hex : {P : Type 0} (d : Dec P) → All HexDigit (chosen d)
chosen_hex (yes _) = (inl (omega arith, omega arith), repeat_hex 63)
chosen_hex (no _) = repeat_hex 64

pub length-mark : (b : Bytes) → length (mark b) ≡ 64
length-mark b = length-chosen (Bytes-discrete b (blob_text content))

pub mark_hex : (b : Bytes) → All HexDigit (mark b)
mark_hex b = chosen_hex (Bytes-discrete b (blob_text content))

abbrev pub marked : Digest
marked = record { digest = mark; length-digest = length-mark; digest_hex = mark_hex }

-- the first character tells the two apart
first_of : {x y : ℕ} {a b : Bytes} → x ∷ a ≡ y ∷ b → x ≡ y
first_of e = cc

apart : ◌≢◌ {A = ℕ} 48 49
apart e = omega arith

chosen_same : {P Q : Type 0} (d : Dec P) (e : Dec Q) → chosen d ≡ chosen e → Q → P
chosen_same (yes p) e h q = p
chosen_same (no p) (yes r) h q = absurd (apart (first_of h))
chosen_same (no p) (no r) h q = absurd (r q)

pub marked_unique : NoCollision mark (blob_text content)
marked_unique other e =
    chosen_same (Bytes-discrete other (blob_text content))
      (Bytes-discrete (blob_text content) (blob_text content)) e refl

abbrev pub clock : ℕ → Bytes
clock n = n ∷ []

abbrev pub no_files : Path' → Option Bytes
no_files p = none

pub no_files-IsSound : IsSound memory tiny marked clock no_files
no_files-IsSound = record { at = λ h p z at hp e. absurd (cc) }

pub no_such_tag : (t : Tag) → some (84 ∷ t.name) ≢ some content
no_such_tag t e = ground arith
