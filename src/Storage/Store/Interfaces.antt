-- ===== src/Storage/Store/Interfaces.antt =====
-- What the store asks of the file system and of the formats of its files.
use edge_orchestrator.Common.{
  ℕ, ◌≡◌, ◌≢◌, ◌≤◌, ◌⊎◌, subst, ◌∙◌, sym, ◌&&◌, Bool, true, false, Option, none, some, [], ◌∷◌,
  ◌++◌, Bytes, leb, ltb, length, All, arith, if◌then◌else◌,
}
use edge_orchestrator.Types.{Hash, CoreError}
use edge_orchestrator.Storage.Objects.{Object, Tag}

-- An operation returns, fails with an error, or panics.
pub data Result {ℓ} (A : Type ℓ) : Type ℓ where
  ok : A → Result A
  err : CoreError → Result A
  panic : Result A

-- `{root}/{prefix}/{rest}`
pub record Path' : Type 0 where
  pub dir : Bytes
  pub file : Bytes

-- A digit of `hex::encode`.
abbrev pub HexDigit : ℕ → Type 0
HexDigit x = (48 ≤ x) × (x ≤ 57) ⊎ (97 ≤ x) × (x ≤ 102)

-- The path of a hexadecimal hash, which leads to a file of its own below the root. Others may
-- be absolute, or leave the root, or lead to the same file.
abbrev pub IsPlain : Path' → Type 0
IsPlain p = (p.file ≢ []) × All HexDigit p.dir × All HexDigit p.file

abbrev pub is_some {ℓ} : {A : Type ℓ} → Option A → Bool
is_some none = false
is_some (some _) = true

-- std::fs under the root of the store. `holds` is what a file holds; a call may fail. A failed
-- `create` or `write` may leave anything in its own file. Of other than plain paths little is said.
pub record FileSystem : Type 1 where
  pub Fs : Type 0
  pub holds : Fs → Path' → Option Bytes
  pub exists : Fs → Path' → Bool
  pub read : Fs → Path' → Option Bytes
  pub mkdir : Fs → Bytes → Fs × Bool
  pub create : Fs → Path' → Fs × Bool
  pub write : Fs → Path' → Bytes → Fs × Bool
  pub exists-holds : (fs : Fs) (p : Path') → IsPlain p → exists fs p ≡ is_some (holds fs p)
  pub read-holds : (fs : Fs) (p : Path') (b : Bytes) → read fs p ≡ some b → holds fs p ≡ some b
  pub holds-mkdir :
      (fs : Fs) (d : Bytes) (p : Path') → IsPlain p → holds (mkdir fs d).0 p ≡ holds fs p
  pub holds-create_ne :
      (fs : Fs) (p q : Path') → IsPlain p → IsPlain q → p ≢ q → holds (create fs p).0 q ≡ holds fs q
  pub holds-write_ne :
      (fs : Fs) (p q : Path') (b : Bytes)
      → IsPlain p
      → IsPlain q
      → p ≢ q
      → holds (write fs p b).0 q ≡ holds fs q
  -- the writes of the store go to a file that was just created, from its start
  pub holds-write :
      (fs : Fs) (p : Path') (b : Bytes)
      → IsPlain p
      → holds fs p ≡ some []
      → (write fs p b).1 ≡ true
      → holds (write fs p b).0 p ≡ some b
  pub holds-create :
      (fs : Fs) (p : Path') → IsPlain p → (create fs p).1 ≡ true → holds (create fs p).0 p ≡ some []

-- serde_json and zlib read back what they wrote.
pub record Format : Type 0 where
  pub to_json : Object → Option Bytes
  pub from_json : Bytes → Option Object
  pub tag_to_json : Tag → Option Bytes
  pub compress : Bytes → Option Bytes
  pub decompress : Bytes → Option Bytes
  pub from_json-to_json : (o : Object) (j : Bytes) → to_json o ≡ some j → from_json j ≡ some o
  pub decompress-compress : (j z : Bytes) → compress j ≡ some z → decompress z ≡ some j

-- SHA-256 in hexadecimal: 64 digits.
pub record Digest : Type 0 where
  pub digest : Bytes → Hash
  pub length-digest : (b : Bytes) → length (digest b) ≡ 64
  pub digest_hex : (b : Bytes) → All HexDigit (digest b)

-- `hash.split_at(2)` panics on a shorter text, and where byte 2 continues a character.
unfoldable pub object_path : Hash → Option Path'
object_path [] = none
object_path (a ∷ []) = none
object_path (a ∷ b ∷ []) = some (record { dir = a ∷ b ∷ []; file = [] })
object_path (a ∷ b ∷ c ∷ rest) =
    if leb 128 c && ltb c 192 then none else some (record { dir = a ∷ b ∷ []; file = c ∷ rest })

-- A hash that the store computes names a plain file.
path_of_hex :
    (h : Hash) → length h ≡ 64 → All HexDigit h → (p : Path') × (object_path h ≡ some p) × IsPlain p
unfolding object_path
path_of_hex [] l a = absurd (omega arith)
path_of_hex (x ∷ []) l a = absurd (omega arith)
path_of_hex (x ∷ y ∷ []) l a = absurd (omega arith)
path_of_hex (x ∷ y ∷ z ∷ rest) l (dx, (dy, (dz, drest))) = (
  record { dir = x ∷ y ∷ []; file = z ∷ rest },
  ground (arith, dz),
  (λ e. cc, (dx, (dy, tt)), (dz, drest)),
)

pub digest-path :
    (D : Digest) (b : Bytes) → (p : Path') × (object_path (D.digest b) ≡ some p) × IsPlain p
digest-path D b = path_of_hex (D.digest b) (D.length-digest b) (D.digest_hex b)

some_path-injective : {p q : Path'} → some p ≡ some q → p ≡ q
some_path-injective e = cc

pub digest-IsPlain :
    (D : Digest) (b : Bytes) {p : Path'} → object_path (D.digest b) ≡ some p → IsPlain p
digest-IsPlain D b at =
    let (q, at', named) = digest-path D b in
    subst IsPlain (some_path-injective (sym at' ∙ at)) named

path_parts : (h : Hash) {p : Path'} → object_path h ≡ some p → h ≡ p.dir ++ p.file
unfolding object_path
path_parts [] e = cc
path_parts (a ∷ []) e = cc
path_parts (a ∷ b ∷ []) e = ground arith
path_parts (a ∷ b ∷ x ∷ rest) e = ground arith

-- Two hashes with one path are equal.
pub object_path-injective :
    (g h : Hash) {p : Path'} → object_path g ≡ some p → object_path h ≡ some p → g ≡ h
object_path-injective g h e k = path_parts g e ∙ sym (path_parts h k)
