-- ===== src/Storage/Store/Faults.antt =====
-- Repeated calls, hashes that name no file, and a tag under the hash of a blob.
use edge_orchestrator.Common.{
  ℕ, [], ◌∷◌, ◌⊎◌, ◌<◌, ◌≤◌, length, ◌≡◌, ◌≢◌, ◌↔◌, refl, ◌∙◌, ap, sym, inl, inr, false, Option,
  none, some, Bytes, arith, Bool-cases, Option-cases,
}
use edge_orchestrator.Types.{
  Hash, CoreError, object_not_found, hash_mismatch, storage_io, serialization,
}
use edge_orchestrator.Storage.Objects.{Object, blob, tag, object_hash, hash_blob}
use edge_orchestrator.Storage.Store.Interfaces.{
  IsPlain, Result, ok, err, panic, Path', FileSystem, Format, Digest, object_path, is_some,
  digest-IsPlain,
}
use edge_orchestrator.Storage.Store.{
  ◌>>=◌, or_err, decode, write_at, write_object, after_write, store_object, read_object, check_hash,
  get_blob, as_blob, put_blob, put_tag, put_serialized_tag,
}
use edge_orchestrator.Storage.Store.Writes.{decode-encode}
use edge_orchestrator.Storage.Objects.Hashing.{blob_text}
use edge_orchestrator.Storage.Store.RoundTrip.{stored, read_object_total}
use edge_orchestrator.Storage.Store.Sound.{
  Stores-path, after_write_ok, write_object_at, blob-Stores, unhashed,
}

or_err-ne-panic {ℓ} : {A : Type ℓ} (a : Option A) (e : CoreError) → or_err a e ≢ panic
or_err-ne-panic none e h = cc
or_err-ne-panic (some a) e h = cc

-- A panic of a chain whose first step does not panic is one of its rest.
panics {ℓ κ} :
    {A : Type ℓ} {B : Type κ} (m : Result A)
    → m ≢ panic
    → (f : A → Result B) → (m >>= f) ≡ panic
    → (a : A) × (m ≡ ok a) × (f a ≡ panic)
panics (ok a) safe f e = (a, refl, e)
panics (err x) safe f e = absurd (cc)
panics panic safe f e = absurd (safe refl)

first_panics {ℓ κ} :
    {A : Type ℓ} {B : Type κ} (m : Result A) (f : A → Result B)
    → ((a : A) → f a ≢ panic)
    → (m >>= f) ≡ panic
    → m ≡ panic
first_panics (ok a) f safe e = absurd (safe a e)
first_panics (err x) f safe e = absurd (cc)
first_panics panic f safe e = refl

abbrev pub third : Bytes → Option ℕ
third (a ∷ b ∷ x ∷ rest) = some x
third short = none

some_byte : {x y : ℕ} → some x ≡ some y → x ≡ y
some_byte e = cc

uncut :
    (h : Hash)
    → object_path h ≡ none
    → (length h < 2) ⊎ ((b : ℕ) × (third h ≡ some b) × (128 ≤ b) × (b ≤ 191))
unfolding object_path
uncut [] e = inl (omega arith)
uncut (a ∷ []) e = inl (omega arith)
uncut (a ∷ b ∷ []) e = absurd (cc)
uncut (a ∷ b ∷ x ∷ rest) e = inr (x, refl, ground arith, ground arith)

no_path :
    (h : Hash)
    → (length h < 2) ⊎ ((b : ℕ) × (third h ≡ some b) × (128 ≤ b) × (b ≤ 191))
    → object_path h ≡ none
unfolding object_path
no_path [] w = refl
no_path (a ∷ []) w = refl
no_path (a ∷ b ∷ []) (inl short) = absurd (omega (arith, short))
no_path (a ∷ b ∷ []) (inr (y, at, low, high)) = absurd (cc)
no_path (a ∷ b ∷ x ∷ rest) (inl short) = absurd (omega (arith, short))
no_path (a ∷ b ∷ x ∷ rest) (inr (y, at, low, high)) =
    let same : x ≡ y = some_byte at in ground (arith, same, low, high)

module _ (F : FileSystem) (c : Format) where
  check_hash-ne-panic : (h : Hash) (o : Object) → check_hash F c h o ≢ panic
  unfolding check_hash
  check_hash-ne-panic h o e = ground arith

  as_blob-ne-panic : (h : Hash) (o : Object) → as_blob F c h o ≢ panic
  unfolding as_blob
  as_blob-ne-panic h o e = ground arith

  decode-ne-panic : (z : Bytes) → decode F c z ≢ panic
  unfolding decode
  decode-ne-panic z e =
      let (j, _, f) = panics (or_err (c.decompress z) storage_io) (or_err-ne-panic _ _) _ e in
      or_err-ne-panic (c.from_json j) serialization f

  read_object_panics : (fs : F.Fs) (h : Hash) → read_object F c fs h ≡ panic → object_path h ≡ none
  unfolding read_object
  read_object_panics fs h e = elim (Option-cases (object_path h)) [
    | inl bad ↦ bad
    | inr (p, at) ↦ elim (Bool-cases (F.exists fs p)) [
      | inl there ↦
          (let (z, _, f) =
              panics (or_err (F.read fs p) storage_io) (or_err-ne-panic _ _) _
                (rw (at, there, read_object) at e) in
            let (o, _, g) = panics (decode F c z) (decode-ne-panic z) _ f in
            absurd (check_hash-ne-panic h o g))
      | inr missing ↦ absurd (ground arith)
    ]
  ]

  get_blob_panics : (fs : F.Fs) (h : Hash) → get_blob F c fs h ≡ panic → object_path h ≡ none
  unfolding get_blob
  get_blob_panics fs h e =
      read_object_panics fs h
        (first_panics (read_object F c fs h) (as_blob F c h) (as_blob-ne-panic h) e)

  -- `get_blob` panics exactly on the texts that are shorter than two bytes, and on those whose third
  -- byte continues a character (is between 128 and 191).
  pub get_blob_panics_iff :
      (fs : F.Fs) (h : Hash)
      → (get_blob F c fs h ≡ panic)
        ↔ ((length h < 2) ⊎ ((b : ℕ) × (third h ≡ some b) × (128 ≤ b) × (b ≤ 191)))
  unfolding get_blob read_object
  get_blob_panics_iff fs h = (
    λ e. uncut h (get_blob_panics fs h e),
    λ w. (let bad = no_path h w in rw (bad, get_blob, read_object) refl),
  )

  -- A plain file that is not there is reported by its hash.
  pub get_blob_missing :
      (fs : F.Fs) (h : Hash) {p : Path'}
      → object_path h ≡ some p
      → IsPlain p
      → F.holds fs p ≡ none
      → get_blob F c fs h ≡ err (object_not_found h)
  unfolding get_blob read_object
  get_blob_missing fs h {p = p} at named absent =
      let missing : F.exists fs p ≡ false = F.exists-holds fs p named ∙ ap is_some absent in
      rw (at, missing, get_blob, read_object) refl

module _ (F : FileSystem) (c : Format) (D : Digest) (format_timestamp : ℕ → Bytes) where
  store_object_there :
      (fs : F.Fs) (o : Object) {p : Path'} {z : Bytes}
      → object_path (object_hash o) ≡ some p
      → IsPlain p
      → F.holds fs p ≡ some z
      → store_object F c fs o (object_hash o) ≡ (fs, ok (object_hash o))
  unfolding write_at after_write
  store_object_there fs o {p = p} at named held =
      rw (write_object_at F c D format_timestamp fs o at)
        (ground (arith, F.exists-holds fs p named))

  -- A content stored again changes nothing and has the same hash.
  pub put_blob_again :
      (fs : F.Fs) (d : Bytes) {h : Hash}
      → (put_blob F c D.digest fs d).1 ≡ ok h
      → put_blob F c D.digest (put_blob F c D.digest fs d).0 d
        ≡ ((put_blob F c D.digest fs d).0, ok h)
  unfolding put_blob object_hash
  put_blob_again fs d e =
      let o : Object = blob (record { hash = hash_blob D.digest d; data' = d }) in
      let (p, at, named) =
        Stores-path F c D format_timestamp o (blob-Stores F c D format_timestamp d) in
      let (same, (z, held, _)) = stored F c D format_timestamp fs o at named e in
      store_object_there (put_blob F c D.digest fs d).0 o at named held
      ∙ ap (λ g. ((put_blob F c D.digest fs d).0, ok g)) (sym same)

  abbrev tag_object : Hash → Bytes → Option Bytes → Bytes → Object
  tag_object x name message j =
      tag (record (unhashed F c D format_timestamp x name message) { hash = hash_blob D.digest j })

  put_tag_stores :
      (fs : F.Fs) (x : Hash) (name : Bytes) (message : Option Bytes) (j : Bytes)
      → c.tag_to_json (unhashed F c D format_timestamp x name message) ≡ some j
      → put_tag F c D.digest fs x name message
        ≡ store_object F c fs (tag_object x name message j) (hash_blob D.digest j)
  unfolding put_tag
  put_tag_stores fs x name message j tagged = rw (tagged, put_serialized_tag) refl

  -- The hash of a new tag is that of a blob with the tag's serialisation: storing that blob then
  -- succeeds without storing it, and it cannot be read back.
  pub put_tag_hides_blob :
      (fs : F.Fs) (x : Hash) (name : Bytes) (message : Option Bytes) (j : Bytes) {h : Hash}
      {p : Path'} {z : Bytes}
      → c.tag_to_json (unhashed F c D format_timestamp x name message) ≡ some j
      → (put_tag F c D.digest fs x name message).1 ≡ ok h
      → object_path h ≡ some p
      → F.holds fs p ≡ none
      → F.read (put_tag F c D.digest fs x name message).0 p ≡ some z
      → (put_blob F c D.digest (put_tag F c D.digest fs x name message).0 j
          ≡ ((put_tag F c D.digest fs x name message).0, ok h))
        × (get_blob F c (put_tag F c D.digest fs x name message).0 h ≡ err (hash_mismatch h))
  unfolding put_blob object_hash get_blob as_blob hash_blob
  put_tag_hides_blob fs x name message j {h = h} {p = p} {z = z} tagged e at fresh got =
      let r : F.Fs × Result Hash = put_tag F c D.digest fs x name message in
      let o : Object = tag_object x name message j in
      let same_call = put_tag_stores fs x name message j tagged in
      let done : (store_object F c fs o (hash_blob D.digest j)).1 ≡ ok h =
        ap (λ x. x.1) (sym same_call) ∙ e in
      let (_, same) =
        after_write_ok F c D format_timestamp (hash_blob D.digest j)
          (write_object F c fs o (hash_blob D.digest j)) done in
      let at' : object_path (hash_blob D.digest j) ≡ some p = ap object_path (sym same) ∙ at in
      let named : IsPlain p = digest-IsPlain D (blob_text j) at' in
      let (_, (y, held, why)) = stored F c D format_timestamp fs o at' named done in
      let held' : F.holds r.0 p ≡ some y = ap (λ x. F.holds x.0 p) same_call ∙ held in
      let decoded : decode F c z ≡ ok o = elim why [
        | inl old ↦ absurd (cc (old, fresh))
        | inr encoded ↦
            decode-encode F c o z (encoded ∙ ap ok (cc (F.read-holds r.0 p z got, held')))
      ] in
      (
        store_object_there r.0 (blob (record { hash = hash_blob D.digest j; data' = j })) at' named
              held'
            ∙ ap (λ g. (r.0, ok g)) (sym same),
        ap (λ m. m >>= as_blob F c h)
            (read_object_total F c r.0 h p z o at named got decoded (sym same)),
      )
