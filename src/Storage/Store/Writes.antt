-- ===== src/Storage/Store/Writes.antt =====
-- What a write does to the files.
use edge_orchestrator.Common.{
  ◌≡◌, ◌≢◌, refl, ◌∙◌, ◌⊎◌, inl, inr, some, Bytes, Bytes-discrete, arith, Bool-cases, Option-cases,
}
use edge_orchestrator.Types.{CoreError}
use edge_orchestrator.Storage.Objects.{Object}
use edge_orchestrator.Storage.Store.Interfaces.{
  IsPlain, Result, ok, err, panic, Path', FileSystem, Format,
}
use edge_orchestrator.Storage.Store.{write_file, encode, write_encoded, write_at, decode}

unfoldable pub Path'-discrete : Discrete Path'
Path'-discrete = hlevel Bytes-discrete

Result-cases {ℓ} :
    {A : Type ℓ} (r : Result A)
    → ((a : A) × (r ≡ ok a)) ⊎ (((e : CoreError) × (r ≡ err e)) ⊎ (r ≡ panic))
Result-cases (ok a) = inl (a, refl)
Result-cases (err e) = inr (inl (e, refl))
Result-cases panic = inr (inr refl)

module _ (F : FileSystem) (c : Format) where
  -- What was encoded is decoded.
  pub decode-encode : (o : Object) (z : Bytes) → encode F c o ≡ ok z → decode F c z ≡ ok o
  unfolding encode decode
  decode-encode o z h = elim (Option-cases (c.to_json o)) [
    | inl e ↦ absurd (ground arith)
    | inr (j, e) ↦ elim (Option-cases (c.compress j)) [
      | inl f ↦ absurd (ground arith)
      | inr (z', f) ↦ ground (arith, c.from_json-to_json o j e, c.decompress-compress j z' f)
    ]
  ]

  -- Other files stay as they are, whatever happens to this one.
  write_file_ne :
      (fs : F.Fs) (p q : Path') (z : Bytes)
      → IsPlain p
      → IsPlain q
      → p ≢ q
      → F.holds (write_file F c fs p z).0 q ≡ F.holds fs q
  unfolding write_file
  write_file_ne fs p q z hp hq ne =
      ground (
        arith,
        F.holds-create_ne fs p q hp hq ne,
        F.holds-write_ne (F.create fs p).0 p q z hp hq ne,
      )

  write_file_ok :
      (fs : F.Fs) (p : Path') (z : Bytes)
      → IsPlain p
      → (write_file F c fs p z).1 ≡ ok tt
      → F.holds (write_file F c fs p z).0 p ≡ some z
  unfolding write_file
  write_file_ok fs p z hp h =
      ground (arith, F.holds-create fs p hp, F.holds-write (F.create fs p).0 p z hp)

  pub write_at_ne :
      (fs : F.Fs) (o : Object) (p q : Path')
      → IsPlain p
      → IsPlain q
      → p ≢ q
      → F.holds (write_at F c fs o p).0 q ≡ F.holds fs q
  unfolding write_at write_encoded
  write_at_ne fs o p q hp hq ne = elim (Bool-cases (F.exists fs p)) [
    | inl there ↦ rw there refl
    | inr fresh ↦ rw fresh (elim (Bool-cases (F.mkdir fs p.dir).1) [
      | inl made ↦ elim (Result-cases (encode F c o)) [
        | inl (z, e) ↦ rw made (
            rw (e, write_encoded)
              (write_file_ne (F.mkdir fs p.dir).0 p q z hp hq ne ∙ F.holds-mkdir fs p.dir q hq))
        | inr (inl (x, e)) ↦ rw made (rw (e, write_encoded) (F.holds-mkdir fs p.dir q hq))
        | inr (inr e) ↦ rw made (rw (e, write_encoded) (F.holds-mkdir fs p.dir q hq))
      ]
      | inr failed ↦ rw failed (F.holds-mkdir fs p.dir q hq)
    ])
  ]

  -- A write that succeeds found the file, or made it with the encoded object.
  pub write_at_ok :
      (fs : F.Fs) (o : Object) (p : Path')
      → IsPlain p
      → (write_at F c fs o p).1 ≡ ok tt
      → ((write_at F c fs o p).0 ≡ fs) × ((z : Bytes) × (F.holds fs p ≡ some z))
        ⊎ ((z : Bytes) × (encode F c o ≡ ok z) × (F.holds (write_at F c fs o p).0 p ≡ some z))
  unfolding write_at write_encoded
  write_at_ok fs o p named h = elim (Bool-cases (F.exists fs p)) [
    | inl there ↦ elim (Option-cases (F.holds fs p)) [
      | inl e ↦ absurd (ground (arith, F.exists-holds fs p named))
      | inr (z, e) ↦ inl (rw there refl, (z, e))
    ]
    | inr fresh ↦ elim (Bool-cases (F.mkdir fs p.dir).1) [
      | inl made ↦ elim (Result-cases (encode F c o)) [
        | inl (z, e) ↦ inr (
          z,
          e,
          rw fresh (
              rw made (
                rw (e, write_encoded)
                  (write_file_ok (F.mkdir fs p.dir).0 p z named
                    (rw (fresh, made, e, write_encoded) at h)))),
        )
        | inr (inl (x, e)) ↦ absurd (ground arith)
        | inr (inr e) ↦ absurd (ground arith)
      ]
      | inr failed ↦ absurd (ground arith)
    ]
  ]

  -- Whatever the outcome, what a file holds it goes on holding.
  pub write_at_keeps :
      (fs : F.Fs) (o : Object) (p q : Path') (z : Bytes)
      → IsPlain p
      → IsPlain q
      → F.holds fs q ≡ some z
      → F.holds (write_at F c fs o p).0 q ≡ some z
  unfolding write_at
  write_at_keeps fs o p q z named hq h = elim (Path'-discrete p q) [
    | yes same ↦ ground (arith, F.exists-holds fs p named)
    | no other ↦ write_at_ne fs o p q named hq other ∙ h
  ]
