-- ===== src/P2p/Framing/Frames.antt =====
-- What goes over the wire for a frame, and what a reader makes of it.
use edge_orchestrator.Common.{
  ℕ, ◌%◌, ◌^◌, ◌<◌, ◌≤◌, ◌≡◌, refl, ap, ◌∙◌, ltb, true, false, some, ◌++◌, Bytes, length, arith,
  Bool-cases, inl, inr,
}
use mathlib.Core.List.{append_assoc}
use edge_orchestrator.P2p.Stream.{Input, Output}
use edge_orchestrator.P2p.Framing.{
  invalid_data, ok, err, to_be_bytes, from_be_bytes-to_be_bytes, write_length_prefixed,
  read_length_prefixed, read_body, read_payload,
}

-- the bytes of a frame
abbrev pub frame : Bytes → Bytes
frame d = to_be_bytes (length d % 2 ^ 32) ++ d

module _ (O : Output) where
  pub written-write_length_prefixed :
      (o : O.Out) (d : Bytes)
      → (write_length_prefixed O o d).1 ≡ ok tt
      → O.written (write_length_prefixed O o d).0 ≡ O.written o ++ frame d
  unfolding write_length_prefixed
  written-write_length_prefixed o d h =
      let header = to_be_bytes (length d % 2 ^ 32) in
      elim (Bool-cases (O.write_all o header).1) [
        | inl prefixed ↦ elim (Bool-cases (O.write_all (O.write_all o header).0 d).1) [
          | inl sent ↦ rw prefixed (
              rw sent (
                O.written-write_all (O.write_all o header).0 d sent
                ∙ ap (λ l. l ++ d) (O.written-write_all o header prefixed)
                ∙ append_assoc (O.written o) header d))
          | inr failed ↦ absurd (ground arith)
        ]
        | inr failed ↦ absurd (ground arith)
      ]

module _ (I : Input) where
  header_read :
      (i : I.In) (n : ℕ) (b : Bytes)
      → I.pending i ≡ to_be_bytes n ++ b
      → ((I.read_exact i 4).1 ≡ some (to_be_bytes n)) × (I.pending (I.read_exact i 4).0 ≡ b)
  unfolding to_be_bytes
  header_read i n b e = I.read_exact-pending i (to_be_bytes n) b e

  header_result :
      (i : I.In) (max_size n : ℕ) (b : Bytes)
      → I.pending i ≡ to_be_bytes n ++ b
      → read_length_prefixed I i max_size
        ≡ read_body I max_size ((I.read_exact i 4).0, some (to_be_bytes n))
  unfolding read_length_prefixed
  header_result i max_size n b e =
      ap (λ r. read_body I max_size ((I.read_exact i 4).0, r)) (header_read i n b e).0

  -- A payload of the announced length, within the limit, is read, and no more than that.
  pub read_frame :
      (i : I.In) (max_size : ℕ) (a b : Bytes)
      → I.pending i ≡ to_be_bytes (length a) ++ (a ++ b)
      → length a < 2 ^ 32
      → length a ≤ max_size
      → ((read_length_prefixed I i max_size).1 ≡ ok a)
        × (I.pending (read_length_prefixed I i max_size).0 ≡ b)
  unfolding read_body read_payload
  read_frame i max_size a b e small fits =
      let io = (I.read_exact i 4).0 in
      let (got, left) = I.read_exact-pending io a b (header_read i (length a) (a ++ b) e).1 in
      let within : ltb max_size (length a) ≡ false = ground arith in
      rw (header_result i max_size (length a) (a ++ b) e) (
        rw (from_be_bytes-to_be_bytes (length a) small)
          (rw within (rw (got, read_payload) (refl, left))))

  -- An announced length beyond the limit is refused before any of the payload is read.
  pub read_too_large :
      (i : I.In) (max_size n : ℕ) (b : Bytes)
      → I.pending i ≡ to_be_bytes n ++ b
      → n < 2 ^ 32
      → max_size < n
      → ((read_length_prefixed I i max_size).1 ≡ err invalid_data)
        × (I.pending (read_length_prefixed I i max_size).0 ≡ b)
  unfolding read_body
  read_too_large i max_size n b e small large =
      let beyond : ltb max_size n ≡ true = ground arith in
      rw (header_result i max_size n b e)
        (rw (from_be_bytes-to_be_bytes n small) (rw beyond (refl, (header_read i n b e).1)))
