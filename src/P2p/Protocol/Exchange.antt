-- ===== src/P2p/Protocol/Exchange.antt =====
-- What a message becomes on its way from a writer to a reader.
use edge_orchestrator.Common.{
  ℕ, ◌%◌, ◌^◌, ◌<◌, ◌≤◌, ◌≡◌, refl, ap, sym, ◌∙◌, some, ◌++◌, Bytes, length, append_cancel_left,
  arith,
}
use mathlib.Core.List.{append_assoc}
use edge_orchestrator.P2p.Stream.{Input, Output}
use edge_orchestrator.P2p.Framing.{ok, to_be_bytes}
use edge_orchestrator.P2p.Framing.Frames.{frame, written-write_length_prefixed, read_frame}
use edge_orchestrator.P2p.Protocol.{
  Json, write_serialized, write_message, parse, parsed, read_message,
}

module _ (I : Input) (O : Output) {A : Type 0} (j : Json A) (io : O.Out) (m : A)
    (sent : (write_message I O j io m).1 ≡ ok tt) where
  -- A message that was written went out as the frame of its serialisation.
  written-write_message :
      (d : Bytes)
      → j.to_vec m ≡ some d
      → O.written (write_message I O j io m).0 ≡ O.written io ++ frame d
  unfolding write_message write_serialized
  written-write_message d e =
      rw (e, write_serialized)
        (written-write_length_prefixed O io d (rw (e, write_serialized) at sent))

  module _ (i : I.In) (max_size : ℕ) (wire rest d : Bytes)
      (out : O.written (write_message I O j io m).0 ≡ O.written io ++ wire)
      (in' : I.pending i ≡ wire ++ rest) (serialized : j.to_vec m ≡ some d) where
    arrives : length d < 2 ^ 32 → I.pending i ≡ to_be_bytes (length d) ++ (d ++ rest)
    arrives small =
        let same : wire ≡ frame d =
          append_cancel_left (O.written io) wire (frame d)
            (sym out ∙ written-write_message d serialized) in
        let unwrapped : length d % 2 ^ 32 ≡ length d = omega arith in
        in'
        ∙ ap (λ l. l ++ rest) same
        ∙ ap (λ n. (to_be_bytes n ++ d) ++ rest) unwrapped
        ∙ append_assoc (to_be_bytes (length d)) d rest

    -- A message within the reader's limit is read as it was written, and nothing after it.
    pub read_message-write_message :
        length d < 2 ^ 32
        → length d ≤ max_size
        → ((read_message I O j i max_size).1 ≡ ok m)
          × (I.pending (read_message I O j i max_size).0 ≡ rest)
    unfolding read_message parse parsed
    read_message-write_message small fits =
        let (got, left) = read_frame I i max_size d rest (arrives small) small fits in
        rw (got, parse) (rw (j.from_slice-to_vec m d serialized, parsed) (refl, left))
