-- ===== src/P2p/Framing.antt =====
-- The length-prefixed frames of crates/p2p/src/protocol.rs.
pub mod Frames
use edge_orchestrator.Common.{
  ℕ, zero, suc, ◌+◌, ◌*◌, ◌/◌, ◌%◌, ◌^◌, ◌<◌, ◌≤◌, ◌≡◌, refl, ap, sym, ◌∙◌, ltb, Bool, true, false,
  Option, none, some, List, [], ◌∷◌, ◌++◌, Bytes, length, arith, if◌then◌else◌,
}
use edge_orchestrator.P2p.Stream.{Input, Output}

pub data IoError : Type 0 where
  invalid_data unexpected_eof write_failed : IoError

pub data Result {ℓ} (A : Type ℓ) : Type ℓ where
  ok : A → Result A
  err : IoError → Result A

-- `u32::to_be_bytes` and `u32::from_be_bytes`
unfoldable pub to_be_bytes : ℕ → Bytes
to_be_bytes n = n / 2 ^ 24 % 256 ∷ n / 2 ^ 16 % 256 ∷ n / 2 ^ 8 % 256 ∷ n % 256 ∷ []

pub from_be_bytes : Bytes → ℕ
from_be_bytes [] = 0
from_be_bytes (a ∷ []) = 0
from_be_bytes (a ∷ b ∷ []) = 0
from_be_bytes (a ∷ b ∷ c ∷ []) = 0
from_be_bytes (a ∷ b ∷ c ∷ d ∷ l) = a * 2 ^ 24 + b * 2 ^ 16 + c * 2 ^ 8 + d

pub from_be_bytes-to_be_bytes : (n : ℕ) → n < 2 ^ 32 → from_be_bytes (to_be_bytes n) ≡ n
unfolding from_be_bytes to_be_bytes
from_be_bytes-to_be_bytes n h = omega arith

module _ (O : Output) where
  -- The length goes out as a `u32`.
  unfoldable pub write_length_prefixed : O.Out → Bytes → O.Out × Result (Unit {0})
  write_length_prefixed io data' =
      let (io₁, prefixed) = O.write_all io (to_be_bytes (length data' % 2 ^ 32)) in
      if prefixed
      then (let (io₂, sent) = O.write_all io₁ data' in
          if sent then (io₂, ok tt) else (io₂, err write_failed))
      else (io₁, err write_failed)

module _ (I : Input) where
  read_payload : ℕ → I.In × Option Bytes → I.In × Result Bytes
  read_payload len (io, none) = (io, err unexpected_eof)
  read_payload len (io, some buf) = (io, ok buf)

  read_body : ℕ → I.In × Option Bytes → I.In × Result Bytes
  unfolding read_payload
  read_body max_size (io, none) = (io, err unexpected_eof)
  read_body max_size (io, some len_buf) =
      let len = from_be_bytes len_buf in
      if ltb max_size len then (io, err invalid_data) else read_payload len (I.read_exact io len)

  pub read_length_prefixed : I.In → ℕ → I.In × Result Bytes
  unfolding read_body
  read_length_prefixed io max_size = read_body max_size (I.read_exact io 4)
