-- ===== src/P2p/Stream.antt =====
-- The two ends of a stream of bytes, as `futures` has them.
use edge_orchestrator.Common.{ℕ, ◌≡◌, Bool, true, Option, none, some, ◌++◌, Bytes, length, ◌<◌}

-- `AsyncReadExt::read_exact`: the next bytes, or an error when the stream ends before them.
pub record Input : Type 1 where
  pub In : Type 0
  pub pending : In → Bytes
  pub read_exact : In → ℕ → In × Option Bytes
  pub read_exact-pending :
      (i : In) (a b : Bytes)
      → pending i ≡ a ++ b
      → ((read_exact i (length a)).1 ≡ some a) × (pending (read_exact i (length a)).0 ≡ b)
  pub read_exact_short : (i : In) (n : ℕ) → length (pending i) < n → (read_exact i n).1 ≡ none

-- `AsyncWriteExt::write_all`
pub record Output : Type 1 where
  pub Out : Type 0
  pub written : Out → Bytes
  pub write_all : Out → Bytes → Out × Bool
  pub written-write_all :
      (o : Out) (b : Bytes) → (write_all o b).1 ≡ true → written (write_all o b).0 ≡ written o ++ b
