-- ===== src/Tests/P2p.antt =====
-- Messages over a stream in memory.
use edge_orchestrator.Common.{
  ℕ, zero, suc, ◌<◌, ◌≡◌, refl, ap, sym, true, Option, none, some, [], ◌∷◌, ◌++◌, Bytes, length,
  arith,
}
use mathlib.Core.Option
use edge_orchestrator.P2p.Stream.{Input, Output}
use edge_orchestrator.P2p.Framing.{ok, to_be_bytes, write_length_prefixed}
use edge_orchestrator.P2p.Protocol.{
  Json, RaftMessageRequest, write_serialized, write_message, read_message,
}
use edge_orchestrator.P2p.Protocol.Exchange.{read_message-write_message}

abbrev taken : ℕ → Bytes → Option (Bytes × Bytes)
taken zero l = some ([], l)
taken (suc n) [] = none
taken (suc n) (x ∷ l) = elim (taken n l) [ none ↦ none | some r ↦ some (x ∷ r.0, r.1) ]

taken-append : (a b : Bytes) → taken (length a) (a ++ b) ≡ some (a, b)
taken-append [] b = refl
taken-append (x ∷ a) b = rw (taken-append a b) refl

taken_short : (n : ℕ) (l : Bytes) → length l < n → taken n l ≡ none
taken_short zero l h = absurd (omega arith)
taken_short (suc n) [] h = refl
taken_short (suc n) (x ∷ l) h = rw (taken_short n l (omega arith)) refl

abbrev read_bytes : Bytes → ℕ → Bytes × Option Bytes
read_bytes l n = elim (taken n l) [ none ↦ ([], none) | some r ↦ (r.1, some r.0) ]

pub read_bytes-append :
    (i a b : Bytes)
    → i ≡ a ++ b
    → ((read_bytes i (length a)).1 ≡ some a) × ((read_bytes i (length a)).0 ≡ b)
read_bytes-append i a b e = rw e (rw (taken-append a b, read_bytes) (refl, refl))

pub read_bytes_short : (i : Bytes) (n : ℕ) → length i < n → (read_bytes i n).1 ≡ none
read_bytes_short i n h = rw (taken_short n i h, read_bytes) refl

abbrev input : Input
input = record {
  In = Bytes;
  pending = λ i. i;
  read_exact = read_bytes;
  read_exact-pending = read_bytes-append;
  read_exact_short = read_bytes_short;
}

abbrev output : Output
output = record {
  Out = Bytes;
  written = λ o. o;
  write_all = λ o b. (o ++ b, true);
  written-write_all = λ o b e. refl;
}

pub same_data :
    (m : RaftMessageRequest) (d : Bytes)
    → some m.data' ≡ some d
    → some (record { data' = d }) ≡ some m
same_data m d e = ap (Option.map (λ l. record { data' = l })) (sym e)

-- the data as they are
abbrev raw : Json RaftMessageRequest
raw = record {
  to_vec = λ m. some m.data';
  from_slice = λ d. some (record { data' = d });
  from_slice-to_vec = same_data;
}

abbrev message : RaftMessageRequest
message = record { data' = 7 ∷ 8 ∷ [] }

abbrev wire : Bytes
wire = 0 ∷ 0 ∷ 0 ∷ 2 ∷ 7 ∷ 8 ∷ []

sent : (write_message input output raw [] message).1 ≡ ok tt
unfolding write_message write_serialized write_length_prefixed
sent = refl

on_the_wire : (write_message input output raw [] message).0 ≡ wire
unfolding write_message write_serialized write_length_prefixed to_be_bytes
on_the_wire = refl

read_message-write_message_example :
    ((read_message input output raw (wire ++ 9 ∷ []) 1024).1 ≡ ok message)
    × ((read_message input output raw (wire ++ 9 ∷ []) 1024).0 ≡ 9 ∷ [])
read_message-write_message_example =
    read_message-write_message input output raw [] message sent (wire ++ 9 ∷ []) 1024 wire (9 ∷ [])
      (7 ∷ 8 ∷ []) on_the_wire refl refl (omega arith) (omega arith)
