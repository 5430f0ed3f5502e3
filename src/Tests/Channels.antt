-- ===== src/Tests/Channels.antt =====
-- A channel that takes every message.
use edge_orchestrator.Common.{Option, none, some, List, [], ◌∷◌, ◌++◌, ◌≡◌, true, false, arith}
use edge_orchestrator.Common.Channel.{Channel}

module _ {A : Type 0} where
  abbrev post : List A → A → Option (List A)
  post c m = some (c ++ m ∷ [])

  some_inj : {c d : List A} → some c ≡ some d → d ≡ c
  some_inj e = cc

  pub posted : (c c' : List A) (m : A) → post c m ≡ some c' → c' ≡ c ++ m ∷ []
  posted c c' m e = some_inj e

  pub post_closed : (c : List A) (m : A) → true ≡ false → post c m ≡ none
  post_closed c m e = absurd (ground arith)

  pub post_open : (c : List A) (m : A) → post c m ≡ none → true ≡ false
  post_open c m e = absurd (cc)

abbrev pub mailbox : (A : Type 0) → Channel A
mailbox A = record {
  Sender = List A;
  send = post;
  sent = λ c. c;
  is_open = λ c. true;
  sent-send = posted;
  send_closed = post_closed;
  send_open = post_open;
}
