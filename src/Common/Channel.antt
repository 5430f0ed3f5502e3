-- ===== src/Common/Channel.antt =====
-- The sending half of a tokio `mpsc` channel: a send is refused when the receiver is gone, and
-- otherwise queues the message behind those already sent.
use mathlib.Core.Path.{◌≡◌}
use mathlib.Core.Option.{Option, none, some}
use mathlib.Core.List.{List, [], ◌∷◌, ◌++◌}
use mathlib.Core.Bool.{Bool, false}

pub record Channel (A : Type 0) : Type 1 where
  pub Sender : Type 0
  pub send : Sender → A → Option Sender
  -- what the receiver has been handed, in order
  pub sent : Sender → List A
  pub is_open : Sender → Bool
  pub sent-send : (c c' : Sender) (a : A) → send c a ≡ some c' → sent c' ≡ sent c ++ a ∷ []
  pub send_closed : (c : Sender) (a : A) → is_open c ≡ false → send c a ≡ none
  -- within one call of the program the receiver stays, or goes
  pub send_open : (c : Sender) (a : A) → send c a ≡ none → is_open c ≡ false
