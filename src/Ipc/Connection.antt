-- ===== src/Ipc/Connection.antt =====
-- ipc/server.rs: one connection, from the line that was read to the bytes that are written. The
-- sockets and serde_json are the arguments of `handle_connection`.
use edge_orchestrator.Common.{ℕ, Bool, Option, none, some, [], ◌∷◌, ◌++◌, Bytes, if◌then◌else◌}
use edge_orchestrator.Common.Channel.{Channel}
use edge_orchestrator.Types.{network, serialization}
use edge_orchestrator.P2p.Messages.{SwarmCommand}
use edge_orchestrator.Storage.Store.Interfaces.{Result, ok, err, panic, FileSystem, Format, Digest}
use edge_orchestrator.Ipc.Handler.{Params, JsonRpcRequest, JsonRpcResponse, JsonRpcHandler, handle}

module _ (F : FileSystem) (c : Format) (D : Digest) (ch : Channel SwarmCommand) (P : Params) where
  -- The parts of the environment: what serde_json reads and writes, whether `write_all` and
  -- `shutdown` of the socket succeed.
  pub record Wire : Type 0 where
    pub trim : Bytes → Bytes
    pub from_str : Bytes → Option (JsonRpcRequest F c D ch P)
    pub to_string : JsonRpcResponse F c D ch P → Option Bytes
    pub write_all : Bytes → Bool
    pub shutdown : Bool

  module _ (w : Wire) where
    -- the line that is written, and what the connection returns
    pub send_line : Bytes → Option Bytes × Result (Unit {0})
    send_line line =
        if w.write_all line
        then (some line, if w.shutdown then ok tt else err network)
        else (none, err network)

    pub send_json : Option Bytes → Option Bytes × Result (Unit {0})
    unfolding send_line
    send_json none = (none, err serialization)
    send_json (some json) = send_line (json ++ 10 ∷ [])

    pub send_response : Option (JsonRpcResponse F c D ch P) → Option Bytes × Result (Unit {0})
    unfolding send_json
    send_response none = (none, panic)
    send_response (some response) = send_json (w.to_string response)

    -- `none` for a line stands for a read error
    unfoldable pub handle_connection :
        (Bytes → Option Bytes)
        → ℕ
        → ℕ
        → JsonRpcHandler F c D ch P
        → Option Bytes
        → JsonRpcHandler F c D ch P × Option Bytes × Result (Unit {0})
    unfolding send_response
    handle_connection pack uuid now h none = (h, none, err network)
    handle_connection pack uuid now h (some []) = (h, none, ok tt)
    handle_connection pack uuid now h (some (b ∷ line)) = elim (w.from_str (w.trim (b ∷ line))) [
      | none ↦ (h, none, err serialization)
      | some request ↦
          (let (h', response) = handle F c D ch P pack uuid now h request in
            let (line, r) = send_response response in (h', line, r))
    ]
