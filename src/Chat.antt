-- ===== src/Chat.antt =====
-- The hub of the chat connections: `ChatHub` of packages/core/src/chat/mod.rs, with `upgrade` of
-- packages/core/src/http/server/chat_ws.rs. TLS and the WebSocket protocol are third-party code: a
-- connection is a handshake that succeeds or fails, and then the frames that arrive.
pub mod Order
mod Tests
use aika.Common.{
  ℕ, zero, suc, Bool, true, false, ◌||◌, String, Option, none, some, List, [], ◌∷◌, ◌++◌, length,
  keep, leb, if◌then◌else◌, ◌==◌, string_Eq,
}
use mathlib.Core.Option
use aika.Common.HashMap.{HashMap, insert, remove, values}
use aika.Model.{IpAddr}

abbrev pub max_connections : ℕ
max_connections = 64

abbrev pub max_connections_per_peer : ℕ
max_connections_per_peer = 4

pub data ChatHubEvent : Type 0 where
  connected : String → String → IpAddr → Bool → ChatHubEvent
  message : String → String → ChatHubEvent
  disconnected : String → String → ChatHubEvent

-- The fields of `HubInner`, the handshakes that have passed the check of the capacity, by the
-- fingerprint of the peer, and the connections whose task runs.
pub record ChatHub : Type 0 where
  pub connections : HashMap String String
  pub events : List ChatHubEvent
  pub is_cancelled : Bool
  pub handshakes : List String
  pub running : List String

abbrev pub emit : ChatHubEvent → ChatHub → ChatHub
emit event hub = record hub { events = hub.events ++ event ∷ [] }

-- `true`: there is room.
unfoldable pub check_capacity : String → ChatHub → Bool
check_capacity fingerprint hub =
    let for_peer = length (keep (λ f. f == fingerprint) (values hub.connections)) in
    if hub.is_cancelled
    then false
    else (if leb max_connections (length hub.connections) || leb max_connections_per_peer for_peer
        then false
        else true)

-- `connect` and `upgrade`, up to the handshake.
unfoldable pub begin_handshake : String → ChatHub → ChatHub
unfolding check_capacity
begin_handshake fingerprint hub =
    if check_capacity fingerprint hub
    then record hub { handshakes = fingerprint ∷ hub.handshakes }
    else hub

abbrev pub take_at {ℓ} : {A : Type ℓ} → ℕ → List A → Option (A × List A)
take_at i [] = none
take_at zero (a ∷ rest) = some (a, rest)
take_at (suc i) (a ∷ rest) = Option.map (λ found. (found.0, a ∷ found.1)) (take_at i rest)

-- `register`, with the fresh UUID.
unfoldable pub register : String → String → IpAddr → Bool → ChatHub → ChatHub
register id fingerprint ip outbound hub =
    emit (connected id fingerprint ip outbound) (record hub {
      connections = insert id fingerprint hub.connections;
      running = id ∷ hub.running;
    })

abbrev pub register_at : Option (String × List String) → String → IpAddr → Bool → ChatHub → ChatHub
register_at none id ip outbound hub = hub
register_at (some (fingerprint, rest)) id ip outbound hub =
    register id fingerprint ip outbound (record hub { handshakes = rest })

abbrev pub fail_at : Option (String × List String) → ChatHub → ChatHub
fail_at none hub = hub
fail_at (some (_, rest)) hub = record hub { handshakes = rest }

abbrev pub receive_at : Option (String × List String) → String → ChatHub → ChatHub
receive_at none text hub = hub
receive_at (some (id, _)) text hub = emit (message id text) hub

-- The end of a connection's task.
abbrev pub end_at : Option (String × List String) → String → ChatHub → ChatHub
end_at none reason hub = hub
end_at (some (id, rest)) reason hub =
    emit (disconnected id reason)
      (record hub { connections = remove id hub.connections; running = rest })

unfoldable pub close : String → ChatHub → ChatHub
close id hub = record hub { connections = remove id hub.connections }

unfoldable pub shutdown : ChatHub → ChatHub
shutdown hub = record hub { is_cancelled = true; connections = [] }

-- What happens to the hub; positions are those of a handshake or of a running task.
pub data Action : Type 0 where
  begins : String → Action
  succeeds : ℕ → String → IpAddr → Bool → Action
  fails : ℕ → Action
  receives : ℕ → String → Action
  ends : ℕ → String → Action
  closes : String → Action
  shuts_down : Action

unfoldable pub step : Action → ChatHub → ChatHub
step (begins fingerprint) hub = begin_handshake fingerprint hub
step (succeeds i id ip outbound) hub = register_at (take_at i hub.handshakes) id ip outbound hub
step (fails i) hub = fail_at (take_at i hub.handshakes) hub
step (receives i text) hub = receive_at (take_at i hub.running) text hub
step (ends i reason) hub = end_at (take_at i hub.running) reason hub
step (closes id) hub = close id hub
step shuts_down hub = shutdown hub
