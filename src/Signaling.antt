-- ===== src/Signaling.antt =====
-- The signaling server: server/src/controller/ws_controller.rs, with the state of
-- server/src/config/state.rs and the messages of packages/core/src/webrtc/signaling.rs.
--
-- A `Uuid` and the sender of a channel are numbers. What the server sends is a list of channels
-- and messages; the two limits come from the environment.
pub mod Rooms
pub mod Elsewhere
pub mod Limits
pub mod Granted
pub mod Rate
pub mod Client
pub mod Settled
pub mod Answered
mod Tests
use aika.Common.{
  ℕ, ◌+◌, Bool, true, false, not, String, Option, none, some, List, [], ◌∷◌, ◌++◌, map, keep,
  is_empty, length, leb, if◌then◌else◌, ◌==◌, nat_Eq, string_Eq,
}
use aika.Common.HashMap.{HashMap, get, insert, remove, values}
use aika.Model.{DeviceType}

pub record ClientInfoWithoutId : Type 0 where
  pub alias : String
  pub version : String
  pub device_model : Option String
  pub device_type : Option DeviceType
  pub token : String

-- `ClientInfo` has the same fields and the ID.
pub record ClientInfo : Type 0 where
  pub id : ℕ
  pub info : ClientInfoWithoutId

pub record WsServerSdpMessage : Type 0 where
  pub peer : ClientInfo
  pub session_id : String
  pub sdp : String

pub data WsServerMessage : Type 0 where
  hello : ClientInfo → List ClientInfo → WsServerMessage
  join : ClientInfo → WsServerMessage
  update : ClientInfo → WsServerMessage
  left : ℕ → WsServerMessage
  offer : WsServerSdpMessage → WsServerMessage
  answer : WsServerSdpMessage → WsServerMessage
  error : ℕ → WsServerMessage

pub record WsClientSdpMessage : Type 0 where
  pub session_id : String
  pub target : ℕ
  pub sdp : String

pub data WsClientMessage : Type 0 where
  update : ClientInfoWithoutId → WsClientMessage
  offer : WsClientSdpMessage → WsClientMessage
  answer : WsClientSdpMessage → WsClientMessage

pub record ClientState : Type 0 where
  pub client : ClientInfoWithoutId
  pub tx : ℕ

abbrev pub Room : Type 0
Room = HashMap ℕ ClientState

pub record SignalState : Type 0 where
  pub tx_map : HashMap String Room
  pub request_count_map : HashMap String ℕ

abbrev pub Sends : Type 0
Sends = List (ℕ × WsServerMessage)

-- `entry(…).or_insert_with(HashMap::new)` and `entry(…).or_insert(0)`.
abbrev pub or_empty : Option Room → Room
or_empty none = []
or_empty (some room) = room

abbrev pub or_zero : Option ℕ → ℕ
or_zero none = 0
or_zero (some n) = n

-- The room of an IP group.
abbrev pub room : String → SignalState → Room
room group s = or_empty (get group s.tx_map)

-- `true`: the request is granted. The count stays below the limit, which is a `u32`.
unfoldable pub protect_ddos_request_count : ℕ → String → HashMap String ℕ → Bool × HashMap String ℕ
protect_ddos_request_count max_requests group counts =
    let count = or_zero (get group counts) in
    if leb max_requests count
    then (false, insert group count counts)
    else (true, insert group (count + 1) counts)

abbrev pub send_to_all : Room → WsServerMessage → Sends
send_to_all peers message = map (λ p. (p.tx, message)) (values peers)

-- A new connection that is not over the limit of connections, from whether its request is
-- granted.
abbrev pub admit_peer :
    Bool
    → HashMap String ℕ
    → String
    → ClientInfo
    → ℕ
    → Room
    → SignalState
    → Bool × Sends × SignalState
admit_peer false counts group peer tx local s =
    (false, [], record { tx_map = insert group local s.tx_map; request_count_map = counts })
admit_peer true counts group peer tx local s = (
  true,
  send_to_all local (join peer)
      ++ (tx, hello peer (map (λ e. record { id = e.0; info = e.1.client }) local)) ∷ [],
  record {
    tx_map = insert group (insert peer.id (record { client = peer.info; tx = tx }) local) s.tx_map;
    request_count_map = counts;
  },
)

-- `handle_socket` up to its tasks; `false`: the limit is reached.
unfoldable pub connect : ℕ → ℕ → String → ClientInfo → ℕ → SignalState → Bool × Sends × SignalState
unfolding protect_ddos_request_count
connect max_connections max_requests group peer tx s =
    let local = room group s in
    if leb max_connections (length local)
    then (false, [], record s { tx_map = insert group local s.tx_map })
    else (let (granted, counts) =
          protect_ddos_request_count max_requests group s.request_count_map in
        admit_peer granted counts group peer tx local s)

abbrev pub update_room :
    String → ℕ → ClientInfoWithoutId → Option ClientState → Room → SignalState → Sends × SignalState
update_room group peer_id info none local s = ([], s)
update_room group peer_id info (some old) local s = (
  send_to_all (keep (λ e. not (e.0 == peer_id)) local)
      (update (record { id = peer_id; info = info })),
  record s { tx_map = insert group (insert peer_id (record old { client = info }) local) s.tx_map },
)

unfoldable pub send_update_to_other_peers :
    String → ℕ → ClientInfoWithoutId → SignalState → Sends × SignalState
send_update_to_other_peers group peer_id info s =
    update_room group peer_id info (get peer_id (room group s)) (room group s) s

abbrev pub send_to_target : Option ClientState → WsServerMessage → Sends
send_to_target none message = []
send_to_target (some p) message = (p.tx, message) ∷ []

abbrev pub sdp_message : ClientInfo → WsClientSdpMessage → WsServerSdpMessage
sdp_message peer inner = record { peer = peer; session_id = inner.session_id; sdp = inner.sdp }

-- A granted message of a connected client; `peer` is what the client said when it connected.
unfoldable pub dispatch : String → ClientInfo → WsClientMessage → SignalState → Sends × SignalState
unfolding send_update_to_other_peers
dispatch group peer (WsClientMessage.update info) s =
    send_update_to_other_peers group peer.id info s
dispatch group peer (WsClientMessage.offer inner) s =
    (send_to_target (get inner.target (room group s)) (offer (sdp_message peer inner)), s)
dispatch group peer (WsClientMessage.answer inner) s =
    (send_to_target (get inner.target (room group s)) (answer (sdp_message peer inner)), s)

abbrev pub serve :
    Bool → String → ClientInfo → ℕ → WsClientMessage → SignalState → Bool × Sends × SignalState
serve false group peer tx message s = (false, (tx, error 429) ∷ [], s)
serve true group peer tx message s =
    let (sends, next) = dispatch group peer message s in (true, sends, next)

-- One message in the receiving task; `false`: the task ends, and with it the connection.
unfoldable pub handle_message :
    ℕ → String → ClientInfo → ℕ → WsClientMessage → SignalState → Bool × Sends × SignalState
unfolding protect_ddos_request_count dispatch
handle_message max_requests group peer tx message s =
    let (granted, counts) = protect_ddos_request_count max_requests group s.request_count_map in
    serve granted group peer tx message (record s { request_count_map = counts })

abbrev pub leave_room : String → ℕ → Option Room → SignalState → Sends × SignalState
leave_room group peer_id none s = ([], s)
leave_room group peer_id (some local) s =
    let rest = remove peer_id local in
    if is_empty rest
    then ([], record s { tx_map = remove group s.tx_map })
    else (send_to_all rest (left peer_id), record s { tx_map = insert group rest s.tx_map })

-- The end of `handle_socket`.
unfoldable pub disconnect : String → ℕ → SignalState → Sends × SignalState
disconnect group peer_id s = leave_room group peer_id (get group s.tx_map) s

-- The job of server/src/config/scheduler.rs, on the hour.
unfoldable pub clear_counts : SignalState → SignalState
clear_counts s = record s { request_count_map = [] }

-- What happens at the server; a client that connects or speaks stands in an IP group.
pub data Action : Type 0 where
  joins : String → ClientInfo → ℕ → Action
  speaks : String → ClientInfo → ℕ → WsClientMessage → Action
  leaves : String → ℕ → Action
  hourly : Action

unfoldable pub step : ℕ → ℕ → Action → SignalState → Sends × SignalState
step max_connections max_requests (joins group peer tx) s =
    (let (_, sends, next) = connect max_connections max_requests group peer tx s in (sends, next))
step max_connections max_requests (speaks group peer tx message) s =
    (let (_, sends, next) = handle_message max_requests group peer tx message s in (sends, next))
step max_connections max_requests (leaves group peer_id) s = disconnect group peer_id s
step max_connections max_requests hourly s = ([], clear_counts s)
