-- ===== src/Signaling/Client.antt =====
-- The client of the signaling server, `ManagedSignalingConnection` and its listener in
-- packages/core/src/webrtc/signaling.rs. A callback is a number.
use aika.Common.{
  ℕ, Bool, true, false, String, Option, none, some, List, [], ◌∷◌, ◌++◌, if◌then◌else◌, string_Eq,
}
use aika.Common.HashMap.{HashMap, get, insert, remove}
use aika.Signaling.{WsServerMessage, WsServerSdpMessage, WsClientMessage, ClientInfoWithoutId}

-- `on_answer` are the callbacks, `called` the calls of them, `forwarded` what the application gets.
-- The task that listens ends with a panic when the application has dropped its receiver.
pub record ManagedSignalingConnection : Type 0 where
  pub on_answer : HashMap String ℕ
  pub listening : Bool
  pub app_listens : Bool
  pub called : List (ℕ × WsServerSdpMessage)
  pub forwarded : List WsServerMessage
  pub sent : List WsClientMessage

abbrev pub connected : ManagedSignalingConnection
connected = record {
  on_answer = [];
  listening = true;
  app_listens = true;
  called = [];
  forwarded = [];
  sent = [];
}

-- The method `on_answer`.
unfoldable pub add_callback : String → ℕ → ManagedSignalingConnection → ManagedSignalingConnection
unfolding insert remove
add_callback session_id callback c = record c { on_answer = insert session_id callback c.on_answer }

abbrev pub send_offer :
    String → ℕ → String → ManagedSignalingConnection → ManagedSignalingConnection
send_offer session_id target sdp c = record c {
  sent =
      c.sent
      ++ WsClientMessage.offer (record { session_id = session_id; target = target; sdp = sdp })
        ∷ [];
}

abbrev pub send_answer :
    String → ℕ → String → ManagedSignalingConnection → ManagedSignalingConnection
send_answer session_id target sdp c = record c {
  sent =
      c.sent
      ++ WsClientMessage.answer (record { session_id = session_id; target = target; sdp = sdp })
        ∷ [];
}

abbrev pub send_update :
    ClientInfoWithoutId → ManagedSignalingConnection → ManagedSignalingConnection
send_update info c = record c { sent = c.sent ++ WsClientMessage.update info ∷ [] }

-- `remove(..)`, and the call of the callback.
abbrev pub call :
    Option ℕ → WsServerSdpMessage → ManagedSignalingConnection → ManagedSignalingConnection
call none sdp c = c
call (some callback) sdp c = record c {
  on_answer = remove sdp.session_id c.on_answer;
  called = c.called ++ (callback, sdp) ∷ [];
}

unfoldable pub take_answer :
    WsServerMessage → ManagedSignalingConnection → ManagedSignalingConnection
unfolding get remove
take_answer (WsServerMessage.answer sdp) c = call (get sdp.session_id c.on_answer) sdp c
take_answer _ c = c

abbrev pub forward : WsServerMessage → ManagedSignalingConnection → ManagedSignalingConnection
forward message c =
    if c.app_listens
    then record c { forwarded = c.forwarded ++ message ∷ [] }
    else record c { listening = false }

-- A round of the task that `start_listener` spawns.
unfoldable pub listen : WsServerMessage → ManagedSignalingConnection → ManagedSignalingConnection
unfolding take_answer
listen message c = if c.listening then forward message (take_answer message c) else c

-- What happens to a connection.
pub data Happening : Type 0 where
  offer : String → ℕ → String → Happening
  register : String → ℕ → Happening
  message : WsServerMessage → Happening
  app_dropped : Happening

abbrev pub happen : Happening → ManagedSignalingConnection → ManagedSignalingConnection
happen (offer session_id target sdp) c = send_offer session_id target sdp c
happen (register session_id callback) c = add_callback session_id callback c
happen (message m) c = listen m c
happen app_dropped c = record c { app_listens = false }

unfoldable pub happen_all : List Happening → ManagedSignalingConnection → ManagedSignalingConnection
unfolding add_callback listen
happen_all [] c = c
happen_all (h ∷ hs) c = happen_all hs (happen h c)
