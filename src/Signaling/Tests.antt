-- ===== src/Signaling/Tests.antt =====
-- Runs of the signaling server: server/src/controller/ws_controller.rs.
use aika.Common.{
  ◌++◌, ℕ, String, ◌+◌, ◌≤◌, length, arith, ◌≡◌, refl, false, none, [], ◌∷◌, string_Eq, nat_Eq,
}
use aika.Common.HashMap.{get, insert, remove}
use aika.Signaling.{
  ClientInfo, WsClientMessage, WsServerMessage, SignalState, room, or_zero,
  protect_ddos_request_count, connect, dispatch, handle_message, joins, leaves, step,
}
use aika.Signaling.Client.{
  Happening, offer, register, message, app_dropped, connected, happen_all, listen, take_answer,
}
use aika.Signaling.Answered.{offer_answered}
use aika.Signaling.Settled.{calls_of}
use aika.Signaling.Rooms.{Stays, step_within}
use aika.Signaling.Rate.{granted_to, granted_to-bounded}
use aika.Signaling.Granted.{tally, Reachable, starts, acts, within_limits}

abbrev peer : ℕ → ClientInfo
peer id = record {
  id = id;
  info = record {
    alias = "p";
    version = "2.1";
    device_model = none;
    device_type = none;
    token = "t";
  };
}

abbrev quiet : SignalState
quiet = record { tx_map = []; request_count_map = [] }

abbrev one : SignalState
one = (step 10 1000 (joins "1.2.3.4" (peer 1) 100) quiet).1

abbrev two : SignalState
two = (step 10 1000 (joins "1.2.3.4" (peer 2) 200) one).1

-- The second peer to join a full room is turned away.
room_full : (connect 1 1000 "1.2.3.4" (peer 2) 200 one).0 ≡ false
unfolding step connect protect_ddos_request_count get insert remove
room_full = refl

-- An offer goes to its target.
offered :
    (handle_message 1000 "1.2.3.4"
      (peer 1)
      100
      (WsClientMessage.offer (record { session_id = "s"; target = 2; sdp = "x" }))
      two).1
    ≡ (200, WsServerMessage.offer (record { peer = peer 1; session_id = "s"; sdp = "x" })) ∷ []
unfolding step connect handle_message dispatch protect_ddos_request_count get insert remove
offered = refl

abbrev twice : String → ℕ
twice g =
    tally 10 1000 g (joins "1.2.3.4" (peer 2) 200) one
      (tally 10 1000 g (joins "1.2.3.4" (peer 1) 100) quiet 0)

two-Reachable : Reachable 10 1000 twice two
two-Reachable =
    acts (joins "1.2.3.4" (peer 2) 200) _ one
      (acts (joins "1.2.3.4" (peer 1) 100) (λ g. 0) quiet starts)

-- Both connections are counted.
twice_counted : twice "1.2.3.4" ≡ 2
unfolding step connect protect_ddos_request_count get insert remove
twice_counted = refl

within_limits_example : (length (room "1.2.3.4" two) ≤ 10) × (twice "1.2.3.4" ≤ 1000)
within_limits_example = within_limits 10 1000 twice two "1.2.3.4" two-Reachable

step_within_example : Stays none (room "1.2.3.4" two) (step 10 1000 (leaves "1.2.3.4" 1) two).0
step_within_example = step_within 10 1000 (leaves "1.2.3.4" 1) "1.2.3.4" two refl

granted_to-bounded_example :
    granted_to 2 "a" ("a" ∷ "b" ∷ "a" ∷ "a" ∷ []) [] + or_zero (get {K = String} "a" []) ≤ 2
unfolding get
granted_to-bounded_example = granted_to-bounded 2 "a" ("a" ∷ "b" ∷ "a" ∷ "a" ∷ []) [] (omega arith)

abbrev answer_of : String → String → Happening
answer_of id sdp =
    message (WsServerMessage.answer (record { peer = peer 7; session_id = id; sdp = sdp }))

-- An answer to "s" that comes early, then one to "t", and two to "s".
offer_answered_example :
    calls_of 3
      (happen_all
        ((offer "s" 2 "o" ∷ answer_of "s" "early" ∷ [])
          ++ register "s" 3
            ∷ answer_of "t" "other"
            ∷ answer_of "s" "first"
            ∷ answer_of "s" "late"
            ∷ [])
        connected).called
    ≡ record { peer = peer 7; session_id = "s"; sdp = "first" } ∷ []
offer_answered_example =
    offer_answered "s" 3 (offer "s" 2 "o" ∷ answer_of "s" "early" ∷ [])
      (answer_of "t" "other" ∷ answer_of "s" "first" ∷ answer_of "s" "late" ∷ []) (tt, (tt, tt))
      (tt, (tt, (tt, tt)))

-- Once the application has dropped its receiver, a message ends the task that listens.
stops_listening : (happen_all (app_dropped ∷ answer_of "s" "x" ∷ []) connected).listening ≡ false
unfolding happen_all listen take_answer get
stops_listening = refl
