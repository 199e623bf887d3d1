-- ===== src/Signaling/Elsewhere.antt =====
-- What a client of one IP group leaves alone: server/src/controller/ws_controller.rs.
use aika.Common.{
  ℕ, ◌≡◌, ◌≢◌, ◌∙◌, refl, sym, inl, inr, Bool, true, false, String, Option, none, some, length, leb,
  is_empty, ◌==◌, nat_Eq, string_Eq, ne→==_false, Bool-cases,
}
use aika.Common.HashMap.{HashMap, get, insert, remove, get-insert, get-remove}
use aika.Signaling.{
  ClientInfo, ClientInfoWithoutId, ClientState, WsClientMessage, Room, SignalState, or_empty, room,
  admit_peer, connect, update_room, send_update_to_other_peers, dispatch, serve, handle_message,
  leave_room, disconnect, Action, joins, speaks, leaves, hourly, step,
}
use aika.Signaling.Rooms.{ActsIn}

elsewhere :
    (group h : String) (peers : Room) (m : HashMap String Room)
    → (group == h) ≡ false
    → or_empty (get h (insert group peers m)) ≡ or_empty (get h m)
elsewhere group h peers m other = rw (get-insert, other) refl

elsewhere_removed :
    (group h : String) (m : HashMap String Room)
    → (group == h) ≡ false
    → or_empty (get h (remove group m)) ≡ or_empty (get h m)
elsewhere_removed group h m other = rw (get-remove, other) refl

module _ (h : String) where
  admit_peer_elsewhere :
      (granted : Bool) (counts : HashMap String ℕ) (group : String) (peer : ClientInfo) (tx : ℕ)
      (peers : Room) (s : SignalState)
      → (group == h) ≡ false
      → room h (admit_peer granted counts group peer tx peers s).2 ≡ room h s
  admit_peer_elsewhere false counts group peer tx peers s other =
      elsewhere group h peers s.tx_map other
  admit_peer_elsewhere true counts group peer tx peers s other = elsewhere group h _ s.tx_map other

  connect_elsewhere :
      (max_connections max_requests : ℕ) (group : String) (peer : ClientInfo) (tx : ℕ)
      (s : SignalState)
      → (group == h) ≡ false
      → room h (connect max_connections max_requests group peer tx s).2 ≡ room h s
  unfolding connect
  connect_elsewhere max_connections max_requests group peer tx s other =
      elim (Bool-cases (leb max_connections (length (room group s)))) [
        | inl full ↦ rw full (elsewhere group h (room group s) s.tx_map other)
        | inr space ↦ rw space (admit_peer_elsewhere _ _ group peer tx (room group s) s other)
      ]

  update_room_elsewhere :
      (group : String) (peer_id : ℕ) (info : ClientInfoWithoutId) (o : Option ClientState)
      (peers : Room) (s : SignalState)
      → (group == h) ≡ false
      → room h (update_room group peer_id info o peers s).1 ≡ room h s
  update_room_elsewhere group peer_id info none peers s other = refl
  update_room_elsewhere group peer_id info (some old) peers s other =
      elsewhere group h _ s.tx_map other

  dispatch_elsewhere :
      (group : String) (peer : ClientInfo) (message : WsClientMessage) (s : SignalState)
      → (group == h) ≡ false
      → room h (dispatch group peer message s).1 ≡ room h s
  unfolding dispatch send_update_to_other_peers
  dispatch_elsewhere group peer (WsClientMessage.update info) s other =
      update_room_elsewhere group peer.id info (get peer.id (room group s)) (room group s) s other
  dispatch_elsewhere group peer (WsClientMessage.offer inner) s other = refl
  dispatch_elsewhere group peer (WsClientMessage.answer inner) s other = refl

  serve_elsewhere :
      (granted : Bool) (group : String) (peer : ClientInfo) (tx : ℕ) (message : WsClientMessage)
      (s : SignalState)
      → (group == h) ≡ false
      → room h (serve granted group peer tx message s).2 ≡ room h s
  serve_elsewhere false group peer tx message s other = refl
  serve_elsewhere true group peer tx message s other = dispatch_elsewhere group peer message s other

  leave_room_elsewhere :
      (group : String) (peer_id : ℕ) (o : Option Room) (s : SignalState)
      → (group == h) ≡ false
      → room h (leave_room group peer_id o s).1 ≡ room h s
  leave_room_elsewhere group peer_id none s other = refl
  leave_room_elsewhere group peer_id (some peers) s other =
      elim (Bool-cases (is_empty (remove peer_id peers))) [
        | inl empty ↦ rw empty (elsewhere_removed group h s.tx_map other)
        | inr more ↦ rw more (elsewhere group h (remove peer_id peers) s.tx_map other)
      ]

  -- A client of another IP group changes nothing in a group's room.
  pub step_elsewhere :
      (max_connections max_requests : ℕ) (a : Action) (group : String) (s : SignalState)
      → ActsIn a group
      → group ≢ h
      → room h (step max_connections max_requests a s).1 ≡ room h s
  unfolding step handle_message disconnect
  step_elsewhere max_connections max_requests (joins g peer tx) group s e ne =
      connect_elsewhere max_connections max_requests g peer tx s
        (ne→==_false g h (λ same. ne (sym e ∙ same)))
  step_elsewhere max_connections max_requests (speaks g peer tx message) group s e ne =
      serve_elsewhere _ g peer tx message _ (ne→==_false g h (λ same. ne (sym e ∙ same)))
  step_elsewhere max_connections max_requests (leaves g peer_id) group s e ne =
      leave_room_elsewhere g peer_id (get g s.tx_map) s
        (ne→==_false g h (λ same. ne (sym e ∙ same)))
  step_elsewhere max_connections max_requests hourly group s e ne = absurd e
