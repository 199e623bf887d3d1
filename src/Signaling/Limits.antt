-- ===== src/Signaling/Limits.antt =====
-- The limits of the signaling server: connections of an IP group, and its requests per hour.
use aika.Common.{
  ℕ, ◌+◌, ◌≤◌, ◌≡◌, refl, subst, inl, inr, Bool, true, false, String, Option, none, some, length,
  leb, is_empty, ◌==◌, nat_Eq, string_Eq, arith, Bool-cases,
}
use aika.Common.HashMap.{
  HashMap, get, insert, remove, get-insert, get-remove, length-remove, length-remove_found,
}
use aika.Signaling.{
  ClientInfo, ClientInfoWithoutId, ClientState, WsClientMessage, Room, SignalState, or_empty,
  or_zero, room, protect_ddos_request_count, admit_peer, connect, update_room,
  send_update_to_other_peers, dispatch, serve, handle_message, leave_room, disconnect, clear_counts,
  Action, joins, speaks, leaves, hourly, step,
}

-- No group has more connections than allowed, or a higher count of requests.
pub record IsWithin (max_connections max_requests : ℕ) (s : SignalState) : Type 0 where
  pub rooms : (group : String) → length (room group s) ≤ max_connections
  pub requests : (group : String) → or_zero (get group s.request_count_map) ≤ max_requests

abbrev Counts : Type 0
Counts = HashMap String ℕ

set_room :
    (max : ℕ) (group g : String) (local : Room) (m : HashMap String Room)
    → length local ≤ max
    → length (or_empty (get g m)) ≤ max
    → length (or_empty (get g (insert group local m))) ≤ max
set_room max group g local m new old =
    rw get-insert
      (elim (Bool-cases (group == g)) [ inl same ↦ rw same new | inr other ↦ rw other old ])

drop_room :
    (max : ℕ) (group g : String) (m : HashMap String Room)
    → length (or_empty (get g m)) ≤ max
    → length (or_empty (get g (remove group m))) ≤ max
drop_room max group g m old =
    rw get-remove (elim (Bool-cases (group == g)) [
      | inl same ↦ rw same (omega arith)
      | inr other ↦ rw other old
    ])

set_count :
    (max : ℕ) (group g : String) (n : ℕ) (m : Counts)
    → n ≤ max
    → or_zero (get g m) ≤ max
    → or_zero (get g (insert group n m)) ≤ max
set_count max group g n m new old =
    rw get-insert
      (elim (Bool-cases (group == g)) [ inl same ↦ rw same new | inr other ↦ rw other old ])

length-insert :
    (k : ℕ) (p : ClientState) (local : Room) → length (insert k p local) ≤ length local + 1
unfolding insert
length-insert k p local = omega (arith, length-remove k local)

length-insert_found :
    (k : ℕ) (p old : ClientState) (local : Room)
    → get k local ≡ some old
    → length (insert k p local) ≤ length local
unfolding insert
length-insert_found k p old local h = omega (arith, length-remove_found k local old h)

protect-bounded :
    (max : ℕ) (group g : String) (counts : Counts)
    → or_zero (get group counts) ≤ max
    → or_zero (get g counts) ≤ max
    → or_zero (get g (protect_ddos_request_count max group counts).1) ≤ max
unfolding protect_ddos_request_count
protect-bounded max group g counts own old =
    elim (Bool-cases (leb max (or_zero (get group counts)))) [
      | inl full ↦ rw full (set_count max group g _ counts own old)
      | inr room ↦ rw room (set_count max group g _ counts (ground (arith, room)) old)
    ]

module _ (max_connections max_requests : ℕ) where
  abbrev pub Within : SignalState → Type 0
  Within = IsWithin max_connections max_requests

  admit_peer-IsWithin :
      (granted : Bool) (counts : Counts) (group : String) (peer : ClientInfo) (tx : ℕ)
      (s : SignalState)
      → length (room group s) + 1 ≤ max_connections
      → ((g : String) → or_zero (get g counts) ≤ max_requests)
      → Within s
      → Within (admit_peer granted counts group peer tx (room group s) s).2
  admit_peer-IsWithin false counts group peer tx s space c v = record {
    rooms =
        λ g. set_room max_connections group g (room group s) s.tx_map (v.rooms group) (v.rooms g);
    requests = c;
  }
  admit_peer-IsWithin true counts group peer tx s space c v = record {
    rooms = λ g.
        set_room max_connections group g _ s.tx_map
          (omega (
            arith,
            space,
            length-insert peer.id (record { client = peer.info; tx = tx }) (room group s),
          ))
          (v.rooms g);
    requests = c;
  }

  connect-IsWithin :
      (group : String) (peer : ClientInfo) (tx : ℕ) (s : SignalState)
      → Within s
      → Within (connect max_connections max_requests group peer tx s).2
  unfolding connect
  connect-IsWithin group peer tx s v =
      elim (Bool-cases (leb max_connections (length (room group s)))) [
        | inl full ↦ rw full (record {
          rooms = λ g.
              set_room max_connections group g (room group s) s.tx_map (v.rooms group) (v.rooms g);
          requests = v.requests;
        })
        | inr space ↦ rw space (
            admit_peer-IsWithin _ _ group peer tx s (ground (arith, space))
              (λ g.
                protect-bounded max_requests group g s.request_count_map (v.requests group)
                  (v.requests g))
              v)
      ]

  update_room-IsWithin :
      (group : String) (peer_id : ℕ) (info : ClientInfoWithoutId) (o : Option ClientState)
      (s : SignalState)
      → get peer_id (room group s) ≡ o
      → Within s
      → Within (update_room group peer_id info o (room group s) s).1
  update_room-IsWithin group peer_id info none s h v = v
  update_room-IsWithin group peer_id info (some old) s h v = record {
    rooms = λ g.
        set_room max_connections group g _ s.tx_map
          (omega (
            arith,
            v.rooms group,
            length-insert_found peer_id (record old { client = info }) old (room group s) h,
          ))
          (v.rooms g);
    requests = v.requests;
  }

  dispatch-IsWithin :
      (group : String) (peer : ClientInfo) (message : WsClientMessage) (s : SignalState)
      → Within s
      → Within (dispatch group peer message s).1
  unfolding dispatch send_update_to_other_peers
  dispatch-IsWithin group peer (WsClientMessage.update info) s v =
      update_room-IsWithin group peer.id info (get peer.id (room group s)) s refl v
  dispatch-IsWithin group peer (WsClientMessage.offer inner) s v = v
  dispatch-IsWithin group peer (WsClientMessage.answer inner) s v = v

  serve-IsWithin :
      (granted : Bool) (group : String) (peer : ClientInfo) (tx : ℕ) (message : WsClientMessage)
      (s : SignalState)
      → Within s
      → Within (serve granted group peer tx message s).2
  serve-IsWithin false group peer tx message s v = v
  serve-IsWithin true group peer tx message s v = dispatch-IsWithin group peer message s v

  handle_message-IsWithin :
      (group : String) (peer : ClientInfo) (tx : ℕ) (message : WsClientMessage) (s : SignalState)
      → Within s
      → Within (handle_message max_requests group peer tx message s).2
  unfolding handle_message
  handle_message-IsWithin group peer tx message s v =
      serve-IsWithin _ group peer tx message _ (record {
        rooms = v.rooms;
        requests = λ g.
            protect-bounded max_requests group g s.request_count_map (v.requests group)
              (v.requests g);
      })

  leave_room-IsWithin :
      (group : String) (peer_id : ℕ) (o : Option Room) (s : SignalState)
      → get group s.tx_map ≡ o
      → Within s
      → Within (leave_room group peer_id o s).1
  leave_room-IsWithin group peer_id none s h v = v
  leave_room-IsWithin group peer_id (some local) s h v =
      let before : length local ≤ max_connections =
        subst (λ r. length (or_empty r) ≤ max_connections) h (v.rooms group) in
      let rest = remove peer_id local in
      elim (Bool-cases (is_empty rest)) [
        | inl empty ↦ rw empty (record {
          rooms = λ g. drop_room max_connections group g s.tx_map (v.rooms g);
          requests = v.requests;
        })
        | inr more ↦ rw more (record {
          rooms = λ g.
              set_room max_connections group g rest s.tx_map
                (omega (arith, before, length-remove peer_id local)) (v.rooms g);
          requests = v.requests;
        })
      ]

  pub step-IsWithin :
      (a : Action) (s : SignalState) → Within s → Within (step max_connections max_requests a s).1
  unfolding step disconnect clear_counts get
  step-IsWithin (joins group peer tx) s v = connect-IsWithin group peer tx s v
  step-IsWithin (speaks group peer tx message) s v =
      handle_message-IsWithin group peer tx message s v
  step-IsWithin (leaves group peer_id) s v =
      leave_room-IsWithin group peer_id (get group s.tx_map) s refl v
  step-IsWithin hourly s v = record { rooms = v.rooms; requests = λ g. omega arith }
