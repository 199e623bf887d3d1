-- ===== src/Signaling/Granted.antt =====
-- Which requests the signaling server grants, counted one by one, and that they stay within its
-- limits: server/src/controller/ws_controller.rs.
use aika.Common.{
  ℕ, ◌+◌, ◌≤◌, ◌≡◌, refl, inl, inr, Bool, true, false, String, Option, none, some, [], length, leb,
  is_empty, if◌then◌else◌, ◌&&◌, ◌==◌, nat_Eq, string_Eq, arith, Bool-cases,
}
use aika.Common.HashMap.{HashMap, get, remove}
use aika.Signaling.{
  ClientInfo, ClientInfoWithoutId, ClientState, WsClientMessage, Room, SignalState, or_zero, room,
  admit_peer, connect, update_room, send_update_to_other_peers, dispatch, serve, handle_message,
  leave_room, disconnect, Action, joins, speaks, leaves, hourly, step,
}
use aika.Signaling.Rate.{protect_counts}
use aika.Signaling.Limits.{Within, step-IsWithin}

abbrev Counts : Type 0
Counts = HashMap String ℕ

module _ (max_connections max_requests : ℕ) where
  -- Whether an action is a request of this group that is granted: a connection that is let in, or
  -- a message that is not turned away.
  abbrev pub is_granted : String → Action → SignalState → Bool
  is_granted g (joins group peer tx) s =
      (connect max_connections max_requests group peer tx s).0 && group == g
  is_granted g (speaks group peer tx message) s =
      (handle_message max_requests group peer tx message s).0 && group == g
  is_granted g (leaves group peer_id) s = false
  is_granted g hourly s = false

  -- The granted requests of a group since the hour, after one more action.
  abbrev pub tally : String → Action → SignalState → ℕ → ℕ
  tally g hourly s n = 0
  tally g a s n = (if is_granted g a s then 1 else 0) + n

  -- What the server can come to from its start, whatever its clients do, with the number of
  -- requests that it has granted to each group since the counts were last cleared.
  pub data Reachable : (String → ℕ) → SignalState → Type 0 where
    starts : Reachable (λ g. 0) (record { tx_map = []; request_count_map = [] })
    acts :
        (a : Action) (granted : String → ℕ) (s : SignalState)
        → Reachable granted s
        → Reachable (λ g. tally g a s (granted g)) (step max_connections max_requests a s).1

  -- The server's count of a group keeps up with the requests that are granted to it.
  abbrev Covers : (granted : ℕ) (g : String) → SignalState → Type 0
  Covers n g s = n ≤ or_zero (get g s.request_count_map)

  connect-Covers :
      (n : ℕ) (g group : String) (peer : ClientInfo) (tx : ℕ) (s : SignalState)
      → Within max_connections max_requests s
      → Covers n g s
      → Covers
          (tally g (joins group peer tx) s n)
          g
          (connect max_connections max_requests group peer tx s).2
  unfolding connect
  connect-Covers n g group peer tx s v h =
      elim (Bool-cases (leb max_connections (length (room group s)))) [
        | inl full ↦ rw full (omega (arith, h))
        | inr space ↦ rw space (
            admitted _ _ (protect_counts max_requests group g s.request_count_map (v.requests g)).0)
      ]
    where
      admitted :
          (granted : Bool) (counts : Counts)
          → or_zero (get g counts)
            ≡ or_zero (get g s.request_count_map) + (if granted && group == g then 1 else 0)
          → let (ok, sends, next) = admit_peer granted counts group peer tx (room group s) s in
            (if ok && group == g then 1 else 0) + n ≤ or_zero (get g next.request_count_map)
      admitted false counts e = ground (arith, h, e)
      admitted true counts e = omega (arith, h, e)

  update_room-counts :
      (group : String) (peer_id : ℕ) (info : ClientInfoWithoutId) (o : Option ClientState)
      (local : Room) (s : SignalState)
      → (update_room group peer_id info o local s).1.request_count_map ≡ s.request_count_map
  update_room-counts group peer_id info none local s = refl
  update_room-counts group peer_id info (some old) local s = refl

  dispatch-counts :
      (group : String) (peer : ClientInfo) (message : WsClientMessage) (s : SignalState)
      → (dispatch group peer message s).1.request_count_map ≡ s.request_count_map
  unfolding dispatch send_update_to_other_peers
  dispatch-counts group peer (WsClientMessage.update info) s =
      update_room-counts group peer.id info (get peer.id (room group s)) (room group s) s
  dispatch-counts group peer (WsClientMessage.offer inner) s = refl
  dispatch-counts group peer (WsClientMessage.answer inner) s = refl

  handle_message-Covers :
      (n : ℕ) (g group : String) (peer : ClientInfo) (tx : ℕ) (message : WsClientMessage)
      (s : SignalState)
      → Within max_connections max_requests s
      → Covers n g s
      → Covers
          (tally g (speaks group peer tx message) s n)
          g
          (handle_message max_requests group peer tx message s).2
  unfolding handle_message
  handle_message-Covers n g group peer tx message s v h =
      served _ _ (protect_counts max_requests group g s.request_count_map (v.requests g)).0
    where
      served :
          (granted : Bool) (counts : Counts)
          → or_zero (get g counts)
            ≡ or_zero (get g s.request_count_map) + (if granted && group == g then 1 else 0)
          → let (ok, sends, next) =
              serve granted group peer tx message (record s { request_count_map = counts }) in
            (if ok && group == g then 1 else 0) + n ≤ or_zero (get g next.request_count_map)
      served false counts e = ground (arith, h, e)
      served true counts e =
          rw (dispatch-counts group peer message (record s { request_count_map = counts }))
            (omega (arith, h, e))

  leave_room-counts :
      (group : String) (peer_id : ℕ) (o : Option Room) (s : SignalState)
      → (leave_room group peer_id o s).1.request_count_map ≡ s.request_count_map
  leave_room-counts group peer_id none s = refl
  leave_room-counts group peer_id (some local) s =
      elim (Bool-cases (is_empty (remove peer_id local))) [ inl e ↦ rw e refl | inr e ↦ rw e refl ]

  step-Covers :
      (a : Action) (n : ℕ) (g : String) (s : SignalState)
      → Within max_connections max_requests s
      → Covers n g s
      → Covers (tally g a s n) g (step max_connections max_requests a s).1
  unfolding step disconnect
  step-Covers (joins group peer tx) n g s v h = connect-Covers n g group peer tx s v h
  step-Covers (speaks group peer tx message) n g s v h =
      handle_message-Covers n g group peer tx message s v h
  step-Covers (leaves group peer_id) n g s v h =
      rw (leave_room-counts group peer_id (get group s.tx_map) s) (omega (arith, h))
  step-Covers hourly n g s v h = omega arith

  Reachable-Covers :
      (granted : String → ℕ) (s : SignalState)
      → Reachable granted s
      → Within max_connections max_requests s × ((g : String) → Covers (granted g) g s)
  unfolding get
  Reachable-Covers granted s starts =
      (record { rooms = λ g. omega arith; requests = λ g. omega arith }, λ g. omega arith)
  Reachable-Covers granted s (acts a before old r) =
      let (v, h) = Reachable-Covers before old r in
      (
        step-IsWithin max_connections max_requests a old v,
        λ g. step-Covers a (before g) g old v (h g),
      )

  -- Whatever clients do, no IP group ever has more connections than allowed, nor have more of its
  -- requests been granted since the counts were last cleared: connections that were let in, and
  -- messages that were not turned away, counted one by one.
  pub within_limits :
      (granted : String → ℕ) (s : SignalState) (g : String)
      → Reachable granted s
      → (length (room g s) ≤ max_connections) × (granted g ≤ max_requests)
  within_limits granted s g r =
      let (v, h) = Reachable-Covers granted s r in (v.rooms g, omega (arith, h g, v.requests g))
