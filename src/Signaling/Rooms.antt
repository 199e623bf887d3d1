-- ===== src/Signaling/Rooms.antt =====
-- Where the messages of the signaling server go: server/src/controller/ws_controller.rs.
use aika.Common.{
  ℕ, ◌≡◌, ◌⊎◌, ◌∙◌, refl, sym, subst, inl, inr, Bool, true, false, not, ◌||◌, String, Option, none,
  some, [], ◌∷◌, ◌++◌, length, leb, nat_eq, nat_eq_iff, keep, any, All, is_empty, ◌==◌, nat_Eq,
  string_Eq, arith, Bool-cases,
}
use aika.Common.HashMap.{HashMap, get, remove, values}
use aika.Signaling.{
  ClientInfo, ClientInfoWithoutId, ClientState, WsClientMessage, WsServerMessage, join, left, Room,
  SignalState, Sends, or_empty, room, admit_peer, connect, update_room, send_update_to_other_peers,
  send_to_target, send_to_all, dispatch, serve, handle_message, leave_room, disconnect, Action,
  joins, speaks, leaves, hourly, step,
}

-- A peer in the room has the channel.
abbrev pub has_channel : ℕ → Room → Bool
has_channel tx peers = any (λ p. nat_eq p.tx tx) (values peers)

-- A message to the sender itself, or into its room.
abbrev pub Stays : Option ℕ → Room → Sends → Type 0
Stays own peers = All (λ m. (some m.0 ≡ own) ⊎ (has_channel m.0 peers ≡ true))

Stays-append :
    (own : Option ℕ) (peers : Room) (xs ys : Sends)
    → Stays own peers xs
    → Stays own peers ys
    → Stays own peers (xs ++ ys)
Stays-append own peers [] ys p q = q
Stays-append own peers (x ∷ xs) ys p q = (p.0, Stays-append own peers xs ys p.1 q)

send_to_all_within :
    (own : Option ℕ) (sub peers : Room) (message : WsServerMessage)
    → ((t : ℕ) → has_channel t sub ≡ true → has_channel t peers ≡ true)
    → Stays own peers (send_to_all sub message)
send_to_all_within own [] peers message within = tt
send_to_all_within own ((k, p) ∷ sub) peers message within = (
  inr (within p.tx (ground (arith, nat_eq_iff p.tx p.tx))),
  send_to_all_within own sub peers message (λ t h. within t (ground (arith, h))),
)

keep_within :
    (q : ℕ × ClientState → Bool) (peers : Room) (t : ℕ)
    → has_channel t (keep q peers) ≡ true
    → has_channel t peers ≡ true
keep_within q [] t h = h
keep_within q ((k, p) ∷ peers) t h = elim (Bool-cases (q (k, p))) [
  | inl kept ↦
      let split : (nat_eq p.tx t || has_channel t (keep q peers)) ≡ true = sym (rw kept refl) ∙ h in
      ground (arith, split, keep_within q peers t)
  | inr dropped ↦
      let rest : has_channel t (keep q peers) ≡ true = sym (rw dropped refl) ∙ h in
      ground (arith, keep_within q peers t rest)
]

remove_within :
    (k : ℕ) (peers : Room) (t : ℕ)
    → has_channel t (remove k peers) ≡ true
    → has_channel t peers ≡ true
unfolding remove
remove_within k [] t h = h
remove_within k ((j, p) ∷ peers) t h = ground (arith, h, remove_within k peers t)

found_within :
    (k : ℕ) (peers : Room) (p : ClientState) → get k peers ≡ some p → has_channel p.tx peers ≡ true
unfolding get
found_within k [] p h = absurd (ground (arith, h))
found_within k ((j, q) ∷ peers) p h = elim (Bool-cases (j == k)) [
  | inl here ↦
      let same : q ≡ p = ground (arith, here, h) in
      subst (λ x. has_channel x.tx ((j, q) ∷ peers) ≡ true) same
        (ground (arith, nat_eq_iff q.tx q.tx))
  | inr there ↦
      let rest : get k peers ≡ some p = sym (rw there refl) ∙ h in
      ground (arith, found_within k peers p rest)
]

target_within :
    (own : Option ℕ) (target : ℕ) (peers : Room) (o : Option ClientState)
    (message : WsServerMessage)
    → get target peers ≡ o
    → Stays own peers (send_to_target o message)
target_within own target peers none message h = tt
target_within own target peers (some p) message h = (inr (found_within target peers p h), tt)

update_room_within :
    (own : Option ℕ) (group : String) (peer_id : ℕ) (info : ClientInfoWithoutId)
    (o : Option ClientState) (peers : Room) (s : SignalState)
    → Stays own peers (update_room group peer_id info o peers s).0
update_room_within own group peer_id info none peers s = tt
update_room_within own group peer_id info (some old) peers s =
    send_to_all_within own _ peers _ (keep_within (λ e. not (e.0 == peer_id)) peers)

dispatch_within :
    (own : Option ℕ) (group : String) (peer : ClientInfo) (message : WsClientMessage)
    (s : SignalState)
    → Stays own (room group s) (dispatch group peer message s).0
unfolding dispatch send_update_to_other_peers
dispatch_within own group peer (WsClientMessage.update info) s =
    update_room_within own group peer.id info (get peer.id (room group s)) (room group s) s
dispatch_within own group peer (WsClientMessage.offer inner) s =
    target_within own inner.target (room group s) _ _ refl
dispatch_within own group peer (WsClientMessage.answer inner) s =
    target_within own inner.target (room group s) _ _ refl

serve_within :
    (granted : Bool) (group : String) (peer : ClientInfo) (tx : ℕ) (message : WsClientMessage)
    (s : SignalState)
    → Stays (some tx) (room group s) (serve granted group peer tx message s).1
serve_within false group peer tx message s = (inl refl, tt)
serve_within true group peer tx message s = dispatch_within (some tx) group peer message s

admit_peer_within :
    (granted : Bool) (counts : HashMap String ℕ) (group : String) (peer : ClientInfo) (tx : ℕ)
    (peers : Room) (s : SignalState)
    → Stays (some tx) peers (admit_peer granted counts group peer tx peers s).1
admit_peer_within false counts group peer tx peers s = tt
admit_peer_within true counts group peer tx peers s =
    Stays-append (some tx) peers (send_to_all peers (join peer)) _
      (send_to_all_within (some tx) peers peers (join peer) (λ t h. h)) (inl refl, tt)

connect_within :
    (max_connections max_requests : ℕ) (group : String) (peer : ClientInfo) (tx : ℕ)
    (s : SignalState)
    → Stays (some tx) (room group s) (connect max_connections max_requests group peer tx s).1
unfolding connect
connect_within max_connections max_requests group peer tx s =
    elim (Bool-cases (leb max_connections (length (room group s)))) [
      | inl full ↦ rw full tt
      | inr space ↦ rw space (admit_peer_within _ _ group peer tx (room group s) s)
    ]

leave_room_within :
    (own : Option ℕ) (group : String) (peer_id : ℕ) (o : Option Room) (s : SignalState)
    → Stays own (or_empty o) (leave_room group peer_id o s).0
leave_room_within own group peer_id none s = tt
leave_room_within own group peer_id (some peers) s =
    elim (Bool-cases (is_empty (remove peer_id peers))) [
      | inl empty ↦ rw empty tt
      | inr more ↦ rw more (
          send_to_all_within own (remove peer_id peers) peers (left peer_id)
            (remove_within peer_id peers))
    ]

-- The group and the channel of who acts; the clock has neither, and a client that leaves has no
-- channel any more.
abbrev pub ActsIn : Action → String → Type 0
ActsIn (joins group peer tx) g = group ≡ g
ActsIn (speaks group peer tx message) g = group ≡ g
ActsIn (leaves group peer_id) g = group ≡ g
ActsIn hourly g = ⊥

abbrev pub own_channel : Action → Option ℕ
own_channel (joins group peer tx) = some tx
own_channel (speaks group peer tx message) = some tx
own_channel (leaves group peer_id) = none
own_channel hourly = none

-- Whatever a client does, everything the signaling server sends because of it goes to the client
-- itself or to peers in the room of its IP group.
pub step_within :
    (max_connections max_requests : ℕ) (a : Action) (group : String) (s : SignalState)
    → ActsIn a group
    → Stays (own_channel a) (room group s) (step max_connections max_requests a s).0
unfolding step handle_message disconnect
step_within max_connections max_requests (joins g peer tx) group s e =
    subst
      (λ r. Stays (some tx) (room r s) (step max_connections max_requests (joins g peer tx) s).0) e
      (connect_within max_connections max_requests g peer tx s)
step_within max_connections max_requests (speaks g peer tx message) group s e =
    subst
      (λ r.
        Stays (some tx) (room r s)
          (step max_connections max_requests (speaks g peer tx message) s).0)
      e (serve_within _ g peer tx message _)
step_within max_connections max_requests (leaves g peer_id) group s e =
    subst (λ r. Stays none (room r s) (step max_connections max_requests (leaves g peer_id) s).0) e
      (leave_room_within none g peer_id (get g s.tx_map) s)
step_within max_connections max_requests hourly group s e = absurd e
