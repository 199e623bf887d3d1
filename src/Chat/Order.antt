-- ===== src/Chat/Order.antt =====
-- The order of the events of one connection: `ChatHubEvent` of packages/core/src/chat/mod.rs.
use aika.Common.{
  ℕ, zero, suc, ◌+◌, ◌≡◌, ◌≢◌, ◌∙◌, refl, sym, ap, inl, inr, Bool, true, false, String, Option,
  none, some, List, [], ◌∷◌, ◌++◌, if◌then◌else◌, ◌==◌, ==→≡, string_Eq, arith, Bool-cases,
  map-some,
}
use aika.Model.{IpAddr}
use aika.Chat.{
  ChatHubEvent, connected, message, disconnected, ChatHub, check_capacity, begin_handshake,
  register, register_at, fail_at, receive_at, end_at, close, shutdown, take_at, Action, begins,
  succeeds, fails, receives, ends, closes, shuts_down, step,
}

-- What the application has seen of a connection. `broken`: an event out of order.
pub data Phase : Type 0 where
  unseen live gone broken : Phase

abbrev pub on_connected : Phase → Phase
on_connected unseen = live
on_connected _ = broken

abbrev pub on_message : Phase → Phase
on_message live = live
on_message _ = broken

abbrev pub on_disconnected : Phase → Phase
on_disconnected live = gone
on_disconnected _ = broken

abbrev pub advance : String → ChatHubEvent → Phase → Phase
advance id (connected i _ _ _) p = if i == id then on_connected p else p
advance id (message i _) p = if i == id then on_message p else p
advance id (disconnected i _) p = if i == id then on_disconnected p else p

abbrev pub phase_from : Phase → String → List ChatHubEvent → Phase
phase_from p id [] = p
phase_from p id (event ∷ events) = phase_from (advance id event p) id events

abbrev pub phase : String → ChatHub → Phase
phase id hub = phase_from unseen id hub.events

abbrev pub tasks_of : String → List String → ℕ
tasks_of id [] = 0
tasks_of id (i ∷ running) = (if i == id then 1 else 0) + tasks_of id running

-- How many tasks a connection in that phase has.
abbrev pub tasks_in : Phase → Option ℕ
tasks_in unseen = some 0
tasks_in live = some 1
tasks_in gone = some 0
tasks_in broken = none

abbrev IsOrderly : ChatHub → Type 0
IsOrderly hub = (id : String) → tasks_in (phase id hub) ≡ some (tasks_of id hub.running)

phase-append :
    (p : Phase) (id : String) (events : List ChatHubEvent) (event : ChatHubEvent)
    → phase_from p id (events ++ event ∷ []) ≡ advance id event (phase_from p id events)
phase-append p id [] event = refl
phase-append p id (e ∷ events) event = phase-append (advance id e p) id events event

taken :
    (i : ℕ) (id : String) (running : List String) (k : String) (rest : List String)
    → take_at i running ≡ some (k, rest)
    → tasks_of id running ≡ (if k == id then 1 else 0) + tasks_of id rest
taken i id [] k rest e = absurd (ground (arith, e))
taken zero id (a ∷ running) k rest e = ground (arith, e)
taken (suc i) id (a ∷ running) k rest e =
    let (found, at, becomes) =
      map-some (λ found. (found.0, a ∷ found.1)) (take_at i running) (k, rest) e in
    omega (
      arith,
      taken i id running found.0 found.1 at,
      ap {B = ℕ} (λ f. if f.0 == id then 1 else 0) becomes,
      ap (λ f. tasks_of id f.1) becomes,
    )

connected_orderly :
    (p : Phase) (here : Bool) (n : ℕ)
    → ((here ≡ true) → p ≡ unseen)
    → tasks_in p ≡ some n
    → tasks_in (if here then on_connected p else p) ≡ some ((if here then 1 else 0) + n)
connected_orderly p false n fresh e = e ∙ ap some (omega arith)
connected_orderly unseen true n fresh e = ground (arith, e)
connected_orderly live true n fresh e = absurd (ground (arith, fresh refl))
connected_orderly gone true n fresh e = absurd (ground (arith, fresh refl))
connected_orderly broken true n fresh e = absurd (ground (arith, e))

message_orderly :
    (p : Phase) (here : Bool) (n m : ℕ)
    → n ≡ (if here then 1 else 0) + m
    → tasks_in p ≡ some n
    → tasks_in (if here then on_message p else p) ≡ some n
message_orderly p false n m has e = e
message_orderly unseen true n m has e = absurd (ground (arith, has, e))
message_orderly live true n m has e = e
message_orderly gone true n m has e = absurd (ground (arith, has, e))
message_orderly broken true n m has e = absurd (ground (arith, e))

disconnected_orderly :
    (p : Phase) (here : Bool) (n m : ℕ)
    → n ≡ (if here then 1 else 0) + m
    → tasks_in p ≡ some n
    → tasks_in (if here then on_disconnected p else p) ≡ some m
disconnected_orderly p false n m has e = e ∙ ap some (omega (arith, has))
disconnected_orderly unseen true n m has e = absurd (ground (arith, has, e))
disconnected_orderly live true n m has e = ground (arith, has, e)
disconnected_orderly gone true n m has e = absurd (ground (arith, has, e))
disconnected_orderly broken true n m has e = absurd (ground (arith, e))

register-IsOrderly :
    (id fingerprint : String) (ip : IpAddr) (outbound : Bool) (hub : ChatHub)
    → phase id hub ≡ unseen
    → IsOrderly hub
    → IsOrderly (register id fingerprint ip outbound hub)
unfolding register
register-IsOrderly id fingerprint ip outbound hub fresh v k =
    ap tasks_in (phase-append unseen k hub.events (connected id fingerprint ip outbound))
    ∙ connected_orderly (phase k hub) (id == k) (tasks_of k hub.running)
        (λ same. ap (λ j. phase j hub) (sym (==→≡ id k same)) ∙ fresh) (v k)

register_at-IsOrderly :
    (o : Option (String × List String)) (id : String) (ip : IpAddr) (outbound : Bool)
    (hub : ChatHub)
    → phase id hub ≡ unseen
    → IsOrderly hub
    → IsOrderly (register_at o id ip outbound hub)
register_at-IsOrderly none id ip outbound hub fresh v = v
register_at-IsOrderly (some (fingerprint, rest)) id ip outbound hub fresh v =
    register-IsOrderly id fingerprint ip outbound (record hub { handshakes = rest }) fresh v

receive_at-IsOrderly :
    (i : ℕ) (o : Option (String × List String)) (text : String) (hub : ChatHub)
    → take_at i hub.running ≡ o
    → IsOrderly hub
    → IsOrderly (receive_at o text hub)
receive_at-IsOrderly i none text hub e v k = v k
receive_at-IsOrderly i (some (id, rest)) text hub e v k =
    ap tasks_in (phase-append unseen k hub.events (message id text))
    ∙ message_orderly (phase k hub) (id == k) (tasks_of k hub.running) (tasks_of k rest)
        (taken i k hub.running id rest e) (v k)

end_at-IsOrderly :
    (i : ℕ) (o : Option (String × List String)) (reason : String) (hub : ChatHub)
    → take_at i hub.running ≡ o
    → IsOrderly hub
    → IsOrderly (end_at o reason hub)
end_at-IsOrderly i none reason hub e v k = v k
end_at-IsOrderly i (some (id, rest)) reason hub e v k =
    ap tasks_in (phase-append unseen k hub.events (disconnected id reason))
    ∙ disconnected_orderly (phase k hub) (id == k) (tasks_of k hub.running) (tasks_of k rest)
        (taken i k hub.running id rest e) (v k)

fail_at-IsOrderly :
    (o : Option (String × List String)) (hub : ChatHub) → IsOrderly hub → IsOrderly (fail_at o hub)
fail_at-IsOrderly none hub v = v
fail_at-IsOrderly (some (_, rest)) hub v = v

begin_handshake-IsOrderly :
    (fingerprint : String) (hub : ChatHub)
    → IsOrderly hub
    → IsOrderly (begin_handshake fingerprint hub)
unfolding begin_handshake
begin_handshake-IsOrderly fingerprint hub v = elim (Bool-cases (check_capacity fingerprint hub)) [
  | inl room ↦ rw room v
  | inr full ↦ rw full v
]

-- A new connection's ID has not been seen before; other actions are always possible.
abbrev pub Allowed : Action → ChatHub → Type 0
Allowed (succeeds i id ip outbound) hub = phase id hub ≡ unseen
Allowed _ hub = Unit

step-IsOrderly :
    (a : Action) (hub : ChatHub) → Allowed a hub → IsOrderly hub → IsOrderly (step a hub)
unfolding step close shutdown
step-IsOrderly (begins fingerprint) hub p v = begin_handshake-IsOrderly fingerprint hub v
step-IsOrderly (succeeds i id ip outbound) hub p v =
    register_at-IsOrderly (take_at i hub.handshakes) id ip outbound hub p v
step-IsOrderly (fails i) hub p v = fail_at-IsOrderly (take_at i hub.handshakes) hub v
step-IsOrderly (receives i text) hub p v =
    receive_at-IsOrderly i (take_at i hub.running) text hub refl v
step-IsOrderly (ends i reason) hub p v =
    end_at-IsOrderly i (take_at i hub.running) reason hub refl v
step-IsOrderly (closes id) hub p v = v
step-IsOrderly shuts_down hub p v = v

abbrev pub new_hub : ChatHub
new_hub = record {
  connections = [];
  events = [];
  is_cancelled = false;
  handshakes = [];
  running = [];
}

-- What a new hub can come to.
pub data Reachable : ChatHub → Type 0 where
  starts : Reachable new_hub
  acts : (a : Action) (hub : ChatHub) → Reachable hub → Allowed a hub → Reachable (step a hub)

Reachable-IsOrderly : {hub : ChatHub} → Reachable hub → IsOrderly hub
Reachable-IsOrderly starts id = refl
Reachable-IsOrderly (acts a hub r p) id = step-IsOrderly a hub p (Reachable-IsOrderly r) id

unbroken : (p : Phase) (n : ℕ) → tasks_in p ≡ some n → p ≢ broken
unbroken unseen n e h = ground (arith, h)
unbroken live n e h = ground (arith, h)
unbroken gone n e h = ground (arith, h)
unbroken broken n e h = ground (arith, e)

-- In every hub that can be reached with fresh connection IDs, the application has seen the events
-- of each connection in order: first that it is connected, then its messages, then that it is
-- disconnected, once and last.
pub events_in_order : (hub : ChatHub) (id : String) → Reachable hub → phase id hub ≢ broken
events_in_order hub id r =
    unbroken (phase id hub) (tasks_of id hub.running) (Reachable-IsOrderly r id)
