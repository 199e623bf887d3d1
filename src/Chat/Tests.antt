-- ===== src/Chat/Tests.antt =====
-- Runs of the chat hub: packages/core/src/chat/mod.rs.
use aika.Common.{◌≡◌, ◌≢◌, refl, false, List, [], ◌∷◌, length, string_Eq}
use aika.Common.HashMap.{insert, remove}
use aika.Model.{v4}
use aika.Chat.{
  ChatHub, connected, message, disconnected, check_capacity, begin_handshake, register, Action,
  begins, succeeds, receives, ends, step,
}
use aika.Chat.Order.{broken, phase, Reachable, starts, acts, new_hub, events_in_order}

abbrev run : List Action → ChatHub → ChatHub
run [] hub = hub
run (a ∷ actions) hub = run actions (step a hub)

abbrev talk : ChatHub
talk =
    step (ends 0 "closed by peer")
      (step (receives 0 "hi") (step (succeeds 0 "c" (v4 7) false) (step (begins "F") new_hub)))

talk-events :
    talk.events
    ≡ connected "c" "F" (v4 7) false ∷ message "c" "hi" ∷ disconnected "c" "closed by peer" ∷ []
unfolding step begin_handshake check_capacity register
talk-events = refl

talk-Reachable : Reachable talk
unfolding step begin_handshake check_capacity register
talk-Reachable =
    acts (ends 0 "closed by peer") _
      (acts (receives 0 "hi") _
        (acts (succeeds 0 "c" (v4 7) false) _ (acts (begins "F") new_hub starts tt) refl) tt)
      tt

events_in_order_example : phase "c" talk ≢ broken
events_in_order_example = events_in_order talk "c" talk-Reachable

-- Five handshakes of one peer that begin before the first of them ends all lead to a connection.
abbrev crowd : ChatHub
crowd =
    run
      (begins "F"
        ∷ begins "F"
        ∷ begins "F"
        ∷ begins "F"
        ∷ begins "F"
        ∷ succeeds 0 "1" (v4 7) false
        ∷ succeeds 0 "2" (v4 7) false
        ∷ succeeds 0 "3" (v4 7) false
        ∷ succeeds 0 "4" (v4 7) false
        ∷ succeeds 0 "5" (v4 7) false
        ∷ [])
      new_hub

crowd-size : length crowd.connections ≡ 5
unfolding step begin_handshake check_capacity register insert remove
crowd-size = refl
