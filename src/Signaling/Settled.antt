-- ===== src/Signaling/Settled.antt =====
-- A callback of the signaling client that has been called: `on_answer` and the listener of
-- packages/core/src/webrtc/signaling.rs.
use mathlib.Core.List.{append-nil}
use aika.Common.{
  ℕ, ◌≡◌, ◌≢◌, refl, sym, ap, ◌∙◌, subst, Bool, true, false, String, Option, none, some, List, [],
  ◌∷◌, ◌++◌, All, nat_eq, nat_eq_iff, arith, if◌then◌else◌, ◌==◌, string_Eq,
}
use aika.Common.HashMap.{get, get-insert, get-remove}
use aika.Signaling.{WsServerMessage, WsServerSdpMessage}
use aika.Signaling.Client.{
  ManagedSignalingConnection, add_callback, call, take_answer, listen, Happening, offer, register,
  message, app_dropped, happen_all,
}

-- The answers that a callback is called with.
abbrev pub calls_of : ℕ → List (ℕ × WsServerSdpMessage) → List WsServerSdpMessage
calls_of callback [] = []
calls_of callback ((k, sdp) ∷ called) =
    if nat_eq k callback then sdp ∷ calls_of callback called else calls_of callback called

-- The first answer for a session, if there is one.
abbrev pub answer_in : String → WsServerMessage → List WsServerSdpMessage → List WsServerSdpMessage
answer_in id (WsServerMessage.answer sdp) later = if sdp.session_id == id then sdp ∷ [] else later
answer_in id _ later = later

abbrev pub first_answer : String → List Happening → List WsServerSdpMessage
first_answer id [] = []
first_answer id (offer session_id target sdp ∷ hs) = first_answer id hs
first_answer id (register session_id callback ∷ hs) = first_answer id hs
first_answer id (message m ∷ hs) = answer_in id m (first_answer id hs)
first_answer id (app_dropped ∷ hs) = first_answer id hs

-- The callback and its session are not registered again, and the application listens on.
abbrev pub Unrelated : String → ℕ → Happening → Type 0
Unrelated id callback (offer session_id target sdp) = Unit
Unrelated id callback (register session_id other) = (session_id ≢ id) × (other ≢ callback)
Unrelated id callback (message m) = Unit
Unrelated id callback app_dropped = ⊥

pub calls_of-append :
    (callback k : ℕ) (sdp : WsServerSdpMessage) (called : List (ℕ × WsServerSdpMessage))
    → calls_of callback (called ++ (k, sdp) ∷ [])
      ≡ calls_of callback called ++ (if nat_eq k callback then sdp ∷ [] else [])
calls_of-append callback k sdp [] = ground arith
calls_of-append callback k sdp ((j, other) ∷ called) =
    ground (arith, calls_of-append callback k sdp called)

if_true {ℓ} : {A : Type ℓ} (b : Bool) (x y : A) → b ≡ true → (if b then x else y) ≡ x
if_true true x y h = refl
if_true false x y h = absurd (ground (arith, h))

-- A listener that goes on has handed the message on.
pub listen-forwards :
    (c : ManagedSignalingConnection) (m : WsServerMessage)
    → c.listening ≡ true
    → (take_answer m c).app_listens ≡ true
    → listen m c ≡ record (take_answer m c) { forwarded = (take_answer m c).forwarded ++ m ∷ [] }
unfolding listen
listen-forwards c m on app =
    if_true c.listening _ c on ∙ if_true (take_answer m c).app_listens _ _ app

-- A callback that nothing holds, and that has been called with these answers.
pub record Settled (callback : ℕ) (result : List WsServerSdpMessage)
    (c : ManagedSignalingConnection) : Type 0 where
  pub on : c.listening ≡ true
  pub app : c.app_listens ≡ true
  pub not_held : (id : String) → get id c.on_answer ≢ some callback
  pub calls : calls_of callback c.called ≡ result

module _ (callback : ℕ) (result : List WsServerSdpMessage) where
  call-Settled :
      (c : ManagedSignalingConnection) (sdp : WsServerSdpMessage) (found : Option ℕ)
      → get sdp.session_id c.on_answer ≡ found
      → Settled callback result c
      → Settled callback result (call found sdp c)
  call-Settled c sdp none e s = s
  call-Settled c sdp (some k) e s =
      let ne : k ≢ callback = λ same. s.not_held sdp.session_id (e ∙ ap some same) in
      let differs : nat_eq k callback ≡ false = ground (arith, ne, nat_eq_iff k callback) in
      record {
        on = s.on;
        app = s.app;
        not_held = λ id held.
            ground (arith, held, get-remove sdp.session_id id c.on_answer, s.not_held id);
        calls = calls_of-append callback k sdp c.called ∙ rw differs (append-nil _ ∙ s.calls);
      }

  pub take_answer-Settled :
      (c : ManagedSignalingConnection) (m : WsServerMessage)
      → Settled callback result c
      → Settled callback result (take_answer m c)
  unfolding take_answer
  take_answer-Settled c (WsServerMessage.answer sdp) s = call-Settled c sdp _ refl s
  take_answer-Settled c (WsServerMessage.hello client peers) s = s
  take_answer-Settled c (WsServerMessage.join peer) s = s
  take_answer-Settled c (WsServerMessage.update peer) s = s
  take_answer-Settled c (WsServerMessage.left peer) s = s
  take_answer-Settled c (WsServerMessage.offer sdp) s = s
  take_answer-Settled c (WsServerMessage.error code) s = s

  listen-Settled :
      (c : ManagedSignalingConnection) (m : WsServerMessage)
      → Settled callback result c
      → Settled callback result (listen m c)
  listen-Settled c m s =
      let t = take_answer-Settled c m s in
      subst (Settled callback result) (sym (listen-forwards c m s.on t.app))
        (record { on = t.on; app = t.app; not_held = t.not_held; calls = t.calls })

  add_callback-Settled :
      (c : ManagedSignalingConnection) (id : String) (other : ℕ)
      → other ≢ callback
      → Settled callback result c
      → Settled callback result (add_callback id other c)
  unfolding add_callback
  add_callback-Settled c id other ne s = record {
    on = s.on;
    app = s.app;
    not_held = λ j held. ground (arith, held, get-insert id j other c.on_answer, s.not_held j, ne);
    calls = s.calls;
  }

  pub happen_all-Settled :
      (id : String) (hs : List Happening) (c : ManagedSignalingConnection)
      → All (Unrelated id callback) hs
      → Settled callback result c
      → Settled callback result (happen_all hs c)
  unfolding happen_all
  happen_all-Settled id [] c all s = s
  happen_all-Settled id (offer session_id target sdp ∷ hs) c (h, all) s =
      happen_all-Settled id hs _ all
        (record { on = s.on; app = s.app; not_held = s.not_held; calls = s.calls })
  happen_all-Settled id (register session_id other ∷ hs) c ((ne, apart), all) s =
      happen_all-Settled id hs _ all (add_callback-Settled c session_id other apart s)
  happen_all-Settled id (message m ∷ hs) c (h, all) s =
      happen_all-Settled id hs _ all (listen-Settled c m s)
  happen_all-Settled id (app_dropped ∷ hs) c (h, all) s = absurd h
