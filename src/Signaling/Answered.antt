-- ===== src/Signaling/Answered.antt =====
-- Which answer an offer gets: `on_answer` and the listener of
-- packages/core/src/webrtc/signaling.rs.
use mathlib.Core.List.{append-nil}
use aika.Common.{
  ℕ, ◌≡◌, ◌≢◌, refl, sym, ap, ◌∙◌, subst, inl, inr, true, false, String, Option, none, some, List,
  [], ◌∷◌, ◌++◌, All, nat_eq, nat_eq_iff, arith, Bool-cases, ◌==◌, ==→≡, decides, ne→==_false,
  ==_refl, string_Eq,
}
use aika.Common.HashMap.{get, get-insert, get-remove}
use aika.Signaling.{WsServerMessage, WsServerSdpMessage}
use aika.Signaling.Client.{
  ManagedSignalingConnection, connected, add_callback, call, take_answer, listen, Happening, offer,
  register, message, app_dropped, happen, happen_all,
}
use aika.Signaling.Settled.{
  calls_of, answer_in, first_answer, Unrelated, calls_of-append, listen-forwards, Settled,
  happen_all-Settled,
}

-- A callback that is held for one session only, and has not been called.
record Waiting (id : String) (callback : ℕ) (c : ManagedSignalingConnection) : Type 0 where
  on : c.listening ≡ true
  app : c.app_listens ≡ true
  held : get id c.on_answer ≡ some callback
  only : (j : String) → get j c.on_answer ≡ some callback → j ≡ id
  calls : calls_of callback c.called ≡ []

module _ (id : String) (callback : ℕ) where
  answered-Settled :
      (c : ManagedSignalingConnection) (sdp : WsServerSdpMessage)
      → sdp.session_id ≡ id
      → Waiting id callback c
      → Settled callback (sdp ∷ []) (call (some callback) sdp c)
  answered-Settled c sdp same w =
      let itself : nat_eq callback callback ≡ true = (nat_eq_iff callback callback).1 refl in
      record {
        on = w.on;
        app = w.app;
        not_held = λ j held. ground (
          arith,
          held,
          get-remove sdp.session_id j c.on_answer,
          w.only j,
          decides sdp.session_id j,
          same,
        );
        calls = calls_of-append callback callback sdp c.called ∙ rw (w.calls, itself);
      }

  other-Waiting :
      (c : ManagedSignalingConnection) (sdp : WsServerSdpMessage) (found : Option ℕ)
      → get sdp.session_id c.on_answer ≡ found
      → sdp.session_id ≢ id
      → Waiting id callback c
      → Waiting id callback (call found sdp c)
  other-Waiting c sdp none e ne w = w
  other-Waiting c sdp (some k) e ne w =
      let apart : k ≢ callback = λ same. ne (w.only sdp.session_id (e ∙ ap some same)) in
      let differs : nat_eq k callback ≡ false = ground (arith, apart, nat_eq_iff k callback) in
      record {
        on = w.on;
        app = w.app;
        held =
            get-remove sdp.session_id id c.on_answer ∙ rw (ne→==_false sdp.session_id id ne) w.held;
        only = λ j held. ground (arith, held, get-remove sdp.session_id j c.on_answer, w.only j);
        calls = calls_of-append callback k sdp c.called ∙ rw differs (append-nil _ ∙ w.calls);
      }

  take_answer-Waiting :
      (c : ManagedSignalingConnection) (m : WsServerMessage)
      → answer_in id m [] ≡ []
      → Waiting id callback c
      → Waiting id callback (take_answer m c)
  unfolding take_answer
  take_answer-Waiting c (WsServerMessage.answer sdp) other w =
      other-Waiting c sdp _ refl (λ same. ground (arith, other, (decides sdp.session_id id).1 same))
        w
  take_answer-Waiting c (WsServerMessage.hello client peers) other w = w
  take_answer-Waiting c (WsServerMessage.join peer) other w = w
  take_answer-Waiting c (WsServerMessage.update peer) other w = w
  take_answer-Waiting c (WsServerMessage.left peer) other w = w
  take_answer-Waiting c (WsServerMessage.offer sdp) other w = w
  take_answer-Waiting c (WsServerMessage.error code) other w = w

  listen-Waiting :
      (c : ManagedSignalingConnection) (m : WsServerMessage)
      → answer_in id m [] ≡ []
      → Waiting id callback c
      → Waiting id callback (listen m c)
  listen-Waiting c m other w =
      let t = take_answer-Waiting c m other w in
      subst (Waiting id callback) (sym (listen-forwards c m w.on t.app))
        (record { on = t.on; app = t.app; held = t.held; only = t.only; calls = t.calls })

  listen-answered :
      (c : ManagedSignalingConnection) (sdp : WsServerSdpMessage)
      → sdp.session_id ≡ id
      → Waiting id callback c
      → Settled callback (sdp ∷ []) (listen (WsServerMessage.answer sdp) c)
  unfolding take_answer
  listen-answered c sdp same w =
      let found : get sdp.session_id c.on_answer ≡ some callback =
        ap (λ k. get k c.on_answer) same ∙ w.held in
      let t : Settled callback (sdp ∷ []) (take_answer (WsServerMessage.answer sdp) c) =
        subst (λ f. Settled callback (sdp ∷ []) (call f sdp c)) (sym found)
          (answered-Settled c sdp same w) in
      subst (Settled callback (sdp ∷ []))
        (sym (listen-forwards c (WsServerMessage.answer sdp) w.on t.app))
        (record { on = t.on; app = t.app; not_held = t.not_held; calls = t.calls })

  add_callback-Waiting :
      (c : ManagedSignalingConnection) (j : String) (other : ℕ)
      → j ≢ id
      → other ≢ callback
      → Waiting id callback c
      → Waiting id callback (add_callback j other c)
  unfolding add_callback
  add_callback-Waiting c j other ne apart w = record {
    on = w.on;
    app = w.app;
    held = get-insert j id other c.on_answer ∙ rw (ne→==_false j id ne) w.held;
    only = λ k held. ground (arith, held, get-insert j k other c.on_answer, w.only k, apart);
    calls = w.calls;
  }

  register-Waiting :
      (c : ManagedSignalingConnection)
      → Settled callback [] c
      → Waiting id callback (add_callback id callback c)
  unfolding add_callback
  register-Waiting c s = record {
    on = s.on;
    app = s.app;
    held = get-insert id id callback c.on_answer ∙ rw (==_refl id);
    only = λ k held.
        ground (arith, held, get-insert id k callback c.on_answer, s.not_held k, decides id k);
    calls = s.calls;
  }

  answered_or_waits :
      (hs : List Happening) (c : ManagedSignalingConnection) (sdp : WsServerSdpMessage)
      → All (Unrelated id callback) hs
      → Waiting id callback c
      → ((d : ManagedSignalingConnection)
          → Waiting id callback d
          → calls_of callback (happen_all hs d).called ≡ first_answer id hs)
      → calls_of callback (happen_all hs (listen (WsServerMessage.answer sdp) c)).called
        ≡ answer_in id (WsServerMessage.answer sdp) (first_answer id hs)
  answered_or_waits hs c sdp all w rest = elim (Bool-cases (sdp.session_id == id)) [
    | inl same ↦
        let done = listen-answered c sdp (==→≡ sdp.session_id id same) w in
        rw same (happen_all-Settled callback (sdp ∷ []) id hs _ all done).calls
    | inr other ↦
        rw other (rest _ (listen-Waiting c (WsServerMessage.answer sdp) (rw other refl) w))
  ]

  happen_all-Waiting :
      (hs : List Happening) (c : ManagedSignalingConnection)
      → All (Unrelated id callback) hs
      → Waiting id callback c
      → calls_of callback (happen_all hs c).called ≡ first_answer id hs
  unfolding happen_all
  happen_all-Waiting [] c all w = w.calls
  happen_all-Waiting (offer session_id target sdp ∷ hs) c (h, all) w =
      happen_all-Waiting hs _ all
        (record { on = w.on; app = w.app; held = w.held; only = w.only; calls = w.calls })
  happen_all-Waiting (register session_id other ∷ hs) c ((ne, apart), all) w =
      happen_all-Waiting hs _ all (add_callback-Waiting c session_id other ne apart w)
  happen_all-Waiting (app_dropped ∷ hs) c (h, all) w = absurd h
  happen_all-Waiting (message (WsServerMessage.hello client peers) ∷ hs) c (h, all) w =
      happen_all-Waiting hs _ all (listen-Waiting c (WsServerMessage.hello client peers) refl w)
  happen_all-Waiting (message (WsServerMessage.join peer) ∷ hs) c (h, all) w =
      happen_all-Waiting hs _ all (listen-Waiting c (WsServerMessage.join peer) refl w)
  happen_all-Waiting (message (WsServerMessage.update peer) ∷ hs) c (h, all) w =
      happen_all-Waiting hs _ all (listen-Waiting c (WsServerMessage.update peer) refl w)
  happen_all-Waiting (message (WsServerMessage.left peer) ∷ hs) c (h, all) w =
      happen_all-Waiting hs _ all (listen-Waiting c (WsServerMessage.left peer) refl w)
  happen_all-Waiting (message (WsServerMessage.offer sdp) ∷ hs) c (h, all) w =
      happen_all-Waiting hs _ all (listen-Waiting c (WsServerMessage.offer sdp) refl w)
  happen_all-Waiting (message (WsServerMessage.error code) ∷ hs) c (h, all) w =
      happen_all-Waiting hs _ all (listen-Waiting c (WsServerMessage.error code) refl w)
  happen_all-Waiting (message (WsServerMessage.answer sdp) ∷ hs) c (h, all) w =
      answered_or_waits hs c sdp all w (λ d. happen_all-Waiting hs d all)

happen_all-append :
    (hs later : List Happening) (c : ManagedSignalingConnection)
    → happen_all (hs ++ later) c ≡ happen_all later (happen_all hs c)
unfolding happen_all
happen_all-append [] later c = refl
happen_all-append (h ∷ hs) later c = happen_all-append hs later (happen h c)

connected-Settled : (callback : ℕ) → Settled callback [] connected
unfolding get
connected-Settled callback = record {
  on = refl;
  app = refl;
  not_held = λ id held. ground (arith, held);
  calls = refl;
}

-- A callback that is registered for a session is called with the first answer for the session that
-- arrives after it was registered, and with no other: not with an answer that came before, and
-- never twice. Neither the callback nor the session is registered a second time after it, the
-- callback not before it either nor the session, and the application keeps receiving.
pub offer_answered :
    (id : String) (callback : ℕ) (before after : List Happening)
    → All (Unrelated id callback) before
    → All (Unrelated id callback) after
    → calls_of callback (happen_all (before ++ register id callback ∷ after) connected).called
      ≡ first_answer id after
unfolding happen_all
offer_answered id callback before after early late =
    let c = happen_all before connected in
    let settled =
      happen_all-Settled callback [] id before connected early (connected-Settled callback) in
    ap (λ d. calls_of callback d.called)
      (happen_all-append before (register id callback ∷ after) connected)
    ∙ happen_all-Waiting id callback after _ late (register-Waiting id callback c settled)
