-- ===== src/Webrtc/Trust.antt =====
-- What the exchange of nonces and tokens in packages/core/src/webrtc/webrtc.rs establishes.
use aika.Common.{
  ℕ, ◌≡◌, refl, ◌⊎◌, inl, inr, Bool, true, false, Option, none, some, List, [], ◌∷◌, ◌++◌, arith,
  Bool-cases, split,
}
use aika.Save.{Bytes}
use aika.Chunks.{DataChannelMessage}
use aika.Crypto.{
  dot, Primitives, VerifyingTokenKey, Check, valid, invalid, panicked, validate_nonce,
  to_verifying_key, generate_token_nonce, verify_token_nonce,
}
use aika.Crypto.Token.{Holds, token_accepted, token_sound}
use aika.Webrtc.Handshake.{
  gives_up, RtcTokenRequest, RtcTokenResponse, ok, pin_required, invalid_signature, Formats,
  Outcome, established, failed, Exchange, text_message, sending, first, text_of, bind, or_give_up,
  valid_nonce, receive_nonce, nonce_message, passes, is_expected, on_token_response,
  offer_handshake, token_response, on_token, accept_handshake,
}

bind-some {ℓ κ} :
    {A : Type ℓ} {B : Type κ} (o : Option A) (f : A → Option B) (b : B)
    → bind o f ≡ some b
    → (a : A) × (o ≡ some a) × (f a ≡ some b)
bind-some none f b h = absurd (ground (arith, h))
bind-some (some a) f b h = (a, refl, h)

module _ (p : Primitives) (json : Formats) (takes : ℕ → Bool) where
  -- The key of the other side is the one that is expected, if one is.
  abbrev pub Expects : Option (VerifyingTokenKey p) → p.SigningKey → Type 0
  Expects expecting key = (expecting ≡ none) ⊎ (expecting ≡ some (to_verifying_key p key))

  Expects-is_expected :
      (expecting : Option (VerifyingTokenKey p)) (key : p.SigningKey) (token nonce : Bytes)
      → Expects expecting key
      → verify_token_nonce p (to_verifying_key p key) token nonce ≡ valid
      → is_expected p json takes expecting token nonce ≡ true
  unfolding is_expected
  Expects-is_expected expecting key token nonce (inl unknown) good = rw unknown
  Expects-is_expected expecting key token nonce (inr known) good = rw (known, good)

  receive-nonce_message :
      (nonce : Bytes)
      → validate_nonce nonce ≡ true
      → receive_nonce p json takes (some (nonce_message p json takes nonce)) ≡ some nonce
  unfolding receive_nonce text_of valid_nonce
  receive-nonce_message nonce long = rw (json.nonces.from-to _, p.decode-encode nonce, long)

  offer-run :
      (n m token remote_token : Bytes) (key : p.SigningKey)
      (expecting : Option (VerifyingTokenKey p)) (pin : Bool)
      → ((i : ℕ) → takes i ≡ true)
      → validate_nonce m ≡ true
      → generate_token_nonce p key (n ++ m) ≡ some token
      → is_expected p json takes expecting remote_token (n ++ m) ≡ true
      → offer_handshake p json takes n key expecting (
          nonce_message p json takes m
          ∷ text_message (json.responses.to_string (token_response p json takes pin remote_token))
          ∷ [])
        ≡ record {
          sent =
              nonce_message p json takes n
              ∷ text_message (json.requests.to_string (record { token = token }))
              ∷ [];
          outcome = established (n ++ m) remote_token pin;
        }
  unfolding offer_handshake on_token_response text_of token_response
  offer-run n m token remote_token key expecting true whole long made good =
      rw (whole 0, receive-nonce_message m long, made, whole 1, json.responses.from-to _, good)
  offer-run n m token remote_token key expecting false whole long made good =
      rw (whole 0, receive-nonce_message m long, made, whole 1, json.responses.from-to _, good)

  accept-run :
      (n m token remote_token : Bytes) (key : p.SigningKey)
      (expecting : Option (VerifyingTokenKey p)) (pin : Bool)
      → ((i : ℕ) → takes i ≡ true)
      → validate_nonce n ≡ true
      → generate_token_nonce p key (n ++ m) ≡ some token
      → is_expected p json takes expecting remote_token (n ++ m) ≡ true
      → accept_handshake p json takes m key expecting pin (
          nonce_message p json takes n
          ∷ text_message (json.requests.to_string (record { token = remote_token }))
          ∷ [])
        ≡ record {
          sent =
              nonce_message p json takes m
              ∷ text_message (json.responses.to_string (token_response p json takes pin token))
              ∷ [];
          outcome = established (n ++ m) remote_token pin;
        }
  unfolding accept_handshake on_token text_of
  accept-run n m token remote_token key expecting pin whole long made good =
      rw (receive-nonce_message n long, whole 0, json.requests.from-to _, good, made, whole 1)

  -- Two peers that expect no key or each other's, with nonces of a valid length and a channel that
  -- takes every message, end the exchange with the same nonce, the sender's before the receiver's,
  -- and with the receiver's wish for a PIN.
  pub handshake_agrees :
      (n m : Bytes) (sender receiver : p.SigningKey)
      (of_receiver of_sender : Option (VerifyingTokenKey p)) (pin : Bool)
      → ((i : ℕ) → takes i ≡ true)
      → validate_nonce n ≡ true
      → validate_nonce m ≡ true
      → Expects of_receiver receiver
      → Expects of_sender sender
      → (to_receiver to_sender : List DataChannelMessage) × (token remote_token : Bytes)
        × (offer_handshake p json takes n sender of_receiver to_sender
            ≡ record { sent = to_receiver; outcome = established (n ++ m) remote_token pin })
        × (accept_handshake p json takes m receiver of_sender pin to_receiver
            ≡ record { sent = to_sender; outcome = established (n ++ m) token pin })
  handshake_agrees n m sender receiver of_receiver of_sender pin whole long_n long_m known knows =
      let s = token_accepted p sender (n ++ m) in
      let r = token_accepted p receiver (n ++ m) in
      let good = Expects-is_expected of_receiver receiver r.0 (n ++ m) known r.2 in
      let trusted = Expects-is_expected of_sender sender s.0 (n ++ m) knows s.2 in
      (
        _,
        _,
        s.0,
        r.0,
        offer-run n m s.0 r.0 sender of_receiver pin whole long_m s.1 good,
        accept-run n m r.0 s.0 receiver of_sender pin whole long_n r.1 trusted,
      )

  -- The parts of a token, between dots, prove the nonce under the key that is expected, if one is.
  abbrev pub Signed : Option (VerifyingTokenKey p) → Bytes → Bytes → Type 0
  Signed none token nonce = Unit
  Signed (some key) token nonce = Holds p key (split dot token) nonce

  is_expected-Signed :
      (expecting : Option (VerifyingTokenKey p)) (token nonce : Bytes)
      → is_expected p json takes expecting token nonce ≡ true
      → Signed expecting token nonce
  unfolding is_expected
  is_expected-Signed none token nonce h = tt
  is_expected-Signed (some key) token nonce h =
      token_sound p key token nonce (passes-valid (verify_token_nonce p key token nonce) h)
    where
      passes-valid : (c : Check) → passes p json takes c ≡ true → c ≡ valid
      passes-valid valid e = refl
      passes-valid invalid e = absurd (ground (arith, e))
      passes-valid panicked e = absurd (ground (arith, e))

  -- The nonce that a side ends with is in part its own.
  abbrev pub Started : Option (VerifyingTokenKey p) → (Bytes → Bytes) → Outcome → Type 0
  Started expecting nonce_of failed = Unit
  Started expecting nonce_of (established nonce token pin) =
      Signed expecting token nonce
      × ((remote : Bytes) × (nonce ≡ nonce_of remote) × (validate_nonce remote ≡ true))

  on_token_response-Started :
      (expecting : Option (VerifyingTokenKey p)) (nonce_of : Bytes → Bytes) (remote : Bytes)
      (response : RtcTokenResponse)
      → validate_nonce remote ≡ true
      → Started expecting nonce_of
          (on_token_response p json takes expecting (nonce_of remote) response).outcome
  unfolding on_token_response
  on_token_response-Started expecting nonce_of remote (ok token) long =
      elim (Bool-cases (is_expected p json takes expecting token (nonce_of remote))) [
        | inr other ↦ rw other tt
        | inl good ↦
            rw good
              (is_expected-Signed expecting token (nonce_of remote) good, (remote, refl, long))
      ]
  on_token_response-Started expecting nonce_of remote (pin_required token) long =
      elim (Bool-cases (is_expected p json takes expecting token (nonce_of remote))) [
        | inr other ↦ rw other tt
        | inl good ↦
            rw good
              (is_expected-Signed expecting token (nonce_of remote) good, (remote, refl, long))
      ]
  on_token_response-Started expecting nonce_of remote invalid_signature long = tt

  receive_nonce-valid :
      (m : Option DataChannelMessage) (nonce : Bytes)
      → receive_nonce p json takes m ≡ some nonce
      → validate_nonce nonce ≡ true
  unfolding receive_nonce valid_nonce
  receive_nonce-valid m nonce h =
      let text = bind-some (text_of m) _ nonce h in
      let message = bind-some (json.nonces.from_slice text.0) _ nonce text.2 in
      let decoded = bind-some (p.decode message.0.nonce) _ nonce message.2 in
      elim (Bool-cases (validate_nonce decoded.0)) [
        | inr short ↦ absurd (ground (arith, decoded.2, short))
        | inl long ↦ ground (arith, decoded.2, long)
      ]

  module _ (expecting : Option (VerifyingTokenKey p)) (nonce_of : Bytes → Bytes) where
    sending-Started :
        (can : Bool) (m : DataChannelMessage) (onward : Exchange)
        → Started expecting nonce_of onward.outcome
        → Started expecting nonce_of (sending can m onward).outcome
    sending-Started true m onward s = s
    sending-Started false m onward s = tt

    or_give_up-Started {ℓ} :
        {A : Type ℓ} (o : Option A) (onward : A → Exchange)
        → ((a : A) → o ≡ some a → Started expecting nonce_of (onward a).outcome)
        → Started expecting nonce_of (or_give_up o onward).outcome
    or_give_up-Started none onward s = tt
    or_give_up-Started (some a) onward s = s a refl

    on_token-Started :
        (key : p.SigningKey) (pin : Bool) (remote token : Bytes)
        → validate_nonce remote ≡ true
        → Started expecting nonce_of
            (on_token p json takes key expecting pin (nonce_of remote) token).outcome
    unfolding on_token
    on_token-Started key pin remote token long =
        elim (Bool-cases (is_expected p json takes expecting token (nonce_of remote))) [
          | inr other ↦ rw other (sending-Started (takes 1) _ gives_up tt)
          | inl good ↦ rw good (
              or_give_up-Started (generate_token_nonce p key (nonce_of remote)) _ (λ local made.
                sending-Started (takes 1) _ _ (
                  is_expected-Signed expecting token (nonce_of remote) good,
                  (remote, refl, long),
                )))
        ]

  -- Whatever messages a peer gets, on either side, it gets past the exchange only with a nonce
  -- that is made of its own and one of a valid length, and, if it expects a key, only with a token
  -- whose parts, between dots, are the method of the hash, the encoded hash of the key and this
  -- nonce, an encoding of the nonce, the method of the key, and an encoding of a signature of that
  -- hash that verifies under the key.
  pub handshake_sound :
      (n m : Bytes) (key : p.SigningKey) (of_receiver of_sender : Option (VerifyingTokenKey p))
      (pin : Bool) (to_sender to_receiver : List DataChannelMessage)
      → Started of_receiver
          (λ remote. n ++ remote)
          (offer_handshake p json takes n key of_receiver to_sender).outcome
        × Started of_sender
            (λ remote. remote ++ m)
            (accept_handshake p json takes m key of_sender pin to_receiver).outcome
  unfolding offer_handshake accept_handshake
  handshake_sound n m key of_receiver of_sender pin to_sender to_receiver = (
    sending-Started of_receiver (λ remote. n ++ remote) (takes 0) _ _
        (or_give_up-Started of_receiver (λ remote. n ++ remote)
          (receive_nonce p json takes (first to_sender)) _
          (λ remote read.
            or_give_up-Started of_receiver (λ remote. n ++ remote)
              (generate_token_nonce p key (n ++ remote)) _
              (λ token made.
                sending-Started of_receiver (λ remote. n ++ remote) (takes 1) _ _
                  (or_give_up-Started of_receiver (λ remote. n ++ remote) _ _
                    (λ response parsed.
                      on_token_response-Started of_receiver (λ remote. n ++ remote) remote response
                        (receive_nonce-valid _ _ read)))))),
    or_give_up-Started of_sender (λ remote. remote ++ m)
        (receive_nonce p json takes (first to_receiver)) _
        (λ remote read.
          sending-Started of_sender (λ remote. remote ++ m) (takes 0) _ _
            (or_give_up-Started of_sender (λ remote. remote ++ m) _ _
              (λ (request : RtcTokenRequest) parsed.
                on_token-Started of_sender (λ remote. remote ++ m) key pin remote request.token
                  (receive_nonce-valid _ _ read)))),
  )
