-- ===== src/Webrtc/Handshake.antt =====
-- The exchange of nonces and tokens before a WebRTC transfer, in `send_offer` and `accept_offer` of
-- packages/core/src/webrtc/webrtc.rs. A panic ends the task with an error, as any failure.
use aika.Common.{ℕ, Bool, true, false, Option, none, some, List, [], ◌∷◌, ◌++◌, if◌then◌else◌}
use aika.Save.{Bytes}
use aika.Chunks.{DataChannelMessage}
use aika.Crypto.{
  Primitives, VerifyingTokenKey, Check, valid, invalid, panicked, validate_nonce,
  generate_token_nonce, verify_token_nonce,
}
use aika.Webrtc.{Serde}

pub record RtcNonceMessage : Type 0 where
  pub nonce : Bytes

pub record RtcTokenRequest : Type 0 where
  pub token : Bytes

pub data RtcTokenResponse : Type 0 where
  ok pin_required : Bytes → RtcTokenResponse
  invalid_signature : RtcTokenResponse

-- serde_json at each type of messages.
pub record Formats : Type 0 where
  pub nonces : Serde RtcNonceMessage
  pub requests : Serde RtcTokenRequest
  pub responses : Serde RtcTokenResponse

-- The nonce that both sides use, the token of the other peer, and whether it asks for a PIN.
pub data Outcome : Type 0 where
  established : Bytes → Bytes → Bool → Outcome
  failed : Outcome

pub record Exchange : Type 0 where
  pub sent : List DataChannelMessage
  pub outcome : Outcome

abbrev pub text_message : Bytes → DataChannelMessage
text_message content = record { is_string = true; content = content }

abbrev pub gives_up : Exchange
gives_up = record { sent = []; outcome = failed }

abbrev pub also_sent : DataChannelMessage → Exchange → Exchange
also_sent m e = record e { sent = m ∷ e.sent }

-- `send_text(..).await?`: what follows happens only if the channel takes the message.
abbrev pub sending : Bool → DataChannelMessage → Exchange → Exchange
sending takes m onward = if takes then also_sent m onward else gives_up

-- `receive_rx.recv().await`.
abbrev pub first : List DataChannelMessage → Option DataChannelMessage
first [] = none
first (m ∷ messages) = some m

abbrev pub later : List DataChannelMessage → List DataChannelMessage
later [] = []
later (m ∷ messages) = messages

-- The text of a message that has to be one.
unfoldable pub text_of : Option DataChannelMessage → Option Bytes
text_of none = none
text_of (some m) = if m.is_string then some m.content else none

abbrev pub bind {ℓ κ} : {A : Type ℓ} {B : Type κ} → Option A → (A → Option B) → Option B
bind none f = none
bind (some a) f = f a

abbrev pub or_give_up {ℓ} : {A : Type ℓ} → Option A → (A → Exchange) → Exchange
or_give_up none onward = gives_up
or_give_up (some a) onward = onward a

-- `takes n`: whether the channel takes the message number `n` of this side.
module _ (p : Primitives) (json : Formats) (takes : ℕ → Bool) where
  unfoldable pub valid_nonce : Bytes → Option Bytes
  unfolding validate_nonce
  valid_nonce nonce = if validate_nonce nonce then some nonce else none

  unfoldable pub receive_nonce : Option DataChannelMessage → Option Bytes
  unfolding valid_nonce text_of
  receive_nonce message = bind (text_of message) (λ text.
      bind (json.nonces.from_slice text)
        (λ m. bind (p.decode m.nonce) (λ nonce. valid_nonce nonce)))

  abbrev pub nonce_message : Bytes → DataChannelMessage
  nonce_message nonce = text_message (json.nonces.to_string (record { nonce = p.encode nonce }))

  abbrev pub passes : Check → Bool
  passes valid = true
  passes invalid = false
  passes panicked = false

  -- Whether a token shows the key that is expected, if one is.
  unfoldable pub is_expected : Option (VerifyingTokenKey p) → Bytes → Bytes → Bool
  is_expected none token nonce = true
  is_expected (some key) token nonce = passes (verify_token_nonce p key token nonce)

  -- The sending peer, from the response to its token on.
  unfoldable pub on_token_response :
      Option (VerifyingTokenKey p) → (nonce : Bytes) → RtcTokenResponse → Exchange
  unfolding is_expected
  on_token_response expecting nonce (ok token) =
      if is_expected expecting token nonce
      then record { sent = []; outcome = established nonce token false }
      else gives_up
  on_token_response expecting nonce (pin_required token) =
      if is_expected expecting token nonce
      then record { sent = []; outcome = established nonce token true }
      else gives_up
  on_token_response expecting nonce invalid_signature = gives_up

  -- `send_offer`, up to the PIN rounds; the nonce of this side is a random one.
  unfoldable pub offer_handshake :
      (local_nonce : Bytes)
      → p.SigningKey
      → Option (VerifyingTokenKey p)
      → List DataChannelMessage
      → Exchange
  unfolding on_token_response receive_nonce text_of
  offer_handshake local_nonce signing_key expecting messages =
      sending (takes 0) (nonce_message local_nonce) (
        or_give_up (receive_nonce (first messages)) (λ remote_nonce.
          let nonce = local_nonce ++ remote_nonce in
          or_give_up (generate_token_nonce p signing_key nonce) (λ token.
            sending (takes 1) (text_message (json.requests.to_string (record { token = token }))) (
              or_give_up (bind (text_of (first (later messages))) json.responses.from_slice)
                (λ response. on_token_response expecting nonce response)))))

  unfoldable pub token_response : (pin : Bool) → Bytes → RtcTokenResponse
  token_response true token = pin_required token
  token_response false token = ok token

  -- The receiving peer, from the token of the other one on.
  unfoldable pub on_token :
      p.SigningKey
      → Option (VerifyingTokenKey p)
      → (pin : Bool) (nonce remote_token : Bytes) → Exchange
  unfolding is_expected token_response
  on_token signing_key expecting pin nonce remote_token =
      if is_expected expecting remote_token nonce
      then or_give_up (generate_token_nonce p signing_key nonce) (λ local_token.
        sending (takes 1) (text_message (json.responses.to_string (token_response pin local_token)))
          (record { sent = []; outcome = established nonce remote_token pin }))
      else sending (takes 1) (text_message (json.responses.to_string invalid_signature)) gives_up

  -- `accept_offer`, up to the PIN rounds; `pin`: whether this side asks for a PIN.
  unfoldable pub accept_handshake :
      (local_nonce : Bytes)
      → p.SigningKey
      → Option (VerifyingTokenKey p)
      → (pin : Bool) → List DataChannelMessage
      → Exchange
  unfolding on_token receive_nonce text_of
  accept_handshake local_nonce signing_key expecting pin messages =
      or_give_up (receive_nonce (first messages)) (λ remote_nonce.
        sending (takes 0) (nonce_message local_nonce) (
          or_give_up (bind (text_of (first (later messages))) json.requests.from_slice) (λ request.
            on_token signing_key expecting pin (remote_nonce ++ local_nonce) request.token)))
