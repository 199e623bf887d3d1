-- ===== src/Webrtc/Pin.antt =====
-- The PIN rounds of a WebRTC transfer, `verify_pin` and `handle_pin` of
-- packages/core/src/webrtc/webrtc.rs. That the application still listens to the status, and that
-- the channel takes a message, is an argument.
use aika.Common.{
  ℕ, ◌+◌, String, Bool, false, ◌||◌, Option, none, some, List, [], ◌∷◌, ◌++◌, map, ltb, leb,
  if◌then◌else◌, ◌==◌, string_Eq,
}
use aika.Save.{Bytes}
use aika.Chunks.{DataChannelMessage}

pub record PinConfig : Type 0 where
  pub pin : String
  pub max_tries : ℕ

pub record RtcPinMessage : Type 0 where
  pub pin : String

pub data VerifyPinResult : Type 0 where
  pin_required too_many_attempts : VerifyPinResult

-- How the challenge ends for the peer that knows the PIN.
pub data Verdict : Type 0 where
  passed rejected broken : Verdict

-- What is left of the messages, the results sent, and the end.
pub record Verified : Type 0 where
  pub rest : List DataChannelMessage
  pub results : List VerifyPinResult
  pub verdict : Verdict

abbrev pub ended : List DataChannelMessage → List VerifyPinResult → Verdict → Verified
ended rest results verdict = record { rest = rest; results = results; verdict = verdict }

abbrev pub also_sent : VerifyPinResult → Verified → Verified
also_sent result v = record v { results = result ∷ v.results }

-- `from_slice`: serde_json at `RtcPinMessage`. `sends n`: whether the notice after `n` PINs can be
-- sent; `notifies`: whether the application takes the status.
module _ (from_slice : Bytes → Option RtcPinMessage) (sends : ℕ → Bool) (notifies : Bool)
    (config : PinConfig) where
  -- The next PIN, if there is one that can be read.
  unfoldable pub receive_pin :
      Option RtcPinMessage → List DataChannelMessage → (String → Verified) → Verified
  receive_pin none messages onward = ended messages [] broken
  receive_pin (some pin_req) messages onward = onward pin_req.pin

  -- The notice that a PIN is wanted goes out before the first PIN if `notice` says so, and before
  -- all others.
  unfoldable pub ask : (notice : Bool) (pin_try : ℕ) → List DataChannelMessage → Verified → Verified
  ask notice pin_try messages onward =
      if notice || ltb 0 pin_try
      then if sends pin_try then also_sent pin_required onward else ended messages [] broken
      else onward

  unfoldable pub round :
      (notice : Bool) (remote_pin : String) (pin_try : ℕ)
      → List DataChannelMessage
      → Verified
      → Verified
  unfolding ask
  round notice remote_pin pin_try messages onward =
      if remote_pin == config.pin
      then ended messages [] passed
      else if leb config.max_tries pin_try
      then ended messages (too_many_attempts ∷ []) rejected
      else ask notice pin_try messages onward

  -- The loop of `verify_pin`; each round but the last takes one message.
  unfoldable pub verify_rounds :
      (notice : Bool) (remote_pin : String) (pin_try : ℕ) → List DataChannelMessage → Verified
  unfolding round receive_pin
  verify_rounds notice remote_pin pin_try [] =
      round notice remote_pin pin_try [] (ended [] [] broken)
  verify_rounds notice remote_pin pin_try (msg ∷ messages) =
      round notice remote_pin pin_try (msg ∷ messages) (
        receive_pin (from_slice msg.content) messages
          (λ pin. verify_rounds false pin (pin_try + 1) messages))

  unfoldable pub verify_pin : (send_initial_notice : Bool) → List DataChannelMessage → Verified
  unfolding verify_rounds
  verify_pin send_initial_notice messages =
      if notifies then verify_rounds send_initial_notice "" 0 messages else ended messages [] broken

-- `ChallengePinResult`.
pub data ChallengePinResult {ℓ} (T : Type ℓ) : Type ℓ where
  ok : T → ChallengePinResult T
  pin_required too_many_attempts parse_error : ChallengePinResult T

-- How the challenge ends for the peer that is asked: with what it was granted, refused, or broken
-- off, as when the user gives no PIN.
pub data Challenged {ℓ} (T : Type ℓ) : Type ℓ where
  granted : T → Challenged T
  refused abandoned : Challenged T

-- The PINs sent, and the end.
pub record Handled {ℓ} (T : Type ℓ) : Type ℓ where
  pub sent : List RtcPinMessage
  pub challenged : Challenged T

module _ {ℓ} {T : Type ℓ} where
  abbrev pub after_pin : String → Handled T → Handled T
  after_pin pin h = record h { sent = (record { pin = pin }) ∷ h.sent }

  unfoldable pub on_response : ChallengePinResult T → Handled T → Handled T
  on_response (ok result) onward = record { sent = []; challenged = granted result }
  on_response pin_required onward = onward
  on_response too_many_attempts onward = record { sent = []; challenged = refused }
  on_response parse_error onward = record { sent = []; challenged = abandoned }

  -- The loop of `handle_pin`, over the user's PINs and the responses as `parse_response` reads
  -- them. Where the user, the application or the channel is gone, the list of either ends.
  unfoldable pub handle_pin : List String → List (ChallengePinResult T) → Handled T
  unfolding on_response
  handle_pin [] responses = record { sent = []; challenged = abandoned }
  handle_pin (pin ∷ pins) [] = after_pin pin (record { sent = []; challenged = abandoned })
  handle_pin (pin ∷ pins) (response ∷ responses) =
      after_pin pin (on_response response (handle_pin pins responses))

-- The responses of `accept_offer` to the PINs of the sending peer, `RtcPinReceivingResponse`, as
-- `send_offer` reads them.
unfoldable pub receiving_response : VerifyPinResult → ChallengePinResult (Unit {0})
receiving_response VerifyPinResult.pin_required = pin_required
receiving_response VerifyPinResult.too_many_attempts = too_many_attempts

unfoldable pub closing_response : Verdict → List (ChallengePinResult (Unit {0}))
closing_response passed = ok tt ∷ []
closing_response rejected = []
closing_response broken = []

unfoldable pub receiving_responses : Verified → List (ChallengePinResult (Unit {0}))
unfolding receiving_response closing_response
receiving_responses v = map receiving_response v.results ++ closing_response v.verdict
