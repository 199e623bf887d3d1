-- ===== src/Webrtc/Dialogue.antt =====
-- The two sides of the PIN rounds of packages/core/src/webrtc/webrtc.rs together.
use aika.Common.{
  ℕ, zero, suc, ◌+◌, ◌-◌, ◌<◌, ◌≡◌, ◌≢◌, refl, sym, ap, ◌∙◌, subst, inl, inr, String, Bool, true,
  false, List, [], ◌∷◌, map, length, length-map, ltb, leb, arith, Bool-cases, if◌then◌else◌, ◌==◌,
  string_Eq, ne→==_false,
}
use aika.Chunks.{DataChannelMessage}
use aika.Webrtc.{Serde}
use aika.Model.{FileDto}
use aika.Webrtc.FileList.{
  with_files, sending_response, sending_responses, receive_file_list, handle_pin-listed,
}
use aika.Webrtc.Pin.{
  VerifyPinResult, also_sent, ask, PinConfig, RtcPinMessage, Verdict, passed, rejected, broken,
  ended, Verified, round, verify_rounds, verify_pin, receive_pin, Challenged, granted, refused,
  abandoned, handle_pin, receiving_responses,
}

-- The verdict on some guesses when so many are allowed.
abbrev pub judge : ℕ → String → List String → Verdict
judge zero pin guesses = rejected
judge (suc n) pin [] = broken
judge (suc n) pin (guess ∷ guesses) = if guess == pin then passed else judge n pin guesses

-- What the guessing peer should know.
abbrev pub as_told : Verdict → Challenged (Unit {0})
as_told passed = granted tt
as_told rejected = refused
as_told broken = abandoned

-- The same, where the file list is what a right guess brings.
abbrev pub files_told : List FileDto → Verdict → Challenged (List FileDto)
files_told files passed = granted files
files_told files rejected = refused
files_told files broken = abandoned

module _ (json : Serde RtcPinMessage) where
  -- The messages in which some PINs are sent.
  abbrev pub pin_messages : List String → List DataChannelMessage
  pin_messages pins =
      map (λ pin. record { is_string = true; content = json.to_string (record { pin = pin }) }) pins

  module _ (sends : ℕ → Bool) (config : PinConfig) (sends_all : (n : ℕ) → sends n ≡ true) where
    -- The verdict, what the guessing peer learns, and that each PIN sent is taken.
    abbrev pub Agree : Verdict → List String → Verified → Type 0
    Agree verdict pins v =
        (v.verdict ≡ verdict)
        × ((handle_pin pins (receiving_responses v)).challenged ≡ as_told verdict)
        × (length (handle_pin pins (receiving_responses v)).sent + length v.rest ≡ length pins)

    pins-length : (pins : List String) → length (pin_messages pins) ≡ length pins
    pins-length pins = length-map pins _

    right-Agree :
        (guess : String) (pins : List String) (n pin_try : ℕ) (onward : Verified)
        → (guess == config.pin) ≡ true
        → Agree
            (judge (suc n) config.pin (guess ∷ pins))
            (guess ∷ pins)
            (round json.from_slice sends true config false guess pin_try (pin_messages pins) onward)
    unfolding round handle_pin receiving_responses
    right-Agree guess pins n pin_try onward right =
        rw right (refl, refl, omega (arith, pins-length pins))

    last-Agree :
        (guess : String) (pins : List String) (pin_try : ℕ) (onward : Verified)
        → pin_try ≡ config.max_tries
        → (guess == config.pin) ≡ false
        → Agree
            (judge 1 config.pin (guess ∷ pins))
            (guess ∷ pins)
            (round json.from_slice sends true config false guess pin_try (pin_messages pins) onward)
    unfolding round handle_pin receiving_responses
    last-Agree guess pins pin_try onward spent wrong =
        let enough : leb config.max_tries pin_try ≡ true = ground (arith, spent) in
        rw (wrong, enough) (refl, refl, omega (arith, pins-length pins))

    more-Agree :
        (guess : String) (pins : List String) (m pin_try : ℕ) (onward : Verified)
        → suc m + pin_try ≡ config.max_tries
        → 0 < pin_try
        → (guess == config.pin) ≡ false
        → Agree (judge (suc m) config.pin pins) pins onward
        → Agree
            (judge (suc (suc m)) config.pin (guess ∷ pins))
            (guess ∷ pins)
            (round json.from_slice sends true config false guess pin_try (pin_messages pins) onward)
    unfolding round handle_pin receiving_responses
    more-Agree guess pins m pin_try onward total later wrong rest =
        let left : leb config.max_tries pin_try ≡ false = ground (arith, total) in
        let again : ltb 0 pin_try ≡ true = ground (arith, later) in
        rw (wrong, left, again, sends_all pin_try) (rest.0, rest.1, omega (arith, rest.2))

    round-Agree :
        (guess : String) (pins : List String) (n pin_try : ℕ) (onward : Verified)
        → n + pin_try ≡ config.max_tries
        → 0 < pin_try
        → ((m : ℕ) → n ≡ suc m → Agree (judge n config.pin pins) pins onward)
        → Agree
            (judge (suc n) config.pin (guess ∷ pins))
            (guess ∷ pins)
            (round json.from_slice sends true config false guess pin_try (pin_messages pins) onward)
    round-Agree guess pins zero pin_try onward total later rest =
        elim (Bool-cases (guess == config.pin)) [
          | inl right ↦ right-Agree guess pins 0 pin_try onward right
          | inr wrong ↦ last-Agree guess pins pin_try onward (omega (arith, total)) wrong
        ]
    round-Agree guess pins (suc m) pin_try onward total later rest =
        elim (Bool-cases (guess == config.pin)) [
          | inl right ↦ right-Agree guess pins (suc m) pin_try onward right
          | inr wrong ↦ more-Agree guess pins m pin_try onward total later wrong (rest m refl)
        ]

    rounds-Agree :
        (guess : String) (pins : List String) (n pin_try : ℕ)
        → n + pin_try ≡ config.max_tries
        → 0 < pin_try
        → Agree (judge (suc n) config.pin (guess ∷ pins)) (guess ∷ pins) (
            verify_rounds json.from_slice sends true config false guess pin_try (pin_messages pins))
    unfolding verify_rounds receive_pin handle_pin receiving_responses
    rounds-Agree guess [] n pin_try total later =
        round-Agree guess [] n pin_try _ total later (λ m same. rw same (refl, refl, refl))
    rounds-Agree guess (pin ∷ pins) n pin_try total later =
        round-Agree guess (pin ∷ pins) n pin_try _ total later (λ m same.
          rw (same, json.from-to (record { pin = pin }))
            (rounds-Agree pin pins m (pin_try + 1) (omega (arith, total, same)) (omega arith)))

    first_round :
        (messages : List DataChannelMessage) (onward : Verified)
        → config.pin ≢ ""
        → 0 < config.max_tries
        → round json.from_slice sends true config false "" 0 messages onward ≡ onward
    unfolding round
    first_round messages onward wanted some_tries =
        let other : ("" == config.pin) ≡ false =
          ne→==_false "" config.pin (λ same. wanted (sym same)) in
        let left : leb config.max_tries 0 ≡ false = ground (arith, some_tries) in rw (other, left)

    verify_pin-Agree :
        (pins : List String) (n : ℕ)
        → config.pin ≢ ""
        → suc n ≡ config.max_tries
        → Agree
            (judge (suc n) config.pin pins)
            pins
            (verify_pin json.from_slice sends true config false (pin_messages pins))
    unfolding verify_pin verify_rounds receive_pin handle_pin receiving_responses
    verify_pin-Agree [] n wanted total =
        rw (first_round [] (ended [] [] broken) wanted (omega (arith, total))) (refl, refl, refl)
    verify_pin-Agree (pin ∷ pins) n wanted total =
        rw (first_round (pin_messages (pin ∷ pins)) _ wanted (omega (arith, total))) (
          rw (json.from-to (record { pin = pin }))
            (rounds-Agree pin pins n 1 (omega (arith, total)) (omega arith)))

    -- The verdict, what the receiving peer is told when it has to show the sending peer's PIN before
    -- it gets the file list, and that each PIN sent is taken.
    abbrev pub AgreeOnFiles : List FileDto → Verdict → List String → Verified → Type 0
    AgreeOnFiles files verdict pins v =
        let h = receive_file_list pins (sending_responses files v) in
        (v.verdict ≡ verdict)
        × (h.challenged ≡ files_told files verdict)
        × (length h.sent + length v.rest ≡ length pins)

    with_notice :
        (messages : List DataChannelMessage)
        → config.pin ≢ ""
        → 0 < config.max_tries
        → verify_pin json.from_slice sends true config true messages
          ≡ also_sent VerifyPinResult.pin_required
              (verify_pin json.from_slice sends true config false messages)
    unfolding verify_pin verify_rounds round ask
    with_notice messages wanted some_tries =
        let other : ("" == config.pin) ≡ false =
          ne→==_false "" config.pin (λ same. wanted (sym same)) in
        let left : leb config.max_tries 0 ≡ false = ground (arith, some_tries) in
        first messages other left
      where
        first :
            (messages : List DataChannelMessage)
            → ("" == config.pin) ≡ false
            → leb config.max_tries 0 ≡ false
            → verify_pin json.from_slice sends true config true messages
              ≡ also_sent VerifyPinResult.pin_required
                  (verify_pin json.from_slice sends true config false messages)
        first [] other left = rw (other, left, sends_all 0) refl
        first (msg ∷ messages) other left = rw (other, left, sends_all 0) refl

    as_files_told :
        (files : List FileDto) (verdict : Verdict)
        → with_files files (as_told verdict) ≡ files_told files verdict
    as_files_told files passed = refl
    as_files_told files rejected = refl
    as_files_told files broken = refl

    Agree-files :
        (files : List FileDto) (verdict : Verdict) (pins : List String) (v : Verified)
        → Agree verdict pins v
        → AgreeOnFiles files verdict pins (also_sent VerifyPinResult.pin_required v)
    unfolding receive_file_list sending_responses sending_response receiving_responses
    Agree-files files verdict pins v (same, told, all) =
        rw (handle_pin-listed files v.results v.verdict pins)
          (same, ap (with_files files) told ∙ as_files_told files verdict, all)

    -- The rounds in which one peer guesses the PIN of the other are those of a simple judge: the
    -- verdict is the judge's on the guesses, the guessing peer is told the same, and each guess
    -- that it sends is taken. This holds of the receiving peer's PIN, which the sending peer is
    -- asked for without a notice before its first guess, and of the sending peer's PIN, which the
    -- receiving peer is asked for with such a notice, and where a right guess brings it the file
    -- list. The PIN is not empty, at least one try is allowed, and every message gets through.
    pub pin_dialogue :
        (pins : List String) (files : List FileDto)
        → config.pin ≢ ""
        → 0 < config.max_tries
        → Agree
            (judge config.max_tries config.pin pins)
            pins
            (verify_pin json.from_slice sends true config false (pin_messages pins))
          × AgreeOnFiles files
              (judge config.max_tries config.pin pins)
              pins
              (verify_pin json.from_slice sends true config true (pin_messages pins))
    pin_dialogue pins files wanted some_tries =
        let total : suc (config.max_tries - 1) ≡ config.max_tries = omega (arith, some_tries) in
        let agree : Agree (judge config.max_tries config.pin pins) pins
            (verify_pin json.from_slice sends true config false (pin_messages pins)) =
          subst
            (λ k.
              Agree (judge k config.pin pins) pins
                (verify_pin json.from_slice sends true config false (pin_messages pins)))
            total (verify_pin-Agree pins (config.max_tries - 1) wanted total) in
        (
          agree,
          subst (AgreeOnFiles files (judge config.max_tries config.pin pins) pins)
              (sym (with_notice (pin_messages pins) wanted some_tries))
              (Agree-files files _ pins _ agree),
        )
