-- ===== src/Webrtc/Tests.antt =====
-- Runs of the transfers of packages/core/src/webrtc/webrtc.rs.
mod Formats
use aika.Common.{
  ℕ, ◌+◌, ◌<◌, ◌^◌, ◌≡◌, ◌≢◌, refl, inl, inr, String, Bool, true, false, Option, none, some, List,
  [], ◌∷◌, ◌++◌, map, length, All, arith, Bool-cases, ◌==◌, decides, string_Eq,
}
use aika.Common.HashMap.{get}
use aika.Save.{Bytes}
use aika.Chunks.{chunk_size, process, drain, DataChannelMessage, binary_message, delimiter}
use aika.Crypto.{to_verifying_key, validate_nonce}
use aika.Crypto.Sample.{plain}
use aika.Model.{FileDto}
use aika.Webrtc.{RtcSendFileResponse, RtcFile}
use aika.Webrtc.Send.{Sender, send_files, header_message}
use aika.Webrtc.Receive.{
  Receiving, receive_files, find_file, delimited, failed, opened, bytes, closed, answered,
}
use aika.Webrtc.Bounds.{Rightful, files_of, received_sound}
use aika.Webrtc.Delivery.{Agreed, responses}
use aika.Webrtc.Outcome.{told, answers_of, errors_of, named_content, files_delivered, no_file_fails}
use aika.Webrtc.Pin.{PinConfig, verify_pin, passed, rejected}
use aika.Webrtc.Dialogue.{Agree, AgreeOnFiles, judge, pin_messages, pin_dialogue}
use aika.Crypto.Token.{token_accepted}
use aika.Webrtc.Handshake.{
  pin_required, nonce_message, text_message, established, offer_handshake, accept_handshake,
}
use aika.Webrtc.Trust.{Started, handshake_agrees, handshake_sound}
use Formats.{header_format, pin_format, handshake_formats}

abbrev notes : FileDto
notes = record {
  id = "a";
  file_name = "notes.txt";
  size = 3;
  file_type = "text/plain";
  sha256 = none;
  preview = none;
  metadata = none;
}

-- A transfer of one file to a receiver that takes all.
abbrev one_selected : Receiving
one_selected = record {
  file_tokens = ("a", "secret") ∷ [];
  file_list = notes ∷ [];
  takes = λ id n. true;
  sends = λ a. true;
}

abbrev a_success : RtcSendFileResponse
a_success = record { id = "a"; success = true; error = none }

abbrev sent_by_peer : List DataChannelMessage
sent_by_peer =
    header_message header_format (record { id = "a"; token = "secret" })
    ∷ binary_message (1 ∷ 2 ∷ [])
    ∷ binary_message (3 ∷ 4 ∷ [])
    ∷ []

small_notes :
    (id : String) (file : FileDto)
    → find_file id one_selected.file_list ≡ some file
    → file.size < 2 ^ 63
unfolding find_file
small_notes id file e = elim (Bool-cases ("a" == id)) [
  | inl here ↦ ground (arith, e, here)
  | inr other ↦ absurd (ground (arith, e, other))
]

received_sound_example : All (Rightful header_format one_selected sent_by_peer) (
    files_of
      (receive_files header_format one_selected
        (record { file_state = none; user_results = a_success ∷ [] })
        sent_by_peer).0)
received_sound_example =
    received_sound header_format one_selected sent_by_peer (a_success ∷ []) small_notes
      (omega arith)

abbrev outgoing : RtcFile
outgoing = record { file_id = "a"; binary_rx = (1 ∷ []) ∷ (2 ∷ 3 ∷ []) ∷ [] }

abbrev always : List DataChannelMessage → Bool
always sent = true

notes-Agreed : All (Agreed one_selected) (outgoing ∷ [])
unfolding find_file get
notes-Agreed = (((("secret", refl), (notes, refl, omega arith, omega arith))), tt)

files_delivered_example :
    (s : Sender) × (send_files header_format always one_selected.file_tokens
        (outgoing ∷ [])
        (delimiter ∷ delimiter ∷ [])
      ≡ some (s, delimiter ∷ []))
    × (s.errors ≡ [])
    × (files_of
          (receive_files header_format one_selected
            (record { file_state = none; user_results = a_success ∷ [] })
            s.sent).0
        ≡ map named_content (outgoing ∷ []))
    × (answers_of
          (receive_files header_format one_selected
            (record { file_state = none; user_results = a_success ∷ [] })
            s.sent).0
        ≡ told (outgoing ∷ []) (a_success ∷ []))
    × (errors_of
          (receive_files header_format one_selected
            (record { file_state = none; user_results = a_success ∷ [] })
            s.sent).0
        ≡ [])
    × ((receive_files header_format one_selected
          (record { file_state = none; user_results = a_success ∷ [] })
          s.sent).1
        ≡ delimited)
files_delivered_example =
    files_delivered header_format always one_selected (λ sent. refl) outgoing [] (a_success ∷ [])
      (delimiter ∷ delimiter ∷ []) (λ id n. refl) (λ a. refl) notes-Agreed

-- A file that is longer than announced is broken off, and its application sees the bytes that fit.
too_long_broken_off :
    files_of
      (receive_files header_format one_selected
        (record { file_state = none; user_results = a_success ∷ [] })
        sent_by_peer).0
    ≡ ("a", 1 ∷ 2 ∷ []) ∷ []
unfolding receive_files find_file
too_long_broken_off = refl

abbrev two_tries : PinConfig
two_tries = record { pin = "1234"; max_tries = 2 }

pin_wanted : two_tries.pin ≢ ""
pin_wanted e = ground (arith, e, decides {K = String} "1234" "")

pin_dialogue_example :
    Agree pin_format
      (λ n. true)
      two_tries
      (λ n. refl)
      (judge 2 "1234" ("1" ∷ "1234" ∷ []))
      ("1" ∷ "1234" ∷ [])
      (verify_pin pin_format.from_slice
        (λ n. true)
        true
        two_tries
        false
        (pin_messages pin_format ("1" ∷ "1234" ∷ [])))
    × AgreeOnFiles pin_format
        (λ n. true)
        two_tries
        (λ n. refl)
        (notes ∷ [])
        (judge 2 "1234" ("1" ∷ "1234" ∷ []))
        ("1" ∷ "1234" ∷ [])
        (verify_pin pin_format.from_slice
          (λ n. true)
          true
          two_tries
          true
          (pin_messages pin_format ("1" ∷ "1234" ∷ [])))
pin_dialogue_example =
    pin_dialogue pin_format (λ n. true) two_tries (λ n. refl) ("1" ∷ "1234" ∷ []) (notes ∷ [])
      pin_wanted (omega arith)

abbrev nonce_of : ℕ → Bytes
nonce_of n = n ∷ 1 ∷ 2 ∷ 3 ∷ 4 ∷ 5 ∷ 6 ∷ 7 ∷ 8 ∷ 9 ∷ 10 ∷ 11 ∷ 12 ∷ 13 ∷ 14 ∷ 15 ∷ []

nonce_is_valid : (n : ℕ) → validate_nonce (nonce_of n) ≡ true
unfolding validate_nonce
nonce_is_valid n = refl

handshake_agrees_example :
    (to_receiver to_sender : List DataChannelMessage) × (token remote_token : Bytes)
    × (offer_handshake plain handshake_formats
          (λ i. true)
          (nonce_of 1)
          7
          (some (to_verifying_key plain 8))
          to_sender
        ≡ record {
          sent = to_receiver;
          outcome = established (nonce_of 1 ++ nonce_of 2) remote_token true;
        })
    × (accept_handshake plain handshake_formats (λ i. true) (nonce_of 2) 8 none true to_receiver
        ≡ record { sent = to_sender; outcome = established (nonce_of 1 ++ nonce_of 2) token true })
handshake_agrees_example =
    handshake_agrees plain handshake_formats (λ i. true) (nonce_of 1) (nonce_of 2) 7 8
      (some (to_verifying_key plain 8)) none true (λ i. refl) (nonce_is_valid 1) (nonce_is_valid 2)
      (inr refl) (inl refl)

abbrev to_offering : List DataChannelMessage
to_offering =
    nonce_message plain handshake_formats (λ i. true) (nonce_of 2)
    ∷ text_message (
        handshake_formats.responses.to_string
          (pin_required (token_accepted plain 8 (nonce_of 1 ++ nonce_of 2)).0))
    ∷ []

abbrev to_accepting : List DataChannelMessage
to_accepting =
    nonce_message plain handshake_formats (λ i. true) (nonce_of 1)
    ∷ text_message (
        handshake_formats.requests.to_string
          (record { token = (token_accepted plain 7 (nonce_of 1 ++ nonce_of 2)).0 }))
    ∷ []

handshake_sound_example :
    Started plain handshake_formats
      (λ i. true)
      (some (to_verifying_key plain 8))
      (λ remote. nonce_of 1 ++ remote)
      (offer_handshake plain handshake_formats
        (λ i. true)
        (nonce_of 1)
        7
        (some (to_verifying_key plain 8))
        to_offering).outcome
    × Started plain handshake_formats
        (λ i. true)
        none
        (λ remote. remote ++ nonce_of 2)
        (accept_handshake plain handshake_formats
          (λ i. true)
          (nonce_of 2)
          7
          none
          true
          to_accepting).outcome
handshake_sound_example =
    handshake_sound plain handshake_formats (λ i. true) (nonce_of 1) (nonce_of 2) 7
      (some (to_verifying_key plain 8)) none true to_offering to_accepting
