-- ===== src/Webrtc/Outcome.antt =====
-- A whole transfer of files over a data channel that stays open:
-- packages/core/src/webrtc/webrtc.rs.
use aika.Common.{
  ℕ, ◌≡◌, refl, sym, ap, ◌∙◌, String, Bool, true, false, Option, none, some, List, [], ◌∷◌, ◌++◌,
  map, concat, All, arith, if◌then◌else◌,
}
use mathlib.Core.List.{append_assoc, append-nil}
use aika.Common.HashMap.{HashMap}
use aika.Save.{Bytes}
use aika.Chunks.{chunk_size, DataChannelMessage, delimiter}
use aika.Chunks.Stream.{pieces, concat-pieces}
use aika.Webrtc.{Serde, RtcSendFileHeaderRequest, RtcSendFileResponse, RtcFile, RtcFileError}
use aika.Webrtc.Send.{Sender, unread, send_files}
use aika.Webrtc.Receive.{
  Output, opened, bytes, closed, file_error, answered, delimited, failed, Receiver, Receiving,
  receive_files, on_message, on_text, on_header, file_response, file_result_error, results_left,
}
use aika.Webrtc.Bounds.{files_of, content_of}
use aika.Webrtc.Delivery.{
  content, responses, transcript, HasToken, Agreed, remainder, send_each-open, receive-transcript,
}

abbrev pub answers_of : List Output → List RtcSendFileResponse
answers_of [] = []
answers_of (answered a ∷ rest) = a ∷ answers_of rest
answers_of (opened id ∷ rest) = answers_of rest
answers_of (bytes b ∷ rest) = answers_of rest
answers_of (closed ∷ rest) = answers_of rest
answers_of (file_error e ∷ rest) = answers_of rest

abbrev pub errors_of : List Output → List RtcFileError
errors_of [] = []
errors_of (file_error e ∷ rest) = e ∷ errors_of rest
errors_of (answered a ∷ rest) = errors_of rest
errors_of (opened id ∷ rest) = errors_of rest
errors_of (bytes b ∷ rest) = errors_of rest
errors_of (closed ∷ rest) = errors_of rest

abbrev pub named_content : RtcFile → String × Bytes
named_content f = (f.file_id, content f)

-- Why a file failed, for the sending peer: the application's reason, if it gives one.
abbrev pub reason : Bool → Option String → Option String
reason true error = none
reason false none = some "Unknown error"
reason false (some error) = some error

-- What the sending peer should be told of the files: one answer for each file, in order, which
-- names it and says what the application says of it. A file of which the application says nothing
-- has failed.
abbrev pub told : List RtcFile → List RtcSendFileResponse → List RtcSendFileResponse
told [] results = []
told (f ∷ fs) [] =
    record { id = f.file_id; success = false; error = some "Failed to receive file result" }
    ∷ told fs []
told (f ∷ fs) (result ∷ results) =
    record { id = f.file_id; success = result.success; error = reason result.success result.error }
    ∷ told fs results

file_response_lem :
    (id : String) (result : RtcSendFileResponse) (rest : List RtcSendFileResponse)
    → file_response id (result ∷ rest)
      ≡ record { id = id; success = result.success; error = reason result.success result.error }
unfolding file_response file_result_error
file_response_lem id result rest = split_result result.success result.error
  where
    split_result :
        (success : Bool) (error : Option String)
        → ◌≡◌ {A = RtcSendFileResponse}
            (if success
              then record { id = id; success = true; error = none }
              else record { id = id; success = false; error = some (file_result_error error) })
            (record { id = id; success = success; error = reason success error })
    split_result true error = refl
    split_result false none = refl
    split_result false (some e) = refl

responses-told :
    (fs : List RtcFile) (results : List RtcSendFileResponse)
    → responses fs results ≡ told fs results
unfolding file_response
responses-told [] results = refl
responses-told (f ∷ fs) [] = rw (responses-told fs []) refl
responses-told (f ∷ fs) (result ∷ results) =
    rw (file_response_lem f.file_id result results, responses-told fs results) refl

content_of-pieces :
    (ps : List Bytes) (out : List Output)
    → content_of (map bytes ps ++ out) ≡ concat ps ++ content_of out
content_of-pieces [] out = refl
content_of-pieces (p ∷ ps) out =
    ap (λ r. p ++ r) (content_of-pieces ps out) ∙ sym (append_assoc p (concat ps) (content_of out))

files_of-pieces :
    (ps : List Bytes) (out : List Output) → files_of (map bytes ps ++ out) ≡ files_of out
files_of-pieces [] out = refl
files_of-pieces (p ∷ ps) out = files_of-pieces ps out

answers_of-pieces :
    (ps : List Bytes) (out : List Output) → answers_of (map bytes ps ++ out) ≡ answers_of out
answers_of-pieces [] out = refl
answers_of-pieces (p ∷ ps) out = answers_of-pieces ps out

errors_of-pieces :
    (ps : List Bytes) (out : List Output) → errors_of (map bytes ps ++ out) ≡ errors_of out
errors_of-pieces [] out = refl
errors_of-pieces (p ∷ ps) out = errors_of-pieces ps out

remainder-content :
    (id : String) (fs : List RtcFile) (results : List RtcSendFileResponse)
    → content_of (remainder id fs results) ≡ []
remainder-content id [] results = refl
remainder-content id (f ∷ fs) results = refl

opened-content :
    (f : RtcFile) (fs : List RtcFile) (results : List RtcSendFileResponse)
    → content_of (map bytes (pieces chunk_size (content f)) ++ remainder f.file_id fs results)
      ≡ content f
opened-content f fs results =
    content_of-pieces (pieces chunk_size (content f)) (remainder f.file_id fs results)
    ∙ rw (remainder-content f.file_id fs results)
        (append-nil _ ∙ concat-pieces chunk_size (content f) (omega arith))

remainder-files :
    (id : String) (fs : List RtcFile) (results : List RtcSendFileResponse)
    → files_of (remainder id fs results) ≡ map named_content fs
remainder-files id [] results = refl
remainder-files id (f ∷ fs) results = rw (
  opened-content f fs (results_left results),
  files_of-pieces (pieces chunk_size (content f)) (remainder f.file_id fs (results_left results)),
  remainder-files f.file_id fs (results_left results),
)

remainder-answers :
    (id : String) (fs : List RtcFile) (results : List RtcSendFileResponse)
    → answers_of (remainder id fs results)
      ≡ file_response id results ∷ responses fs (results_left results)
remainder-answers id [] results = refl
remainder-answers id (f ∷ fs) results =
    ap (λ r. file_response id results ∷ r)
      (answers_of-pieces (pieces chunk_size (content f))
          (remainder f.file_id fs (results_left results))
        ∙ remainder-answers f.file_id fs (results_left results))

remainder-errors :
    (id : String) (fs : List RtcFile) (results : List RtcSendFileResponse)
    → errors_of (remainder id fs results) ≡ []
remainder-errors id [] results = refl
remainder-errors id (f ∷ fs) results =
    errors_of-pieces (pieces chunk_size (content f)) (remainder f.file_id fs (results_left results))
    ∙ remainder-errors f.file_id fs (results_left results)

All-HasToken :
    (t : Receiving) (fs : List RtcFile) → All (Agreed t) fs → All (HasToken t.file_tokens) fs
All-HasToken t [] agreed = tt
All-HasToken t (f ∷ fs) ((held, there), agreed) = (held, All-HasToken t fs agreed)

transcript-append :
    (json : Serde RtcSendFileHeaderRequest) (file_map : HashMap String String) (fs : List RtcFile)
    (later : List DataChannelMessage)
    → All (HasToken file_map) fs
    → transcript json file_map fs [] ++ later ≡ transcript json file_map fs later
transcript-append json file_map [] later held = refl
transcript-append json file_map (f ∷ fs) later ((token, same), held) =
    rw same (simp (append_assoc, transcript-append json file_map fs later held))

module _ (json : Serde RtcSendFileHeaderRequest) (is_open : List DataChannelMessage → Bool)
    (t : Receiving) (open_always : (sent : List DataChannelMessage) → is_open sent ≡ true) where
  abbrev idle : List RtcSendFileResponse → Receiver
  idle results = record { file_state = none; user_results = results }

  send_files-open :
      (fs : List RtcFile) (received : List DataChannelMessage)
      → All (HasToken t.file_tokens) fs
      → send_files json is_open t.file_tokens fs received
        ≡ some (
          record { sent = transcript json t.file_tokens fs (delimiter ∷ []); errors = [] },
          unread received,
        )
  unfolding send_files
  send_files-open fs received held = rw (
    send_each-open json is_open open_always t.file_tokens (record { sent = []; errors = [] }) fs
        held,
    open_always (transcript json t.file_tokens fs []),
    transcript-append json t.file_tokens fs (delimiter ∷ []) held,
  )

  -- When both peers agree on the tokens, each file is announced no shorter than it is and the
  -- channel, the application and its answers do not fail, the receiving peer takes in exactly the
  -- files that the sending peer sends, at least one, in their order and with their bytes, answers
  -- once for each, by its ID, with success exactly where the application says so and else with the
  -- application's reason, or with one of its own where the application gives none, reports no
  -- error and ends by the delimiter; the sending peer takes one message of what it has received,
  -- and leaves the others unread.
  pub files_delivered :
      (f : RtcFile) (fs : List RtcFile) (results : List RtcSendFileResponse)
      (received : List DataChannelMessage)
      → ((id : String) (n : ℕ) → t.takes id n ≡ true)
      → ((a : RtcSendFileResponse) → t.sends a ≡ true)
      → All (Agreed t) (f ∷ fs)
      → (s : Sender) × (send_files json is_open t.file_tokens (f ∷ fs) received
          ≡ some (s, unread received))
        × (s.errors ≡ [])
        × (files_of (receive_files json t (idle results) s.sent).0 ≡ map named_content (f ∷ fs))
        × (answers_of (receive_files json t (idle results) s.sent).0 ≡ told (f ∷ fs) results)
        × (errors_of (receive_files json t (idle results) s.sent).0 ≡ [])
        × ((receive_files json t (idle results) s.sent).1 ≡ delimited)
  unfolding send_files
  files_delivered f fs results received takes_all sends_all agreed =
      let held = All-HasToken t (f ∷ fs) agreed in
      let taken = receive-transcript json t takes_all sends_all f fs results agreed in
      let sent = transcript json t.file_tokens (f ∷ fs) (delimiter ∷ []) in
      let ps = pieces chunk_size (content f) in
      let rest = remainder f.file_id fs results in
      (
        record { sent = sent; errors = [] },
        send_files-open (f ∷ fs) received held,
        refl,
        rw (taken, opened-content f fs results)
            (ap (λ r. named_content f ∷ r)
              (files_of-pieces ps rest ∙ remainder-files f.file_id fs results)),
        rw taken (
            answers_of-pieces ps rest
            ∙ remainder-answers f.file_id fs results
            ∙ responses-told (f ∷ fs) results),
        rw taken (errors_of-pieces ps rest ∙ remainder-errors f.file_id fs results),
        rw taken,
      )

  -- A sender that has no file to send, on an open channel, makes the receiver end with an error.
  pub no_file_fails :
      (results : List RtcSendFileResponse)
      → (s : Sender) × (send_files json is_open t.file_tokens [] [] ≡ some (s, []))
        × (receive_files json t (idle results) s.sent ≡ ([], failed))
  unfolding receive_files on_message on_text on_header
  no_file_fails results =
      (record { sent = delimiter ∷ []; errors = [] }, send_files-open [] [] tt, rw json.not_zero)
