-- ===== src/Webrtc/Delivery.antt =====
-- The two loops of packages/core/src/webrtc/webrtc.rs together: what the sending peer sends, the
-- receiving peer takes in.
use aika.Common.{
  ℕ, ◌+◌, ◌^◌, ◌%◌, ◌≤◌, ◌<◌, ◌≡◌, sym, ap, ◌∙◌, String, Bool, true, false, Option, none, some,
  List, [], ◌∷◌, ◌++◌, map, concat, length, length-append, All, ltb, leb, arith, ==_refl, string_Eq,
}
use mathlib.Core.List.{append_assoc, append-nil}
use aika.Common.HashMap.{HashMap, get}
use aika.Save.{Bytes}
use aika.Chunks.{chunk_size, DataChannelMessage, binary_message, delimiter}
use aika.Chunks.Stream.{pieces, send_all, process_in_chunks_exact, concat-pieces}
use aika.Model.{FileDto}
use aika.Webrtc.{Serde, RtcSendFileHeaderRequest, RtcSendFileResponse, RtcFile}
use aika.Webrtc.Send.{
  Sender, send, send_content, after_content, send_file, send_each, header_message,
}
use aika.Webrtc.Receive.{
  Output, opened, bytes, closed, answered, End, delimited, Receiver, Receiving, find_file,
  open_file, check_token, on_header, end_file, on_text, on_binary, on_message, receive_files,
  is_delimiter, next, file_response, results_left,
}

-- One answer for each file, from what the application says of it.
abbrev pub responses : List RtcFile → List RtcSendFileResponse → List RtcSendFileResponse
responses [] results = []
responses (f ∷ fs) results = file_response f.file_id results ∷ responses fs (results_left results)

abbrev pub content : RtcFile → Bytes
content f = concat f.binary_rx

-- The messages of a file, its header first, and what follows them.
abbrev pub with_header :
    Serde RtcSendFileHeaderRequest
    → Option String
    → RtcFile
    → List DataChannelMessage
    → List DataChannelMessage
with_header json none f later = later
with_header json (some token) f later =
    header_message json (record { id = f.file_id; token = token })
    ∷ (map binary_message (pieces chunk_size (content f)) ++ later)

-- The messages of the files that have a token.
abbrev pub transcript :
    Serde RtcSendFileHeaderRequest
    → HashMap String String
    → List RtcFile
    → List DataChannelMessage
    → List DataChannelMessage
transcript json file_map [] later = later
transcript json file_map (f ∷ fs) later =
    with_header json (get f.file_id file_map) f (transcript json file_map fs later)

abbrev pub HasToken : HashMap String String → RtcFile → Type 0
HasToken file_map f = (token : String) × (get f.file_id file_map ≡ some token)

module _ (json : Serde RtcSendFileHeaderRequest) (is_open : List DataChannelMessage → Bool)
    (open_always : (sent : List DataChannelMessage) → is_open sent ≡ true) where
  send_all-open :
      (sent : List DataChannelMessage) (ps : List Bytes)
      → send_all (send json is_open) sent ps ≡ some (sent ++ map binary_message ps)
  unfolding send
  send_all-open sent [] = ap some (sym (append-nil sent))
  send_all-open sent (p ∷ ps) = rw (open_always sent) (
      send_all-open (sent ++ binary_message p ∷ []) ps
      ∙ ap some (append_assoc sent (binary_message p ∷ []) (map binary_message ps)))

  send_content-open :
      (s : Sender) (f : RtcFile)
      → send_content json is_open s f
        ≡ record s { sent = s.sent ++ map binary_message (pieces chunk_size (content f)) }
  unfolding send_content after_content
  send_content-open s f = rw (
      process_in_chunks_exact chunk_size (send json is_open) s.sent f.binary_rx (omega arith)
      ∙ send_all-open s.sent (pieces chunk_size (content f)))

  send_file-open :
      (s : Sender) (f : RtcFile) (token : String)
      → send_file json is_open s f (some token)
        ≡ record s { sent = s.sent ++ with_header json (some token) f [] }
  unfolding send_file
  send_file-open s f token =
      rw (open_always s.sent) (simp (send_content-open, append_assoc, append-nil))

  pub send_each-open :
      (file_map : HashMap String String) (s : Sender) (fs : List RtcFile)
      → All (HasToken file_map) fs
      → send_each json is_open file_map s fs
        ≡ record s { sent = s.sent ++ transcript json file_map fs [] }
  unfolding send_each
  send_each-open file_map s [] held = simp append-nil
  send_each-open file_map s (f ∷ fs) ((token, same), held) =
      rw (same, send_file-open s f token)
        (send_each-open file_map (record s { sent = s.sent ++ with_header json (some token) f [] })
            fs held
          ∙ simp (append_assoc, append-nil))

-- A file that was selected, and that is as long as announced or shorter.
abbrev pub Agreed : Receiving → RtcFile → Type 0
Agreed t f =
    HasToken t.file_tokens f
    × ((file : FileDto) × (find_file f.file_id t.file_list ≡ some file)
        × (length (content f) ≤ file.size)
        × (file.size < 2 ^ 64))

-- What goes out for the files behind an open one with this ID, its end included.
abbrev pub remainder : String → List RtcFile → List RtcSendFileResponse → List Output
remainder id [] results = closed ∷ answered (file_response id results) ∷ []
remainder id (f ∷ fs) results =
    closed
    ∷ answered (file_response id results)
    ∷ opened f.file_id
    ∷ (map bytes (pieces chunk_size (content f)) ++ remainder f.file_id fs (results_left results))

module _ (json : Serde RtcSendFileHeaderRequest) (t : Receiving)
    (takes_all : (id : String) (n : ℕ) → t.takes id n ≡ true)
    (sends_all : (a : RtcSendFileResponse) → t.sends a ≡ true) where
  abbrev writing : String → ℕ → ℕ → List RtcSendFileResponse → Receiver
  writing id size received results = record {
    file_state = some (record { file_id = id; size = size; received = received });
    user_results = results;
  }

  receive-pieces :
      (id : String) (size : ℕ) (results : List RtcSendFileResponse)
      (later : List DataChannelMessage) (out : List Output)
      → ((received : ℕ)
          → receive_files json t (writing id size received results) later ≡ (out, delimited))
      → size < 2 ^ 64
      → (ps : List Bytes) (received : ℕ) → received + length (concat ps) ≤ size
      → receive_files json t (writing id size received results) (map binary_message ps ++ later)
        ≡ (map bytes ps ++ out, delimited)
  unfolding receive_files on_message on_binary
  receive-pieces id size results later out onward small [] received fits = onward received
  receive-pieces id size results later out onward small (p ∷ ps) received fits =
      let sum = length-append p (concat ps) in
      let exact : (received + length p) % 2 ^ 64 ≡ received + length p =
        omega (arith, fits, small, sum) in
      let within : ltb size ((received + length p) % 2 ^ 64) ≡ false =
        ground (arith, exact, fits, sum) in
      rw (within, takes_all id received)
        (ap (λ (r : List Output × End). (bytes p ∷ r.0, r.1))
          (receive-pieces id size results later out onward small ps _
            (omega (arith, exact, fits, sum))))

  -- The messages of one more file, for a receiver that has none open.
  receive-header :
      (f : RtcFile) (token : String) (file : FileDto) (results : List RtcSendFileResponse)
      → get f.file_id t.file_tokens ≡ some token
      → find_file f.file_id t.file_list ≡ some file
      → on_header json t
          (record { file_state = none; user_results = results })
          (json.from_slice (json.to_string (record { id = f.file_id; token = token })))
        ≡ next (writing f.file_id file.size 0 results) (opened f.file_id ∷ [])
  unfolding on_header check_token open_file
  receive-header f token file results held there = rw (json.from-to _, held, ==_refl token, there)

  receive-opened :
      (f : RtcFile) (fs : List RtcFile) (file : FileDto) (results : List RtcSendFileResponse)
      → length (content f) ≤ file.size
      → file.size < 2 ^ 64
      → ((received : ℕ)
          → receive_files json t
              (writing f.file_id file.size received results)
              (transcript json t.file_tokens fs (delimiter ∷ []))
            ≡ (remainder f.file_id fs results, delimited))
      → receive_files json t (writing f.file_id file.size 0 results) (
          map binary_message (pieces chunk_size (content f))
          ++ transcript json t.file_tokens fs (delimiter ∷ []))
        ≡ (map bytes (pieces chunk_size (content f)) ++ remainder f.file_id fs results, delimited)
  receive-opened f fs file results fits small onward =
      receive-pieces f.file_id file.size results _ _ onward small _ 0 (
        omega
          (arith, fits, ap (length {A = ℕ}) (concat-pieces chunk_size (content f) (omega arith))))

  receive-rest :
      (fs : List RtcFile) (id : String) (size received : ℕ) (results : List RtcSendFileResponse)
      → All (Agreed t) fs
      → receive_files json t
          (writing id size received results)
          (transcript json t.file_tokens fs (delimiter ∷ []))
        ≡ (remainder id fs results, delimited)
  unfolding receive_files on_message on_text end_file is_delimiter
  receive-rest [] id size received results agreed = rw (sends_all (file_response id results))
  receive-rest (f ∷ fs) id size received results (((token, held), there), agreed) =
      let header : RtcSendFileHeaderRequest = record { id = f.file_id; token = token } in
      let long : leb (length (json.to_string header)) 1 ≡ false =
        ground (arith, json.has_braces header) in
      rw
        (
          held,
          sends_all (file_response id results),
          long,
          receive-header f token there.0 (results_left results) held there.1,
        )
        (ap
          (λ (r : List Output × End).
            (closed ∷ answered (file_response id results) ∷ opened f.file_id ∷ r.0, r.1))
          (receive-opened f fs there.0 (results_left results) there.2 there.3
            (λ n. receive-rest fs f.file_id there.0.size n (results_left results) agreed)))

  -- A receiver that has no file open takes in a whole transfer of at least one file.
  pub receive-transcript :
      (f : RtcFile) (fs : List RtcFile) (results : List RtcSendFileResponse)
      → All (Agreed t) (f ∷ fs)
      → receive_files json t
          (record { file_state = none; user_results = results })
          (transcript json t.file_tokens (f ∷ fs) (delimiter ∷ []))
        ≡ (
          opened f.file_id
              ∷ (map bytes (pieces chunk_size (content f)) ++ remainder f.file_id fs results),
          delimited,
        )
  unfolding receive_files on_message on_text
  receive-transcript f fs results (((token, held), there), agreed) =
      rw (held, receive-header f token there.0 results held there.1)
        (ap (λ (r : List Output × End). (opened f.file_id ∷ r.0, r.1))
          (receive-opened f fs there.0 results there.2 there.3
            (λ n. receive-rest fs f.file_id there.0.size n results agreed)))
