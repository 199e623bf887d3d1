-- ===== src/Webrtc/Bounds.antt =====
-- What the receiving peer's loop of packages/core/src/webrtc/webrtc.rs hands to the application,
-- whatever the other peer sends.
use aika.Common.{
  ℕ, ◌+◌, ◌-◌, ◌^◌, ◌%◌, ◌≤◌, ◌<◌, ◌≡◌, refl, sym, ap, ◌∙◌, inl, inr, ◌⊎◌, String, Bool, true,
  false, Option, none, some, List, [], ◌∷◌, ◌++◌, length, length-append, All, ltb, arith,
  Bool-cases, ◌==◌, ==→≡, string_Eq,
}
use aika.Common.HashMap.{get}
use aika.Save.{Bytes}
use aika.Chunks.{DataChannelMessage}
use aika.Model.{FileDto}
use aika.Webrtc.{Serde, RtcSendFileHeaderRequest, RtcSendFileResponse}
use aika.Webrtc.Receive.{
  RtcFileState, Output, opened, bytes, closed, file_error, answered, End, Receiver, Round, next,
  end, Receiving, find_file, open_file, check_token, on_header, end_file, on_text, on_binary,
  on_message, receive_files, and_go_on, prefixed, is_delimiter, file_response, results_left,
}

-- The bytes that an open file still gets.
abbrev pub content_of : List Output → Bytes
content_of [] = []
content_of (opened id ∷ rest) = []
content_of (bytes b ∷ rest) = b ++ content_of rest
content_of (closed ∷ rest) = []
content_of (file_error e ∷ rest) = content_of rest
content_of (answered a ∷ rest) = content_of rest

-- The files that the application gets, with their bytes.
abbrev pub files_of : List Output → List (String × Bytes)
files_of [] = []
files_of (opened id ∷ rest) = (id, content_of rest) ∷ files_of rest
files_of (bytes b ∷ rest) = files_of rest
files_of (closed ∷ rest) = files_of rest
files_of (file_error e ∷ rest) = files_of rest
files_of (answered a ∷ rest) = files_of rest

abbrev room : Option RtcFileState → ℕ
room none = 0
room (some state) = state.size - state.received

abbrev WithinSize : Option RtcFileState → Type 0
WithinSize none = Unit
WithinSize (some state) = (state.received ≤ state.size) × (state.size < 2 ^ 63)

module _ (json : Serde RtcSendFileHeaderRequest) (t : Receiving) where
  -- One of the messages is a header with this ID and token.
  abbrev pub Shown : String → String → List DataChannelMessage → Type 0
  Shown id token [] = ⊥
  Shown id token (m ∷ messages) =
      (json.from_slice m.content ≡ some (record { id = id; token = token }))
      ⊎ Shown id token messages

  -- A file that was selected, whose token was shown, and that is no longer than was announced.
  abbrev pub Rightful : List DataChannelMessage → String × Bytes → Type 0
  Rightful messages (id, content) =
      ((token : String) × (get id t.file_tokens ≡ some token) × Shown id token messages)
      × ((file : FileDto) × (find_file id t.file_list ≡ some file) × (length content ≤ file.size))

  Rightful-later :
      (m : DataChannelMessage) (messages : List DataChannelMessage) (fs : List (String × Bytes))
      → All (Rightful messages) fs
      → All (Rightful (m ∷ messages)) fs
  Rightful-later m messages [] all = tt
  Rightful-later m messages ((id, content) ∷ fs) ((((token, same, shown), file)), rest) =
      (((token, same, inr shown), file), Rightful-later m messages fs rest)

  -- What is handed out from a state on.
  abbrev Sound : List DataChannelMessage → Option RtcFileState → List Output → Type 0
  Sound messages state out =
      All (Rightful messages) (files_of out) × (length (content_of out) ≤ room state)

  abbrev Onward : List DataChannelMessage → (Receiver → List Output × End) → Type 0
  Onward messages k = (r : Receiver) → WithinSize r.file_state → Sound messages r.file_state (k r).0

  abbrev at : Option RtcFileState → List RtcSendFileResponse → Receiver
  at state results = record { file_state = state; user_results = results }

  abbrev idle : List RtcSendFileResponse → Receiver
  idle results = at none results

  module _
      (small : (id : String) (file : FileDto)
        → find_file id t.file_list ≡ some file
        → file.size < 2 ^ 63)
      (messages : List DataChannelMessage) (k : Receiver → List Output × End)
      (onward : Onward messages k) where
    open_file-Sound :
        (results : List RtcSendFileResponse) (id token : String) (found : Option FileDto)
        → find_file id t.file_list ≡ found
        → get id t.file_tokens ≡ some token
        → Shown id token messages
        → Sound messages none (and_go_on (open_file json t (idle results) id found) k).0
    unfolding open_file
    open_file-Sound results id token none there held shown = onward (idle results) tt
    open_file-Sound results id token (some file) there held shown =
        let started : Receiver = record {
          file_state = some (record { file_id = id; size = file.size; received = 0 });
          user_results = results;
        } in
        let s = onward started (omega arith, small id file there) in
        ((((token, held, shown), (file, there, omega (arith, s.1))), s.0), omega arith)

    check_token-Sound :
        (results : List RtcSendFileResponse) (header : RtcSendFileHeaderRequest)
        (entry : Option String)
        → get header.id t.file_tokens ≡ entry
        → Shown header.id header.token messages
        → Sound messages none (and_go_on (check_token json t (idle results) header entry) k).0
    unfolding check_token
    check_token-Sound results header none held shown = onward (idle results) tt
    check_token-Sound results header (some entry) held shown =
        elim (Bool-cases (header.token == entry)) [
          | inl same ↦ rw same (
              open_file-Sound results header.id header.token _ refl
                (held ∙ ap some (sym (==→≡ header.token entry same))) shown)
          | inr other ↦ rw other (onward (idle results) tt)
        ]

    on_header-Sound :
        (results : List RtcSendFileResponse) (parsed : Option RtcSendFileHeaderRequest)
        → ((header : RtcSendFileHeaderRequest)
            → parsed ≡ some header
            → Shown header.id header.token messages)
        → Sound messages none (and_go_on (on_header json t (idle results) parsed) k).0
    unfolding on_header
    on_header-Sound results none shown = (tt, omega arith)
    on_header-Sound results (some header) shown =
        check_token-Sound results header _ refl (shown header refl)

    prefixed-Sound :
        (state : Option RtcFileState) (response : RtcSendFileResponse) (round : Round)
        → Sound messages none (and_go_on round k).0
        → Sound messages state (and_go_on (prefixed (closed ∷ answered response ∷ []) round) k).0
    prefixed-Sound state response (next r out) s = (s.0, omega arith)
    prefixed-Sound state response (end out e) s = (s.0, omega arith)

    end_file-Sound :
        (results : List RtcSendFileResponse) (state : RtcFileState) (msg : DataChannelMessage)
        → ((header : RtcSendFileHeaderRequest)
            → json.from_slice msg.content ≡ some header
            → Shown header.id header.token messages)
        → Sound messages
            (some state)
            (and_go_on (end_file json t (at (some state) results) state msg) k).0
    unfolding end_file
    end_file-Sound results state msg shown =
        let response = file_response state.file_id results in
        elim (Bool-cases (t.sends response)) [
          | inr refused ↦ rw refused (tt, omega arith)
          | inl sent ↦ elim (Bool-cases (is_delimiter msg)) [
            | inl last ↦ rw (sent, last) (tt, omega arith)
            | inr more ↦
                rw (sent, more)
                  (prefixed-Sound (some state) response _
                    (on_header-Sound (results_left results) _ shown))
          ]
        ]

    on_binary-Sound :
        (results : List RtcSendFileResponse) (state : Option RtcFileState) (content : Bytes)
        → WithinSize state
        → length content < 2 ^ 63
        → Sound messages state (and_go_on (on_binary json t (at state results) state content) k).0
    unfolding on_binary
    on_binary-Sound results none content fits short = onward (idle results) tt
    on_binary-Sound results (some state) content fits short =
        let received = (state.received + length content) % 2 ^ 64 in
        let exact : received ≡ state.received + length content = omega (arith, fits, short) in
        elim (Bool-cases (ltb state.size received)) [
          | inl long ↦ rw long ((onward (idle results) tt).0, omega arith)
          | inr fitting ↦ elim (Bool-cases (t.takes state.file_id state.received)) [
            | inr dropped ↦ rw (fitting, dropped) (tt, omega arith)
            | inl taken ↦
                let within : received ≤ state.size = ground (arith, fitting) in
                let s =
                  onward (at (some (record state { received = received })) results)
                    (within, fits.1) in
                rw (fitting, taken)
                  (
                    s.0,
                    omega (
                      arith,
                      exact,
                      within,
                      s.1,
                      length-append content (
                          content_of
                            (k (at (some (record state { received = received })) results)).0),
                    ),
                  )
          ]
        ]

    on_text-Sound :
        (results : List RtcSendFileResponse) (state : Option RtcFileState)
        (msg : DataChannelMessage)
        → ((header : RtcSendFileHeaderRequest)
            → json.from_slice msg.content ≡ some header
            → Shown header.id header.token messages)
        → Sound messages state (and_go_on (on_text json t (at state results) state msg) k).0
    unfolding on_text
    on_text-Sound results none msg shown = on_header-Sound results _ shown
    on_text-Sound results (some state) msg shown = end_file-Sound results state msg shown

    on_message-Sound :
        (results : List RtcSendFileResponse) (state : Option RtcFileState) (is_string : Bool)
        (content : Bytes)
        → ((header : RtcSendFileHeaderRequest)
            → json.from_slice content ≡ some header
            → Shown header.id header.token messages)
        → WithinSize state
        → length content < 2 ^ 63
        → Sound messages state
            (and_go_on
              (on_message json t
                (at state results)
                (record { is_string = is_string; content = content }))
              k).0
    unfolding on_message
    on_message-Sound results state true content shown fits short =
        on_text-Sound results state _ shown
    on_message-Sound results state false content shown fits short =
        on_binary-Sound results state content fits short

  receive-Sound :
      ((id : String) (file : FileDto) → find_file id t.file_list ≡ some file → file.size < 2 ^ 63)
      → (messages : List DataChannelMessage) (results : List RtcSendFileResponse)
        (state : Option RtcFileState)
      → All (λ m. length m.content < 2 ^ 63) messages
      → WithinSize state
      → Sound messages state (receive_files json t (at state results) messages).0
  unfolding receive_files
  receive-Sound small [] results state short fits = (tt, omega arith)
  receive-Sound small (m ∷ messages) results state short fits =
      on_message-Sound small (m ∷ messages) (λ r. receive_files json t r messages)
        (λ r fits.
          let s = receive-Sound small messages r.user_results r.file_state short.1 fits in
          (Rightful-later m messages (files_of (receive_files json t r messages).0) s.0, s.1))
        results state m.is_string m.content (λ header same. inl same) fits short.0

  -- Whatever messages a sending peer sends, each file that reaches the application was selected
  -- and shown with its token, and is no longer than was announced. No announced file and no
  -- message reaches 2^63 bytes.
  pub received_sound :
      (messages : List DataChannelMessage) (results : List RtcSendFileResponse)
      → ((id : String) (file : FileDto) → find_file id t.file_list ≡ some file → file.size < 2 ^ 63)
      → All (λ m. length m.content < 2 ^ 63) messages
      → All (Rightful messages) (
          files_of
            (receive_files json t
              (record { file_state = none; user_results = results })
              messages).0)
  received_sound messages results small short =
      (receive-Sound small messages results none short tt).0
