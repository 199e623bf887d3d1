-- ===== src/Webrtc/Receive.antt =====
-- The receiving peer's loop over the files of a transfer, in `accept_offer` of
-- packages/core/src/webrtc/webrtc.rs.
use aika.Common.{
  ℕ, ◌+◌, ◌^◌, ◌%◌, String, Bool, true, false, not, ◌&&◌, Option, none, some, List, [], ◌∷◌, ◌++◌,
  length, ltb, leb, if◌then◌else◌, ◌==◌, string_Eq,
}
use aika.Common.HashMap.{HashMap, get}
use aika.Save.{Bytes}
use aika.Chunks.{DataChannelMessage}
use aika.Model.{FileDto}
use aika.Webrtc.{
  Serde, RtcSendFileHeaderRequest, RtcSendFileResponse, RtcFileError, FileProblem, invalid_token,
  file_not_found, no_size, no_header, too_long,
}

pub record RtcFileState : Type 0 where
  pub file_id : String
  pub size : ℕ
  pub received : ℕ

-- What the loop hands out: a file and its bytes to the application, which sees the end of the
-- bytes when the file is `closed`; errors of files; and answers on the data channel.
pub data Output : Type 0 where
  opened : String → Output
  bytes : Bytes → Output
  closed : Output
  file_error : RtcFileError → Output
  answered : RtcSendFileResponse → Output

-- How the loop ends: by a delimiter, when the channel brings nothing more, or with an error.
pub data End : Type 0 where
  delimited channel_closed failed : End

-- `file_state`, and what the application will say of the files, in order.
pub record Receiver : Type 0 where
  pub file_state : Option RtcFileState
  pub user_results : List RtcSendFileResponse

-- One round: it goes on, or ends.
pub data Round : Type 0 where
  next : Receiver → List Output → Round
  end : List Output → End → Round

-- What the peers agreed on, and what the application and the channel do: whether the application
-- still takes the bytes of a file when so many have come, and whether an answer can be sent.
pub record Receiving : Type 0 where
  pub file_tokens : HashMap String String
  pub file_list : List FileDto
  pub takes : String → ℕ → Bool
  pub sends : RtcSendFileResponse → Bool

unfoldable pub is_delimiter : DataChannelMessage → Bool
is_delimiter msg = msg.is_string && leb (length msg.content) 1

-- `file_list.iter().find(|f| f.id == id)`.
unfoldable pub find_file : String → List FileDto → Option FileDto
find_file id [] = none
find_file id (f ∷ fs) = if f.id == id then some f else find_file id fs

unfoldable pub file_result_error : Option String → String
file_result_error none = "Unknown error"
file_result_error (some e) = e

-- The answer for a file that has ended, from what the application says of it.
unfoldable pub file_response : String → List RtcSendFileResponse → RtcSendFileResponse
unfolding file_result_error
file_response id [] = record {
  id = id;
  success = false;
  error = some "Failed to receive file result";
}
file_response id (result ∷ _) =
    if result.success
    then record { id = id; success = true; error = none }
    else record { id = id; success = false; error = some (file_result_error result.error) }

abbrev pub results_left : List RtcSendFileResponse → List RtcSendFileResponse
results_left [] = []
results_left (_ ∷ rest) = rest

abbrev pub refuse : Receiver → String → FileProblem → Round
refuse r id problem = next r (file_error (record { file_id = id; error = problem }) ∷ [])

abbrev pub prefixed : List Output → Round → Round
prefixed out (next r more) = next r (out ++ more)
prefixed out (end more e) = end (out ++ more) e

abbrev pub and_go_on : Round → (Receiver → List Output × End) → List Output × End
and_go_on (next r out) rest = (out ++ (rest r).0, (rest r).1)
and_go_on (end out e) rest = (out, e)

module _ (json : Serde RtcSendFileHeaderRequest) (t : Receiving) where
  unfoldable pub open_file : Receiver → String → Option FileDto → Round
  open_file r id none = refuse r id no_size
  open_file r id (some file) =
      next
        (record r { file_state = some (record { file_id = id; size = file.size; received = 0 }) })
        (opened id ∷ [])

  unfoldable pub check_token : Receiver → RtcSendFileHeaderRequest → Option String → Round
  unfolding open_file find_file
  check_token r header none = refuse r header.id file_not_found
  check_token r header (some entry) =
      if header.token == entry
      then open_file r header.id (find_file header.id t.file_list)
      else refuse r header.id invalid_token

  unfoldable pub on_header : Receiver → Option RtcSendFileHeaderRequest → Round
  unfolding check_token get
  on_header r none = end [] failed
  on_header r (some header) = check_token r header (get header.id t.file_tokens)

  -- The end of a file, when a text follows it.
  unfoldable pub end_file : Receiver → RtcFileState → DataChannelMessage → Round
  unfolding file_response is_delimiter on_header
  end_file r state msg =
      let response = file_response state.file_id r.user_results in
      let r' : Receiver = record {
        file_state = none;
        user_results = results_left r.user_results;
      } in
      if not (t.sends response)
      then end (closed ∷ []) failed
      else if is_delimiter msg
      then end (closed ∷ answered response ∷ []) delimited
      else prefixed (closed ∷ answered response ∷ []) (on_header r' (json.from_slice msg.content))

  unfoldable pub on_text : Receiver → Option RtcFileState → DataChannelMessage → Round
  unfolding end_file on_header
  on_text r none msg = on_header r (json.from_slice msg.content)
  on_text r (some state) msg = end_file r state msg

  unfoldable pub on_binary : Receiver → Option RtcFileState → Bytes → Round
  on_binary r none content = refuse r "unknown" no_header
  on_binary r (some state) content =
      let received = (state.received + length content) % 2 ^ 64 in
      if ltb state.size received
      then next (record r { file_state = none })
          (file_error (record { file_id = state.file_id; error = too_long state.size received })
            ∷ closed
            ∷ [])
      else if t.takes state.file_id state.received
      then next (record r { file_state = some (record state { received = received }) })
          (bytes content ∷ [])
      else end [] failed

  unfoldable pub on_message : Receiver → DataChannelMessage → Round
  unfolding on_text on_binary
  on_message r msg =
      if msg.is_string then on_text r r.file_state msg else on_binary r r.file_state msg.content

  -- `while let Some(msg) = receive_rx.recv().await`. The bytes of an open file end with the loop.
  unfoldable pub receive_files : Receiver → List DataChannelMessage → List Output × End
  unfolding on_message
  receive_files r [] = ([], channel_closed)
  receive_files r (msg ∷ messages) = and_go_on (on_message r msg) (λ r. receive_files r messages)
