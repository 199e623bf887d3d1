-- ===== src/Webrtc/Send.antt =====
-- The sending peer's loop over the files of a transfer, in `send_offer` of
-- packages/core/src/webrtc/webrtc.rs.
use aika.Common.{
  String, Bool, true, Option, none, some, List, [], ◌∷◌, ◌++◌, concat, if◌then◌else◌, string_Eq,
}
use aika.Common.HashMap.{HashMap, get}
use aika.Save.{Bytes}
use aika.Chunks.{
  chunk_size, process_in_chunks, process, DataChannelMessage, binary_message, delimiter,
}
use aika.Chunks.Stream.{pieces}
use aika.Webrtc.{
  Serde, RtcSendFileHeaderRequest, RtcFile, RtcFileError, FileProblem, no_file_token, channel_error,
}

-- What was sent on the data channel so far, and the errors of files.
pub record Sender : Type 0 where
  pub sent : List DataChannelMessage
  pub errors : List RtcFileError

-- What one `receive_rx.recv()` leaves.
abbrev pub unread : List DataChannelMessage → List DataChannelMessage
unread [] = []
unread (_ ∷ messages) = messages

abbrev pub report : Sender → String → FileProblem → Sender
report s id problem = record s {
  errors = s.errors ++ (record { file_id = id; error = problem }) ∷ [];
}

abbrev pub header_message :
    Serde RtcSendFileHeaderRequest → RtcSendFileHeaderRequest → DataChannelMessage
header_message json header = record { is_string = true; content = json.to_string header }

-- `is_open sent`: whether the channel takes a further message when it has taken `sent`.
module _ (json : Serde RtcSendFileHeaderRequest) (is_open : List DataChannelMessage → Bool) where
  -- `data_channel.send`, the callback of `process_in_chunks`.
  unfoldable pub send : List DataChannelMessage → Bytes → Option (List DataChannelMessage)
  send sent chunk = if is_open sent then some (sent ++ binary_message chunk ∷ []) else none

  -- What has been sent when the channel refuses one of some pieces.
  unfoldable pub sent_until_refused : List DataChannelMessage → List Bytes → List DataChannelMessage
  sent_until_refused sent [] = sent
  sent_until_refused sent (piece ∷ rest) =
      let onward = sent_until_refused (sent ++ binary_message piece ∷ []) rest in
      if is_open sent then onward else sent

  unfoldable pub after_content : Sender → RtcFile → Option (List DataChannelMessage) → Sender
  unfolding sent_until_refused
  after_content s message (some sent) = record s { sent = sent }
  after_content s message none =
      report
        (record s {
          sent = sent_until_refused s.sent (pieces chunk_size (concat message.binary_rx));
        })
        message.file_id channel_error

  unfoldable pub send_content : Sender → RtcFile → Sender
  unfolding after_content send process
  send_content s message =
      after_content s message (process_in_chunks chunk_size send s.sent message.binary_rx)

  unfoldable pub send_file : Sender → RtcFile → Option String → Sender
  unfolding send_content
  send_file s message none = report s message.file_id no_file_token
  send_file s message (some file_token) =
      let header : RtcSendFileHeaderRequest = record { id = message.file_id; token = file_token } in
      if is_open s.sent
      then send_content (record s { sent = s.sent ++ header_message json header ∷ [] }) message
      else report s message.file_id channel_error

  -- `while let Some(message) = sending_rx.recv().await`.
  unfoldable pub send_each : HashMap String String → Sender → List RtcFile → Sender
  unfolding send_file get
  send_each file_map s [] = s
  send_each file_map s (message ∷ rest) =
      send_each file_map (send_file s message (get message.file_id file_map)) rest

  -- The loop, the delimiter behind it, and one `recv` from the messages that come in, after which
  -- the peer closes; `none` in place of the whole when the delimiter cannot be sent.
  unfoldable pub send_files :
      HashMap String String
      → List RtcFile
      → (received : List DataChannelMessage) → Option (Sender × List DataChannelMessage)
  unfolding send_each
  send_files file_map files received =
      let s = send_each file_map (record { sent = []; errors = [] }) files in
      if is_open s.sent
      then some (record s { sent = s.sent ++ delimiter ∷ [] }, unread received)
      else none
