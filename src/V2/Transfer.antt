-- ===== src/V2/Transfer.antt =====
-- `upload`, `finalize_file` and the guard of a transfer, `UploadGuard`:
-- packages/core/src/http/server/v2.rs.
use aika.Common.{
  ℕ, String, Bool, true, false, ◌&&◌, Option, none, some, if◌then◌else◌, ◌==◌, string_Eq,
}
use aika.Common.HashMap.{HashMap, get, modify}
use aika.Model.{IpAddr, ip_Eq, FileDto}
use aika.Http.{Response, empty, status_error, message, Result, ok, err}
use aika.Session.{
  SessionStateV2, active, UploadSessionV2, SessionFileV2, FileStatusV2, in_progress, finished,
  is_complete, is_in_progress, is_pending, touch,
}
use aika.V2.{V2State, send, file_upload, session_end, invalid_token_error}
use aika.V2
use aika.Save.{SaveFailure, Saved, saved, failed}

pub record UploadRequest : Type 0 where
  pub session_id : String
  pub file_id : String
  pub token : String
  pub ip : IpAddr

-- `let (Some(session_id), Some(file_id), Some(token)) = …` on the query parameters.
unfoldable pub upload_params : HashMap String String → IpAddr → Result UploadRequest
upload_params query ip = params (get "sessionId" query) (get "fileId" query) (get "token" query)
  where
    params : Option String → Option String → Option String → Result UploadRequest
    params (some s) (some f) (some t) =
        ok (record { session_id = s; file_id = f; token = t; ip = ip })
    params _ _ _ = err (message 400 "Missing parameters")

abbrev pub set_status : FileStatusV2 → SessionFileV2 → SessionFileV2
set_status status file = record file { status = status }

-- The validation of `upload`: the session with the file marked as in progress, and its metadata.
unfoldable pub admit :
    ℕ → UploadRequest → Option SessionStateV2 → Option (UploadSessionV2 × FileDto)
unfolding touch
admit now req none = none
admit now req (some SessionStateV2.pending) = none
admit now req (some (active session)) =
    if session.session_id == req.session_id && session.sender_ip == req.ip
    then elim (get req.file_id session.files) [
      | none ↦ none
      | some file ↦
          if file.token == req.token && is_pending file.status
          then some (
            touch now (record session {
              files = modify (set_status in_progress) req.file_id session.files;
            }),
            file.dto,
          )
          else none
    ]
    else none

abbrev pub end_file : Bool → SessionFileV2 → SessionFileV2
end_file success file =
    if is_in_progress file.status
    then set_status (if success then finished else FileStatusV2.failed) file
    else file

-- The session after the end of one transfer.
unfoldable pub end_transfer : ℕ → String → Bool → UploadSessionV2 → UploadSessionV2
unfolding touch
end_transfer now file_id success session =
    touch now (record session { files = modify (end_file success) file_id session.files })

abbrev pub upload_response : Saved → Result Response
upload_response saved = ok (record { status = 200; body = empty })
upload_response (failed SaveFailure.storage_full) = err (message 507 "Insufficient storage")
upload_response (failed SaveFailure.file_too_large) =
    err (message 413 "File too large for the destination")
upload_response (failed SaveFailure.other) = err (status_error 500)

abbrev pub is_saved : Saved → Bool
is_saved saved = true
is_saved (failed _) = false

module _ {Cache : Type 0} where
  abbrev pub finalize_active :
      ℕ → String → String → Bool → UploadSessionV2 → V2State Cache → V2State Cache
  finalize_active now session_id file_id success session v2 =
      if session.session_id == session_id
      then (let ended = end_transfer now file_id success session in
          if is_complete ended
          then send (session_end session_id V2.finished) (record v2 { session = none })
          else record v2 { session = some (active ended) })
      else v2

  abbrev pub finalize_slot :
      ℕ → String → String → Bool → Option SessionStateV2 → V2State Cache → V2State Cache
  finalize_slot now session_id file_id success none v2 = v2
  finalize_slot now session_id file_id success (some SessionStateV2.pending) v2 = v2
  finalize_slot now session_id file_id success (some (active session)) v2 =
      finalize_active now session_id file_id success session v2

  unfoldable pub finalize_file : ℕ → String → String → Bool → V2State Cache → V2State Cache
  unfolding end_transfer is_complete
  finalize_file now session_id file_id success v2 =
      finalize_slot now session_id file_id success v2.session v2

  -- `upload` up to the wait for the target. `true`: the transfer goes on, its guard armed.
  abbrev pub start :
      ℕ
      → UploadRequest
      → Option (UploadSessionV2 × FileDto)
      → V2State Cache
      → Result FileDto × V2State Cache
  start now req none v2 = (err invalid_token_error, v2)
  start now req (some (session, dto)) v2 =
      let marked = record v2 { session = some (active session) } in
      if v2.listening
      then (ok dto, send (file_upload req.session_id req.file_id dto) marked)
      else (err (status_error 500), finalize_file now req.session_id req.file_id false marked)

  unfoldable pub start_transfer : ℕ → UploadRequest → V2State Cache → Result FileDto × V2State Cache
  unfolding admit finalize_file
  start_transfer now req v2 = start now req (admit now req v2.session) v2

  -- The rest of `upload`, from how the file was saved: `none` where the application dropped the
  -- channel for the target.
  unfoldable pub finish_transfer :
      ℕ → String → String → Option Saved → V2State Cache → Result Response × V2State Cache
  unfolding finalize_file
  finish_transfer now session_id file_id none v2 =
      (err (status_error 500), finalize_file now session_id file_id false v2)
  finish_transfer now session_id file_id (some result) v2 =
      (upload_response result, finalize_file now session_id file_id (is_saved result) v2)
