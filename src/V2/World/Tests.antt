-- ===== src/V2/World/Tests.antt =====
-- Runs of the upload endpoints of packages/core/src/http/server/v2.rs on one offered file.
use aika.Common.{◌↔◌, ℕ, ◌≤◌, ◌≡◌, refl, ap, true, false, none, some, [], ◌∷◌, arith, string_Eq}
use aika.Common.HashMap.{get, modify}
use aika.Model.{v4, FileDto, RegisterDtoV2, http}
use aika.Http.{ok, err, message}
use aika.Session.{
  SessionStateV2, active, UploadSessionV2, SessionFileV2, FileStatusV2, in_progress, is_abandoned,
}
use aika.V2.{accept, invalid_token_error}
use aika.V2.Replaceable.{IsOver}
use aika.V2.Prepare.{
  claim_slot, PrepareRequest, refused, waiting, claim_session, settle_session, select_files,
}
use aika.V2.Transfer.{UploadRequest, admit, start_transfer}
use aika.V2.Admission.{Matches, marked, admit_iff}
use aika.V2.World.{
  World, deciding, leaked, prepare, claims, upload, decide, disconnect, step, take_task,
  decide_task, disconnect_task,
}
use aika.V2.World.Counting.{total, transfers, holds}
use aika.V2.World.Files.{running}
use aika.V2.World.Reachable.{Reachable, starts, acts}
use aika.V2.World.Promises.{
  holder_owns_slot, one_transfer_per_file, no_complete_session, abandoned_idle, IsSilent, unblocked,
  leak_blocks,
}
use aika.V2.World.Tokens.{stays, no_second_upload}

abbrev photo : FileDto
photo = record {
  id = "a";
  file_name = "a.jpg";
  size = 3;
  file_type = "image/jpeg";
  sha256 = none;
  preview = none;
  metadata = none;
}

abbrev phone : RegisterDtoV2
phone = record {
  alias = "Phone";
  version = "2.1";
  device_model = none;
  device_type = none;
  fingerprint = "f";
  port = 53317;
  protocol = http;
  download = false;
  app_build = none;
}

abbrev request : PrepareRequest
request = record {
  sender_ip = v4 7;
  cert_fingerprint = none;
  info = phone;
  offered_files = ("a", photo) ∷ [];
  app_build = none;
}

abbrev idle : World Unit
idle = record {
  v2 = record { pin = none; events = []; listening = true; session = none; pin_attempts = tt };
  tasks = [];
}

abbrev asked : World Unit
asked = step (prepare 0 "s" request) idle

abbrev accepted : World Unit
accepted = step (decide 0 5 (λ id. "t") (some (accept ("a" ∷ [])))) asked

abbrev session : FileStatusV2 → ℕ → UploadSessionV2
session status at = record {
  session_id = "s";
  sender_ip = v4 7;
  files = ("a", record { dto = photo; token = "t"; status = status }) ∷ [];
  last_activity = at;
}

abbrev put : UploadRequest
put = record { session_id = "s"; file_id = "a"; token = "t"; ip = v4 7 }

abbrev uploading : World Unit
uploading = step (upload 9 put) accepted

idle-Reachable : Reachable idle
idle-Reachable = starts idle refl refl

asked-Reachable : Reachable asked
unfolding get
asked-Reachable = acts (prepare 0 "s" request) idle idle-Reachable ((λ f. refl), (refl, tt))

accepted-Reachable : Reachable accepted
accepted-Reachable =
    acts (decide 0 5 (λ id. "t") (some (accept ("a" ∷ [])))) asked asked-Reachable tt

uploading-Reachable : Reachable uploading
uploading-Reachable = acts (upload 9 put) accepted accepted-Reachable tt

asked-task : take_task 0 asked.tasks ≡ some (deciding "s" request, [])
unfolding step claim_session take_task
asked-task = refl

accepted-session : accepted.v2.session ≡ some (active (session FileStatusV2.pending 5))
unfolding step claim_session take_task decide_task settle_session select_files
accepted-session = refl

uploading-session : uploading.v2.session ≡ some (active (session in_progress 9))
unfolding step claim_session take_task decide_task settle_session select_files start_transfer admit
    get modify
uploading-session = refl

holder_owns_slot_example : (asked.v2.session ≡ some SessionStateV2.pending) × (total holds [] ≡ 0)
holder_owns_slot_example =
    holder_owns_slot asked-Reachable 0 (deciding "s" request) [] asked-task refl

one_transfer_per_file_example :
    (total (transfers "s" "a") uploading.tasks ≡ running "a" (session in_progress 9).files)
    × (total (transfers "s" "a") uploading.tasks ≤ 1)
one_transfer_per_file_example =
    one_transfer_per_file uploading-Reachable (session in_progress 9) "a" uploading-session

no_complete_session_example : ¬ IsOver (session FileStatusV2.pending 5)
no_complete_session_example =
    no_complete_session accepted-Reachable (session FileStatusV2.pending 5) accepted-session

silent : claim_slot 60005 accepted.v2.session ≡ some (some "s")
unfolding step claim_session take_task decide_task settle_session select_files claim_slot
    is_abandoned
silent = refl

abandoned_idle_example : total (transfers "s" "a") accepted.tasks ≡ 0
abandoned_idle_example =
    abandoned_idle accepted-Reachable (session FileStatusV2.pending 5) 60005 (some "s") "a"
      accepted-session silent

accepted-tasks : accepted.tasks ≡ []
unfolding step claim_session take_task decide_task settle_session select_files
accepted-tasks = refl

accepted-IsSilent :
    (s : UploadSessionV2) → accepted.v2.session ≡ some (active s) → IsSilent 60005 accepted.tasks s
accepted-IsSilent s e =
    (λ f. ap (total (transfers s.session_id f)) accepted-tasks, ground (arith, accepted-session))

accepted-listening : accepted.v2.listening ≡ true
unfolding step claim_session take_task decide_task settle_session select_files
accepted-listening = refl

unblocked_example : (claim_session 60005 "n" request accepted.v2).0 ≡ waiting
unblocked_example =
    unblocked accepted-Reachable 60005 "n" request (ap (total holds) accepted-tasks)
      accepted-IsSilent accepted-listening refl

-- The sender of the accepted session is silent for a minute, another request takes the slot, and
-- its connection breaks while the application is still to be told.
abbrev left_pending : World Unit
left_pending = step (disconnect 0) (step (claims 60005 request) accepted)

left_pending-Reachable : Reachable left_pending
unfolding get
left_pending-Reachable =
    acts (disconnect 0) (step (claims 60005 request) accepted)
      (acts (claims 60005 request) accepted accepted-Reachable (refl, tt)) tt

left_pending-leaked : take_task 0 left_pending.tasks ≡ some (leaked, [])
unfolding step claim_session claim_slot take_task decide_task settle_session select_files
    disconnect_task is_abandoned
left_pending-leaked = refl

-- No request is let in any more.
left_pending_blocks :
    (claim_session 200000 "n" request left_pending.v2).0
    ≡ refused (message 409 "Blocked by another session")
left_pending_blocks =
    leak_blocks left_pending-Reachable 0 200000 [] "n" request left_pending-leaked refl

put-starts : (start_transfer 9 put accepted.v2).0 ≡ ok photo
unfolding step claim_session take_task decide_task settle_session select_files start_transfer admit
    get modify
put-starts = refl

no_second_upload_example : (start_transfer 10 put uploading.v2).0 ≡ err invalid_token_error
no_second_upload_example =
    no_second_upload 9 10 put put photo accepted-Reachable put-starts stays refl

admit_iff_example :
    (admit 9 put (some (active (session FileStatusV2.pending 5)))
      ≡ some (marked 9 "a" (session FileStatusV2.pending 5), photo))
    ↔ ((old : UploadSessionV2) × (file : SessionFileV2) × (some
            (active (session FileStatusV2.pending 5))
          ≡ some (active old))
        × Matches put old file
        × (marked 9 "a" (session FileStatusV2.pending 5) ≡ marked 9 "a" old)
        × (photo ≡ file.dto))
admit_iff_example =
    admit_iff 9 put (some (active (session FileStatusV2.pending 5)))
      (marked 9 "a" (session FileStatusV2.pending 5)) photo
