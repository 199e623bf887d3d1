-- ===== src/V2/Prepare.antt =====
-- `create_upload_session` and the guard of the claimed slot, `PendingSessionGuard`:
-- packages/core/src/http/server/v2.rs.
use aika.Common.{
  ℕ, String, Bool, true, false, Option, none, some, List, [], ◌∷◌, map, any, is_empty,
  if◌then◌else◌, ◌==◌, string_Eq,
}
use aika.Common.HashMap.{HashMap}
use aika.Model.{IpAddr, FileDto, RegisterDtoV2}
use aika.Http.{
  Response, empty, prepare_upload_response, AppError, status_error, bad_request, message, Result,
  ok, err,
}
use aika.Session.{SessionStateV2, active, SessionFileV2, FileStatusV2, is_abandoned}
use aika.V2.{
  V2State, send, prepare_upload, session_end, prepare_upload_aborted, cancelled,
  PrepareUploadDecisionV2, accept, decline,
}

-- The arguments of `create_upload_session` but the state.
pub record PrepareRequest : Type 0 where
  pub sender_ip : IpAddr
  pub cert_fingerprint : Option String
  pub info : RegisterDtoV2
  pub offered_files : HashMap String FileDto
  pub app_build : Option ℕ

-- `none`: another session blocks the slot. `some abandoned`: the slot may be taken, and
-- `abandoned` is the session that its sender gave up, if one stood there.
unfoldable pub claim_slot : ℕ → Option SessionStateV2 → Option (Option String)
claim_slot now none = some none
claim_slot now (some SessionStateV2.pending) = none
claim_slot now (some (active session)) =
    if is_abandoned session now then some (some session.session_id) else none

-- What the handler has come to where it waits for the decision. `unheard`: the application is
-- gone, and the handler returns with its guard armed.
pub data Claim : Type 0 where
  refused : AppError → Claim
  unheard : Claim
  waiting : Claim

-- The accepted files among the offered ones, each with a token of its own.
unfoldable pub select_files :
    List String → (String → String) → HashMap String FileDto → HashMap String SessionFileV2
select_files ids token [] = []
select_files ids token ((id, dto) ∷ offered) =
    let rest = select_files ids token offered in
    if any (λ i. i == id) ids
    then (id, record { dto = dto; token = token id; status = FileStatusV2.pending }) ∷ rest
    else rest

unfoldable pub clear_slot : Option SessionStateV2 → Option SessionStateV2
clear_slot none = none
clear_slot (some SessionStateV2.pending) = none
clear_slot (some (active session)) = some (active session)

module _ {Cache : Type 0} where
  abbrev pub end_abandoned : Option String → V2State Cache → V2State Cache
  end_abandoned none v2 = v2
  end_abandoned (some session_id) v2 = send (session_end session_id cancelled) v2

  -- `create_upload_session` from the claimed slot to the wait for the decision: the application is
  -- told of the end of the abandoned session, and is offered the new one.
  abbrev pub announce :
      String → PrepareRequest → Option String → V2State Cache → Claim × V2State Cache
  announce session_id req abandoned v2 =
      let told = end_abandoned abandoned v2 in
      let event =
        prepare_upload session_id req.sender_ip req.info req.cert_fingerprint req.offered_files in
      (if told.listening then waiting else unheard, send event told)

  abbrev pub claim :
      String → PrepareRequest → Option (Option String) → V2State Cache → Claim × V2State Cache
  claim session_id req none v2 = (refused (message 409 "Blocked by another session"), v2)
  claim session_id req (some abandoned) v2 =
      announce session_id req abandoned (record v2 { session = some SessionStateV2.pending })

  -- `create_upload_session` up to the wait for the decision; `session_id` is the fresh UUID. In
  -- one piece: V2/World has it also in two, apart where the handler awaits the application.
  unfoldable pub claim_session : ℕ → String → PrepareRequest → V2State Cache → Claim × V2State Cache
  unfolding claim_slot
  claim_session now session_id req v2 =
      if is_empty req.offered_files
      then (refused (bad_request "No files provided"), v2)
      else claim session_id req (claim_slot now v2.session) v2

  unfoldable pub clear_pending_session : V2State Cache → V2State Cache
  unfolding clear_slot
  clear_pending_session v2 = record v2 { session = clear_slot v2.session }

  -- The task that dropping an armed `PendingSessionGuard` spawns.
  unfoldable pub abort_pending_session : String → V2State Cache → V2State Cache
  unfolding clear_pending_session
  abort_pending_session session_id v2 =
      send (prepare_upload_aborted session_id) (clear_pending_session v2)

  -- The end of `create_upload_session` for the chosen files.
  abbrev pub open_session :
      ℕ
      → String
      → PrepareRequest
      → HashMap String SessionFileV2
      → V2State Cache
      → Result Response × Bool × V2State Cache
  open_session now session_id req [] v2 =
      (ok (record { status = 204; body = empty }), false, clear_pending_session v2)
  open_session now session_id req (f ∷ files) v2 =
      (ok answer, false, record v2 { session = opened })
    where
      tokens : HashMap String String
      tokens = map (λ e. (e.0, e.1.token)) (f ∷ files)

      answer : Response
      answer = record {
        status = 200;
        body =
            prepare_upload_response
              (record { session_id = session_id; files = tokens; app_build = req.app_build });
      }

      opened : Option SessionStateV2
      opened = some (
          active (record {
            session_id = session_id;
            sender_ip = req.sender_ip;
            files = f ∷ files;
            last_activity = now;
          }))

  -- The rest of `create_upload_session`, from a decision that is `none` where the application
  -- dropped the channel. The flag says whether the guard is still armed at the end.
  unfoldable pub settle_session :
      ℕ
      → String
      → (String → String)
      → Option PrepareUploadDecisionV2
      → PrepareRequest
      → V2State Cache
      → Result Response × Bool × V2State Cache
  unfolding clear_pending_session
  settle_session now session_id token none req v2 = (err (status_error 500), true, v2)
  settle_session now session_id token (some decline) req v2 =
      (err (message 403 "Rejected"), false, clear_pending_session v2)
  settle_session now session_id token (some (accept ids)) req v2 =
      open_session now session_id req (select_files ids token req.offered_files) v2
