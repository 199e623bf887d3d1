-- ===== src/Web/Declined.antt =====
-- Two waiting requests of one web client: packages/core/src/http/server/web.rs.
use aika.Common.{◌≡◌, ◌∙◌, refl, String, true, false, none, some, ==_refl, string_Eq}
use aika.Common.HashMap.{HashMap, get, remove, modify, get-remove, get-modify}
use aika.Model.{IpAddr}
use aika.Http.{ok, err, message}
use aika.Web.{WebSendSession, WebPageState, set_accepted, clear_pending_session, settle, download}

-- The requests of one web client share a session. If the application declines one of them and then
-- accepts another, the accepted one is answered with the list of files, but every download in its
-- session is refused.
pub accepted_after_declined :
    {Cache : Type 0} (web : WebPageState Cache) (session_id : String) (s : WebSendSession)
    (ip : IpAddr) (query : HashMap String String)
    → get session_id web.sessions ≡ some s
    → s.accepted ≡ false
    → get "sessionId" query ≡ some session_id
    → let declined = (settle (some false) session_id web).2 in
      ((settle (some true) session_id declined).0 ≡ ok session_id)
      × ((download query ip (settle (some true) session_id declined).2).0
          ≡ err (message 403 "Invalid sessionId."))
unfolding settle clear_pending_session download
accepted_after_declined web session_id s ip query waits pending named =
    let gone : get session_id (remove session_id web.sessions) ≡ none =
      get-remove session_id session_id web.sessions ∙ rw (==_refl session_id) refl in
    let still : get session_id (modify set_accepted session_id (remove session_id web.sessions))
        ≡ none =
      get-modify set_accepted session_id session_id (remove session_id web.sessions)
      ∙ rw (==_refl session_id, gone) refl in
    (refl, rw (named, waits, pending, still) refl)
