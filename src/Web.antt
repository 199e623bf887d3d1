-- ===== src/Web.antt =====
-- The web share sessions: packages/core/src/http/server/web.rs. A handler is cut where it waits
-- for the application, as in V2.antt; `to_string` prints an address.
pub mod World
pub mod Granted
pub mod Declined
pub mod Access
pub mod Upload
pub mod DownloadZip
mod Tests
use aika.Common.{
  ℕ, String, Bool, true, false, ◌&&◌, Option, none, some, List, [], ◌∷◌, ◌++◌, if◌then◌else◌, ◌==◌,
  string_Eq,
}
use aika.Common.HashMap.{HashMap, get, insert, remove, modify}
use aika.Model.{IpAddr, ip_Eq, FileDto}
use aika.Http.{AppError, bad_request, status_error, message, Result, ok, err}
use aika.Pin.{LruCache, check_pin}

pub record WebSendSession : Type 0 where
  pub ip : IpAddr
  pub accepted : Bool

pub data WebSendEvent : Type 0 where
  prepare_download : IpAddr → String → Option String → WebSendEvent
  file_download : String → String → FileDto → WebSendEvent

pub record WebPageState (Cache : Type 0) : Type 0 where
  pub files : HashMap String FileDto
  pub pin : Option String
  pub events : List WebSendEvent
  pub listening : Bool
  pub sessions : HashMap String WebSendSession
  pub pin_attempts : Cache

-- The test that all endpoints but `prepare_download` begin with.
abbrev pub is_valid : IpAddr → Option WebSendSession → Bool
is_valid ip none = false
is_valid ip (some session) = session.accepted && session.ip == ip

abbrev pub set_accepted : WebSendSession → WebSendSession
set_accepted session = record session { accepted = true }

-- `clear_pending_session`, by the session that stands there.
abbrev pub clear_if_pending :
    String → Option WebSendSession → HashMap String WebSendSession → HashMap String WebSendSession
clear_if_pending session_id none sessions = sessions
clear_if_pending session_id (some session) sessions =
    if session.accepted then sessions else remove session_id sessions

-- What `prepare_download` has come to where it waits for the decision.
pub data Visit : Type 0 where
  listed : String → Visit
  refused : AppError → Visit
  unheard : Visit
  waiting : Visit

module _ {Cache : Type 0} where
  abbrev pub has_session : String → IpAddr → WebPageState Cache → Bool
  has_session session_id ip web = is_valid ip (get session_id web.sessions)

  abbrev pub knows : Option String → IpAddr → WebPageState Cache → Option String
  knows none ip web = none
  knows (some session_id) ip web = if has_session session_id ip web then some session_id else none

  abbrev pub send : WebSendEvent → WebPageState Cache → WebPageState Cache
  send event web = if web.listening then record web { events = web.events ++ event ∷ [] } else web

  unfoldable pub clear_pending_session : String → WebPageState Cache → WebPageState Cache
  clear_pending_session session_id web = record web {
    sessions = clear_if_pending session_id (get session_id web.sessions) web.sessions;
  }

  unfoldable pub set_files : HashMap String FileDto → WebPageState Cache → WebPageState Cache
  set_files files web = record web { files = files }

  -- The new session, and the event that asks for the decision.
  abbrev pub ask : String → IpAddr → Option String → WebPageState Cache → Visit × WebPageState Cache
  ask session_id ip user_agent web =
      let pending = record web {
        sessions = insert session_id (record { ip = ip; accepted = false }) web.sessions;
      } in
      (
        if web.listening then waiting else unheard,
        send (prepare_download ip session_id user_agent) pending,
      )

  abbrev pub behind_pin :
      Result {0} Unit
      → (WebPageState Cache → Visit × WebPageState Cache)
      → WebPageState Cache
      → Visit × WebPageState Cache
  behind_pin (ok _) rest web = rest web
  behind_pin (err e) rest web = (refused e, web)

  abbrev pub visit_new :
      ⦃lru : LruCache Cache⦄
      → Option String
      → String
      → IpAddr
      → Option String
      → HashMap String String
      → WebPageState Cache
      → Visit × WebPageState Cache
  visit_new (some known) session_id ip user_agent query web = (listed known, web)
  visit_new none session_id ip user_agent query web =
      let (allowed, attempts) = check_pin web.pin web.pin_attempts query ip in
      behind_pin allowed (ask session_id ip user_agent) (record web { pin_attempts = attempts })

  -- `prepare_download` up to the wait.
  unfoldable pub visit :
      ⦃lru : LruCache Cache⦄
      → (IpAddr → String)
      → IpAddr
      → Option String
      → HashMap String String
      → WebPageState Cache
      → Visit × WebPageState Cache
  visit to_string ip user_agent query web =
      visit_new (knows (get "sessionId" query) ip web) (to_string ip) ip user_agent query web

  -- The rest of it, from a decision that is `none` where the application dropped the channel. The
  -- flag says whether the guard is still armed at the end.
  unfoldable pub settle :
      Option Bool → String → WebPageState Cache → Result String × Bool × WebPageState Cache
  unfolding clear_pending_session
  settle none session_id web = (err (status_error 500), true, web)
  settle (some false) session_id web =
      (err (message 403 "File transfer rejected."), false, clear_pending_session session_id web)
  settle (some true) session_id web =
      (ok session_id, false, record web { sessions = modify set_accepted session_id web.sessions })

  abbrev pub download_file :
      String → Option String → WebPageState Cache → Result FileDto × WebPageState Cache
  download_file session_id none web = (err (bad_request "Missing fileId."), web)
  download_file session_id (some file_id) web = elim (get file_id web.files) [
    | none ↦ (err (message 403 "Invalid fileId."), web)
    | some file ↦
        if web.listening
        then (ok file, send (file_download session_id file_id file) web)
        else (err (status_error 500), web)
  ]

  abbrev pub download_session :
      Option String
      → IpAddr
      → Option String
      → WebPageState Cache
      → Result FileDto × WebPageState Cache
  download_session none ip file_id web = (err (bad_request "Missing sessionId."), web)
  download_session (some session_id) ip file_id web =
      if has_session session_id ip web
      then download_file session_id file_id web
      else (err (message 403 "Invalid sessionId."), web)

  -- `download` up to the wait for the content.
  unfoldable pub download :
      HashMap String String → IpAddr → WebPageState Cache → Result FileDto × WebPageState Cache
  download query ip web = download_session (get "sessionId" query) ip (get "fileId" query) web

  abbrev pub list_files :
      Option String → IpAddr → WebPageState Cache → Result (HashMap String FileDto)
  list_files none ip web = err (bad_request "Missing sessionId.")
  list_files (some session_id) ip web =
      if has_session session_id ip web then ok web.files else err (message 403 "Invalid sessionId.")

  unfoldable pub files :
      HashMap String String → IpAddr → WebPageState Cache → Result (HashMap String FileDto)
  files query ip web = list_files (get "sessionId" query) ip web
