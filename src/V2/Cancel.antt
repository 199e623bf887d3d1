-- ===== src/V2/Cancel.antt =====
-- `cancel` of packages/core/src/http/server/v2.rs, and the cancellation by the application,
-- `ServerHandle::cancel_v2_session` of packages/core/src/http/server/mod.rs.
use aika.Common.{
  String, Bool, true, false, ◌&&◌, Option, none, some, if◌then◌else◌, ◌==◌, string_Eq,
}
use aika.Common.HashMap.{HashMap, get}
use aika.Model.{IpAddr, ip_Eq}
use aika.Http.{Response, empty}
use aika.Session.{SessionStateV2, active}
use aika.V2.{V2State, send, session_end, cancelled, cancel_received}

unfoldable pub names_session : String → IpAddr → Option SessionStateV2 → Bool
names_session session_id ip none = false
names_session session_id ip (some SessionStateV2.pending) = false
names_session session_id ip (some (active session)) =
    session.session_id == session_id && session.sender_ip == ip

unfoldable pub has_session : String → Option SessionStateV2 → Bool
has_session session_id none = false
has_session session_id (some SessionStateV2.pending) = false
has_session session_id (some (active session)) = session.session_id == session_id

module _ {Cache : Type 0} where
  abbrev pub cancel_session : String → IpAddr → V2State Cache → V2State Cache
  cancel_session session_id ip v2 =
      if names_session session_id ip v2.session
      then send (session_end session_id cancelled) (record v2 { session = none })
      else send (cancel_received ip session_id) v2

  unfoldable pub cancel : HashMap String String → IpAddr → V2State Cache → Response × V2State Cache
  unfolding names_session
  cancel query ip v2 = (
    record { status = 200; body = empty },
    elim (get "sessionId" query) [ none ↦ v2 | some session_id ↦ cancel_session session_id ip v2 ],
  )

  unfoldable pub cancel_v2_session : String → V2State Cache → Bool × V2State Cache
  unfolding has_session
  cancel_v2_session session_id v2 =
      if has_session session_id v2.session
      then (true, record v2 { session = none })
      else (false, v2)
