-- ===== src/Web/Access.antt =====
-- Who may use a session of packages/core/src/http/server/web.rs.
use aika.Common.{
  ◌≡◌, ◌↔◌, refl, ap, ◌∙◌, Bool, true, false, Option, none, some, arith, ◌==◌, decides,
}
use aika.Model.{IpAddr, ip_Eq}
use aika.Web.{WebSendSession, is_valid}

pub is_valid_iff :
    (ip : IpAddr) (o : Option WebSendSession)
    → (is_valid ip o ≡ true) ↔ (
        (session : WebSendSession) × (o ≡ some session)
        × (session.accepted ≡ true)
        × (session.ip ≡ ip))
is_valid_iff ip none = (λ h. ground (arith, h), λ h. ground (arith, h.1))
is_valid_iff ip (some session) = (
  λ h. (session, refl, ground (arith, h), (decides session.ip ip).0 (ground (arith, h))),
  λ (found, same, on, at).
      let here : (session.ip == ip) ≡ true = (decides session.ip ip).1 (ap ip_of same ∙ at) in
      rw (ap accepted_of same ∙ on, here) refl,
)
  where
    ip_of : Option WebSendSession → IpAddr
    ip_of none = ip
    ip_of (some s) = s.ip

    accepted_of : Option WebSendSession → Bool
    accepted_of none = false
    accepted_of (some s) = s.accepted
