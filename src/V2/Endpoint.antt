-- ===== src/V2/Endpoint.antt =====
-- `prepare_upload` of packages/core/src/http/server/v2.rs, from the request to the wait for the
-- decision, with `RequestClientInfo` of packages/core/src/http/server/mod.rs. The query and the
-- JSON body come parsed.
pub mod Gate
mod Tests
use aika.Common.{
  ℕ, ◌<◌, ◌≡◌, ◌∙◌, inl, inr, refl, sym, ap, String, Bool, true, false, Option, none, some, List,
  if◌then◌else◌, is_empty, arith, string_Eq, Bool-cases, Option-cases,
}
use text.Mathlib.Text.{starts_with}
use mathlib.Core.Option
use aika.Common.HashMap.{HashMap, get}
use aika.Model.{IpAddr, FileDto, RegisterDtoV2}
use aika.Http.{AppError, bad_request, Result, ok, err}
use aika.Save.{Bytes}
use aika.Pin.{LruCache, check_pin, max_pin_attempts}
use aika.Pin.Attempts.{failures, check_pin_sound}
use aika.V2.{V2State}
use aika.V2.Prepare.{
  PrepareRequest, Claim, refused, unheard, waiting, claim, claim_slot, claim_session,
}

pub record RequestClientInfo : Type 0 where
  pub ip : IpAddr
  pub cert : Option Bytes

pub record PrepareUploadRequestDtoV2 : Type 0 where
  pub info : RegisterDtoV2
  pub files : HashMap String FileDto

abbrev pub web_upload_fingerprint_prefix : String
web_upload_fingerprint_prefix = "aika-web-upload:"

-- `fingerprint` hashes a certificate, as `fingerprint_from_cert_der` does.
abbrev pub cert_fingerprint : (Bytes → String) → RequestClientInfo → Option String
cert_fingerprint fingerprint client = Option.map fingerprint client.cert

abbrev pub behind_pin :
    {Cache : Type 0}
    → Result {0} Unit
    → (V2State Cache → Claim × V2State Cache)
    → V2State Cache
    → Claim × V2State Cache
behind_pin (ok _) rest v2 = rest v2
behind_pin (err e) rest v2 = (refused e, v2)

abbrev pub request_of :
    (Bytes → String) → RequestClientInfo → Option ℕ → PrepareUploadRequestDtoV2 → PrepareRequest
request_of fingerprint client app_build payload = record {
  sender_ip = client.ip;
  cert_fingerprint = cert_fingerprint fingerprint client;
  info = payload.info;
  offered_files = payload.files;
  app_build = app_build;
}

module _ {Cache : Type 0} ⦃lru : LruCache Cache⦄ (fingerprint : Bytes → String) where
  -- The part behind the PIN: the body, the reserved fingerprints, and the claim.
  abbrev pub prepare_body :
      ℕ
      → String
      → RequestClientInfo
      → Option ℕ
      → Result PrepareUploadRequestDtoV2
      → V2State Cache
      → Claim × V2State Cache
  prepare_body now session_id client app_build (err e) v2 = (refused e, v2)
  prepare_body now session_id client app_build (ok payload) v2 =
      if starts_with payload.info.fingerprint web_upload_fingerprint_prefix
      then (refused (bad_request "Invalid fingerprint"), v2)
      else claim_session now session_id (request_of fingerprint client app_build payload) v2

  -- `meanwhile` is what others do to the state while the body arrives.
  unfoldable pub prepare_upload :
      ℕ
      → String
      → RequestClientInfo
      → Option ℕ
      → HashMap String String
      → Result PrepareUploadRequestDtoV2
      → (V2State Cache → V2State Cache)
      → V2State Cache
      → Claim × V2State Cache
  prepare_upload now session_id client app_build query payload meanwhile v2 =
      let (allowed, attempts) = check_pin v2.pin v2.pin_attempts query client.ip in
      behind_pin allowed
        (λ arrived. prepare_body now session_id client app_build payload (meanwhile arrived))
        (record v2 { pin_attempts = attempts })
