-- ===== src/Web/Upload/InWorld.antt =====
-- The uploads of web clients are among the actions of V2/World: `prepare_upload` of
-- packages/core/src/http/server/web.rs with `create_upload_session` of v2.rs.
use aika.Common.{
  subst, sym, ℕ, ◌≡◌, ◌⊎◌, refl, ap, inl, inr, true, String, Option, none, some, [], ◌∷◌, arith,
  Bool-cases, string_Eq,
}
use aika.Common.HashMap.{HashMap, get}
use aika.Model.{IpAddr}
use aika.Http.{AppError, bad_request, message, Result, ok, err}
use aika.V2.{V2State}
use aika.V2.Prepare.{PrepareRequest, refused, claim_session}
use aika.V2.World.{World, prepare, step}
use aika.V2.World.Counting.{total, transfers}
use aika.V2.World.Files.{Distinct}
use aika.V2.World.Reachable.{Reachable, acts}
use Prim.Native.String
use aika.Web.Access.{is_valid_iff}
use aika.Web.{WebSendSession, WebPageState, has_session}
use aika.Web.Upload.{WebUploadFile, web_request, upload_session, prepare_web_upload}
use aika.Web.Upload.Announced.{dtos, validate_web_upload_files-Checks}

get-dtos :
    (key : String) (files : HashMap String WebUploadFile)
    → get key files ≡ none
    → get key (dtos files) ≡ none
unfolding get
get-dtos key [] h = refl
get-dtos key ((j, file) ∷ files) h = ground (arith, h, get-dtos key files)

dtos-Distinct : (files : HashMap String WebUploadFile) → Distinct files → Distinct (dtos files)
dtos-Distinct [] d = tt
dtos-Distinct ((key, file) ∷ files) (new, d) = (get-dtos key files new, dtos-Distinct files d)

-- The request of a web client that is taken for one to the v2 endpoints.
pub record IsOfSession {Cache : Type 0} (ip : IpAddr) (sent : Option String)
    (payload : Result (HashMap String WebUploadFile)) (web : Option (WebPageState Cache))
    (req : PrepareRequest) : Type 0 where
  pub session_id : String
  pub sent_it : sent ≡ some session_id
  pub page : WebPageState Cache
  pub has_page : web ≡ some page
  pub session : WebSendSession
  pub stands : get session_id page.sessions ≡ some session
  pub accepted : session.accepted ≡ true
  pub same_ip : session.ip ≡ ip
  pub files : HashMap String WebUploadFile
  pub parsed : payload ≡ ok files
  pub offered : req.offered_files ≡ dtos files
  pub sender : req.sender_ip ≡ ip
  pub fingerprint : req.info.fingerprint ≡ String.◌++◌ "aika-web-upload:" session_id
  pub no_certificate : req.cert_fingerprint ≡ none

module _ {Cache : Type 0} (now : ℕ) (new_id : String) (ip : IpAddr)
    (payload : Result (HashMap String WebUploadFile)) where
  upload_session_claims :
      (sent : Option String) (web : WebPageState Cache) (v2 : V2State Cache)
      → ((e : AppError) × (upload_session now new_id ip sent payload web v2 ≡ (refused e, v2)))
        ⊎ ((req : PrepareRequest) × IsOfSession ip sent payload (some web) req
            × (upload_session now new_id ip sent payload web v2 ≡ claim_session now new_id req v2))
  upload_session_claims none web v2 = inl (bad_request "Missing sessionId.", refl)
  upload_session_claims (some session_id) web v2 =
      elim (Bool-cases (has_session session_id ip web)) [
        | inr unknown ↦ inl (message 403 "Invalid sessionId.", rw unknown refl)
        | inl known ↦ offered payload refl known
      ]
    where
      offered :
          (body : Result (HashMap String WebUploadFile))
          → payload ≡ body
          → has_session session_id ip web ≡ true
          → ((e : AppError) × (upload_session now new_id ip (some session_id) payload web v2
                ≡ (refused e, v2)))
            ⊎ ((req : PrepareRequest) × IsOfSession ip (some session_id) payload (some web) req
                × (upload_session now new_id ip (some session_id) payload web v2
                    ≡ claim_session now new_id req v2))
      offered (err e) same known = inl (e, rw (known, same) refl)
      offered (ok files) same known = elim (validate_web_upload_files-Checks files) [
        | inl (offer, passed) ↦
            let (session, stands, on, at) =
              (is_valid_iff ip (get session_id web.sessions)).0 known in
            inr (
              web_request ip session_id (dtos files),
              record {
                session_id = session_id;
                sent_it = refl;
                page = web;
                has_page = refl;
                session = session;
                stands = stands;
                accepted = on;
                same_ip = at;
                files = files;
                parsed = same;
                offered = refl;
                sender = refl;
                fingerprint = refl;
                no_certificate = refl;
              },
              rw (known, same, passed) refl,
            )
        | inr (never, (e, failed)) ↦ inl (e, rw (known, same, failed) refl)
      ]

  -- Where the v2 state exists, a web client's request to upload either is refused and leaves that
  -- state as it was, or its query names an accepted session of the page from the same address, and
  -- it does what the prepare request of a peer does in the world of the v2 endpoints, from that
  -- address, with the announced files, no certificate, and the fingerprint that is the reserved
  -- prefix followed by the ID of that web session; this leads to a reachable world again, in which
  -- all that is shown of those holds. The world is reachable, the new session ID is not that of a
  -- session whose transfers still run, and the announced files stand in a hash map.
  pub web_upload_in_world :
      (query : HashMap String String) (web : Option (WebPageState Cache)) (w : World Cache)
      → Reachable w
      → ((file_id : String) → total (transfers new_id file_id) w.tasks ≡ 0)
      → ((files : HashMap String WebUploadFile) → payload ≡ ok files → Distinct files)
      → ((e : AppError) × (prepare_web_upload now new_id ip query payload web (some w.v2)
            ≡ (refused e, some w.v2)))
        ⊎ ((req : PrepareRequest) × IsOfSession ip (get "sessionId" query) payload web req
            × (prepare_web_upload now new_id ip query payload web (some w.v2) ≡ (
              (claim_session now new_id req w.v2).0,
              some (step (prepare now new_id req) w).v2,
            ))
            × Reachable (step (prepare now new_id req) w))
  unfolding prepare_web_upload step claim_session
  web_upload_in_world query none w r fresh distinct =
      inl (message 403 "Web send not initialized.", refl)
  web_upload_in_world query (some web) w r fresh distinct =
      elim (upload_session_claims (get "sessionId" query) web w.v2) [
        | inl (e, same) ↦ inl (e, ap (λ c. (c.0, some c.1)) same)
        | inr (req, of, same) ↦
            let files =
              subst Distinct (sym of.offered)
                (dtos-Distinct of.files (distinct of.files of.parsed)) in
            inr (
              req,
              of,
              ap (λ c. (c.0, some c.1)) same,
              acts (prepare now new_id req) w r (fresh, files),
            )
      ]
