-- ===== src/Web/Upload/Waiting.antt =====
-- Which uploads of web clients reach the application, and as what: `prepare_upload` of
-- packages/core/src/http/server/web.rs.
use aika.Common.{
  ℕ, ◌≤◌, ◌≡◌, ◌≢◌, ◌↔◌, refl, sym, ap, ◌∙◌, inl, inr, String, true, false, Option, none, some,
  List, [], ◌∷◌, ◌++◌, length, All, is_empty, arith, Bool-cases, string_Eq,
}
use aika.Common.HashMap.{HashMap, get}
use aika.Model.{IpAddr, ip_Eq}
use aika.Http.{Result, ok, err, ◌>>=◌}
use aika.Session.{SessionStateV2}
use aika.V2.{V2State}
use aika.V2.Prepare.{refused, waiting, claim_slot, claim_session}
use aika.Web.{WebSendSession, WebPageState, has_session}
use aika.Web.Upload.{
  WebUploadFile, validate_web_upload_files, web_request, offer_files, upload_session,
  prepare_web_upload,
}
use aika.Save.{Bytes}
use aika.Pin.{LruCache}
use aika.V2.Endpoint.{RequestClientInfo, PrepareUploadRequestDtoV2, web_upload_fingerprint_prefix}
use aika.V2
use aika.V2.Endpoint.Gate.{prepare_upload_sound}
use aika.Web.Access.{is_valid_iff}
use aika.V2.Replaceable.{MayBeTaken, claim_slot_iff}
use aika.V2.Claimed.{claim_session_iff, claim_offered}
use text.Mathlib.Text.{starts_with}
use text.Mathlib.TextPositions.{starts_with-append}
use aika.V2.{ServerEventV2, prepare_upload, session_end, cancelled}
use aika.Web.Upload.{web_info, web_fingerprint}
use aika.Web.Upload.Announced.{IsAnnounced, dtos, IsOffer, validate_web_upload_files-Checks}

dtos-full :
    (files : HashMap String WebUploadFile) → 1 ≤ length files → is_empty (dtos files) ≡ false
dtos-full [] h = ground (arith, h)
dtos-full (entry ∷ files) h = refl

-- What a web client's upload needs to reach the application.
pub record IsWebUpload {Cache : Type 0} (now : ℕ) (ip : IpAddr) (sent : Option String)
    (payload : Result (HashMap String WebUploadFile)) (web : WebPageState Cache)
    (v2 : V2State Cache) : Type 0 where
  pub session_id : String
  pub sent_session : sent ≡ some session_id
  pub session : WebSendSession
  pub stands : get session_id web.sessions ≡ some session
  pub accepted : session.accepted ≡ true
  pub same_ip : session.ip ≡ ip
  pub files : HashMap String WebUploadFile
  pub parsed : payload ≡ ok files
  pub offer : IsOffer files
  pub slot : MayBeTaken now v2.session
  pub listening : v2.listening ≡ true

module _ {Cache : Type 0} (now : ℕ) (new_id : String) (ip : IpAddr) (v2 : V2State Cache) where
  offer_files_forth :
      (session_id : String) (payload : Result (HashMap String WebUploadFile))
      → (offer_files now new_id ip session_id (payload >>= validate_web_upload_files) v2).0
        ≡ waiting
      → (files : HashMap String WebUploadFile) × (payload ≡ ok files)
        × IsOffer files
        × ((claim_session now new_id (web_request ip session_id (dtos files)) v2).0 ≡ waiting)
        × (offer_files now new_id ip session_id (payload >>= validate_web_upload_files) v2
            ≡ claim_session now new_id (web_request ip session_id (dtos files)) v2)
  offer_files_forth session_id (err e) h = absurd (ground (arith, h))
  offer_files_forth session_id (ok files) h = elim (validate_web_upload_files-Checks files) [
    | inl (offer, passed) ↦ (files, refl, offer, sym (rw passed refl) ∙ h, rw passed refl)
    | inr (never, (e, failed)) ↦
        let not_waiting : refused e ≡ waiting = sym (rw failed refl) ∙ h in
        absurd (ground (arith, not_waiting))
  ]

  upload_session_forth :
      (sent : Option String) (payload : Result (HashMap String WebUploadFile))
      (web : WebPageState Cache)
      → (upload_session now new_id ip sent payload web v2).0 ≡ waiting
      → (w : IsWebUpload now ip sent payload web v2) × (upload_session now new_id ip sent payload
            web v2
          ≡ claim_session now new_id (web_request ip w.session_id (dtos w.files)) v2)
        × ((claim_session now new_id (web_request ip w.session_id (dtos w.files)) v2).0 ≡ waiting)
  upload_session_forth none payload web h = absurd (ground (arith, h))
  upload_session_forth (some session_id) payload web h =
      elim (Bool-cases (has_session session_id ip web)) [
        | inl known ↦
            let (session, stands, on, at) =
              (is_valid_iff ip (get session_id web.sessions)).0 known in
            let (files, parsed, offer, claimed, same) =
              offer_files_forth session_id payload (sym (rw known refl) ∙ h) in
            let (offered, slot, listening) = (claim_session_iff now new_id _ v2).0 claimed in
            (
              record {
                session_id = session_id;
                sent_session = refl;
                session = session;
                stands = stands;
                accepted = on;
                same_ip = at;
                files = files;
                parsed = parsed;
                offer = offer;
                slot = (claim_slot_iff now v2.session).0 slot;
                listening = listening;
              },
              rw known same,
              claimed,
            )
        | inr unknown ↦ absurd (ground (arith, h, unknown))
      ]

  upload_session_back :
      (sent : Option String) (payload : Result (HashMap String WebUploadFile))
      (web : WebPageState Cache)
      → IsWebUpload now ip sent payload web v2
      → (upload_session now new_id ip sent payload web v2).0 ≡ waiting
  upload_session_back sent payload web w =
      let known : has_session w.session_id ip web ≡ true =
        (is_valid_iff ip (get w.session_id web.sessions)).1
          (w.session, w.stands, w.accepted, w.same_ip) in
      let claimed =
        (claim_session_iff now new_id (web_request ip w.session_id (dtos w.files)) v2).1
          (dtos-full w.files w.offer.0, (claim_slot_iff now v2.session).1 w.slot, w.listening) in
      elim (validate_web_upload_files-Checks w.files) [
        | inl (offer, passed) ↦ rw (w.sent_session, known, w.parsed, passed) claimed
        | inr (never, h) ↦ absurd (never w.offer)
      ]

module _ {Cache : Type 0} (now : ℕ) (new_id : String) (ip : IpAddr) (query : HashMap String String)
    (payload : Result (HashMap String WebUploadFile)) where
  -- Where both the web page and uploads are enabled, a web client's request to upload is passed on
  -- to the application exactly when its query names a session that the application has accepted
  -- from the same address, its body can be read, it announces between one and 500 files, each
  -- under a key that is its own ID, a text of one to 128 bytes without control characters, and
  -- with a name that is not blank, not a dot or two, at most 255 bytes long and without separators
  -- and control characters, the slot is empty or its session is given up (no file is being
  -- received, and the sender has been silent for a minute), and the application listens.
  pub IsWebUpload-iff :
      (web : WebPageState Cache) (v2 : V2State Cache)
      → ((prepare_web_upload now new_id ip query payload (some web) (some v2)).0 ≡ waiting)
        ↔ IsWebUpload now ip (get "sessionId" query) payload web v2
  unfolding prepare_web_upload
  IsWebUpload-iff web v2 =
      let sent = get "sessionId" query in
      (
        λ h. (upload_session_forth now new_id ip v2 sent payload web h).0,
        upload_session_back now new_id ip v2 sent payload web,
      )

  -- A web client's request to upload that waits for the application has sent, as its last event,
  -- the announced files and the fingerprint made of its web session, with no certificate, and
  -- holds the upload slot. Every announced file stands under its own ID, which is a short text,
  -- and has a name that is a single part of a path.
  pub web_upload_offered :
      (web : Option (WebPageState Cache)) (v2 : Option (V2State Cache))
      → (prepare_web_upload now new_id ip query payload web v2).0 ≡ waiting
      → (session_id : String) × (files : HashMap String WebUploadFile) × (before : List
          ServerEventV2)
        × (after : V2State Cache) × ((prepare_web_upload now new_id ip query payload web v2).1
            ≡ some after)
        × (get "sessionId" query ≡ some session_id)
        × (payload ≡ ok files)
        × All (λ entry. IsAnnounced entry.0 entry.1) files
        × (after.events
            ≡ before ++ prepare_upload new_id ip (web_info session_id) none (dtos files) ∷ [])
        × (after.session ≡ some SessionStateV2.pending)
  unfolding prepare_web_upload claim_session
  web_upload_offered none v2 h = absurd (ground (arith, h))
  web_upload_offered (some web) none h = absurd (ground (arith, h))
  web_upload_offered (some web) (some v2) h =
      let (w, same, claimed) =
        upload_session_forth now new_id ip v2 (get "sessionId" query) payload web h in
      let req = web_request ip w.session_id (dtos w.files) in
      let offered = dtos-full w.files w.offer.0 in
      let ((before, event), pending) =
        claim_offered new_id req (claim_slot now v2.session) v2 (sym (rw offered refl) ∙ claimed) in
      (
        w.session_id,
        w.files,
        before,
        (claim_session now new_id req v2).1,
        ap (λ r. some r.1) same,
        w.sent_session,
        w.parsed,
        w.offer.2,
        rw offered event,
        rw offered pending,
      )

-- A web client's fingerprint is no peer's: no request of a peer with it reaches the application.
peer_apart :
    {Cache : Type 0} ⦃lru : LruCache Cache⦄ (fingerprint : Bytes → String) (now : ℕ)
    (new_id : String) (client : RequestClientInfo) (app_build : Option ℕ)
    (query : HashMap String String) (dto : PrepareUploadRequestDtoV2)
    (meanwhile : V2State Cache → V2State Cache) (v2 : V2State Cache) (session_id : String)
    → (V2.Endpoint.prepare_upload fingerprint now new_id client app_build query
        (ok dto)
        meanwhile
        v2).0
      ≡ waiting
    → dto.info.fingerprint ≢ web_fingerprint session_id
peer_apart fingerprint now new_id client app_build query dto meanwhile v2 session_id h same =
    let (dto_sent, same_dto, let_in, _) =
      prepare_upload_sound fingerprint now new_id client app_build query (ok dto) meanwhile v2 h in
    let itself : dto ≡ dto_sent = cc in
    let reserved : starts_with dto.info.fingerprint web_upload_fingerprint_prefix ≡ true =
      ap (λ f. starts_with f web_upload_fingerprint_prefix) same
      ∙ starts_with-append web_upload_fingerprint_prefix session_id in
    let free : starts_with dto.info.fingerprint web_upload_fingerprint_prefix ≡ false =
      ap (λ d. starts_with d.info.fingerprint web_upload_fingerprint_prefix) itself
      ∙ let_in.not_reserved in
    absurd (ground (arith, sym reserved ∙ free))
