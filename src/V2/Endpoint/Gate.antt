-- ===== src/V2/Endpoint/Gate.antt =====
-- Which requests get through `prepare_upload` of packages/core/src/http/server/v2.rs.
use aika.Common.{
  ℕ, ◌<◌, ◌≡◌, ◌∙◌, ◌⊎◌, inl, inr, refl, sym, ap, String, false, Option, none, some, is_empty,
  arith, string_Eq, Bool-cases,
}
use text.Mathlib.Text.{starts_with}
use aika.Common.HashMap.{HashMap, get}
use aika.Http.{AppError, Result, ok, err}
use aika.Save.{Bytes}
use aika.Session.{SessionStateV2}
use aika.Pin.{LruCache, check_pin, max_pin_attempts}
use aika.Pin.Attempts.{failures, check_pin_sound}
use aika.V2.{V2State}
use aika.V2.Prepare.{PrepareRequest, Claim, refused, waiting, claim, claim_slot, claim_session}
use aika.V2.Replaceable.{MayBeTaken, claim_slot_iff}
use aika.V2.Endpoint.{
  RequestClientInfo, PrepareUploadRequestDtoV2, web_upload_fingerprint_prefix, request_of,
  prepare_body, behind_pin, prepare_upload,
}

claim_waiting :
    {Cache : Type 0} (session_id : String) (req : PrepareRequest) (o : Option (Option String))
    (v2 : V2State Cache)
    → (claim session_id req o v2).0 ≡ waiting
    → ((a : Option String) × (o ≡ some a))
      × ((claim session_id req o v2).1.session ≡ some SessionStateV2.pending)
claim_waiting session_id req none v2 e = absurd (ground arith)
claim_waiting session_id req (some none) v2 e = ((none, refl), ground arith)
claim_waiting session_id req (some (some old)) v2 e = ((some old, refl), ground arith)

claim_refused :
    {Cache : Type 0} (session_id : String) (req : PrepareRequest) (o : Option (Option String))
    (v2 : V2State Cache) (why : AppError)
    → (claim session_id req o v2).0 ≡ refused why
    → (claim session_id req o v2).1 ≡ v2
claim_refused session_id req none v2 why e = refl
claim_refused session_id req (some none) v2 why e = absurd (ground arith)
claim_refused session_id req (some (some old)) v2 why e = absurd (ground arith)

claim_session_waiting :
    {Cache : Type 0} (now : ℕ) (session_id : String) (req : PrepareRequest) (v2 : V2State Cache)
    → (claim_session now session_id req v2).0 ≡ waiting
    → (is_empty req.offered_files ≡ false)
      × ((abandoned : Option String) × (claim_slot now v2.session ≡ some abandoned))
      × ((claim_session now session_id req v2).1.session ≡ some SessionStateV2.pending)
unfolding claim_session
claim_session_waiting now session_id req v2 e = elim (Bool-cases (is_empty req.offered_files)) [
  | inl empty ↦ absurd (ground (arith, empty, e))
  | inr offered ↦
      let claimed : (claim session_id req (claim_slot now v2.session) v2).0 ≡ waiting =
        sym (rw offered refl) ∙ e in
      let (slot, now_pending) =
        claim_waiting session_id req (claim_slot now v2.session) v2 claimed in
      (offered, slot, rw offered now_pending)
]

claim_session_refused :
    {Cache : Type 0} (now : ℕ) (session_id : String) (req : PrepareRequest) (v2 : V2State Cache)
    (why : AppError)
    → (claim_session now session_id req v2).0 ≡ refused why
    → (claim_session now session_id req v2).1 ≡ v2
unfolding claim_session
claim_session_refused now session_id req v2 why e = elim (Bool-cases (is_empty req.offered_files)) [
  | inl empty ↦ rw empty refl
  | inr offered ↦
      let claimed : (claim session_id req (claim_slot now v2.session) v2).0 ≡ refused why =
        sym (rw offered refl) ∙ e in
      rw offered (claim_refused session_id req (claim_slot now v2.session) v2 why claimed)
]

-- What a request that reached the application has shown.
pub record IsLetIn {Cache : Type 0} ⦃lru : LruCache Cache⦄ (now : ℕ) (client : RequestClientInfo)
    (query : HashMap String String) (dto : PrepareUploadRequestDtoV2) (v2 arrived : V2State Cache)
    : Type 0 where
  pub pin :
      (v2.pin ≡ none)
      ⊎ ((pin : String) × (v2.pin ≡ some pin)
          × (get "pin" query ≡ some pin)
          × (failures client.ip v2.pin_attempts < 3))
  pub not_reserved : starts_with dto.info.fingerprint "aika-web-upload:" ≡ false
  pub offers : is_empty dto.files ≡ false
  pub slot : MayBeTaken now arrived.session

module _ {Cache : Type 0} ⦃lru : LruCache Cache⦄ (fingerprint : Bytes → String) (now : ℕ)
    (session_id : String) (client : RequestClientInfo) (app_build : Option ℕ)
    (query : HashMap String String) where
  pin_shown :
      (required : Option String) (attempts : Cache)
      → (check_pin required attempts query client.ip).0 ≡ ok tt
      → (required ≡ none)
        ⊎ ((pin : String) × (required ≡ some pin)
            × (get "pin" query ≡ some pin)
            × (failures client.ip attempts < max_pin_attempts))
  pin_shown none attempts e = inl refl
  pin_shown (some pin) attempts e =
      let (sent, below) = check_pin_sound pin attempts query client.ip e in
      inr (pin, refl, sent, below)

  prepare_body_waiting :
      (payload : Result PrepareUploadRequestDtoV2) (v2 : V2State Cache)
      → (prepare_body fingerprint now session_id client app_build payload v2).0 ≡ waiting
      → (dto : PrepareUploadRequestDtoV2) × (payload ≡ ok dto)
        × (starts_with dto.info.fingerprint web_upload_fingerprint_prefix ≡ false)
        × (is_empty dto.files ≡ false)
        × ((abandoned : Option String) × (claim_slot now v2.session ≡ some abandoned))
        × ((prepare_body fingerprint now session_id client app_build payload v2).1.session
            ≡ some SessionStateV2.pending)
  prepare_body_waiting (err e) v2 h = absurd (ground (arith, h))
  prepare_body_waiting (ok dto) v2 h =
      elim (Bool-cases (starts_with dto.info.fingerprint web_upload_fingerprint_prefix)) [
        | inl reserved ↦ absurd (ground (arith, reserved, h))
        | inr free ↦
            let claimed : (claim_session now session_id
                  (request_of fingerprint client app_build dto) v2).0
                ≡ waiting =
              sym (rw free refl) ∙ h in
            let (offered, slot, now_pending) =
              claim_session_waiting now session_id (request_of fingerprint client app_build dto) v2
                claimed in
            (dto, refl, free, offered, slot, rw free now_pending)
      ]

  prepare_body_refused :
      (payload : Result PrepareUploadRequestDtoV2) (v2 : V2State Cache) (why : AppError)
      → (prepare_body fingerprint now session_id client app_build payload v2).0 ≡ refused why
      → (prepare_body fingerprint now session_id client app_build payload v2).1 ≡ v2
  prepare_body_refused (err e) v2 why h = refl
  prepare_body_refused (ok dto) v2 why h =
      elim (Bool-cases (starts_with dto.info.fingerprint web_upload_fingerprint_prefix)) [
        | inl reserved ↦ rw reserved refl
        | inr free ↦
            let claimed : (claim_session now session_id
                  (request_of fingerprint client app_build dto) v2).0
                ≡ refused why =
              sym (rw free refl) ∙ h in
            rw free (
              claim_session_refused now session_id (request_of fingerprint client app_build dto) v2
                why claimed)
      ]

  behind_pin_waiting :
      (allowed : Result {0} Unit) (rest : V2State Cache → Claim × V2State Cache)
      (v2 : V2State Cache)
      → (behind_pin allowed rest v2).0 ≡ waiting
      → (allowed ≡ ok tt) × (behind_pin allowed rest v2 ≡ rest v2)
  behind_pin_waiting (ok u) rest v2 e = (refl, refl)
  behind_pin_waiting (err why) rest v2 e = absurd (ground arith)

  -- The state behind the check of the PIN.
  abbrev pub checked : V2State Cache → V2State Cache
  checked v2 = record v2 { pin_attempts = (check_pin v2.pin v2.pin_attempts query client.ip).1 }

  -- A prepare-upload request is passed on to the application only if it shows the PIN, where one
  -- is required, with fewer than three failures on record, its fingerprint is not reserved for web
  -- uploads, it offers files, and, at the time when its body has arrived, the slot is empty or
  -- holds a session of which no file is being received and whose sender has been silent for a
  -- minute; then the slot is Pending.
  pub prepare_upload_sound :
      (payload : Result PrepareUploadRequestDtoV2) (meanwhile : V2State Cache → V2State Cache)
      (v2 : V2State Cache)
      → (prepare_upload fingerprint now session_id client app_build query payload meanwhile v2).0
        ≡ waiting
      → (dto : PrepareUploadRequestDtoV2) × (payload ≡ ok dto)
        × IsLetIn now client query dto v2 (meanwhile (checked v2))
        × ((prepare_upload fingerprint now session_id client app_build query payload meanwhile
              v2).1.session
            ≡ some SessionStateV2.pending)
  unfolding prepare_upload
  prepare_upload_sound payload meanwhile v2 e =
      let answer = (check_pin v2.pin v2.pin_attempts query client.ip).0 in
      let (allowed, same) =
        behind_pin_waiting answer
          (λ arrived.
            prepare_body fingerprint now session_id client app_build payload (meanwhile arrived))
          (checked v2) e in
      let body = sym (ap (λ r. r.0) same) ∙ e in
      let (dto, parsed, free, offered, slot, now_pending) =
        prepare_body_waiting payload (meanwhile (checked v2)) body in
      (
        dto,
        parsed,
        record {
          pin = pin_shown v2.pin v2.pin_attempts allowed;
          not_reserved = free;
          offers = offered;
          slot = (claim_slot_iff now (meanwhile (checked v2)).session).0 slot;
        },
        ap (λ r. r.1.session) same ∙ now_pending,
      )

  -- What a refusal leaves: the state behind the check of the PIN, if that failed, and otherwise
  -- what others have made of it meanwhile.
  abbrev pub Leaves :
      Result {0} Unit → (V2State Cache → V2State Cache) → V2State Cache → V2State Cache → Type 0
  Leaves (err _) meanwhile v2 after = after ≡ v2
  Leaves (ok _) meanwhile v2 after = after ≡ meanwhile v2

  behind_pin_refused :
      (allowed : Result {0} Unit) (payload : Result PrepareUploadRequestDtoV2)
      (meanwhile : V2State Cache → V2State Cache) (v2 : V2State Cache) (why : AppError)
      → let r =
          behind_pin allowed
            (λ arrived.
              prepare_body fingerprint now session_id client app_build payload (meanwhile arrived))
            v2 in
        r.0 ≡ refused why → Leaves allowed meanwhile v2 r.1
  behind_pin_refused (ok u) payload meanwhile v2 why e =
      prepare_body_refused payload (meanwhile v2) why e
  behind_pin_refused (err _) payload meanwhile v2 why e = refl

  -- A prepare-upload request that is refused before the application hears of it sends no event,
  -- leaves the slot as it was, and changes at most the failures on record: the state is then the
  -- one with the failures that the PIN check leaves, and, where the PIN passed and the body was
  -- awaited, what others have made of it meanwhile.
  pub prepare_upload_refused :
      (payload : Result PrepareUploadRequestDtoV2) (meanwhile : V2State Cache → V2State Cache)
      (v2 : V2State Cache) (why : AppError)
      → (prepare_upload fingerprint now session_id client app_build query payload meanwhile v2).0
        ≡ refused why
      → Leaves
          (check_pin v2.pin v2.pin_attempts query client.ip).0
          meanwhile
          (checked v2)
          (prepare_upload fingerprint now session_id client app_build query payload meanwhile v2).1
  unfolding prepare_upload
  prepare_upload_refused payload meanwhile v2 why e =
      behind_pin_refused (check_pin v2.pin v2.pin_attempts query client.ip).0 payload meanwhile
        (checked v2) why e
