-- ===== src/Web/Upload/Tests.antt =====
-- Runs of the uploads of web clients: packages/core/src/http/server/web.rs.
use aika.Common.{subst, ◌⊎◌, ℕ, ◌≡◌, ◌↔◌, refl, String, true, false, none, some, [], ◌∷◌, string_Eq}
use aika.Common.HashMap.{HashMap, get}
use aika.Model.{IpAddr, v4, ip_Eq}
use aika.Http.{AppError, bad_request, Result, ok, err}
use aika.V2.{V2State}
use aika.V2.Prepare.{PrepareRequest, refused, waiting, claim_session}
use aika.Web.{WebPageState}
use aika.Web.Upload.{
  WebUploadFile, is_valid_upload_file_name, validate_web_upload_files, prepare_web_upload,
}
use aika.V2.World.{World, prepare, step}
use aika.V2.World.Files.{Distinct}
use aika.V2.World.Reachable.{Reachable, starts}
use aika.Web.Upload.InWorld.{IsOfSession, web_upload_in_world}
use aika.Web.DownloadZip.Chosen.{ok_injective}
use aika.Web.Upload.Waiting.{IsWebUpload, IsWebUpload-iff}

upwards_refused : is_valid_upload_file_name "../etc/passwd" ≡ false
unfolding is_valid_upload_file_name
upwards_refused = refl

blank_refused : is_valid_upload_file_name "  " ≡ false
unfolding is_valid_upload_file_name
blank_refused = refl

abbrev notes : WebUploadFile
notes = record {
  id = "a";
  file_name = "notes.txt";
  size = 3;
  file_type = some "text/plain";
  modified = none;
}

-- A file that does not stand under its own ID.
other_key : validate_web_upload_files (("b", notes) ∷ []) ≡ err (bad_request "Invalid file id.")
unfolding validate_web_upload_files
other_key = refl

abbrev page : WebPageState (HashMap IpAddr ℕ)
page = record {
  files = [];
  pin = none;
  events = [];
  listening = true;
  sessions = ("s", record { ip = v4 7; accepted = true }) ∷ [];
  pin_attempts = [];
}

abbrev idle : V2State (HashMap IpAddr ℕ)
idle = record { pin = none; events = []; listening = true; session = none; pin_attempts = [] }

abbrev in_session : HashMap String String
in_session = ("sessionId", "s") ∷ []

abbrev payload : Result (HashMap String WebUploadFile)
payload = ok (("a", notes) ∷ [])

asks_application :
    (prepare_web_upload 0 "u" (v4 7) in_session payload (some page) (some idle)).0 ≡ waiting
unfolding prepare_web_upload
asks_application = refl

IsWebUpload-iff_example :
    ((prepare_web_upload 0 "u" (v4 7) in_session payload (some page) (some idle)).0 ≡ waiting)
    ↔ IsWebUpload 0 (v4 7) (get "sessionId" in_session) payload page idle
IsWebUpload-iff_example = IsWebUpload-iff 0 "u" (v4 7) in_session payload page idle

abbrev idle_world : World (HashMap IpAddr ℕ)
idle_world = record { v2 = idle; tasks = [] }

abbrev one_upload : HashMap String WebUploadFile
one_upload = ("a", notes) ∷ []

payload-Distinct : (files : HashMap String WebUploadFile) → payload ≡ ok files → Distinct files
unfolding get
payload-Distinct files e = subst Distinct (ok_injective one_upload files e) (refl, tt)

web_upload_in_world_example :
    ((e : AppError) × (prepare_web_upload 0 "u" (v4 7) in_session payload (some page) (some idle)
        ≡ (refused e, some idle)))
    ⊎ ((req : PrepareRequest) × IsOfSession
          (v4 7)
          (get "sessionId" in_session)
          payload
          (some page)
          req
        × (prepare_web_upload 0 "u" (v4 7) in_session payload (some page) (some idle)
            ≡ ((claim_session 0 "u" req idle).0, some (step (prepare 0 "u" req) idle_world).v2))
        × Reachable (step (prepare 0 "u" req) idle_world))
web_upload_in_world_example =
    web_upload_in_world 0 "u" (v4 7) payload in_session (some page) idle_world
      (starts idle_world refl refl) (λ file_id. refl) payload-Distinct
