-- ===== src/Web/Tests.antt =====
-- Runs of the web share sessions: packages/core/src/http/server/web.rs.
use aika.Common.{ℕ, ◌≡◌, refl, String, true, false, none, some, [], ◌∷◌, string_Eq}
use aika.Common.HashMap.{HashMap, get, insert, remove, modify}
use aika.Model.{IpAddr, v4, v6, ip_Eq, FileDto}
use aika.Http.{ok, err, message}
use aika.Pin.{check_pin}
use aika.Pin.Table.{table}
use aika.Web.{visit, settle, download, clear_pending_session}
use aika.Web.World.{WebWorld, visits, decide, step}
use aika.Web.Declined.{accepted_after_declined}
use aika.Web.Granted.{is_granted, Reachable, starts, acts, download_sound}

abbrev photo : FileDto
photo = record {
  id = "a";
  file_name = "a.jpg";
  size = 3;
  file_type = "image/jpeg";
  sha256 = none;
  preview = none;
  metadata = none;
}

abbrev text_of : IpAddr → String
text_of (v4 n) = "10.0.0.7"
text_of (v6 n) = "fe80::7"

abbrev shared : WebWorld (HashMap IpAddr ℕ)
shared = record {
  web = record {
    files = ("a", photo) ∷ [];
    pin = none;
    events = [];
    listening = true;
    sessions = [];
    pin_attempts = [];
  };
  tasks = [];
  granted = [];
}

abbrev asked : WebWorld (HashMap IpAddr ℕ)
asked = step text_of (visits (v4 7) none []) shared

abbrev accepted : WebWorld (HashMap IpAddr ℕ)
accepted = step text_of (decide 0 (some true)) asked

abbrev query : HashMap String String
query = ("sessionId", "10.0.0.7") ∷ ("fileId", "a") ∷ []

accepted-Reachable : Reachable text_of accepted
accepted-Reachable =
    acts (decide 0 (some true)) asked (acts (visits (v4 7) none []) shared (starts shared refl))

downloads : (download query (v4 7) accepted.web).0 ≡ ok photo
unfolding step visit check_pin settle download get insert remove modify
downloads = refl

download_sound_example :
    (session_id : String) × (file_id : String) × (get "sessionId" query ≡ some session_id)
    × (get "fileId" query ≡ some file_id)
    × (text_of (v4 7) ≡ session_id)
    × (is_granted session_id accepted.granted ≡ true)
    × (get file_id accepted.web.files ≡ some photo)
download_sound_example =
    download_sound text_of accepted query (v4 7) photo accepted-Reachable downloads

-- Two requests of one client wait; the application declines the first and accepts the second.
abbrev declined_then_accepted : WebWorld (HashMap IpAddr ℕ)
declined_then_accepted =
    step text_of (decide 0 (some true))
      (step text_of (decide 0 (some false)) (step text_of (visits (v4 7) none []) asked))

accepted_in_vain :
    (download query (v4 7) declined_then_accepted.web).0 ≡ err (message 403 "Invalid sessionId.")
unfolding step visit check_pin settle clear_pending_session download get insert remove modify
accepted_in_vain = refl

-- One of the two requests still waits.
asked-waits : get "10.0.0.7" asked.web.sessions ≡ some (record { ip = v4 7; accepted = false })
unfolding step visit check_pin get insert remove
asked-waits = refl

query-names : get "sessionId" query ≡ some "10.0.0.7"
unfolding get
query-names = refl

accepted_after_declined_example :
    ((settle (some true) "10.0.0.7" (settle (some false) "10.0.0.7" asked.web).2).0 ≡ ok "10.0.0.7")
    × ((download query
          (v4 7)
          (settle (some true) "10.0.0.7" (settle (some false) "10.0.0.7" asked.web).2).2).0
        ≡ err (message 403 "Invalid sessionId."))
accepted_after_declined_example =
    accepted_after_declined asked.web "10.0.0.7" (record { ip = v4 7; accepted = false }) (v4 7)
      query asked-waits refl query-names
