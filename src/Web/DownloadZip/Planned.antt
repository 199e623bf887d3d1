-- ===== src/Web/DownloadZip/Planned.antt =====
-- What a ZIP request that is answered has shown, and the archive that it gets: `download_zip` of
-- packages/core/src/http/server/web.rs.
use aika.Common.{ℕ, ◌≤◌, ◌≡◌, true, String, Option, some, List, map, length, string_Eq, Text}
use aika.Common.HashMap.{HashMap, get}
use aika.Model.{IpAddr, FileDto}
use aika.Http.{Result, ok}
use aika.Zip.{ZipPlan, new}
use aika.Zip.Names.Distinct.{Distinct}
use aika.Web.{WebSendSession, WebPageState}
use aika.Web.DownloadZip.{entries_of}
use aika.Web.DownloadZip.Ids.{AreAsked}
use aika.Web.DownloadZip.Chosen.{AreFound}

pub record IsZip {Cache : Type 0} (to_lowercase : Text → Text) (unix_secs : ℕ)
    (sent : Option String) (ip : IpAddr) (form : Result (Option Text)) (web : WebPageState Cache)
    (chosen : HashMap String FileDto) (plan : Option ZipPlan) : Type 0 where
  pub session_id : String
  pub sent_id : sent ≡ some session_id
  pub session : WebSendSession
  pub stands : get session_id web.sessions ≡ some session
  pub accepted : session.accepted ≡ true
  pub same_ip : session.ip ≡ ip
  pub text : Text
  pub parsed : form ≡ ok (some text)
  pub ids : List Text
  pub asked : AreAsked text ids
  pub some_ids : 1 ≤ length ids
  pub few_ids : length ids ≤ 10000
  pub found : AreFound web.files ids chosen
  pub names : List Text
  pub planned : plan ≡ some (new (entries_of names chosen) unix_secs)
  pub sizes : map (λ e. e.size) (entries_of names chosen) ≡ map (λ c. c.1.size) chosen
  pub all_named : length names ≡ length chosen
  pub distinct_names : Distinct (map to_lowercase names)

abbrev with_plan {ℓ} : {B C : Type ℓ} → (B → C) → B → Result (B × C)
with_plan plan chosen = ok (chosen, plan chosen)
