-- ===== src/Web/DownloadZip/Tests.antt =====
-- Runs of `download_zip` of packages/core/src/http/server/web.rs.
use aika.Common.{
  ℕ, ◌≡◌, refl, String, true, none, Option, some, [], ◌∷◌, map, Text, codes, string_Eq,
}
use aika.Common.HashMap.{HashMap}
use aika.Model.{IpAddr, v4, ip_Eq, FileDto}
use aika.Http.{Result, ok, err, message}
use aika.Zip.{ZipPlan, new}
use aika.Zip.Names.Ascii.{to_lower}
use aika.Web.{WebPageState}
use aika.Web.DownloadZip.{ids_of, download_zip}

-- Blanks around an ID, an ID twice, and an empty one.
ids_read : ids_of (some (codes "a, b ,a,,")) ≡ codes "a" ∷ codes "b" ∷ []
unfolding ids_of
ids_read = refl

abbrev note : String → FileDto
note id = record {
  id = id;
  file_name = "n.txt";
  size = 3;
  file_type = "text/plain";
  sha256 = none;
  preview = none;
  metadata = none;
}

abbrev page : WebPageState (HashMap IpAddr ℕ)
page = record {
  files = ("a", note "a") ∷ ("b", note "b") ∷ [];
  pin = none;
  events = [];
  listening = true;
  sessions = ("s", record { ip = v4 7; accepted = true }) ∷ [];
  pin_attempts = [];
}

abbrev in_session : HashMap String String
in_session = ("sessionId", "s") ∷ []

abbrev both : HashMap String FileDto
both = ("b", note "b") ∷ ("a", note "a") ∷ []

abbrev form : Result (Option Text)
form = ok (some (codes "b,a,b"))

-- The second of two files with one name gets another.
abbrev archive : ZipPlan
archive =
    new
      (record { name = codes "n.txt"; size = 3 }
        ∷ record { name = codes "n (2).txt"; size = 3 }
        ∷ [])
      0

not_offered :
    download_zip (map to_lower) 0 in_session (v4 7) (ok (some (codes "c"))) page
    ≡ err (message 403 "Invalid fileId.")
unfolding download_zip
not_offered = refl
