-- ===== src/V2/Endpoint/Tests.antt =====
-- Runs of `prepare_upload` of packages/core/src/http/server/v2.rs.
use aika.Common.{ℕ, ◌≡◌, refl, String, true, false, none, some, [], ◌∷◌, string_Eq}
use aika.Common.HashMap.{HashMap, get}
use aika.Model.{IpAddr, v4, ip_Eq, http}
use aika.Http.{ok}
use aika.Session.{SessionStateV2}
use aika.Pin.{check_pin, compare_pin, invalid_pin}
use aika.V2.{V2State}
use aika.V2.Prepare.{Claim, refused, waiting, claim_session, claim_slot}
use aika.V2.Endpoint.{RequestClientInfo, PrepareUploadRequestDtoV2, prepare_upload}
use aika.V2.Endpoint.Gate.{IsLetIn, checked, Leaves, prepare_upload_sound, prepare_upload_refused}
use aika.Pin.Table.{table}

abbrev offer : PrepareUploadRequestDtoV2
offer = record {
  info = record {
    alias = "Phone";
    version = "2.1";
    device_model = none;
    device_type = none;
    fingerprint = "f";
    port = 53317;
    protocol = http;
    download = false;
    app_build = none;
  };
  files =
      (
        "a",
        record {
          id = "a";
          file_name = "a.jpg";
          size = 3;
          file_type = "image/jpeg";
          sha256 = none;
          preview = none;
          metadata = none;
        },
      )
      ∷ [];
}

abbrev client : RequestClientInfo
client = record { ip = v4 7; cert = none }

abbrev guarded : V2State (HashMap IpAddr ℕ)
guarded = record {
  pin = some "42";
  events = [];
  listening = true;
  session = none;
  pin_attempts = [];
}

abbrev pin_is : String → HashMap String String
pin_is pin = ("pin", pin) ∷ []

abbrev run : String → Claim × V2State (HashMap IpAddr ℕ)
run pin =
    prepare_upload (λ der. "hash") 0 "s" client none (pin_is pin) (ok offer) (λ v2. v2) guarded

let_in : (run "42").0 ≡ waiting
unfolding prepare_upload check_pin compare_pin claim_session claim_slot get
let_in = refl

wrong_pin : (run "41").0 ≡ refused invalid_pin
unfolding prepare_upload check_pin compare_pin claim_session claim_slot get
wrong_pin = refl

prepare_upload_sound_example :
    (dto : PrepareUploadRequestDtoV2) × (ok offer ≡ ok dto)
    × IsLetIn 0 client
        (pin_is "42")
        dto
        guarded
        (checked (λ der. "hash") 0 "s" client none (pin_is "42") guarded)
    × ((run "42").1.session ≡ some SessionStateV2.pending)
prepare_upload_sound_example =
    prepare_upload_sound (λ der. "hash") 0 "s" client none (pin_is "42") (ok offer) (λ v2. v2)
      guarded let_in

prepare_upload_refused_example :
    Leaves
      (λ der. "hash")
      0
      "s"
      client
      none
      (pin_is "41")
      (check_pin (some "42") guarded.pin_attempts (pin_is "41") (v4 7)).0
      (λ v2. v2)
      (checked (λ der. "hash") 0 "s" client none (pin_is "41") guarded)
      (run "41").1
prepare_upload_refused_example =
    prepare_upload_refused (λ der. "hash") 0 "s" client none (pin_is "41") (ok offer) (λ v2. v2)
      guarded invalid_pin wrong_pin
