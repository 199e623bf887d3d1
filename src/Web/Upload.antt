-- ===== src/Web/Upload.antt =====
-- The uploads of web clients, `prepare_upload` of packages/core/src/http/server/web.rs, up to the
-- wait for the decision. The query and the JSON body come parsed.
pub mod Names
pub mod Announced
pub mod Waiting
pub mod InWorld
mod Tests
use aika.Common.{
  ℕ, Bool, true, false, not, ◌&&◌, ◌||◌, String, Option, none, some, List, [], ◌∷◌, ◌++◌, length,
  is_empty, any, ltb, leb, nat_eq, if◌then◌else◌, ◌==◌, string_Eq, Text, text_eq, codes, is_control,
  len, trim_start, trim_end, slash, backslash, full_stop,
}
use Prim.Native.String
use mathlib.Core.Option
use aika.Common.HashMap.{HashMap, get}
use aika.Model.{IpAddr, FileDto, FileMetadata, DeviceType, ProtocolTypeV2, RegisterDtoV2}
use aika.Http.{AppError, bad_request, message, Result, ok, err, ◌>>=◌}
use aika.V2.{V2State}
use aika.V2.Prepare.{PrepareRequest, Claim, refused, claim_session}
use aika.V2.Endpoint.{web_upload_fingerprint_prefix}
use aika.Web.{WebPageState, has_session}

pub record WebUploadFile : Type 0 where
  pub id : String
  pub file_name : String
  pub size : ℕ
  pub file_type : Option String
  pub modified : Option String

abbrev pub web_upload_max_files : ℕ
web_upload_max_files = 500

abbrev pub web_upload_max_file_name_bytes : ℕ
web_upload_max_file_name_bytes = 255

abbrev pub web_upload_max_field_len : ℕ
web_upload_max_field_len = 128

unfoldable pub is_short_text : Text → Bool
unfolding len
is_short_text text = leb (len text) web_upload_max_field_len && not (any is_control text)

unfoldable pub is_valid_field : String → Bool
unfolding is_short_text
is_valid_field value = let text = codes value in not (is_empty text) && is_short_text text

abbrev pub is_separator : ℕ → Bool
is_separator c = nat_eq c slash || nat_eq c backslash

-- The test on the characters of a name.
unfoldable pub is_file_name : Text → Bool
unfolding len trim_start trim_end
is_file_name name =
    not (is_empty (trim_end (trim_start name)))
    && (leb (len name) web_upload_max_file_name_bytes
        && (not (text_eq name (full_stop ∷ []))
            && (not (text_eq name (full_stop ∷ full_stop ∷ []))
                && (not (any is_separator name) && not (any is_control name)))))

unfoldable pub is_valid_upload_file_name : String → Bool
unfolding is_file_name
is_valid_upload_file_name name = is_file_name (codes name)

-- `Option::filter`.
abbrev pub filter {ℓ} : {A : Type ℓ} → (A → Bool) → Option A → Option A
filter p none = none
filter p (some a) = if p a then some a else none

abbrev pub or_octet_stream : Option String → String
or_octet_stream none = "application/octet-stream"
or_octet_stream (some file_type) = file_type

unfoldable pub dto_of : WebUploadFile → FileDto
unfolding is_valid_field is_short_text
dto_of file = record {
  id = file.id;
  file_name = file.file_name;
  size = file.size;
  file_type = or_octet_stream (filter is_valid_field file.file_type);
  sha256 = none;
  preview = none;
  metadata =
      Option.map (λ modified. record { modified = some modified; accessed = none })
        (filter (λ modified. is_short_text (codes modified)) file.modified);
}

-- One round of the `map`.
unfoldable pub validate_file : String → WebUploadFile → Result (String × FileDto)
unfolding is_valid_field is_valid_upload_file_name dto_of
validate_file key file =
    if key == file.id && is_valid_field file.id
    then (if is_valid_upload_file_name file.file_name
        then ok (key, dto_of file)
        else err (message 422 "Invalid file name."))
    else err (bad_request "Invalid file id.")

unfoldable pub validate_each : HashMap String WebUploadFile → Result (HashMap String FileDto)
unfolding validate_file
validate_each [] = ok []
validate_each ((key, file) ∷ files) =
    validate_file key file >>= (λ entry. validate_each files >>= (λ rest. ok (entry ∷ rest)))

unfoldable pub validate_web_upload_files :
    HashMap String WebUploadFile → Result (HashMap String FileDto)
unfolding validate_each
validate_web_upload_files files =
    if is_empty files
    then err (bad_request "No files provided")
    else (if ltb web_upload_max_files (length files)
        then err (message 413 "Too many files.")
        else validate_each files)

abbrev pub web_fingerprint : String → String
web_fingerprint session_id = String.◌++◌ web_upload_fingerprint_prefix session_id

abbrev pub web_info : String → RegisterDtoV2
web_info session_id = record {
  alias = "Web";
  version = "2.1";
  device_model = none;
  device_type = some DeviceType.web;
  fingerprint = web_fingerprint session_id;
  port = 0;
  protocol = ProtocolTypeV2.http;
  download = false;
  app_build = none;
}

abbrev pub web_request : IpAddr → String → HashMap String FileDto → PrepareRequest
web_request ip session_id files = record {
  sender_ip = ip;
  cert_fingerprint = none;
  info = web_info session_id;
  offered_files = files;
  app_build = none;
}

module _ {Cache : Type 0} where
  -- From the validation of the announced files on.
  abbrev pub offer_files :
      ℕ
      → String
      → IpAddr
      → String
      → Result (HashMap String FileDto)
      → V2State Cache
      → Claim × V2State Cache
  offer_files now new_id ip session_id (err e) v2 = (refused e, v2)
  offer_files now new_id ip session_id (ok files) v2 =
      claim_session now new_id (web_request ip session_id files) v2

  abbrev pub upload_session :
      ℕ
      → String
      → IpAddr
      → Option String
      → Result (HashMap String WebUploadFile)
      → WebPageState Cache
      → V2State Cache
      → Claim × V2State Cache
  upload_session now new_id ip none payload web v2 =
      (refused (bad_request "Missing sessionId."), v2)
  upload_session now new_id ip (some session_id) payload web v2 =
      if has_session session_id ip web
      then offer_files now new_id ip session_id (payload >>= validate_web_upload_files) v2
      else (refused (message 403 "Invalid sessionId."), v2)

  -- `new_id` is the fresh UUID of the upload session, `payload` the limited and parsed body.
  unfoldable pub prepare_web_upload :
      ℕ
      → String
      → IpAddr
      → HashMap String String
      → Result (HashMap String WebUploadFile)
      → Option (WebPageState Cache)
      → Option (V2State Cache)
      → Claim × Option (V2State Cache)
  unfolding validate_web_upload_files claim_session get
  prepare_web_upload now new_id ip query payload none v2 =
      (refused (message 403 "Web send not initialized."), v2)
  prepare_web_upload now new_id ip query payload (some web) none =
      (refused (message 403 "Uploads are not available."), none)
  prepare_web_upload now new_id ip query payload (some web) (some v2) =
      let (claim, after) = upload_session now new_id ip (get "sessionId" query) payload web v2 in
      (claim, some after)
