-- ===== src/Web/Upload/Announced.antt =====
-- Which uploads of web clients reach the application: `prepare_upload` of
-- packages/core/src/http/server/web.rs.
use aika.Common.{
  ◌≤◌, ◌≡◌, ◌≢◌, ◌↔◌, refl, inl, inr, ◌⊎◌, String, Bool, true, false, not, ◌&&◌, [], ◌∷◌, map,
  length, All, is_empty, ltb, arith, Bool-cases, if◌then◌else◌, ◌==◌, decides, string_Eq, Text,
  codes, is_control, len,
}
use aika.Common.HashMap.{HashMap}
use aika.Model.{ip_Eq, FileDto}
use aika.Http.{AppError, message, Result, ok, err}
use aika.Web.Upload.{
  WebUploadFile, is_short_text, is_valid_field, is_valid_upload_file_name, is_file_name, dto_of,
  validate_file, validate_each, validate_web_upload_files, web_upload_max_files,
}
use aika.Web.Upload.Names.{IsFileName, is_file_name_iff, any_none}

-- A file that stands under its own ID, which is a short text, and has a file's name.
pub record IsAnnounced (key : String) (file : WebUploadFile) : Type 0 where
  pub own_id : key ≡ file.id
  pub id : codes file.id ≢ []
  pub short_id : len (codes file.id) ≤ 128
  pub plain_id : All (λ c. is_control c ≡ false) (codes file.id)
  pub file_name : IsFileName (codes file.file_name)

abbrev pub dtos : HashMap String WebUploadFile → HashMap String FileDto
dtos files = map (λ entry. (entry.0, dto_of entry.1)) files

field_iff :
    (text : Text)
    → (not (is_empty text) && is_short_text text ≡ true)
      ↔ ((text ≢ []) × (len text ≤ 128) × All (λ c. is_control c ≡ false) text)
unfolding is_short_text
field_iff [] = (λ h. ground (arith, h), λ h. absurd (h.0 refl))
field_iff (c ∷ text) = ground (arith, any_none is_control (c ∷ text))

is_valid_field_iff :
    (value : String)
    → (is_valid_field value ≡ true) ↔ (
        (codes value ≢ [])
        × (len (codes value) ≤ 128)
        × All (λ c. is_control c ≡ false) (codes value))
unfolding is_valid_field
is_valid_field_iff value = field_iff (codes value)

IsAnnounced-iff :
    (key : String) (file : WebUploadFile)
    → (((key == file.id) && is_valid_field file.id) && is_valid_upload_file_name file.file_name
        ≡ true)
      ↔ IsAnnounced key file
unfolding is_valid_upload_file_name
IsAnnounced-iff key file =
    let id_iff = is_valid_field_iff file.id in
    let name_iff = is_file_name_iff (codes file.file_name) in
    (
      λ h.
          let (own, valid, name) : (key ≡ file.id)
              × (is_valid_field file.id ≡ true)
              × (is_file_name (codes file.file_name) ≡ true) =
            ground (arith, h, decides key file.id) in
          let (full, short, plain) = id_iff.0 valid in
          record {
            own_id = own;
            id = full;
            short_id = short;
            plain_id = plain;
            file_name = name_iff.0 name;
          },
      λ a.
          let valid = id_iff.1 (a.id, a.short_id, a.plain_id) in
          let name = name_iff.1 a.file_name in
          let own = (decides key file.id).1 a.own_id in rw (own, valid, name) refl,
    )

-- What a check comes to: a result just where the condition holds.
abbrev pub Checks {ℓ} : {A : Type ℓ} → Type 0 → A → Result A → Type ℓ
Checks Valid a r = (Valid × (r ≡ ok a)) ⊎ ((Valid → ⊥) × ((e : AppError) × (r ≡ err e)))

tests-Checks {ℓ} :
    {A : Type ℓ} {Valid : Type 0} (first second : Bool) (a : A) (e f : AppError)
    → (first && second ≡ true) ↔ Valid
    → Checks Valid a (if first then (if second then ok a else err e) else err f)
tests-Checks true true a e f valid_iff = inl (valid_iff.0 refl, refl)
tests-Checks true false a e f valid_iff = inr (λ v. ground (arith, valid_iff.1 v), (e, refl))
tests-Checks false second a e f valid_iff = inr (λ v. ground (arith, valid_iff.1 v), (f, refl))

validate_file-Checks :
    (key : String) (file : WebUploadFile)
    → Checks (IsAnnounced key file) (key, dto_of file) (validate_file key file)
unfolding validate_file
validate_file-Checks key file =
    tests-Checks ((key == file.id) && is_valid_field file.id)
      (is_valid_upload_file_name file.file_name) _ _ _ (IsAnnounced-iff key file)

validate_each-Checks :
    (files : HashMap String WebUploadFile)
    → Checks (All (λ entry. IsAnnounced entry.0 entry.1) files) (dtos files) (validate_each files)
unfolding validate_each
validate_each-Checks [] = inl (tt, refl)
validate_each-Checks ((key, file) ∷ files) = elim (validate_file-Checks key file) [
  | inr (never, (e, failed)) ↦ inr (λ all. never all.0, (e, rw failed refl))
  | inl (valid, passed) ↦ elim (validate_each-Checks files) [
    | inr (never, (e, failed)) ↦ inr (λ all. never all.1, (e, rw (passed, failed) refl))
    | inl (all, rest) ↦ inl ((valid, all), rw (passed, rest) refl)
  ]
]

-- Between one and 500 files, all of them valid.
abbrev pub IsOffer : HashMap String WebUploadFile → Type 0
IsOffer files =
    (1 ≤ length files) × (length files ≤ 500) × All (λ entry. IsAnnounced entry.0 entry.1) files

pub validate_web_upload_files-Checks :
    (files : HashMap String WebUploadFile)
    → Checks (IsOffer files) (dtos files) (validate_web_upload_files files)
unfolding validate_web_upload_files
validate_web_upload_files-Checks [] = inr (λ o. ground (arith, o.0), (_, refl))
validate_web_upload_files-Checks (entry ∷ files) =
    elim (Bool-cases (ltb web_upload_max_files (length (entry ∷ files)))) [
      | inl many ↦
          inr (λ o. ground (arith, o.1, many), (message 413 "Too many files.", rw many refl))
      | inr few ↦ elim (validate_each-Checks (entry ∷ files)) [
        | inr (never, (e, failed)) ↦ inr (λ o. never o.2, (e, rw few failed))
        | inl (all, passed) ↦ inl ((ground (arith, few), ground (arith, few), all), rw few passed)
      ]
    ]
