-- ===== src/Web/DownloadZip.antt =====
-- `download_zip` of packages/core/src/http/server/web.rs, up to the task that streams the archive.
-- The query and the form come parsed.
pub mod Ids
pub mod Chosen
pub mod Planned
mod Tests
use aika.Common.{
  ℕ, ◌+◌, ◌/◌, ◌%◌, Bool, true, false, not, ◌||◌, String, Option, none, some, List, [], ◌∷◌, ◌++◌,
  map, length, is_empty, any, ltb, if◌then◌else◌, Text, text_eq, string_Eq, split, codes,
  trim_start, trim_end,
}
use mathlib.Core.Option
use aika.Common.HashMap.{HashMap, get}
use aika.Save.{Bytes}
use aika.Model.{IpAddr, FileDto}
use aika.Http.{AppError, bad_request, message, Result, ok, err, ◌>>=◌}
use aika.Zip.{ZipEntry, ZipPlan, new}
use aika.Zip.Names.{zip_entry_names}
use aika.Web.{WebPageState, has_session}

abbrev pub max_zip_files : ℕ
max_zip_files = 10000

abbrev pub comma : ℕ
comma = b','

unfoldable pub trim : Text → Text
unfolding trim_start trim_end
trim part = trim_end (trim_start part)

-- The `filter` with `seen.insert(..)`.
unfoldable pub collect_ids : List Text → List Text → List Text
unfolding trim
collect_ids seen [] = []
collect_ids seen (part ∷ parts) =
    let id = trim part in
    let without = collect_ids seen parts in
    let onward = collect_ids (id ∷ seen) parts in
    if is_empty id || any (text_eq id) seen then without else id ∷ onward

unfoldable pub ids_of : Option Text → List Text
unfolding collect_ids split
ids_of none = []
ids_of (some ids) = collect_ids [] (split comma ids)

-- `web.file(..)`, with the key: the file whose ID has these characters.
unfoldable pub file_by_id : Text → HashMap String FileDto → Option (String × FileDto)
file_by_id id [] = none
file_by_id id ((key, dto) ∷ files) =
    let rest = file_by_id id files in if text_eq (codes key) id then some (key, dto) else rest

abbrev pub found_file :
    Option (String × FileDto) → Result (HashMap String FileDto) → Result (HashMap String FileDto)
found_file none rest = err (message 403 "Invalid fileId.")
found_file (some entry) rest = rest >>= (λ chosen. ok (entry ∷ chosen))

-- The loop over the IDs.
unfoldable pub find_files : HashMap String FileDto → List Text → Result (HashMap String FileDto)
unfolding file_by_id
find_files files [] = ok []
find_files files (id ∷ ids) = found_file (file_by_id id files) (find_files files ids)

unfoldable pub choose_files : HashMap String FileDto → List Text → Result (HashMap String FileDto)
unfolding find_files
choose_files files ids =
    if is_empty ids || ltb max_zip_files (length ids)
    then err (bad_request "Invalid fileIds.")
    else find_files files ids

-- The UTF-8 of a character.
abbrev pub encode_utf8 : ℕ → Bytes
encode_utf8 c =
    if ltb c 128
    then c ∷ []
    else (if ltb c 2048
        then (192 + c / 64) ∷ (128 + c % 64) ∷ []
        else (if ltb c 65536
            then (224 + c / 4096) ∷ (128 + c / 64 % 64) ∷ (128 + c % 64) ∷ []
            else (240 + c / 262144)
              ∷ (128 + c / 4096 % 64)
              ∷ (128 + c / 64 % 64)
              ∷ (128 + c % 64)
              ∷ []))

unfoldable pub as_bytes : Text → Bytes
as_bytes [] = []
as_bytes (c ∷ text) = encode_utf8 c ++ as_bytes text

-- `names.into_iter().zip(files.iter())`.
unfoldable pub entries_of : List Text → HashMap String FileDto → List ZipEntry
unfolding as_bytes
entries_of [] files = []
entries_of (name ∷ names) [] = []
entries_of (name ∷ names) ((key, dto) ∷ files) =
    record { name = as_bytes name; size = dto.size } ∷ entries_of names files

module _ (to_lowercase : Text → Text) where
  -- The plan; `none`: the fuel for the names has run out.
  unfoldable pub plan_of : ℕ → HashMap String FileDto → Option ZipPlan
  unfolding zip_entry_names entries_of new
  plan_of unix_secs chosen =
      Option.map (λ names. new (entries_of names chosen) unix_secs)
        (zip_entry_names to_lowercase (map (λ entry. codes entry.1.file_name) chosen))

  abbrev pub zip_session :
      {Cache : Type 0}
      → ℕ
      → Option String
      → IpAddr
      → Result (Option Text)
      → WebPageState Cache
      → Result (HashMap String FileDto × Option ZipPlan)
  zip_session unix_secs none ip form web = err (bad_request "Missing sessionId.")
  zip_session unix_secs (some session_id) ip form web =
      if has_session session_id ip web
      then (form
          >>= (λ ids. choose_files web.files (ids_of ids))
          >>= (λ chosen. ok (chosen, plan_of unix_secs chosen)))
      else err (message 403 "Invalid sessionId.")

  -- The files and the plan that `stream_zip` gets. `form` is the field `fileIds` of the limited
  -- body.
  unfoldable pub download_zip :
      {Cache : Type 0}
      → ℕ
      → HashMap String String
      → IpAddr
      → Result (Option Text)
      → WebPageState Cache
      → Result (HashMap String FileDto × Option ZipPlan)
  unfolding choose_files ids_of plan_of get
  download_zip unix_secs query ip form web =
      zip_session unix_secs (get "sessionId" query) ip form web
