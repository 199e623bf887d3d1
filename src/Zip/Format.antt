-- ===== src/Zip/Format.antt =====
-- The layout of a ZIP archive, read off the bytes: what the records that
-- packages/core/src/http/server/web_zip.rs writes have to hold, and where.
use aika.Common.{
  ℕ, ◌%◌, ◌/◌, ◌≡◌, ◌∙◌, refl, sym, ap, subst, Option, none, some, List, [], ◌∷◌, ◌++◌, length,
  concat, take, drop, if◌then◌else◌, arith, map-some,
}
use mathlib.Core.List.{append_assoc}
use aika.Save.{Bytes}
use aika.Zip.{ZipEntry, ZipPlan, put_u16, put_u64}
use aika.Zip.Crc.{crc32}
use aika.Zip.Records.{
  local_header, data_descriptor, central_header, central_headers, zip64_end, end_record,
  central_directory,
}
use aika.Zip.Archive.{body, section, sections, crcs_of, Provided}

-- The four bytes of a number, the lowest first.
abbrev pub le4 : ℕ → Bytes
le4 n = n % 256 ∷ n / 256 % 256 ∷ n / 256 / 256 % 256 ∷ n / 256 / 256 / 256 % 256 ∷ []

-- A section: the signature "PK" 3 4 and 26 bytes of fields, the name and an extra field, the
-- content, and the signature "PK" 7 8 before the CRC-32 of the content and the sizes.
abbrev pub IsSection : ZipEntry → Bytes → Bytes → Type 0
IsSection entry bytes s =
    (fields : Bytes) × (extra : Bytes) × (sizes : Bytes) × (length fields ≡ 26)
    × (s
        ≡ (80 ∷ 75 ∷ 3 ∷ 4 ∷ [] ++ fields ++ entry.name ++ extra)
          ++ (bytes ++ (80 ∷ 75 ∷ 7 ∷ 8 ∷ [] ++ le4 (crc32 bytes) ++ sizes)))

-- A header of the directory: the signature "PK" 1 2 and 12 bytes of fields, the CRC-32 of the
-- content, 26 more bytes of fields, the name and an extra field.
abbrev pub IsHeader : ZipEntry → Bytes → Bytes → Type 0
IsHeader entry bytes h =
    (before : Bytes) × (after : Bytes) × (extra : Bytes) × (length before ≡ 12)
    × (length after ≡ 26)
    × (h ≡ 80 ∷ 75 ∷ 1 ∷ 2 ∷ [] ++ before ++ le4 (crc32 bytes) ++ after ++ entry.name ++ extra)

-- The sections of the entries, in order.
abbrev pub AreSections : List ZipEntry → List (Option (List Bytes)) → Bytes → Type 0
AreSections (entry ∷ entries) (content ∷ contents) s =
    (first : Bytes) × (rest : Bytes) × (s ≡ first ++ rest)
    × IsSection entry (body content) first
    × AreSections entries contents rest
AreSections _ _ s = s ≡ []

-- The headers of the entries, in order, and last the end of the archive: the signature "PK" 5 6
-- and 18 bytes.
abbrev pub IsDirectory : List ZipEntry → List (Option (List Bytes)) → Bytes → Type 0
IsDirectory (entry ∷ entries) (content ∷ contents) s =
    (first : Bytes) × (rest : Bytes) × (s ≡ first ++ rest)
    × IsHeader entry (body content) first
    × IsDirectory entries contents rest
IsDirectory _ _ s =
    (before : Bytes) × (last : Bytes) × (s ≡ before ++ (80 ∷ 75 ∷ 5 ∷ 6 ∷ [] ++ last))
    × (length last ≡ 18)

section-IsSection :
    (plan : ZipPlan) (entry : ZipEntry) (bytes : Bytes)
    → IsSection entry bytes (section plan entry bytes)
section-IsSection plan entry bytes = (
  take 26 (drop 4 (local_header plan entry)),
  if plan.zip64 then put_u16 1 ++ put_u16 16 ++ put_u64 0 ++ put_u64 0 else [],
  drop 8 (data_descriptor plan entry (crc32 bytes)),
  refl,
  refl,
)

central_header-IsHeader :
    (plan : ZipPlan) (entry : ZipEntry) (offset : ℕ) (bytes : Bytes)
    → IsHeader entry bytes (central_header plan entry offset (crc32 bytes))
central_header-IsHeader plan entry offset bytes = (
  take 12 (drop 4 (central_header plan entry offset (crc32 bytes))),
  take 26 (drop 20 (central_header plan entry offset (crc32 bytes))),
  if plan.zip64
      then put_u16 1 ++ put_u16 24 ++ put_u64 entry.size ++ put_u64 entry.size ++ put_u64 offset
      else [],
  refl,
  refl,
  refl,
)

pub sections-AreSections :
    (plan : ZipPlan) (entries : List ZipEntry) (contents : List (Option (List Bytes)))
    → AreSections entries contents (sections plan entries contents)
sections-AreSections plan [] contents = refl
sections-AreSections plan (entry ∷ entries) [] = refl
sections-AreSections plan (entry ∷ entries) (content ∷ contents) = (
  _,
  _,
  refl,
  section-IsSection plan entry (body content),
  sections-AreSections plan entries contents,
)

end_record-IsDirectory :
    (plan : ZipPlan) (before : Bytes) → IsDirectory [] [] (before ++ end_record plan)
end_record-IsDirectory plan before = (before, drop 4 (end_record plan), refl, refl)

headers-IsDirectory :
    (plan : ZipPlan) (entries : List ZipEntry) (contents : List (Option (List Bytes)))
    (offsets : List ℕ) (headers before : Bytes)
    → Provided entries contents
    → central_headers plan entries offsets (crcs_of entries contents) ≡ some headers
    → IsDirectory entries contents (headers ++ (before ++ end_record plan))
unfolding central_headers
headers-IsDirectory plan [] contents offsets headers before p e =
    let same : [] ≡ headers = ground (arith, e) in
    subst (λ h. IsDirectory [] [] (h ++ (before ++ end_record plan))) same
      (end_record-IsDirectory plan before)
headers-IsDirectory plan (entry ∷ entries) [] offsets headers before p e = absurd p
headers-IsDirectory plan (entry ∷ entries) (none ∷ contents) offsets headers before p e = absurd p
headers-IsDirectory plan (entry ∷ entries) (some chunks ∷ contents) [] headers before p e =
    absurd (ground (arith, e))
headers-IsDirectory plan (entry ∷ entries) (some chunks ∷ contents) (o ∷ os) headers before p e =
    let crc = crc32 (concat chunks) in
    let (rest, made, joined) =
      map-some (λ rest. central_header plan entry o crc ++ rest)
        (central_headers plan entries os (crcs_of entries contents)) headers e in
    (
      central_header plan entry o crc,
      rest ++ (before ++ end_record plan),
      ap (λ h. h ++ (before ++ end_record plan)) (sym joined)
          ∙ append_assoc (central_header plan entry o crc) rest (before ++ end_record plan),
      central_header-IsHeader plan entry o (concat chunks),
      headers-IsDirectory plan entries contents os rest before p.1 made,
    )

pub central_directory-IsDirectory :
    (plan : ZipPlan) (contents : List (Option (List Bytes))) (directory : Bytes)
    → Provided plan.entries contents
    → central_directory plan (crcs_of plan.entries contents) ≡ some directory
    → IsDirectory plan.entries contents directory
unfolding central_directory
central_directory-IsDirectory plan contents directory p e =
    let before = if plan.zip64 then zip64_end plan else [] in
    let (headers, made, joined) =
      map-some (λ headers. headers ++ (before ++ end_record plan))
        (central_headers plan plan.entries plan.layout.offsets (crcs_of plan.entries contents))
        directory e in
    subst (IsDirectory plan.entries contents) joined
      (headers-IsDirectory plan plan.entries contents plan.layout.offsets headers before p made)
