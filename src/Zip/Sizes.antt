-- ===== src/Zip/Sizes.antt =====
-- The sizes that packages/core/src/http/server/web_zip.rs plans, and those of what it writes.
use aika.Common.{
  ℕ, ◌+◌, ◌^◌, ◌<◌, ◌≡◌, inl, inr, refl, ap, Bool, List, [], ◌∷◌, ◌++◌, length, length-append,
  if◌then◌else◌, arith, Bool-cases,
}
use aika.Zip.{
  ZipEntry, ZipPlan, local_header_len, descriptor_len, central_header_len, put_u16, put_u64, place,
  sum_central, layout, add_u64,
}
use aika.Zip.Records.{local_header, data_descriptor, central_header}

pub length-local_header :
    (plan : ZipPlan) (entry : ZipEntry)
    → length (local_header plan entry) ≡ local_header_len entry plan.zip64
length-local_header plan entry = elim (Bool-cases plan.zip64) [
  | inl z ↦
      rw z (
        omega (arith, length-append entry.name (put_u16 1 ++ put_u16 16 ++ put_u64 0 ++ put_u64 0)))
  | inr z ↦ rw z (omega (arith, length-append entry.name []))
]

pub length-data_descriptor :
    (plan : ZipPlan) (entry : ZipEntry) (crc : ℕ)
    → length (data_descriptor plan entry crc) ≡ descriptor_len plan.zip64
length-data_descriptor plan entry crc = elim (Bool-cases plan.zip64) [
  | inl z ↦ rw z refl
  | inr z ↦ rw z refl
]

pub length-central_header :
    (plan : ZipPlan) (entry : ZipEntry) (offset crc : ℕ)
    → length (central_header plan entry offset crc) ≡ central_header_len entry plan.zip64
length-central_header plan entry offset crc = elim (Bool-cases plan.zip64) [
  | inl z ↦ rw z (
      omega (
        arith,
        length-append entry.name
            (put_u16 1 ++ put_u16 24 ++ put_u64 entry.size ++ put_u64 entry.size ++ put_u64 offset),
      ))
  | inr z ↦ rw z (omega (arith, length-append entry.name []))
]

-- What is written for the entries before the central directory, the central directory itself,
-- and the records at the end, counted without wrapping around.
abbrev pub sections_len : Bool → List ZipEntry → ℕ
sections_len zip64 [] = 0
sections_len zip64 (entry ∷ entries) =
    local_header_len entry zip64 + entry.size + descriptor_len zip64 + sections_len zip64 entries

abbrev pub central_len : Bool → List ZipEntry → ℕ
central_len zip64 [] = 0
central_len zip64 (entry ∷ entries) = central_header_len entry zip64 + central_len zip64 entries

abbrev pub end_len : Bool → ℕ
end_len zip64 = if zip64 then 98 else 22

abbrev pub archive_len : Bool → List ZipEntry → ℕ
archive_len zip64 entries = sections_len zip64 entries + central_len zip64 entries + end_len zip64

-- The offsets of the sections, the first at `offset`.
abbrev pub starts : Bool → ℕ → List ZipEntry → List ℕ
starts zip64 offset [] = []
starts zip64 offset (entry ∷ entries) =
    offset
    ∷ starts zip64 (offset + (local_header_len entry zip64 + entry.size + descriptor_len zip64))
        entries

place_exact :
    (zip64 : Bool) (offset : ℕ) (entries : List ZipEntry)
    → offset + sections_len zip64 entries < 2 ^ 64
    → place zip64 offset entries
      ≡ (starts zip64 offset entries, offset + sections_len zip64 entries)
unfolding place
place_exact zip64 offset [] fits = ap (λ n. ([], n)) (omega arith)
place_exact zip64 offset (entry ∷ entries) fits =
    let size = local_header_len entry zip64 + entry.size + descriptor_len zip64 in
    let step : add_u64 offset
          (add_u64 (add_u64 (local_header_len entry zip64) entry.size) (descriptor_len zip64))
        ≡ offset + size =
      omega (arith, fits) in
    let rest = place_exact zip64 (offset + size) entries (omega (arith, fits)) in
    let end : offset + size + sections_len zip64 entries
        ≡ offset + (size + sections_len zip64 entries) =
      omega arith in
    rw (step, rest, end) refl

sum_central_exact :
    (zip64 : Bool) (entries : List ZipEntry)
    → central_len zip64 entries < 2 ^ 64
    → sum_central zip64 entries ≡ central_len zip64 entries
unfolding sum_central
sum_central_exact zip64 [] fits = refl
sum_central_exact zip64 (entry ∷ entries) fits =
    let rest = sum_central_exact zip64 entries (omega (arith, fits)) in
    rw rest (omega (arith, fits))

-- In an archive shorter than 2 ^ 64 bytes no number of the layout wraps around.
pub layout_exact :
    (entries : List ZipEntry) (zip64 : Bool)
    → archive_len zip64 entries < 2 ^ 64
    → layout entries zip64 ≡ (record {
      offsets = starts zip64 0 entries;
      central_offset = sections_len zip64 entries;
      central_size = central_len zip64 entries;
      total_len = archive_len zip64 entries;
    })
unfolding layout
layout_exact entries zip64 fits =
    let sections = sections_len zip64 entries in
    let placed = place_exact zip64 0 entries (omega (arith, fits)) in
    let centrals = sum_central_exact zip64 entries (omega (arith, fits)) in
    let first : 0 + sections ≡ sections = omega arith in
    let total : add_u64 (add_u64 sections (central_len zip64 entries)) (end_len zip64)
        ≡ archive_len zip64 entries =
      omega (arith, fits) in
    rw (placed, centrals, first, total) refl
