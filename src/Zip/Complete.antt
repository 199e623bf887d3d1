-- ===== src/Zip/Complete.antt =====
-- How a ZIP response ends when the application provides every file: `stream_zip` of
-- packages/core/src/http/server/web.rs.
use aika.Common.{
  ℕ, ◌+◌, ◌^◌, ◌<◌, ◌≡◌, ◌∙◌, refl, sym, ap, true, false, Option, none, some, List, [], ◌∷◌, ◌++◌,
  length, length-append, concat, ltb, nat_eq, arith, All,
}
use mathlib.Core.List.{append_assoc, append-nil}
use aika.Save.{Bytes}
use aika.Zip.{ZipEntry, ZipPlan, local_header_len, descriptor_len, add_u64, new, needs_zip64}
use aika.Zip.Crc.{crc32, crc_new, crc_update, crc_finish, crc_update-append}
use aika.Zip.Records.{central_header, central_headers, central_directory}
use aika.Zip.Sizes.{archive_len, starts, layout_exact}
use aika.Zip.Stream.{complete, finish, stream_content, stream_entries, stream_zip}
use aika.Zip.Archive.{crcs_of, Provided}

stream_content_complete :
    (expected crc written : ℕ) (chunks : List Bytes)
    → expected < 2 ^ 64
    → written + length (concat chunks) ≡ expected
    → (stream_content expected crc written chunks).1
      ≡ some (crc_finish (crc_update (concat chunks) crc))
unfolding stream_content crc_update
stream_content_complete expected crc written [] fits size =
    let same : nat_eq written expected ≡ true = ground (arith, size) in rw same refl
stream_content_complete expected crc written (chunk ∷ chunks) fits size =
    let all = length-append chunk (concat chunks) in
    let exact : add_u64 written (length chunk) ≡ written + length chunk =
      omega (arith, fits, size, all) in
    let total = add_u64 written (length chunk) in
    let within : ltb expected total ≡ false = ground (arith, exact, size, all) in
    rw within (
      stream_content_complete expected (crc_update chunk crc) total chunks fits
        (omega (arith, size, all, exact))
      ∙ ap (λ c. some (crc_finish c)) (sym (crc_update-append chunk (concat chunks) crc)))

abbrev pub IsU64 : ZipEntry → Type 0
IsU64 entry = entry.size < 2 ^ 64

stream_entries_complete :
    (plan : ZipPlan) (entries : List ZipEntry) (contents : List (Option (List Bytes)))
    (crcs : List ℕ)
    → All IsU64 entries
    → Provided entries contents
    → (stream_entries plan entries contents crcs).1
      ≡ (finish plan (central_directory plan (crcs ++ crcs_of entries contents))).1
unfolding stream_entries
stream_entries_complete plan [] contents crcs fits p =
    ap (λ r. (finish plan (central_directory plan r)).1) (sym (append-nil crcs))
stream_entries_complete plan (entry ∷ entries) [] crcs fits p = absurd p
stream_entries_complete plan (entry ∷ entries) (none ∷ contents) crcs fits p = absurd p
stream_entries_complete plan (entry ∷ entries) (some chunks ∷ contents) crcs fits p =
    let crc = crc32 (concat chunks) in
    let streamed =
      stream_content_complete entry.size crc_new 0 chunks fits.0 (omega (arith, p.0)) in
    rw streamed (stream_entries_complete plan entries contents (crcs ++ crc ∷ []) fits.1 p.1)
    ∙ ap (λ r. (finish plan (central_directory plan r)).1)
        (append_assoc crcs (crc ∷ []) (crcs_of entries contents))

-- With an offset and a CRC for each entry, no index of `central_directory` is out of range.
central_headers_total :
    (plan : ZipPlan) (entries : List ZipEntry) (offset : ℕ) (contents : List (Option (List Bytes)))
    → Provided entries contents
    → (headers : Bytes) × (central_headers plan entries
          (starts plan.zip64 offset entries)
          (crcs_of entries contents)
        ≡ some headers)
unfolding central_headers
central_headers_total plan [] offset contents p = ([], refl)
central_headers_total plan (entry ∷ entries) offset [] p = absurd p
central_headers_total plan (entry ∷ entries) offset (none ∷ contents) p = absurd p
central_headers_total plan (entry ∷ entries) offset (some chunks ∷ contents) p =
    let next =
      offset + (local_header_len entry plan.zip64 + entry.size + descriptor_len plan.zip64) in
    let (rest, made) = central_headers_total plan entries next contents p.1 in
    (central_header plan entry offset (crc32 (concat chunks)) ++ rest, rw made refl)

-- If the application provides a content of the announced size for each entry, the ZIP response
-- ends well. The sizes are u64s and the archive is shorter than 2^64 bytes.
pub stream_zip_complete :
    (entries : List ZipEntry) (unix_secs : ℕ) (contents : List (Option (List Bytes)))
    → archive_len (needs_zip64 entries) entries < 2 ^ 64
    → All IsU64 entries
    → Provided entries contents
    → (stream_zip (new entries unix_secs) contents).1 ≡ complete
unfolding new needs_zip64 central_directory
stream_zip_complete entries unix_secs contents fits sizes p =
    let plan = new entries unix_secs in
    let placed = ap (λ l. l.offsets) (layout_exact entries plan.zip64 fits) in
    let (headers, made) = central_headers_total plan entries 0 contents p in
    let ends = stream_entries_complete plan entries contents [] sizes p in
    ends ∙ rw (placed, made) refl
