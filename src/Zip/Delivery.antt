-- ===== src/Zip/Delivery.antt =====
-- What `download_zip` of packages/core/src/http/server/web.rs announces and what it delivers.
use aika.Common.{
  ℕ, ◌+◌, ◌^◌, ◌<◌, ◌≡◌, ◌∙◌, inl, inr, refl, sym, ap, Option, none, some, List, [], ◌∷◌, ◌++◌,
  length, length-append, concat, if◌then◌else◌, arith, All, Bool-cases, map-some,
}
use aika.Save.{Bytes}
use aika.Zip.{ZipEntry, ZipPlan, local_header_len, descriptor_len, new, needs_zip64}
use aika.Zip.Crc.{crc32}
use aika.Zip.Records.{
  local_header, data_descriptor, central_header, central_headers, zip64_end, end_record,
  central_directory,
}
use aika.Zip.Sizes.{
  length-local_header, length-data_descriptor, length-central_header, sections_len, central_len,
  end_len, archive_len, layout_exact,
}
use aika.Zip.Stream.{complete, stream_zip}
use aika.Zip.Archive.{section, sections, crcs_of, Provided, IsShort, stream_entries_sound}
use aika.Zip.Format.{AreSections, IsDirectory, sections-AreSections, central_directory-IsDirectory}

pub length-section :
    (plan : ZipPlan) (entry : ZipEntry) (bytes : Bytes)
    → length (section plan entry bytes)
      ≡ local_header_len entry plan.zip64 + length bytes + descriptor_len plan.zip64
length-section plan entry bytes =
    let crc = crc32 bytes in
    length-append (local_header plan entry) (bytes ++ data_descriptor plan entry crc)
    ∙ rw
        (
          length-local_header plan entry,
          length-append bytes (data_descriptor plan entry crc),
          length-data_descriptor plan entry crc,
        )
        (omega arith)

pub length-sections :
    (plan : ZipPlan) (entries : List ZipEntry) (contents : List (Option (List Bytes)))
    → Provided entries contents
    → length (sections plan entries contents) ≡ sections_len plan.zip64 entries
length-sections plan [] contents p = refl
length-sections plan (entry ∷ entries) [] p = absurd p
length-sections plan (entry ∷ entries) (none ∷ contents) p = absurd p
length-sections plan (entry ∷ entries) (some chunks ∷ contents) p =
    length-append (section plan entry (concat chunks)) (sections plan entries contents)
    ∙ omega (
      arith,
      p.0,
      length-section plan entry (concat chunks),
      length-sections plan entries contents p.1,
    )

length-end :
    (plan : ZipPlan)
    → length ((if plan.zip64 then zip64_end plan else []) ++ end_record plan) ≡ end_len plan.zip64
length-end plan = elim (Bool-cases plan.zip64) [ inl z ↦ rw z refl | inr z ↦ rw z refl ]

length-central_headers :
    (plan : ZipPlan) (entries : List ZipEntry) (offsets crcs : List ℕ) (headers : Bytes)
    → central_headers plan entries offsets crcs ≡ some headers
    → length headers ≡ central_len plan.zip64 entries
unfolding central_headers
length-central_headers plan [] offsets crcs headers e = ground (arith, e)
length-central_headers plan (entry ∷ entries) [] crcs headers e = absurd (ground (arith, e))
length-central_headers plan (entry ∷ entries) (o ∷ os) [] headers e = absurd (ground (arith, e))
length-central_headers plan (entry ∷ entries) (o ∷ os) (c ∷ cs) headers e =
    let (rest, made, joined) =
      map-some (λ rest. central_header plan entry o c ++ rest) (central_headers plan entries os cs)
        headers e in
    ap length (sym joined)
    ∙ length-append (central_header plan entry o c) rest
    ∙ omega (
      arith,
      length-central_header plan entry o c,
      length-central_headers plan entries os cs rest made,
    )

length-central_directory :
    (plan : ZipPlan) (crcs : List ℕ) (directory : Bytes)
    → central_directory plan crcs ≡ some directory
    → length directory ≡ central_len plan.zip64 plan.entries + end_len plan.zip64
unfolding central_directory
length-central_directory plan crcs directory e =
    let tail = (if plan.zip64 then zip64_end plan else []) ++ end_record plan in
    let (headers, made, joined) =
      map-some (λ headers. headers ++ tail)
        (central_headers plan plan.entries plan.layout.offsets crcs) directory e in
    ap length (sym joined)
    ∙ length-append headers tail
    ∙ omega (
      arith,
      length-end plan,
      length-central_headers plan plan.entries plan.layout.offsets crcs headers made,
    )

-- A ZIP response that ends well has exactly the announced length, and every entry was given a
-- content of its size. It is the sections of the entries, followed by the directory that the code
-- makes of their CRCs: byte for byte, each section has the signature of one, the entry's name, the
-- content, and behind the signature of a descriptor the CRC-32 of the content, and the directory
-- has for each entry a header with its signature, that CRC-32 and the name, and at its end the
-- signature of an end record. The archive and the contents are shorter than 2^64 bytes.
pub stream_zip_sound :
    (entries : List ZipEntry) (unix_secs : ℕ) (contents : List (Option (List Bytes)))
    → archive_len (needs_zip64 entries) entries < 2 ^ 64
    → All IsShort contents
    → (stream_zip (new entries unix_secs) contents).1 ≡ complete
    → let plan = new entries unix_secs in
      let sent = concat (stream_zip plan contents).0 in
      (length sent ≡ plan.layout.total_len)
      × Provided entries contents
      × ((directory : Bytes) × (central_directory plan (crcs_of entries contents) ≡ some directory)
          × (sent ≡ sections plan entries contents ++ directory)
          × AreSections entries contents (sections plan entries contents)
          × IsDirectory entries contents directory)
unfolding new needs_zip64
stream_zip_sound entries unix_secs contents fits short e =
    let plan = new entries unix_secs in
    let (provided, (directory, made, sent)) =
      stream_entries_sound plan entries contents [] short e in
    let total = ap (λ l. l.total_len) (layout_exact entries plan.zip64 fits) in
    let size = ap length sent ∙ length-append (sections plan entries contents) directory in
    (
      omega (
        arith,
        size,
        total,
        length-sections plan entries contents provided,
        length-central_directory plan (crcs_of entries contents) directory made,
      ),
      provided,
      (
        directory,
        made,
        sent,
        sections-AreSections plan entries contents,
        central_directory-IsDirectory plan contents directory provided made,
      ),
    )
