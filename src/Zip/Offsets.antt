-- ===== src/Zip/Offsets.antt =====
-- The offsets and the casts of packages/core/src/http/server/web_zip.rs.
use aika.Common.{
  ℕ, zero, suc, ◌+◌, ◌^◌, ◌≤◌, ◌<◌, ◌≡◌, ◌∙◌, refl, sym, ap, subst, Bool, true, false, Option, none,
  some, List, [], ◌∷◌, ◌++◌, length, length-append, concat, get_elem?, leb, ◌||◌, arith, All,
}
use mathlib.Core.List.{append_assoc}
use aika.Save.{Bytes}
use aika.Zip.{
  ZipEntry, ZipPlan, local_header_len, descriptor_len, layout, new, needs_zip64, u32_max,
}
use aika.Zip.Sizes.{sections_len, archive_len, starts, layout_exact}
use aika.Zip.Stream.{complete, stream_zip}
use aika.Zip.Archive.{body, section, sections, Provided, IsShort}
use aika.Zip.Delivery.{length-section, length-sections, stream_zip_sound}

same_section :
    (plan : ZipPlan) (e f : ZipEntry) (c d : Option (List Bytes))
    → e ≡ f
    → c ≡ d
    → section plan e (body c) ≡ section plan f (body d)
same_section plan e f c d same also =
    ap (λ x. section plan x (body c)) same ∙ ap (λ x. section plan f (body x)) also

section_at :
    (plan : ZipPlan) (entries : List ZipEntry) (contents : List (Option (List Bytes)))
    (offset i : ℕ) (entry : ZipEntry) (content : Option (List Bytes))
    → Provided entries contents
    → get_elem? entries i ≡ some entry
    → get_elem? contents i ≡ some content
    → (before : Bytes) × (after : Bytes) × (sections plan entries contents
        ≡ before ++ (section plan entry (body content) ++ after))
      × (get_elem? (starts plan.zip64 offset entries) i ≡ some (offset + length before))
section_at plan [] contents offset i entry content p e c = absurd (ground (arith, e))
section_at plan (x ∷ entries) [] offset i entry content p e c = absurd p
section_at plan (x ∷ entries) (none ∷ contents) offset i entry content p e c = absurd p
section_at plan (x ∷ entries) (some chunks ∷ contents) offset zero entry content p e c = (
  [],
  sections plan entries contents,
  ground (arith, e, c, same_section plan x entry (some chunks) content),
  ap some (omega arith),
)
section_at plan (x ∷ entries) (some chunks ∷ contents) offset (suc i) entry content p e c =
    let next = offset + (local_header_len x plan.zip64 + x.size + descriptor_len plan.zip64) in
    let first = section plan x (concat chunks) in
    let (before, after, split, at) =
      section_at plan entries contents next i entry content p.1 e c in
    (
      first ++ before,
      after,
      ap (λ r. first ++ r) split ∙ sym (append_assoc first before _),
      at
          ∙ ap some (
              omega
                (arith, p.0, length-append first before, length-section plan x (concat chunks))),
    )

or_false : (a b : Bool) → (a || b) ≡ false → (a ≡ false) × (b ≡ false)
or_false true b h = absurd (ground (arith, h))
or_false false b h = (refl, h)

starts_below :
    (zip64 : Bool) (offset : ℕ) (entries : List ZipEntry) (i o : ℕ)
    → get_elem? (starts zip64 offset entries) i ≡ some o
    → o ≤ offset + sections_len zip64 entries
starts_below zip64 offset [] i o e = absurd (ground (arith, e))
starts_below zip64 offset (entry ∷ entries) zero o e = ground (arith, e)
starts_below zip64 offset (entry ∷ entries) (suc i) o e =
    let next = offset + (local_header_len entry zip64 + entry.size + descriptor_len zip64) in
    omega (arith, starts_below zip64 next entries i o e)

size_below :
    (zip64 : Bool) (entries : List ZipEntry) (i : ℕ) (entry : ZipEntry)
    → get_elem? entries i ≡ some entry
    → entry.size ≤ sections_len zip64 entries
size_below zip64 [] i entry e = absurd (ground (arith, e))
size_below zip64 (x ∷ entries) zero entry e =
    let same : x ≡ entry = ground (arith, e) in
    subst (λ y. y.size ≤ sections_len zip64 (x ∷ entries)) same (omega arith)
size_below zip64 (x ∷ entries) (suc i) entry e = omega (arith, size_below zip64 entries i entry e)

-- In a ZIP response that ends well, each entry's section stands at the offset that the plan gives
-- for it, and the central directory at the plan's offset for that. The archive and the contents
-- are shorter than 2^64 bytes.
pub offsets_sound :
    (entries : List ZipEntry) (unix_secs : ℕ) (contents : List (Option (List Bytes))) (i : ℕ)
    (entry : ZipEntry) (content : Option (List Bytes))
    → archive_len (needs_zip64 entries) entries < 2 ^ 64
    → All IsShort contents
    → (stream_zip (new entries unix_secs) contents).1 ≡ complete
    → get_elem? entries i ≡ some entry
    → get_elem? contents i ≡ some content
    → let plan = new entries unix_secs in
      (before : Bytes) × (after : Bytes) × (directory : Bytes) × (concat
          (stream_zip plan contents).0
        ≡ (before ++ (section plan entry (body content) ++ after)) ++ directory)
      × (get_elem? plan.layout.offsets i ≡ some (length before))
      × (plan.layout.central_offset
          ≡ length (before ++ (section plan entry (body content) ++ after)))
unfolding new needs_zip64
offsets_sound entries unix_secs contents i entry content fits short e at_i has =
    let plan = new entries unix_secs in
    let (size, provided, (directory, made, sent, sections_lay, directory_lies)) =
      stream_zip_sound entries unix_secs contents fits short e in
    let (before, after, split, at) =
      section_at plan entries contents 0 i entry content provided at_i has in
    let planned = layout_exact entries plan.zip64 fits in
    let first : 0 + length before ≡ length before = omega arith in
    (
      before,
      after,
      directory,
      sent ∙ ap (λ r. r ++ directory) split,
      ap (λ l. get_elem? l.offsets i) planned ∙ at ∙ ap some first,
      ap (λ l. l.central_offset) planned
          ∙ sym (length-sections plan entries contents provided)
          ∙ ap length split,
    )

-- In an archive without ZIP64 records no number is cut off: the count fits 16 bits, and the sizes,
-- the offsets, and the central directory's offset and size fit 32 bits. The archive is shorter
-- than 2^64 bytes.
pub classic_room :
    (entries : List ZipEntry) (unix_secs i o : ℕ) (entry : ZipEntry)
    → archive_len false entries < 2 ^ 64
    → (new entries unix_secs).zip64 ≡ false
    → get_elem? entries i ≡ some entry
    → get_elem? (new entries unix_secs).layout.offsets i ≡ some o
    → (length entries < 2 ^ 16)
      × (entry.size < 2 ^ 32)
      × (o < 2 ^ 32)
      × ((new entries unix_secs).layout.central_offset < 2 ^ 32)
      × ((new entries unix_secs).layout.central_size < 2 ^ 32)
unfolding new needs_zip64
classic_room entries unix_secs i o entry fits classic at_i at_o =
    let planned = layout_exact entries false fits in
    let total : (layout entries false).total_len ≡ archive_len false entries =
      ap (λ l. l.total_len) planned in
    let tests =
      or_false (leb 65535 (length entries)) (leb u32_max (layout entries false).total_len)
        classic in
    let few : length entries < 2 ^ 16 = ground (arith, tests.0) in
    let short : archive_len false entries < u32_max = ground (arith, tests.1, total) in
    let chosen = ap (layout entries) classic ∙ planned in
    let at : get_elem? (starts false 0 entries) i ≡ some o =
      sym (ap (λ l. get_elem? l.offsets i) chosen) ∙ at_o in
    let directory = ap (λ l. l.central_offset) chosen in
    let directory_size = ap (λ l. l.central_size) chosen in
    (
      few,
      omega (arith, short, size_below false entries i entry at_i),
      omega (arith, short, starts_below false 0 entries i o at),
      omega (arith, short, directory),
      omega (arith, short, directory_size),
    )
