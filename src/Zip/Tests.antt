-- ===== src/Zip/Tests.antt =====
-- Runs of packages/core/src/http/server/web_zip.rs and of `stream_zip`.
use aika.Common.{
  ◌+◌, ◌*◌, ◌^◌, ◌<◌, ◌≡◌, refl, false, Option, some, List, [], ◌∷◌, ◌++◌, length, concat,
  get_elem?, arith,
}
use aika.Save.{Bytes}
use aika.Zip.{ZipEntry, new, needs_zip64, layout, place, sum_central, dos_date_time, civil}
use aika.Zip.Crc.{crc32, crc_update, crc_new, crc_finish, crc_table, crc_rounds}
use aika.Zip.Records.{central_directory}
use aika.Zip.Stream.{complete, aborted, stream_zip, stream_entries, stream_content}
use aika.Zip.Archive.{Provided, sections, section, crcs_of}
use aika.Zip.Sizes.{archive_len}
use aika.Zip.Delivery.{stream_zip_sound}
use aika.Zip.Format.{AreSections, IsDirectory}
use aika.Zip.Complete.{stream_zip_complete}
use aika.Zip.Offsets.{offsets_sound, classic_room}

-- "123456789"
check_value : crc32 (49 ∷ 50 ∷ 51 ∷ 52 ∷ 53 ∷ 54 ∷ 55 ∷ 56 ∷ 57 ∷ []) ≡ 3421780262
unfolding crc_update crc_new crc_finish crc_table crc_rounds
check_value = refl

-- 2023-11-14 22:13:20 UTC
date_value : dos_date_time 1700000000 ≡ (22 * 2048 + 13 * 32 + 10, 43 * 512 + 11 * 32 + 14)
unfolding dos_date_time civil
date_value = refl

abbrev one_file : List ZipEntry
one_file = record { name = 97 ∷ []; size = 3 } ∷ []

abbrev provided : List (Option (List Bytes))
provided = some ((1 ∷ 2 ∷ []) ∷ (3 ∷ []) ∷ []) ∷ []

one_file-fits : archive_len (needs_zip64 one_file) one_file < 2 ^ 64
unfolding needs_zip64
one_file-fits = omega arith

delivered : (stream_zip (new one_file 0) provided).1 ≡ complete
delivered = stream_zip_complete one_file 0 provided one_file-fits (omega arith, tt) (refl, tt)

too_short : (stream_zip (new one_file 0) (some ((1 ∷ []) ∷ []) ∷ [])).1 ≡ aborted
unfolding stream_entries stream_content new
too_short = refl

stream_zip_complete_example : (stream_zip (new one_file 0) provided).1 ≡ complete
stream_zip_complete_example =
    stream_zip_complete one_file 0 provided one_file-fits (omega arith, tt) (refl, tt)

stream_zip_sound_example :
    (length (concat (stream_zip (new one_file 0) provided).0) ≡ (new one_file 0).layout.total_len)
    × Provided one_file provided
    × ((directory : Bytes) × (central_directory (new one_file 0) (crcs_of one_file provided)
          ≡ some directory)
        × (concat (stream_zip (new one_file 0) provided).0
            ≡ sections (new one_file 0) one_file provided ++ directory)
        × AreSections one_file provided (sections (new one_file 0) one_file provided)
        × IsDirectory one_file provided directory)
stream_zip_sound_example =
    stream_zip_sound one_file 0 provided one_file-fits (omega arith, tt) delivered

offsets_sound_example :
    (before : Bytes) × (after : Bytes) × (directory : Bytes) × (concat
        (stream_zip (new one_file 0) provided).0
      ≡ (before
          ++ (section (new one_file 0) (record { name = 97 ∷ []; size = 3 }) (1 ∷ 2 ∷ 3 ∷ [])
              ++ after))
        ++ directory)
    × (get_elem? (new one_file 0).layout.offsets 0 ≡ some (length before))
    × ((new one_file 0).layout.central_offset
        ≡ length (
            before
            ++ (section (new one_file 0) (record { name = 97 ∷ []; size = 3 }) (1 ∷ 2 ∷ 3 ∷ [])
                ++ after)))
offsets_sound_example =
    offsets_sound one_file 0 provided 0 (record { name = 97 ∷ []; size = 3 })
      (some ((1 ∷ 2 ∷ []) ∷ (3 ∷ []) ∷ [])) one_file-fits (omega arith, tt) delivered refl refl

one_file-classic : (new one_file 0).zip64 ≡ false
unfolding new needs_zip64 layout place sum_central
one_file-classic = refl

one_file-placed : get_elem? (new one_file 0).layout.offsets 0 ≡ some 0
unfolding new needs_zip64 layout place sum_central
one_file-placed = refl

classic_room_example :
    (length one_file < 2 ^ 16)
    × (3 < 2 ^ 32)
    × (0 < 2 ^ 32)
    × ((new one_file 0).layout.central_offset < 2 ^ 32)
    × ((new one_file 0).layout.central_size < 2 ^ 32)
classic_room_example =
    classic_room one_file 0 0 0 (record { name = 97 ∷ []; size = 3 }) (omega arith) one_file-classic
      refl one_file-placed
