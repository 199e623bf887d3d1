-- ===== src/Save/Tests.antt =====
-- Runs of packages/core/src/http/server/common/save.rs on short bodies.
use aika.Common.{
  ap, true, concat, ◌≤◌, ◌≡◌, refl, none, some, List, [], ◌∷◌, length, arith, nat_eq, if◌then◌else◌,
}
use aika.Save.{
  Disk, ErrorKind, SaveFailure, saved, failed, Frame, binary, trailers, broken, save_to_disk,
  save_to_stream, forward_frames, write_file_from_receiver, write_chunks, open_file, write_chunk,
  from_io,
}
use aika.Save.Complete.{
  content, IsWhole, save_to_disk_sound, save_to_stream_sound, save_to_disk_complete,
  save_to_disk-bounded,
}

abbrev healthy : Disk
healthy = record { opening = none; writes = λ i. none; flushing = none }

-- The disk fills up after one byte of the second chunk.
abbrev full : Disk
full = record {
  opening = none;
  writes =
      λ i. if nat_eq i 1 then some (record { kind = ErrorKind.storage_full; partly = 1 }) else none;
  flushing = none;
}

abbrev body : List Frame
body = binary (1 ∷ 2 ∷ []) ∷ binary [] ∷ binary (3 ∷ 4 ∷ []) ∷ trailers ∷ []

body-saved : save_to_disk 4 healthy 8 body ≡ (saved, 1 ∷ 2 ∷ 3 ∷ 4 ∷ [])
unfolding save_to_disk forward_frames write_file_from_receiver write_chunks open_file write_chunk
body-saved = refl

body-cut :
    save_to_disk 4 healthy 8 (binary (1 ∷ []) ∷ broken ∷ []) ≡ (failed SaveFailure.other, 1 ∷ [])
unfolding save_to_disk forward_frames write_file_from_receiver write_chunks open_file write_chunk
body-cut = refl

body-too_long : save_to_disk 3 healthy 8 body ≡ (failed SaveFailure.other, 1 ∷ 2 ∷ [])
unfolding save_to_disk forward_frames write_file_from_receiver write_chunks open_file write_chunk
body-too_long = refl

body-disk_full : save_to_disk 4 full 8 body ≡ (failed SaveFailure.storage_full, 1 ∷ 2 ∷ 3 ∷ [])
unfolding save_to_disk forward_frames write_file_from_receiver write_chunks open_file write_chunk
    from_io
body-disk_full = refl

save_to_disk_sound_example :
    IsWhole body × ((save_to_disk 4 healthy 8 body).1 ≡ content body) × (length (content body) ≡ 4)
save_to_disk_sound_example =
    save_to_disk_sound 4 healthy 8 body (omega arith) (ground (arith, body-saved))

save_to_disk_complete_example : save_to_disk 4 healthy 8 body ≡ (saved, 1 ∷ 2 ∷ 3 ∷ 4 ∷ [])
save_to_disk_complete_example =
    save_to_disk_complete 4 healthy 8 body (omega arith) tt refl (omega arith) refl (λ j. refl) refl

save_to_disk-bounded_example : length (save_to_disk 4 full 8 body).1 ≤ 4
save_to_disk-bounded_example = save_to_disk-bounded 4 full 8 body (omega arith)

body-streamed : save_to_stream 8 (some true) body ≡ (saved, (1 ∷ 2 ∷ []) ∷ (3 ∷ 4 ∷ []) ∷ [])
unfolding save_to_stream forward_frames
body-streamed = refl

save_to_stream_sound_example :
    (some true ≡ some true)
    × IsWhole body
    × (concat (save_to_stream 8 (some true) body).1 ≡ content body)
save_to_stream_sound_example = save_to_stream_sound 8 (some true) body (ap (λ r. r.0) body-streamed)
