-- ===== src/Save/Complete.antt =====
-- When an upload is reported as saved: packages/core/src/http/server/common/save.rs.
use aika.Common.{
  true, Option, some, none, ℕ, zero, suc, ◌^◌, ◌≤◌, ◌<◌, ◌≡◌, ◌∙◌, ap, refl, sym, Bool, true, false,
  none, List, [], ◌∷◌, ◌++◌, concat, length, length-append, arith,
}
use aika.Save.{
  save_to_stream, classify, open_file, failed, saved, Saved, Bytes, Disk, Frame, binary, trailers,
  broken, write_chunks, write_file_from_receiver, forward_frames, save_to_disk, conclude, reported,
}
use aika.Save.Writer.{
  write_chunks_complete, write_chunks-bounded, open_file-bounded, write_file_from_receiver_sound,
}

-- The content of a body.
abbrev pub content : List Frame → Bytes
content [] = []
content (binary bytes ∷ frames) = bytes ++ content frames
content (trailers ∷ frames) = content frames
content (broken ∷ frames) = content frames

abbrev pub IsWhole : List Frame → Type 0
IsWhole [] = Unit
IsWhole (binary bytes ∷ frames) = IsWhole frames
IsWhole (trailers ∷ frames) = IsWhole frames
IsWhole (broken ∷ frames) = ⊥

-- How many chunks a body is sent in.
abbrev pub chunk_count : List Frame → ℕ
chunk_count [] = 0
chunk_count (binary [] ∷ frames) = chunk_count frames
chunk_count (binary (b ∷ bytes) ∷ frames) = suc (chunk_count frames)
chunk_count (trailers ∷ frames) = chunk_count frames
chunk_count (broken ∷ frames) = chunk_count frames

-- The loop that forwards ends well only behind the whole body.
forward_frames_sound :
    (room : ℕ) (frames : List Frame)
    → (forward_frames room frames).1 ≡ false
    → IsWhole frames × (concat (forward_frames room frames).0 ≡ content frames)
unfolding forward_frames
forward_frames_sound room [] e = (tt, refl)
forward_frames_sound room (trailers ∷ frames) e = forward_frames_sound room frames e
forward_frames_sound room (broken ∷ frames) e = ground arith
forward_frames_sound room (binary [] ∷ frames) e = forward_frames_sound room frames e
forward_frames_sound zero (binary (b ∷ bytes) ∷ frames) e = ground arith
forward_frames_sound (suc room) (binary (b ∷ bytes) ∷ frames) e =
    let (whole, sent) = forward_frames_sound room frames e in
    (whole, ap (λ r. (b ∷ bytes) ++ r) sent)

forward_frames_complete :
    (room : ℕ) (frames : List Frame)
    → IsWhole frames
    → chunk_count frames ≤ room
    → ((forward_frames room frames).1 ≡ false)
      × (concat (forward_frames room frames).0 ≡ content frames)
unfolding forward_frames
forward_frames_complete room [] whole le = (refl, refl)
forward_frames_complete room (trailers ∷ frames) whole le =
    forward_frames_complete room frames whole le
forward_frames_complete room (broken ∷ frames) whole le = absurd whole
forward_frames_complete room (binary [] ∷ frames) whole le =
    forward_frames_complete room frames whole le
forward_frames_complete zero (binary (b ∷ bytes) ∷ frames) whole le = absurd (omega (arith, le))
forward_frames_complete (suc room) (binary (b ∷ bytes) ∷ frames) whole le =
    let (fine, sent) = forward_frames_complete room frames whole (omega (arith, le)) in
    (fine, ap (λ r. (b ∷ bytes) ++ r) sent)

forward_frames-bounded :
    (room : ℕ) (frames : List Frame)
    → length (concat (forward_frames room frames).0) ≤ length (content frames)
unfolding forward_frames
forward_frames-bounded room [] = omega arith
forward_frames-bounded room (trailers ∷ frames) = forward_frames-bounded room frames
forward_frames-bounded room (broken ∷ frames) = omega arith
forward_frames-bounded room (binary [] ∷ frames) = forward_frames-bounded room frames
forward_frames-bounded zero (binary (b ∷ bytes) ∷ frames) = omega arith
forward_frames-bounded (suc room) (binary (b ∷ bytes) ∷ frames) = omega (
  arith,
  forward_frames-bounded room frames,
  length-append bytes (content frames),
  length-append bytes (concat (forward_frames room frames).0),
)

conclude_saved :
    (stream_error : Bool) (s : Saved)
    → conclude stream_error (reported s) ≡ saved
    → (stream_error ≡ false) × (s ≡ saved)
conclude_saved true saved e = ground arith
conclude_saved true (failed f) e = ground arith
conclude_saved false saved e = (refl, refl)
conclude_saved false (failed f) e = ground arith

-- An upload is reported as saved only if its body arrived whole, is as long as was announced and
-- is the content of the file, whatever the file system answered, for a body shorter than 2^64
-- bytes.
pub save_to_disk_sound :
    (expected : ℕ) (disk : Disk) (room : ℕ) (frames : List Frame)
    → length (content frames) < 2 ^ 64
    → (save_to_disk expected disk room frames).0 ≡ saved
    → IsWhole frames
      × ((save_to_disk expected disk room frames).1 ≡ content frames)
      × (length (content frames) ≡ expected)
unfolding save_to_disk write_file_from_receiver
save_to_disk_sound expected disk room frames fits e =
    let shorter = forward_frames-bounded room frames in
    let (stream, writer) =
      conclude_saved (forward_frames room frames).1
        (write_file_from_receiver expected disk (forward_frames room frames).0).0 e in
    let (whole, sent) = forward_frames_sound room frames stream in
    let (file, size) =
      write_file_from_receiver_sound expected disk (forward_frames room frames).0
        (omega (arith, fits, shorter)) writer in
    (whole, file ∙ sent, ap length (sym sent) ∙ size)

-- A body that arrives whole and is as long as was announced is saved, and is the content of the
-- file, when the file system answers no error and the writer takes every chunk.
pub save_to_disk_complete :
    (expected : ℕ) (disk : Disk) (room : ℕ) (frames : List Frame)
    → expected < 2 ^ 64
    → IsWhole frames
    → length (content frames) ≡ expected
    → chunk_count frames ≤ room
    → disk.opening ≡ none
    → ((j : ℕ) → disk.writes j ≡ none)
    → disk.flushing ≡ none
    → save_to_disk expected disk room frames ≡ (saved, content frames)
unfolding save_to_disk write_file_from_receiver open_file
save_to_disk_complete expected disk room frames fits whole size le opened fine flushed =
    let (stream, sent) = forward_frames_complete room frames whole le in
    let done =
      write_chunks_complete expected disk 0 0 [] (forward_frames room frames).0 fine flushed fits
        (omega (arith, ap length sent ∙ size)) in
    rw (stream, done, opened, sent) refl

-- However an upload ends, its file is no longer than was announced, for a body shorter than 2^64
-- bytes.
pub save_to_disk-bounded :
    (expected : ℕ) (disk : Disk) (room : ℕ) (frames : List Frame)
    → length (content frames) < 2 ^ 64
    → length (save_to_disk expected disk room frames).1 ≤ expected
unfolding save_to_disk write_file_from_receiver
save_to_disk-bounded expected disk room frames fits =
    let shorter = forward_frames-bounded room frames in
    let (sent, stream_error) = forward_frames room frames in
    open_file-bounded expected disk.opening (write_chunks expected disk 0 0 [] sent)
      (write_chunks-bounded expected disk 0 [] sent (omega (arith, fits, shorter)) (omega arith))

classify_saved :
    (stream_error : Bool) (answer : Option Bool)
    → conclude stream_error (classify answer) ≡ saved
    → (stream_error ≡ false) × (answer ≡ some true)
classify_saved stream_error answer e = ground arith

-- An upload to a stream of the application's is reported as saved only if the application says so,
-- the body arrived whole, and the application was sent all of it.
pub save_to_stream_sound :
    (room : ℕ) (answer : Option Bool) (frames : List Frame)
    → (save_to_stream room answer frames).0 ≡ saved
    → (answer ≡ some true)
      × IsWhole frames
      × (concat (save_to_stream room answer frames).1 ≡ content frames)
unfolding save_to_stream
save_to_stream_sound room answer frames e =
    let (stream, says) = classify_saved (forward_frames room frames).1 answer e in
    let (whole, sent) = forward_frames_sound room frames stream in (says, whole, sent)
