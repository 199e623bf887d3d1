-- ===== src/Zip/Stream.antt =====
-- `stream_zip` of packages/core/src/http/server/web.rs: what it sends to a browser that stays.
use aika.Common.{ℕ, Option, none, some, List, [], ◌∷◌, ◌++◌, length, ltb, nat_eq, if◌then◌else◌}
use aika.Save.{Bytes}
use aika.Zip.{ZipEntry, ZipPlan, add_u64}
use aika.Zip.Crc.{crc_new, crc_update, crc_finish}
use aika.Zip.Records.{local_header, data_descriptor, central_directory}

-- The chunks sent, and the CRC if the content had the announced size.
unfoldable pub stream_content : ℕ → ℕ → ℕ → List Bytes → List Bytes × Option ℕ
stream_content expected crc written [] =
    ([], if nat_eq written expected then some (crc_finish crc) else none)
stream_content expected crc written (chunk ∷ chunks) =
    let total = add_u64 written (length chunk) in
    let (sent, end) = stream_content expected (crc_update chunk crc) total chunks in
    if ltb expected total then ([], none) else (chunk ∷ sent, end)

-- How the body ends: after the central directory, by `abort_zip`, or by a panic in the task.
pub data End : Type 0 where
  complete aborted panicked : End

abbrev pub finish : ZipPlan → Option Bytes → List Bytes × End
finish plan none = ([], panicked)
finish plan (some directory) = (directory ∷ [], complete)

-- What follows the content of an entry.
abbrev pub after_content : ZipPlan → ZipEntry → Option ℕ → (ℕ → List Bytes × End) → List Bytes × End
after_content plan entry none rest = ([], aborted)
after_content plan entry (some crc) rest =
    let (sent, end) = rest crc in (data_descriptor plan entry crc ∷ sent, end)

abbrev pub with_content :
    ZipPlan → ZipEntry → Option (List Bytes) → (ℕ → List Bytes × End) → List Bytes × End
with_content plan entry none rest = ([], aborted)
with_content plan entry (some chunks) rest =
    let (content, crc) = stream_content entry.size crc_new 0 chunks in
    let (sent, end) = after_content plan entry crc rest in (content ++ sent, end)

-- The loop over the entries; `contents` is what the application provides for each: `none` where
-- it is gone, or drops the channel. `crcs` are those of the entries so far.
unfoldable pub stream_entries :
    ZipPlan → List ZipEntry → List (Option (List Bytes)) → List ℕ → List Bytes × End
stream_entries plan [] contents crcs = finish plan (central_directory plan crcs)
stream_entries plan (entry ∷ entries) [] crcs = (local_header plan entry ∷ [], aborted)
stream_entries plan (entry ∷ entries) (content ∷ contents) crcs =
    let (sent, end) =
      with_content plan entry content
        (λ crc. stream_entries plan entries contents (crcs ++ crc ∷ [])) in
    (local_header plan entry ∷ sent, end)

abbrev pub stream_zip : ZipPlan → List (Option (List Bytes)) → List Bytes × End
stream_zip plan contents = stream_entries plan plan.entries contents []
