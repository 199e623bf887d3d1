-- ===== src/Save.antt =====
-- Receiving the body of an upload: packages/core/src/http/server/common/save.rs. The file system
-- is not this program's: what it answers to `open`, to each write and to `flush` is an argument.
pub mod Writer
pub mod Complete
mod Tests
use aika.Common.{
  ℕ, zero, suc, ◌+◌, ◌%◌, ◌^◌, Bool, true, false, Option, none, some, List, [], ◌∷◌, ◌++◌, length,
  take, ltb, nat_eq, if◌then◌else◌,
}

pub data SaveFailure : Type 0 where
  storage_full file_too_large other : SaveFailure

-- `std::io::ErrorKind`, as far as `from_io` tells its members apart.
pub data ErrorKind : Type 0 where
  storage_full quota_exceeded file_too_large another : ErrorKind

unfoldable pub from_io : ErrorKind → SaveFailure
from_io ErrorKind.storage_full = SaveFailure.storage_full
from_io quota_exceeded = SaveFailure.storage_full
from_io ErrorKind.file_too_large = SaveFailure.file_too_large
from_io another = other

-- `Result<(), WriteError>`: the message goes to the log and to the application only.
pub data Saved : Type 0 where
  saved : Saved
  failed : SaveFailure → Saved

abbrev pub Bytes : Type 0
Bytes = List ℕ

-- A write that fails has written some bytes first.
pub record WriteFault : Type 0 where
  pub kind : ErrorKind
  pub partly : ℕ

-- What the file system answers; `writes i` is for the chunk at position `i`.
pub record Disk : Type 0 where
  pub opening : Option ErrorKind
  pub writes : ℕ → Option WriteFault
  pub flushing : Option ErrorKind

-- The end of `write_file_from_receiver`: the flush, and the check of the size.
abbrev pub close_file : ℕ → ℕ → Option ErrorKind → Saved
close_file expected written (some kind) = failed (from_io kind)
close_file expected written none = if nat_eq written expected then saved else failed other

-- One `write_all`, and then the rest of the loop.
abbrev pub write_chunk : Option WriteFault → Bytes → Bytes → Saved × Bytes → Saved × Bytes
unfolding from_io
write_chunk none file chunk next = next
write_chunk (some fault) file chunk next =
    (failed (from_io fault.kind), file ++ take fault.partly chunk)

-- Its loop, over the chunks up to the end of the channel: the result, and the content of the
-- file. `written` is a `u64`.
unfoldable pub write_chunks : ℕ → Disk → ℕ → ℕ → Bytes → List Bytes → Saved × Bytes
write_chunks expected disk i written file [] = (close_file expected written disk.flushing, file)
write_chunks expected disk i written file (chunk ∷ rest) =
    let total = (written + length chunk) % 2 ^ 64 in
    let next = write_chunks expected disk (i + 1) total (file ++ chunk) rest in
    if ltb expected total then (failed other, file) else write_chunk (disk.writes i) file chunk next

-- `open.await?`, and then the loop.
abbrev pub open_file : Option ErrorKind → Saved × Bytes → Saved × Bytes
unfolding from_io
open_file none loop = loop
open_file (some kind) loop = (failed (from_io kind), [])

unfoldable pub write_file_from_receiver : ℕ → Disk → List Bytes → Saved × Bytes
write_file_from_receiver expected disk chunks =
    open_file disk.opening (write_chunks expected disk 0 0 [] chunks)

-- A frame of the request body: data, trailers, or an error in reading it.
pub data Frame : Type 0 where
  binary : Bytes → Frame
  trailers : Frame
  broken : Frame

-- The loop of `save_req_to_target` that forwards the body: what it sent, and `stream_error`.
-- `room` is how many chunks are taken before the receiver is gone.
unfoldable pub forward_frames : ℕ → List Frame → List Bytes × Bool
forward_frames room [] = ([], false)
forward_frames room (trailers ∷ frames) = forward_frames room frames
forward_frames room (broken ∷ frames) = ([], true)
forward_frames room (binary [] ∷ frames) = forward_frames room frames
forward_frames zero (binary (b ∷ bytes) ∷ frames) = ([], true)
forward_frames (suc room) (binary (b ∷ bytes) ∷ frames) =
    let (sent, stream_error) = forward_frames room frames in ((b ∷ bytes) ∷ sent, stream_error)

-- What comes back on `result_rx`; only a wait after a stream error is bounded.
pub data Report : Type 0 where
  reported : Saved → Report
  dropped : Report
  timed_out : Report

abbrev pub conclude : Bool → Report → Saved
conclude true (reported saved) = failed other
conclude false (reported saved) = saved
conclude stream_error (reported (failed failure)) = failed failure
conclude stream_error dropped = failed other
conclude stream_error timed_out = failed other

-- The answer of an application that consumes the stream itself: it gives no classification.
abbrev pub classify : Option Bool → Report
classify none = reported (failed other)
classify (some true) = reported saved
classify (some false) = reported (failed other)

-- `save_req_to_target` to a path or a descriptor: the body goes through the writer.
unfoldable pub save_to_disk : ℕ → Disk → ℕ → List Frame → Saved × Bytes
unfolding write_file_from_receiver forward_frames
save_to_disk expected disk room frames =
    let (sent, stream_error) = forward_frames room frames in
    let (result, file) = write_file_from_receiver expected disk sent in
    (conclude stream_error (reported result), file)

-- `save_req_to_target` to a stream of the application's: what it is sent, and the result.
unfoldable pub save_to_stream : ℕ → Option Bool → List Frame → Saved × List Bytes
unfolding forward_frames
save_to_stream room answer frames =
    let (sent, stream_error) = forward_frames room frames in
    (conclude stream_error (classify answer), sent)
