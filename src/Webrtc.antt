-- ===== src/Webrtc.antt =====
-- A transfer over a WebRTC data channel: packages/core/src/webrtc/webrtc.rs. What serde_json makes
-- of a message is not this program's and comes as an interface.
pub mod Send
pub mod Receive
pub mod Bounds
pub mod Delivery
pub mod Outcome
pub mod Pin
pub mod FileList
pub mod Dialogue
pub mod Handshake
pub mod Trust
mod Tests
use aika.Common.{ℕ, suc, ◌<◌, ◌≡◌, String, Bool, Option, none, some, List, [], ◌∷◌, length}
use aika.Common.HashMap.{HashMap}
use aika.Save.{Bytes}
use aika.Chunks.{DataChannelMessage, delimiter}
use aika.Model.{FileDto}

-- `serde_json::to_string` and `from_slice` at one type of messages, each a JSON object: it is read
-- back, is longer than one byte for its two braces, and the number 0 is not such an object.
pub record Serde {ℓ} (A : Type ℓ) : Type ℓ where
  pub to_string : A → Bytes
  pub from_slice : Bytes → Option A
  pub from-to : (a : A) → from_slice (to_string a) ≡ some a
  pub has_braces : (a : A) → 1 < length (to_string a)
  pub not_zero : from_slice delimiter.content ≡ none

pub record RtcSendFileHeaderRequest : Type 0 where
  pub id : String
  pub token : String

-- The error of a result that has none is reported as "Unknown error".
pub record RtcSendFileResponse : Type 0 where
  pub id : String
  pub success : Bool
  pub error : Option String

-- The texts of the errors of single files, by name.
pub data FileProblem : Type 0 where
  no_file_token channel_error invalid_token file_not_found no_size no_header : FileProblem
  too_long : ℕ → ℕ → FileProblem

pub record RtcFileError : Type 0 where
  pub file_id : String
  pub error : FileProblem

-- A file on its way: what its channel brings until it is closed.
pub record RtcFile : Type 0 where
  pub file_id : String
  pub binary_rx : List Bytes
