-- ===== src/Chunks.antt =====
-- Sending over a data channel in chunks: `process_in_chunks` and `receive_string_from_chunks` of
-- packages/core/src/webrtc/webrtc.rs.
pub mod Stream
mod Tests
use aika.Common.{
  ℕ, zero, suc, ◌*◌, Bool, true, false, Option, none, some, List, [], ◌∷◌, ◌++◌, length, take, drop,
  is_empty, leb, if◌then◌else◌,
}
use aika.Save.{Bytes}

abbrev pub chunk_size : ℕ
chunk_size = 16 * 1024

abbrev pub and_then {ℓ κ} : {A : Type ℓ} {B : Type κ} → Option A → (A → Option B) → Option B
and_then none f = none
and_then (some a) f = f a

module _ {ℓ} {T : Type ℓ} (size : ℕ) (callback : T → Bytes → Option T) where
  -- The inner loop, for at most `fuel` rounds; each takes `size` bytes, which are more than none,
  -- so that the length of the buffer is enough.
  unfoldable pub drain : ℕ → T → Bytes → Option (T × Bytes)
  drain zero t buffer = some (t, buffer)
  drain (suc fuel) t buffer =
      let rest = and_then (callback t (take size buffer)) (λ t. drain fuel t (drop size buffer)) in
      if leb size (length buffer) then rest else some (t, buffer)

  -- The outer loop over what the channel brings, and the rest behind it.
  unfoldable pub process : T → Bytes → List Bytes → Option T
  process t buffer [] = if is_empty buffer then some t else callback t buffer
  process t buffer (bytes ∷ rx) =
      and_then (drain (length (buffer ++ bytes)) t (buffer ++ bytes)) (λ r. process r.0 r.1 rx)

  abbrev pub process_in_chunks : T → List Bytes → Option T
  process_in_chunks t rx = process t [] rx

-- A message of a data channel; a string ends what is sent in chunks.
pub record DataChannelMessage : Type 0 where
  pub is_string : Bool
  pub content : Bytes

abbrev pub binary_message : Bytes → DataChannelMessage
binary_message chunk = record { is_string = false; content = chunk }

-- What `send_delimiter` sends: the text "0".
abbrev pub delimiter : DataChannelMessage
delimiter = record { is_string = true; content = 48 ∷ [] }

unfoldable pub receive_string_from_chunks : List DataChannelMessage → Bytes
receive_string_from_chunks [] = []
receive_string_from_chunks (m ∷ messages) =
    let rest = receive_string_from_chunks messages in if m.is_string then [] else m.content ++ rest
