-- ===== src/Chunks/Tests.antt =====
-- Runs of `process_in_chunks` of packages/core/src/webrtc/webrtc.rs, in chunks of two bytes.
use aika.Common.{◌≡◌, refl, some, List, [], ◌∷◌, ◌++◌, concat, arith}
use aika.Save.{Bytes}
use aika.Chunks.{
  process_in_chunks, process, drain, DataChannelMessage, binary_message, delimiter,
  receive_string_from_chunks,
}
use aika.Chunks.Stream.{send_message, send_all, pieces, process_in_chunks_exact, chunks_roundtrip}

abbrev arriving : List Bytes
arriving = (1 ∷ []) ∷ (2 ∷ 3 ∷ 4 ∷ 5 ∷ []) ∷ []

in_twos :
    process_in_chunks 2 send_message [] arriving
    ≡ some
        (binary_message (1 ∷ 2 ∷ []) ∷ binary_message (3 ∷ 4 ∷ []) ∷ binary_message (5 ∷ []) ∷ [])
unfolding process drain
in_twos = refl

process_in_chunks_exact_example :
    process_in_chunks 2 send_message [] arriving
    ≡ send_all send_message [] (pieces 2 (1 ∷ 2 ∷ 3 ∷ 4 ∷ 5 ∷ []))
process_in_chunks_exact_example = process_in_chunks_exact 2 send_message [] arriving (omega arith)

chunks_roundtrip_example :
    (sent : List DataChannelMessage) × (process_in_chunks 2 send_message [] arriving ≡ some sent)
    × (receive_string_from_chunks (sent ++ delimiter ∷ binary_message (9 ∷ []) ∷ [])
        ≡ concat arriving)
chunks_roundtrip_example = chunks_roundtrip 2 arriving (binary_message (9 ∷ []) ∷ []) (omega arith)
