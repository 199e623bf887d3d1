-- ===== src/Chunks/Stream.antt =====
-- What `process_in_chunks` of packages/core/src/webrtc/webrtc.rs hands to its callback.
use aika.Common.{
  ℕ, zero, suc, ◌≤◌, ◌<◌, ◌≡◌, ◌∙◌, refl, sym, ap, inl, inr, Option, none, some, List, [], ◌∷◌,
  ◌++◌, length, length-append, length-drop, take, drop, take-append, drop-append, take_all,
  drop_all, take-drop, map, concat, leb, arith, Bool-cases, Option-cases,
}
use mathlib.Core.List.{append_assoc, append-nil}
use aika.Save.{Bytes}
use aika.Chunks.{
  and_then, drain, process, process_in_chunks, DataChannelMessage, binary_message, delimiter,
  receive_string_from_chunks,
}

-- Some bytes cut into pieces of `size`, the last one shorter; at most `fuel` pieces.
abbrev pub cut : ℕ → ℕ → Bytes → List Bytes
cut size zero bytes = []
cut size (suc fuel) [] = []
cut size (suc fuel) (b ∷ bytes) = take size (b ∷ bytes) ∷ cut size fuel (drop size (b ∷ bytes))

abbrev pub pieces : ℕ → Bytes → List Bytes
pieces size bytes = cut size (length bytes) bytes

cut_fuel :
    (size f g : ℕ) (bytes : Bytes)
    → 0 < size
    → length bytes ≤ f
    → length bytes ≤ g
    → cut size f bytes ≡ cut size g bytes
cut_fuel size zero zero bytes pos lf lg = refl
cut_fuel size zero (suc g) [] pos lf lg = refl
cut_fuel size zero (suc g) (b ∷ bytes) pos lf lg = absurd (omega (arith, lf))
cut_fuel size (suc f) zero [] pos lf lg = refl
cut_fuel size (suc f) zero (b ∷ bytes) pos lf lg = absurd (omega (arith, lg))
cut_fuel size (suc f) (suc g) [] pos lf lg = refl
cut_fuel size (suc f) (suc g) (b ∷ bytes) pos lf lg =
    let shorter = length-drop size (b ∷ bytes) in
    ap (λ r. take size (b ∷ bytes) ∷ r)
      (cut_fuel size f g (drop size (b ∷ bytes)) pos (omega (arith, lf, shorter, pos))
        (omega (arith, lg, shorter, pos)))

pieces_step :
    (size : ℕ) (bytes rest : Bytes)
    → 0 < size
    → size ≤ length bytes
    → pieces size (bytes ++ rest) ≡ take size bytes ∷ pieces size (drop size bytes ++ rest)
pieces_step size [] rest pos le = absurd (omega (arith, pos, le))
pieces_step size (b ∷ bytes) rest pos le =
    let shorter = length-drop size (b ∷ bytes) in
    let joined = length-append (drop size (b ∷ bytes)) rest in
    let all = length-append bytes rest in
    rw (take-append size (b ∷ bytes) rest le, drop-append size (b ∷ bytes) rest le)
      (ap (λ r. take size (b ∷ bytes) ∷ r)
        (cut_fuel size (length (bytes ++ rest)) (length (drop size (b ∷ bytes) ++ rest))
          (drop size (b ∷ bytes) ++ rest) pos (omega (arith, shorter, joined, all, pos, le))
          (omega arith)))

cut-nil : (size fuel : ℕ) → cut size fuel [] ≡ []
cut-nil size zero = refl
cut-nil size (suc fuel) = refl

last_piece :
    (size : ℕ) (b : ℕ) (bytes : Bytes)
    → length (b ∷ bytes) ≤ size
    → pieces size (b ∷ bytes) ≡ (b ∷ bytes) ∷ []
last_piece size b bytes short =
    rw
      (
        take_all size (b ∷ bytes) short,
        drop_all size (b ∷ bytes) short,
        cut-nil size (length bytes),
      )
      refl

and_then-some {ℓ} : {A : Type ℓ} (o : Option A) → and_then o (λ a. some a) ≡ o
and_then-some none = refl
and_then-some (some a) = refl

-- The callback on some pieces, one after the other, up to the first that fails.
abbrev pub send_all {ℓ} : {T : Type ℓ} → (T → Bytes → Option T) → T → List Bytes → Option T
send_all callback t [] = some t
send_all callback t (piece ∷ rest) = and_then (callback t piece) (λ t. send_all callback t rest)

module _ {ℓ} {T : Type ℓ} (size : ℕ) (callback : T → Bytes → Option T) where
  drained :
      (rx : List Bytes)
      → ((t : T) (buffer : Bytes)
          → length buffer < size
          → process size callback t buffer rx
            ≡ send_all callback t (pieces size (buffer ++ concat rx)))
      → 0 < size
      → (fuel : ℕ) (t : T) (buffer : Bytes) → length buffer ≤ fuel
      → and_then (drain size callback fuel t buffer) (λ r. process size callback r.0 r.1 rx)
        ≡ send_all callback t (pieces size (buffer ++ concat rx))
  unfolding drain
  drained rx later pos zero t buffer le = later t buffer (omega (arith, pos, le))
  drained rx later pos (suc fuel) t buffer le = elim (Bool-cases (leb size (length buffer))) [
    | inl full ↦
        rw (full, pieces_step size buffer (concat rx) pos (ground (arith, full)))
          (elim (Option-cases (callback t (take size buffer))) [
            | inl fails ↦ rw fails refl
            | inr (next, takes) ↦ rw takes (
                drained rx later pos fuel next (drop size buffer)
                  (omega (arith, le, pos, length-drop size buffer)))
          ])
    | inr short ↦ rw short (later t buffer (ground (arith, short)))
  ]

  processed :
      (rx : List Bytes) (t : T) (buffer : Bytes)
      → 0 < size
      → length buffer < size
      → process size callback t buffer rx ≡ send_all callback t (pieces size (buffer ++ concat rx))
  unfolding process
  processed [] t [] pos short = refl
  processed [] t (b ∷ buffer) pos short =
      let same = ap (λ r. send_all callback t (pieces size r)) (append-nil (b ∷ buffer)) in
      let piece = ap (send_all callback t) (last_piece size b buffer (omega (arith, short))) in
      sym (same ∙ piece ∙ and_then-some (callback t (b ∷ buffer)))
  processed (bytes ∷ rx) t buffer pos short =
      drained rx (λ t b less. processed rx t b pos less) pos (length (buffer ++ bytes)) t
        (buffer ++ bytes) (omega arith)
      ∙ ap (λ r. send_all callback t (pieces size r)) (append_assoc buffer bytes (concat rx))

  -- Whatever pieces the channel brings the bytes in, the callback gets them in pieces of the chunk
  -- size (which is positive), only the last one shorter, in their order, up to the first failure.
  pub process_in_chunks_exact :
      (t : T) (rx : List Bytes)
      → 0 < size
      → process_in_chunks size callback t rx ≡ send_all callback t (pieces size (concat rx))
  process_in_chunks_exact t rx pos = processed rx t [] pos pos

concat-cut :
    (size fuel : ℕ) (bytes : Bytes)
    → 0 < size
    → length bytes ≤ fuel
    → concat (cut size fuel bytes) ≡ bytes
concat-cut size zero [] pos le = refl
concat-cut size zero (b ∷ bytes) pos le = absurd (omega (arith, le))
concat-cut size (suc fuel) [] pos le = refl
concat-cut size (suc fuel) (b ∷ bytes) pos le =
    ap (λ r. take size (b ∷ bytes) ++ r)
      (concat-cut size fuel (drop size (b ∷ bytes)) pos
        (omega (arith, le, pos, length-drop size (b ∷ bytes))))
    ∙ take-drop size (b ∷ bytes)

pub concat-pieces : (size : ℕ) (bytes : Bytes) → 0 < size → concat (pieces size bytes) ≡ bytes
concat-pieces size bytes pos = concat-cut size (length bytes) bytes pos (omega arith)

-- A callback that sends each chunk as a message.
abbrev pub send_message : List DataChannelMessage → Bytes → Option (List DataChannelMessage)
send_message sent chunk = some (sent ++ binary_message chunk ∷ [])

send_all_messages :
    (sent : List DataChannelMessage) (ps : List Bytes)
    → send_all send_message sent ps ≡ some (sent ++ map binary_message ps)
send_all_messages sent [] = ap some (sym (append-nil sent))
send_all_messages sent (p ∷ ps) =
    send_all_messages (sent ++ binary_message p ∷ []) ps
    ∙ ap some (append_assoc sent (binary_message p ∷ []) (map binary_message ps))

receive_messages :
    (ps : List Bytes) (later : List DataChannelMessage)
    → receive_string_from_chunks (map binary_message ps ++ delimiter ∷ later) ≡ concat ps
unfolding receive_string_from_chunks
receive_messages [] later = refl
receive_messages (p ∷ ps) later = ap (λ r. p ++ r) (receive_messages ps later)

-- What is sent in chunks of any positive size, followed by a delimiter, is received whole, and
-- nothing that follows the delimiter is taken for a part of it.
pub chunks_roundtrip :
    (size : ℕ) (rx : List Bytes) (later : List DataChannelMessage)
    → 0 < size
    → (sent : List DataChannelMessage) × (process_in_chunks size send_message [] rx ≡ some sent)
      × (receive_string_from_chunks (sent ++ delimiter ∷ later) ≡ concat rx)
chunks_roundtrip size rx later pos =
    let ps = pieces size (concat rx) in
    (
      map binary_message ps,
      process_in_chunks_exact size send_message [] rx pos ∙ send_all_messages [] ps,
      receive_messages ps later ∙ concat-pieces size (concat rx) pos,
    )
