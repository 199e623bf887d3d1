-- ===== src/Save/Writer.antt =====
-- The writer of an upload's file, in packages/core/src/http/server/common/save.rs: what it reports,
-- and what it leaves in the file.
use aika.Common.{
  ℕ, ◌+◌, ◌%◌, ◌^◌, ◌≤◌, ◌<◌, ◌≡◌, ◌∙◌, ap, refl, sym, inl, inr, false, Option, none, some, List,
  [], ◌∷◌, ◌++◌, concat, length, length-append, length-take, take, arith, if◌then◌else◌, Bool-cases,
  ltb,
}
use aika.Save.{
  open_file, ErrorKind, WriteFault, failed, saved, other, Saved, Bytes, Disk, write_chunk,
  write_chunks, write_file_from_receiver,
}
use mathlib.Core.List.{append_assoc, append-nil}

-- The sum of the `u64` does not wrap.
add_exact :
    (written : ℕ) (c : Bytes) (cs : List Bytes)
    → written + length (concat (c ∷ cs)) < 2 ^ 64
    → ((written + length c) % 2 ^ 64 ≡ written + length c)
      × (written + length c + length (concat cs) ≡ written + length (concat (c ∷ cs)))
add_exact written c cs fits =
    (omega (arith, fits, length-append c (concat cs)), omega (arith, length-append c (concat cs)))

write_chunk_saved :
    (w : Option WriteFault) (file c : Bytes) (next : Saved × Bytes)
    → (write_chunk w file c next).0 ≡ saved
    → write_chunk w file c next ≡ next
unfolding write_chunk
write_chunk_saved none file c next e = refl
write_chunk_saved (some fault) file c next e = ground arith

write_chunk-bounded :
    (expected : ℕ) (w : Option WriteFault) (file c : Bytes) (next : Saved × Bytes)
    → length next.1 ≤ expected
    → length file + length c ≤ expected
    → length (write_chunk w file c next).1 ≤ expected
unfolding write_chunk
write_chunk-bounded expected none file c next le room = le
write_chunk-bounded expected (some fault) file c next le room =
    omega (arith, room, length-append file (take fault.partly c), length-take fault.partly c)

module _ (expected : ℕ) (disk : Disk) where
  write_chunks-cons :
      (i written : ℕ) (file c : Bytes) (cs : List Bytes)
      → written + length (concat (c ∷ cs)) < 2 ^ 64
      → write_chunks expected disk i written file (c ∷ cs) ≡ (
          if ltb expected (written + length c)
          then (failed other, file)
          else write_chunk
              (disk.writes i)
              file
              c
              (write_chunks expected disk (i + 1) (written + length c) (file ++ c) cs))
  unfolding write_chunks
  write_chunks-cons i written file c cs fits =
      ap
        (λ total.
          if ltb expected total
          then (failed other, file)
          else write_chunk (disk.writes i) file c
              (write_chunks expected disk (i + 1) total (file ++ c) cs))
        (add_exact written c cs fits).0

  -- A chunk after which the loop ends well is written, and within the size.
  write_chunks-cons_saved :
      (i written : ℕ) (file c : Bytes) (cs : List Bytes)
      → written + length (concat (c ∷ cs)) < 2 ^ 64
      → (write_chunks expected disk i written file (c ∷ cs)).0 ≡ saved
      → write_chunks expected disk i written file (c ∷ cs)
        ≡ write_chunks expected disk (i + 1) (written + length c) (file ++ c) cs
  write_chunks-cons_saved i written file c cs fits e =
      let cons = write_chunks-cons i written file c cs fits in
      let next = write_chunks expected disk (i + 1) (written + length c) (file ++ c) cs in
      elim (Bool-cases (ltb expected (written + length c))) [
        | inl over ↦ ground (arith, over)
        | inr small ↦ ground (arith, small, write_chunk_saved (disk.writes i) file c next)
      ]

  write_chunks_sound :
      (i written : ℕ) (file : Bytes) (chunks : List Bytes)
      → written + length (concat chunks) < 2 ^ 64
      → (write_chunks expected disk i written file chunks).0 ≡ saved
      → ((write_chunks expected disk i written file chunks).1 ≡ file ++ concat chunks)
        × (written + length (concat chunks) ≡ expected)
  unfolding write_chunks
  write_chunks_sound i written file [] fits e = (sym (append-nil file), ground arith)
  write_chunks_sound i written file (c ∷ cs) fits e =
      let next = write_chunks-cons_saved i written file c cs fits e in
      let same = (add_exact written c cs fits).1 in
      let (whole, size) =
        write_chunks_sound (i + 1) (written + length c) (file ++ c) cs (omega (arith, fits, same))
          (sym (ap (λ r. r.0) next) ∙ e) in
      (ap (λ r. r.1) next ∙ whole ∙ append_assoc file c (concat cs), omega (arith, size, same))

  pub write_chunks_complete :
      (i written : ℕ) (file : Bytes) (chunks : List Bytes)
      → ((j : ℕ) → disk.writes j ≡ none)
      → disk.flushing ≡ none
      → expected < 2 ^ 64
      → written + length (concat chunks) ≡ expected
      → write_chunks expected disk i written file chunks ≡ (saved, file ++ concat chunks)
  unfolding write_chunks write_chunk
  write_chunks_complete i written file [] fine flushed fits size =
      rw (flushed, append-nil) (ground arith)
  write_chunks_complete i written file (c ∷ cs) fine flushed fits size =
      let within : written + length (concat (c ∷ cs)) < 2 ^ 64 = omega (arith, size, fits) in
      let same = (add_exact written c cs within).1 in
      let small : ltb expected (written + length c) ≡ false = ground (arith, size, same) in
      let ih =
        write_chunks_complete (i + 1) (written + length c) (file ++ c) cs fine flushed fits
          (same ∙ size) in
      write_chunks-cons i written file c cs within
      ∙ rw (small, fine i, ih, append_assoc file c (concat cs)) refl

  -- The file never outgrows the announced size.
  pub write_chunks-bounded :
      (i : ℕ) (file : Bytes) (chunks : List Bytes)
      → length file + length (concat chunks) < 2 ^ 64
      → length file ≤ expected
      → length (write_chunks expected disk i (length file) file chunks).1 ≤ expected
  unfolding write_chunks
  write_chunks-bounded i file [] fits le = le
  write_chunks-bounded i file (c ∷ cs) fits le =
      let cons = write_chunks-cons i (length file) file c cs fits in
      let same = (add_exact (length file) c cs fits).1 in
      let grown = length-append file c in
      rw cons (elim (Bool-cases (ltb expected (length file + length c))) [
        | inl over ↦ rw over le
        | inr small ↦
            rw (small, sym grown)
              (write_chunk-bounded expected (disk.writes i) file c
                (write_chunks expected disk (i + 1) (length (file ++ c)) (file ++ c) cs)
                (write_chunks-bounded (i + 1) (file ++ c) cs (omega (arith, fits, same, grown))
                  (ground (arith, small, grown)))
                (ground (arith, small)))
      ])

open_file_saved :
    (o : Option ErrorKind) (loop : Saved × Bytes)
    → (open_file o loop).0 ≡ saved
    → open_file o loop ≡ loop
unfolding open_file
open_file_saved none loop e = refl
open_file_saved (some kind) loop e = ground arith

pub open_file-bounded :
    (expected : ℕ) (o : Option ErrorKind) (loop : Saved × Bytes)
    → length loop.1 ≤ expected
    → length (open_file o loop).1 ≤ expected
unfolding open_file
open_file-bounded expected none loop le = le
open_file-bounded expected (some kind) loop le = omega arith

pub write_file_from_receiver_sound :
    (expected : ℕ) (disk : Disk) (chunks : List Bytes)
    → length (concat chunks) < 2 ^ 64
    → (write_file_from_receiver expected disk chunks).0 ≡ saved
    → ((write_file_from_receiver expected disk chunks).1 ≡ concat chunks)
      × (length (concat chunks) ≡ expected)
unfolding write_file_from_receiver
write_file_from_receiver_sound expected disk chunks fits e =
    let opened = open_file_saved disk.opening (write_chunks expected disk 0 0 [] chunks) e in
    let (file, size) =
      write_chunks_sound expected disk 0 0 [] chunks (omega (arith, fits))
        (sym (ap (λ r. r.0) opened) ∙ e) in
    (ap (λ r. r.1) opened ∙ file, omega (arith, size))
