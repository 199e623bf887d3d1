-- ===== src/Zip/Archive.antt =====
-- The body that `stream_zip` of packages/core/src/http/server/web.rs sends, as one archive: its
-- content, its length and where its parts stand.
use aika.Common.{
  ℕ, ◌+◌, ◌^◌, ◌<◌, ◌≡◌, ◌∙◌, inl, inr, refl, sym, ap, subst, Option, none, some, List, [], ◌∷◌,
  ◌++◌, length, length-append, concat, ltb, arith, All, Bool-cases, Option-cases,
}
use mathlib.Core.List.{append_assoc, append-nil}
use aika.Save.{Bytes}
use aika.Zip.{ZipEntry, ZipPlan, add_u64}
use aika.Zip.Crc.{crc32, crc_new, crc_update, crc_finish, crc_update-append}
use aika.Zip.Records.{local_header, data_descriptor, central_directory}
use aika.Zip.Stream.{End, complete, finish, with_content, stream_content, stream_entries}

-- The content of a file, `[]` where the application provides none.
abbrev pub body : Option (List Bytes) → Bytes
body none = []
body (some chunks) = concat chunks

-- The section of one entry, and those of all entries.
abbrev pub section : ZipPlan → ZipEntry → Bytes → Bytes
section plan entry bytes =
    local_header plan entry ++ (bytes ++ data_descriptor plan entry (crc32 bytes))

abbrev pub sections : ZipPlan → List ZipEntry → List (Option (List Bytes)) → Bytes
sections plan (entry ∷ entries) (content ∷ contents) =
    section plan entry (body content) ++ sections plan entries contents
sections plan _ _ = []

abbrev pub crcs_of : List ZipEntry → List (Option (List Bytes)) → List ℕ
crcs_of (entry ∷ entries) (content ∷ contents) = crc32 (body content) ∷ crcs_of entries contents
crcs_of _ _ = []

-- Every entry has a content of its size.
abbrev pub Provided : List ZipEntry → List (Option (List Bytes)) → Type 0
Provided [] contents = Unit
Provided (entry ∷ entries) [] = ⊥
Provided (entry ∷ entries) (none ∷ contents) = ⊥
Provided (entry ∷ entries) (some chunks ∷ contents) =
    (length (concat chunks) ≡ entry.size) × Provided entries contents

-- No content reaches 2 ^ 64 bytes.
abbrev pub IsShort : Option (List Bytes) → Type 0
IsShort content = length (body content) < 2 ^ 64

stream_content_sound :
    (expected crc written : ℕ) (chunks : List Bytes) (c : ℕ)
    → written + length (concat chunks) < 2 ^ 64
    → (stream_content expected crc written chunks).1 ≡ some c
    → (concat (stream_content expected crc written chunks).0 ≡ concat chunks)
      × (c ≡ crc_finish (crc_update (concat chunks) crc))
      × (written + length (concat chunks) ≡ expected)
unfolding stream_content crc_update
stream_content_sound expected crc written [] c fits e = (refl, ground arith, ground arith)
stream_content_sound expected crc written (chunk ∷ chunks) c fits e =
    let all = length-append chunk (concat chunks) in
    let exact : add_u64 written (length chunk) ≡ written + length chunk =
      omega (arith, fits, all) in
    let total = add_u64 written (length chunk) in
    elim (Bool-cases (ltb expected total)) [
      | inl over ↦ absurd (ground (arith, over, e))
      | inr within ↦
          let ends : (stream_content expected (crc_update chunk crc) total chunks).1 ≡ some c =
            sym (rw within refl) ∙ e in
          let (sent, crc_is, size) =
            stream_content_sound expected (crc_update chunk crc) total chunks c
              (omega (arith, fits, all, exact)) ends in
          (
            rw within (ap (λ r. chunk ++ r) sent),
            crc_is ∙ ap crc_finish (sym (crc_update-append chunk (concat chunks) crc)),
            omega (arith, size, all, exact),
          )
    ]

pub concat-append : (xs ys : List Bytes) → concat (xs ++ ys) ≡ concat xs ++ concat ys
concat-append [] ys = refl
concat-append (x ∷ xs) ys =
    ap (λ r. x ++ r) (concat-append xs ys) ∙ sym (append_assoc x (concat xs) (concat ys))

module _ (plan : ZipPlan) (entry : ZipEntry) (rest : ℕ → List Bytes × End) where
  with_content-some :
      (chunks : List Bytes)
      → length (concat chunks) < 2 ^ 64
      → (with_content plan entry (some chunks) rest).1 ≡ complete
      → (length (concat chunks) ≡ entry.size)
        × ((rest (crc32 (concat chunks))).1 ≡ complete)
        × (concat (with_content plan entry (some chunks) rest).0
            ≡ concat chunks
              ++ (data_descriptor plan entry (crc32 (concat chunks))
                  ++ concat (rest (crc32 (concat chunks))).0))
  with_content-some chunks fits e =
      let crc = crc32 (concat chunks) in
      let streamed = stream_content entry.size crc_new 0 chunks in
      elim (Option-cases streamed.1) [
        | inl bad ↦ absurd (ground (arith, bad, e))
        | inr (c, good) ↦
            let (sent, crc_is, size) =
              stream_content_sound entry.size crc_new 0 chunks c (omega (arith, fits)) good in
            let ends : (rest c).1 ≡ complete = sym (rw good refl) ∙ e in
            let known : streamed.1 ≡ some (crc32 (concat chunks)) = good ∙ ap some crc_is in
            (
              omega (arith, size),
              subst (λ c. (rest c).1 ≡ complete) crc_is ends,
              rw known (
                  concat-append streamed.0 (data_descriptor plan entry crc ∷ (rest crc).0)
                  ∙ ap (λ r. r ++ (data_descriptor plan entry crc ++ concat (rest crc).0)) sent),
            )
      ]

finish-complete :
    (plan : ZipPlan) (made : Option Bytes)
    → (finish plan made).1 ≡ complete
    → (directory : Bytes) × (made ≡ some directory) × (concat (finish plan made).0 ≡ directory)
finish-complete plan none e = absurd (ground (arith, e))
finish-complete plan (some directory) e = (directory, refl, append-nil directory)

-- How the parts of an archive are joined.
regroup :
    (header bytes descriptor others directory : Bytes)
    → header ++ (bytes ++ (descriptor ++ (others ++ directory)))
      ≡ ((header ++ (bytes ++ descriptor)) ++ others) ++ directory
regroup header bytes descriptor others directory = simp append_assoc refl

pub stream_entries_sound :
    (plan : ZipPlan) (entries : List ZipEntry) (contents : List (Option (List Bytes)))
    (crcs : List ℕ)
    → All IsShort contents
    → (stream_entries plan entries contents crcs).1 ≡ complete
    → Provided entries contents
      × ((directory : Bytes) × (central_directory plan (crcs ++ crcs_of entries contents)
            ≡ some directory)
          × (concat (stream_entries plan entries contents crcs).0
              ≡ sections plan entries contents ++ directory))
unfolding stream_entries
stream_entries_sound plan [] contents crcs short e =
    let (directory, made, sent) = finish-complete plan (central_directory plan crcs) e in
    (tt, (directory, ap (central_directory plan) (append-nil crcs) ∙ made, sent))
stream_entries_sound plan (entry ∷ entries) [] crcs short e = absurd (ground (arith, e))
stream_entries_sound plan (entry ∷ entries) (none ∷ contents) crcs short e =
    absurd (ground (arith, e))
stream_entries_sound plan (entry ∷ entries) (some chunks ∷ contents) crcs short e =
    let crc = crc32 (concat chunks) in
    let (size, ends, sent) =
      with_content-some plan entry (λ crc. stream_entries plan entries contents (crcs ++ crc ∷ []))
        chunks short.0 e in
    let (provided, (directory, made, archive)) =
      stream_entries_sound plan entries contents (crcs ++ crc ∷ []) short.1 ends in
    (
      (size, provided),
      (
        directory,
        ap (central_directory plan) (sym (append_assoc crcs (crc ∷ []) (crcs_of entries contents)))
            ∙ made,
        ap (λ r. local_header plan entry ++ r)
              (sent ∙ ap (λ r. concat chunks ++ (data_descriptor plan entry crc ++ r)) archive)
            ∙ regroup (local_header plan entry) (concat chunks) (data_descriptor plan entry crc)
                (sections plan entries contents) directory,
      ),
    )
