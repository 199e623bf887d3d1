-- ===== src/Web/DownloadZip/Chosen.antt =====
-- Which files a ZIP request gets, and under which names: `download_zip` of
-- packages/core/src/http/server/web.rs.
use aika.Common.{
  ◌≤◌, ◌≡◌, ◌≢◌, refl, sym, ap, subst, ◌∙◌, inl, inr, String, Option, none, some, List, [], ◌∷◌,
  map, length, ltb, All, arith, Bool-cases, decides, string_Eq, ne→==_false, Text, text_eq,
  text_eq_iff, codes,
}
use aika.Common.HashMap.{HashMap, get}
use aika.Model.{FileDto}
use aika.Http.{bad_request, Result, ok, err}
use aika.Web.DownloadZip.{max_zip_files, file_by_id, found_file, find_files, choose_files}

ok_value {ℓ} : {A : Type ℓ} → A → Result A → A
ok_value a (ok b) = b
ok_value a (err e) = a

pub ok_injective {ℓ} : {A : Type ℓ} (a b : A) → ok a ≡ ok b → a ≡ b
unfolding ok_value
ok_injective a b e = ap (ok_value a) e

abbrev key_or : String → Option (String × FileDto) → String
key_or key none = key
key_or key (some entry) = entry.0

abbrev dto_or : FileDto → Option (String × FileDto) → FileDto
dto_or dto none = dto
dto_or dto (some entry) = entry.1

file_by_id-found :
    (id : Text) (files : HashMap String FileDto) (key : String) (dto : FileDto)
    → file_by_id id files ≡ some (key, dto)
    → (codes key ≡ id) × (get key files ≡ some dto)
unfolding file_by_id get
file_by_id-found id [] key dto e = absurd (ground (arith, e))
file_by_id-found id ((j, other) ∷ files) key dto e = elim (Bool-cases (text_eq (codes j) id)) [
  | inl here ↦
      let found : some (j, other) ≡ some (key, dto) = sym (rw here refl) ∙ e in
      let own_key : j ≡ key = ap (λ o. key_or key o) found in
      let own_dto : other ≡ dto = ap (λ o. dto_or dto o) found in
      (
        ap codes (sym own_key) ∙ (text_eq_iff (codes j) id).0 here,
        rw ((decides j key).1 own_key) (ap some own_dto),
      )
  | inr elsewhere ↦
      let (same, held) = file_by_id-found id files key dto (sym (rw elsewhere refl) ∙ e) in
      let differs : j ≢ key = λ same_key.
        ground (arith, elsewhere, (text_eq_iff (codes j) id).1 (ap codes same_key ∙ same)) in
      (same, rw (ne→==_false j key differs) held)
]

found_file_ok :
    (found : Option (String × FileDto)) (rest : Result (HashMap String FileDto))
    (chosen : HashMap String FileDto)
    → found_file found rest ≡ ok chosen
    → (entry : String × FileDto) × (others : HashMap String FileDto) × (found ≡ some entry)
      × (rest ≡ ok others)
      × (chosen ≡ entry ∷ others)
found_file_ok none rest chosen e = absurd (ground (arith, e))
found_file_ok (some entry) (err why) chosen e = absurd (ground (arith, e))
found_file_ok (some entry) (ok others) chosen e =
    (entry, others, refl, refl, sym (ok_injective (entry ∷ others) chosen e))

-- Each file that is chosen is offered, and its ID is the one that was asked for.
abbrev pub AreFound : HashMap String FileDto → List Text → HashMap String FileDto → Type 0
AreFound files ids chosen =
    (map (λ entry. codes entry.0) chosen ≡ ids)
    × All (λ entry. get entry.0 files ≡ some entry.1) chosen

find_files-AreFound :
    (files : HashMap String FileDto) (ids : List Text) (chosen : HashMap String FileDto)
    → find_files files ids ≡ ok chosen
    → AreFound files ids chosen
unfolding find_files
find_files-AreFound files [] chosen e =
    subst (AreFound files []) (ok_injective [] chosen e) (refl, tt)
find_files-AreFound files (id ∷ ids) chosen e =
    let ((key, dto), others, found, rest, made) =
      found_file_ok (file_by_id id files) (find_files files ids) chosen e in
    let (same, held) = file_by_id-found id files key dto found in
    let (same_rest, held_rest) = find_files-AreFound files ids others rest in
    subst (AreFound files (id ∷ ids)) (sym made) (rw (same, same_rest) refl, (held, held_rest))

pub choose_files_ok :
    (files : HashMap String FileDto) (ids : List Text) (chosen : HashMap String FileDto)
    → choose_files files ids ≡ ok chosen
    → (1 ≤ length ids) × (length ids ≤ max_zip_files) × AreFound files ids chosen
unfolding choose_files
choose_files_ok files [] chosen e = absurd (ground (arith, e))
choose_files_ok files (id ∷ ids) chosen e =
    elim (Bool-cases (ltb max_zip_files (length (id ∷ ids)))) [
      | inl many ↦
          let refused : err (bad_request "Invalid fileIds.") ≡ ok chosen = sym (rw many refl) ∙ e in
          absurd (ground (arith, refused))
      | inr few ↦ (
        omega arith,
        ground (arith, few),
        find_files-AreFound files (id ∷ ids) chosen (sym (rw few refl) ∙ e),
      )
    ]
