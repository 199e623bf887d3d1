-- ===== src/Web/DownloadZip/Ids.antt =====
-- The file IDs of a ZIP request: `download_zip` of packages/core/src/http/server/web.rs.
use aika.Common.{
  trim_start, trim_end, ◌⊎◌, ◌≤◌, length, ◌≡◌, ◌≢◌, refl, ap, inl, inr, true, false, ◌||◌, Option,
  none, some, List, [], ◌∷◌, map, is_empty, any, All, arith, Bool-cases, Text, text_eq, text_eq_iff,
  split,
}
use aika.Zip.Names.Distinct.{Distinct}
use aika.Web.DownloadZip.{trim, comma, collect_ids, ids_of}

-- An ID that is not empty and not among those seen.
abbrev IsNew : List Text → Text → Type 0
IsNew seen id = (any (text_eq id) seen ≡ false) × (id ≢ [])

All-IsNew_less :
    (id : Text) (seen ids : List Text) → All (IsNew (id ∷ seen)) ids → All (IsNew seen) ids
All-IsNew_less id seen [] all = tt
All-IsNew_less id seen (x ∷ ids) ((free, full), all) =
    ((ground (arith, free), full), All-IsNew_less id seen ids all)

collect_ids-IsNew : (seen parts : List Text) → All (IsNew seen) (collect_ids seen parts)
unfolding collect_ids
collect_ids-IsNew seen [] = tt
collect_ids-IsNew seen (part ∷ parts) =
    elim (Bool-cases (is_empty (trim part) || any (text_eq (trim part)) seen)) [
      | inl dropped ↦ rw dropped (collect_ids-IsNew seen parts)
      | inr kept ↦
          let full : trim part ≢ [] = λ empty. ground (arith, kept, ap is_empty empty) in
          rw kept (
            (ground (arith, kept), full),
            All-IsNew_less (trim part) seen _ (collect_ids-IsNew (trim part ∷ seen) parts),
          )
    ]

absent :
    (id : Text) (seen ids : List Text) → All (IsNew (id ∷ seen)) ids → any (text_eq id) ids ≡ false
absent id seen [] all = refl
absent id seen (x ∷ ids) ((free, full), all) =
    ground (arith, free, text_eq_iff id x, text_eq_iff x id, absent id seen ids all)

collect_ids-Distinct : (seen parts : List Text) → Distinct (collect_ids seen parts)
unfolding collect_ids
collect_ids-Distinct seen [] = tt
collect_ids-Distinct seen (part ∷ parts) =
    elim (Bool-cases (is_empty (trim part) || any (text_eq (trim part)) seen)) [
      | inl dropped ↦ rw dropped (collect_ids-Distinct seen parts)
      | inr kept ↦ rw kept (
        absent (trim part) seen _ (collect_ids-IsNew (trim part ∷ seen) parts),
        collect_ids-Distinct (trim part ∷ seen) parts,
      )
    ]

any_same :
    (id t : Text) (seen : List Text)
    → text_eq id t ≡ true
    → any (text_eq id) seen ≡ any (text_eq t) seen
any_same id t seen same = ap (λ i. any (text_eq i) seen) ((text_eq_iff id t).0 same)

not_empty : (id t : Text) → id ≢ [] → is_empty t ≡ true → text_eq id t ≡ false
not_empty [] t full empty = absurd (full refl)
not_empty (c ∷ id) [] full empty = refl
not_empty (c ∷ id) (d ∷ t) full empty = absurd (ground (arith, empty))

collect_ids-any :
    (id : Text) (seen parts : List Text)
    → id ≢ []
    → (any (text_eq id) seen || any (text_eq id) (collect_ids seen parts))
      ≡ (any (text_eq id) seen || any (text_eq id) (map trim parts))
unfolding collect_ids
collect_ids-any id seen [] full = refl
collect_ids-any id seen (part ∷ parts) full =
    elim (Bool-cases (is_empty (trim part) || any (text_eq (trim part)) seen)) [
      | inl dropped ↦ rw dropped (
          ground (
            arith,
            dropped,
            collect_ids-any id seen parts full,
            any_same id (trim part) seen,
            not_empty id (trim part) full,
          ))
      | inr kept ↦ rw kept (ground (arith, collect_ids-any id (trim part ∷ seen) parts full))
    ]

-- The first list is what is left of the second when some of it is crossed out.
abbrev pub IsSublist : List Text → List Text → Type 0
IsSublist [] parts = Unit
IsSublist (id ∷ ids) [] = ⊥
IsSublist (id ∷ ids) (part ∷ parts) =
    ((id ≡ part) × IsSublist ids parts) ⊎ IsSublist (id ∷ ids) parts

IsSublist-skip :
    (ids : List Text) (part : Text) (parts : List Text)
    → IsSublist ids parts
    → IsSublist ids (part ∷ parts)
IsSublist-skip [] part parts s = tt
IsSublist-skip (id ∷ ids) part parts s = inr s

collect_ids-IsSublist :
    (seen parts : List Text) → IsSublist (collect_ids seen parts) (map trim parts)
unfolding collect_ids
collect_ids-IsSublist seen [] = tt
collect_ids-IsSublist seen (part ∷ parts) =
    elim (Bool-cases (is_empty (trim part) || any (text_eq (trim part)) seen)) [
      | inl dropped ↦
          rw dropped
            (IsSublist-skip _ (trim part) (map trim parts) (collect_ids-IsSublist seen parts))
      | inr kept ↦ rw kept (inl (refl, collect_ids-IsSublist (trim part ∷ seen) parts))
    ]

-- The IDs that a text asks for, separated by commas: each that is not empty, once, in their order.
pub record AreAsked (text : Text) (ids : List Text) : Type 0 where
  pub distinct : Distinct ids
  pub in_order : IsSublist ids (map (λ part. trim_end (trim_start part)) (split b',' text))
  pub all_there :
      (id : Text)
      → id ≢ []
      → any (text_eq id) ids
        ≡ any (text_eq id) (map (λ part. trim_end (trim_start part)) (split b',' text))

pub ids_of-AreAsked : (text : Text) → AreAsked text (ids_of (some text))
unfolding ids_of trim
ids_of-AreAsked text = record {
  distinct = collect_ids-Distinct [] (split comma text);
  in_order = collect_ids-IsSublist [] (split comma text);
  all_there = λ id full. collect_ids-any id [] (split comma text) full;
}

-- Without the field there are none.
pub asked_text : (ids : Option Text) → 1 ≤ length (ids_of ids) → (text : Text) × (ids ≡ some text)
unfolding ids_of
asked_text none h = absurd (omega (arith, h))
asked_text (some text) h = (text, refl)
