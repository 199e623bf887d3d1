-- ===== src/Zip/Names/Ascii.antt =====
-- Lower case for ASCII texts, for which the names of packages/core/src/http/server/web_zip.rs differ.
use aika.Common.{
  ℕ, ◌≡◌, refl, ap, ◌∙◌, ◌&&◌, ◌+◌, leb, inl, inr, if◌then◌else◌, ◌∷◌, ◌++◌, map, arith,
}
use mathlib.Core.List.{map-append}
use aika.Zip.Names.Distinct.{IsUncased, LowerCase}

-- Lower case for ASCII.
abbrev pub to_lower : ℕ → ℕ
to_lower c = if leb 65 c && leb c 90 then c + 32 else c

uncased_stays : (c : ℕ) → IsUncased c → to_lower c ≡ c
uncased_stays c (inl space) = ground (arith, space)
uncased_stays c (inr (inl bracket)) = ground (arith, bracket)
uncased_stays c (inr (inr digit)) = ground (arith, digit)

pub ascii-LowerCase : LowerCase (map to_lower)
ascii-LowerCase = record {
  of_empty = refl;
  apart = λ c before after h.
      map-append to_lower before (c ∷ after)
      ∙ ap (λ d. map to_lower before ++ d ∷ map to_lower after) (uncased_stays c h);
}
