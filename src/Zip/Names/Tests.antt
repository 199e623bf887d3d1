-- ===== src/Zip/Names/Tests.antt =====
-- Runs of `zip_entry_names` of packages/core/src/http/server/web_zip.rs.
use aika.Common.{
  slash, full_stop, len, trim_start, codes, ℕ, zero, suc, ◌≡◌, refl, true, some, List, [], ◌∷◌,
  ◌++◌, map, length, any, Text, text_eq, split,
}
use aika.Zip.Names.{clean_entry_name, zip_entry_names, with_suffix}
use aika.Zip.Names.Ascii.{to_lower, ascii-LowerCase}
use aika.Zip.Names.Distinct.{Distinct, zip_entry_names_lem}

cleaned : clean_entry_name (codes "/../a b//./ c.txt ") ≡ codes "a b/c.txt"
unfolding clean_entry_name len trim_start
cleaned = refl

numbered : with_suffix (codes "dir.d/a.tar.gz") 12 ≡ codes "dir.d/a.tar (12).gz"
unfolding with_suffix
numbered = refl

abbrev many_a : ℕ → Text
many_a zero = []
many_a (suc n) = b'a' ∷ many_a n

-- A name that is cut off at 1000 bytes can end in a part that leads upwards.
cut_off_upwards :
    any
      (text_eq (full_stop ∷ full_stop ∷ []))
      (split slash (clean_entry_name (many_a 997 ++ codes "/..x")))
    ≡ true
unfolding clean_entry_name len split
cut_off_upwards = refl

zip_entry_names_lem_example :
    (out : List Text) × (zip_entry_names (map to_lower) (codes "a" ∷ codes "/A" ∷ codes "a" ∷ [])
      ≡ some out)
    × (length out ≡ 3)
    × Distinct (map (map to_lower) out)
zip_entry_names_lem_example =
    zip_entry_names_lem (map to_lower) ascii-LowerCase (codes "a" ∷ codes "/A" ∷ codes "a" ∷ [])
