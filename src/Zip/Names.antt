-- ===== src/Zip/Names.antt =====
-- The names inside an archive: `zip_entry_names` of packages/core/src/http/server/web_zip.rs. A text
-- is the list of its characters' codes.
pub mod Safe
pub mod Distinct
pub mod Ascii
mod Tests
use mathlib.Core.Option
use aika.Common.{
  is_control, is_whitespace, len, trim_start, trim_end, slash, backslash, full_stop, ℕ, zero, suc,
  ◌+◌, ◌/◌, ◌%◌, Bool, true, false, not, ◌&&◌, ◌||◌, Option, none, some, List, [], ◌∷◌, ◌++◌, map,
  length, is_empty, keep, any, ltb, leb, nat_eq, if◌then◌else◌, Text, text_eq, split,
}

-- `name.replace('\\', "/")`.
unfoldable pub replace_backslashes : Text → Text
replace_backslashes name = map (λ c. if nat_eq c backslash then slash else c) name

unfoldable pub clean_part : Text → Text
unfolding trim_start trim_end
clean_part part = trim_end (trim_start (keep (λ c. not (is_control c)) part))

abbrev pub is_plain : Text → Bool
is_plain part =
    not (is_empty part)
    && (not (text_eq part (full_stop ∷ [])) && not (text_eq part (full_stop ∷ full_stop ∷ [])))

unfoldable pub clean_parts : Text → List Text
unfolding replace_backslashes clean_part split
clean_parts name = keep is_plain (map clean_part (split slash (replace_backslashes name)))

unfoldable pub join : List Text → Text
join [] = []
join (part ∷ []) = part
join (part ∷ next ∷ parts) = part ++ slash ∷ join (next ∷ parts)

-- `String::pop`.
unfoldable pub pop : Text → Text
pop [] = []
pop (c ∷ []) = []
pop (c ∷ d ∷ text) = c ∷ pop (d ∷ text)

-- `while joined.len() > 1000 { joined.pop(); }`; each round takes a character, so that the number
-- of characters is fuel enough.
unfoldable pub shorten : ℕ → Text → Text
unfolding pop len
shorten zero joined = joined
shorten (suc fuel) joined =
    let rest = shorten fuel (pop joined) in if leb (len joined) 1000 then joined else rest

unfoldable pub or_file : Text → Text
or_file joined = if is_empty joined then b'f' ∷ b'i' ∷ b'l' ∷ b'e' ∷ [] else joined

unfoldable pub clean_entry_name : Text → Text
unfolding clean_parts join shorten or_file
clean_entry_name name =
    let joined = join (clean_parts name) in or_file (shorten (length joined) joined)

-- `rfind`: what stands before and behind the last such character.
unfoldable pub rfind : ℕ → Text → Option (Text × Text)
rfind c [] = none
rfind c (d ∷ text) = elim (rfind c text) [
  | some (before, after) ↦ some (d ∷ before, after)
  | none ↦ if nat_eq d c then some ([], text) else none
]

-- A number in decimal digits. A number has at most as many digits as itself and one more.
unfoldable pub digits : ℕ → ℕ → Text
digits zero n = []
digits (suc fuel) n =
    let rest = digits fuel (n / 10) in
    if ltb n 10 then (48 + n) ∷ [] else rest ++ (48 + n % 10) ∷ []

unfoldable pub decimal : ℕ → Text
unfolding digits
decimal n = digits (n + 1) n

-- " (n)".
unfoldable pub suffix : ℕ → Text
unfolding decimal
suffix n = 32 ∷ 40 ∷ (decimal n ++ 41 ∷ [])

-- A name with the place of the suffix: what stands before and behind it.
unfoldable pub dir_and_file : Text → Option (Text × Text) → Text × Text
dir_and_file name none = ([], name)
dir_and_file name (some (before, file)) = (before ++ slash ∷ [], file)

unfoldable pub around : (dir file : Text) → Option (Text × Text) → Text × Text
around dir file none = (dir ++ file, [])
around dir file (some ([], extension)) = (dir ++ file, [])
around dir file (some (c ∷ stem, extension)) = (dir ++ c ∷ stem, full_stop ∷ extension)

unfoldable pub suffix_place : Text → Text × Text
unfolding dir_and_file around rfind
suffix_place name =
    let parts = dir_and_file name (rfind slash name) in
    around parts.0 parts.1 (rfind full_stop parts.1)

unfoldable pub with_suffix : Text → ℕ → Text
unfolding suffix_place suffix
with_suffix name n = (suffix_place name).0 ++ (suffix n ++ (suffix_place name).1)

-- `str::to_lowercase` reads the tables of Unicode and is an argument.
module _ (to_lowercase : Text → Text) where
  -- `while !used.insert(..)`, for at most `fuel` rounds.
  unfoldable pub unused_name : ℕ → List Text → (clean candidate : Text) → ℕ → Option Text
  unfolding with_suffix
  unused_name zero used clean candidate n = none
  unused_name (suc fuel) used clean candidate n =
      let onward = unused_name fuel used clean (with_suffix clean n) (n + 1) in
      if any (text_eq (to_lowercase candidate)) used then onward else some candidate

  -- The names, while these are used; `none`: the fuel has run out.
  unfoldable pub name_each : List Text → List Text → Option (List Text)
  unfolding Option.bind
  name_each used [] = some []
  name_each used (name ∷ names) =
      let clean = clean_entry_name name in
      Option.bind (unused_name (length used + 2) used clean clean 2) (λ candidate.
        Option.map (λ rest. candidate ∷ rest) (name_each (to_lowercase candidate ∷ used) names))

  unfoldable pub zip_entry_names : List Text → Option (List Text)
  unfolding name_each unused_name clean_entry_name
  zip_entry_names names = name_each [] names
