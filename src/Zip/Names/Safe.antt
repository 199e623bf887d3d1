-- ===== src/Zip/Names/Safe.antt =====
-- The names inside an archive stay below its root: `clean_entry_name` of
-- packages/core/src/http/server/web_zip.rs.
use aika.Common.{is_control, slash, backslash, ◌≡◌, true, not, All, Text, Without}
use aika.Zip.Names.{is_plain}

-- A part of a path that leads to a place below.
abbrev pub IsSafe : Text → Type 0
IsSafe part =
    (is_plain part ≡ true)
    × Without slash part
    × Without backslash part
    × All (λ c. not (is_control c) ≡ true) part

-- The parts that are joined, before those are dropped that lead nowhere or upwards.
abbrev Cleaned : Text → Type 0
Cleaned part =
    Without slash part × Without backslash part × All (λ c. not (is_control c) ≡ true) part
