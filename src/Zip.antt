-- ===== src/Zip.antt =====
-- The stored ZIP archive of the web share page: packages/core/src/http/server/web_zip.rs. The
-- bytes of a name are those of its UTF-8 text.
pub mod Crc
pub mod Records
pub mod Stream
pub mod Sizes
pub mod Archive
pub mod Format
pub mod Delivery
pub mod Complete
pub mod Offsets
pub mod Names
mod Tests
use Prim.Native.Nat.{bit_or}
use aika.Common.{
  ℕ, zero, suc, ◌+◌, ◌-◌, ◌*◌, ◌/◌, ◌%◌, ◌^◌, min, Bool, true, false, ◌||◌, Option, none, some,
  List, [], ◌∷◌, ◌++◌, length, get_elem?, leb, ltb, if◌then◌else◌,
}
use aika.Save.{Bytes}

-- The least significant bytes of a number, lowest first: `to_le_bytes`.
abbrev pub put_le : ℕ → ℕ → Bytes
put_le zero value = []
put_le (suc n) value = value % 256 ∷ put_le n (value / 256)

abbrev pub put_u16 : ℕ → Bytes
put_u16 value = put_le 2 value

abbrev pub put_u32 : ℕ → Bytes
put_u32 value = put_le 4 value

abbrev pub put_u64 : ℕ → Bytes
put_u64 value = put_le 8 value

abbrev pub u32_max : ℕ
u32_max = 4294967295

-- Addition of `u64`s.
abbrev pub add_u64 : ℕ → ℕ → ℕ
add_u64 a b = (a + b) % 2 ^ 64

pub record ZipEntry : Type 0 where
  pub name : Bytes
  pub size : ℕ

abbrev pub local_header_len : ZipEntry → Bool → ℕ
local_header_len entry zip64 = 30 + length entry.name + (if zip64 then 20 else 0)

abbrev pub descriptor_len : Bool → ℕ
descriptor_len zip64 = if zip64 then 24 else 16

abbrev pub central_header_len : ZipEntry → Bool → ℕ
central_header_len entry zip64 = 46 + length entry.name + (if zip64 then 28 else 0)

-- What `layout` returns.
pub record Layout : Type 0 where
  pub offsets : List ℕ
  pub central_offset : ℕ
  pub central_size : ℕ
  pub total_len : ℕ

-- The loop of `layout`: the offsets, and the offset after the last entry.
unfoldable pub place : Bool → ℕ → List ZipEntry → List ℕ × ℕ
place zip64 offset [] = ([], offset)
place zip64 offset (entry ∷ entries) =
    let next =
      add_u64 offset
        (add_u64 (add_u64 (local_header_len entry zip64) entry.size) (descriptor_len zip64)) in
    let (offsets, end) = place zip64 next entries in (offset ∷ offsets, end)

unfoldable pub sum_central : Bool → List ZipEntry → ℕ
sum_central zip64 [] = 0
sum_central zip64 (entry ∷ entries) =
    add_u64 (central_header_len entry zip64) (sum_central zip64 entries)

unfoldable pub layout : List ZipEntry → Bool → Layout
unfolding place sum_central
layout entries zip64 =
    let (offsets, central_offset) = place zip64 0 entries in
    let central_size = sum_central zip64 entries in
    let end_len = if zip64 then 56 + 20 + 22 else 22 in
    record {
      offsets = offsets;
      central_offset = central_offset;
      central_size = central_size;
      total_len = add_u64 (add_u64 central_offset central_size) end_len;
    }

pub record ZipPlan : Type 0 where
  pub entries : List ZipEntry
  pub zip64 : Bool
  pub layout : Layout
  pub dos_time : ℕ
  pub dos_date : ℕ

-- The date of `days` days after 1970-01-01: year, month and day.
unfoldable pub civil : ℕ → ℕ × ℕ × ℕ
civil days =
    let z = days + 719468 in
    let era = z / 146097 in
    let doe = z % 146097 in
    let yoe = (doe - doe / 1460 + doe / 36524 - doe / 146096) / 365 in
    let doy = doe - (365 * yoe + yoe / 4 - yoe / 100) in
    let mp = (5 * doy + 2) / 153 in
    let day = doy - (153 * mp + 2) / 5 + 1 in
    let month = if ltb mp 10 then mp + 3 else mp - 9 in
    (yoe + era * 400 + (if leb month 2 then 1 else 0), month, day)

unfoldable pub dos_date_time : ℕ → ℕ × ℕ
unfolding civil
dos_date_time unix_secs =
    let secs_of_day = unix_secs % 86400 in
    let (year, month, day) = civil (unix_secs / 86400) in
    if ltb year 1980 then (0, bit_or (1 * 2 ^ 5) 1) else (
      bit_or (bit_or (secs_of_day / 3600 * 2 ^ 11) (secs_of_day % 3600 / 60 * 2 ^ 5))
            (secs_of_day % 60 / 2)
          % 2 ^ 16,
      bit_or (bit_or ((min year 2107 - 1980) * 2 ^ 9) (month * 2 ^ 5)) day % 2 ^ 16,
    )

-- ZIP64 records are used only where a classic archive has no room for the numbers.
abbrev pub needs_zip64 : List ZipEntry → Bool
unfolding layout
needs_zip64 entries = leb 65535 (length entries) || leb u32_max (layout entries false).total_len

unfoldable pub new : List ZipEntry → ℕ → ZipPlan
unfolding layout needs_zip64 dos_date_time
new entries unix_secs =
    let zip64 = needs_zip64 entries in
    let (dos_time, dos_date) = dos_date_time unix_secs in
    record {
      entries = entries;
      zip64 = zip64;
      layout = layout entries zip64;
      dos_time = dos_time;
      dos_date = dos_date;
    }

abbrev pub version : ZipPlan → ℕ
version plan = if plan.zip64 then 45 else 20
