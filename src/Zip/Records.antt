-- ===== src/Zip/Records.antt =====
-- The records of the archive, byte by byte: packages/core/src/http/server/web_zip.rs.
use aika.Common.{ℕ, ◌%◌, ◌^◌, Option, none, some, List, [], ◌∷◌, ◌++◌, length, if◌then◌else◌}
use mathlib.Core.Option
use aika.Save.{Bytes}
use aika.Zip.{ZipEntry, ZipPlan, version, put_u16, put_u32, put_u64, u32_max, add_u64}

abbrev pub flags : ℕ
flags = 2056

-- `local_header` of an entry; the name's length is cast to `u16`.
abbrev pub local_header : ZipPlan → ZipEntry → Bytes
local_header plan entry =
    put_u32 67324752
    ++ put_u16 (version plan)
    ++ put_u16 flags
    ++ put_u16 0
    ++ put_u16 plan.dos_time
    ++ put_u16 plan.dos_date
    ++ put_u32 0
    ++ put_u32 0
    ++ put_u32 0
    ++ put_u16 (length entry.name % 2 ^ 16)
    ++ put_u16 (if plan.zip64 then 20 else 0)
    ++ entry.name
    ++ (if plan.zip64 then put_u16 1 ++ put_u16 16 ++ put_u64 0 ++ put_u64 0 else [])

abbrev pub data_descriptor : ZipPlan → ZipEntry → ℕ → Bytes
data_descriptor plan entry crc =
    put_u32 134695760
    ++ put_u32 crc
    ++ (if plan.zip64
        then put_u64 entry.size ++ put_u64 entry.size
        else put_u32 (entry.size % 2 ^ 32) ++ put_u32 (entry.size % 2 ^ 32))

-- One record of the central directory.
abbrev pub central_header : ZipPlan → ZipEntry → ℕ → ℕ → Bytes
central_header plan entry offset crc =
    put_u32 33639248
    ++ put_u16 (version plan)
    ++ put_u16 (version plan)
    ++ put_u16 flags
    ++ put_u16 0
    ++ put_u16 plan.dos_time
    ++ put_u16 plan.dos_date
    ++ put_u32 crc
    ++ put_u32 (if plan.zip64 then u32_max else entry.size % 2 ^ 32)
    ++ put_u32 (if plan.zip64 then u32_max else entry.size % 2 ^ 32)
    ++ put_u16 (length entry.name % 2 ^ 16)
    ++ put_u16 (if plan.zip64 then 28 else 0)
    ++ put_u16 0
    ++ put_u16 0
    ++ put_u16 0
    ++ put_u32 0
    ++ put_u32 (if plan.zip64 then u32_max else offset % 2 ^ 32)
    ++ entry.name
    ++ (if plan.zip64
        then put_u16 1 ++ put_u16 24 ++ put_u64 entry.size ++ put_u64 entry.size ++ put_u64 offset
        else [])

-- The loop of `central_directory`; `crcs[index]` out of range panics.
unfoldable pub central_headers : ZipPlan → List ZipEntry → List ℕ → List ℕ → Option Bytes
central_headers plan [] offsets crcs = some []
central_headers plan (entry ∷ entries) (offset ∷ offsets) (crc ∷ crcs) =
    Option.map (λ rest. central_header plan entry offset crc ++ rest)
      (central_headers plan entries offsets crcs)
central_headers plan (entry ∷ entries) _ _ = none

abbrev pub zip64_end : ZipPlan → Bytes
zip64_end plan =
    put_u32 101075792
    ++ put_u64 44
    ++ put_u16 45
    ++ put_u16 45
    ++ put_u32 0
    ++ put_u32 0
    ++ put_u64 (length plan.entries)
    ++ put_u64 (length plan.entries)
    ++ put_u64 plan.layout.central_size
    ++ put_u64 plan.layout.central_offset
    ++ put_u32 117853008
    ++ put_u32 0
    ++ put_u64 (add_u64 plan.layout.central_offset plan.layout.central_size)
    ++ put_u32 1

abbrev pub end_record : ZipPlan → Bytes
end_record plan =
    put_u32 101010256
    ++ put_u16 0
    ++ put_u16 0
    ++ put_u16 (if plan.zip64 then 65535 else length plan.entries % 2 ^ 16)
    ++ put_u16 (if plan.zip64 then 65535 else length plan.entries % 2 ^ 16)
    ++ put_u32 (if plan.zip64 then u32_max else plan.layout.central_size % 2 ^ 32)
    ++ put_u32 (if plan.zip64 then u32_max else plan.layout.central_offset % 2 ^ 32)
    ++ put_u16 0

unfoldable pub central_directory : ZipPlan → List ℕ → Option Bytes
unfolding central_headers
central_directory plan crcs =
    Option.map
      (λ headers. headers ++ ((if plan.zip64 then zip64_end plan else []) ++ end_record plan))
      (central_headers plan plan.entries plan.layout.offsets crcs)
