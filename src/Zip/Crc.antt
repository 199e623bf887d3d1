-- ===== src/Zip/Crc.antt =====
-- CRC-32 as packages/core/src/http/server/web_zip.rs computes it. The table is a function of the
-- index, by the loop that fills it.
use Prim.Native.Nat.{bit_and, bit_xor}
use aika.Common.{ℕ, zero, suc, ◌/◌, ◌≡◌, refl, [], ◌∷◌, ◌++◌, nat_eq, if◌then◌else◌}
use aika.Save.{Bytes}

-- `k` rounds of the inner loop.
unfoldable pub crc_rounds : ℕ → ℕ → ℕ
crc_rounds zero c = c
crc_rounds (suc k) c =
    crc_rounds k (if nat_eq (bit_and c 1) 0 then c / 2 else bit_xor 3988292384 (c / 2))

unfoldable pub crc_table : ℕ → ℕ
unfolding crc_rounds
crc_table i = crc_rounds 8 i

unfoldable pub crc_new : ℕ
crc_new = 4294967295

unfoldable pub crc_update : Bytes → ℕ → ℕ
unfolding crc_table
crc_update [] c = c
crc_update (b ∷ bytes) c =
    crc_update bytes (bit_xor (crc_table (bit_and (bit_xor c b) 255)) (c / 256))

unfoldable pub crc_finish : ℕ → ℕ
crc_finish c = bit_xor c 4294967295

-- The CRC-32 of some bytes in one piece.
abbrev pub crc32 : Bytes → ℕ
crc32 bytes = crc_finish (crc_update bytes crc_new)

pub crc_update-append :
    (a b : Bytes) (c : ℕ) → crc_update (a ++ b) c ≡ crc_update b (crc_update a c)
unfolding crc_update
crc_update-append [] b c = refl
crc_update-append (x ∷ a) b c = crc_update-append a b _
