-- ===== src/Crypto/Timestamp.antt =====
-- How long a token with a timestamp passes: packages/core/src/crypto/token.rs.
use aika.Common.{
  ℕ, zero, suc, ◌+◌, ◌*◌, ◌^◌, ◌/◌, ◌≤◌, ◌<◌, ◌≡◌, ◌↔◌, refl, ap, Bool, true, false, some, length,
  arith,
}
use aika.Save.{Bytes}
use aika.Crypto.{
  Primitives, valid, to_le, from_le, to_verifying_key, checked, generate_token_timestamp, is_recent,
  verify_token_timestamp,
}
use aika.Crypto.Token.{verify-token_text, generate-token_text}

-- 256 to a power, by the digits.
abbrev range_of : ℕ → ℕ
range_of zero = 1
range_of (suc k) = 256 * range_of k

from_le-to_le : (k n : ℕ) → n < range_of k → from_le (to_le k n) ≡ n
unfolding from_le to_le
from_le-to_le zero n small = omega (arith, small)
from_le-to_le (suc k) n small = omega (arith, from_le-to_le k (n / 256) (omega (arith, small)))

length-to_le : (k n : ℕ) → length (to_le k n) ≡ k
unfolding to_le
length-to_le zero n = refl
length-to_le (suc k) n = ap suc (length-to_le k (n / 256))

valid_iff : (b : Bool) → (checked b ≡ valid) ↔ (b ≡ true)
valid_iff true = (λ e. refl, λ e. refl)
valid_iff false = (λ e. cc, λ e. cc)

is_recent_iff :
    (made now : ℕ)
    → made < 2 ^ 63
    → now < 2 ^ 63
    → (is_recent now (to_le 8 made) ≡ true) ↔ ((made ≤ now) × (now ≤ made + 60 * 60))
unfolding is_recent
is_recent_iff made now past present =
    let read : from_le (to_le 8 made) ≡ made = from_le-to_le 8 made (omega (arith, past)) in
    rw (length-to_le 8 made, read) (ground (arith, past, present))

-- The token that a key makes at a time passes under that key exactly from that second on and for
-- an hour. Both times are below 2^63 seconds.
pub timestamp_accepted_iff :
    (p : Primitives) (key : p.SigningKey) (made now : ℕ)
    → made < 2 ^ 63
    → now < 2 ^ 63
    → (token : Bytes) × (generate_token_timestamp p key made ≡ some token)
      × ((verify_token_timestamp p (to_verifying_key p key) token now ≡ valid)
          ↔ ((made ≤ now) × (now ≤ made + 60 * 60)))
unfolding generate_token_timestamp verify_token_timestamp
timestamp_accepted_iff p key made now past present =
    let recent = is_recent_iff made now past present in
    let passes = valid_iff (is_recent now (to_le 8 made)) in
    (
      _,
      generate-token_text p key (to_le 8 made),
      rw (verify-token_text p key (to_le 8 made) (is_recent now))
          (λ h. recent.0 (passes.0 h), λ h. passes.1 (recent.1 h)),
    )
