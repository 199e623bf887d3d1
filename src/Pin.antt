-- ===== src/Pin.antt =====
-- The PIN check of the server: packages/core/src/http/server/common/pin.rs.
pub mod Attempts
pub mod Table
mod Tests
use aika.Common.{
  ℕ, ◌+◌, ◌≡◌, ◌≢◌, ◌⊎◌, String, true, false, Option, none, some, leb, if◌then◌else◌, ◌==◌,
  string_Eq,
}
use aika.Common.HashMap.{HashMap, get}
use aika.Model.{IpAddr}
use aika.Http.{AppError, message, Result, ok, err}

abbrev pub max_pin_attempts : ℕ
max_pin_attempts = 3

-- `lru::LruCache<IpAddr, u32>`, a third-party map of bounded size: what its documentation says
-- of `get`, `put` and `pop`. Reading an entry only changes the order of eviction; a new entry
-- may evict another one. `peek` looks without changing that order.
pub record LruCache (Cache : Type 0) : Type 0 where
  pub peek : IpAddr → Cache → Option ℕ
  pub lookup : IpAddr → Cache → Option ℕ × Cache
  pub put : IpAddr → ℕ → Cache → Cache
  pub pop : IpAddr → Cache → Cache
  pub lookup-value : (ip : IpAddr) (c : Cache) → (lookup ip c).0 ≡ peek ip c
  pub peek-lookup : (ip i : IpAddr) (c : Cache) → peek i (lookup ip c).1 ≡ peek i c
  pub peek-put : (ip : IpAddr) (n : ℕ) (c : Cache) → peek ip (put ip n c) ≡ some n
  pub peek-put_other :
      (ip i : IpAddr) (n : ℕ) (c : Cache)
      → ip ≢ i
      → (peek i (put ip n c) ≡ peek i c) ⊎ (peek i (put ip n c) ≡ none)
  pub peek-pop : (ip : IpAddr) (c : Cache) → peek ip (pop ip c) ≡ none
  pub peek-pop_other : (ip i : IpAddr) (c : Cache) → ip ≢ i → peek i (pop ip c) ≡ peek i c

abbrev pub or_zero : Option ℕ → ℕ
or_zero none = 0
or_zero (some n) = n

abbrev pub too_many_requests : AppError
too_many_requests = message 429 "Too many requests"

abbrev pub invalid_pin : AppError
invalid_pin = message 401 "Invalid PIN"

abbrev pub pin_required : AppError
pin_required = message 401 "PIN required"

module _ {Cache : Type 0} ⦃lru : LruCache Cache⦄ where
  -- The `match` on the `pin` parameter.
  unfoldable pub compare_pin : String → Option String → ℕ → IpAddr → Cache → Result {0} Unit × Cache
  compare_pin required_pin none count ip attempts = (err pin_required, attempts)
  compare_pin required_pin (some pin) count ip attempts =
      if pin == required_pin
      then (ok tt, lru.pop ip attempts)
      else (err invalid_pin, lru.put ip (count + 1) attempts)

  unfoldable pub check_pin :
      Option String → Cache → HashMap String String → IpAddr → Result {0} Unit × Cache
  check_pin none attempts query ip = (ok tt, attempts)
  check_pin (some required_pin) attempts query ip =
      let (found, attempts) = lru.lookup ip attempts in
      if leb max_pin_attempts (or_zero found)
      then (err too_many_requests, attempts)
      else compare_pin required_pin (get "pin" query) (or_zero found) ip attempts
