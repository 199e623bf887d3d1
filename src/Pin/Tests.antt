-- ===== src/Pin/Tests.antt =====
-- Runs of packages/core/src/http/server/common/pin.rs, with a table that evicts nothing.
use aika.Common.{
  ℕ, ◌+◌, ◌≡◌, ◌-◌, min, refl, String, false, List, [], ◌∷◌, arith, ◌==◌, string_Eq, All,
}
use aika.Common.HashMap.{HashMap, get}
use aika.Model.{IpAddr, v4, ip_Eq}
use aika.Http.{err}
use aika.Pin.Table.{table}
use aika.Pin.{too_many_requests, invalid_pin}
use aika.Pin.Attempts.{IsWrong, ask_all, failures, first_then, wrong_guesses}

abbrev empty : HashMap IpAddr ℕ
empty = []

-- Three failures of one client.
abbrev locked : HashMap IpAddr ℕ
locked = (v4 1, 3) ∷ []

abbrev pin_is : String → HashMap String String
pin_is pin = ("pin", pin) ∷ []

pin_is-IsWrong : (guess : String) → ((guess == "42") ≡ false) → IsWrong "42" (pin_is guess)
unfolding get
pin_is-IsWrong guess h = (guess, refl, h)

abbrev guesses : List (HashMap String String)
guesses = pin_is "1" ∷ pin_is "2" ∷ pin_is "3" ∷ pin_is "4" ∷ pin_is "5" ∷ []

guesses-IsWrong : All (IsWrong "42") guesses
guesses-IsWrong = (
  pin_is-IsWrong "1" refl,
  (
    pin_is-IsWrong "2" refl,
    (pin_is-IsWrong "3" refl, (pin_is-IsWrong "4" refl, (pin_is-IsWrong "5" refl, tt))),
  ),
)

wrong_guesses_example :
    ((ask_all "42" (v4 1) guesses empty).0
      ≡ first_then (3 - failures (v4 1) empty) 5 (err invalid_pin) (err too_many_requests))
    × (failures (v4 1) (ask_all "42" (v4 1) guesses empty).1 ≡ min 3 (failures (v4 1) empty + 5))
unfolding get
wrong_guesses_example = wrong_guesses "42" (v4 1) guesses empty (omega arith) guesses-IsWrong
