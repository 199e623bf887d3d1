-- ===== src/Pin/Attempts.antt =====
-- How often a client may guess the PIN: packages/core/src/http/server/common/pin.rs.
use aika.Common.{
  ℕ, zero, suc, ◌+◌, ◌-◌, min, ◌≤◌, ◌<◌, ◌≡◌, inl, inr, refl, sym, ◌∙◌, ap, subst, String, true,
  false, Option, none, some, List, [], ◌∷◌, ◌++◌, leb, ◌==◌, string_Eq, ==_refl, ==→≡, ==_false→ne,
  arith, Bool-cases, Option-cases, length, All,
}
use text.Mathlib.TextEquality.{eq_iff}
use aika.Common.HashMap.{HashMap, get}
use aika.Model.{IpAddr, ip_Eq}
use aika.Http.{Result, ok, err}
use aika.Pin.{
  LruCache, max_pin_attempts, or_zero, too_many_requests, invalid_pin, compare_pin, check_pin,
}

-- `n` times the same answer.
abbrev pub repeat {ℓ} : {A : Type ℓ} → ℕ → A → List A
repeat zero a = []
repeat (suc n) a = a ∷ repeat n a

-- `n` answers in all, the first `left` of them `a`, and the others `b`.
abbrev pub first_then {ℓ} : {A : Type ℓ} → ℕ → ℕ → A → A → List A
first_then left n a b = repeat (min left n) a ++ repeat (n - left) b

module _ {ℓ} {A : Type ℓ} (a b : A) where
  first_then-suc : (left n : ℕ) → first_then (suc left) (suc n) a b ≡ a ∷ first_then left n a b
  first_then-suc left n =
      let fewer : min (suc left) (suc n) ≡ suc (min left n) = omega arith in
      let others : suc n - suc left ≡ n - left = omega arith in rw (fewer, others) refl

  first_then-zero : (n : ℕ) → first_then 0 (suc n) a b ≡ b ∷ first_then 0 n a b
  first_then-zero n =
      let none_left : min 0 (suc n) ≡ 0 = omega arith in
      let all_left : min 0 n ≡ 0 = omega arith in
      let others : suc n - 0 ≡ suc (n - 0) = omega arith in rw (none_left, all_left, others) refl

  first_then-none : (left : ℕ) → first_then left 0 a b ≡ []
  first_then-none left =
      let no_first : min left 0 ≡ 0 = omega arith in
      let no_then : 0 - left ≡ 0 = omega arith in rw (no_first, no_then) refl

abbrev pub IsWrong : String → HashMap String String → Type 0
IsWrong pin query = (guess : String) × (get "pin" query ≡ some guess) × ((guess == pin) ≡ false)

module _ {Cache : Type 0} ⦃lru : LruCache Cache⦄ where
  abbrev pub failures : IpAddr → Cache → ℕ
  failures ip attempts = or_zero (lru.peek ip attempts)

  -- The answers to the requests of one client, in their order, and the table after them.
  abbrev pub ask_all :
      String → IpAddr → List (HashMap String String) → Cache → List (Result {0} Unit) × Cache
  ask_all pin ip [] attempts = ([], attempts)
  ask_all pin ip (query ∷ queries) attempts =
      let (answer, next) = check_pin (some pin) attempts query ip in
      let (answers, last) = ask_all pin ip queries next in (answer ∷ answers, last)

  module _ (pin : String) (attempts : Cache) (query : HashMap String String) (ip : IpAddr) where
    -- A client with three failures on record is refused with 429, whatever PIN it sends, and its
    -- record stays.
    pub check_pin-blocked :
        max_pin_attempts ≤ failures ip attempts
        → ((check_pin (some pin) attempts query ip).0 ≡ err too_many_requests)
          × (failures ip (check_pin (some pin) attempts query ip).1 ≡ failures ip attempts)
    unfolding check_pin
    check_pin-blocked h =
        let full : leb max_pin_attempts (or_zero (lru.lookup ip attempts).0) ≡ true =
          rw (lru.lookup-value ip attempts) (ground (arith, h)) in
        rw full (refl, ap or_zero (lru.peek-lookup ip ip attempts))

    -- Below three failures, the request's PIN is compared.
    check_pin-compares :
        failures ip attempts < max_pin_attempts
        → check_pin (some pin) attempts query ip
          ≡ compare_pin pin (get "pin" query) (failures ip attempts) ip (lru.lookup ip attempts).1
    unfolding check_pin
    check_pin-compares h =
        let value = lru.lookup-value ip attempts in
        let room : leb max_pin_attempts (failures ip attempts) ≡ false = ground (arith, h) in
        rw (value, room) refl

    check_pin-wrong :
        failures ip attempts < max_pin_attempts
        → IsWrong pin query
        → ((check_pin (some pin) attempts query ip).0 ≡ err invalid_pin)
          × (failures ip (check_pin (some pin) attempts query ip).1 ≡ failures ip attempts + 1)
    unfolding compare_pin
    check_pin-wrong h (guess, sent, differs) =
        rw (check_pin-compares h, sent, differs) (refl, ap or_zero (lru.peek-put ip _ _))

    -- A client with fewer than three failures on record that sends the PIN is let in, and its
    -- failures are forgotten.
    pub check_pin-right :
        failures ip attempts < max_pin_attempts
        → get "pin" query ≡ some pin
        → ((check_pin (some pin) attempts query ip).0 ≡ ok tt)
          × (failures ip (check_pin (some pin) attempts query ip).1 ≡ 0)
    unfolding compare_pin
    check_pin-right h sent =
        rw (check_pin-compares h, sent, ==_refl pin) (refl, ap or_zero (lru.peek-pop ip _))

    -- Where a PIN is required, a client is let in only with that PIN and with fewer than three
    -- failures on record.
    pub check_pin_sound :
        (check_pin (some pin) attempts query ip).0 ≡ ok tt
        → (get "pin" query ≡ some pin) × (failures ip attempts < max_pin_attempts)
    unfolding compare_pin
    check_pin_sound e = elim (Bool-cases (leb max_pin_attempts (failures ip attempts))) [
      | inl full ↦ absurd (ground (arith, check_pin-blocked (ground (arith, full)), e))
      | inr room ↦
          let below : failures ip attempts < max_pin_attempts = ground (arith, room) in
          let compared = ap (λ r. r.0) (sym (check_pin-compares below)) ∙ e in
          (
            elim (Option-cases (get "pin" query)) [
              | inl absent ↦ absurd (ground (arith, absent, compared))
              | inr (guess, sent) ↦ ground (arith, sent, compared, eq_iff guess pin)
            ],
            below,
          )
    ]

  -- Of a client's wrong PINs in a row, as many are answered as wrong as it has attempts left, and
  -- all others with 429; its failures on record are then those before and these, but at most
  -- three. The client has at most three failures on record at first.
  pub wrong_guesses :
      (pin : String) (ip : IpAddr) (queries : List (HashMap String String)) (attempts : Cache)
      → failures ip attempts ≤ max_pin_attempts
      → All (IsWrong pin) queries
      → ((ask_all pin ip queries attempts).0
          ≡ first_then
              (max_pin_attempts - failures ip attempts)
              (length queries)
              (err invalid_pin)
              (err too_many_requests))
        × (failures ip (ask_all pin ip queries attempts).1
            ≡ min max_pin_attempts (failures ip attempts + length queries))
  wrong_guesses pin ip [] attempts le wrong =
      (sym (first_then-none _ _ (max_pin_attempts - failures ip attempts)), omega (arith, le))
  wrong_guesses pin ip (query ∷ queries) attempts le wrong =
      let next = (check_pin (some pin) attempts query ip).1 in
      elim (Bool-cases (leb max_pin_attempts (failures ip attempts))) [
        | inl full ↦
            let (answer, same) = check_pin-blocked pin attempts query ip (ground (arith, full)) in
            let (answers, last) =
              wrong_guesses pin ip queries next (omega (arith, same, le)) wrong.1 in
            let none_left : max_pin_attempts - failures ip attempts ≡ 0 = ground (arith, full) in
            let still : max_pin_attempts - failures ip next ≡ 0 = ground (arith, full, same) in
            (
              rw (answer, answers, none_left, still) (sym (first_then-zero _ _ (length queries))),
              last ∙ ground (arith, full, same, le),
            )
        | inr room ↦
            let (answer, more) =
              check_pin-wrong pin attempts query ip (ground (arith, room)) wrong.0 in
            let (answers, last) =
              wrong_guesses pin ip queries next (ground (arith, more, room)) wrong.1 in
            let less : max_pin_attempts - failures ip attempts
                ≡ suc (max_pin_attempts - failures ip next) =
              ground (arith, room, more) in
            (
              rw (answer, answers, less)
                  (sym (first_then-suc _ _ (max_pin_attempts - failures ip next) (length queries))),
              last ∙ omega (arith, more),
            )
      ]

  -- No client has more failures on record than it may have.
  abbrev pub IsBounded : Cache → Type 0
  IsBounded attempts = (i : IpAddr) → failures i attempts ≤ max_pin_attempts

  put-IsBounded :
      (n : ℕ) (ip : IpAddr) (c : Cache)
      → n ≤ max_pin_attempts
      → IsBounded c
      → IsBounded (lru.put ip n c)
  put-IsBounded n ip c le b i = elim (Bool-cases (ip == i)) [
    | inl same ↦
        subst (λ j. failures j (lru.put ip n c) ≤ max_pin_attempts) (==→≡ ip i same)
          (rw (lru.peek-put ip n c) le)
    | inr differs ↦ elim (lru.peek-put_other ip i n c (==_false→ne ip i differs)) [
      | inl kept ↦ rw kept (b i)
      | inr evicted ↦ rw evicted (omega arith)
    ]
  ]

  pop-IsBounded : (ip : IpAddr) (c : Cache) → IsBounded c → IsBounded (lru.pop ip c)
  pop-IsBounded ip c b i = elim (Bool-cases (ip == i)) [
    | inl same ↦
        subst (λ j. failures j (lru.pop ip c) ≤ max_pin_attempts) (==→≡ ip i same)
          (rw (lru.peek-pop ip c) (omega arith))
    | inr differs ↦ rw (lru.peek-pop_other ip i c (==_false→ne ip i differs)) (b i)
  ]

  lookup-IsBounded : (ip : IpAddr) (c : Cache) → IsBounded c → IsBounded (lru.lookup ip c).1
  lookup-IsBounded ip c b i = rw (lru.peek-lookup ip i c) (b i)

  compare_pin-IsBounded :
      (pin : String) (guess : Option String) (n : ℕ) (ip : IpAddr) (c : Cache)
      → n < max_pin_attempts
      → IsBounded c
      → IsBounded (compare_pin pin guess n ip c).1
  unfolding compare_pin
  compare_pin-IsBounded pin none n ip c lt b = b
  compare_pin-IsBounded pin (some guess) n ip c lt b = elim (Bool-cases (guess == pin)) [
    | inl right ↦ rw right (pop-IsBounded ip c b)
    | inr wrong ↦ rw wrong (put-IsBounded (n + 1) ip c (omega (arith, lt)) b)
  ]

  -- If no client has more than three failures on record, then none has after a request either, of
  -- this or of another client, evictions included.
  pub check_pin-IsBounded :
      (required : Option String) (attempts : Cache) (query : HashMap String String) (ip : IpAddr)
      → IsBounded attempts
      → IsBounded (check_pin required attempts query ip).1
  unfolding check_pin
  check_pin-IsBounded none attempts query ip b = b
  check_pin-IsBounded (some pin) attempts query ip b =
      let seen = lookup-IsBounded ip attempts b in
      elim (Bool-cases (leb max_pin_attempts (or_zero (lru.lookup ip attempts).0))) [
        | inl full ↦ rw full seen
        | inr room ↦
            rw room (compare_pin-IsBounded pin (get "pin" query) _ ip _ (ground (arith, room)) seen)
      ]
