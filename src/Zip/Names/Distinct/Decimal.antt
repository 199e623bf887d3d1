-- ===== src/Zip/Names/Distinct/Decimal.antt =====
-- Different numbers make different suffixes, `with_suffix` of
-- packages/core/src/http/server/web_zip.rs, in lower case too.
use mathlib.Core.List.{append_assoc, append_cancel_left, append_cancel_right}
use aika.Common.{
  ℕ, zero, suc, ◌+◌, ◌-◌, ◌*◌, ◌/◌, ◌%◌, ◌≤◌, ◌<◌, ◌≡◌, refl, sym, ap, ◌∙◌, ◌⊎◌, inl, inr, [], ◌∷◌,
  ◌++◌, All, ltb, arith, Bool-cases, Text,
}
use aika.Zip.Names.{digits, decimal, suffix, suffix_place, with_suffix}

-- The number that some digits stand for, behind others.
abbrev value : ℕ → Text → ℕ
value acc [] = acc
value acc (c ∷ text) = value (acc * 10 + (c - 48)) text

value-append : (acc : ℕ) (s t : Text) → value acc (s ++ t) ≡ value (value acc s) t
value-append acc [] t = refl
value-append acc (c ∷ s) t = value-append (acc * 10 + (c - 48)) s t

value-digits : (fuel n : ℕ) → n < fuel → value 0 (digits fuel n) ≡ n
unfolding digits
value-digits zero n below = absurd (omega (arith, below))
value-digits (suc fuel) n below = elim (Bool-cases (ltb n 10)) [
  | inl last ↦ rw last (omega arith)
  | inr more ↦
      let large : 10 ≤ n = ground (arith, more) in
      rw (more, value-append 0 (digits fuel (n / 10)) ((48 + n % 10) ∷ []))
        (omega (arith, value-digits fuel (n / 10) (omega (arith, below, large))))
]

decimal-injective : (n m : ℕ) → decimal n ≡ decimal m → n ≡ m
unfolding decimal
decimal-injective n m same =
    sym (value-digits (n + 1) n (omega arith))
    ∙ ap (value 0) same
    ∙ value-digits (m + 1) m (omega arith)

abbrev IsDigit : ℕ → Type 0
IsDigit c = (48 ≤ c) × (c ≤ 57)

All-append : (s t : Text) → All IsDigit s → All IsDigit t → All IsDigit (s ++ t)
All-append [] t hs ht = ht
All-append (c ∷ s) t (h, hs) ht = (h, All-append s t hs ht)

digits-IsDigit : (fuel n : ℕ) → All IsDigit (digits fuel n)
unfolding digits
digits-IsDigit zero n = tt
digits-IsDigit (suc fuel) n = elim (Bool-cases (ltb n 10)) [
  | inl last ↦
      let small : n < 10 = ground (arith, last) in rw last ((omega arith, omega (arith, small)), tt)
  | inr more ↦ rw more (
      All-append (digits fuel (n / 10)) _ (digits-IsDigit fuel (n / 10))
        ((omega arith, omega arith), tt))
]

-- The characters of a suffix have no case, nor do they change that of others: what stands before
-- and behind one of them is made lower case by itself.
abbrev pub IsUncased : ℕ → Type 0
IsUncased c = (c ≡ 32) ⊎ (((40 ≤ c) × (c ≤ 41)) ⊎ IsDigit c)

pub record LowerCase (to_lowercase : Text → Text) : Type 0 where
  pub of_empty : to_lowercase [] ≡ []
  pub apart :
      (c : ℕ) (before after : Text)
      → IsUncased c
      → to_lowercase (before ++ c ∷ after) ≡ to_lowercase before ++ c ∷ to_lowercase after

module _ (to_lowercase : Text → Text) (lower : LowerCase to_lowercase) where
  lower-head :
      (c : ℕ) (after : Text) → IsUncased c → to_lowercase (c ∷ after) ≡ c ∷ to_lowercase after
  lower-head c after plain =
      lower.apart c [] after plain ∙ ap (λ r. r ++ c ∷ to_lowercase after) lower.of_empty

  lower-digits :
      (s after : Text) → All IsDigit s → to_lowercase (s ++ after) ≡ s ++ to_lowercase after
  lower-digits [] after all = refl
  lower-digits (c ∷ s) after (h, all) =
      lower-head c (s ++ after) (inr (inr h)) ∙ ap (λ r. c ∷ r) (lower-digits s after all)

  lower-around :
      (before after d : Text)
      → All IsDigit d
      → to_lowercase (before ++ 32 ∷ 40 ∷ ((d ++ 41 ∷ []) ++ after))
        ≡ to_lowercase before ++ 32 ∷ 40 ∷ (d ++ 41 ∷ to_lowercase after)
  lower-around before after d all =
      lower.apart 32 before _ (inl refl)
      ∙ ap (λ r. to_lowercase before ++ 32 ∷ r)
          (lower-head 40 _ (inr (inl (omega arith)))
            ∙ ap (λ r. 40 ∷ r)
                (ap to_lowercase (append_assoc d (41 ∷ []) after)
                  ∙ lower-digits d (41 ∷ after) all
                  ∙ ap (λ r. d ++ r) (lower-head 41 after (inr (inl (omega arith))))))

  lower-with_suffix :
      (clean : Text) (n : ℕ)
      → to_lowercase (with_suffix clean n)
        ≡ to_lowercase (suffix_place clean).0
          ++ 32 ∷ 40 ∷ (decimal n ++ 41 ∷ to_lowercase (suffix_place clean).1)
  unfolding with_suffix suffix decimal
  lower-with_suffix clean n =
      lower-around (suffix_place clean).0 (suffix_place clean).1 (digits (n + 1) n)
        (digits-IsDigit (n + 1) n)

  pub with_suffix-injective :
      (clean : Text) (n m : ℕ)
      → to_lowercase (with_suffix clean n) ≡ to_lowercase (with_suffix clean m)
      → n ≡ m
  with_suffix-injective clean n m same =
      let behind =
        append_cancel_left (to_lowercase (suffix_place clean).0) _ _
          (sym (lower-with_suffix clean n) ∙ same ∙ lower-with_suffix clean m) in
      decimal-injective n m (
        append_cancel_right (decimal n) (decimal m) (41 ∷ to_lowercase (suffix_place clean).1)
          (cc behind))
