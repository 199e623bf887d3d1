-- ===== src/Common/Texts.antt =====
-- Texts as lists of character codes: `==` and `str::split` by one character.
use Prim.Native.Nat.{ℕ, suc, ◌+◌}
use mathlib.Core.Path.{◌≡◌, refl}
use mathlib.Core.Logic.{◌↔◌, ◌≢◌, inl, inr}
use mathlib.Core.Bool.{Bool, true, false, ◌&&◌}
use mathlib.Core.List.{List, [], ◌∷◌, ◌++◌}
use native.Mathlib.Omega.{arith}
use aika.Common.Tests.{nat_eq, nat_eq_iff, if◌then◌else◌, Bool-cases}
use aika.Common.Lists.{length, All}

abbrev pub Text : Type 0
Text = List ℕ

abbrev pub text_eq : Text → Text → Bool
text_eq [] [] = true
text_eq [] (d ∷ t) = false
text_eq (c ∷ s) [] = false
text_eq (c ∷ s) (d ∷ t) = nat_eq c d && text_eq s t

pub text_eq_iff : (s t : Text) → (text_eq s t ≡ true) ↔ (s ≡ t)
text_eq_iff [] [] = (λ e. refl, λ e. refl)
text_eq_iff [] (d ∷ t) = (λ e. cc, λ e. cc)
text_eq_iff (c ∷ s) [] = (λ e. cc, λ e. cc)
text_eq_iff (c ∷ s) (d ∷ t) = ground (arith, text_eq_iff s t, nat_eq_iff c d)

pub text_eq_refl : (s : Text) → text_eq s s ≡ true
text_eq_refl s = (text_eq_iff s s).1 refl

abbrev pub push : ℕ → List Text → List Text
push c [] = (c ∷ []) ∷ []
push c (part ∷ parts) = (c ∷ part) ∷ parts

unfoldable pub split : ℕ → Text → List Text
split sep [] = [] ∷ []
split sep (c ∷ text) = let rest = split sep text in if nat_eq c sep then [] ∷ rest else push c rest

abbrev pub Without : ℕ → Text → Type 0
Without sep part = All (λ c. c ≢ sep) part

-- A part behind which the text ends.
pub split-end : (sep : ℕ) (part : Text) → Without sep part → split sep part ≡ part ∷ []
unfolding split
split-end sep [] clean = refl
split-end sep (c ∷ part) (ne, clean) =
    let other : nat_eq c sep ≡ false = ground (arith, ne) in rw (other, split-end sep part clean)

-- A part behind which a separator follows.
pub split-part :
    (sep : ℕ) (part text : Text)
    → Without sep part
    → split sep (part ++ sep ∷ text) ≡ part ∷ split sep text
unfolding split
split-part sep [] text clean =
    let here : nat_eq sep sep ≡ true = (nat_eq_iff sep sep).1 refl in rw here
split-part sep (c ∷ part) text (ne, clean) =
    let other : nat_eq c sep ≡ false = ground (arith, ne) in
    rw (other, split-part sep part text clean)

abbrev pub count : ℕ → Text → ℕ
count sep [] = 0
count sep (c ∷ text) = (if nat_eq c sep then 1 else 0) + count sep text

length-push : (c n : ℕ) (parts : List Text) → length parts ≡ suc n → length (push c parts) ≡ suc n
length-push c n [] h = absurd (omega (arith, h))
length-push c n (part ∷ parts) h = h

pub length-split : (sep : ℕ) (text : Text) → length (split sep text) ≡ suc (count sep text)
unfolding split
length-split sep [] = refl
length-split sep (c ∷ text) = elim (Bool-cases (nat_eq c sep)) [
  | inl here ↦ rw here (omega (arith, length-split sep text))
  | inr other ↦
      rw other
        (omega (arith, length-push c (count sep text) (split sep text) (length-split sep text)))
]
