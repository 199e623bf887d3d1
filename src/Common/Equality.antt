-- ===== src/Common/Equality.antt =====
-- Rust's `==` as an interface: a Boolean test that decides equality.
use Prim.Native.Nat.{ℕ}
use Prim.Native.String.{String}
use mathlib.Core.Path.{◌≡◌, refl, subst}
use mathlib.Core.Logic.{◌↔◌, ◌≢◌}
use mathlib.Core.Bool.{Bool, true, false}
use native.Mathlib.Omega.{arith}
use text.Mathlib.Text.{◌==◌ as text_eq}
use text.Mathlib.TextEquality.{eq_iff}
use aika.Common.Tests.{nat_eq, nat_eq_iff}

-- A hash map's keys and what the handlers compare implement it.
pub record PartialEq {ℓ} (K : Type ℓ) : Type ℓ where
  pub eq : K → K → Bool
  pub reflexive : (x : K) → eq x x ≡ true
  pub sound : (x y : K) → eq x y ≡ true → x ≡ y

instance abbrev pub string_Eq : PartialEq String
string_Eq = record {
  eq = text_eq;
  reflexive = λ s. (eq_iff s s).1 refl;
  sound = λ s t. (eq_iff s t).0;
}

instance abbrev pub nat_Eq : PartialEq ℕ
nat_Eq = record {
  eq = nat_eq;
  reflexive = λ n. (nat_eq_iff n n).1 refl;
  sound = λ m n. (nat_eq_iff m n).0;
}

module _ {ℓ} {K : Type ℓ} ⦃k : PartialEq K⦄ where
  infix 50 ◌==◌
  abbrev pub ◌==◌ : K → K → Bool
  x == y = k.eq x y

  pub ==_refl : (x : K) → (x == x) ≡ true
  ==_refl x = k.reflexive x

  pub ==→≡ : (x y : K) → (x == y) ≡ true → x ≡ y
  ==→≡ x y = k.sound x y

  pub decides : (x y : K) → ((x == y) ≡ true) ↔ (x ≡ y)
  decides x y = (==→≡ x y, λ same. subst (λ z. (x == z) ≡ true) same (k.reflexive x))

  pub ne→==_false : (x y : K) → x ≢ y → (x == y) ≡ false
  ne→==_false x y h = ground (arith, k.sound x y)

  pub ==_false→ne : (x y : K) → (x == y) ≡ false → x ≢ y
  ==_false→ne x y h same = ground (arith, (decides x y).1 same)
