-- ===== src/Common/HashMap.antt =====
-- Rust's `HashMap` as an association list, for the operations that the
-- program uses.
use mathlib.Core.Path.{◌≡◌, refl, sym, ◌∙◌}
use mathlib.Core.Option.{Option, none, some}
use mathlib.Core.Option
use mathlib.Core.List.{List, [], ◌∷◌, map}
use native.Mathlib.Omega.{arith}
use Prim.Native.Nat.{◌+◌, ◌≤◌}
use mathlib.Core.Logic.{inl, inr}
use aika.Common.Tests.{if◌then◌else◌, Bool-cases}
use aika.Common.Lists.{length}
use aika.Common.Equality.{decides, PartialEq, ◌==◌}

abbrev pub HashMap {ℓ κ} : Type ℓ → Type κ → Type (ℓ ⊔ κ)
HashMap K V = List (K × V)

module _ {ℓ κ} {K : Type ℓ} {V : Type κ} where
  abbrev pub values : HashMap K V → List V
  values m = map (λ e. e.1) m

module _ {ℓ κ} {K : Type ℓ} {V : Type κ} ⦃e : PartialEq K⦄ where
  unfoldable pub get : K → HashMap K V → Option V
  get k [] = none
  get k ((j, v) ∷ m) = if j == k then some v else get k m

  unfoldable pub remove : K → HashMap K V → HashMap K V
  remove k [] = []
  remove k ((j, v) ∷ m) = let rest = remove k m in if j == k then rest else (j, v) ∷ rest

  unfoldable pub insert : K → V → HashMap K V → HashMap K V
  insert k v m = (k, v) ∷ remove k m

  -- A write through `get_mut`: the value of the key, if it is there.
  unfoldable pub modify : (V → V) → K → HashMap K V → HashMap K V
  modify f k [] = []
  modify f k ((j, v) ∷ m) = if j == k then (j, f v) ∷ m else (j, v) ∷ modify f k m

  pub get-remove :
      (k j : K) (m : HashMap K V) → get j (remove k m) ≡ (if k == j then none else get j m)
  unfolding get remove
  get-remove k j [] = ground arith
  get-remove k j ((i, v) ∷ m) =
      ground (arith, get-remove k j m, decides i k, decides i j, decides k j)

  pub get-insert :
      (k j : K) (v : V) (m : HashMap K V)
      → get j (insert k v m) ≡ (if k == j then some v else get j m)
  unfolding get insert
  get-insert k j v m = ground (arith, get-remove k j m)

  pub get-modify :
      (f : V → V) (k j : K) (m : HashMap K V)
      → get j (modify f k m) ≡ (if k == j then Option.map f (get j m) else get j m)
  unfolding get modify
  get-modify f k j [] = ground arith
  get-modify f k j ((i, v) ∷ m) =
      ground (arith, get-modify f k j m, decides i k, decides i j, decides k j)

  -- A bound on the length of a map with repeated keys as well.
  pub length-remove : (k : K) (m : HashMap K V) → length (remove k m) ≤ length m
  unfolding remove
  length-remove k [] = omega arith
  length-remove k ((j, v) ∷ m) = ground (arith, length-remove k m)

  pub length-remove_found :
      (k : K) (m : HashMap K V) (a : V) → get k m ≡ some a → length (remove k m) + 1 ≤ length m
  unfolding get remove
  length-remove_found k [] a h = absurd (ground (arith, h))
  length-remove_found k ((j, v) ∷ m) a h = elim (Bool-cases (j == k)) [
    | inl here ↦ rw here (omega (arith, length-remove k m))
    | inr there ↦
        let rest : get k m ≡ some a = sym (rw there refl) ∙ h in
        rw there (omega (arith, length-remove_found k m a rest))
  ]
