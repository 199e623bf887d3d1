-- ===== src/Zip/Names/Distinct.antt =====
-- The names inside an archive differ: `zip_entry_names` of
-- packages/core/src/http/server/web_zip.rs.
mod Decimal
use native.Mathlib.Nat.{zero-add}
use aika.Common.{
  ℕ, zero, suc, ◌+◌, ◌-◌, ◌≤◌, ◌<◌, ◌≡◌, ◌≢◌, refl, sym, ap, subst, ◌∙◌, ◌⊎◌, inl, inr, Bool, true,
  false, not, Option, none, some, List, [], ◌∷◌, ◌++◌, map, length, keep, any, arith, Bool-cases,
  Option-cases, if◌then◌else◌, Text, text_eq, text_eq_iff, text_eq_refl,
}
use aika.Zip.Names.{
  suffix, suffix_place, with_suffix, unused_name, name_each, zip_entry_names, clean_entry_name,
}
use Decimal.{with_suffix-injective}
pub use Decimal.{LowerCase, IsUncased}

abbrev Used : Text → List Text → Type 0
Used key used = any (text_eq key) used ≡ true

abbrev others : Text → List Text → List Text
others key used = keep (λ t. not (text_eq key t)) used

length-others : (key : Text) (used : List Text) → length (others key used) ≤ length used
length-others key [] = omega arith
length-others key (t ∷ used) = elim (Bool-cases (text_eq key t)) [
  | inl same ↦ rw same (omega (arith, length-others key used))
  | inr other ↦ rw other (omega (arith, length-others key used))
]

length-others-Used :
    (key : Text) (used : List Text) → Used key used → length (others key used) + 1 ≤ length used
length-others-Used key [] h = absurd (ground (arith, h))
length-others-Used key (t ∷ used) h = elim (Bool-cases (text_eq key t)) [
  | inl same ↦ rw same (omega (arith, length-others key used))
  | inr other ↦
      let rest : Used key used = sym (rw other refl) ∙ h in
      rw other (omega (arith, length-others-Used key used rest))
]

Used-others :
    (key other : Text) (used : List Text)
    → other ≢ key
    → Used other used
    → Used other (others key used)
Used-others key other [] ne h = absurd (ground (arith, h))
Used-others key other (t ∷ used) ne h =
    ground (arith, Used-others key other used ne, text_eq_iff key t, text_eq_iff other t, h, ne)

Used-later : (t key : Text) (used : List Text) → Used key used → Used key (t ∷ used)
Used-later t key used h = ground (arith, h)

unused-other :
    (key other : Text) (used : List Text)
    → Used key used
    → any (text_eq other) used ≡ false
    → text_eq key other ≡ false
unused-other key other used taken free = elim (Bool-cases (text_eq key other)) [
  | inr differs ↦ differs
  | inl same ↦
      let here : any (text_eq key) used ≡ false =
        subst (λ t. any (text_eq t) used ≡ false) (sym ((text_eq_iff key other).0 same)) free in
      absurd (ground (arith, here, taken))
]

-- As many different keys as are used need as many places.
pigeonhole :
    (k : ℕ) (f : ℕ → Text) (used : List Text)
    → ((i j : ℕ) → f i ≡ f j → i ≡ j)
    → ((i : ℕ) → i < k → Used (f i) used)
    → k ≤ length used
pigeonhole zero f used differ all = omega arith
pigeonhole (suc k) f used differ all =
    let rest = pigeonhole k f (others (f k) used) differ (λ i below.
      Used-others (f k) (f i) used (λ same. omega (arith, below, differ i k same))
        (all i (omega (arith, below)))) in
    omega (arith, rest, length-others-Used (f k) used (all k (omega arith)))

-- No text is there twice.
abbrev pub Distinct : List Text → Type 0
Distinct [] = Unit
Distinct (t ∷ texts) = (any (text_eq t) texts ≡ false) × Distinct texts

module _ (to_lowercase : Text → Text) (lower : LowerCase to_lowercase) where
  -- What a search that runs out of fuel has tried is used: its first candidate, and the others.
  first_tried :
      (fuel : ℕ) (used : List Text) (clean candidate : Text) (n : ℕ)
      → unused_name to_lowercase (suc fuel) used clean candidate n ≡ none
      → Used (to_lowercase candidate) used
        × (unused_name to_lowercase fuel used clean (with_suffix clean n) (n + 1) ≡ none)
  unfolding unused_name
  first_tried fuel used clean candidate n h =
      elim (Bool-cases (any (text_eq (to_lowercase candidate)) used)) [
        | inl taken ↦ (taken, sym (rw taken refl) ∙ h)
        | inr free ↦ absurd (ground (arith, free, h))
      ]

  others_tried :
      (fuel : ℕ) (used : List Text) (clean candidate : Text) (n : ℕ)
      → unused_name to_lowercase (suc fuel) used clean candidate n ≡ none
      → (i : ℕ) → i < fuel
      → Used (to_lowercase (with_suffix clean (i + n))) used
  others_tried zero used clean candidate n h i below = absurd (omega (arith, below))
  others_tried (suc fuel) used clean candidate n h zero below =
      let next = (first_tried (suc fuel) used clean candidate n h).1 in
      let tried = (first_tried fuel used clean (with_suffix clean n) (n + 1) next).0 in
      subst (λ k. Used (to_lowercase (with_suffix clean k)) used) (sym (zero-add n)) tried
  others_tried (suc fuel) used clean candidate n h (suc i) below =
      let next = (first_tried (suc fuel) used clean candidate n h).1 in
      let moved : i + (n + 1) ≡ suc i + n = omega arith in
      subst (λ k. Used (to_lowercase (with_suffix clean k)) used) moved
        (others_tried fuel used clean (with_suffix clean n) (n + 1) next i (omega (arith, below)))

  -- The fuel of `name_each` is enough.
  unused_name_found :
      (used : List Text) (clean candidate : Text)
      → (found : Text) × (unused_name to_lowercase (length used + 2) used clean candidate 2
          ≡ some found)
  unused_name_found used clean candidate =
      let fuel : length used + 2 ≡ suc (suc (length used)) = omega arith in
      elim (Option-cases (unused_name to_lowercase (length used + 2) used clean candidate 2)) [
        | inr found ↦ found
        | inl h ↦
            let out : unused_name to_lowercase (suc (suc (length used))) used clean candidate 2
                ≡ none =
              subst (λ k. unused_name to_lowercase k used clean candidate 2 ≡ none) fuel h in
            let full =
              pigeonhole (suc (length used)) (λ i. to_lowercase (with_suffix clean (i + 2))) used
                (λ i j same.
                  omega
                    (arith, with_suffix-injective to_lowercase lower clean (i + 2) (j + 2) same))
                (others_tried (suc (length used)) used clean candidate 2 out) in
            absurd (omega (arith, full))
      ]

  unused_name-free :
      (fuel : ℕ) (used : List Text) (clean candidate : Text) (n : ℕ) (found : Text)
      → unused_name to_lowercase fuel used clean candidate n ≡ some found
      → any (text_eq (to_lowercase found)) used ≡ false
  unfolding unused_name
  unused_name-free zero used clean candidate n found h = absurd (ground (arith, h))
  unused_name-free (suc fuel) used clean candidate n found h =
      elim (Bool-cases (any (text_eq (to_lowercase candidate)) used)) [
        | inl taken ↦
            unused_name-free fuel used clean (with_suffix clean n) (n + 1) found
              (sym (rw taken refl) ∙ h)
        | inr free ↦
            let here : candidate ≡ found = ground (arith, free, h) in
            subst (λ c. any (text_eq (to_lowercase c)) used ≡ false) here free
      ]

  -- Each name is free of those that are used and of the names before it.
  AllFree : List Text → List Text → Type 0
  AllFree used [] = Unit
  AllFree used (name ∷ names) =
      (any (text_eq (to_lowercase name)) used ≡ false) × AllFree (to_lowercase name ∷ used) names

  name_each-AllFree :
      (used names : List Text)
      → (out : List Text) × (name_each to_lowercase used names ≡ some out)
        × (length out ≡ length names)
        × AllFree used out
  unfolding name_each AllFree
  name_each-AllFree used [] = ([], refl, refl, tt)
  name_each-AllFree used (name ∷ names) =
      let clean = clean_entry_name name in
      let found = unused_name_found used clean clean in
      let rest = name_each-AllFree (to_lowercase found.0 ∷ used) names in
      (
        found.0 ∷ rest.0,
        rw (found.1, rest.1),
        ap suc rest.2,
        (unused_name-free _ used clean clean 2 found.0 found.1, rest.3),
      )

  AllFree-unused :
      (key : Text) (used names : List Text)
      → Used key used
      → AllFree used names
      → any (text_eq key) (map to_lowercase names) ≡ false
  unfolding AllFree
  AllFree-unused key used [] taken free = refl
  AllFree-unused key used (name ∷ names) taken (free, rest) =
      rw (unused-other key (to_lowercase name) used taken free) (
        AllFree-unused key (to_lowercase name ∷ used) names
          (Used-later (to_lowercase name) key used taken) rest)

  AllFree-Distinct :
      (used names : List Text) → AllFree used names → Distinct (map to_lowercase names)
  unfolding AllFree
  AllFree-Distinct used [] free = tt
  AllFree-Distinct used (name ∷ names) (free, rest) = (
    AllFree-unused (to_lowercase name) (to_lowercase name ∷ used) names
        (rw (text_eq_refl (to_lowercase name))) rest,
    AllFree-Distinct (to_lowercase name ∷ used) names rest,
  )

  -- The search for the names inside an archive ends for any list of names: each gets one, and no
  -- two of these are the same in lower case. Lower case leaves spaces, parentheses and digits
  -- alone and treats what stands on either side of one by itself.
  pub zip_entry_names_lem :
      (names : List Text)
      → (out : List Text) × (zip_entry_names to_lowercase names ≡ some out)
        × (length out ≡ length names)
        × Distinct (map to_lowercase out)
  unfolding zip_entry_names
  zip_entry_names_lem names =
      let r = name_each-AllFree [] names in (r.0, r.1, r.2, AllFree-Distinct [] r.0 r.3)
