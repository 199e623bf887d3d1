-- ===== src/Web/Upload/Names.antt =====
-- Which names and fields of web uploads are valid: packages/core/src/http/server/web.rs.
use aika.Common.{
  ◌≤◌, ◌≡◌, ◌≢◌, ◌↔◌, refl, Bool, true, false, List, [], ◌∷◌, All, is_empty, any, arith, Text,
  text_eq_iff, is_control, is_whitespace, len, trim_start, trim_end, full_stop,
}
use aika.Web.Upload.{is_separator, is_file_name}

pub any_none {ℓ} :
    {A : Type ℓ} (p : A → Bool) (xs : List A) → (any p xs ≡ false) ↔ All (λ x. p x ≡ false) xs
any_none p [] = (λ e. tt, λ all. refl)
any_none p (x ∷ xs) = ground (arith, any_none p xs)

abbrev pub IsBlank : Text → Type 0
IsBlank text = All (λ c. is_whitespace c ≡ true) text

trim_end-IsBlank : (text : Text) → (is_empty (trim_end text) ≡ true) ↔ IsBlank text
unfolding trim_end
trim_end-IsBlank [] = (λ e. tt, λ all. refl)
trim_end-IsBlank (c ∷ text) = ground (arith, trim_end-IsBlank text)

trim_start-IsBlank : (text : Text) → IsBlank (trim_start text) ↔ IsBlank text
unfolding trim_start
trim_start-IsBlank [] = (λ all. all, λ all. all)
trim_start-IsBlank (c ∷ text) = ground (arith, trim_start-IsBlank text)

no_separator :
    (name : Text) → (any is_separator name ≡ false) ↔ All (λ c. (c ≢ b'/') × (c ≢ b'\\')) name
no_separator [] = (λ e. tt, λ all. refl)
no_separator (c ∷ name) = ground (arith, no_separator name)

-- A name that is one part of a path, and leads to a place below.
abbrev pub IsFileName : Text → Type 0
IsFileName name =
    (IsBlank name → ⊥)
    × (len name ≤ 255)
    × (name ≢ full_stop ∷ [])
    × (name ≢ full_stop ∷ full_stop ∷ [])
    × All (λ c. (c ≢ b'/') × (c ≢ b'\\')) name
    × All (λ c. is_control c ≡ false) name

pub is_file_name_iff : (name : Text) → (is_file_name name ≡ true) ↔ IsFileName name
unfolding is_file_name
is_file_name_iff name = ground (
  arith,
  trim_end-IsBlank (trim_start name),
  trim_start-IsBlank name,
  text_eq_iff name (full_stop ∷ []),
  text_eq_iff name (full_stop ∷ full_stop ∷ []),
  no_separator name,
  any_none is_control name,
)
