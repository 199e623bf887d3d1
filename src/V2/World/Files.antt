-- ===== src/V2/World/Files.antt =====
-- packages/core/src/http/server/v2.rs:
-- The files of a session under `modify`: which of them are being received, and that no two have
-- one id, as in the hash map that they stand in.
use aika.Common.{
  ℕ, ◌≤◌, ◌≡◌, refl, String, Bool, false, Option, none, some, List, [], ◌∷◌, arith, All, all, any,
  if◌then◌else◌, ◌==◌, string_Eq, Bool-cases, inl, inr,
}
use aika.Common.HashMap.{HashMap, values, get, modify, get-modify}
use aika.Model.{FileDto}
use aika.Session.{SessionFileV2, FileStatusV2, in_progress, is_final, is_in_progress}
use aika.V2.Prepare.{select_files}
use aika.V2.Transfer.{set_status, end_file}
use text.Mathlib.TextEquality.{eq_iff}

abbrev pub run_of : Option SessionFileV2 → ℕ
run_of none = 0
run_of (some file) = if is_in_progress file.status then 1 else 0

-- 1 if the file is being received.
abbrev pub running : String → HashMap String SessionFileV2 → ℕ
running f files = run_of (get f files)

pub running-le-one : (f : String) (files : HashMap String SessionFileV2) → running f files ≤ 1
running-le-one f files = ground arith

abbrev pub Distinct {ℓ} : {V : Type ℓ} → HashMap String V → Type ℓ
Distinct [] = Unit
Distinct ((k, v) ∷ m) = (get k m ≡ none) × Distinct m

pub running-end_file :
    (b : Bool) (f g : String) (m : HashMap String SessionFileV2)
    → running g (modify (end_file b) f m) ≡ (if f == g then 0 else running g m)
running-end_file b f g m = rw get-modify (ground arith)

pub running-mark :
    (f g : String) (m : HashMap String SessionFileV2) (file : SessionFileV2)
    → get f m ≡ some file
    → running g (modify (set_status in_progress) f m) ≡ (if f == g then 1 else running g m)
running-mark f g m file h = rw get-modify (ground (arith, eq_iff f g))

pub unfinished-mark :
    (f : String) (m : HashMap String SessionFileV2) (file : SessionFileV2)
    → get f m ≡ some file
    → all (λ x. is_final x.status) (values (modify (set_status in_progress) f m)) ≡ false
unfolding get modify
unfinished-mark f [] file h = cc
unfinished-mark f ((k, v) ∷ m) file h = ground (arith, unfinished-mark f m file)

get-modify_fresh :
    (g : SessionFileV2 → SessionFileV2) (f k : String) (m : HashMap String SessionFileV2)
    → get k m ≡ none
    → get k (modify g f m) ≡ none
get-modify_fresh g f k m h = rw (get-modify, h) (ground arith)

pub modify-Distinct :
    (g : SessionFileV2 → SessionFileV2) (f : String) (m : HashMap String SessionFileV2)
    → Distinct m
    → Distinct (modify g f m)
unfolding modify
modify-Distinct g f [] d = tt
modify-Distinct g f ((k, v) ∷ m) d = elim (Bool-cases (k == f)) [
  | inl e ↦ rw e (d.0, d.1)
  | inr e ↦ rw e (get-modify_fresh g f k m d.0, modify-Distinct g f m d.1)
]

module _ (ids : List String) (token : String → String) where
  pub select_files-pending :
      (offered : HashMap String FileDto)
      → All (λ x. x.1.status ≡ FileStatusV2.pending) (select_files ids token offered)
  unfolding select_files
  select_files-pending [] = tt
  select_files-pending ((k, dto) ∷ m) = elim (Bool-cases (any (λ i. i == k) ids)) [
    | inl e ↦ rw e (refl, select_files-pending m)
    | inr e ↦ rw e (select_files-pending m)
  ]

  get-select_files :
      (k : String) (offered : HashMap String FileDto)
      → get k offered ≡ none
      → get k (select_files ids token offered) ≡ none
  unfolding select_files get
  get-select_files k [] h = refl
  get-select_files k ((j, dto) ∷ m) h = ground (arith, get-select_files k m)

  pub select_files-Distinct :
      (offered : HashMap String FileDto)
      → Distinct offered
      → Distinct (select_files ids token offered)
  unfolding select_files
  select_files-Distinct [] d = tt
  select_files-Distinct ((k, dto) ∷ m) d = elim (Bool-cases (any (λ i. i == k) ids)) [
    | inl e ↦ rw e (get-select_files k m d.0, select_files-Distinct m d.1)
    | inr e ↦ rw e (select_files-Distinct m d.1)
  ]

pub running_of_pending :
    (f : String) (files : HashMap String SessionFileV2)
    → All (λ x. x.1.status ≡ FileStatusV2.pending) files
    → running f files ≡ 0
unfolding get
running_of_pending f [] a = refl
running_of_pending f ((k, v) ∷ m) a = ground (arith, running_of_pending f m a.1)
