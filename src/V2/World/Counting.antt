-- ===== src/V2/World/Counting.antt =====
-- packages/core/src/http/server/v2.rs:
-- How many tasks hold the slot, and how many transfer a file.
use aika.Common.{
  ℕ, zero, suc, ◌+◌, ◌≡◌, refl, inl, inr, Option-cases, String, Bool, ◌&&◌, some, List, [], ◌∷◌,
  arith, All, if◌then◌else◌, ◌==◌, string_Eq,
}
use mathlib.Core.Path.{subst₂}
use aika.V2.World.{
  Task, notifying, deciding, aborting, receiving, failing, leaked, stuck, take_task,
}

-- 1 for a task whose request has claimed the slot, and has not given it back.
abbrev pub holds : Task → ℕ
holds (notifying _ _) = 1
holds leaked = 1
holds (stuck _ _) = 0
holds (deciding _ _) = 1
holds (aborting _) = 1
holds (receiving _ _) = 0
holds (failing _ _) = 0

abbrev one_if : Bool → ℕ
one_if b = if b then 1 else 0

-- 1 for a task whose end sets the status of the file, or would have.
abbrev pub transfers : String → String → Task → ℕ
transfers s f (notifying _ _) = 0
transfers s f leaked = 0
transfers s f (stuck s' f') = one_if (s == s' && f == f')
transfers s f (deciding _ _) = 0
transfers s f (aborting _) = 0
transfers s f (receiving s' f') = one_if (s == s' && f == f')
transfers s f (failing s' f') = one_if (s == s' && f == f')

abbrev pub total : (Task → ℕ) → List Task → ℕ
total m [] = 0
total m (t ∷ ts) = m t + total m ts

data Picks : List Task → Task → List Task → Type 0 where
  here : (t : Task) (ts : List Task) → Picks (t ∷ ts) t ts
  there :
      (x : Task) {ts rest : List Task} {t : Task} → Picks ts t rest → Picks (x ∷ ts) t (x ∷ rest)

take_task-Picks :
    (i : ℕ) (ts : List Task) (t : Task) (rest : List Task)
    → take_task i ts ≡ some (t, rest)
    → Picks ts t rest
unfolding take_task
take_task-Picks i [] t rest h = absurd (ground arith)
take_task-Picks zero (x ∷ ts) t rest h =
    subst₂ (Picks (x ∷ ts)) (ground arith) (ground arith) (here x ts)
take_task-Picks (suc i) (x ∷ ts) t rest h = elim (Option-cases (take_task i ts)) [
  | inl e ↦ absurd (ground arith)
  | inr (found, e) ↦
      subst₂ (Picks (x ∷ ts)) (ground arith) (ground arith)
        (there x (take_task-Picks i ts found.0 found.1 e))
]

total-Picks :
    (m : Task → ℕ) {ts : List Task} {t : Task} {rest : List Task}
    → Picks ts t rest
    → total m ts ≡ m t + total m rest
total-Picks m (here t ts) = refl
total-Picks m (there x p) = omega (arith, total-Picks m p)

All-Picks :
    (P : Task → Type 0) {ts : List Task} {t : Task} {rest : List Task}
    → Picks ts t rest
    → All P ts
    → P t × All P rest
All-Picks P (here t ts) a = a
All-Picks P (there x p) a = let b = All-Picks P p a.1 in (b.0, (a.0, b.1))

pub total-take_task :
    (m : Task → ℕ) (i : ℕ) (ts : List Task) (t : Task) (rest : List Task)
    → take_task i ts ≡ some (t, rest)
    → total m ts ≡ m t + total m rest
total-take_task m i ts t rest h = total-Picks m (take_task-Picks i ts t rest h)

pub All-take_task :
    (P : Task → Type 0) (i : ℕ) (ts : List Task) (t : Task) (rest : List Task)
    → take_task i ts ≡ some (t, rest)
    → All P ts
    → P t × All P rest
All-take_task P i ts t rest h = All-Picks P (take_task-Picks i ts t rest h)

pub All-mono :
    {P Q : Task → Type 0} (ts : List Task) → ((t : Task) → P t → Q t) → All P ts → All Q ts
All-mono [] f a = tt
All-mono (t ∷ ts) f a = (f t a.0, All-mono ts f a.1)
