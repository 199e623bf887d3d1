-- ===== src/V2/Replaceable.antt =====
-- When a new request may take the slot of packages/core/src/http/server/v2.rs, said of the state
-- itself. Times are milliseconds.
use aika.Common.{
  ℕ, ◌+◌, ◌≤◌, ◌≡◌, ◌≢◌, ◌↔◌, ◌⊎◌, refl, inl, inr, String, true, false, Option, none, some, [], ◌∷◌,
  All, any, all, subst, sym, ap, arith, Bool-cases,
}
use aika.Common.HashMap.{HashMap, values}
use aika.Session.{
  SessionStateV2, active, UploadSessionV2, SessionFileV2, in_progress, finished, failed,
  is_in_progress, is_final, is_abandoned, is_complete,
}
use aika.V2.Prepare.{claim_slot}

-- No file is being received, and the last sign of its sender is at least a minute old.
abbrev pub GivenUp : ℕ → UploadSessionV2 → Type 0
GivenUp now s =
    All (λ entry. entry.1.status ≢ in_progress) s.files × (s.last_activity + 60000 ≤ now)

-- The slot is empty, or holds a session that its sender gave up.
abbrev pub MayBeTaken : ℕ → Option SessionStateV2 → Type 0
MayBeTaken now slot =
    (slot ≡ none) ⊎ ((s : UploadSessionV2) × (slot ≡ some (active s)) × GivenUp now s)

-- Every file was received or has failed.
abbrev pub IsOver : UploadSessionV2 → Type 0
IsOver s = All (λ entry. (entry.1.status ≡ finished) ⊎ (entry.1.status ≡ failed)) s.files

none_received :
    (files : HashMap String SessionFileV2)
    → (any (λ file. is_in_progress file.status) (values files) ≡ false)
      ↔ All (λ entry. entry.1.status ≢ in_progress) files
none_received [] = (λ h. tt, λ h. refl)
none_received ((k, file) ∷ files) = ground (arith, none_received files)

is_abandoned_iff : (now : ℕ) (s : UploadSessionV2) → (is_abandoned s now ≡ true) ↔ GivenUp now s
unfolding is_abandoned
is_abandoned_iff now s = ground (arith, none_received s.files)

abbrev session_or : UploadSessionV2 → Option SessionStateV2 → UploadSessionV2
session_or s (some (active t)) = t
session_or s _ = s

pub given_up : (now : ℕ) (s : UploadSessionV2) → MayBeTaken now (some (active s)) → GivenUp now s
given_up now s (inl empty) = absurd (ground (arith, empty))
given_up now s (inr (t, same, gone)) = subst (GivenUp now) (sym (ap (session_or s) same)) gone

never_pending : (now : ℕ) → MayBeTaken now (some SessionStateV2.pending) → ⊥
never_pending now (inl empty) = absurd (ground (arith, empty))
never_pending now (inr (t, same, gone)) = absurd (ground (arith, same))

complete_of_over :
    (files : HashMap String SessionFileV2)
    → All (λ entry. (entry.1.status ≡ finished) ⊎ (entry.1.status ≡ failed)) files
    → all (λ file. is_final file.status) (values files) ≡ true
complete_of_over [] over = refl
complete_of_over ((k, file) ∷ files) (h, over) = ground (arith, h, complete_of_over files over)

-- What the code takes for incomplete is not over.
pub not_over : (s : UploadSessionV2) → is_complete s ≡ false → IsOver s → ⊥
unfolding is_complete
not_over s more over = absurd (ground (arith, more, complete_of_over s.files over))

pub claim_slot_iff :
    (now : ℕ) (slot : Option SessionStateV2)
    → ((abandoned : Option String) × (claim_slot now slot ≡ some abandoned)) ↔ MayBeTaken now slot
unfolding claim_slot
claim_slot_iff now none = (λ h. inl refl, λ h. (none, refl))
claim_slot_iff now (some SessionStateV2.pending) =
    (λ h. absurd (ground (arith, h.1)), λ h. absurd (never_pending now h))
claim_slot_iff now (some (active s)) = elim (Bool-cases (is_abandoned s now)) [
  | inl gone ↦
      (λ h. inr (s, refl, (is_abandoned_iff now s).0 gone), λ h. (some s.session_id, rw gone refl))
  | inr stays ↦ (
    λ h. absurd (ground (arith, stays, h.1)),
    λ h. absurd (ground (arith, stays, (is_abandoned_iff now s).1 (given_up now s h))),
  )
]
