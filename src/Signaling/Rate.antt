-- ===== src/Signaling/Rate.antt =====
-- How many requests an IP group is granted: `protect_ddos_request_count` of
-- server/src/controller/ws_controller.rs.
use aika.Common.{
  ℕ, ◌+◌, ◌≤◌, ◌≡◌, ◌∙◌, sym, ap, subst, inl, inr, ◌&&◌, String, List, [], ◌∷◌, leb, if◌then◌else◌,
  ◌==◌, ==→≡, string_Eq, arith, Bool-cases,
}
use aika.Common.HashMap.{HashMap, get, get-insert}
use aika.Signaling.{or_zero, protect_ddos_request_count}

-- The requests of one group that are granted, in a sequence of requests of any groups.
abbrev pub granted_to : ℕ → String → List String → HashMap String ℕ → ℕ
granted_to max g [] counts = 0
granted_to max g (group ∷ requests) counts =
    let (granted, next) = protect_ddos_request_count max group counts in
    (if granted && group == g then 1 else 0) + granted_to max g requests next

pub protect_counts :
    (max : ℕ) (group g : String) (counts : HashMap String ℕ)
    → or_zero (get g counts) ≤ max
    → let (granted, next) = protect_ddos_request_count max group counts in
      (or_zero (get g next) ≡ or_zero (get g counts) + (if granted && group == g then 1 else 0))
      × (or_zero (get g next) ≤ max)
unfolding protect_ddos_request_count
protect_counts max group g counts le = elim (Bool-cases (leb max (or_zero (get group counts)))) [
  | inl full ↦
      rw (full, get-insert)
        (elim (Bool-cases (group == g)) [
          | inl same ↦
              let here = ==→≡ group g same in
              rw same (
                ap (λ h. or_zero (get h counts)) here ∙ omega arith,
                subst (λ h. or_zero (get h counts) ≤ max) (sym here) le,
              )
          | inr other ↦ rw other (omega arith, le)
        ])
  | inr space ↦
      rw (space, get-insert)
        (elim (Bool-cases (group == g)) [
          | inl same ↦
              let here = ==→≡ group g same in
              rw same (ap (λ h. or_zero (get h counts) + 1) here, ground (arith, space))
          | inr other ↦ rw other (omega arith, le)
        ])
]

-- Between two clearings an IP group is granted no more requests than are left of its limit,
-- whatever other groups request meanwhile. At first its count is within the limit.
pub granted_to-bounded :
    (max : ℕ) (g : String) (requests : List String) (counts : HashMap String ℕ)
    → or_zero (get g counts) ≤ max
    → granted_to max g requests counts + or_zero (get g counts) ≤ max
granted_to-bounded max g [] counts le = omega (arith, le)
granted_to-bounded max g (group ∷ requests) counts le =
    let (counted, within) = protect_counts max group g counts le in
    omega (
      arith,
      counted,
      granted_to-bounded max g requests (protect_ddos_request_count max group counts).1 within,
    )
