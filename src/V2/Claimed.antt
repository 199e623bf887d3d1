-- ===== src/V2/Claimed.antt =====
-- When `create_upload_session` of packages/core/src/http/server/v2.rs asks the application.
use aika.Common.{
  ℕ, ◌≡◌, ◌↔◌, refl, sym, ◌∙◌, inl, inr, String, true, false, Option, none, some, List, [], ◌∷◌,
  ◌++◌, is_empty, arith, Bool-cases,
}
use aika.Session.{SessionStateV2}
use aika.V2.{V2State, ServerEventV2, prepare_upload, session_end, cancelled}
use aika.V2.Prepare.{PrepareRequest, waiting, claim_slot, claim, claim_session}

module _ {Cache : Type 0} where
  claim_iff :
      (new_id : String) (req : PrepareRequest) (slot : Option (Option String)) (v2 : V2State Cache)
      → ((claim new_id req slot v2).0 ≡ waiting)
        ↔ (((abandoned : Option String) × (slot ≡ some abandoned)) × (v2.listening ≡ true))
  claim_iff new_id req none v2 = (λ h. ground (arith, h), λ h. ground (arith, h.0.1))
  claim_iff new_id req (some none) v2 = elim (Bool-cases v2.listening) [
    | inl on ↦ (λ h. ((none, refl), on), λ h. rw on refl)
    | inr off ↦ (λ h. ground (arith, h, off), λ h. ground (arith, h.1, off))
  ]
  claim_iff new_id req (some (some old)) v2 = elim (Bool-cases v2.listening) [
    | inl on ↦ (λ h. ((some old, refl), on), λ h. rw on refl)
    | inr off ↦ (λ h. ground (arith, h, off), λ h. ground (arith, h.1, off))
  ]

  pub claim_session_iff :
      (now : ℕ) (new_id : String) (req : PrepareRequest) (v2 : V2State Cache)
      → ((claim_session now new_id req v2).0 ≡ waiting) ↔ (
          (is_empty req.offered_files ≡ false)
          × ((abandoned : Option String) × (claim_slot now v2.session ≡ some abandoned))
          × (v2.listening ≡ true))
  unfolding claim_session
  claim_session_iff now new_id req v2 = elim (Bool-cases (is_empty req.offered_files)) [
    | inl empty ↦ (λ h. ground (arith, h, empty), λ h. ground (arith, h.0, empty))
    | inr offered ↦
        let (forth, back) = claim_iff new_id req (claim_slot now v2.session) v2 in
        (
          λ h. let (slot, on) = forth (sym (rw offered refl) ∙ h) in (offered, slot, on),
          λ h. rw offered (back (h.1, h.2)),
        )
  ]

  -- The event that asks for the decision comes last, and the slot is taken.
  pub claim_offered :
      (new_id : String) (req : PrepareRequest) (slot : Option (Option String)) (v2 : V2State Cache)
      → (claim new_id req slot v2).0 ≡ waiting
      → ((before : List ServerEventV2) × ((claim new_id req slot v2).1.events
            ≡ before
              ++ prepare_upload new_id req.sender_ip req.info req.cert_fingerprint req.offered_files
                ∷ []))
        × ((claim new_id req slot v2).1.session ≡ some SessionStateV2.pending)
  claim_offered new_id req none v2 h = absurd (ground (arith, h))
  claim_offered new_id req (some none) v2 h = elim (Bool-cases v2.listening) [
    | inl on ↦ ((v2.events, rw on refl), rw on refl)
    | inr off ↦ absurd (ground (arith, h, off))
  ]
  claim_offered new_id req (some (some old)) v2 h = elim (Bool-cases v2.listening) [
    | inl on ↦ ((v2.events ++ session_end old cancelled ∷ [], rw on refl), rw on refl)
    | inr off ↦ absurd (ground (arith, h, off))
  ]
