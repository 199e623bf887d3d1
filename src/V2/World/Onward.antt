-- ===== src/V2/World/Onward.antt =====
-- What each action does to the files of the session in the slot of v2.rs.
use aika.Common.{
  ℕ, ◌≡◌, refl, sym, ap, ◌∙◌, subst, inl, inr, String, Bool, true, not, Option, none, some, arith,
  ◌==◌, string_Eq, Bool-cases,
}
use mathlib.Core.Option
use mathlib.Core.Path.{subst₂}
use aika.Common.HashMap.{get, get-modify}
use aika.Model.{FileDto}
use aika.Session.{SessionStateV2, active, UploadSessionV2, SessionFileV2, is_pending, is_complete}
use aika.V2.Prepare.{clear_slot}
use aika.V2.Admission.{marked, admit_sound}
use aika.V2.Transfer.{UploadRequest, admit, end_transfer, end_file}
use aika.V2.World.Invariant.{end_slot}

abbrev pub is_spent : Option SessionFileV2 → Bool
is_spent none = true
is_spent (some file) = not (is_pending file.status)

-- No file of the session comes back to `Pending`.
pub record Later (s s' : UploadSessionV2) : Type 0 where
  pub same : s'.session_id ≡ s.session_id
  pub spent : (f : String) → is_spent (get f s.files) ≡ true → is_spent (get f s'.files) ≡ true

abbrev pub Onward : Option SessionStateV2 → Option SessionStateV2 → Type 0
Onward none o = Unit
Onward (some SessionStateV2.pending) o = Unit
Onward (some (active s)) none = Unit
Onward (some (active s)) (some SessionStateV2.pending) = Unit
Onward (some (active s)) (some (active s')) = Later s s'

pub Onward-refl : (o : Option SessionStateV2) → Onward o o
Onward-refl none = tt
Onward-refl (some SessionStateV2.pending) = tt
Onward-refl (some (active s)) = record { same = refl; spent = λ f h. h }

pub Onward-none : (o : Option SessionStateV2) → Onward o none
Onward-none none = tt
Onward-none (some SessionStateV2.pending) = tt
Onward-none (some (active s)) = tt

pub Onward-pending : (o : Option SessionStateV2) → Onward o (some SessionStateV2.pending)
Onward-pending none = tt
Onward-pending (some SessionStateV2.pending) = tt
Onward-pending (some (active s)) = tt

spent-end :
    (b : Bool) (o : Option SessionFileV2)
    → is_spent o ≡ true
    → is_spent (Option.map (end_file b) o) ≡ true
spent-end b none h = refl
spent-end b (some file) h = ground arith

pub Later-end :
    (now : ℕ) (f : String) (b : Bool) (s : UploadSessionV2) → Later s (end_transfer now f b s)
unfolding end_transfer
Later-end now f b s = record {
  same = refl;
  spent = λ g h. rw get-modify (ground (arith, spent-end b (get g s.files)));
}

pub Later-mark : (now : ℕ) (f : String) (s : UploadSessionV2) → Later s (marked now f s)
Later-mark now f s = record { same = refl; spent = λ g h. rw get-modify (ground arith) }

pub Onward-end_slot :
    (now : ℕ) (session_id f : String) (b : Bool) (o : Option SessionStateV2)
    → Onward o (end_slot now session_id f b o)
Onward-end_slot now session_id f b none = tt
Onward-end_slot now session_id f b (some SessionStateV2.pending) = tt
Onward-end_slot now session_id f b (some (active s)) =
    elim (Bool-cases (s.session_id == session_id)) [
      | inr other ↦ rw other (Onward-refl (some (active s)))
      | inl same ↦ elim (Bool-cases (is_complete (end_transfer now f b s))) [
        | inl done ↦ rw (same, done) tt
        | inr more ↦ rw (same, more) (Later-end now f b s)
      ]
    ]

pub Onward-clear_slot : (o : Option SessionStateV2) → Onward o (clear_slot o)
unfolding clear_slot
Onward-clear_slot none = tt
Onward-clear_slot (some SessionStateV2.pending) = tt
Onward-clear_slot (some (active s)) = Onward-refl (some (active s))

pub Onward-admit :
    (now : ℕ) (req : UploadRequest) (o : Option SessionStateV2) (s : UploadSessionV2)
    (dto : FileDto)
    → admit now req o ≡ some (s, dto)
    → Onward o (some (active s))
Onward-admit now req o s dto e =
    let (old, file, at, m, s_eq, _) = admit_sound now req o s dto e in
    subst₂ Onward (sym at) (ap (λ x. some (active x)) (sym s_eq)) (Later-mark now req.file_id old)

-- `Onward` through a slot that is a session.
pub Onward-trans :
    (o p q : Option SessionStateV2) (s : UploadSessionV2)
    → p ≡ some (active s)
    → Onward o p
    → Onward p q
    → Onward o q
Onward-trans none p q s e h k = tt
Onward-trans (some SessionStateV2.pending) p q s e h k = tt
Onward-trans (some (active r)) p none s e h k = tt
Onward-trans (some (active r)) p (some SessionStateV2.pending) s e h k = tt
Onward-trans (some (active r)) p (some (active t)) s e h k = record {
  same = second.same ∙ first.same;
  spent = λ f x. second.spent f (first.spent f x);
}
  where
    first : Later r s
    first = subst (Onward (some (active r))) e h

    second : Later s t
    second = subst (λ o. Onward o (some (active t))) e k
