-- ===== src/V2/World/Tokens.antt =====
-- What becomes of a token that has been used, while its session stays in the slot of v2.rs.
use aika.Common.{ℕ, ◌≡◌, refl, sym, subst, true, Option, none, some, arith, string_Eq, ==_refl}
use mathlib.Core.Path.{subst₂}
use aika.Common.HashMap.{get, get-modify}
use aika.Model.{FileDto}
use aika.Http.{ok, err}
use aika.Session.{SessionStateV2, active, UploadSessionV2}
use aika.V2.{V2State, invalid_token_error}
use aika.V2.Admission.{admit_sound}
use aika.V2.Transfer.{UploadRequest, admit, start, start_transfer}
use aika.V2.World.{World, Action, upload, step}
use aika.V2.World.Requests.{Allowed}
use aika.V2.World.Reachable.{Reachable, Reachable-Inv, acts}
use aika.V2.World.Onward.{is_spent, Later, Onward, Onward-trans}
use aika.V2.World.Moves.{step-Onward}

admit_spent :
    (now : ℕ) (req : UploadRequest) (s : UploadSessionV2)
    → is_spent (get req.file_id s.files) ≡ true
    → admit now req (some (active s)) ≡ none
unfolding admit
admit_spent now req s h = ground arith

spent_of_admit :
    (now : ℕ) (req : UploadRequest) (o : Option SessionStateV2) (s : UploadSessionV2)
    (dto : FileDto)
    → admit now req o ≡ some (s, dto)
    → is_spent (get req.file_id s.files) ≡ true
spent_of_admit now req o s dto e =
    let (old, file, at, m, s_eq, _) = admit_sound now req o s dto e in
    rw (s_eq, get-modify, m.found) (ground (arith, ==_refl req.file_id))

module _ {Cache : Type 0} where
  -- The worlds that follow `w` while its slot holds a session.
  pub data Continues (w : World Cache) : World Cache → Type 0 where
    stays : Continues w w
    goes :
        (a : Action) {u : World Cache} (s : UploadSessionV2)
        → Continues w u
        → Allowed a u
        → (step a u).v2.session ≡ some (active s)
        → Continues w (step a u)

  Continues-Reachable : {w u : World Cache} → Reachable w → Continues w u → Reachable u
  Continues-Reachable r stays = r
  Continues-Reachable r (goes a s c p e) = acts a _ (Continues-Reachable r c) p

  Continues-Onward :
      {w u : World Cache} (s : UploadSessionV2)
      → w.v2.session ≡ some (active s)
      → Reachable w
      → Continues w u
      → (t : UploadSessionV2) × (u.v2.session ≡ some (active t)) × Later s t
  Continues-Onward s h r stays = (s, h, record { same = refl; spent = λ f x. x })
  Continues-Onward s h r (goes a {u} t c p e) =
      let (m, at, later) = Continues-Onward s h r c in
      let next = step-Onward a u (Reachable-Inv (Continues-Reachable r c)) in
      (
        t,
        e,
        Onward-trans (some (active s)) (some (active m)) (some (active t)) m refl later
            (subst₂ Onward at e next),
      )

  start_accepts :
      (now : ℕ) (req : UploadRequest) (c : Option (UploadSessionV2 × FileDto)) (v2 : V2State Cache)
      (dto : FileDto)
      → (start now req c v2).0 ≡ ok dto
      → (s : UploadSessionV2) × (c ≡ some (s, dto))
        × ((start now req c v2).1.session ≡ some (active s))
  start_accepts now req none v2 dto e = absurd (ground arith)
  start_accepts now req (some (s, d)) v2 dto e = (s, ground arith, ground arith)

  -- In a reachable world (new session IDs are fresh and the IDs of offered files distinct), once
  -- upload has accepted a file of a session, then as long as that session stays in the slot,
  -- whatever else happens, every further upload request for the file is refused with the invalid-
  -- token error.
  pub no_second_upload :
      {w u : World Cache} (now later : ℕ) (req again : UploadRequest) (dto : FileDto)
      → Reachable w
      → (start_transfer now req w.v2).0 ≡ ok dto
      → Continues (step (upload now req) w) u
      → again.file_id ≡ req.file_id
      → (start_transfer later again u.v2).0 ≡ err invalid_token_error
  unfolding step start_transfer
  no_second_upload {w} {u} now later req again dto r e c same =
      let (s, chosen, at) = start_accepts now req (admit now req w.v2.session) w.v2 dto e in
      let (t, at', l) = Continues-Onward s at (acts (upload now req) w r tt) c in
      let spent = l.spent req.file_id (spent_of_admit now req w.v2.session s dto chosen) in
      let spent' = subst (λ f. is_spent (get f t.files) ≡ true) (sym same) spent in
      let refused =
        subst (λ o. admit later again o ≡ none) (sym at') (admit_spent later again t spent') in
      rw refused
