-- ===== src/V2/World/Requests.antt =====
-- packages/core/src/http/server/v2.rs:
-- A request that arrives keeps the invariant: `prepare_upload`, `upload` and `cancel`.
use aika.Common.{
  ℕ, ◌≡◌, refl, inl, inr, String, true, false, Option, none, some, List, ◌∷◌, arith, is_empty,
  string_Eq, Bool-cases, Option-cases,
}
use aika.Common.HashMap.{HashMap, get}
use aika.Model.{IpAddr, FileDto}
use aika.Session.{SessionStateV2, active, UploadSessionV2}
use aika.V2.Prepare.{PrepareRequest, claim_slot, claim, claim_session}
use aika.V2.Transfer.{UploadRequest, admit, start, start_transfer}
use aika.V2.Cancel.{cancel, cancel_session, names_session, cancel_v2_session, has_session}
use aika.V2.World.{
  World, Task, receiving, Action, prepare, claims, announces, upload, cancels, app_cancels,
  take_task, claim_abandoned, claimed, step, started,
}
use aika.V2.World.Counting.{transfers, total}
use aika.V2.World.Files.{Distinct}
use aika.V2.World.Invariant.{holders, Inv, admit-Inv, end_slot-Inv}
use aika.V2.World.Opening.{claimed-Inv, notifying-Inv, unheard-Inv}
use aika.V2.World.Rules.{session-send, finalized}

free_of_claim :
    (now : ℕ) (slot : Option SessionStateV2) (abandoned : Option String)
    → claim_slot now slot ≡ some abandoned
    → holders slot ≡ 0
unfolding claim_slot
free_of_claim now none a h = refl
free_of_claim now (some SessionStateV2.pending) a h = cc
free_of_claim now (some (active s)) a h = refl

free_of_names_session :
    (session_id : String) (ip : IpAddr) (slot : Option SessionStateV2)
    → names_session session_id ip slot ≡ true
    → holders slot ≡ 0
unfolding names_session
free_of_names_session session_id ip none h = refl
free_of_names_session session_id ip (some SessionStateV2.pending) h = cc
free_of_names_session session_id ip (some (active s)) h = refl

free_of_has_session :
    (session_id : String) (slot : Option SessionStateV2)
    → has_session session_id slot ≡ true
    → holders slot ≡ 0
unfolding has_session
free_of_has_session session_id none h = refl
free_of_has_session session_id (some SessionStateV2.pending) h = cc
free_of_has_session session_id (some (active s)) h = refl

-- A session is taken out of the slot.
emptied-Inv :
    (slot : Option SessionStateV2) (ts : List Task) → holders slot ≡ 0 → Inv slot ts → Inv none ts
emptied-Inv slot ts free v = record {
  owned = omega (arith, v.owned, free);
  sound = tt;
  quiet = v.quiet;
}

module _ {Cache : Type 0} where
  abbrev pub WorldInv : World Cache → Type 0
  WorldInv w = Inv w.v2.session w.tasks

  -- The UUID drawn for a session is not that of a session whose transfers still run, and the
  -- files offered stand in a hash map. Other actions are always possible.
  abbrev pub Allowed : Action → World Cache → Type 0
  Allowed (prepare now session_id req) w =
      ((f : String) → total (transfers session_id f) w.tasks ≡ 0) × Distinct req.offered_files
  Allowed (claims now req) w = Distinct req.offered_files
  Allowed (announces i session_id) w = (f : String) → total (transfers session_id f) w.tasks ≡ 0
  Allowed _ w = Unit

  pub claim-Inv :
      (session_id : String) (req : PrepareRequest) (o : Option (Option String)) (w : World Cache)
      → ((abandoned : Option String) → o ≡ some abandoned → holders w.v2.session ≡ 0)
      → Allowed (prepare 0 session_id req) w
      → WorldInv w
      → let (c, v2) = claim session_id req o w.v2 in
        Inv v2.session (claimed session_id req w.tasks c)
  claim-Inv session_id req none w free ok v = v
  claim-Inv session_id req (some none) w free ok v = elim (Bool-cases w.v2.listening) [
    | inl e ↦ rw e (claimed-Inv w.v2.session w.tasks session_id req (free none refl) ok.0 ok.1 v)
    | inr e ↦ rw e (unheard-Inv w.v2.session w.tasks session_id (free none refl) v)
  ]
  claim-Inv session_id req (some (some old)) w free ok v = elim (Bool-cases w.v2.listening) [
    | inl e ↦
        rw e (claimed-Inv w.v2.session w.tasks session_id req (free (some old) refl) ok.0 ok.1 v)
    | inr e ↦ rw e (unheard-Inv w.v2.session w.tasks session_id (free (some old) refl) v)
  ]

  pub prepare-Inv :
      (now : ℕ) (session_id : String) (req : PrepareRequest) (w : World Cache)
      → Allowed (prepare now session_id req) w
      → WorldInv w
      → WorldInv (step (prepare now session_id req) w)
  unfolding step claim_session
  prepare-Inv now session_id req w ok v = elim (Bool-cases (is_empty req.offered_files)) [
    | inl e ↦ rw e v
    | inr e ↦ rw e (
        claim-Inv session_id req (claim_slot now w.v2.session) w (free_of_claim now w.v2.session) ok
          v)
  ]

  claim_abandoned-Inv :
      (req : PrepareRequest) (o : Option (Option String)) (w : World Cache)
      → ((abandoned : Option String) → o ≡ some abandoned → holders w.v2.session ≡ 0)
      → Distinct req.offered_files
      → WorldInv w
      → WorldInv (claim_abandoned req o w)
  claim_abandoned-Inv req none w free ok v = v
  claim_abandoned-Inv req (some none) w free ok v = v
  claim_abandoned-Inv req (some (some old)) w free ok v =
      notifying-Inv w.v2.session w.tasks old req (free (some old) refl) ok v

  pub claims-Inv :
      (now : ℕ) (req : PrepareRequest) (w : World Cache)
      → Distinct req.offered_files
      → WorldInv w
      → WorldInv (step (claims now req) w)
  unfolding step
  claims-Inv now req w ok v = elim (Bool-cases (is_empty req.offered_files)) [
    | inl e ↦ rw e v
    | inr e ↦ rw e (
        claim_abandoned-Inv req (claim_slot now w.v2.session) w (free_of_claim now w.v2.session) ok
          v)
  ]

  pub start-Inv :
      (now : ℕ) (req : UploadRequest) (o : Option (UploadSessionV2 × FileDto)) (w : World Cache)
      → admit now req w.v2.session ≡ o
      → WorldInv w
      → let (r, v2) = start now req o w.v2 in Inv v2.session (started req w.tasks r)
  unfolding take_task
  start-Inv now req none w e v = v
  start-Inv now req (some (s, dto)) w e v =
      let admitted = admit-Inv now req w.tasks w.v2.session s dto e v in
      elim (Bool-cases w.v2.listening) [
        | inl h ↦ rw h admitted
        | inr h ↦
            rw (h, finalized)
              (end_slot-Inv now req.session_id req.file_id false 0
                (receiving req.session_id req.file_id ∷ w.tasks)
                (receiving req.session_id req.file_id) w.tasks refl (refl, λ s f. refl)
                (some (active s)) admitted)
      ]

  pub upload-Inv :
      (now : ℕ) (req : UploadRequest) (w : World Cache)
      → WorldInv w
      → WorldInv (step (upload now req) w)
  unfolding step start_transfer
  upload-Inv now req w v = start-Inv now req (admit now req w.v2.session) w refl v

  pub cancel_session-Inv :
      (session_id : String) (ip : IpAddr) (w : World Cache)
      → WorldInv w
      → Inv (cancel_session session_id ip w.v2).session w.tasks
  cancel_session-Inv session_id ip w v =
      elim (Bool-cases (names_session session_id ip w.v2.session)) [
        | inl h ↦
            rw (h, session-send)
              (emptied-Inv w.v2.session w.tasks (free_of_names_session session_id ip w.v2.session h)
                v)
        | inr h ↦ rw (h, session-send) v
      ]

  pub cancels-Inv :
      (query : HashMap String String) (ip : IpAddr) (w : World Cache)
      → WorldInv w
      → WorldInv (step (cancels query ip) w)
  unfolding step cancel
  cancels-Inv query ip w v = elim (Option-cases (get "sessionId" query)) [
    | inl h ↦ rw (h, cancel) v
    | inr (s, h) ↦ rw (h, cancel) (cancel_session-Inv s ip w v)
  ]

  pub app_cancels-Inv :
      (session_id : String) (w : World Cache)
      → WorldInv w
      → WorldInv (step (app_cancels session_id) w)
  unfolding step cancel_v2_session
  app_cancels-Inv session_id w v = elim (Bool-cases (has_session session_id w.v2.session)) [
    | inl h ↦
        rw h (emptied-Inv w.v2.session w.tasks (free_of_has_session session_id w.v2.session h) v)
    | inr h ↦ rw h v
  ]
