-- ===== src/V2/World/Moves.antt =====
-- How each action moves the slot of v2.rs on: packages/core/src/http/server/v2.rs.
use aika.Common.{
  ℕ, ◌≡◌, refl, sym, subst, inl, inr, String, false, Option, none, some, List, is_empty, string_Eq,
  Bool-cases, Option-cases,
}
use aika.Common.HashMap.{HashMap, get}
use aika.Model.{IpAddr, FileDto}
use aika.Save.{Saved}
use aika.Session.{active, UploadSessionV2}
use aika.V2.{V2State, PrepareUploadDecisionV2}
use aika.V2.Prepare.{
  PrepareRequest, claim, claim_slot, claim_session, settle_session, abort_pending_session,
}
use aika.V2.Transfer.{UploadRequest, admit, start, start_transfer}
use aika.V2.Cancel.{cancel, cancel_session, names_session, cancel_v2_session, has_session}
use aika.V2.World.{
  World, Task, notifying, deciding, aborting, receiving, failing, leaked, stuck, Action, prepare,
  claims, announces, upload, cancels, app_cancels, decide, finish, disconnect, interrupt, cleanup,
  app_leaves, take_task, step, claim_abandoned, announce_task, decide_task, finish_task,
  disconnect_task, interrupt_task, cleanup_task,
}
use aika.V2.World.Opening.{slot_waits}
use aika.V2.World.Requests.{WorldInv}
use aika.V2.World.Rules.{
  on_task_rule, session-send, announce-session, finalized, finish_transfer-session,
}
use aika.V2.World.Onward.{
  Onward, Onward-refl, Onward-none, Onward-pending, Onward-end_slot, Onward-clear_slot,
  Onward-admit, Onward-trans,
}

module _ {Cache : Type 0} where
  abbrev pub Moves : World Cache → World Cache → Type 0
  Moves w u = Onward w.v2.session u.v2.session

  claim-Onward :
      (session_id : String) (req : PrepareRequest) (c : Option (Option String)) (v2 : V2State Cache)
      → Onward v2.session (claim session_id req c v2).1.session
  claim-Onward session_id req none v2 = Onward-refl v2.session
  claim-Onward session_id req (some none) v2 = rw session-send (Onward-pending v2.session)
  claim-Onward session_id req (some (some old)) v2 =
      rw (session-send, session-send) (Onward-pending v2.session)

  start-Onward :
      (now : ℕ) (req : UploadRequest) (c : Option (UploadSessionV2 × FileDto)) (v2 : V2State Cache)
      → admit now req v2.session ≡ c
      → Onward v2.session (start now req c v2).1.session
  start-Onward now req none v2 e = Onward-refl v2.session
  start-Onward now req (some (s, dto)) v2 e = elim (Bool-cases v2.listening) [
    | inl h ↦ rw h (Onward-admit now req v2.session s dto e)
    | inr h ↦
        rw (h, finalized)
          (Onward-trans v2.session (some (active s)) _ s refl
            (Onward-admit now req v2.session s dto e)
            (Onward-end_slot now req.session_id req.file_id false (some (active s))))
  ]

  claim_session-Onward :
      (now : ℕ) (session_id : String) (req : PrepareRequest) (v2 : V2State Cache)
      → Onward v2.session (claim_session now session_id req v2).1.session
  unfolding claim_session
  claim_session-Onward now session_id req v2 = elim (Bool-cases (is_empty req.offered_files)) [
    | inl e ↦ rw e (Onward-refl v2.session)
    | inr e ↦ rw e (claim-Onward session_id req (claim_slot now v2.session) v2)
  ]

  start_transfer-Onward :
      (now : ℕ) (req : UploadRequest) (v2 : V2State Cache)
      → Onward v2.session (start_transfer now req v2).1.session
  unfolding start_transfer
  start_transfer-Onward now req v2 = start-Onward now req (admit now req v2.session) v2 refl

  cancel_session-Onward :
      (session_id : String) (ip : IpAddr) (v2 : V2State Cache)
      → Onward v2.session (cancel_session session_id ip v2).session
  cancel_session-Onward session_id ip v2 =
      elim (Bool-cases (names_session session_id ip v2.session)) [
        | inl h ↦ rw (h, session-send) (Onward-none v2.session)
        | inr h ↦ rw (h, session-send) (Onward-refl v2.session)
      ]

  cancel-Onward :
      (query : HashMap String String) (ip : IpAddr) (v2 : V2State Cache)
      → Onward v2.session (cancel query ip v2).1.session
  unfolding cancel
  cancel-Onward query ip v2 = elim (Option-cases (get "sessionId" query)) [
    | inl h ↦ rw (h, cancel) (Onward-refl v2.session)
    | inr (s, h) ↦ rw (h, cancel) (cancel_session-Onward s ip v2)
  ]

  cancel_v2_session-Onward :
      (session_id : String) (v2 : V2State Cache)
      → Onward v2.session (cancel_v2_session session_id v2).1.session
  unfolding cancel_v2_session
  cancel_v2_session-Onward session_id v2 = elim (Bool-cases (has_session session_id v2.session)) [
    | inl h ↦ rw h (Onward-none v2.session)
    | inr h ↦ rw h (Onward-refl v2.session)
  ]

  claim_abandoned-Onward :
      (req : PrepareRequest) (o : Option (Option String)) (w : World Cache)
      → Moves w (claim_abandoned req o w)
  claim_abandoned-Onward req none w = Onward-refl w.v2.session
  claim_abandoned-Onward req (some none) w = Onward-refl w.v2.session
  claim_abandoned-Onward req (some (some old)) w = Onward-pending w.v2.session

  claims-Onward :
      (now : ℕ) (req : PrepareRequest) (w : World Cache) → Moves w (step (claims now req) w)
  unfolding step
  claims-Onward now req w = elim (Bool-cases (is_empty req.offered_files)) [
    | inl e ↦ rw e (Onward-refl w.v2.session)
    | inr e ↦ rw e (claim_abandoned-Onward req (claim_slot now w.v2.session) w)
  ]

  announce_task-Onward :
      (s : String) (t : Task) (rest : List Task) (w : World Cache)
      → Moves w (announce_task s t rest w)
  unfolding announce_task
  announce_task-Onward s (notifying old req) rest w =
      rw (announce-session s req (some old) w.v2) (Onward-refl w.v2.session)
  announce_task-Onward s leaked rest w = Onward-refl w.v2.session
  announce_task-Onward s (stuck _ _) rest w = Onward-refl w.v2.session
  announce_task-Onward s (deciding _ _) rest w = Onward-refl w.v2.session
  announce_task-Onward s (receiving _ _) rest w = Onward-refl w.v2.session
  announce_task-Onward s (aborting _) rest w = Onward-refl w.v2.session
  announce_task-Onward s (failing _ _) rest w = Onward-refl w.v2.session

  interrupt_task-Onward :
      (t : Task) (rest : List Task) (w : World Cache) → Moves w (interrupt_task t rest w)
  unfolding interrupt_task
  interrupt_task-Onward (deciding _ _) rest w = Onward-refl w.v2.session
  interrupt_task-Onward _ rest w = Onward-refl w.v2.session

  decide_task-Onward :
      (i now : ℕ) (token : String → String) (decision : Option PrepareUploadDecisionV2) (t : Task)
      (rest : List Task) (w : World Cache)
      → take_task i w.tasks ≡ some (t, rest)
      → WorldInv w
      → Moves w (decide_task now token decision t rest w)
  unfolding decide_task
  decide_task-Onward i now token d (deciding s req) rest w e v =
      subst (λ o. Onward o (settle_session now s token d req w.v2).2.session)
        (sym (slot_waits i w.tasks (deciding s req) rest e refl w.v2.session v)) tt
  decide_task-Onward i now token d (notifying _ _) rest w e v = Onward-refl w.v2.session
  decide_task-Onward i now token d leaked rest w e v = Onward-refl w.v2.session
  decide_task-Onward i now token d (stuck _ _) rest w e v = Onward-refl w.v2.session
  decide_task-Onward i now token d (aborting _) rest w e v = Onward-refl w.v2.session
  decide_task-Onward i now token d (receiving _ _) rest w e v = Onward-refl w.v2.session
  decide_task-Onward i now token d (failing _ _) rest w e v = Onward-refl w.v2.session

  finish_task-Onward :
      (now : ℕ) (result : Option Saved) (t : Task) (rest : List Task) (w : World Cache)
      → Moves w (finish_task now result t rest w)
  unfolding finish_task
  finish_task-Onward now result (receiving s f) rest w =
      let (b, h) = finish_transfer-session now s f result w.v2 in
      rw h (Onward-end_slot now s f b w.v2.session)
  finish_task-Onward now result (notifying _ _) rest w = Onward-refl w.v2.session
  finish_task-Onward now result leaked rest w = Onward-refl w.v2.session
  finish_task-Onward now result (stuck _ _) rest w = Onward-refl w.v2.session
  finish_task-Onward now result (deciding _ _) rest w = Onward-refl w.v2.session
  finish_task-Onward now result (aborting _) rest w = Onward-refl w.v2.session
  finish_task-Onward now result (failing _ _) rest w = Onward-refl w.v2.session

  disconnect_task-Onward :
      (t : Task) (rest : List Task) (w : World Cache) → Moves w (disconnect_task t rest w)
  unfolding disconnect_task
  disconnect_task-Onward (deciding _ _) rest w = Onward-refl w.v2.session
  disconnect_task-Onward _ rest w = Onward-refl w.v2.session

  cleanup_task-Onward :
      (now : ℕ) (t : Task) (rest : List Task) (w : World Cache)
      → Moves w (cleanup_task now t rest w)
  unfolding cleanup_task abort_pending_session
  cleanup_task-Onward now (aborting s) rest w = rw session-send (Onward-clear_slot w.v2.session)
  cleanup_task-Onward now (failing s f) rest w =
      rw finalized (Onward-end_slot now s f false w.v2.session)
  cleanup_task-Onward now (notifying _ _) rest w = Onward-refl w.v2.session
  cleanup_task-Onward now leaked rest w = Onward-refl w.v2.session
  cleanup_task-Onward now (stuck _ _) rest w = Onward-refl w.v2.session
  cleanup_task-Onward now (deciding _ _) rest w = Onward-refl w.v2.session
  cleanup_task-Onward now (receiving _ _) rest w = Onward-refl w.v2.session

  pub step-Onward : (a : Action) (w : World Cache) → WorldInv w → Moves w (step a w)
  unfolding step
  step-Onward (prepare now s req) w v = claim_session-Onward now s req w.v2
  step-Onward (upload now req) w v = start_transfer-Onward now req w.v2
  step-Onward (claims now req) w v = claims-Onward now req w
  step-Onward (announces i s) w v =
      on_task_rule (Moves w) (take_task i w.tasks) (announce_task s) w (Onward-refl w.v2.session)
        (λ t rest e. announce_task-Onward s t rest w)
  step-Onward (interrupt i) w v =
      on_task_rule (Moves w) (take_task i w.tasks) interrupt_task w (Onward-refl w.v2.session)
        (λ t rest e. interrupt_task-Onward t rest w)
  step-Onward (cancels query ip) w v = cancel-Onward query ip w.v2
  step-Onward (app_cancels s) w v = cancel_v2_session-Onward s w.v2
  step-Onward (decide i now token d) w v =
      on_task_rule (Moves w) (take_task i w.tasks) (decide_task now token d) w
        (Onward-refl w.v2.session) (λ t rest e. decide_task-Onward i now token d t rest w e v)
  step-Onward (finish i now result) w v =
      on_task_rule (Moves w) (take_task i w.tasks) (finish_task now result) w
        (Onward-refl w.v2.session) (λ t rest e. finish_task-Onward now result t rest w)
  step-Onward (disconnect i) w v =
      on_task_rule (Moves w) (take_task i w.tasks) disconnect_task w (Onward-refl w.v2.session)
        (λ t rest e. disconnect_task-Onward t rest w)
  step-Onward (cleanup i now) w v =
      on_task_rule (Moves w) (take_task i w.tasks) (cleanup_task now) w (Onward-refl w.v2.session)
        (λ t rest e. cleanup_task-Onward now t rest w)
  step-Onward app_leaves w v = Onward-refl w.v2.session
