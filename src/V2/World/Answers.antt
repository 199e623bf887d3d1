-- ===== src/V2/World/Answers.antt =====
-- packages/core/src/http/server/v2.rs:
-- What happens to a waiting request keeps the invariant: a decision, the end of a transfer, a
-- lost connection, and the cleanup of a dropped guard.
use aika.Common.{
  ℕ, ◌≡◌, refl, inl, inr, Bool-cases, String, false, Option, none, some, List, [], ◌∷◌, arith, All,
  if◌then◌else◌, string_Eq,
}
use aika.Common.HashMap.{HashMap}
use aika.Save.{Saved}
use aika.Session.{SessionFileV2, FileStatusV2, is_complete}
use aika.V2.{PrepareUploadDecisionV2, accept, decline}
use aika.V2.Prepare.{
  PrepareRequest, select_files, open_session, clear_pending_session, clear_slot, settle_session,
  abort_pending_session,
}
use aika.V2.World.{
  World, Task, notifying, deciding, aborting, receiving, failing, leaked, stuck, take_task,
  announce_task, decide_task, finish_task, disconnect_task, interrupt_task, cleanup_task,
}
use aika.V2.World.Counting.{transfers, total}
use aika.V2.World.Files.{Distinct, select_files-pending, select_files-Distinct}
use aika.V2.World.Invariant.{Inv, end_slot-Inv, IsQuiet-take_task}
use aika.V2.World.Opening.{
  slot_waits, freed-Inv, dropped-Inv, leaked-Inv, announced-Inv, opened-Inv, handed-Inv, stuck-Inv,
}
use aika.V2.World.Rules.{session-send, finalized, finish_transfer-session}
use aika.V2.World.Requests.{WorldInv}

module _ {Cache : Type 0} where
  pub finish_task-Inv :
      (i now : ℕ) (result : Option Saved) (t : Task) (rest : List Task) (w : World Cache)
      → take_task i w.tasks ≡ some (t, rest)
      → WorldInv w
      → WorldInv (finish_task now result t rest w)
  unfolding finish_task
  finish_task-Inv i now result (notifying _ _) rest w e v = v
  finish_task-Inv i now result leaked rest w e v = v
  finish_task-Inv i now result (stuck _ _) rest w e v = v
  finish_task-Inv i now result (deciding _ _) rest w e v = v
  finish_task-Inv i now result (aborting _) rest w e v = v
  finish_task-Inv i now result (failing _ _) rest w e v = v
  finish_task-Inv i now result (receiving s f) rest w e v =
      let (b, h) = finish_transfer-session now s f result w.v2 in
      rw h
        (end_slot-Inv now s f b i w.tasks (receiving s f) rest e (refl, λ s f. refl) w.v2.session v)

  pub cleanup_task-Inv :
      (i now : ℕ) (t : Task) (rest : List Task) (w : World Cache)
      → take_task i w.tasks ≡ some (t, rest)
      → WorldInv w
      → WorldInv (cleanup_task now t rest w)
  unfolding cleanup_task abort_pending_session clear_slot
  cleanup_task-Inv i now (notifying _ _) rest w e v = v
  cleanup_task-Inv i now leaked rest w e v = v
  cleanup_task-Inv i now (stuck _ _) rest w e v = v
  cleanup_task-Inv i now (deciding _ _) rest w e v = v
  cleanup_task-Inv i now (receiving _ _) rest w e v = v
  cleanup_task-Inv i now (aborting s) rest w e v =
      let waits = slot_waits i w.tasks (aborting s) rest e refl w.v2.session v in
      rw (session-send, waits) (freed-Inv i w.tasks (aborting s) rest e refl w.v2.session v)
  cleanup_task-Inv i now (failing s f) rest w e v =
      rw finalized (
        end_slot-Inv now s f false i w.tasks (failing s f) rest e (refl, λ s f. refl) w.v2.session
          v)

  pub disconnect_task-Inv :
      (i : ℕ) (t : Task) (rest : List Task) (w : World Cache)
      → take_task i w.tasks ≡ some (t, rest)
      → WorldInv w
      → WorldInv (disconnect_task t rest w)
  unfolding disconnect_task
  disconnect_task-Inv i (notifying old req) rest w e v =
      leaked-Inv i w.tasks (notifying old req) rest e refl w.v2.session v
  disconnect_task-Inv i leaked rest w e v = v
  disconnect_task-Inv i (stuck _ _) rest w e v = v
  disconnect_task-Inv i (deciding s req) rest w e v =
      dropped-Inv i w.tasks (deciding s req) rest e refl w.v2.session v s
  disconnect_task-Inv i (receiving s f) rest w e v = handed-Inv i w.tasks s f rest w.v2.session e v
  disconnect_task-Inv i (aborting s) rest w e v = v
  disconnect_task-Inv i (failing s f) rest w e v = v

  pub interrupt_task-Inv :
      (i : ℕ) (t : Task) (rest : List Task) (w : World Cache)
      → take_task i w.tasks ≡ some (t, rest)
      → WorldInv w
      → WorldInv (interrupt_task t rest w)
  unfolding interrupt_task
  interrupt_task-Inv i (deciding s req) rest w e v =
      leaked-Inv i w.tasks (deciding s req) rest e refl w.v2.session v
  interrupt_task-Inv i (receiving s f) rest w e v = stuck-Inv i w.tasks s f rest w.v2.session e v
  interrupt_task-Inv i (notifying _ _) rest w e v = v
  interrupt_task-Inv i leaked rest w e v = v
  interrupt_task-Inv i (stuck _ _) rest w e v = v
  interrupt_task-Inv i (aborting s) rest w e v = v
  interrupt_task-Inv i (failing s f) rest w e v = v

  pub announce_task-Inv :
      (i : ℕ) (s : String) (t : Task) (rest : List Task) (w : World Cache)
      → take_task i w.tasks ≡ some (t, rest)
      → ((f : String) → total (transfers s f) w.tasks ≡ 0)
      → WorldInv w
      → WorldInv (announce_task s t rest w)
  unfolding announce_task
  announce_task-Inv i s (notifying old req) rest w e fresh v = elim (Bool-cases w.v2.listening) [
    | inl h ↦ rw h (
        announced-Inv i w.tasks (notifying old req) rest e refl w.v2.session v s req fresh
          (IsQuiet-take_task i w.tasks (notifying old req) rest e v.quiet).0)
    | inr h ↦ rw h (dropped-Inv i w.tasks (notifying old req) rest e refl w.v2.session v s)
  ]
  announce_task-Inv i s leaked rest w e fresh v = v
  announce_task-Inv i s (stuck _ _) rest w e fresh v = v
  announce_task-Inv i s (deciding _ _) rest w e fresh v = v
  announce_task-Inv i s (receiving _ _) rest w e fresh v = v
  announce_task-Inv i s (aborting _) rest w e fresh v = v
  announce_task-Inv i s (failing _ _) rest w e fresh v = v

  pub open_session-Inv :
      (i now : ℕ) (s : String) (req : PrepareRequest) (files : HashMap String SessionFileV2)
      (rest : List Task) (w : World Cache)
      → take_task i w.tasks ≡ some (deciding s req, rest)
      → All (λ x. x.1.status ≡ FileStatusV2.pending) files
      → Distinct files
      → WorldInv w
      → let (_, armed, v2) = open_session now s req files w.v2 in
        Inv v2.session (if armed then aborting s ∷ rest else rest)
  unfolding clear_pending_session is_complete
  open_session-Inv i now s req [] rest w e waits distinct v =
      rw (slot_waits i w.tasks (deciding s req) rest e refl w.v2.session v)
        (freed-Inv i w.tasks (deciding s req) rest e refl w.v2.session v)
  open_session-Inv i now s req (f ∷ files) rest w e waits distinct v =
      opened-Inv i w.tasks (deciding s req) rest e refl w.v2.session v
        (record {
          session_id = s;
          sender_ip = req.sender_ip;
          files = f ∷ files;
          last_activity = now;
        })
        (IsQuiet-take_task i w.tasks (deciding s req) rest e v.quiet).0.0 waits
        (ground (arith, waits.0)) distinct

  pub decide_task-Inv :
      (i now : ℕ) (token : String → String) (decision : Option PrepareUploadDecisionV2) (t : Task)
      (rest : List Task) (w : World Cache)
      → take_task i w.tasks ≡ some (t, rest)
      → WorldInv w
      → WorldInv (decide_task now token decision t rest w)
  unfolding decide_task settle_session
  decide_task-Inv i now token d (notifying _ _) rest w e v = v
  decide_task-Inv i now token d leaked rest w e v = v
  decide_task-Inv i now token d (stuck _ _) rest w e v = v
  decide_task-Inv i now token d (aborting _) rest w e v = v
  decide_task-Inv i now token d (receiving _ _) rest w e v = v
  decide_task-Inv i now token d (failing _ _) rest w e v = v
  decide_task-Inv i now token none (deciding s req) rest w e v =
      dropped-Inv i w.tasks (deciding s req) rest e refl w.v2.session v s
  decide_task-Inv i now token (some decline) (deciding s req) rest w e v =
      rw (slot_waits i w.tasks (deciding s req) rest e refl w.v2.session v)
        (freed-Inv i w.tasks (deciding s req) rest e refl w.v2.session v)
  decide_task-Inv i now token (some (accept ids)) (deciding s req) rest w e v =
      open_session-Inv i now s req (select_files ids token req.offered_files) rest w e
        (select_files-pending ids token req.offered_files)
        (select_files-Distinct ids token req.offered_files
          (IsQuiet-take_task i w.tasks (deciding s req) rest e v.quiet).0.1)
        v
