-- ===== src/V2/World.antt =====
-- Many requests on one server, interleaved where the handlers of v2.rs wait. The tasks are the
-- requests that wait, the cleanups that dropped guards have spawned, and, so that nothing is lost
-- track of, the requests that were dropped where no guard of theirs was armed.
pub mod Counting
pub mod Files
pub mod Invariant
pub mod Opening
pub mod Rules
pub mod Requests
pub mod Answers
pub mod Reachable
pub mod Promises
pub mod Onward
pub mod Moves
pub mod Tokens
mod Tests
use aika.Common.{
  ℕ, zero, suc, String, Bool, true, false, Option, none, some, List, [], ◌∷◌, if◌then◌else◌,
  is_empty,
}
use aika.Common.HashMap.{HashMap}
use aika.Model.{IpAddr}
use aika.Http.{Result, ok, err}
use aika.Session.{SessionStateV2}
use aika.Save.{Saved}
use aika.V2.{V2State, PrepareUploadDecisionV2}
use aika.V2.Prepare.{
  PrepareRequest, Claim, refused, unheard, waiting, claim_slot, announce, claim_session,
  settle_session, abort_pending_session,
}
use aika.V2.Transfer.{UploadRequest, start_transfer, finish_transfer, finalize_file}
use aika.V2.Cancel.{cancel, cancel_v2_session}

pub data Task : Type 0 where
  -- `create_upload_session` has claimed the slot of this abandoned session, and waits until the
  -- application has taken the news of its end; no guard is armed yet
  notifying : String → PrepareRequest → Task
  -- `create_upload_session` waits for the decision, its `PendingSessionGuard` armed
  deciding : String → PrepareRequest → Task
  -- spawned by `PendingSessionGuard::drop`
  aborting : String → Task
  -- `upload` waits for the target or the content, its `UploadGuard` armed
  receiving : String → String → Task
  -- spawned by `UploadGuard::drop`
  failing : String → String → Task
  -- no longer there: `create_upload_session` dropped where no guard was armed
  leaked : Task
  -- no longer there: `upload` dropped after `UploadGuard::finish` had disarmed its guard
  stuck : String → String → Task

pub record World (Cache : Type 0) : Type 0 where
  pub v2 : V2State Cache
  pub tasks : List Task

pub data Action : Type 0 where
  -- a request arrives and runs up to the wait for its decision, or for its content; the time, and
  -- the UUID that it draws
  prepare : ℕ → String → PrepareRequest → Action
  upload : ℕ → UploadRequest → Action
  -- a request arrives and takes the slot of an abandoned session, up to the first wait
  claims : ℕ → PrepareRequest → Action
  -- the request at a position goes on, with the UUID that it draws
  announces : ℕ → String → Action
  cancels : HashMap String String → IpAddr → Action
  app_cancels : String → Action
  -- the application answers the waiting request at a position, or drops its channel
  decide : ℕ → ℕ → (String → String) → Option PrepareUploadDecisionV2 → Action
  finish : ℕ → ℕ → Option Saved → Action
  -- the connection of the waiting request breaks, and its future is dropped
  disconnect : ℕ → Action
  -- the same, when the guard has been disarmed, and the lock of the slot is still awaited
  interrupt : ℕ → Action
  -- a spawned cleanup runs
  cleanup : ℕ → ℕ → Action
  -- the application stops to listen
  app_leaves : Action

-- The task at a position, and the others.
unfoldable pub take_task : ℕ → List Task → Option (Task × List Task)
take_task i [] = none
take_task zero (t ∷ ts) = some (t, ts)
take_task (suc i) (t ∷ ts) = elim (take_task i ts) [
  | none ↦ none
  | some found ↦ some (found.0, t ∷ found.1)
]

abbrev pub claimed : String → PrepareRequest → List Task → Claim → List Task
claimed session_id req tasks (refused _) = tasks
claimed session_id req tasks unheard = aborting session_id ∷ tasks
claimed session_id req tasks waiting = deciding session_id req ∷ tasks

abbrev pub started {ℓ} : {A : Type ℓ} → UploadRequest → List Task → Result A → List Task
started req tasks (ok _) = receiving req.session_id req.file_id ∷ tasks
started req tasks (err _) = tasks

module _ {Cache : Type 0} where
  abbrev pub claim_abandoned : PrepareRequest → Option (Option String) → World Cache → World Cache
  claim_abandoned req none w = w
  claim_abandoned req (some none) w = w
  claim_abandoned req (some (some old)) w = record {
    v2 = record w.v2 { session = some SessionStateV2.pending };
    tasks = notifying old req ∷ w.tasks;
  }

  unfoldable pub announce_task : String → Task → List Task → World Cache → World Cache
  announce_task session_id (notifying old req) rest w =
      let (claim, v2) = announce session_id req (some old) w.v2 in
      record { v2 = v2; tasks = claimed session_id req rest claim }
  announce_task session_id _ rest w = w

  unfoldable pub decide_task :
      ℕ
      → (String → String)
      → Option PrepareUploadDecisionV2
      → Task
      → List Task
      → World Cache
      → World Cache
  decide_task now token decision (deciding session_id req) rest w =
      let (_, armed, v2) = settle_session now session_id token decision req w.v2 in
      record { v2 = v2; tasks = if armed then aborting session_id ∷ rest else rest }
  decide_task now token decision _ rest w = w

  unfoldable pub finish_task : ℕ → Option Saved → Task → List Task → World Cache → World Cache
  finish_task now result (receiving session_id file_id) rest w = record {
    v2 = (finish_transfer now session_id file_id result w.v2).1;
    tasks = rest;
  }
  finish_task now result _ rest w = w

  unfoldable pub disconnect_task : Task → List Task → World Cache → World Cache
  disconnect_task (notifying old req) rest w = record w { tasks = leaked ∷ rest }
  disconnect_task (deciding session_id req) rest w = record w { tasks = aborting session_id ∷ rest }
  disconnect_task (receiving session_id file_id) rest w = record w {
    tasks = failing session_id file_id ∷ rest;
  }
  disconnect_task _ rest w = w

  unfoldable pub interrupt_task : Task → List Task → World Cache → World Cache
  interrupt_task (deciding session_id req) rest w = record w { tasks = leaked ∷ rest }
  interrupt_task (receiving session_id file_id) rest w = record w {
    tasks = stuck session_id file_id ∷ rest;
  }
  interrupt_task _ rest w = w

  unfoldable pub cleanup_task : ℕ → Task → List Task → World Cache → World Cache
  cleanup_task now (aborting session_id) rest w = record {
    v2 = abort_pending_session session_id w.v2;
    tasks = rest;
  }
  cleanup_task now (failing session_id file_id) rest w = record {
    v2 = finalize_file now session_id file_id false w.v2;
    tasks = rest;
  }
  cleanup_task now _ rest w = w

  abbrev pub on_task :
      Option (Task × List Task)
      → (Task → List Task → World Cache → World Cache)
      → World Cache
      → World Cache
  on_task none run w = w
  on_task (some (t, rest)) run w = run t rest w

  unfoldable pub step : Action → World Cache → World Cache
  step (prepare now session_id req) w =
      let (claim, v2) = claim_session now session_id req w.v2 in
      record { v2 = v2; tasks = claimed session_id req w.tasks claim }
  step (upload now req) w =
      let (started_file, v2) = start_transfer now req w.v2 in
      record { v2 = v2; tasks = started req w.tasks started_file }
  step (claims now req) w =
      if is_empty req.offered_files then w else claim_abandoned req (claim_slot now w.v2.session) w
  step (announces i session_id) w = on_task (take_task i w.tasks) (announce_task session_id) w
  step (cancels query ip) w = record w { v2 = (cancel query ip w.v2).1 }
  step (app_cancels session_id) w = record w { v2 = (cancel_v2_session session_id w.v2).1 }
  step (decide i now token decision) w =
      on_task (take_task i w.tasks) (decide_task now token decision) w
  step (finish i now result) w = on_task (take_task i w.tasks) (finish_task now result) w
  step (disconnect i) w = on_task (take_task i w.tasks) disconnect_task w
  step (interrupt i) w = on_task (take_task i w.tasks) interrupt_task w
  step (cleanup i now) w = on_task (take_task i w.tasks) (cleanup_task now) w
  step app_leaves w = record w { v2 = record w.v2 { listening = false } }
