-- ===== src/Web/World.antt =====
-- Visits of many web clients, interleaved where packages/core/src/http/server/web.rs waits for the
-- application, and what an accepted session stands for.
use aika.Common.{
  ℕ, zero, suc, String, Bool, true, false, Option, none, some, List, [], ◌∷◌, if◌then◌else◌,
  string_Eq,
}
use mathlib.Core.Option
use aika.Common.HashMap.{HashMap}
use aika.Model.{IpAddr, ip_Eq, FileDto}
use aika.Pin.{LruCache}
use aika.Web.{
  WebPageState, Visit, listed, refused, unheard, waiting, clear_pending_session, set_files, visit,
  settle,
}

-- A visit that waits for the decision, and a cleanup that its dropped guard has spawned.
pub data WebTask : Type 0 where
  deciding : String → WebTask
  clearing : String → WebTask

-- `granted` are the sessions whose request the application has accepted, a record of the past
-- that the program does not keep.
pub record WebWorld (Cache : Type 0) : Type 0 where
  pub web : WebPageState Cache
  pub tasks : List WebTask
  pub granted : List String

pub data WebAction : Type 0 where
  visits : IpAddr → Option String → HashMap String String → WebAction
  decide : ℕ → Option Bool → WebAction
  disconnect : ℕ → WebAction
  cleanup : ℕ → WebAction
  replace_files : HashMap String FileDto → WebAction
  app_leaves : WebAction

abbrev pub take_task : ℕ → List WebTask → Option (WebTask × List WebTask)
take_task i [] = none
take_task zero (t ∷ ts) = some (t, ts)
take_task (suc i) (t ∷ ts) = Option.map (λ found. (found.0, t ∷ found.1)) (take_task i ts)

abbrev pub visited : String → Visit → List WebTask → List WebTask
visited session_id (listed _) tasks = tasks
visited session_id (refused _) tasks = tasks
visited session_id unheard tasks = clearing session_id ∷ tasks
visited session_id waiting tasks = deciding session_id ∷ tasks

abbrev pub remember : Option Bool → String → List String → List String
remember (some true) session_id granted = session_id ∷ granted
remember (some false) session_id granted = granted
remember none session_id granted = granted

module _ {Cache : Type 0} where
  abbrev pub decide_task :
      Option Bool → Option (WebTask × List WebTask) → WebWorld Cache → WebWorld Cache
  decide_task decision (some (deciding session_id, rest)) w =
      let (_, armed, web) = settle decision session_id w.web in
      record {
        web = web;
        tasks = if armed then clearing session_id ∷ rest else rest;
        granted = remember decision session_id w.granted;
      }
  decide_task decision (some (clearing _, rest)) w = w
  decide_task decision none w = w

  abbrev pub disconnect_task : Option (WebTask × List WebTask) → WebWorld Cache → WebWorld Cache
  disconnect_task (some (deciding session_id, rest)) w = record w {
    tasks = clearing session_id ∷ rest;
  }
  disconnect_task (some (clearing _, rest)) w = w
  disconnect_task none w = w

  abbrev pub cleanup_task : Option (WebTask × List WebTask) → WebWorld Cache → WebWorld Cache
  cleanup_task (some (clearing session_id, rest)) w = record w {
    web = clear_pending_session session_id w.web;
    tasks = rest;
  }
  cleanup_task (some (deciding _, rest)) w = w
  cleanup_task none w = w

  unfoldable pub step :
      ⦃lru : LruCache Cache⦄ → (IpAddr → String) → WebAction → WebWorld Cache → WebWorld Cache
  step to_string (visits ip user_agent query) w =
      let (outcome, web) = visit to_string ip user_agent query w.web in
      record w { web = web; tasks = visited (to_string ip) outcome w.tasks }
  step to_string (decide i decision) w = decide_task decision (take_task i w.tasks) w
  step to_string (disconnect i) w = disconnect_task (take_task i w.tasks) w
  step to_string (cleanup i) w = cleanup_task (take_task i w.tasks) w
  step to_string (replace_files files) w = record w { web = set_files files w.web }
  step to_string app_leaves w = record w { web = record w.web { listening = false } }
