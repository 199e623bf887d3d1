-- ===== src/V2/World/Rules.antt =====
-- packages/core/src/http/server/v2.rs:
-- How each piece of a handler changes the slot, and the rule for an action on a task.
use aika.Common.{ℕ, ◌≡◌, refl, String, Bool, false, Option, none, some, List, arith, string_Eq}
use aika.Save.{Saved}
use aika.V2.{V2State, ServerEventV2, send}
use aika.V2.Prepare.{PrepareRequest, announce}
use aika.V2.Transfer.{finish_transfer, finalize_file, is_saved}
use aika.V2.World.{World, Task, on_task}
use aika.V2.World.Invariant.{end_slot}

module _ {Cache : Type 0} where
  pub on_task_rule :
      (P : World Cache → Type 0) (o : Option (Task × List Task))
      (run : Task → List Task → World Cache → World Cache) (w : World Cache)
      → P w
      → ((t : Task) (rest : List Task) → o ≡ some (t, rest) → P (run t rest w))
      → P (on_task o run w)
  on_task_rule P none run w h k = h
  on_task_rule P (some (t, rest)) run w h k = k t rest refl

  pub session-send :
      (event : ServerEventV2) (v2 : V2State Cache) → (send event v2).session ≡ v2.session
  session-send event v2 = ground arith

  pub announce-session :
      (session_id : String) (req : PrepareRequest) (abandoned : Option String) (v2 : V2State Cache)
      → (announce session_id req abandoned v2).1.session ≡ v2.session
  announce-session session_id req none v2 = ground arith
  announce-session session_id req (some old) v2 = ground arith

  pub finalized :
      (now : ℕ) (session_id file_id : String) (b : Bool) (v2 : V2State Cache)
      → (finalize_file now session_id file_id b v2).session
        ≡ end_slot now session_id file_id b v2.session
  unfolding finalize_file
  finalized now session_id file_id b v2 = ground arith

  pub finish_transfer-session :
      (now : ℕ) (session_id file_id : String) (result : Option Saved) (v2 : V2State Cache)
      → (b : Bool) × ((finish_transfer now session_id file_id result v2).1.session
          ≡ end_slot now session_id file_id b v2.session)
  unfolding finish_transfer
  finish_transfer-session now session_id file_id none v2 =
      (false, finalized now session_id file_id false v2)
  finish_transfer-session now session_id file_id (some r) v2 =
      (is_saved r, finalized now session_id file_id (is_saved r) v2)
