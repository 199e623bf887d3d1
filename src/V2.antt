-- ===== src/V2.antt =====
-- The v2 upload endpoints: packages/core/src/http/server/v2.rs, with `V2State` and
-- `ServerHandle::cancel_v2_session` of packages/core/src/http/server/mod.rs.
--
-- A handler is cut where it waits for the application. Each piece is a function from the state
-- to an outcome and the new state; `World` (V2/World.antt) runs the pieces of many requests in
-- any order. The clock, the fresh UUIDs and what the application answers are arguments.
pub mod Prepare
pub mod Transfer
pub mod Cancel
pub mod Admission
pub mod Endpoint
pub mod Claimed
pub mod Replaceable
pub mod World
use aika.Common.{ℕ, String, Bool, Option, List, [], ◌∷◌, ◌++◌, if◌then◌else◌}
use aika.Common.HashMap.{HashMap}
use aika.Model.{IpAddr, FileDto, RegisterDtoV2}
use aika.Http.{AppError, message}
use aika.Session.{SessionStateV2}

pub data SessionEndReasonV2 : Type 0 where
  finished cancelled : SessionEndReasonV2

-- The channel ends that an event carries stand for the answers, which come as arguments.
pub data ServerEventV2 : Type 0 where
  register : IpAddr → RegisterDtoV2 → ServerEventV2
  prepare_upload :
      String → IpAddr → RegisterDtoV2 → Option String → HashMap String FileDto → ServerEventV2
  file_upload : String → String → FileDto → ServerEventV2
  session_end : String → SessionEndReasonV2 → ServerEventV2
  prepare_upload_aborted : String → ServerEventV2
  cancel_received : IpAddr → String → ServerEventV2

pub data PrepareUploadDecisionV2 : Type 0 where
  accept : List String → PrepareUploadDecisionV2
  decline : PrepareUploadDecisionV2

-- `event_tx`: the events sent so far, oldest first, and whether the application still listens.
-- `Cache` is the type of the table of failed PIN attempts (Pin.antt).
pub record V2State (Cache : Type 0) : Type 0 where
  pub pin : Option String
  pub events : List ServerEventV2
  pub listening : Bool
  pub session : Option SessionStateV2
  pub pin_attempts : Cache

abbrev pub invalid_token_error : AppError
invalid_token_error = message 403 "Invalid token or IP address"

module _ {Cache : Type 0} where
  abbrev pub send : ServerEventV2 → V2State Cache → V2State Cache
  send event v2 = if v2.listening then record v2 { events = v2.events ++ event ∷ [] } else v2
