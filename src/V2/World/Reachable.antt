-- ===== src/V2/World/Reachable.antt =====
-- packages/core/src/http/server/v2.rs:
-- Every action keeps the invariant, so it holds in every world that the server can reach.
use aika.Common.{◌≡◌, refl, sym, none, [], string_Eq}
use mathlib.Core.Path.{subst₂}
use aika.V2.World.{
  World, Action, prepare, upload, claims, announces, interrupt, announce_task, interrupt_task,
  cancels, app_cancels, decide, finish, disconnect, cleanup, app_leaves, take_task, step,
  decide_task, finish_task, disconnect_task, cleanup_task,
}
use aika.V2.World.Invariant.{Inv}
use aika.V2.World.Rules.{on_task_rule}
use aika.V2.World.Requests.{
  WorldInv, Allowed, prepare-Inv, claims-Inv, upload-Inv, cancels-Inv, app_cancels-Inv,
}
use aika.V2.World.Answers.{
  finish_task-Inv, cleanup_task-Inv, disconnect_task-Inv, interrupt_task-Inv, announce_task-Inv,
  decide_task-Inv,
}

module _ {Cache : Type 0} where
  step-Inv : (a : Action) (w : World Cache) → Allowed a w → WorldInv w → WorldInv (step a w)
  unfolding step
  step-Inv (prepare now s req) w ok v = prepare-Inv now s req w ok v
  step-Inv (upload now req) w ok v = upload-Inv now req w v
  step-Inv (claims now req) w ok v = claims-Inv now req w ok v
  step-Inv (announces i s) w ok v =
      on_task_rule WorldInv (take_task i w.tasks) (announce_task s) w v
        (λ t rest e. announce_task-Inv i s t rest w e ok v)
  step-Inv (interrupt i) w ok v =
      on_task_rule WorldInv (take_task i w.tasks) interrupt_task w v
        (λ t rest e. interrupt_task-Inv i t rest w e v)
  step-Inv (cancels query ip) w ok v = cancels-Inv query ip w v
  step-Inv (app_cancels s) w ok v = app_cancels-Inv s w v
  step-Inv (decide i now token d) w ok v =
      on_task_rule WorldInv (take_task i w.tasks) (decide_task now token d) w v
        (λ t rest e. decide_task-Inv i now token d t rest w e v)
  step-Inv (finish i now result) w ok v =
      on_task_rule WorldInv (take_task i w.tasks) (finish_task now result) w v
        (λ t rest e. finish_task-Inv i now result t rest w e v)
  step-Inv (disconnect i) w ok v =
      on_task_rule WorldInv (take_task i w.tasks) disconnect_task w v
        (λ t rest e. disconnect_task-Inv i t rest w e v)
  step-Inv (cleanup i now) w ok v =
      on_task_rule WorldInv (take_task i w.tasks) (cleanup_task now) w v
        (λ t rest e. cleanup_task-Inv i now t rest w e v)
  step-Inv app_leaves w ok v = v

  -- What a server can come to from a start with an empty slot and no request.
  pub data Reachable : World Cache → Type 0 where
    starts : (w : World Cache) → w.v2.session ≡ none → w.tasks ≡ [] → Reachable w
    acts : (a : Action) (w : World Cache) → Reachable w → Allowed a w → Reachable (step a w)

  pub Reachable-Inv : {w : World Cache} → Reachable w → WorldInv w
  Reachable-Inv (starts w e h) =
      subst₂ Inv (sym e) (sym h) (record { owned = refl; sound = tt; quiet = tt })
  Reachable-Inv (acts a w r ok) = step-Inv a w ok (Reachable-Inv r)
