-- ===== src/Control/Actions/Quiet.antt =====
-- control/src/services/orchestrator.rs: the statements on the table of actions send no request.
use quiltc.Prelude.{ℕ, String, Option, none, some}
use quiltc.Control.Json.{Value}
use quiltc.Control.Rows.{ActionRow, DispatchAction}
use quiltc.Control.World.{Externals}
use quiltc.Control.World.Silent.{
  Silent, Silent-pure, Silent-gets, Silent-lift, Silent-modify, Silent-uuid, Silent-bind,
  Silent-timed,
}
use quiltc.Control.Actions.{
  update_action, insert_action, enqueue_action, set_action_status, schedule_retry, mark_terminal,
  rollback_with, enqueue_rollback,
}

pub Silent-update_action : (i : String) (f : ActionRow → ActionRow) → Silent (update_action i f)
Silent-update_action i f = Silent-modify _

Silent-insert_action : (row : ActionRow) → Silent (insert_action row)
unfolding insert_action
Silent-insert_action row =
    Silent-bind _ _ (Silent-gets _)
      (λ rows. Silent-bind _ _ (Silent-lift _) (λ rows'. Silent-modify _))

Silent-set_action_status :
    (i status : String) (code message : Option String)
    → Silent (set_action_status i status code message)
unfolding set_action_status
Silent-set_action_status i status code message = Silent-timed _ (λ now. Silent-modify _)

pub Silent-schedule_retry :
    (i : String) (n : ℕ) (code message : String) → Silent (schedule_retry i n code message)
unfolding schedule_retry
Silent-schedule_retry i n code message = Silent-timed _ (λ now. Silent-modify _)

pub Silent-mark_terminal :
    (a : DispatchAction) (status : String) (code message : Option String)
    → Silent (mark_terminal a status code message)
unfolding mark_terminal
Silent-mark_terminal a status code message = Silent-timed _ (λ now. Silent-modify _)

module _ (x : Externals) where
  Silent-enqueue_action :
      (t w type : String) (p : Value) (ttl n : ℕ) (rollback : Option Value) (parent : Option String)
      → Silent (enqueue_action x t w type p ttl n rollback parent)
  unfolding enqueue_action
  Silent-enqueue_action t w type p ttl n rollback parent =
      Silent-timed _ (λ now. Silent-bind _ _ Silent-uuid (λ uuid. Silent-insert_action _))

  Silent-rollback_with : (a : DispatchAction) (r : Option Value) → Silent (rollback_with x a r)
  Silent-rollback_with a none = Silent-pure tt
  Silent-rollback_with a (some payload) = Silent-timed _ (λ now.
      Silent-bind _ _ (Silent-enqueue_action _ _ _ _ _ _ _ _)
        (λ _. Silent-set_action_status _ _ _ _))

  pub Silent-enqueue_rollback : (a : DispatchAction) → Silent (enqueue_rollback x a)
  unfolding enqueue_rollback
  Silent-enqueue_rollback a = Silent-rollback_with a a.rollback_action_json
