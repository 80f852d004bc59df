-- ===== src/Control/Dispatch/Requests.antt =====
-- control/src/services/orchestrator.rs: the requests that processing an action sends.
use quiltc.Prelude.{String, ◌≡◌, refl, Option, none, some, [], ◌∷◌, ◌++◌, Res, ok, err, ◌⊎◌, str_eq}
use quiltc.Prelude.Maps.{lookup}
use quiltc.Control.Rows.{DispatchAction, RuntimeOperation, ExecutionConfig}
use quiltc.Control.World.{Externals, World, Request, Reply}
use quiltc.Control.World.Silent.{
  Silent, Silent-pure, Silent-bail, Silent-gets, Silent-lift, Silent-if, Silent-now, Silent-bind,
  Silent-timed,
}
use quiltc.Control.World.Sends.{
  Sends, Sends-Silent, Sends-if, Sends-then, Sends-read, Sends-send, Sends-attempt,
}
use quiltc.Control.Codes.{
  DispatchError, parse_dispatch_error, is_runtime_non_terminal, is_runtime_terminal_success,
  is_runtime_terminal_failure, rc_orch_action_unsupported,
}
use quiltc.Control.Actions.{workload_ownership_valid}
use quiltc.Control.Actions.Quiet.{
  Silent-update_action, Silent-schedule_retry, Silent-mark_terminal, Silent-enqueue_rollback,
}
use quiltc.Control.Remote.{exchange, receive, dispatch_control_operation, poll_control_operation}
use quiltc.Control.Plan.{Plan, call, invalid, unsupported}
use quiltc.Control.Dispatch.{
  record_poll, after_poll, record_dispatch, retry_under_pressure, record_pool_error,
  record_other_error, record_error, after_dispatch, run_plan, expire, poll, submit, poll_or_submit,
  process_action,
}

module _ (a : DispatchAction) where
  Silent-record_poll : (op : RuntimeOperation) → Silent (record_poll a op)
  unfolding record_poll
  Silent-record_poll op = Silent-timed _ λ now.
      Silent-if (is_runtime_non_terminal op.status) _ _ (Silent-update_action _ _) (
        Silent-if (is_runtime_terminal_success op.status) _ _ (Silent-mark_terminal _ _ _ _) (
          Silent-if (is_runtime_terminal_failure op.status) _ _ (Silent-mark_terminal _ _ _ _)
            (Silent-pure tt)))

  Silent-after_poll : (r : Res RuntimeOperation) → Silent (after_poll a r)
  Silent-after_poll (ok op) = Silent-record_poll op
  Silent-after_poll (err message) = Silent-schedule_retry _ _ _ _

  Silent-record_dispatch : (op : RuntimeOperation) → Silent (record_dispatch a op)
  unfolding record_dispatch
  Silent-record_dispatch op =
      Silent-timed _ λ now. Silent-if _ _ _ (Silent-update_action _ _) (Silent-update_action _ _)

  Silent-retry_under_pressure : (code detail : String) → Silent (retry_under_pressure a code detail)
  unfolding retry_under_pressure
  Silent-retry_under_pressure code detail = Silent-timed _ (λ now. Silent-update_action _ _)

  Silent-record_pool_error : (e : DispatchError) → Silent (record_pool_error a e)
  unfolding record_pool_error
  Silent-record_pool_error e = Silent-if _ _ _ (Silent-mark_terminal _ _ _ _) (
      Silent-if _ _ _ (Silent-retry_under_pressure _ _)
        (Silent-if _ _ _ (Silent-schedule_retry _ _ _ _) (Silent-mark_terminal _ _ _ _)))

  Silent-record_other_error : (e : DispatchError) → Silent (record_other_error a e)
  unfolding record_other_error
  Silent-record_other_error e =
      Silent-if _ _ _ (Silent-mark_terminal _ _ _ _)
        (Silent-if _ _ _ (Silent-retry_under_pressure _ _) (Silent-schedule_retry _ _ _ _))

  Silent-record_error : (message : String) → Silent (record_error a message)
  unfolding record_error
  Silent-record_error message =
      Silent-if (str_eq a.action_type "SetPoolTarget") _ _
        (Silent-record_pool_error (parse_dispatch_error message))
        (Silent-record_other_error (parse_dispatch_error message))

  Silent-after_dispatch : (r : Res RuntimeOperation) → Silent (after_dispatch a r)
  Silent-after_dispatch (ok op) = Silent-record_dispatch op
  Silent-after_dispatch (err message) = Silent-record_error message

module _ (x : Externals) (Q : Request → Type 0) where
  Silent-receive : (context : String) (r : Option Reply) → Silent (receive x context r)
  Silent-receive context none = Silent-bail context
  Silent-receive context (some r) = Silent-lift _

  Sends-exchange :
      (context : String) (base : Option String) (request : String → Request)
      → ((b : String) → Q (request b))
      → Sends Q (exchange x context base request)
  Sends-exchange context none request q = Sends-Silent Q _ (Silent-bail _)
  Sends-exchange context (some base) request q =
      Sends-then Q _ _ (Sends-send Q _ (q base)) (Silent-receive context)

-- A request on behalf of the action: it names the action and its tenant.
abbrev pub IsFor : DispatchAction → Request → Type 0
IsFor a r =
    (lookup "X-Tenant-Id" r.headers ≡ some a.tenant_id)
    × (lookup "X-Orch-Action-Id" r.headers ≡ some a.action_id)

module _ (x : Externals) (cfg : ExecutionConfig) (a : DispatchAction) where
  Sends-run_plan : (p : Plan) → Sends (IsFor a) (run_plan x cfg a p)
  unfolding dispatch_control_operation
  Sends-run_plan (call path payload) =
      Sends-then _ _ _ (Sends-attempt _ _ (Sends-exchange x _ _ _ _ (λ b. (refl, refl))))
        (Silent-after_dispatch a)
  Sends-run_plan invalid = Sends-Silent _ _ (Silent-bail _)
  Sends-run_plan unsupported =
      Sends-Silent _ _ (Silent-after_dispatch a (err rc_orch_action_unsupported))

  Sends-submit : Sends (IsFor a) (submit x cfg a)
  unfolding submit workload_ownership_valid
  Sends-submit = Sends-read _ _ _ (Silent-gets _) (λ owned.
      Sends-if _ _ _ _ (Sends-run_plan _) (Sends-Silent _ _ (Silent-mark_terminal _ _ _ _)))

  Sends-poll : (i : String) → Sends (IsFor a) (poll x cfg a i)
  unfolding poll poll_control_operation
  Sends-poll i =
      Sends-then _ _ _ (Sends-attempt _ _ (Sends-exchange x _ _ _ _ (λ b. (refl, refl))))
        (Silent-after_poll a)

  Sends-poll_or_submit : (i : Option String) → Sends (IsFor a) (poll_or_submit x cfg a i)
  Sends-poll_or_submit none = Sends-submit
  Sends-poll_or_submit (some i) = Sends-if _ _ _ _ Sends-submit (Sends-poll i)

  Silent-expire : Silent (expire x cfg a)
  unfolding expire
  Silent-expire = Silent-bind _ _ (Silent-mark_terminal _ _ _ _) (λ _. Silent-enqueue_rollback x a)

  Sends-process_action : Sends (IsFor a) (process_action x cfg a)
  unfolding process_action
  Sends-process_action = Sends-read _ _ _ Silent-now (λ now.
      Sends-if _ _ _ _ (Sends-Silent _ _ Silent-expire)
        (Sends-poll_or_submit a.runtime_operation_id))

-- Processing an action sends no request, or one, and that one carries the action's own tenant and
-- identifier, whatever the action's payload and the replies are.
pub process_action_requests :
    (x : Externals) (cfg : ExecutionConfig) (a : DispatchAction) (w : World)
    → ((process_action x cfg a w).1.sent ≡ w.sent)
      ⊎ ((r : Request) × IsFor a r × ((process_action x cfg a w).1.sent ≡ w.sent ++ r ∷ []))
process_action_requests x cfg a w = (Sends-process_action x cfg a).at w
