-- ===== src/Control/Dispatch/Writes.antt =====
-- control/src/services/orchestrator.rs: processing an action writes its own row and may insert one.
use quiltc.Prelude.{String, Option, none, some, List, ok, err, Res, refl, str_eq}
use quiltc.Control.Rows.{ActionRow, DispatchAction, RuntimeOperation, ExecutionConfig}
use quiltc.Control.World.{Externals, Reply, Request}
use quiltc.Control.World.Keeps.{
  Keeps, Keeps-pure, Keeps-bail, Keeps-bind, Keeps-now, Keeps-send, Keeps-gets, Keeps-lift,
  Keeps-if, Keeps-attempt,
}
use quiltc.Control.Codes.{
  DispatchError, parse_dispatch_error, is_runtime_non_terminal, is_runtime_terminal_success,
  is_runtime_terminal_failure, rc_orch_action_unsupported,
}
use quiltc.Control.Actions.{workload_ownership_valid}
use quiltc.Control.Actions.Writes.{
  KeptByUpdates, KeptByInserts, Keeps-schedule_retry, Keeps-mark_terminal, Keeps-enqueue_rollback,
}
use quiltc.Control.Remote.{exchange, dispatch_control_operation, poll_control_operation, receive}
use quiltc.Control.Plan.{Plan, call, invalid, unsupported}
use quiltc.Control.Dispatch.{
  record_poll, after_poll, record_dispatch, retry_under_pressure, record_pool_error,
  record_other_error, record_error, after_dispatch, run_plan, expire, poll, submit, poll_or_submit,
  process_action,
}

module _ (x : Externals) (P : List ActionRow → Type 0) where
  Keeps-receive : (context : String) (r : Option Reply) → Keeps P (receive x context r)
  Keeps-receive context none = Keeps-bail P context
  Keeps-receive context (some r) = Keeps-lift P _

  -- A request writes nothing.
  pub Keeps-exchange :
      (context : String) (base : Option String) (request : String → Request)
      → Keeps P (exchange x context base request)
  Keeps-exchange context none request = Keeps-bail P _
  Keeps-exchange context (some base) request =
      Keeps-bind P _ _ (Keeps-send P _) (Keeps-receive context)

module _ (P : List ActionRow → Type 0) (a : DispatchAction)
    (updates : KeptByUpdates P a.action_id) where
  Keeps-record_poll : (op : RuntimeOperation) → Keeps P (record_poll a op)
  unfolding record_poll
  Keeps-record_poll op = Keeps-bind P _ _ (Keeps-now P) λ now.
      Keeps-if P (is_runtime_non_terminal op.status) _ _
        (updates _
          (record { action_id = λ r. refl; idempotency_key = λ r. refl; columns = λ r. refl }))
        (Keeps-if P (is_runtime_terminal_success op.status) _ _
          (Keeps-mark_terminal P a updates _ _ _)
          (Keeps-if P (is_runtime_terminal_failure op.status) _ _
            (Keeps-mark_terminal P a updates _ _ _) (Keeps-pure P tt)))

  pub Keeps-after_poll : (r : Res RuntimeOperation) → Keeps P (after_poll a r)
  Keeps-after_poll (ok op) = Keeps-record_poll op
  Keeps-after_poll (err message) = Keeps-schedule_retry P a.action_id updates _ _ _

  Keeps-record_dispatch : (op : RuntimeOperation) → Keeps P (record_dispatch a op)
  unfolding record_dispatch
  Keeps-record_dispatch op = Keeps-bind P _ _ (Keeps-now P) λ now.
      Keeps-if P _ _ _
        (updates _
          (record { action_id = λ r. refl; idempotency_key = λ r. refl; columns = λ r. refl }))
        (updates _
          (record { action_id = λ r. refl; idempotency_key = λ r. refl; columns = λ r. refl }))

  Keeps-retry_under_pressure : (code detail : String) → Keeps P (retry_under_pressure a code detail)
  unfolding retry_under_pressure
  Keeps-retry_under_pressure code detail = Keeps-bind P _ _ (Keeps-now P) (λ now.
      updates _
        (record { action_id = λ r. refl; idempotency_key = λ r. refl; columns = λ r. refl }))

  Keeps-record_pool_error : (e : DispatchError) → Keeps P (record_pool_error a e)
  unfolding record_pool_error
  Keeps-record_pool_error e = Keeps-if P _ _ _ (Keeps-mark_terminal P a updates _ _ _) (
      Keeps-if P _ _ _ (Keeps-retry_under_pressure _ _) (
        Keeps-if P _ _ _ (Keeps-schedule_retry P a.action_id updates _ _ _)
          (Keeps-mark_terminal P a updates _ _ _)))

  Keeps-record_other_error : (e : DispatchError) → Keeps P (record_other_error a e)
  unfolding record_other_error
  Keeps-record_other_error e = Keeps-if P _ _ _ (Keeps-mark_terminal P a updates _ _ _) (
      Keeps-if P _ _ _ (Keeps-retry_under_pressure _ _)
        (Keeps-schedule_retry P a.action_id updates _ _ _))

  Keeps-record_error : (message : String) → Keeps P (record_error a message)
  unfolding record_error
  Keeps-record_error message =
      Keeps-if P (str_eq a.action_type "SetPoolTarget") _ _
        (Keeps-record_pool_error (parse_dispatch_error message))
        (Keeps-record_other_error (parse_dispatch_error message))

  pub Keeps-after_dispatch : (r : Res RuntimeOperation) → Keeps P (after_dispatch a r)
  Keeps-after_dispatch (ok op) = Keeps-record_dispatch op
  Keeps-after_dispatch (err message) = Keeps-record_error message

module _ (x : Externals) (cfg : ExecutionConfig) (P : List ActionRow → Type 0) (a : DispatchAction)
    (updates : KeptByUpdates P a.action_id) (inserts : KeptByInserts x P) where
  Keeps-run_plan : (p : Plan) → Keeps P (run_plan x cfg a p)
  unfolding dispatch_control_operation
  Keeps-run_plan (call path payload) =
      Keeps-bind P _ _ (Keeps-attempt P _ (Keeps-exchange x P _ _ _))
        (Keeps-after_dispatch P a updates)
  Keeps-run_plan invalid = Keeps-bail P _
  Keeps-run_plan unsupported = Keeps-after_dispatch P a updates (err rc_orch_action_unsupported)

  Keeps-submit : Keeps P (submit x cfg a)
  unfolding submit workload_ownership_valid
  Keeps-submit =
      Keeps-bind P _ _ (Keeps-gets P _)
        λ owned. Keeps-if P _ _ _ (Keeps-run_plan _) (Keeps-mark_terminal P a updates _ _ _)

  Keeps-poll : (i : String) → Keeps P (poll x cfg a i)
  unfolding poll poll_control_operation
  Keeps-poll i =
      Keeps-bind P _ _ (Keeps-attempt P _ (Keeps-exchange x P _ _ _)) (Keeps-after_poll P a updates)

  Keeps-poll_or_submit : (i : Option String) → Keeps P (poll_or_submit x cfg a i)
  Keeps-poll_or_submit none = Keeps-submit
  Keeps-poll_or_submit (some i) = Keeps-if P _ _ _ Keeps-submit (Keeps-poll i)

  Keeps-expire : Keeps P (expire x cfg a)
  unfolding expire
  Keeps-expire =
      Keeps-bind P _ _ (Keeps-mark_terminal P a updates _ _ _)
        (λ _. Keeps-enqueue_rollback x P inserts a updates)

  -- What the updates of its row and the insertions keep, process_action keeps.
  pub Keeps-process_action : Keeps P (process_action x cfg a)
  unfolding process_action
  Keeps-process_action =
      Keeps-bind P _ _ (Keeps-now P)
        λ now. Keeps-if P _ _ _ Keeps-expire (Keeps-poll_or_submit a.runtime_operation_id)
