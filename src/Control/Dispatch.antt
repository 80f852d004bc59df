-- ===== src/Control/Dispatch.antt =====
-- control/src/services/orchestrator.rs: process_action, one step of an action's life, and
-- run_dispatch_cycle, which makes a step for each action that is due.
pub mod Writes
pub mod Cycle
pub mod Settled
pub mod Steps
pub mod Blocked
pub mod Errors
pub mod Requests
use quiltc.Prelude.{
  ℕ, ◌+◌, String, Bool, false, not, ◌&&◌, ◌||◌, Option, none, some, Res, ok, err, ltb, str_eq,
  if◌then◌else◌,
}
use quiltc.Control.Rows.{DispatchAction, RuntimeOperation, ExecutionConfig}
use quiltc.Control.World.{
  Externals, M, ◌>>=◌, ◌>>◌, bail, skip, attempt, now_unix_seconds, for_each,
}
use quiltc.Control.Codes.{
  platform_tenant_id, rc_target_not_found, rc_invalid_argument, rc_resource_pressure,
  rc_operation_failed, rc_orch_ttl_expired, rc_orch_action_unsupported,
  rc_orch_dependency_unavailable, is_runtime_non_terminal, is_runtime_terminal_success,
  is_runtime_terminal_failure, DispatchError, parse_dispatch_error,
}
use quiltc.Control.Actions.{
  u32, update_action, schedule_retry, mark_terminal, latency_ms, enqueue_rollback,
  workload_ownership_valid, load_dispatch_candidates,
}
use quiltc.Control.Remote.{dispatch_control_operation, poll_control_operation}
use quiltc.Control.Plan.{Plan, call, invalid, unsupported, plan}

unfoldable pub is_expired : ℕ → DispatchAction → Bool
is_expired now action = ltb (action.effective_at + action.ttl_seconds) now

-- A poll's answer; a status that is none of the known ones changes nothing.
unfoldable pub record_poll : DispatchAction → RuntimeOperation → M Unit
record_poll action op = do
  now ← now_unix_seconds
  if is_runtime_non_terminal op.status
      then update_action action.action_id (λ r. record r {
        status = op.status;
        reason_code = op.reason_code;
        reason_message = op.reason_message;
        updated_at = now;
      })
      else if is_runtime_terminal_success op.status
      then mark_terminal action "succeeded" op.reason_code op.reason_message
      else if is_runtime_terminal_failure op.status
      then mark_terminal action op.status op.reason_code op.reason_message
      else skip

abbrev pub after_poll : DispatchAction → Res RuntimeOperation → M Unit
after_poll action (ok op) = record_poll action op
after_poll action (err message) =
    schedule_retry action.action_id (u32 (action.attempt_count + 1)) rc_orch_dependency_unavailable
      message

-- The answer to a dispatched operation.
unfoldable pub record_dispatch : DispatchAction → RuntimeOperation → M Unit
record_dispatch action op = do
  now ← now_unix_seconds
  if is_runtime_terminal_success op.status || is_runtime_terminal_failure op.status
      then update_action action.action_id (λ r. record r {
        outbound_requested_at = some now;
        runtime_operation_id = some op.operation_id;
        runtime_operation_type = op.operation_type;
        status = op.status;
        terminal_status = some op.status;
        reason_code = op.reason_code;
        reason_message = op.reason_message;
        terminal_at = some now;
        total_latency_ms = some (latency_ms now action.created_at);
        attempt_count = r.attempt_count + 1;
        next_retry_at = now;
        updated_at = now;
      })
      else update_action action.action_id (λ r. record r {
        outbound_requested_at = some now;
        runtime_operation_id = some op.operation_id;
        runtime_operation_type = op.operation_type;
        status = op.status;
        reason_code = op.reason_code;
        reason_message = op.reason_message;
        attempt_count = r.attempt_count + 1;
        next_retry_at = now;
        updated_at = now;
      })

-- The retry after resource pressure: fifteen seconds, whatever the attempt.
unfoldable pub retry_under_pressure : DispatchAction → String → String → M Unit
retry_under_pressure action code detail = do
  now ← now_unix_seconds
  update_action action.action_id (λ r. record r {
    attempt_count = u32 (action.attempt_count + 1);
    next_retry_at = now + 15;
    reason_code = some code;
    reason_message = some detail;
    updated_at = now;
  })

-- `retryable_hint == Some(true)`
abbrev pub hinted : Option Bool → Bool
hinted (some b) = b
hinted none = false

abbrev fail_with : DispatchAction → DispatchError → M Unit
fail_with action e = mark_terminal action "failed" (some e.code) (some e.detail)

abbrev retry_with : DispatchAction → DispatchError → M Unit
retry_with action e =
    schedule_retry action.action_id (u32 (action.attempt_count + 1)) e.code e.detail

-- The pool target's errors: only a hint makes it try again.
unfoldable pub record_pool_error : DispatchAction → DispatchError → M Unit
unfolding retry_under_pressure
record_pool_error action e =
    if str_eq e.code rc_invalid_argument
      || str_eq e.code rc_target_not_found
      || (str_eq e.code rc_operation_failed && not (hinted e.retryable))
      || (str_eq e.code rc_resource_pressure && not (hinted e.retryable))
    then fail_with action e
    else if str_eq e.code rc_resource_pressure && hinted e.retryable
    then retry_under_pressure action e.code e.detail
    else if hinted e.retryable
    then retry_with action e
    else fail_with action e

-- The other types' errors.
unfoldable pub record_other_error : DispatchAction → DispatchError → M Unit
unfolding retry_under_pressure
record_other_error action e =
    if str_eq e.code rc_invalid_argument || str_eq e.code rc_orch_action_unsupported
    then fail_with action e
    else if str_eq e.code rc_resource_pressure
    then retry_under_pressure action e.code e.detail
    else retry_with action e

unfoldable pub record_error : DispatchAction → String → M Unit
unfolding record_pool_error record_other_error
record_error action message =
    let e = parse_dispatch_error message in
    if str_eq action.action_type "SetPoolTarget"
    then record_pool_error action e
    else record_other_error action e

-- The match on the dispatch's result (its `Ok(None)` is never produced).
abbrev pub after_dispatch : DispatchAction → Res RuntimeOperation → M Unit
after_dispatch action (ok op) = record_dispatch action op
after_dispatch action (err message) = record_error action message

module _ (x : Externals) (cfg : ExecutionConfig) where
  abbrev pub run_plan : DispatchAction → Plan → M Unit
  run_plan action (call path payload) = do
    result ← attempt (dispatch_control_operation x cfg action path payload)
    after_dispatch action result
  run_plan action invalid = bail rc_invalid_argument
  run_plan action unsupported = after_dispatch action (err rc_orch_action_unsupported)

  unfoldable pub expire : DispatchAction → M Unit
  expire action = do
    mark_terminal action "failed" (some rc_orch_ttl_expired) (some "TTL expired before completion")
    enqueue_rollback x action

  unfoldable pub poll : DispatchAction → String → M Unit
  unfolding record_poll
  poll action operation_id = do
    result ← attempt (poll_control_operation x cfg action operation_id)
    after_poll action result

  abbrev pub reject : DispatchAction → M Unit
  reject action =
      mark_terminal action "failed" (some rc_orch_dependency_unavailable)
        (some "Cross-tenant or unknown workload ownership")

  -- The first dispatch of an action, after its ownership check.
  unfoldable pub submit : DispatchAction → M Unit
  unfolding record_dispatch record_error plan
  submit action = do
    owned ← workload_ownership_valid action.tenant_id action.workload_id
    if owned || str_eq action.tenant_id platform_tenant_id
        then run_plan action (plan action)
        else reject action

  abbrev pub poll_or_submit : DispatchAction → Option String → M Unit
  poll_or_submit action none = submit action
  poll_or_submit action (some operation_id) =
      if str_eq action.status "pending" then submit action else poll action operation_id

  unfoldable pub process_action : DispatchAction → M Unit
  unfolding expire poll submit is_expired
  process_action action = do
    now ← now_unix_seconds
    if is_expired now action
        then expire action
        else poll_or_submit action action.runtime_operation_id

  -- An error of one action ends the cycle.
  unfoldable pub run_dispatch_cycle : M Unit
  run_dispatch_cycle = do
    now ← now_unix_seconds
    candidates ← load_dispatch_candidates x now
    for_each process_action candidates
