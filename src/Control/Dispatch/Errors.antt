-- ===== src/Control/Dispatch/Errors.antt =====
-- control/src/services/orchestrator.rs: which dispatch errors end an action and which are retried.
use quiltc.Prelude.{◌≡◌, Bool, not, ◌&&◌, ◌||◌, arith, str_eq, if◌then◌else◌}
use quiltc.Control.Rows.{DispatchAction}
use quiltc.Control.Codes.{
  rc_target_not_found, rc_invalid_argument, rc_resource_pressure, rc_operation_failed,
  DispatchError,
}
use quiltc.Control.Dispatch.{retry_under_pressure, hinted, fail_with, retry_with, record_pool_error}

-- The tests of the branch, with the code's four and the hint as truth values.
pool_table :
    {A : Type 0} (i t o p h : Bool) (x y z : A)
    → (if i || t || (o && not h) || (p && not h)
        then z
        else if p && h
        then x
        else if h
        then y
        else z)
      ≡ (if h && not (i || t) then (if p then x else y) else z)
pool_table i t o p h x y z = ground arith

-- For the pool target an error is retried exactly when its hint says so and its code is neither
-- an invalid argument nor a missing target; resource pressure waits a fixed time, all else backs off.
record_pool_error_lem :
    (a : DispatchAction) (e : DispatchError)
    → record_pool_error a e ≡ (
        if hinted e.retryable
          && not (str_eq e.code rc_invalid_argument || str_eq e.code rc_target_not_found)
        then (if str_eq e.code rc_resource_pressure
            then retry_under_pressure a e.code e.detail
            else retry_with a e)
        else fail_with a e)
unfolding record_pool_error
record_pool_error_lem a e =
    pool_table (str_eq e.code rc_invalid_argument) (str_eq e.code rc_target_not_found)
      (str_eq e.code rc_operation_failed) (str_eq e.code rc_resource_pressure) (hinted e.retryable)
      (retry_under_pressure a e.code e.detail) (retry_with a e) (fail_with a e)
