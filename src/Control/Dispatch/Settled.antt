-- ===== src/Control/Dispatch/Settled.antt =====
-- control/src/services/orchestrator.rs: actions that no later dispatch cycle touches.
use quiltc.Prelude.{ℕ, zero, suc, ◌+◌, String, ◌≡◌, refl, false, ◌||◌, some, ok}
use quiltc.Control.Rows.{ActionRow, DispatchAction, RuntimeOperation, ExecutionConfig}
use quiltc.Control.World.{Externals, World, ◌>>=◌}
use quiltc.Control.Codes.{is_runtime_terminal_success, is_runtime_terminal_failure}
use quiltc.Control.Actions.{is_open}
use quiltc.Control.Actions.Unique.{IsKeyed, IsKeyed-updates, HasRow, HasRow-update_self}
use quiltc.Control.Dispatch.{record_dispatch, run_dispatch_cycle}
use quiltc.Control.Dispatch.Writes.{Keeps-after_dispatch}
use quiltc.Control.Dispatch.Cycle.{run_dispatch_cycle-IsKeyed, run_dispatch_cycle-HasRow}

-- The world after a number of dispatch cycles, failed ones included.
unfoldable pub cycles : Externals → ExecutionConfig → ℕ → World → World
cycles x cfg zero w = w
cycles x cfg (suc n) w = cycles x cfg n (run_dispatch_cycle x cfg w).1

-- An action whose status is none of pending, accepted, queued and running keeps its row through
-- every number of dispatch cycles. (Identifiers must be unique in the table.)
pub cycles-HasRow :
    (x : Externals) (cfg : ExecutionConfig) (n : ℕ) (w : World) (i : String) (r : ActionRow)
    → IsKeyed w.db.actions
    → HasRow i r w.db.actions
    → is_open r.status ≡ false
    → HasRow i r (cycles x cfg n w).db.actions
unfolding cycles
cycles-HasRow x cfg zero w i r k h done = h
cycles-HasRow x cfg (suc n) w i r k h done =
    cycles-HasRow x cfg n (run_dispatch_cycle x cfg w).1 i r (run_dispatch_cycle-IsKeyed x cfg w k)
      (run_dispatch_cycle-HasRow x cfg w i r k h (rw done)) done

-- The row of an action to which the service answered with an operation that is not final.
abbrev pub started : ActionRow → RuntimeOperation → ℕ → ActionRow
started r op now = record r {
  outbound_requested_at = some now;
  runtime_operation_id = some op.operation_id;
  runtime_operation_type = op.operation_type;
  status = op.status;
  reason_code = op.reason_code;
  reason_message = op.reason_message;
  attempt_count = r.attempt_count + 1;
  next_retry_at = now;
  updated_at = now;
}

-- A dispatched action that the service answers with a status outside the known ones is stranded:
-- its row takes that status, its terminal status stays as it was, and so it remains through every
-- number of dispatch cycles. (Identifiers must be unique in the table, and the action's row in
-- it.)
pub unknown_status_strands :
    (x : Externals) (cfg : ExecutionConfig) (n : ℕ) (a : DispatchAction) (op : RuntimeOperation)
    (r : ActionRow) (w : World)
    → IsKeyed w.db.actions
    → HasRow a.action_id r w.db.actions
    → is_open op.status ≡ false
    → (is_runtime_terminal_success op.status || is_runtime_terminal_failure op.status) ≡ false
    → HasRow a.action_id
        (started r op (w.clock w.reads))
        (cycles x cfg n (record_dispatch a op w).1).db.actions
unknown_status_strands x cfg n a op r w k h closed unknown =
    cycles-HasRow x cfg n (record_dispatch a op w).1 a.action_id (started r op (w.clock w.reads))
      ((Keeps-after_dispatch IsKeyed a (IsKeyed-updates a.action_id) (ok op)).at w k)
      (unfold record_dispatch ◌>>=◌ in
        rw unknown (
          HasRow-update_self _
            (record { action_id = λ r. refl; idempotency_key = λ r. refl; columns = λ r. refl })
            a.action_id r w.db.actions h))
      closed
