-- ===== src/Control/Actions.antt =====
-- control/src/services/orchestrator.rs: the statements on the table orchestrator_action, from
-- queueing an action to its terminal state.
pub mod Key
pub mod Writes
pub mod Unique
pub mod Derived
pub mod Quiet
use Prim.Native.String.{◌++◌ as ◌<>◌}
use mathlib.Core.Option
use quiltc.Prelude.{
  ℕ, ◌+◌, ◌-◌, ◌%◌, ◌^◌, min, String, Bool, true, false, not, ◌&&◌, ◌||◌, Option, none, some, List,
  [], ◌∷◌, ◌++◌, map, Res, ok, err, ltb, leb, str_eq, if◌then◌else◌, is_some, any, keep, take,
  sort_by, update_where,
}
use quiltc.Prelude.Text.{bar}
use quiltc.Prelude.Int.{ℤ, sub_ℕ, pos, ◌*ℤ◌}
use quiltc.Control.Json.{Value, canonical_json, json}
use quiltc.Control.Rows.{PolicyTableRow, ActionRow, DispatchAction}
use quiltc.Control.World.{
  Externals, Db, M, ◌>>=◌, ◌>>◌, pure, skip, gets, modify, lift, now_unix_seconds, new_uuid,
}
use quiltc.Control.Codes.{fast_loop_seconds, max_dispatch_batch, rc_orch_rollback_triggered}

-- `u32` arithmetic of a release build
abbrev pub u32 : ℕ → ℕ
u32 n = n % 4294967296

unfoldable pub decision_window_start : ℕ → ℕ → ℕ
decision_window_start now window_seconds = now - now % window_seconds

abbrev pub on_actions : (List ActionRow → List ActionRow) → M Unit
on_actions f = modify (λ d. record d { actions = f d.actions })

abbrev pub has_id : String → ActionRow → Bool
has_id i r = str_eq r.action_id i

-- `UPDATE orchestrator_action SET … WHERE action_id = ?`
abbrev pub update_action : String → (ActionRow → ActionRow) → M Unit
update_action i f = on_actions (update_where (has_id i) f)

-- The insertion of enqueue_action: a row with the idempotency key there already makes it do
-- nothing, and a taken primary key is an error.
abbrev insert_rows : ActionRow → List ActionRow → Res (List ActionRow)
insert_rows row rows =
    if any (λ r. str_eq r.idempotency_key row.idempotency_key) rows
    then ok rows
    else if any (has_id row.action_id) rows
    then err "UNIQUE constraint failed: orchestrator_action.action_id"
    else ok (rows ++ row ∷ [])

unfoldable pub insert_action : ActionRow → M Unit
insert_action row = do
  rows ← gets (λ d. d.actions)
  rows' ← lift (insert_rows row rows)
  on_actions (λ _. rows')

-- `status IN ('pending','accepted','queued','running')`
unfoldable pub is_open : String → Bool
is_open s = str_eq s "pending" || str_eq s "accepted" || str_eq s "queued" || str_eq s "running"

abbrev pub is_dispatchable : ℕ → ActionRow → Bool
is_dispatchable now r = is_open r.status && leb r.next_retry_at now

module _ (x : Externals) where
  open x use {to_text, from_text, sha256_hex, show_nat}

  -- The text that deterministic_idempotency_key hashes.
  unfoldable pub key_input : String → String → String → Value → ℕ → String
  key_input tenant_id workload_id action_type payload window_start =
      tenant_id
      <> bar (
          workload_id
          <> bar (
              action_type <> bar (to_text (canonical_json payload) <> bar (show_nat window_start))))

  unfoldable pub deterministic_idempotency_key : String → String → String → Value → ℕ → String
  deterministic_idempotency_key tenant_id workload_id action_type payload window_start =
      sha256_hex (key_input tenant_id workload_id action_type payload window_start)

  -- The row that enqueue_action inserts.
  unfoldable pub pending_row :
      String
      → String
      → String
      → Value
      → ℕ
      → ℕ
      → Option Value
      → Option String
      → String
      → ℕ
      → ActionRow
  pending_row tenant workload type payload ttl window_start rollback parent uuid now = record {
    action_id = uuid;
    tenant_id = tenant;
    workload_id = workload;
    action_type = type;
    payload_json = to_text (canonical_json payload);
    ttl_seconds = ttl;
    rollback_action_json = Option.map (λ v. to_text (canonical_json v)) rollback;
    parent_action_id = parent;
    idempotency_key = deterministic_idempotency_key tenant workload type payload window_start;
    decision_window_start = window_start;
    status = "pending";
    reason_code = none;
    reason_message = none;
    effective_at = now;
    outbound_requested_at = none;
    runtime_operation_id = none;
    runtime_operation_type = none;
    terminal_status = none;
    terminal_at = none;
    total_latency_ms = none;
    attempt_count = 0;
    next_retry_at = now;
    created_at = now;
    updated_at = now;
  }

  unfoldable pub enqueue_action :
      String → String → String → Value → ℕ → ℕ → Option Value → Option String → M Unit
  unfolding insert_action
  enqueue_action tenant workload type payload ttl window_start rollback parent = do
    now ← now_unix_seconds
    uuid ← new_uuid
    insert_action
        (pending_row tenant workload type payload ttl window_start rollback parent uuid now)

  abbrev or_empty_object : Option Value → Value
  or_empty_object (some v) = v
  or_empty_object none = json []

  abbrev parse_rollback : Option String → Option Value
  parse_rollback none = none
  parse_rollback (some v) = from_text v

  unfoldable pub dispatch_action : ActionRow → DispatchAction
  dispatch_action r = record {
    action_id = r.action_id;
    tenant_id = r.tenant_id;
    workload_id = r.workload_id;
    action_type = r.action_type;
    payload_json = or_empty_object (from_text r.payload_json);
    ttl_seconds = r.ttl_seconds;
    rollback_action_json = parse_rollback r.rollback_action_json;
    idempotency_key = r.idempotency_key;
    status = r.status;
    effective_at = r.effective_at;
    runtime_operation_id = r.runtime_operation_id;
    attempt_count = r.attempt_count;
    created_at = r.created_at;
  }

  -- The rows in the order of `created_at`; SQLite leaves the order of equal ones open.
  unfoldable pub load_dispatch_candidates : ℕ → M (List DispatchAction)
  load_dispatch_candidates now = gets λ d. map dispatch_action (
      take max_dispatch_batch
        (sort_by (λ a b. ltb a.created_at b.created_at) (keep (is_dispatchable now) d.actions)))

unfoldable pub set_action_status : String → String → Option String → Option String → M Unit
set_action_status i status code message = do
  now ← now_unix_seconds
  update_action i (λ r. record r {
    status = status;
    reason_code = code;
    reason_message = message;
    updated_at = now;
  })

-- update_action_result, behind POST /v1/orchestrator/actions/:action_id/result
unfoldable pub update_action_result : String → String → Option String → Option String → M Unit
update_action_result i status code message = do
  now ← now_unix_seconds
  found ← gets (λ d. any (has_id i) d.actions)
  update_action i (λ r. record r {
    status = status;
    reason_code = code;
    reason_message = message;
    updated_at = now;
  })
  lift (if found then ok tt else err "Action not found")

abbrev pub backoff : ℕ → ℕ
backoff attempts = 2 ^ min attempts 6

unfoldable pub schedule_retry : String → ℕ → String → String → M Unit
schedule_retry i attempts code message = do
  now ← now_unix_seconds
  update_action i (λ r. record r {
    attempt_count = attempts;
    next_retry_at = now + backoff attempts;
    reason_code = some code;
    reason_message = some message;
    updated_at = now;
  })

-- `(now - created_at) * 1000` on i64: a clock that was set back gives a negative latency.
abbrev pub latency_ms : ℕ → ℕ → ℤ
latency_ms now created_at = sub_ℕ now created_at *ℤ pos 1000

unfoldable pub mark_terminal : DispatchAction → String → Option String → Option String → M Unit
mark_terminal action status code message = do
  now ← now_unix_seconds
  update_action action.action_id (λ r. record r {
    status = status;
    terminal_status = some status;
    reason_code = code;
    reason_message = message;
    terminal_at = some now;
    total_latency_ms = some (latency_ms now action.created_at);
    updated_at = now;
  })

module _ (x : Externals) where
  abbrev rollback_with : DispatchAction → Option Value → M Unit
  rollback_with action none = skip
  rollback_with action (some payload) = do
    now ← now_unix_seconds
    enqueue_action x action.tenant_id action.workload_id "RollbackAction" payload action.ttl_seconds
        (decision_window_start now fast_loop_seconds) none (some action.action_id)
    set_action_status action.action_id "failed" (some rc_orch_rollback_triggered)
        (some "Rollback action enqueued")

  unfoldable pub enqueue_rollback : DispatchAction → M Unit
  unfolding set_action_status decision_window_start
  enqueue_rollback action = rollback_with action action.rollback_action_json

abbrev pub owns : String → String → PolicyTableRow → Bool
owns tenant workload p = str_eq p.tenant_id tenant && str_eq p.workload_id workload

unfoldable pub workload_ownership_valid : String → String → M Bool
workload_ownership_valid tenant workload = gets (λ d. any (owns tenant workload) d.policies)
