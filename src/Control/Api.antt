-- ===== src/Control/Api.antt =====
-- control/src/api/orchestrator.rs with the functions of control/src/services/orchestrator.rs that
-- it calls: the requests that write policies, objectives and observations, and the listings.
pub mod Policies
pub mod Listing
pub mod Handlers
use quiltc.Prelude.{
  ℕ, String, Bool, true, false, ◌&&◌, Option, none, some, List, [], ◌∷◌, map, Res, ok, err, ltb,
  leb, str_eq, if◌then◌else◌, keep, sort_by, take, upsert, min,
}
use quiltc.Prelude.Int.{ℤ}
use quiltc.Prelude.Text.{trim, is_empty}
use quiltc.Control.Json.{Value, json, str_lt}
use quiltc.Control.Rows.{
  WorkloadPolicyRequest, PolicyTableRow, WorkloadSloRequest, SloTableRow, WorkloadObservation,
  NodeGroupObservation, ObservationIngestRequest, WorkloadObservationRow, NodeGroupObservationRow,
  OrchestratorIntent, ActionRow, OrchestratorAction,
}
use quiltc.Control.World.{
  Externals, Db, World, M, ◌>>=◌, ◌>>◌, pure, bail, skip, gets, modify, attempt, now_unix_seconds,
  transaction, for_each,
}
use quiltc.Control.Actions.{update_action_result}
use quiltc.Control.Loops.{key_eq, run_fast_loop, run_slow_loop}

-- The responses of the handlers: 202, 200 with a body, or 500 with the error's text.
pub data Response (A : Type 0) : Type 0 where
  accepted : Response A
  okay : A → Response A
  internal_error : String → Response A

abbrev respond : {A B : Type 0} → (A → Response B) → Res A → Response B
respond f (ok a) = f a
respond f (err e) = internal_error e

-- `.map_err(internal_error)?`
abbrev pub handler : {A B : Type 0} → M A → (A → Response B) → M (Response B)
handler m f = do result ← attempt m; pure (respond f result)

-- A filter that is not given lets every row pass: the four `SELECT`s.
abbrev pub passes : Option String → String → Bool
passes none s = true
passes (some wanted) s = str_eq s wanted

abbrev pub limit_or_default : Option ℕ → ℕ
limit_or_default none = 100
limit_or_default (some n) = n

module _ (x : Externals) where
  open x use {ids_to_text, from_text}

  unfoldable pub policy_row : String → String → WorkloadPolicyRequest → ℕ → PolicyTableRow
  policy_row tenant workload req now = record {
    tenant_id = tenant;
    workload_id = workload;
    runtime_function_id = req.runtime_function_id;
    max_concurrency = req.max_concurrency;
    hard_quota = req.hard_quota;
    soft_burst = req.soft_burst;
    absolute_limit = req.absolute_limit;
    priority = req.priority;
    cooldown_seconds = req.cooldown_seconds;
    hysteresis_pct = req.hysteresis_pct;
    burst_cpu_cap = req.burst_cpu_cap;
    burst_mem_mb = req.burst_mem_mb;
    burst_ttl_seconds = req.burst_ttl_seconds;
    target_container_ids_json = ids_to_text req.target_container_ids;
    updated_at = now;
  }

  unfoldable pub upsert_workload_policy : String → String → WorkloadPolicyRequest → M Unit
  unfolding trim policy_row
  upsert_workload_policy tenant workload req =
      if is_empty (trim req.runtime_function_id)
      then bail "runtime_function_id must be non-empty"
      else do
        now ← now_unix_seconds
        modify (λ d. record d {
          policies =
              upsert (λ p. key_eq p.tenant_id p.workload_id tenant workload)
                (policy_row tenant workload req now) d.policies;
        })

  abbrev or_empty_object : Option Value → Value
  or_empty_object none = json []
  or_empty_object (some v) = v

  abbrev parse_rollback : Option String → Option Value
  parse_rollback none = none
  parse_rollback (some v) = from_text v

  unfoldable pub row_to_action : ActionRow → OrchestratorAction
  row_to_action r = record {
    action_id = r.action_id;
    tenant_id = r.tenant_id;
    workload_id = r.workload_id;
    action_type = r.action_type;
    payload_json = or_empty_object (from_text r.payload_json);
    ttl_seconds = r.ttl_seconds;
    rollback_action_json = parse_rollback r.rollback_action_json;
    parent_action_id = r.parent_action_id;
    idempotency_key = r.idempotency_key;
    decision_window_start = r.decision_window_start;
    status = r.status;
    reason_code = r.reason_code;
    reason_message = r.reason_message;
    effective_at = r.effective_at;
    outbound_requested_at = r.outbound_requested_at;
    runtime_operation_id = r.runtime_operation_id;
    runtime_operation_type = r.runtime_operation_type;
    terminal_status = r.terminal_status;
    terminal_at = r.terminal_at;
    total_latency_ms = r.total_latency_ms;
    attempt_count = r.attempt_count;
    next_retry_at = r.next_retry_at;
    created_at = r.created_at;
    updated_at = r.updated_at;
  }

  unfoldable pub list_actions : Option String → Option String → ℕ → M (List OrchestratorAction)
  unfolding row_to_action
  list_actions tenant status limit = gets λ d. map row_to_action (
      take limit (
        sort_by (λ a b. ltb b.created_at a.created_at)
          (keep (λ r. passes tenant r.tenant_id && passes status r.status) d.actions)))

  -- GET /v1/orchestrator/actions
  unfoldable pub list_actions_handler :
      Option String → Option String → Option ℕ → M (Response (List OrchestratorAction))
  list_actions_handler tenant status limit =
      handler (list_actions tenant status (min (limit_or_default limit) 1000)) okay

unfoldable pub upsert_workload_slo : String → String → WorkloadSloRequest → M Unit
upsert_workload_slo tenant workload req = do
  now ← now_unix_seconds
  modify (λ d. record d {
    slos =
        upsert (λ s. key_eq s.tenant_id s.workload_id tenant workload)
          (record { tenant_id = tenant; workload_id = workload; slo = req; updated_at = now })
          d.slos;
  })

abbrev ingest_workload : ℕ → WorkloadObservation → M Unit
ingest_workload now w = modify (λ d. record d {
  observations =
      upsert
        (λ r. key_eq r.observation.tenant_id r.observation.workload_id w.tenant_id w.workload_id)
        (record { observation = w; updated_at = now }) d.observations;
})

abbrev ingest_group : ℕ → NodeGroupObservation → M Unit
ingest_group now n = modify (λ d. record d {
  groups =
      upsert (λ r. str_eq r.observation.node_group n.node_group)
        (record { observation = n; updated_at = now }) d.groups;
})

unfoldable pub ingest_observations : ObservationIngestRequest → M Unit
ingest_observations req = do
  now ← now_unix_seconds
  transaction
      (for_each (ingest_workload now) req.workloads >> for_each (ingest_group now) req.node_groups)

abbrev intent_lt : OrchestratorIntent → OrchestratorIntent → Bool
intent_lt a b =
    if str_eq a.tenant_id b.tenant_id
    then str_lt a.workload_id b.workload_id
    else str_lt a.tenant_id b.tenant_id

unfoldable pub list_intents : M (List OrchestratorIntent)
unfolding str_lt
list_intents = gets (λ d. sort_by intent_lt d.intents)
