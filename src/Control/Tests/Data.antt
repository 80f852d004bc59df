-- ===== src/Control/Tests/Data.antt =====
-- control/src: a concrete environment, policy, action and data base for the tests.
use quiltc.Prelude.{
  ℕ, ◌+◌, String, true, false, Option, none, some, List, [], ◌∷◌, str_eq, ltb, if◌then◌else◌,
}
use quiltc.Prelude.Int.{ℤ, pos, negsuc}
use quiltc.Control.Json.{Value, null, json, string, boolean}
use quiltc.Control.Rows.{
  WorkloadPolicyRequest, PolicyTableRow, WorkloadObservation, NodeGroupObservation, ActionRow,
  DispatchAction, ExecutionConfig, OrchestratorIntent, WorkloadPolicyRow,
}
use quiltc.Control.World.{Externals, World}
use quiltc.Control.System.{empty_db}

abbrev pub first_id : List String → String
first_id [] = ""
first_id (i ∷ is) = i

abbrev pub positive_part : ℤ → ℕ
positive_part z = elim z [ pos n ↦ n | negsuc n ↦ 0 ]

-- The text "busy" is the body of a response under pressure; no other text is JSON.
abbrev pub toy_from_text : String → Option Value
toy_from_text s =
    if str_eq s "busy"
    then some (
        json (
          ("reason_code", string "RESOURCE_PRESSURE")
          ∷ ("retryable", boolean true)
          ∷ ("reason_message", string "no memory")
          ∷ []))
    else none

abbrev pub toy : Externals
toy = record {
  to_text = λ v. "{}";
  from_text = toy_from_text;
  ids_to_text = first_id;
  ids_from_text = λ s. some (s ∷ []);
  sha256_hex = λ s. s;
  show_nat = λ n. if ltb n 10 then "small" else "large";
  f_max = λ a b. if ltb a b then b else a;
  f_min = λ a b. if ltb a b then a else b;
  f_add = λ a b. a + b;
  f_mul = λ a b. b;
  f_div = λ a b. a;
  f_gt = λ a b. ltb b a;
  f_ceil = λ a. a;
  f_round = λ a. a;
  f_of_int = positive_part;
  to_i64 = pos;
  to_u32 = λ a. a;
  f_lit = λ m k. m;
}

abbrev pub config : ExecutionConfig
config = record { control_base_url = some "http://backend"; control_api_key = none }

abbrev pub request : WorkloadPolicyRequest
request = record {
  runtime_function_id = "f1";
  max_concurrency = 4;
  hard_quota = 10;
  soft_burst = 5;
  absolute_limit = 12;
  priority = 1;
  cooldown_seconds = 60;
  hysteresis_pct = 10;
  burst_cpu_cap = 2;
  burst_mem_mb = 256;
  burst_ttl_seconds = 300;
  target_container_ids = "c1" ∷ [];
}

abbrev pub policy : PolicyTableRow
policy = record {
  tenant_id = "t";
  workload_id = "w";
  runtime_function_id = "f1";
  max_concurrency = 4;
  hard_quota = 10;
  soft_burst = 5;
  absolute_limit = 12;
  priority = 1;
  cooldown_seconds = 60;
  hysteresis_pct = 10;
  burst_cpu_cap = 2;
  burst_mem_mb = 256;
  burst_ttl_seconds = 300;
  target_container_ids_json = "c1";
  updated_at = 900;
}

abbrev pub policy_row : WorkloadPolicyRow
policy_row = record {
  runtime_function_id = "f1";
  max_concurrency = 4;
  hard_quota = 10;
  soft_burst = 5;
  absolute_limit = 12;
  cooldown_seconds = 60;
  hysteresis_pct = 10;
  burst_cpu_cap = 2;
  burst_mem_mb = 256;
  burst_ttl_seconds = 300;
  target_container_ids = "c1" ∷ [];
}

abbrev pub observation : WorkloadObservation
observation = record {
  tenant_id = "t";
  workload_id = "w";
  node_group = "g";
  queue_depth = 7;
  cpu_pressure = 1;
  mem_pressure = 2;
  io_pressure = 3;
  cold_start_pct = 0;
  invoke_p95_ms = 20;
  reject_pct = 0;
  active_compute_units = 3;
  cost_per_compute_unit = 1;
}

abbrev pub node_group : NodeGroupObservation
node_group = record {
  node_group = "g";
  cpu_pressure = 1;
  mem_pressure = 2;
  io_pressure = 3;
  warm_ready = 1;
  warm_hit_rate = 1;
  capacity_units = 100;
  used_units = 95;
}

abbrev pub intent : OrchestratorIntent
intent = record {
  tenant_id = "t";
  workload_id = "w";
  target_concurrency = 4;
  burst_cpu_cap = 2;
  burst_mem_mb = 256;
  burst_ttl_seconds = 300;
  pool_min_ready = 1;
  pool_target_ready = 2;
  pool_max_ready = 3;
  preferred_node_group = "g";
  anti_affinity = false;
  reason_code = "STEADY";
  effective_at = 990;
  ttl_seconds = 60;
  updated_at = 990;
}

abbrev pub row : ActionRow
row = record {
  action_id = "a1";
  tenant_id = "t";
  workload_id = "w";
  action_type = "SetPoolTarget";
  payload_json = "{}";
  ttl_seconds = 300;
  rollback_action_json = none;
  parent_action_id = none;
  idempotency_key = "k1";
  decision_window_start = 990;
  status = "pending";
  reason_code = none;
  reason_message = none;
  effective_at = 995;
  outbound_requested_at = none;
  runtime_operation_id = none;
  runtime_operation_type = none;
  terminal_status = none;
  terminal_at = none;
  total_latency_ms = none;
  attempt_count = 0;
  next_retry_at = 995;
  created_at = 995;
  updated_at = 995;
}

abbrev pub action : DispatchAction
action = record {
  action_id = "a1";
  tenant_id = "t";
  workload_id = "w";
  action_type = "SetPoolTarget";
  payload_json = null;
  ttl_seconds = 300;
  rollback_action_json = none;
  idempotency_key = "k1";
  status = "pending";
  effective_at = 995;
  runtime_operation_id = none;
  attempt_count = 0;
  created_at = 995;
}

-- The clock stands at 1000, and no request gets a response.
abbrev pub world : World
world = record {
  db = record empty_db { policies = policy ∷ []; intents = intent ∷ []; actions = row ∷ [] };
  clock = λ n. 1000;
  reads = 0;
  uuids = λ n. if ltb n 1 then "u0" else "u1";
  drawn = 0;
  replies = λ n. none;
  sent = [];
}

-- The same, long after.
abbrev pub late_world : World
late_world = record world { clock = λ n. 5000 }
