-- ===== src/Control/Rows.antt =====
-- control/migrations/003_orchestrator.sql and control/src/types.rs: the rows of the tables, and
-- the requests and records that cross the API. A `u32` and a clock reading are natural numbers.
use quiltc.Prelude.{ℕ, String, Bool, Option, List}
use quiltc.Prelude.Int.{ℤ}
use quiltc.Control.Json.{F64, Value}

pub record WorkloadPolicyRequest : Type 0 where
  pub runtime_function_id : String
  pub max_concurrency : ℕ
  pub hard_quota : ℕ
  pub soft_burst : ℕ
  pub absolute_limit : ℕ
  pub priority : ℕ
  pub cooldown_seconds : ℕ
  pub hysteresis_pct : F64
  pub burst_cpu_cap : F64
  pub burst_mem_mb : ℕ
  pub burst_ttl_seconds : ℕ
  pub target_container_ids : List String

-- orchestrator_workload_policy
pub record PolicyTableRow : Type 0 where
  pub tenant_id : String
  pub workload_id : String
  pub runtime_function_id : String
  pub max_concurrency : ℕ
  pub hard_quota : ℕ
  pub soft_burst : ℕ
  pub absolute_limit : ℕ
  pub priority : ℕ
  pub cooldown_seconds : ℕ
  pub hysteresis_pct : F64
  pub burst_cpu_cap : F64
  pub burst_mem_mb : ℕ
  pub burst_ttl_seconds : ℕ
  pub target_container_ids_json : String
  pub updated_at : ℕ

-- The columns that the fast loop reads.
pub record WorkloadPolicyRow : Type 0 where
  pub runtime_function_id : String
  pub max_concurrency : ℕ
  pub hard_quota : ℕ
  pub soft_burst : ℕ
  pub absolute_limit : ℕ
  pub cooldown_seconds : ℕ
  pub hysteresis_pct : F64
  pub burst_cpu_cap : F64
  pub burst_mem_mb : ℕ
  pub burst_ttl_seconds : ℕ
  pub target_container_ids : List String

pub record WorkloadSloRequest : Type 0 where
  pub p95_latency_ms : ℕ
  pub max_cold_start_pct : F64
  pub max_reject_pct : F64
  pub rto_seconds : ℕ
  pub max_cost_per_compute_unit : F64

-- orchestrator_workload_slo
pub record SloTableRow : Type 0 where
  pub tenant_id : String
  pub workload_id : String
  pub slo : WorkloadSloRequest
  pub updated_at : ℕ

pub record WorkloadSloRow : Type 0 where
  pub p95_latency_ms : ℕ
  pub max_cold_start_pct : F64
  pub max_reject_pct : F64
  pub max_cost_per_compute_unit : F64

pub record WorkloadObservation : Type 0 where
  pub tenant_id : String
  pub workload_id : String
  pub node_group : String
  pub queue_depth : ℕ
  pub cpu_pressure : F64
  pub mem_pressure : F64
  pub io_pressure : F64
  pub cold_start_pct : F64
  pub invoke_p95_ms : ℕ
  pub reject_pct : F64
  pub active_compute_units : ℕ
  pub cost_per_compute_unit : F64

pub record NodeGroupObservation : Type 0 where
  pub node_group : String
  pub cpu_pressure : F64
  pub mem_pressure : F64
  pub io_pressure : F64
  pub warm_ready : ℕ
  pub warm_hit_rate : F64
  pub capacity_units : ℕ
  pub used_units : ℕ

pub record ObservationIngestRequest : Type 0 where
  pub workloads : List WorkloadObservation
  pub node_groups : List NodeGroupObservation

-- An observation table's row: the observation and `updated_at`.
pub record WorkloadObservationRow : Type 0 where
  pub observation : WorkloadObservation
  pub updated_at : ℕ

pub record NodeGroupObservationRow : Type 0 where
  pub observation : NodeGroupObservation
  pub updated_at : ℕ

-- orchestrator_intent
pub record OrchestratorIntent : Type 0 where
  pub tenant_id : String
  pub workload_id : String
  pub target_concurrency : ℕ
  pub burst_cpu_cap : F64
  pub burst_mem_mb : ℕ
  pub burst_ttl_seconds : ℕ
  pub pool_min_ready : ℕ
  pub pool_target_ready : ℕ
  pub pool_max_ready : ℕ
  pub preferred_node_group : String
  pub anti_affinity : Bool
  pub reason_code : String
  pub effective_at : ℕ
  pub ttl_seconds : ℕ
  pub updated_at : ℕ

-- orchestrator_action: a NULL column is `none`, and JSON columns hold text.
pub record ActionRow : Type 0 where
  pub action_id : String
  pub tenant_id : String
  pub workload_id : String
  pub action_type : String
  pub payload_json : String
  pub ttl_seconds : ℕ
  pub rollback_action_json : Option String
  pub parent_action_id : Option String
  pub idempotency_key : String
  pub decision_window_start : ℕ
  pub status : String
  pub reason_code : Option String
  pub reason_message : Option String
  pub effective_at : ℕ
  pub outbound_requested_at : Option ℕ
  pub runtime_operation_id : Option String
  pub runtime_operation_type : Option String
  pub terminal_status : Option String
  pub terminal_at : Option ℕ
  pub total_latency_ms : Option ℤ
  pub attempt_count : ℕ
  pub next_retry_at : ℕ
  pub created_at : ℕ
  pub updated_at : ℕ

-- The action as the API lists it.
pub record OrchestratorAction : Type 0 where
  pub action_id : String
  pub tenant_id : String
  pub workload_id : String
  pub action_type : String
  pub payload_json : Value
  pub ttl_seconds : ℕ
  pub rollback_action_json : Option Value
  pub parent_action_id : Option String
  pub idempotency_key : String
  pub decision_window_start : ℕ
  pub status : String
  pub reason_code : Option String
  pub reason_message : Option String
  pub effective_at : ℕ
  pub outbound_requested_at : Option ℕ
  pub runtime_operation_id : Option String
  pub runtime_operation_type : Option String
  pub terminal_status : Option String
  pub terminal_at : Option ℕ
  pub total_latency_ms : Option ℤ
  pub attempt_count : ℕ
  pub next_retry_at : ℕ
  pub created_at : ℕ
  pub updated_at : ℕ

pub record DispatchAction : Type 0 where
  pub action_id : String
  pub tenant_id : String
  pub workload_id : String
  pub action_type : String
  pub payload_json : Value
  pub ttl_seconds : ℕ
  pub rollback_action_json : Option Value
  pub idempotency_key : String
  pub status : String
  pub effective_at : ℕ
  pub runtime_operation_id : Option String
  pub attempt_count : ℕ
  pub created_at : ℕ

pub record RuntimeOperation : Type 0 where
  pub operation_id : String
  pub operation_type : Option String
  pub status : String
  pub reason_code : Option String
  pub reason_message : Option String

pub record ExecutionConfig : Type 0 where
  pub control_base_url : Option String
  pub control_api_key : Option String
