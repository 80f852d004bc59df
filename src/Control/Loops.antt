-- ===== src/Control/Loops.antt =====
-- control/src/services/orchestrator.rs: the fast loop, which turns observations into intents and
-- actions, and the slow loop, which scales node groups.
pub mod Writes
pub mod Cooldown
pub mod Held
use quiltc.Prelude.{
  ℕ, String, Bool, ◌&&◌, Option, none, some, List, [], ◌∷◌, map, ltb, ◌==◌, str_eq, if◌then◌else◌,
  find, upsert,
}
use quiltc.Prelude.Int.{pos}
use quiltc.Control.Json.{F64, Value, string, boolean, number, Number, json}
use quiltc.Control.Rows.{
  PolicyTableRow, WorkloadPolicyRow, SloTableRow, WorkloadSloRow, WorkloadObservation,
  NodeGroupObservation, OrchestratorIntent,
}
use quiltc.Control.World.{
  Externals, M, ◌>>=◌, ◌>>◌, skip, gets, modify, now_unix_seconds, transaction, for_each,
}
use quiltc.Control.Codes.{fast_loop_seconds, slow_loop_seconds, platform_tenant_id}
use quiltc.Control.Actions.{decision_window_start, enqueue_action}
use quiltc.Control.Decide.{decide, make_intent, is_held}

abbrev pub key_eq : String → String → String → String → Bool
key_eq t w t' w' = str_eq t t' && str_eq w w'

-- What load_current_intent reads of an intent.
abbrev current_of : Option OrchestratorIntent → Option (ℕ × ℕ)
current_of none = none
current_of (some i) = some (i.target_concurrency, i.updated_at)

unfoldable pub load_current_intent : String → String → M (Option (ℕ × ℕ))
load_current_intent tenant workload =
    gets λ d. current_of (find (λ i. key_eq i.tenant_id i.workload_id tenant workload) d.intents)

abbrev slo_of : Option SloTableRow → Option WorkloadSloRow
slo_of none = none
slo_of (some r) = some (record {
  p95_latency_ms = r.slo.p95_latency_ms;
  max_cold_start_pct = r.slo.max_cold_start_pct;
  max_reject_pct = r.slo.max_reject_pct;
  max_cost_per_compute_unit = r.slo.max_cost_per_compute_unit;
})

unfoldable pub load_slo : String → String → M (Option WorkloadSloRow)
load_slo tenant workload =
    gets λ d. slo_of (find (λ s. key_eq s.tenant_id s.workload_id tenant workload) d.slos)

unfoldable pub list_workload_observations : M (List WorkloadObservation)
list_workload_observations = gets (λ d. map (λ r. r.observation) d.observations)

unfoldable pub list_node_group_observations : M (List NodeGroupObservation)
list_node_group_observations = gets (λ d. map (λ r. r.observation) d.groups)

unfoldable pub upsert_intent : OrchestratorIntent → M Unit
upsert_intent i = modify (λ d. record d {
  intents = upsert (λ j. key_eq j.tenant_id j.workload_id i.tenant_id i.workload_id) i d.intents;
})

module _ (x : Externals) where
  open x use {
    ids_from_text, f_max, f_min, f_add, f_mul, f_div, f_gt, f_ceil, f_round, f_of_int, to_i64,
    to_u32, f_lit,
  }

  abbrev pub or_no_ids : Option (List String) → List String
  or_no_ids none = []
  or_no_ids (some ids) = ids

  abbrev pub policy_of : Option PolicyTableRow → Option WorkloadPolicyRow
  policy_of none = none
  policy_of (some r) = some (record {
    runtime_function_id = r.runtime_function_id;
    max_concurrency = r.max_concurrency;
    hard_quota = r.hard_quota;
    soft_burst = r.soft_burst;
    absolute_limit = r.absolute_limit;
    cooldown_seconds = r.cooldown_seconds;
    hysteresis_pct = r.hysteresis_pct;
    burst_cpu_cap = r.burst_cpu_cap;
    burst_mem_mb = r.burst_mem_mb;
    burst_ttl_seconds = r.burst_ttl_seconds;
    target_container_ids = or_no_ids (ids_from_text r.target_container_ids_json);
  })

  unfoldable pub load_policy : String → String → M (Option WorkloadPolicyRow)
  load_policy tenant workload =
      gets λ d. policy_of (find (λ p. key_eq p.tenant_id p.workload_id tenant workload) d.policies)

  abbrev count_of : ℕ → Value
  count_of n = number (Number.pos_int n)

  abbrev enqueue_pool : WorkloadPolicyRow → OrchestratorIntent → ℕ → M Unit
  enqueue_pool policy intent window_start =
      enqueue_action x intent.tenant_id intent.workload_id "SetPoolTarget"
        (json (
          ("function_id", string policy.runtime_function_id)
          ∷ ("min_instances", count_of intent.pool_min_ready)
          ∷ ("max_instances", count_of intent.pool_max_ready)
          ∷ []))
        policy.burst_ttl_seconds window_start none none

  abbrev enqueue_burst : WorkloadPolicyRow → OrchestratorIntent → ℕ → String → M Unit
  enqueue_burst policy intent window_start container_id =
      enqueue_action x intent.tenant_id intent.workload_id "SetBurstPolicy"
        (json (
          ("container_id", string container_id)
          ∷ ("memory_limit_mb", count_of intent.burst_mem_mb)
          ∷ (
            "cpu_limit_percent",
            count_of (to_u32 (f_round (f_mul intent.burst_cpu_cap (f_lit 100 0)))),
          )
          ∷ []))
        policy.burst_ttl_seconds window_start none none

  abbrev enqueue_placement : WorkloadPolicyRow → OrchestratorIntent → ℕ → M Unit
  enqueue_placement policy intent window_start =
      enqueue_action x intent.tenant_id intent.workload_id "SetPlacementPreference"
        (json (
          ("tenant_id", string intent.tenant_id)
          ∷ ("workload_id", string intent.workload_id)
          ∷ ("node_group", string intent.preferred_node_group)
          ∷ ("anti_affinity", boolean intent.anti_affinity)
          ∷ []))
        policy.burst_ttl_seconds window_start none none

  -- The intent and the actions that it asks for.
  unfoldable pub publish : WorkloadPolicyRow → OrchestratorIntent → ℕ → M Unit
  publish policy intent window_start = do
    upsert_intent intent
    enqueue_pool policy intent window_start
    for_each (enqueue_burst policy intent window_start) policy.target_container_ids
    enqueue_placement policy intent window_start

  abbrev pub with_policy :
      List NodeGroupObservation → ℕ → ℕ → WorkloadObservation → Option WorkloadPolicyRow → M Unit
  with_policy groups now window_start obs none = skip
  with_policy groups now window_start obs (some policy) = do
    slo ← load_slo obs.tenant_id obs.workload_id
    let intent = make_intent x policy obs groups (decide x policy obs slo) now
    current ← load_current_intent obs.tenant_id obs.workload_id
    if is_held x policy intent.target_concurrency now current
        then skip
        else publish policy intent window_start

  -- The body of the fast loop, for one observation.
  unfoldable pub fast_step : List NodeGroupObservation → ℕ → ℕ → WorkloadObservation → M Unit
  unfolding load_slo load_current_intent load_policy make_intent decide is_held publish
      upsert_intent
  fast_step groups now window_start obs = do
    policy ← load_policy obs.tenant_id obs.workload_id
    with_policy groups now window_start obs policy

  unfoldable pub run_fast_loop_tx : M Unit
  unfolding list_workload_observations list_node_group_observations decision_window_start
  run_fast_loop_tx = do
    observations ← list_workload_observations
    node_groups ← list_node_group_observations
    now ← now_unix_seconds
    for_each (fast_step node_groups now (decision_window_start now fast_loop_seconds)) observations

  unfoldable pub run_fast_loop : M Unit
  run_fast_loop = transaction run_fast_loop_tx

  unfoldable pub utilization : NodeGroupObservation → F64
  utilization g =
      if g.capacity_units == 0
      then f_lit 0 0
      else f_div (f_of_int (pos g.used_units)) (f_of_int (pos g.capacity_units))

  abbrev enqueue_scale : ℕ → NodeGroupObservation → String → M Unit
  enqueue_scale window_start g type =
      enqueue_action x platform_tenant_id g.node_group type
        (json (("node_group", string g.node_group) ∷ ("delta_units", count_of 1) ∷ []))
        slow_loop_seconds window_start none none

  unfoldable pub slow_step : ℕ → NodeGroupObservation → M Unit
  unfolding utilization
  slow_step window_start g =
      if f_gt (utilization g) (f_lit 80 2)
      then enqueue_scale window_start g "ScaleNodeGroupUp"
      else if f_gt (f_lit 35 2) (utilization g) && ltb 0 g.warm_ready
      then enqueue_scale window_start g "ScaleNodeGroupDown"
      else skip

  unfoldable pub run_slow_loop_tx : M Unit
  unfolding list_node_group_observations decision_window_start
  run_slow_loop_tx = do
    groups ← list_node_group_observations
    now ← now_unix_seconds
    for_each (slow_step (decision_window_start now slow_loop_seconds)) groups

  unfoldable pub run_slow_loop : M Unit
  run_slow_loop = transaction run_slow_loop_tx
