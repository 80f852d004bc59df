-- ===== src/Control/Decide.antt =====
-- control/src/services/orchestrator.rs: what the fast loop decides from an observation, without
-- its effects. Floating-point operations are those of `Externals`.
pub mod Bounds
use quiltc.Prelude.{
  ℕ, suc, ◌+◌, ◌-◌, ◌*◌, ◌%◌, min, String, Bool, true, false, ◌&&◌, ◌||◌, Option, none, some, List,
  [], ◌∷◌, map, ltb, leb, ◌==◌, str_eq, if◌then◌else◌, is_some, find, upsert,
}
use quiltc.Prelude.Int.{ℤ, pos, ltb_ℤ, max_ℤ, min_ℤ, ◌+ℤ◌, pos_part, ◌*ℤ◌}
use quiltc.Control.Json.{F64, Value, string, boolean, number, Number, json}
use quiltc.Control.Rows.{
  PolicyTableRow, WorkloadPolicyRow, SloTableRow, WorkloadSloRow, WorkloadObservation,
  NodeGroupObservation, OrchestratorIntent,
}
use quiltc.Control.World.{
  Externals, Db, M, ◌>>=◌, ◌>>◌, pure, skip, gets, modify, now_unix_seconds, transaction, for_each,
}
use quiltc.Control.Codes.{fast_loop_seconds, slow_loop_seconds, platform_tenant_id}
use quiltc.Control.Actions.{u32, decision_window_start, enqueue_action}

abbrev pub u32_max : ℕ
u32_max = 4294967295

-- The cast at the end is to a value in the range of both types.
unfoldable pub clamp_u32 : ℤ → ℕ → ℕ → ℕ
clamp_u32 v low high =
    if ltb_ℤ v (pos low) then low else if ltb_ℤ (pos high) v then high else u32 (pos_part v)

-- `saturating_mul(2)` and `abs_diff` on u32
abbrev saturating_double : ℕ → ℕ
saturating_double n = min (2 * n) u32_max

abbrev abs_diff : ℕ → ℕ → ℕ
abs_diff a b = if ltb a b then b - a else a - b

-- What the fast loop decides for a workload, before the cooldown.
pub record Decision : Type 0 where
  pub desired : ℤ
  pub burst_cpu : F64
  pub burst_mem : ℤ
  pub reason_code : String

-- The reason that the pressure or the queue gives, over the one of the objectives.
abbrev pub label : Bool → Bool → Decision → Decision
label hot queued d =
    if hot
    then record d { reason_code = "HOT_NODE_GROUP" }
    else if queued
    then record d { reason_code = "QUEUE_PRESSURE" }
    else d

module _ (x : Externals) where
  open x use {
    ids_from_text, f_max, f_min, f_add, f_mul, f_div, f_gt, f_ceil, f_round, f_of_int, to_i64,
    to_u32, f_lit,
  }

  abbrev group_pressure : NodeGroupObservation → F64
  group_pressure g = f_max (f_max g.cpu_pressure g.mem_pressure) g.io_pressure

  -- The loop of hottest_group_for: the first group with the highest pressure above 0.
  abbrev hottest : F64 → Option String → List NodeGroupObservation → F64 × Option String
  hottest top candidate [] = (top, candidate)
  hottest top candidate (g ∷ gs) =
      hottest (if f_gt (group_pressure g) top then group_pressure g else top)
        (if f_gt (group_pressure g) top then some g.node_group else candidate) gs

  abbrev is_hot : String → F64 × Option String → Option String
  is_hot mine (top, none) = none
  is_hot mine (top, some g) =
      if (f_gt top (f_lit 85 2) || top == f_lit 85 2) && str_eq g mine then some g else none

  unfoldable pub hottest_group_for : String → List NodeGroupObservation → Option String
  hottest_group_for mine groups = is_hot mine (hottest (f_lit 0 0) none groups)

  -- `min_by`: the first of the least; pressures that do not compare count as equal.
  abbrev coolest : NodeGroupObservation → List NodeGroupObservation → String
  coolest g [] = g.node_group
  coolest g (h ∷ gs) = coolest (if f_gt (group_pressure g) (group_pressure h) then h else g) gs

  unfoldable pub coolest_group : List NodeGroupObservation → String → String
  coolest_group [] fallback = fallback
  coolest_group (g ∷ gs) fallback = coolest g gs

  abbrev pub pressure_of : WorkloadObservation → F64
  pressure_of obs = f_max (f_max obs.cpu_pressure obs.mem_pressure) obs.io_pressure

  abbrev queue_boost : WorkloadObservation → F64
  queue_boost obs =
      if ltb 0 obs.queue_depth
      then f_add (f_lit 1 0)
          (f_min (f_div (f_of_int (pos obs.queue_depth)) (f_lit 100 0)) (f_lit 1 0))
      else f_lit 1 0

  -- `max_concurrency` is a lower bound here, and the sum of the quotas is one of u32.
  unfoldable pub base_desired : WorkloadPolicyRow → WorkloadObservation → ℤ
  base_desired policy obs =
      min_ℤ
        (min_ℤ
          (max_ℤ
            (to_i64 (f_ceil (f_mul (f_of_int (pos obs.active_compute_units)) (queue_boost obs))))
            (pos policy.max_concurrency))
          (pos (u32 (policy.hard_quota + policy.soft_burst))))
        (pos policy.absolute_limit)

  abbrev pub violates : WorkloadObservation → WorkloadSloRow → Bool
  violates obs s =
      ltb s.p95_latency_ms obs.invoke_p95_ms
      || f_gt obs.cold_start_pct s.max_cold_start_pct
      || f_gt obs.reject_pct s.max_reject_pct
      || f_gt obs.cost_per_compute_unit s.max_cost_per_compute_unit

  abbrev steady : WorkloadPolicyRow → ℤ → Decision
  steady policy desired = record {
    desired = desired;
    burst_cpu = policy.burst_cpu_cap;
    burst_mem = pos policy.burst_mem_mb;
    reason_code = "STEADY_STATE";
  }

  abbrev guarded : WorkloadPolicyRow → ℤ → Decision
  guarded policy desired = record {
    desired = min_ℤ (desired +ℤ pos policy.soft_burst) (pos policy.absolute_limit);
    burst_cpu = f_mul policy.burst_cpu_cap (f_lit 12 1);
    burst_mem = to_i64 (f_mul (f_of_int (pos policy.burst_mem_mb)) (f_lit 115 2));
    reason_code = "SLO_GUARD";
  }

  abbrev pub under_slo :
      WorkloadPolicyRow → WorkloadObservation → Option WorkloadSloRow → ℤ → Decision
  under_slo policy obs none desired = steady policy desired
  under_slo policy obs (some s) desired =
      if violates obs s then guarded policy desired else steady policy desired

  unfoldable pub decide : WorkloadPolicyRow → WorkloadObservation → Option WorkloadSloRow → Decision
  unfolding base_desired
  decide policy obs slo =
      label (f_gt (pressure_of obs) (f_lit 85 2)) (ltb 0 obs.queue_depth)
        (under_slo policy obs slo (base_desired policy obs))

  abbrev share : ℤ → ℕ → ℕ
  share desired hundredths =
      clamp_u32 (to_i64 (f_ceil (f_mul (f_of_int desired) (f_lit hundredths 2)))) 0 u32_max

  unfoldable pub make_intent :
      WorkloadPolicyRow
      → WorkloadObservation
      → List NodeGroupObservation
      → Decision
      → ℕ
      → OrchestratorIntent
  unfolding clamp_u32 hottest_group_for coolest_group
  make_intent policy obs groups d now =
      let affine = is_some (hottest_group_for obs.node_group groups) in
      record {
        tenant_id = obs.tenant_id;
        workload_id = obs.workload_id;
        target_concurrency = clamp_u32 d.desired 1 policy.absolute_limit;
        burst_cpu_cap = d.burst_cpu;
        burst_mem_mb = clamp_u32 d.burst_mem 64 (saturating_double policy.burst_mem_mb);
        burst_ttl_seconds = policy.burst_ttl_seconds;
        pool_min_ready = share d.desired 10;
        pool_target_ready = share d.desired 20;
        pool_max_ready = share d.desired 30;
        preferred_node_group =
            if affine then coolest_group groups obs.node_group else obs.node_group;
        anti_affinity = affine;
        reason_code = d.reason_code;
        effective_at = now;
        ttl_seconds = policy.burst_ttl_seconds;
        updated_at = now;
      }

  -- Whether the current intent stays: its cooldown is open, or the change is within the threshold.
  abbrev holds_back : WorkloadPolicyRow → ℕ → ℕ → Option (ℕ × ℕ) → Bool
  holds_back policy target now none = false
  holds_back policy target now (some (current_target, current_updated_at)) =
      ltb now (current_updated_at + policy.cooldown_seconds)
      || leb (abs_diff target current_target) (
          let threshold = to_u32 (
            f_ceil (
              f_mul (f_of_int (pos current_target)) (f_div policy.hysteresis_pct (f_lit 100 0)))) in
          if ltb threshold 1 then 1 else threshold)

  unfoldable pub is_held : WorkloadPolicyRow → ℕ → ℕ → Option (ℕ × ℕ) → Bool
  is_held = holds_back
