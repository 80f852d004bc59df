-- ===== src/Control/Decide/Bounds.antt =====
-- control/src/services/orchestrator.rs: the range of what the fast loop decides, whatever the
-- floating-point operations give.
use quiltc.Prelude.{ℕ, ◌+◌, ◌*◌, ◌/◌, ◌≤◌, ◌<◌, min, ◌≡◌, Option, List, arith}
use quiltc.Prelude.Int.{ℤ, pos, negsuc, ◌≤ℤ◌, min_ℤ}
use quiltc.Control.Rows.{
  WorkloadPolicyRow, WorkloadSloRow, WorkloadObservation, NodeGroupObservation,
}
use quiltc.Control.World.{Externals}
use quiltc.Control.Actions.{u32, decision_window_start}
use quiltc.Control.Decide.{u32_max, clamp_u32, base_desired, decide, make_intent}

-- The result lies between the bounds, if these are in order and in range; otherwise the lower one
-- is the result or the value is below the upper.
clamp_u32_bounds :
    (v : ℤ) (low high : ℕ)
    → low ≤ high
    → high ≤ u32_max
    → (low ≤ clamp_u32 v low high) × (clamp_u32 v low high ≤ high)
unfolding clamp_u32
clamp_u32_bounds (pos n) low high h k = ground arith
clamp_u32_bounds (negsuc n) low high h k = ground arith

memory_double : (m v : ℕ) → v ≤ min (2 * m) u32_max → v ≤ 2 * m
memory_double m v h = omega arith

-- For a policy with 1 ≤ absolute_limit and 32 ≤ burst_mem_mb, both a u32, the intent's target
-- is between 1 and absolute_limit, and its burst memory between 64 and twice burst_mem_mb,
-- whatever the observation, the decision and the floating-point operations.
pub make_intent_bounds :
    (x : Externals) (policy : WorkloadPolicyRow) (obs : WorkloadObservation)
    (groups : List NodeGroupObservation) (slo : Option WorkloadSloRow) (now : ℕ)
    → 1 ≤ policy.absolute_limit
    → policy.absolute_limit ≤ u32_max
    → 32 ≤ policy.burst_mem_mb
    → policy.burst_mem_mb ≤ u32_max
    → let i = make_intent x policy obs groups (decide x policy obs slo) now in
      (1 ≤ i.target_concurrency)
      × (i.target_concurrency ≤ policy.absolute_limit)
      × (64 ≤ i.burst_mem_mb)
      × (i.burst_mem_mb ≤ 2 * policy.burst_mem_mb)
unfolding make_intent
make_intent_bounds x policy obs groups slo now l₁ l₂ m₁ m₂ =
    let d = decide x policy obs slo in
    let target = clamp_u32_bounds d.desired 1 policy.absolute_limit l₁ l₂ in
    let memory =
      clamp_u32_bounds d.burst_mem 64 (min (2 * policy.burst_mem_mb) u32_max) (omega arith)
        (omega arith) in
    (target.0, target.1, memory.0, memory_double policy.burst_mem_mb _ memory.1)

min_ℤ-le : (a b : ℤ) → min_ℤ a b ≤ℤ b
min_ℤ-le a b = ground arith

min_ℤ-le_left : (a b : ℤ) → min_ℤ a b ≤ℤ a
min_ℤ-le_left a b = ground arith

≤ℤ-trans : (a b c : ℤ) → a ≤ℤ b → b ≤ℤ c → a ≤ℤ c
≤ℤ-trans a b c h k = omega arith

-- The quotas are added as u32: where their sum is 2^32 + k, the desired concurrency of a workload
-- is at most k before an SLO violation is looked at, however large the quotas are.
pub base_desired_wraps :
    (x : Externals) (policy : WorkloadPolicyRow) (obs : WorkloadObservation) (k : ℕ)
    → k ≤ u32_max
    → policy.hard_quota + policy.soft_burst ≡ 4294967296 + k
    → base_desired x policy obs ≤ℤ pos k
unfolding base_desired
base_desired_wraps x policy obs k low e =
    let sum : u32 (policy.hard_quota + policy.soft_burst) ≡ k = omega arith in
    rw sum (≤ℤ-trans _ _ (pos k) (min_ℤ-le_left _ (pos policy.absolute_limit)) (min_ℤ-le _ (pos k)))

-- A window of positive length starts at a multiple of its length, at most one length before the
-- time it is for.
decision_window_start_bounds :
    (now window : ℕ)
    → 0 < window
    → (decision_window_start now window ≤ now)
      × (now < decision_window_start now window + window)
      × (decision_window_start now window ≡ window * (now / window))
unfolding decision_window_start
decision_window_start_bounds now window h = grind arith
