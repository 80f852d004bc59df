-- ===== src/Control/Dispatch/Blocked.antt =====
-- control/src/services/orchestrator.rs: an action whose payload lacks a field, at the head of the
-- queue, in run_dispatch_cycle.
use quiltc.Prelude.{
  ℕ, zero, suc, ◌+◌, ◌*◌, ◌<◌, String, ◌≡◌, refl, true, false, none, List, ◌∷◌, ok, err, ◌⊎◌, inl,
  inr, arith, Option-cases,
}
use quiltc.Control.Json.{Value, as_str, as_u64, as_i64}
use quiltc.Control.Json
use quiltc.Control.Rows.{DispatchAction, ExecutionConfig}
use quiltc.Control.World.{Externals, World, ◌>>=◌, for_each, gets}
use quiltc.Control.Codes.{rc_invalid_argument}
use quiltc.Control.Actions.{load_dispatch_candidates, workload_ownership_valid}
use quiltc.Control.Plan.{
  invalid, plan, trimmed, plan_pool_target, plan_burst_policy, plan_placement, plan_scale,
}
use quiltc.Control.Dispatch.{is_expired, process_action, submit, run_dispatch_cycle}
use quiltc.Control.Dispatch.Settled.{cycles}
use quiltc.Control.Dispatch.Steps.{is_unsubmitted, is_owned, process_action-submit}

-- The payload has no such field, or one of another kind.
abbrev pub NoText : String → Value → Type 0
NoText k p = trimmed (as_str (Json.get k p)) ≡ none

abbrev pub NoString : String → Value → Type 0
NoString k p = as_str (Json.get k p) ≡ none

abbrev pub NoU64 : String → Value → Type 0
NoU64 k p = as_u64 (Json.get k p) ≡ none

abbrev pub NoI64 : String → Value → Type 0
NoI64 k p = as_i64 (Json.get k p) ≡ none

-- The payload lacks a field that the action's type needs.
abbrev pub Lacks : String → Value → Type 0
Lacks type p =
    ((type ≡ "SetPoolTarget")
      × (NoText "function_id" p ⊎ NoU64 "min_instances" p ⊎ NoU64 "max_instances" p))
    ⊎ ((type ≡ "SetBurstPolicy")
        × (NoString "container_id" p ⊎ NoU64 "memory_limit_mb" p ⊎ NoU64 "cpu_limit_percent" p))
    ⊎ ((type ≡ "SetPlacementPreference") × (NoText "workload_id" p ⊎ NoText "node_group" p))
    ⊎ ((type ≡ "ScaleNodeGroupUp") × (NoText "node_group" p ⊎ NoI64 "delta_units" p))
    ⊎ ((type ≡ "ScaleNodeGroupDown") × (NoText "node_group" p ⊎ NoI64 "delta_units" p))

pool-Lacks :
    (p : Value)
    → NoText "function_id" p ⊎ NoU64 "min_instances" p ⊎ NoU64 "max_instances" p
    → plan_pool_target p ≡ invalid
unfolding plan_pool_target
pool-Lacks p (inl e) = rw e refl
pool-Lacks p (inr (inl e)) = elim (Option-cases (trimmed (as_str (Json.get "function_id" p)))) [
  | inl f ↦ rw f refl
  | inr (v, f) ↦ rw (f, e) refl
]
pool-Lacks p (inr (inr e)) = elim (Option-cases (trimmed (as_str (Json.get "function_id" p)))) [
  | inl f ↦ rw f refl
  | inr (v, f) ↦ elim (Option-cases (as_u64 (Json.get "min_instances" p))) [
    | inl g ↦ rw (f, g) refl
    | inr (u, g) ↦ rw (f, g, e) refl
  ]
]

burst-Lacks :
    (p : Value)
    → NoString "container_id" p ⊎ NoU64 "memory_limit_mb" p ⊎ NoU64 "cpu_limit_percent" p
    → plan_burst_policy p ≡ invalid
unfolding plan_burst_policy
burst-Lacks p (inl e) = rw e refl
burst-Lacks p (inr (inl e)) = elim (Option-cases (as_str (Json.get "container_id" p))) [
  | inl f ↦ rw f refl
  | inr (v, f) ↦ rw (f, e) refl
]
burst-Lacks p (inr (inr e)) = elim (Option-cases (as_str (Json.get "container_id" p))) [
  | inl f ↦ rw f refl
  | inr (v, f) ↦ elim (Option-cases (as_u64 (Json.get "memory_limit_mb" p))) [
    | inl g ↦ rw (f, g) refl
    | inr (u, g) ↦ rw (f, g, e) refl
  ]
]

placement-Lacks :
    (p : Value) → NoText "workload_id" p ⊎ NoText "node_group" p → plan_placement p ≡ invalid
unfolding plan_placement
placement-Lacks p (inl e) = rw e refl
placement-Lacks p (inr e) = elim (Option-cases (trimmed (as_str (Json.get "workload_id" p)))) [
  | inl f ↦ rw f refl
  | inr (v, f) ↦ rw (f, e) refl
]

scale-Lacks : (p : Value) → NoText "node_group" p ⊎ NoI64 "delta_units" p → plan_scale p ≡ invalid
unfolding plan_scale
scale-Lacks p (inl e) = rw e refl
scale-Lacks p (inr e) = elim (Option-cases (trimmed (as_str (Json.get "node_group" p)))) [
  | inl f ↦ rw f refl
  | inr (v, f) ↦ rw (f, e) refl
]

plan-Lacks : (a : DispatchAction) → Lacks a.action_type a.payload_json → plan a ≡ invalid
unfolding plan
plan-Lacks a (inl (t, h)) = rw t (pool-Lacks a.payload_json h)
plan-Lacks a (inr (inl (t, h))) = rw t (burst-Lacks a.payload_json h)
plan-Lacks a (inr (inr (inl (t, h)))) = rw t (placement-Lacks a.payload_json h)
plan-Lacks a (inr (inr (inr (inl (t, h))))) = rw t (scale-Lacks a.payload_json h)
plan-Lacks a (inr (inr (inr (inr (t, h))))) = rw t (scale-Lacks a.payload_json h)

module _ (x : Externals) (cfg : ExecutionConfig) (a : DispatchAction)
    (fresh : is_unsubmitted a ≡ true) (lacks : Lacks a.action_type a.payload_json) where
  invalid_action :
      (w : World)
      → is_expired (w.clock w.reads) a ≡ false
      → is_owned a w ≡ true
      → process_action x cfg a w ≡ (err rc_invalid_argument, record w { reads = suc w.reads })
  unfolding ◌>>=◌
  invalid_action w live owned =
      rw (process_action-submit x cfg a w live fresh)
        (unfold submit workload_ownership_valid in rw (owned, plan-Lacks a lacks) refl)

  -- The action is the first candidate at the time.
  abbrev pub IsFirst : World → ℕ → Type 0
  IsFirst w now =
      (later : List DispatchAction) × ((load_dispatch_candidates x now w).0 ≡ ok (a ∷ later))

  first_ends :
      (candidates later : List DispatchAction) (w : World)
      → ok candidates ≡ ok (a ∷ later)
      → is_expired (w.clock w.reads) a ≡ false
      → is_owned a w ≡ true
      → for_each (process_action x cfg) candidates w
        ≡ (err rc_invalid_argument, record w { reads = suc w.reads })
  unfolding for_each ◌>>=◌
  first_ends candidates later w e live owned =
      let same : candidates ≡ a ∷ later = cc in rw same (rw (invalid_action w live owned) refl)

  blocked_cycle :
      (w : World)
      → IsFirst w (w.clock w.reads)
      → is_expired (w.clock (suc w.reads)) a ≡ false
      → is_owned a w ≡ true
      → run_dispatch_cycle x cfg w
        ≡ (err rc_invalid_argument, record w { reads = suc (suc w.reads) })
  unfolding run_dispatch_cycle load_dispatch_candidates ◌>>=◌
  blocked_cycle w (later, e) live owned =
      first_ends _ later (record w { reads = suc w.reads }) e live owned

-- While an action that is owned, not yet submitted and not expired, and whose payload lacks a field
-- that its type needs, is the first candidate at each reading of the clock, every dispatch cycle
-- ends with an error: after any number of cycles the data base is as it was and no request was
-- sent, for that action or any other, and the next cycle fails as well.
pub invalid_payload_blocks_cycles :
    (x : Externals) (cfg : ExecutionConfig) (n : ℕ) (a : DispatchAction) (w : World)
    → is_unsubmitted a ≡ true
    → is_owned a w ≡ true
    → Lacks a.action_type a.payload_json
    → ((k : ℕ) → k < w.reads + 2 * suc n → is_expired (w.clock k) a ≡ false)
    → ((k : ℕ)
        → k < w.reads + 2 * suc n
        → (later : List DispatchAction) × ((load_dispatch_candidates x (w.clock k) w).0
            ≡ ok (a ∷ later)))
    → ((cycles x cfg n w).db ≡ w.db)
      × ((cycles x cfg n w).sent ≡ w.sent)
      × ((run_dispatch_cycle x cfg (cycles x cfg n w)).0 ≡ err rc_invalid_argument)
unfolding cycles load_dispatch_candidates gets
invalid_payload_blocks_cycles x cfg zero a w fresh owned lacks live first =
    let cycle =
      blocked_cycle x cfg a fresh lacks w (first w.reads (omega arith))
        (live (suc w.reads) (omega arith)) owned in
    (refl, refl, rw cycle refl)
invalid_payload_blocks_cycles x cfg (suc n) a w fresh owned lacks live first =
    let cycle =
      blocked_cycle x cfg a fresh lacks w (first w.reads (omega arith))
        (live (suc w.reads) (omega arith)) owned in
    let v : World = record w { reads = suc (suc w.reads) } in
    let onward : cycles x cfg (suc n) w ≡ cycles x cfg n v = rw cycle refl in
    rw onward (
      invalid_payload_blocks_cycles x cfg n a v fresh owned lacks (λ k l. live k (omega (arith, l)))
        (λ k l. first k (omega (arith, l))))
