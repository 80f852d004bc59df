-- ===== src/Control/Plan.antt =====
-- control/src/services/orchestrator.rs, process_action: the call that an action's type and payload
-- ask for.
use Prim.Native.String.{◌++◌}
use quiltc.Prelude.{ℕ, String, Bool, false, Option, none, some, [], ◌∷◌, str_eq, if◌then◌else◌}
use quiltc.Prelude.Text.{trim, is_empty}
use quiltc.Control.Json.{
  Value, null, boolean, number, string, Number, json, as_str, as_u64, as_i64, as_bool,
}
use quiltc.Control.Json
use quiltc.Control.Rows.{DispatchAction}

-- `invalid`: a field of the payload is missing, which `?` turns into an error of process_action
-- itself. `unsupported`: the last arm, whose error is a value that process_action handles.
pub data Plan : Type 0 where
  call : String → Value → Plan
  invalid : Plan
  unsupported : Plan

-- `.map(str::trim).filter(|v| !v.is_empty())`
unfoldable pub trimmed : Option String → Option String
unfolding trim
trimmed none = none
trimmed (some s) = if is_empty (trim s) then none else some (trim s)

abbrev required {ℓ} : {A : Type ℓ} → Option A → (A → Plan) → Plan
required none f = invalid
required (some a) f = f a

abbrev or_null : Option String → Value
or_null none = null
or_null (some s) = string s

abbrev value_or_null : Option Value → Value
value_or_null none = null
value_or_null (some v) = v

abbrev bool_or_false : Option Bool → Bool
bool_or_false none = false
bool_or_false (some b) = b

abbrev or_else : String → Option String → String
or_else d none = d
or_else d (some s) = s

abbrev number_of : ℕ → Value
number_of n = number (Number.pos_int n)

unfoldable pub plan_pool_target : Value → Plan
plan_pool_target p = required (trimmed (as_str (Json.get "function_id" p))) λ function_id.
    required (as_u64 (Json.get "min_instances" p)) λ low.
      required (as_u64 (Json.get "max_instances" p)) λ high.
        call ("/api/elasticity/control/functions/" ++ (function_id ++ "/pool-target"))
          (json (("min_instances", number_of low) ∷ ("max_instances", number_of high) ∷ []))

unfoldable pub plan_burst_policy : Value → Plan
plan_burst_policy p = required (as_str (Json.get "container_id" p)) λ container_id.
    required (as_u64 (Json.get "memory_limit_mb" p)) λ memory.
      required (as_u64 (Json.get "cpu_limit_percent" p)) λ cpu.
        call ("/api/elasticity/control/containers/" ++ (container_id ++ "/resize"))
          (json (("memory_limit_mb", number_of memory) ∷ ("cpu_limit_percent", number_of cpu) ∷ []))

unfoldable pub plan_placement : Value → Plan
plan_placement p = required (trimmed (as_str (Json.get "workload_id" p))) λ workload_id.
    required (trimmed (as_str (Json.get "node_group" p))) λ node_group.
      call ("/api/elasticity/control/workloads/" ++ (workload_id ++ "/placement-preference")) (
        json (
          ("node_group", string node_group)
          ∷ ("anti_affinity", boolean (bool_or_false (as_bool (Json.get "anti_affinity" p))))
          ∷ []))

unfoldable pub plan_scale : Value → Plan
plan_scale p = required (trimmed (as_str (Json.get "node_group" p))) λ node_group.
    required (as_i64 (Json.get "delta_units" p)) λ delta.
      call ("/api/elasticity/control/node-groups/" ++ (node_group ++ "/scale"))
        (json (("delta_units", number delta) ∷ []))

unfoldable pub plan_rollback : String → Value → Plan
plan_rollback action_id p =
    call
      ("/api/elasticity/control/actions/"
        ++ (or_else action_id (trimmed (as_str (Json.get "target_action_id" p))) ++ "/rollback"))
      (json (
        ("target_action_id", or_null (as_str (Json.get "target_action_id" p)))
        ∷ ("target_operation_id", or_null (as_str (Json.get "target_operation_id" p)))
        ∷ ("reason_code", or_null (as_str (Json.get "reason_code" p)))
        ∷ ("reason_message", or_null (as_str (Json.get "reason_message" p)))
        ∷ ("payload", value_or_null (Json.get "payload" p))
        ∷ []))

-- The match on `action.action_type`.
unfoldable pub plan : DispatchAction → Plan
plan action =
    let p = action.payload_json in
    let type = action.action_type in
    if str_eq type "SetPoolTarget"
    then plan_pool_target p
    else if str_eq type "SetBurstPolicy"
    then plan_burst_policy p
    else if str_eq type "SetPlacementPreference"
    then plan_placement p
    else if str_eq type "ScaleNodeGroupUp"
    then plan_scale p
    else if str_eq type "ScaleNodeGroupDown"
    then plan_scale p
    else if str_eq type "RollbackAction"
    then plan_rollback action.action_id p
    else unsupported
