-- ===== src/Cli/Mutations.antt =====
-- cli/src/main.rs: the commands that change a container or a snapshot: the request with its
-- idempotency key after the preflight check, and the waiting for the operation.
pub mod Keys
pub mod Guards
use Prim.Native.String.{◌++◌}
use quiltc.Prelude.{
  ℕ, ◌*◌, String, Bool, false, not, Option, none, some, List, [], ◌∷◌, if◌then◌else◌,
}
use quiltc.Prelude.Text.{is_empty}
use quiltc.Control.Json.{Value, boolean, string, object, Fields, end, json}
use quiltc.Cli.Http.{Method}
use quiltc.Cli.Console.{
  Platform, M, ◌>>=◌, ◌>>◌, pure, bail, skip, some_or, print, new_uuid, json_value,
}
use quiltc.Cli.Client.{Client, call_bytes, show_option}
use quiltc.Cli.Args.{nat_value, optional, parse_optional_json, parse_labels}
use quiltc.Cli.Capabilities.{preflight_capabilities}
use quiltc.Cli.Operations.{
  OperationStatus, OperationResponse, status_as_str, is_terminal_failure, parse_operation_response,
  reason_code_hint, operation_to_json, wait_for_operation_value,
}

pub data ConsistencyMode : Type 0 where
  crash_consistent app_consistent : ConsistencyMode

pub data NetworkMode : Type 0 where
  reset preserve_ns preserve_conn_best_effort : NetworkMode

pub data VolumeMode : Type 0 where
  exclude include_named include_all_allowed : VolumeMode

pub data ResumePolicy : Type 0 where
  manual immediate : ResumePolicy

pub record MutationControlArgs : Type 0 where
  pub idempotency_key : Option String
  pub wait : Bool
  pub timeout_secs : ℕ
  pub cluster_id : Option String
  pub require_capability : List String

pub record LifecycleRequestArgs : Type 0 where
  pub consistency_mode : ConsistencyMode
  pub network_mode : NetworkMode
  pub volume_mode : VolumeMode
  pub resume_policy : ResumePolicy
  pub placement_hint_json : Option String
  pub ttl_seconds : Option ℕ
  pub label : List String
  pub dry_run : Bool
  pub async_mode : Option Bool
  pub mutation : MutationControlArgs

abbrev consistency_mode_str : ConsistencyMode → String
consistency_mode_str crash_consistent = "crash-consistent"
consistency_mode_str app_consistent = "app-consistent"

abbrev network_mode_str : NetworkMode → String
network_mode_str reset = "reset"
network_mode_str preserve_ns = "preserve_ns"
network_mode_str preserve_conn_best_effort = "preserve_conn_best_effort"

abbrev volume_mode_str : VolumeMode → String
volume_mode_str exclude = "exclude"
volume_mode_str include_named = "include_named"
volume_mode_str include_all_allowed = "include_all_allowed"

abbrev resume_policy_str : ResumePolicy → String
resume_policy_str manual = "manual"
resume_policy_str immediate = "immediate"

abbrev pub key_or_new : Option String → M String String
key_or_new none = new_uuid
key_or_new (some k) = pure k

-- A failed operation is an error, with the text that `say` gives.
abbrev pub refuse_failure : (OperationStatus → String) → Option OperationStatus → M String Unit
refuse_failure say none = skip
refuse_failure say (some s) = if is_terminal_failure s then bail (say s) else skip

abbrev status_or_accepted : Option OperationStatus → String
status_or_accepted none = "accepted"
status_or_accepted (some s) = status_as_str s

abbrev pub is_risky : LifecycleRequestArgs → Bool
is_risky o = elim o.network_mode [ preserve_conn_best_effort ↦ not o.dry_run | _ ↦ false ]

abbrev pub lifecycle_body : LifecycleRequestArgs → Fields → Option Value → String → Value
lifecycle_body o labels placement_hint key = json (
    ("consistency_mode", string (consistency_mode_str o.consistency_mode))
    ∷ ("network_mode", string (network_mode_str o.network_mode))
    ∷ ("volume_mode", string (volume_mode_str o.volume_mode))
    ∷ ("resume_policy", string (resume_policy_str o.resume_policy))
    ∷ ("placement_hint", optional (λ v. v) placement_hint)
    ∷ ("ttl_seconds", optional nat_value o.ttl_seconds)
    ∷ ("labels", object labels)
    ∷ ("idempotency_key", string key)
    ∷ ("dry_run", boolean o.dry_run)
    ∷ ("async_mode", optional boolean o.async_mode)
    ∷ [])

module _ (p : Platform) (c : Client) where
  unfoldable pub failure_text : String → OperationResponse → OperationStatus → String
  unfolding status_as_str reason_code_hint
  failure_text op_id op s =
      let core : String =
        "operation "
        ++ op_id
        ++ " failed: status="
        ++ status_as_str s
        ++ " reason_code="
        ++ show_option p.debug_text op.reason_code in
      elim (reason_code_hint op.reason_code) [ none ↦ core | some h ↦ core ++ " hint=" ++ h ]

  unfoldable pub follow_operation : String → ℕ → M String Unit
  unfolding parse_operation_response operation_to_json
  follow_operation op_id timeout_secs = do
    v ← wait_for_operation_value p c op_id (1000 * timeout_secs)
    print (json_value (operation_to_json (parse_operation_response v) none))
    refuse_failure (failure_text op_id (parse_operation_response v))
        (parse_operation_response v).status

  abbrev pub parse_response : String → M String Value
  parse_response b =
      if is_empty b
      then pure (object end)
      else some_or "Failed to parse operation response JSON" (p.from_text b)

  -- After the response of the mutation
  unfoldable pub report_mutation : MutationControlArgs → Value → Option String → M String Unit
  unfolding parse_operation_response status_as_str
  report_mutation options v none = do
    print (json_value v)
    if options.wait
        then print (
            json_value (
              json (
                ("status", string "succeeded")
                ∷ ("note", string "endpoint returned synchronous response without operation_id")
                ∷ [])))
        else skip
  report_mutation options v (some op_id) = do
    print (
        json_value (
          json (
            ("operation_id", string op_id)
            ∷ ("status", string (status_or_accepted (parse_operation_response v).status))
            ∷ [])))
    if options.wait then follow_operation op_id options.timeout_secs else print (json_value v)

  unfoldable pub run_operation_mutation :
      Method → String → Option Value → MutationControlArgs → M String Unit
  unfolding parse_operation_response
  run_operation_mutation method path body options = do
    preflight_capabilities p c options.cluster_id options.require_capability
    key ← key_or_new options.idempotency_key
    value ← some_or "failed to parse header value" (p.header_value key)
    b ← call_bytes p c method path (("idempotency-key", value) ∷ []) body
    v ← parse_response b
    report_mutation options v (parse_operation_response v).operation_id

  unfoldable pub run_lifecycle_mutation : Method → String → LifecycleRequestArgs → M String Unit
  run_lifecycle_mutation method path options =
      if is_risky options
      then bail
          "network_mode=preserve-conn-best-effort is risky; rerun with --dry-run first or choose a safer mode"
      else (do
        labels ← parse_labels options.label
        placement_hint ← parse_optional_json p options.placement_hint_json
        key ← key_or_new options.mutation.idempotency_key
        run_operation_mutation method path (some (lifecycle_body options labels placement_hint key))
            options.mutation)
