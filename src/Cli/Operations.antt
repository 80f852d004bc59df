-- ===== src/Cli/Operations.antt =====
-- cli/src/snapshot_types.rs and cli/src/main.rs: the state of an operation as the command line
-- reads it, and the waiting for its end.
pub mod Waiting
use Prim.Native.String.{◌++◌}
use quiltc.Prelude.{
  ℕ, suc, ◌/◌, String, Bool, true, false, ◌||◌, Option, none, some, List, [], ◌∷◌, str_eq,
  if◌then◌else◌,
}
use quiltc.Prelude.Maps.{lookup}
use quiltc.Control.Json.{Value, null, Items, nil, cons, string, array, object, insert, json, as_str}
use quiltc.Control.Json
use quiltc.Cli.Http.{get}
use quiltc.Cli.Console.{Platform, M, ◌>>=◌, pure, some_or, read_clock, poll_until}
use quiltc.Cli.Client.{Client, call_bytes}

pub data OperationStatus : Type 0 where
  accepted queued running succeeded failed cancelled timed_out : OperationStatus
  unknown : String → OperationStatus

unfoldable pub parse_status : String → OperationStatus
parse_status s =
    if str_eq s "accepted"
    then accepted
    else if str_eq s "queued"
    then queued
    else if str_eq s "running"
    then running
    else if str_eq s "succeeded"
    then succeeded
    else if str_eq s "failed"
    then failed
    else if str_eq s "cancelled" || str_eq s "canceled"
    then cancelled
    else if str_eq s "timed_out"
    then timed_out
    else unknown s

unfoldable pub status_as_str : OperationStatus → String
status_as_str accepted = "accepted"
status_as_str queued = "queued"
status_as_str running = "running"
status_as_str succeeded = "succeeded"
status_as_str failed = "failed"
status_as_str cancelled = "cancelled"
status_as_str timed_out = "timed_out"
status_as_str (unknown v) = v

unfoldable pub is_terminal_failure : OperationStatus → Bool
is_terminal_failure failed = true
is_terminal_failure cancelled = true
is_terminal_failure timed_out = true
is_terminal_failure s = false

unfoldable pub is_terminal : OperationStatus → Bool
is_terminal succeeded = true
is_terminal failed = true
is_terminal cancelled = true
is_terminal timed_out = true
is_terminal s = false

pub record OperationResponse : Type 0 where
  pub operation_id : Option String
  pub status : Option OperationStatus
  pub operation_type : Option String
  pub snapshot_id : Option String
  pub container_id : Option String
  pub result_container_id : Option String
  pub warnings : Option (List String)
  pub capability_downgrades : Option (List String)
  pub reason_code : Option String
  pub reason_message : Option String
  pub progress_pct : Option Value
  pub started_at : Option Value
  pub updated_at : Option Value
  pub completed_at : Option Value

abbrev push_some : Option String → List String → List String
push_some none ss = ss
push_some (some s) ss = s ∷ ss

-- The texts among the elements of an array
abbrev texts : Items → List String
texts nil = []
texts (cons v r) = push_some (as_str (some v)) (texts r)

abbrev as_texts : Option Value → Option (List String)
as_texts (some (array items)) = some (texts items)
as_texts _ = none

abbrev status_of : Option String → Option OperationStatus
status_of none = none
status_of (some s) = some (parse_status s)

unfoldable pub parse_operation_response : Value → OperationResponse
parse_operation_response v = record {
  operation_id = as_str (Json.get "operation_id" v);
  status = status_of (as_str (Json.get "status" v));
  operation_type = as_str (Json.get "operation_type" v);
  snapshot_id = as_str (Json.get "snapshot_id" v);
  container_id = as_str (Json.get "container_id" v);
  result_container_id = as_str (Json.get "result_container_id" v);
  warnings = as_texts (Json.get "warnings" v);
  capability_downgrades = as_texts (Json.get "capability_downgrades" v);
  reason_code = as_str (Json.get "reason_code" v);
  reason_message = as_str (Json.get "reason_message" v);
  progress_pct = Json.get "progress_pct" v;
  started_at = Json.get "started_at" v;
  updated_at = Json.get "updated_at" v;
  completed_at = Json.get "completed_at" v;
}

abbrev pub ends : Option OperationStatus → Bool
ends none = false
ends (some s) = is_terminal s

abbrev or_null {ℓ} : {A : Type ℓ} → (A → Value) → Option A → Value
or_null f none = null
or_null f (some a) = f a

abbrev values : List String → Items
values [] = nil
values (s ∷ ss) = cons (string s) (values ss)

-- `serde_json::to_value` of a response
unfoldable pub operation_value : OperationResponse → Value
unfolding status_as_str
operation_value op = json (
    ("operation_id", or_null string op.operation_id)
    ∷ ("status", or_null (λ s. string (status_as_str s)) op.status)
    ∷ ("operation_type", or_null string op.operation_type)
    ∷ ("snapshot_id", or_null string op.snapshot_id)
    ∷ ("container_id", or_null string op.container_id)
    ∷ ("result_container_id", or_null string op.result_container_id)
    ∷ ("warnings", or_null (λ ws. array (values ws)) op.warnings)
    ∷ ("capability_downgrades", or_null (λ ws. array (values ws)) op.capability_downgrades)
    ∷ ("reason_code", or_null string op.reason_code)
    ∷ ("reason_message", or_null string op.reason_message)
    ∷ ("progress_pct", or_null (λ v. v) op.progress_pct)
    ∷ ("started_at", or_null (λ v. v) op.started_at)
    ∷ ("updated_at", or_null (λ v. v) op.updated_at)
    ∷ ("completed_at", or_null (λ v. v) op.completed_at)
    ∷ [])

abbrev hints : List (String × String)
hints =
    (
      "UNSUPPORTED_NODE_CAPABILITY",
      "Check cluster capabilities and rerun with a compatible mode or node selector.",
    )
    ∷ ("KERNEL_INCOMPATIBLE", "Target a node pool with compatible kernel features.")
    ∷ ("CGROUP_MODE_MISMATCH", "Align cgroup mode between source and target nodes.")
    ∷ (
      "SECCOMP_PROFILE_INCOMPATIBLE",
      "Use a compatible seccomp profile or relax policy for this workflow.",
    )
    ∷ (
      "APPARMOR_PROFILE_INCOMPATIBLE",
      "Use a compatible apparmor profile or choose a different target.",
    )
    ∷ ("ARCH_MISMATCH", "Target nodes with matching CPU architecture.")
    ∷ ("SNAPSHOT_NOT_FOUND", "Verify snapshot ID and tenant scope.")
    ∷ ("SNAPSHOT_PINNED", "Unpin snapshot before deleting.")
    ∷ ("SNAPSHOT_IN_USE", "Stop dependent containers/workloads, then retry.")
    ∷ ("POLICY_DENIED", "Check org policy or runtime policy bindings.")
    ∷ ("TENANT_ISOLATION_VIOLATION", "Use resources within the same tenant boundary.")
    ∷ ("ARTIFACT_INTEGRITY_FAILURE", "Recreate snapshot and validate artifact storage.")
    ∷ ("STORAGE_QUOTA_EXCEEDED", "Increase quota or delete unused snapshots.")
    ∷ ("IDEMPOTENCY_CONFLICT", "Reuse the original idempotency key intent or rotate key.")
    ∷ ("TIMEOUT", "Retry with longer timeout and inspect operation/event logs.")
    ∷ []

unfoldable pub reason_code_hint : Option String → Option String
reason_code_hint none = none
reason_code_hint (some code) = lookup code hints

abbrev hinted : Option String → Value → Value
hinted (some hint) (object r) = object (insert "action_hint" (string hint) r)
hinted _ v = v

-- The value that is printed: the response as it came, or written again, with a hint.
unfoldable pub operation_to_json : OperationResponse → Option Value → Value
unfolding operation_value reason_code_hint
operation_to_json op none = hinted (reason_code_hint op.reason_code) (operation_value op)
operation_to_json op (some raw) = hinted (reason_code_hint op.reason_code) raw

module _ (p : Platform) (c : Client) where
  -- The operation's value, once it has ended
  unfoldable pub ask_operation : String → M String (Option Value)
  unfolding parse_operation_response
  ask_operation operation_id = do
    b ← call_bytes p c get ("/api/operations/" ++ operation_id) [] none
    v ← some_or "Failed to parse operation JSON" (p.from_text b)
    pure (if ends (parse_operation_response v).status then some v else none)

  -- Each round sleeps 400 milliseconds: the fuel is for the rounds that fit into the time-out.
  unfoldable pub wait_for_operation_value : String → ℕ → M String Value
  wait_for_operation_value operation_id timeout = do
    started ← read_clock
    poll_until timeout 400
        ("operation " ++ operation_id ++ " timed out after " ++ p.show_duration timeout)
        (ask_operation operation_id) (suc (suc (timeout / 400))) started
