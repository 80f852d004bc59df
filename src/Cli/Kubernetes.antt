-- ===== src/Cli/Kubernetes.antt =====
-- cli/src/main.rs: run_k8s, whose errors carry the exit code of the process.
pub mod Manifests
pub mod Responses
pub mod Commands
use Prim.Native.String.{◌++◌}
use quiltc.Prelude.{
  ℕ, suc, ◌+◌, ◌*◌, ◌/◌, String, Bool, true, false, ◌&&◌, ◌||◌, Option, none, some, List, [], ◌∷◌,
  str_eq, if◌then◌else◌,
}
use quiltc.Prelude.Text.{contains, is_empty}
use quiltc.Control.Json.{Value, boolean, string, object, Fields, end, field, json, as_str}
use quiltc.Control.Json
use quiltc.Cli.Http.{Method, get, post, delete}
use quiltc.Cli.Console.{
  Platform, M, ◌>>=◌, ◌>>◌, pure, bail, skip, some_or, map_err, print, json_value, text, read_clock,
  poll_until,
}
use quiltc.Cli.Client.{Client, call_bytes}
use quiltc.Cli.Encode.{encode_query}
use quiltc.Cli.Args.{optional, query_part, with_query}
use quiltc.Cli.Kubernetes.Manifests.{manifest_string}
use quiltc.Cli.Kubernetes.Responses.{
  k8s_emit_response, k8s_has_warnings, k8s_operation_failed, extract_operation_id, status_text,
  is_failure,
}
use quiltc.Cli.Kubernetes.Commands.{
  exit_generic_failure, exit_validation_failure, exit_apply_failure, exit_transport_or_auth_failure,
  K8sFailure, failure, K8sExportFormat, Target, ApplyArgs, K8sCmd, is_transport_or_auth_error,
  map_k8s_transport_or_auth, manifest_of, refuse_warnings, target_fields, validate_body, diff_body,
  apply_body, apply_path, resource_path, secrets_part, format_text, has_ended, validate, apply,
  diff, status, get_resources, get_resource, delete_resource, export, capabilities, schema,
  yaml_format,
}

module _ (p : Platform) (c : Client) where
  abbrev pub parsed : String → M String Value
  parsed b =
      if is_empty b
      then pure (object end)
      else some_or "Failed to parse backend JSON response" (p.from_text b)

  -- k8s_call, with the exit code of its errors
  unfoldable pub k8s_call : ℕ → Method → String → Option Value → M K8sFailure Value
  k8s_call fallback method path body =
      map_err (map_k8s_transport_or_auth fallback) (call_bytes p c method path [] body >>= parsed)

  unfoldable pub ask_apply : String → String → M K8sFailure (Option Value)
  ask_apply operation_id cluster_id = do
    v ← k8s_call exit_apply_failure get (apply_path operation_id cluster_id) none
    pure (if has_ended (status_text p v) then some v else none)

  -- Each round sleeps 500 milliseconds: the fuel is for the rounds that fit into the time-out.
  unfoldable pub k8s_wait_for_apply_operation : String → String → ℕ → M K8sFailure Value
  k8s_wait_for_apply_operation operation_id cluster_id timeout = do
    started ← read_clock
    poll_until timeout 500
        (failure exit_apply_failure
          ("operation " ++ operation_id ++ " timed out after " ++ p.show_duration timeout))
        (ask_apply operation_id cluster_id) (suc (suc (timeout / 500))) started

  unfoldable pub run_validate : String → Option String → Bool → Bool → M K8sFailure Unit
  run_validate manifest namespace strict as_json = do
    v ←
        k8s_call exit_validation_failure post "/api/k8s/validate"
          (some (validate_body manifest namespace strict))
    k8s_emit_response p v as_json true
    refuse_warnings exit_validation_failure "validation" strict v

  unfoldable pub run_diff : String → Target → Bool → Bool → M K8sFailure Unit
  run_diff manifest t strict as_json = do
    v ← k8s_call exit_validation_failure post "/api/k8s/diff" (some (diff_body manifest t strict))
    k8s_emit_response p v as_json true
    refuse_warnings exit_validation_failure "diff" strict v

  -- A value of an operation is printed; one that has failed is an error.
  unfoldable pub show_apply : String → Bool → Value → M K8sFailure Unit
  show_apply operation_id as_json v = do
    k8s_emit_response p v as_json false
    if k8s_operation_failed p v
        then bail (
            failure exit_apply_failure ("operation " ++ operation_id ++ " terminated with failure"))
        else skip

  abbrev pub follow_apply : ApplyArgs → Option String → M K8sFailure Unit
  follow_apply a none = skip
  follow_apply a (some op_id) =
      print (text ("operation_id: " ++ op_id))
      >> (if a.follow
          then (k8s_wait_for_apply_operation op_id a.target.cluster_id (1000 * a.timeout_secs)
              >>= show_apply op_id a.as_json)
          else skip)

  -- The change itself
  unfoldable pub send_apply : String → ApplyArgs → M K8sFailure Unit
  send_apply manifest a = do
    v ← k8s_call exit_apply_failure post "/api/k8s/apply" (some (apply_body manifest a))
    k8s_emit_response p v a.as_json true
    refuse_warnings exit_apply_failure "apply" a.strict v
    follow_apply a (extract_operation_id v)

  unfoldable pub run_apply : String → ApplyArgs → M K8sFailure Unit
  run_apply manifest a = do
    if a.no_validate then skip else run_validate manifest a.target.namespace a.strict a.as_json
    if a.dry_run then run_diff manifest a.target a.strict a.as_json else send_apply manifest a

  unfoldable pub run_status : String → String → Bool → ℕ → Bool → M K8sFailure Unit
  run_status operation_id cluster_id follow timeout_secs as_json = do
    v ←
        if follow
        then k8s_wait_for_apply_operation operation_id cluster_id (1000 * timeout_secs)
        else k8s_call exit_apply_failure get (apply_path operation_id cluster_id) none
    show_apply operation_id as_json v

  -- A GET whose response is printed
  unfoldable pub show_get : String → Bool → M K8sFailure Unit
  show_get path as_json = do
    v ← k8s_call exit_generic_failure get path none
    k8s_emit_response p v as_json false

  abbrev pub show_deleted : String → String → Bool → Value → M K8sFailure Unit
  show_deleted resource_id cluster_id true v = print (json_value v)
  show_deleted resource_id cluster_id false (object end) = print (
      text (
        "{\"deleted\":true,\"resource_id\":\"" ++ resource_id ++ "\",\"cluster_id\":\""
        ++ cluster_id ++ "\"}"))
  show_deleted resource_id cluster_id false v = k8s_emit_response p v false false

  -- The text of an export in YAML, where the response has it
  abbrev pub show_export : Bool → K8sExportFormat → Value → Option String → M K8sFailure Unit
  show_export false yaml_format v (some y) = print (text y)
  show_export _ _ v _ = print (json_value v)

  unfoldable pub run_k8s : K8sCmd → M K8sFailure Unit
  run_k8s (validate sources namespace strict as_json) =
      manifest_of p sources >>= λ m. run_validate m namespace strict as_json
  run_k8s (apply sources a) = manifest_of p sources >>= λ m. run_apply m a
  run_k8s (diff sources t strict as_json) =
      manifest_of p sources >>= λ m. run_diff m t strict as_json
  run_k8s (status operation_id cluster_id follow timeout_secs as_json) =
      run_status operation_id cluster_id follow timeout_secs as_json
  run_k8s (get_resources cluster_id application kind include_secrets as_json) =
      show_get
        (with_query "/api/k8s/resources" (
          query_part "cluster_id" (some cluster_id) (
            query_part "application" application
              (query_part "kind" kind (secrets_part include_secrets)))))
        as_json
  run_k8s (get_resource resource_id cluster_id as_json) =
      show_get (resource_path resource_id cluster_id) as_json
  run_k8s (delete_resource resource_id cluster_id as_json) =
      k8s_call exit_apply_failure delete (resource_path resource_id cluster_id) none
      >>= show_deleted resource_id cluster_id as_json
  run_k8s (export cluster_id application output as_json) = do
    v ← k8s_call exit_generic_failure post "/api/k8s/export" (
        some (
          json (
            ("cluster_id", string cluster_id)
            ∷ ("application", string application)
            ∷ ("format", string (format_text output))
            ∷ [])))
    show_export as_json output v (as_str (Json.get "output" v))
  run_k8s (capabilities as_json) = show_get "/api/k8s/capabilities" as_json
  run_k8s (schema as_json) = show_get "/api/k8s/schema" as_json
