-- ===== src/Cli/Kubernetes/Commands.antt =====
-- cli/src/main.rs: the Kubernetes commands, what they send, and their exit codes.
use Prim.Native.String.{◌++◌}
use quiltc.Prelude.{
  ℕ, String, Bool, true, false, ◌&&◌, ◌||◌, Option, none, some, List, [], ◌∷◌, str_eq,
  if◌then◌else◌,
}
use quiltc.Prelude.Text.{contains}
use quiltc.Control.Json.{Value, boolean, string, json}
use quiltc.Cli.Console.{Platform, M, bail, skip, map_err}
use quiltc.Cli.Encode.{encode_query}
use quiltc.Cli.Args.{optional}
use quiltc.Cli.Kubernetes.Manifests.{manifest_string}
use quiltc.Cli.Kubernetes.Responses.{k8s_has_warnings, is_failure}

abbrev pub exit_generic_failure : ℕ
exit_generic_failure = 1

abbrev pub exit_validation_failure : ℕ
exit_validation_failure = 2

abbrev pub exit_apply_failure : ℕ
exit_apply_failure = 3

abbrev pub exit_transport_or_auth_failure : ℕ
exit_transport_or_auth_failure = 4

pub record K8sFailure : Type 0 where
  pub exit_code : ℕ
  pub message : String

abbrev pub failure : ℕ → String → K8sFailure
failure code message = record { exit_code = code; message = message }

pub data K8sExportFormat : Type 0 where
  yaml_format json_format : K8sExportFormat

-- What an apply and a diff are about
pub record Target : Type 0 where
  pub cluster_id : String
  pub application : String
  pub namespace : Option String

pub record ApplyArgs : Type 0 where
  pub target : Target
  pub no_validate : Bool
  pub dry_run : Bool
  pub prune : Bool
  pub strict : Bool
  pub follow : Bool
  pub timeout_secs : ℕ
  pub as_json : Bool

pub data K8sCmd : Type 0 where
  validate : (sources : List String) (namespace : Option String) (strict as_json : Bool) → K8sCmd
  apply : (sources : List String) (args : ApplyArgs) → K8sCmd
  diff : (sources : List String) (target : Target) (strict as_json : Bool) → K8sCmd
  status :
      (operation_id cluster_id : String) (follow : Bool) (timeout_secs : ℕ) (as_json : Bool)
      → K8sCmd
  get_resources :
      (cluster_id : String) (application kind : Option String) (include_secrets : Option Bool)
      (as_json : Bool)
      → K8sCmd
  get_resource : (resource_id cluster_id : String) (as_json : Bool) → K8sCmd
  delete_resource : (resource_id cluster_id : String) (as_json : Bool) → K8sCmd
  export : (cluster_id application : String) (output : K8sExportFormat) (as_json : Bool) → K8sCmd
  capabilities : (as_json : Bool) → K8sCmd
  schema : (as_json : Bool) → K8sCmd

unfoldable pub is_transport_or_auth_error : String → Bool
is_transport_or_auth_error msg =
    contains msg "status=401"
    || contains msg "status=403"
    || contains msg "status=407"
    || contains msg "Request failed"
    || contains msg "connection"
    || contains msg "timed out"
    || contains msg "dns"

unfoldable pub map_k8s_transport_or_auth : ℕ → String → K8sFailure
unfolding is_transport_or_auth_error
map_k8s_transport_or_auth fallback msg =
    if is_transport_or_auth_error msg
    then failure exit_transport_or_auth_failure msg
    else failure fallback msg

-- The manifests of a command; any error there is a general failure.
abbrev pub manifest_of : Platform → List String → M K8sFailure String
manifest_of p sources = map_err (failure exit_generic_failure) (manifest_string p sources)

abbrev pub refuse_warnings : ℕ → String → Bool → Value → M K8sFailure Unit
refuse_warnings code what strict v =
    if strict && k8s_has_warnings v
    then bail (failure code (what ++ " produced warnings and --strict is enabled"))
    else skip

abbrev pub target_fields : Target → String → List (String × Value)
target_fields t manifest =
    ("manifest", string manifest)
    ∷ ("cluster_id", string t.cluster_id)
    ∷ ("application", string t.application)
    ∷ ("namespace", optional string t.namespace)
    ∷ []

abbrev pub validate_body : String → Option String → Bool → Value
validate_body manifest namespace strict = json (
    ("manifest", string manifest)
    ∷ ("namespace", optional string namespace)
    ∷ ("strict", boolean strict)
    ∷ [])

abbrev pub diff_body : String → Target → Bool → Value
diff_body manifest t strict = json (("strict", boolean strict) ∷ target_fields t manifest)

abbrev pub apply_body : String → ApplyArgs → Value
apply_body manifest a = json (
    ("strict", boolean a.strict)
    ∷ ("dry_run", boolean false)
    ∷ ("prune", boolean a.prune)
    ∷ target_fields a.target manifest)

abbrev pub apply_path : String → String → String
apply_path operation_id cluster_id =
    "/api/k8s/applies/" ++ operation_id ++ "?cluster_id=" ++ encode_query cluster_id

abbrev pub resource_path : String → String → String
resource_path resource_id cluster_id =
    "/api/k8s/resources/" ++ resource_id ++ "?cluster_id=" ++ encode_query cluster_id

abbrev pub secrets_part : Option Bool → List String
secrets_part none = []
secrets_part (some true) = "include_secrets=true" ∷ []
secrets_part (some false) = "include_secrets=false" ∷ []

abbrev pub format_text : K8sExportFormat → String
format_text yaml_format = "yaml"
format_text json_format = "json"

abbrev pub has_ended : String → Bool
has_ended s = str_eq s "succeeded" || str_eq s "success" || is_failure s
