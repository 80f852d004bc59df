-- ===== src/Control/Remote.antt =====
-- control/src/services/orchestrator.rs: the requests to the elasticity control service, and what
-- its responses mean.
pub mod Errors
use Prim.Native.String.{◌++◌}
use mathlib.Core.List
use quiltc.Prelude.{
  ℕ, String, Bool, true, false, not, ◌&&◌, Option, none, some, List, [], ◌∷◌, Res, ok, err, leb,
  str_eq, if◌then◌else◌,
}
use quiltc.Prelude.Text.{is_empty}
use quiltc.Control.Json.{Value, json, as_str, as_bool}
use quiltc.Control.Json
use quiltc.Control.Rows.{DispatchAction, RuntimeOperation, ExecutionConfig}
use quiltc.Control.World.{Externals, M, ◌>>=◌, pure, bail, lift, send, Method, Request, Reply}
use quiltc.Control.Codes.{
  rc_idempotency_replay, rc_orch_dependency_unavailable, normalize_reason_code, error_text,
}

abbrev is_server_error : ℕ → Bool
is_server_error s = leb 500 s && leb s 599

abbrev is_client_error : ℕ → Bool
is_client_error s = leb 400 s && leb s 499

abbrev pub str_or : String → Option String → String
str_or d none = d
str_or d (some s) = s

-- `{}` in the text of the error: the tag after "retryable=".
abbrev pub retry_tag : Option Bool → String
retry_tag none = "unknown"
retry_tag (some true) = "true"
retry_tag (some false) = "false"

abbrev is_some_eq : Option String → String → Bool
is_some_eq none s = false
is_some_eq (some r) s = str_eq r s

abbrev pub operation_of : Value → RuntimeOperation
operation_of value = record {
  operation_id = str_or "" (as_str (Json.get "operation_id" value));
  operation_type = as_str (Json.get "operation_type" value);
  status = str_or "accepted" (as_str (Json.get "status" value));
  reason_code = as_str (Json.get "reason_code" value);
  reason_message = as_str (Json.get "reason_message" value);
}

-- A client error is a success only where it replays an operation that it names.
abbrev pub is_replay : RuntimeOperation → Bool
is_replay op = is_some_eq op.reason_code rc_idempotency_replay && not (is_empty op.operation_id)

abbrev pub client_error : Value → RuntimeOperation → String
client_error value op =
    error_text (normalize_reason_code op.reason_code)
      (retry_tag (as_bool (Json.get "retryable" value))) (str_or "client_error" op.reason_message)

abbrev pub or_empty_object : Option Value → Value
or_empty_object none = json []
or_empty_object (some v) = v

abbrev respond : ℕ → String → Value → RuntimeOperation → Res RuntimeOperation
respond status body value op =
    if is_server_error status
    then err (error_text rc_orch_dependency_unavailable "true" body)
    else if is_client_error status
    then (if is_replay op then ok op else err (client_error value op))
    else ok op

abbrev with_key : Option String → List (String × String)
with_key none = []
with_key (some k) = ("X-Api-Key", k) ∷ []

module _ (x : Externals) where
  open x use {from_text}

  unfoldable pub parse_runtime_response : ℕ → String → Res RuntimeOperation
  parse_runtime_response status body =
      let value = or_empty_object (from_text body) in respond status body value (operation_of value)

  abbrev pub receive : String → Option Reply → M RuntimeOperation
  receive context none = bail context
  receive context (some r) = lift (parse_runtime_response r.status r.body)

  abbrev pub exchange : String → Option String → (String → Request) → M RuntimeOperation
  exchange context none request = bail rc_orch_dependency_unavailable
  exchange context (some base) request = do reply ← send (request base); receive context reply

  -- The request of dispatch_control_operation, on a base URL.
  abbrev pub dispatch_request : ExecutionConfig → DispatchAction → String → Value → String → Request
  dispatch_request cfg action path payload base = record {
    method = Method.post;
    url = base ++ path;
    headers =
        List.◌++◌
          (("Idempotency-Key", action.idempotency_key)
            ∷ ("X-Tenant-Id", action.tenant_id)
            ∷ ("X-Orch-Action-Id", action.action_id)
            ∷ [])
          (with_key cfg.control_api_key);
    body = some payload;
  }

  unfoldable pub dispatch_control_operation :
      ExecutionConfig → DispatchAction → String → Value → M RuntimeOperation
  unfolding parse_runtime_response
  dispatch_control_operation cfg action path payload =
      exchange "runtime request failed" cfg.control_base_url
        (dispatch_request cfg action path payload)

  abbrev pub poll_request : ExecutionConfig → DispatchAction → String → String → Request
  poll_request cfg action operation_id base = record {
    method = Method.get;
    url = base ++ ("/api/elasticity/control/operations/" ++ operation_id);
    headers =
        List.◌++◌ (("X-Tenant-Id", action.tenant_id) ∷ ("X-Orch-Action-Id", action.action_id) ∷ [])
          (with_key cfg.control_api_key);
    body = none;
  }

  unfoldable pub poll_control_operation :
      ExecutionConfig → DispatchAction → String → M RuntimeOperation
  unfolding parse_runtime_response
  poll_control_operation cfg action operation_id =
      exchange "runtime poll failed" cfg.control_base_url (poll_request cfg action operation_id)
