-- ===== src/Control/Codes.antt =====
-- control/src/services/orchestrator.rs: statuses, reason codes and the text of a dispatch error.
use Prim.Native.String.{◌++◌}
use quiltc.Prelude.{
  ℕ, String, Bool, true, false, ◌||◌, Option, none, some, List, [], ◌∷◌, str_eq, if◌then◌else◌,
  find,
}
use quiltc.Prelude.Text.{bar, Split, whole, parts, split_once, starts_with, trim_start_matches}

abbrev pub fast_loop_seconds : ℕ
fast_loop_seconds = 5

abbrev pub slow_loop_seconds : ℕ
slow_loop_seconds = 120

abbrev pub max_dispatch_batch : ℕ
max_dispatch_batch = 100

abbrev pub platform_tenant_id : String
platform_tenant_id = "platform"

abbrev pub rc_target_not_found : String
rc_target_not_found = "ELASTICITY_TARGET_NOT_FOUND"

abbrev pub rc_invalid_argument : String
rc_invalid_argument = "ELASTICITY_INVALID_ARGUMENT"

abbrev pub rc_resource_pressure : String
rc_resource_pressure = "ELASTICITY_RESOURCE_PRESSURE"

abbrev pub rc_operation_failed : String
rc_operation_failed = "ELASTICITY_OPERATION_FAILED"

abbrev pub rc_idempotency_replay : String
rc_idempotency_replay = "ELASTICITY_IDEMPOTENCY_REPLAY"

abbrev pub rc_orch_ttl_expired : String
rc_orch_ttl_expired = "ORCH_TTL_EXPIRED"

abbrev pub rc_orch_rollback_triggered : String
rc_orch_rollback_triggered = "ORCH_ROLLBACK_TRIGGERED"

abbrev pub rc_orch_action_unsupported : String
rc_orch_action_unsupported = "ORCH_ACTION_UNSUPPORTED"

abbrev pub rc_orch_dependency_unavailable : String
rc_orch_dependency_unavailable = "ORCH_DEPENDENCY_UNAVAILABLE"

unfoldable pub is_runtime_non_terminal : String → Bool
is_runtime_non_terminal s = str_eq s "accepted" || str_eq s "queued" || str_eq s "running"

unfoldable pub is_runtime_terminal_success : String → Bool
is_runtime_terminal_success s = str_eq s "succeeded"

unfoldable pub is_runtime_terminal_failure : String → Bool
is_runtime_terminal_failure s = str_eq s "failed" || str_eq s "cancelled" || str_eq s "timed_out"

-- Every arm of the match on a known code returns that code.
unfoldable pub normalize_reason_code : Option String → String
normalize_reason_code (some code) = code
normalize_reason_code none = rc_operation_failed

abbrev pub known_codes : List String
known_codes =
    rc_invalid_argument ∷ rc_target_not_found ∷ rc_resource_pressure ∷ rc_operation_failed
    ∷ rc_idempotency_replay ∷ rc_orch_action_unsupported ∷ rc_orch_dependency_unavailable ∷ []

-- A reason code, the retry hint, and the message.
pub record DispatchError : Type 0 where
  pub code : String
  pub retryable : Option Bool
  pub detail : String

abbrev pub retry_hint : String → Option Bool
retry_hint v = if str_eq v "true" then some true else if str_eq v "false" then some false else none

abbrev with_known_code : Option String → String → DispatchError
with_known_code (some code) message = record { code = code; retryable = none; detail = message }
with_known_code none message = record {
  code = rc_orch_dependency_unavailable;
  retryable = none;
  detail = message;
}

-- A message that is not in three parts with a retry tag: the known code that it begins with.
unfoldable pub plain_error : String → DispatchError
plain_error message = with_known_code (find (starts_with message) known_codes) message

abbrev tagged_error : String → String → String → String → DispatchError
tagged_error message code tag detail =
    if starts_with tag "retryable="
    then record {
      code = code;
      retryable = retry_hint (trim_start_matches "retryable=" tag);
      detail = detail;
    }
    else plain_error message

abbrev second_split : String → String → Split → DispatchError
second_split message code whole = plain_error message
second_split message code (parts tag detail) = tagged_error message code tag detail

abbrev first_split : String → Split → DispatchError
first_split message whole = plain_error message
first_split message (parts code rest) = second_split message code (split_once b'|' rest)

-- `splitn(3, '|')` is two `split_once`.
unfoldable pub parse_dispatch_error : String → DispatchError
parse_dispatch_error message = first_split message (split_once b'|' message)

-- The message that parse_runtime_response bails with.
abbrev pub error_text : String → String → String → String
error_text code tag detail = code ++ bar (("retryable=" ++ tag) ++ bar detail)
