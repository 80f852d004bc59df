-- ===== src/Control/Remote/Errors.antt =====
-- control/src/services/orchestrator.rs: the error that parse_runtime_response bails with is taken
-- apart again by parse_dispatch_error.
use Prim.Native.String.{◌++◌}
use quiltc.Prelude.{
  Res, ap, le→leb, ℕ, ◌≤◌, String, ◌≡◌, refl, Bool, true, false, Option, none, some, ok, err, arith,
  leb,
}
use quiltc.Prelude.Text.{has_char, strip_prefix, trim_start_matches}
use quiltc.Prelude.Text.Laws.{split_once-bar, strip_prefix-append}
use quiltc.Control.Codes.{
  error_text, normalize_reason_code, DispatchError, parse_dispatch_error, retry_hint,
  rc_orch_dependency_unavailable,
}
use quiltc.Control.Json
use quiltc.Control.Json.{Value, as_bool}
use quiltc.Control.Rows.{RuntimeOperation}
use quiltc.Control.World.{Externals}
use quiltc.Control.Remote.{
  retry_tag, str_or, operation_of, is_replay, or_empty_object, parse_runtime_response,
}

-- The hint that a response's `retryable` gives is read back from the tag.
retry_hint-retry_tag :
    (r : Option Bool)
    → retry_hint (trim_start_matches "retryable=" ("retryable=" ++ retry_tag r)) ≡ r
unfolding trim_start_matches
retry_hint-retry_tag none = refl
retry_hint-retry_tag (some true) = refl
retry_hint-retry_tag (some false) = refl

retry_tag-bar : (r : Option Bool) → has_char b'|' ("retryable=" ++ retry_tag r) ≡ false
retry_tag-bar none = refl
retry_tag-bar (some true) = refl
retry_tag-bar (some false) = refl

retry_tag-starts :
    (r : Option Bool) → strip_prefix "retryable=" ("retryable=" ++ retry_tag r) ≡ some (retry_tag r)
retry_tag-starts r = strip_prefix-append "retryable=" (retry_tag r)

-- For a code without `|`, parse_dispatch_error reads back the code, the hint and the message.
parse_dispatch_error-error_text :
    (code detail : String) (r : Option Bool)
    → has_char b'|' code ≡ false
    → parse_dispatch_error (error_text code (retry_tag r) detail)
      ≡ record { code = code; retryable = r; detail = detail }
unfolding parse_dispatch_error
parse_dispatch_error-error_text code detail r h = rw (
  split_once-bar code _ h,
  split_once-bar _ detail (retry_tag-bar r),
  retry_tag-starts r,
  retry_hint-retry_tag r,
)

-- What process_action learns from a failed response, through the text of the error: `none` if the
-- response is no error, or its text is taken for one.
abbrev pub learned : Res RuntimeOperation → Option DispatchError
learned (ok op) = none
learned (err message) = some (parse_dispatch_error message)

-- A server error is learned as an unavailable dependency that may be retried, with the body.
learned_server_error :
    (x : Externals) (status : ℕ) (body : String)
    → 500 ≤ status
    → status ≤ 599
    → learned (parse_runtime_response x status body)
      ≡ some
          (record { code = rc_orch_dependency_unavailable; retryable = some true; detail = body })
unfolding parse_runtime_response
learned_server_error x status body low high =
    rw (le→leb 500 status low, le→leb status 599 high)
      (ap some
        (parse_dispatch_error-error_text rc_orch_dependency_unavailable body (some true) refl))

-- A client error that is no replay is learned with the response's reason code (or the general one,
-- without it), its retry hint and its message. The code must hold no `|`.
pub learned_client_error :
    (x : Externals) (status : ℕ) (body : String)
    → 400 ≤ status
    → status ≤ 499
    → is_replay (operation_of (or_empty_object (x.from_text body))) ≡ false
    → has_char b'|'
        (normalize_reason_code (operation_of (or_empty_object (x.from_text body))).reason_code)
      ≡ false
    → learned (parse_runtime_response x status body)
      ≡ some (record {
        code =
            normalize_reason_code (operation_of (or_empty_object (x.from_text body))).reason_code;
        retryable = as_bool (Json.get "retryable" (or_empty_object (x.from_text body)));
        detail =
            str_or "client_error"
              (operation_of (or_empty_object (x.from_text body))).reason_message;
      })
unfolding parse_runtime_response
learned_client_error x status body low high other plain =
    let not_server : leb 500 status ≡ false = ground arith in
    rw (not_server, le→leb 400 status low, le→leb status 499 high, other)
      (ap some (parse_dispatch_error-error_text _ _ _ plain))
