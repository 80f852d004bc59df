-- ===== src/Cli/Tests.antt =====
-- cli/src: the theorems of the command line at concrete answers.
pub mod Data
mod Calls
use quiltc.Prelude.{
  ℕ, ◌*◌, ◌≤◌, ◌≡◌, refl, true, none, some, [], ◌∷◌, Res, ok, arith, if◌then◌else◌, ltb,
}
use quiltc.Control.Json.{Value, json, string}
use quiltc.Control.Codes.{is_runtime_terminal_success, is_runtime_terminal_failure}
use quiltc.Cli.Http.{get, post, HttpReply, HttpWorld, Exchange, send_json_bytes}
use quiltc.Cli.Http.Retries.{send_json_bytes_lem, send_json_bytes_once}
use quiltc.Cli.Operations.{parse_status, is_terminal, wait_for_operation_value}
use quiltc.Cli.Operations.Waiting.{is_terminal-parse_status, wait_for_operation_value_lem}

-- A service that is down.
abbrev down : HttpReply
down = record { status = 503; retry_after_header = none; body = "" }

abbrev outage : HttpWorld
outage = record { parse_error = λ s. none; replies = λ n. some down }

send_json_bytes_lem_example :
    (e : Exchange) × (send_json_bytes outage get 2 ≡ some e) × (1 ≤ e.requests) × (e.requests ≤ 3)
send_json_bytes_lem_example = send_json_bytes_lem outage get 2

send_json_bytes_once_example :
    (e : Exchange) × (send_json_bytes outage post 2 ≡ some e) × (e.requests ≡ 1) × (e.waits ≡ [])
send_json_bytes_once_example =
    send_json_bytes_once outage post 2 refl
      (λ q h. let s : some down ≡ some q = h in let p : down ≡ q = cc in rw (← p) refl)
