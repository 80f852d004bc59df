-- ===== src/Cli/Operations/Waiting.antt =====
-- cli/src/main.rs, wait_for_operation_value: the waiting ends, and with what.
use quiltc.Prelude.{
  ℕ, suc, ◌*◌, ◌/◌, ◌<◌, String, ◌≡◌, refl, Bool, ◌||◌, ok, str_eq, str_eq_iff, arith, Bool-cases,
  inl, inr, if◌then◌else◌,
}
use quiltc.Control.Codes.{is_runtime_terminal_success, is_runtime_terminal_failure}
use quiltc.Cli.Http.{get}
use quiltc.Control.Json.{Value}
use quiltc.Cli.Console.{Platform, Console, ok}
use quiltc.Cli.Console.Polls.{Comes, read_clock-Comes}
use quiltc.Cli.Console.Contracts.{Meets}
use quiltc.Cli.Client.{Client}
use quiltc.Cli.Commands.Changes.{HasEnded, Meets-wait, Meets-ask_operation}
use quiltc.Cli.Operations.{
  parse_status, is_terminal, succeeded, failed, cancelled, timed_out, unknown, ask_operation,
  wait_for_operation_value,
}

terminal_table :
    (v : String) (s f c c' t : Bool)
    → is_terminal (
        if s
        then succeeded
        else if f
        then failed
        else if c || c'
        then cancelled
        else if t
        then timed_out
        else unknown v)
      ≡ (s || (f || c || t) || c')
unfolding is_terminal
terminal_table v s f c c' t = ground arith

-- For every status text the command line stops waiting exactly where the control plane takes an
-- operation for ended, except at `canceled`: there only the command line does.
pub is_terminal-parse_status :
    (s : String)
    → is_terminal (parse_status s)
      ≡ (is_runtime_terminal_success s || is_runtime_terminal_failure s || str_eq s "canceled")
unfolding parse_status is_terminal is_runtime_terminal_success is_runtime_terminal_failure
is_terminal-parse_status s = elim (Bool-cases (str_eq s "accepted")) [
  | inl e ↦ let p = (str_eq_iff s "accepted").0 e in rw p refl
  | inr a ↦ elim (Bool-cases (str_eq s "queued")) [
    | inl e ↦ let p = (str_eq_iff s "queued").0 e in rw p refl
    | inr q ↦ elim (Bool-cases (str_eq s "running")) [
      | inl e ↦ let p = (str_eq_iff s "running").0 e in rw p refl
      | inr r ↦
          rw (a, q, r)
            (terminal_table s (str_eq s "succeeded") (str_eq s "failed") (str_eq s "cancelled")
              (str_eq s "canceled") (str_eq s "timed_out"))
    ]
  ]
]

-- Whatever the service answers, the waiting ends: after at most a call for every 400 milliseconds
-- of the time-out and one more, each of them a GET, with an error or with the value of an
-- operation that has ended.
pub wait_for_operation_value_lem :
    (p : Platform) (c : Client) (operation_id : String) (timeout : ℕ)
    → Meets
        (λ x. x.method ≡ get)
        (λ e. Unit)
        (suc (timeout / 400))
        HasEnded
        (wait_for_operation_value p c operation_id timeout)
wait_for_operation_value_lem p c operation_id timeout =
    Meets-wait p c (λ x. x.method ≡ get) (λ e. Unit) (λ e. tt) (λ path url n u l. refl) operation_id
      timeout

-- If the service reports, in some round that begins before the time-out has passed, an operation
-- that has ended, and in the rounds before one that has not, then the waiting succeeds with what
-- it reported.
pub wait_for_operation_value_succeeds :
    (p : Platform) (c : Client) (operation_id : String) (timeout n : ℕ) (w : Console) (v : Value)
    → Comes timeout 400 (ask_operation p c operation_id) w.now v n w
    → (wait_for_operation_value p c operation_id timeout w).0 ≡ ok v
unfolding wait_for_operation_value
wait_for_operation_value_succeeds p c operation_id timeout n w v comes =
    let fits : timeout < 400 * suc (timeout / 400) = grind arith in
    read_clock-Comes (λ x. Unit) (λ e. Unit) HasEnded timeout 400 _ (ask_operation p c operation_id)
      (Meets-ask_operation p c (λ x. Unit) (λ e. Unit) (λ e. tt) (λ path url n u l. tt)
        operation_id)
      (suc (timeout / 400)) n w v fits comes
