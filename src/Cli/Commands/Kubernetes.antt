-- ===== src/Cli/Commands/Kubernetes.antt =====
-- cli/src/main.rs, run_k8s: the exit codes of each command, and the calls it makes.
use quiltc.Prelude.{
  ℕ, suc, ◌+◌, ◌*◌, ◌/◌, ◌<◌, String, ◌≡◌, Bool, true, Option, none, some, List, [], any, ◌==◌,
  arith, inl, inr, Bool-cases, if◌then◌else◌,
}
use quiltc.Prelude.Text.{is_empty}
use quiltc.Control.Json.{Value}
use quiltc.Cli.Http.{Method, post}
use quiltc.Cli.Console.{Platform, ServiceCall, M}
use quiltc.Cli.Console.Contracts.{
  Meets, Meets-bind, Meets-bail, Meets-pure, Meets-some_or, Meets-print, Meets-if, Meets-map_err,
  Meets-more,
}
use quiltc.Cli.Console.Polls.{Holds, Meets-poll_until}
use quiltc.Cli.Client.{Client}
use quiltc.Cli.Client.Calls.{Covers, Meets-call}
use quiltc.Cli.Kubernetes.Responses.{status_text}
use quiltc.Cli.Kubernetes.Commands.{
  K8sFailure, Target, ApplyArgs, is_transport_or_auth_error, map_k8s_transport_or_auth,
  refuse_warnings, has_ended,
}
use quiltc.Cli.Kubernetes.{
  parsed, k8s_call, ask_apply, k8s_wait_for_apply_operation, run_validate, run_diff, show_apply,
  follow_apply, send_apply,
}
use quiltc.Cli.Commands.Manifests.{Meets-emit}

-- The calls while an apply is waited for
abbrev pub apply_rounds : ℕ → ℕ
apply_rounds timeout = suc (timeout / 500)

-- A failure whose exit code is one of a list
abbrev pub Exits : List ℕ → K8sFailure → Type 0
Exits codes f = any (λ n. f.exit_code == n) codes ≡ true

-- A value of an apply that has ended
abbrev pub ApplyEnded : Platform → Value → Type 0
ApplyEnded p v = has_ended (status_text p v) ≡ true

module _ (p : Platform) (c : Client) (Q : ServiceCall → Type 0) (codes : List ℕ) where
  -- A command without a value, with some number of calls
  abbrev pub Runs : ℕ → M K8sFailure Unit → Type 0
  Runs n m = Meets Q (Exits codes) n (λ t. Unit) m

  abbrev pub Code : ℕ → Type 0
  Code n = any (λ k. n == k) codes ≡ true

  Meets-parsed : (b : String) → Meets Q (λ (e : String). Unit) 0 (λ v. Unit) (parsed p c b)
  Meets-parsed b =
      Meets-if Q (λ e. Unit) _ (is_empty b) 0 _ _ (Meets-pure Q _ _ _ tt)
        (Meets-some_or Q _ _ _ _ tt (λ v e. tt))

  module _ (auth : Code 4) where
    pub Meets-k8s_call :
        (code : ℕ) (method : Method) (path : String) (body : Option Value)
        → Code code
        → Covers Q p c method path [] body
        → Meets Q (Exits codes) 1 (λ v. Unit) (k8s_call p c code method path body)
    unfolding k8s_call map_k8s_transport_or_auth
    Meets-k8s_call code method path body exits covers =
        Meets-map_err Q (λ e. Unit) (Exits codes) _ (map_k8s_transport_or_auth code) 1 _
          (λ e t. mapped e)
          (Meets-bind Q _ _ _ 1 0 _ _
            (Meets-call p c Q (λ e. Unit) (λ e. tt) method path [] body covers)
            (λ b t. Meets-parsed b))
      where
        mapped : (e : String) → Exits codes (map_k8s_transport_or_auth code e)
        mapped e = elim (Bool-cases (is_transport_or_auth_error e)) [
          | inl h ↦ rw h auth
          | inr h ↦ rw h exits
        ]

    Meets-warnings :
        (code : ℕ) (what : String) (strict : Bool) (v : Value)
        → Code code
        → Runs 0 (refuse_warnings code what strict v)
    Meets-warnings code what strict v exits =
        Meets-if Q _ _ _ 0 _ _ (Meets-bail Q _ _ _ exits) (Meets-pure Q _ _ _ tt)

    pub Meets-validate :
        (manifest : String) (namespace : Option String) (strict as_json : Bool)
        → Code 2
        → ((body : Option Value) → Covers Q p c post "/api/k8s/validate" [] body)
        → Runs 1 (run_validate p c manifest namespace strict as_json)
    unfolding run_validate
    Meets-validate manifest namespace strict as_json exits covers =
        Meets-bind Q _ _ _ 1 0 _ _ (Meets-k8s_call _ _ _ _ exits (covers _)) (λ v r.
          Meets-bind Q _ _ _ 0 0 _ _ (Meets-emit p Q _ v _ _)
            (λ u t. Meets-warnings _ "validation" strict v exits))

    pub Meets-diff :
        (manifest : String) (t : Target) (strict as_json : Bool)
        → Code 2
        → ((body : Option Value) → Covers Q p c post "/api/k8s/diff" [] body)
        → Runs 1 (run_diff p c manifest t strict as_json)
    unfolding run_diff
    Meets-diff manifest t strict as_json exits covers =
        Meets-bind Q _ _ _ 1 0 _ _ (Meets-k8s_call _ _ _ _ exits (covers _)) (λ v r.
          Meets-bind Q _ _ _ 0 0 _ _ (Meets-emit p Q _ v _ _)
            (λ u r. Meets-warnings _ "diff" strict v exits))

    module _ (applies : Code 3)
        (covers : (method : Method) (path : String) (body : Option Value)
          → Covers Q p c method path [] body) where
      Meets-ask_apply :
          (id cluster_id : String)
          → Meets Q (Exits codes) 1 (Holds (ApplyEnded p)) (ask_apply p c id cluster_id)
      unfolding ask_apply
      Meets-ask_apply id cluster_id =
          Meets-bind Q _ _ _ 1 0 _ _ (Meets-k8s_call _ _ _ _ applies (covers _ _ _))
            (λ v t. Meets-pure Q _ _ _ (known v))
        where
          known :
              (v : Value)
              → Holds (ApplyEnded p) (if has_ended (status_text p v) then some v else none)
          known v = elim (Bool-cases (has_ended (status_text p v))) [
            | inl e ↦ rw e e
            | inr e ↦ rw e tt
          ]

      -- The waiting ends, with an apply that has ended or an error.
      pub Meets-apply_wait :
          (id cluster_id : String) (timeout : ℕ)
          → Meets Q
              (Exits codes)
              (apply_rounds timeout)
              (ApplyEnded p)
              (k8s_wait_for_apply_operation p c id cluster_id timeout)
      unfolding k8s_wait_for_apply_operation
      Meets-apply_wait id cluster_id timeout =
          let fits : timeout < 500 * suc (timeout / 500) = grind arith in
          Meets-poll_until Q _ (ApplyEnded p) timeout 500 _ applies (ask_apply p c id cluster_id)
            (Meets-ask_apply id cluster_id) (apply_rounds timeout) fits

      pub Meets-show_apply :
          (id : String) (as_json : Bool) (v : Value) → Runs 0 (show_apply p c id as_json v)
      unfolding show_apply
      Meets-show_apply id as_json v =
          Meets-bind Q _ _ _ 0 0 _ _ (Meets-emit p Q _ v _ _)
            (λ u t. Meets-if Q _ _ _ 0 _ _ (Meets-bail Q _ _ _ applies) (Meets-pure Q _ _ _ tt))

      Meets-follow_apply :
          (a : ApplyArgs) (id : Option String)
          → Runs (apply_rounds (1000 * a.timeout_secs)) (follow_apply p c a id)
      Meets-follow_apply a none = Meets-more Q _ _ 0 _ _ (omega arith) (Meets-pure Q _ _ _ tt)
      Meets-follow_apply a (some id) = Meets-more Q _ _ _ _ _ (omega arith) (
          Meets-bind Q _ _ _ 0 (apply_rounds (1000 * a.timeout_secs)) _ _ (Meets-print Q _ _)
            (λ u t.
              Meets-if Q _ _ _ _ _ _
                (Meets-more Q _ _ _ _ _ (omega arith) (
                  Meets-bind Q _ _ _ _ 0 _ _ (Meets-apply_wait _ _ (1000 * a.timeout_secs))
                    (λ v t. Meets-show_apply _ _ v)))
                (Meets-more Q _ _ 0 _ _ (omega arith) (Meets-pure Q _ _ _ tt))))

      pub Meets-send_apply :
          (manifest : String) (a : ApplyArgs)
          → Runs (1 + apply_rounds (1000 * a.timeout_secs)) (send_apply p c manifest a)
      unfolding send_apply
      Meets-send_apply manifest a = Meets-more Q _ _ _ _ _ (omega arith) (
          Meets-bind Q _ _ _ 1 (apply_rounds (1000 * a.timeout_secs)) _ _
            (Meets-k8s_call _ _ _ _ applies (covers _ _ _))
            (λ v t. Meets-more Q _ _ _ _ _ (omega arith) (
              Meets-bind Q _ _ _ 0 (apply_rounds (1000 * a.timeout_secs)) _ _
                (Meets-emit p Q _ v _ _)
                (λ u t. Meets-more Q _ _ _ _ _ (omega arith) (
                  Meets-bind Q _ _ _ 0 (apply_rounds (1000 * a.timeout_secs)) _ _
                    (Meets-warnings _ "apply" a.strict v applies)
                    (λ u t. Meets-follow_apply a _))))))
