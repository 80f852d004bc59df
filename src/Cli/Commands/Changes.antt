-- ===== src/Cli/Commands/Changes.antt =====
-- cli/src/main.rs: the commands that wait for operations, and those that change containers and
-- snapshots.
use quiltc.Prelude.{
  ℕ, suc, ◌+◌, ◌*◌, ◌/◌, ◌<◌, String, ◌≡◌, refl, true, Option, none, some, List, [], ◌∷◌, inl, inr,
  Bool-cases, arith, if◌then◌else◌,
}
use quiltc.Prelude.Text.{is_empty, Split, whole, parts, split_once, trim}
use quiltc.Control.Json.{Value, Fields, end}
use quiltc.Cli.Http.{Method, get}
use quiltc.Cli.Console.{Platform, ServiceCall, ◌>>=◌, some_or, print, json_value}
use quiltc.Cli.Console.Contracts.{
  Meets, Meets-bind, Meets-bail, Meets-pure, Meets-some_or, Meets-print, Meets-more, Meets-uuid,
  Meets-or_else,
}
use quiltc.Cli.Console.Polls.{Holds, Meets-poll_until}
use quiltc.Cli.Client.{Client, Headers, call_bytes}
use quiltc.Cli.Client.Calls.{Covers, IsOwn, Meets-call}
use quiltc.Cli.Args.{labels_into, add_label, parse_labels}
use quiltc.Cli.Operations.{
  OperationStatus, is_terminal_failure, parse_operation_response, ends, ask_operation,
  wait_for_operation_value,
}
use quiltc.Cli.Capabilities.{capabilities_of, refuse_missing, preflight_capabilities}
use quiltc.Cli.Mutations.{
  MutationControlArgs, LifecycleRequestArgs, key_or_new, refuse_failure, follow_operation,
  parse_response, report_mutation, run_operation_mutation, is_risky, run_lifecycle_mutation,
}
use quiltc.Cli.Commands.Simple.{Meets-optional_json}

-- The calls while an operation is waited for
abbrev pub rounds : ℕ → ℕ
rounds timeout = suc (timeout / 400)

-- A value of an operation that has ended
abbrev pub HasEnded : Value → Type 0
HasEnded v = ends (parse_operation_response v).status ≡ true

module _ (p : Platform) (c : Client) (Q : ServiceCall → Type 0) (R : String → Type 0)
    (fails : (e : String) → R e) (reads : (path : String) → Covers Q p c get path [] none) where
  Meets-get : (path : String) → Meets Q R 1 (λ b. Unit) (call_bytes p c get path [] none)
  Meets-get path = Meets-call p c Q R fails get path [] none (reads path)

  Meets-parse : (e : String) (b : String) → Meets Q R 0 (λ v. Unit) (some_or e (p.from_text b))
  Meets-parse e b = Meets-some_or Q R _ _ _ (fails _) (λ v h. tt)

  pub Meets-ask_operation : (id : String) → Meets Q R 1 (Holds HasEnded) (ask_operation p c id)
  unfolding ask_operation
  Meets-ask_operation id = Meets-bind Q R _ _ 1 0 _ _ (Meets-get _) (λ b t.
      Meets-bind Q R (λ v. Unit) _ 0 0 _ _ (Meets-parse _ b) (λ v t. Meets-pure Q R _ _ (known v)))
    where
      known :
          (v : Value)
          → Holds HasEnded (if ends (parse_operation_response v).status then some v else none)
      known v = elim (Bool-cases (ends (parse_operation_response v).status)) [
        | inl e ↦ rw e e
        | inr e ↦ rw e tt
      ]

  pub Meets-wait :
      (id : String) (timeout : ℕ)
      → Meets Q R (rounds timeout) HasEnded (wait_for_operation_value p c id timeout)
  unfolding wait_for_operation_value
  Meets-wait id timeout =
      let fits : timeout < 400 * suc (timeout / 400) = grind arith in
      Meets-poll_until Q R HasEnded timeout 400 _ (fails _) (ask_operation p c id)
        (Meets-ask_operation id) (rounds timeout) fits

  Meets-refuse_failure :
      (say : OperationStatus → String) (o : Option OperationStatus)
      → Meets Q R 0 (λ t. Unit) (refuse_failure say o)
  Meets-refuse_failure say none = Meets-pure Q R _ _ tt
  Meets-refuse_failure say (some s) = elim (Bool-cases (is_terminal_failure s)) [
    | inl e ↦ rw e (Meets-bail Q R _ _ (fails _))
    | inr e ↦ rw e (Meets-pure Q R _ _ tt)
  ]

  -- A value is printed, and an operation that has failed is refused.
  pub Meets-shown :
      (say : OperationStatus → String) (v : Value) (o : Option OperationStatus)
      → Meets Q R 0 (λ t. Unit) (print (json_value v) >>= λ t. refuse_failure say o)
  Meets-shown say v o =
      Meets-bind Q R _ _ 0 0 _ _ (Meets-print Q R _) (λ u t. Meets-refuse_failure say o)

  Meets-follow :
      (id : String) (timeout_secs : ℕ)
      → Meets Q R (rounds (1000 * timeout_secs)) (λ t. Unit) (follow_operation p c id timeout_secs)
  unfolding follow_operation
  Meets-follow id timeout_secs =
      Meets-more Q R _ _ _ _ (omega arith) (
        Meets-bind Q R _ _ _ 0 _ _ (Meets-wait id (1000 * timeout_secs)) (λ v t. Meets-shown _ _ _))

  pub Meets-report :
      (o : MutationControlArgs) (v : Value) (id : Option String)
      → Meets Q R (rounds (1000 * o.timeout_secs)) (λ t. Unit) (report_mutation p c o v id)
  unfolding report_mutation
  Meets-report o v none = Meets-more Q R _ 0 _ _ (omega arith) (
      Meets-bind Q R _ _ 0 0 _ _ (Meets-print Q R _) (λ u t. elim (Bool-cases o.wait) [
        | inl e ↦ rw e (Meets-print Q R _)
        | inr e ↦ rw e (Meets-pure Q R _ _ tt)
      ]))
  Meets-report o v (some id) = Meets-more Q R _ _ _ _ (omega arith) (
      Meets-bind Q R _ _ 0 (rounds (1000 * o.timeout_secs)) _ _ (Meets-print Q R _) (λ u t.
        elim (Bool-cases o.wait) [
          | inl e ↦ rw e (Meets-follow id o.timeout_secs)
          | inr e ↦ rw e (Meets-more Q R _ 0 _ _ (omega arith) (Meets-print Q R _))
        ]))

  pub Meets-capabilities : (id : String) → Meets Q R 2 (λ m. Unit) (capabilities_of p c id)
  unfolding capabilities_of
  Meets-capabilities id =
      Meets-bind Q R _ _ 2 0 _ _ (Meets-or_else Q R _ 1 1 _ _ (Meets-get _) (Meets-get _)) (λ b t.
        Meets-bind Q R (λ v. Unit) _ 0 0 _ _ (Meets-parse _ b) (λ v t. Meets-pure Q R _ _ tt))

  Meets-refuse_missing :
      (id : String) (caps : List String) → Meets Q R 0 (λ t. Unit) (refuse_missing id caps)
  Meets-refuse_missing id [] = Meets-pure Q R _ _ tt
  Meets-refuse_missing id (cap ∷ caps) = Meets-bail Q R _ _ (fails _)

  Meets-preflight :
      (id : Option String) (required : List String)
      → Meets Q R 2 (λ t. Unit) (preflight_capabilities p c id required)
  unfolding preflight_capabilities
  Meets-preflight id [] = Meets-more Q R _ 0 2 _ (omega arith) (Meets-pure Q R _ _ tt)
  Meets-preflight id (cap ∷ caps) =
      Meets-bind Q R (λ i. Unit) _ 0 2 _ _ (Meets-some_or Q R _ _ _ (fails _) (λ i h. tt))
        (λ i t. Meets-bind Q R _ _ 2 0 _ _ (Meets-capabilities i) (λ m t. Meets-refuse_missing _ _))

  Meets-key : (o : Option String) → Meets Q R 0 (λ k. Unit) (key_or_new o)
  Meets-key none = Meets-uuid Q R
  Meets-key (some k) = Meets-pure Q R _ _ tt

  pub Meets-response : (b : String) → Meets Q R 0 (λ v. Unit) (parse_response p c b)
  Meets-response b = elim (Bool-cases (is_empty b)) [
    | inl e ↦ rw e (Meets-pure Q R _ _ tt)
    | inr e ↦ rw e (Meets-parse _ b)
  ]

  Meets-labels_into :
      (ls : List String) (out : Fields) → Meets Q R 0 (λ r. Unit) (labels_into ls out)
  unfolding labels_into
  Meets-labels_into [] out = Meets-pure Q R _ _ tt
  Meets-labels_into (l ∷ ls) out =
      Meets-bind Q R _ _ 0 0 _ _ (added (split_once b'=' l)) (λ r t. Meets-labels_into ls r)
    where
      added : (s : Split) → Meets Q R 0 (λ r. Unit) (add_label l s out)
      added whole = Meets-bail Q R _ _ (fails _)
      added (parts k v) = elim (Bool-cases (is_empty (trim k))) [
        | inl e ↦ rw e (Meets-bail Q R _ _ (fails _))
        | inr e ↦ rw e (Meets-pure Q R _ _ tt)
      ]

  module _ (method : Method) (path : String)
      (changes : (headers : Headers) (body : Option Value)
        → IsOwn headers
        → Covers Q p c method path headers body) where
    -- The check, the change, and the waiting
    pub Meets-mutation :
        (body : Option Value) (o : MutationControlArgs)
        → Meets Q R
            (3 + rounds (1000 * o.timeout_secs))
            (λ t. Unit)
            (run_operation_mutation p c method path body o)
    unfolding run_operation_mutation
    Meets-mutation body o = Meets-more Q R _ _ _ _ (omega arith) (
        Meets-bind Q R _ _ 2 _ _ _ (Meets-preflight o.cluster_id o.require_capability) (λ u t.
          Meets-bind Q R _ _ 0 _ _ _ (Meets-key o.idempotency_key) (λ k t.
            Meets-bind Q R (λ v. Unit) _ 0 _ _ _ (Meets-some_or Q R _ _ _ (fails _) (λ v h. tt))
              (λ v t.
                Meets-bind Q R _ _ 1 _ _ _
                  (Meets-call p c Q R fails method path _ body
                    (changes (("idempotency-key", v) ∷ []) body refl))
                  (λ b t.
                    Meets-bind Q R _ _ 0 _ _ _ (Meets-response b) (λ v t. Meets-report o v _))))))

    pub Meets-lifecycle :
        (o : LifecycleRequestArgs)
        → Meets Q R
            (3 + rounds (1000 * o.mutation.timeout_secs))
            (λ t. Unit)
            (run_lifecycle_mutation p c method path o)
    unfolding run_lifecycle_mutation parse_labels
    Meets-lifecycle o = elim (Bool-cases (is_risky o)) [
      | inl e ↦ rw e (Meets-more Q R _ 0 _ _ (omega arith) (Meets-bail Q R _ _ (fails _)))
      | inr e ↦ rw e (
          Meets-more Q R _ _ _ _ (omega arith) (
            Meets-bind Q R _ _ 0 _ _ _ (Meets-labels_into o.label end) (λ r t.
              Meets-bind Q R _ _ 0 _ _ _ (Meets-optional_json p Q R fails o.placement_hint_json)
                (λ h t.
                  Meets-bind Q R _ _ 0 _ _ _ (Meets-key o.mutation.idempotency_key)
                    (λ k t. Meets-mutation _ o.mutation)))))
    ]
