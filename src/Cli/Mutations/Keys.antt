-- ===== src/Cli/Mutations/Keys.antt =====
-- cli/src/main.rs, run_lifecycle_mutation: the idempotency keys of a request.
use quiltc.Prelude.{ℕ, suc, ◌+◌, ◌*◌, String, ◌≡◌, false, none, some, List, [], ◌∷◌, ◌++◌}
use quiltc.Control.Json.{end}
use quiltc.Cli.Http.{Method}
use quiltc.Cli.Console.{Platform, ServiceCall, Console, ◌>>=◌}
use quiltc.Cli.Console.Contracts.{Meets-bind}
use quiltc.Cli.Client.{Client, request_headers}
use quiltc.Cli.Client.Calls.{first_call}
use quiltc.Cli.Args.{labels_into, parse_labels}
use quiltc.Cli.Operations.{parse_operation_response}
use quiltc.Cli.Capabilities.{preflight_capabilities}
use quiltc.Cli.Mutations.{
  LifecycleRequestArgs, is_risky, lifecycle_body, parse_response, report_mutation,
  run_operation_mutation, run_lifecycle_mutation,
}
use quiltc.Cli.Commands.Changes.{rounds, Meets-response, Meets-report}

-- Without a key among the arguments, and with nothing else that could stop it, a request carries
-- two keys: its body has the first new id, and its header the second.
pub run_lifecycle_mutation_keys :
    (p : Platform) (c : Client) (method : Method) (path url header : String)
    (o : LifecycleRequestArgs) (w : Console)
    → is_risky o ≡ false
    → o.label ≡ []
    → o.placement_hint_json ≡ none
    → o.mutation.idempotency_key ≡ none
    → o.mutation.require_capability ≡ []
    → p.header_value (w.uuids (suc w.drawn)) ≡ some header
    → p.join_url c.base_url path ≡ some url
    → (n : ℕ) × (more : List ServiceCall) × (run_lifecycle_mutation p c method path o w).1.calls
        ≡ w.calls
          ++ record {
            method = method;
            url = url;
            headers = request_headers p c (("idempotency-key", header) ∷ []);
            body = some (lifecycle_body o end none (w.uuids w.drawn));
            attempts = n;
          }
            ∷ more
unfolding run_lifecycle_mutation run_operation_mutation preflight_capabilities parse_labels
    labels_into ◌>>=◌
run_lifecycle_mutation_keys p c method path url header o w safe no_label no_hint no_key no_caps
      valid joined =
    let v : Console = record w { drawn = suc (suc w.drawn) } in
    let (n, more, e) =
      first_call p c method path url (("idempotency-key", header) ∷ [])
        (some (lifecycle_body o end none (w.uuids w.drawn)))
        (0 + rounds (1000 * o.mutation.timeout_secs))
        (λ b. parse_response p c b >>= λ r.
          report_mutation p c o.mutation r (parse_operation_response r).operation_id)
        v
        (λ b.
          Meets-bind (λ x. Unit) (λ e. Unit) _ _ 0 _ _ _
            (Meets-response p c _ _ (λ e. tt) (λ path url n u l. tt) b)
            (λ r t. Meets-report p c _ _ (λ e. tt) (λ path url n u l. tt) o.mutation r _))
        joined in
    (n, more, simp (safe, no_label, no_hint, no_key, no_caps, valid) e)
