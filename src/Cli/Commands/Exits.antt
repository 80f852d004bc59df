-- ===== src/Cli/Commands/Exits.antt =====
-- cli/src/main.rs, run_k8s: with which exit codes each command may fail, and that a dry run
-- changes nothing.
use quiltc.Prelude.{
  ℕ, ◌+◌, ◌*◌, String, ◌≡◌, refl, Bool, true, false, Option, none, some, List, [], ◌∷◌, arith,
}
use quiltc.Control.Json.{Value, null, boolean, number, string, array, object, end, field}
use quiltc.Cli.Http.{Method, post}
use quiltc.Cli.Console.{Platform, ServiceCall}
use quiltc.Cli.Console.Contracts.{
  Meets, Meets-bind, Meets-pure, Meets-print, Meets-if, Meets-map_err, Meets-more, Meets-forget,
}
use quiltc.Cli.Client.{Client}
use quiltc.Cli.Client.Calls.{Covers}
use quiltc.Cli.Kubernetes.Commands.{
  failure, K8sExportFormat, yaml_format, json_format, ApplyArgs, K8sCmd, validate, apply, diff,
  status, get_resources, get_resource, delete_resource, export, capabilities, schema, manifest_of,
}
use quiltc.Cli.Kubernetes.{run_apply, run_status, show_get, show_deleted, show_export, run_k8s}
use quiltc.Cli.Commands.Manifests.{Meets-manifest, Meets-emit}
use quiltc.Cli.Commands.Kubernetes.{
  apply_rounds, Exits, Runs, Code, Meets-k8s_call, Meets-validate, Meets-diff, Meets-send_apply,
  Meets-apply_wait, Meets-show_apply,
}

abbrev pub check_codes : List ℕ
check_codes = 1 ∷ 2 ∷ 4 ∷ []

abbrev pub apply_codes : List ℕ
apply_codes = 1 ∷ 2 ∷ 3 ∷ 4 ∷ []

abbrev pub change_codes : List ℕ
change_codes = 3 ∷ 4 ∷ []

abbrev pub read_codes : List ℕ
read_codes = 1 ∷ 4 ∷ []

-- The exit codes with which a command may fail: 1 is a general failure, 2 a validation that
-- failed, 3 an apply that failed, and 4 a failed connection or login.
abbrev pub exit_codes : K8sCmd → List ℕ
exit_codes (validate sources namespace strict as_json) = check_codes
exit_codes (apply sources a) = apply_codes
exit_codes (diff sources t strict as_json) = check_codes
exit_codes (status id cluster_id follow timeout_secs as_json) = change_codes
exit_codes (delete_resource id cluster_id as_json) = change_codes
exit_codes cmd = read_codes

-- The calls that a command makes at most
abbrev pub k8s_calls : K8sCmd → ℕ
k8s_calls (apply sources a) = 2 + apply_rounds (1000 * a.timeout_secs)
k8s_calls (status id cluster_id follow timeout_secs as_json) = apply_rounds (1000 * timeout_secs)
k8s_calls cmd = 1

module _ (p : Platform) (c : Client) (Q : ServiceCall → Type 0) (codes : List ℕ) where
  pub Meets-manifest_of :
      (sources : List String)
      → Code p c Q codes 1
      → Meets Q (Exits codes) 0 (λ m. Unit) (manifest_of p sources)
  Meets-manifest_of sources exits =
      Meets-map_err Q (λ e. Unit) (Exits codes) _ (failure 1) 0 _ (λ e t. exits)
        (Meets-manifest p Q (λ e. Unit) (λ e. tt) sources)

  -- A dry run validates and asks for the difference.
  pub Meets-dry_run :
      (manifest : String) (a : ApplyArgs)
      → Code p c Q codes 2
      → Code p c Q codes 4
      → a.dry_run ≡ true
      → ((body : Option Value) → Covers Q p c post "/api/k8s/validate" [] body)
      → ((body : Option Value) → Covers Q p c post "/api/k8s/diff" [] body)
      → Runs p c Q codes 2 (run_apply p c manifest a)
  unfolding run_apply
  Meets-dry_run manifest a two four dry v d = rw dry (
      Meets-bind Q _ _ _ 1 1 _ _
        (Meets-if Q _ _ _ 1 _ _ (Meets-more Q _ _ 0 1 _ (omega arith) (Meets-pure Q _ _ _ tt))
          (Meets-validate p c Q codes four _ _ _ _ two v))
        (λ u t. Meets-diff p c Q codes four _ _ _ _ two d))

  module _ (four : Code p c Q codes 4)
      (covers : (method : Method) (path : String) (body : Option Value)
        → Covers Q p c method path [] body) where
    Meets-run_apply :
        (manifest : String) (a : ApplyArgs)
        → Code p c Q codes 2
        → Code p c Q codes 3
        → Runs p c Q codes (2 + apply_rounds (1000 * a.timeout_secs)) (run_apply p c manifest a)
    unfolding run_apply
    Meets-run_apply manifest a two three = Meets-more Q _ _ _ _ _ (omega arith) (
        Meets-bind Q _ _ _ 1 (1 + apply_rounds (1000 * a.timeout_secs)) _ _
          (Meets-if Q _ _ _ 1 _ _ (Meets-more Q _ _ 0 1 _ (omega arith) (Meets-pure Q _ _ _ tt))
            (Meets-validate p c Q codes four _ _ _ _ two (covers _ _)))
          (λ u t.
            Meets-if Q _ _ _ _ _ _
              (Meets-more Q _ _ 1 _ _ (omega arith)
                (Meets-diff p c Q codes four _ _ _ _ two (covers _ _)))
              (Meets-send_apply p c Q codes four three covers _ a)))

    Meets-run_status :
        (id cluster_id : String) (follow : Bool) (timeout_secs : ℕ) (as_json : Bool)
        → Code p c Q codes 3
        → Runs p c Q codes
            (apply_rounds (1000 * timeout_secs))
            (run_status p c id cluster_id follow timeout_secs as_json)
    unfolding run_status
    Meets-run_status id cluster_id follow timeout_secs as_json three =
        Meets-more Q _ _ _ _ _ (omega arith) (
          Meets-bind Q _ (λ v. Unit) _ (apply_rounds (1000 * timeout_secs)) 0 _ _
            (Meets-if Q _ _ follow _ _ _
              (Meets-forget Q _ _ _ _ (Meets-apply_wait p c Q codes four three covers _ _ _))
              (Meets-more Q _ _ 1 _ _ (omega arith)
                (Meets-k8s_call p c Q codes four _ _ _ _ three (covers _ _ _))))
            (λ v t. Meets-show_apply p c Q codes four three covers _ _ v))

    Meets-show_get :
        (path : String) (as_json : Bool)
        → Code p c Q codes 1
        → Runs p c Q codes 1 (show_get p c path as_json)
    unfolding show_get
    Meets-show_get path as_json one =
        Meets-bind Q _ _ _ 1 0 _ _ (Meets-k8s_call p c Q codes four _ _ _ _ one (covers _ _ _))
          (λ v t. Meets-emit p Q _ v _ _)

    Meets-deleted :
        (id cluster_id : String) (as_json : Bool) (v : Value)
        → Runs p c Q codes 0 (show_deleted p c id cluster_id as_json v)
    Meets-deleted id cluster_id true v = Meets-print Q _ _
    Meets-deleted id cluster_id false (object end) = Meets-print Q _ _
    Meets-deleted id cluster_id false (object (field k v r)) = Meets-emit p Q _ _ _ _
    Meets-deleted id cluster_id false (array xs) = Meets-emit p Q _ _ _ _
    Meets-deleted id cluster_id false null = Meets-emit p Q _ _ _ _
    Meets-deleted id cluster_id false (boolean b) = Meets-emit p Q _ _ _ _
    Meets-deleted id cluster_id false (number n) = Meets-emit p Q _ _ _ _
    Meets-deleted id cluster_id false (string s) = Meets-emit p Q _ _ _ _

    Meets-export :
        (as_json : Bool) (f : K8sExportFormat) (v : Value) (o : Option String)
        → Runs p c Q codes 0 (show_export p c as_json f v o)
    Meets-export true f v o = Meets-print Q _ _
    Meets-export false json_format v o = Meets-print Q _ _
    Meets-export false yaml_format v none = Meets-print Q _ _
    Meets-export false yaml_format v (some y) = Meets-print Q _ _

module _ (p : Platform) (c : Client) (Q : ServiceCall → Type 0)
    (covers : (method : Method) (path : String) (body : Option Value)
      → Covers Q p c method path [] body) where
  -- Every Kubernetes command ends, fails only with its exit codes, and makes at most so many
  -- calls.
  pub Meets-run_k8s :
      (cmd : K8sCmd)
      → Meets Q (Exits (exit_codes cmd)) (k8s_calls cmd) (λ t. Unit) (run_k8s p c cmd)
  unfolding run_k8s
  Meets-run_k8s (validate sources namespace strict as_json) =
      Meets-bind Q _ _ _ 0 1 _ _ (Meets-manifest_of p c Q check_codes sources refl)
        (λ m t. Meets-validate p c Q check_codes refl _ _ _ _ refl (covers _ _))
  Meets-run_k8s (apply sources a) = Meets-more Q _ _ _ _ _ (omega arith) (
      Meets-bind Q _ _ _ 0 (2 + apply_rounds (1000 * a.timeout_secs)) _ _
        (Meets-manifest_of p c Q apply_codes sources refl)
        (λ m t. Meets-run_apply p c Q apply_codes refl covers m a refl refl))
  Meets-run_k8s (diff sources t strict as_json) =
      Meets-bind Q _ _ _ 0 1 _ _ (Meets-manifest_of p c Q check_codes sources refl)
        (λ m u. Meets-diff p c Q check_codes refl _ _ _ _ refl (covers _ _))
  Meets-run_k8s (status id cluster_id follow timeout_secs as_json) =
      Meets-run_status p c Q change_codes refl covers _ _ _ timeout_secs _ refl
  Meets-run_k8s (get_resources cluster_id application kind include_secrets as_json) =
      Meets-show_get p c Q read_codes refl covers _ _ refl
  Meets-run_k8s (get_resource id cluster_id as_json) =
      Meets-show_get p c Q read_codes refl covers _ _ refl
  Meets-run_k8s (delete_resource id cluster_id as_json) =
      Meets-bind Q _ _ _ 1 0 _ _
        (Meets-k8s_call p c Q change_codes refl _ _ _ _ refl (covers _ _ _))
        (λ v t. Meets-deleted p c Q change_codes refl covers _ _ _ v)
  Meets-run_k8s (export cluster_id application output as_json) =
      Meets-bind Q _ _ _ 1 0 _ _ (Meets-k8s_call p c Q read_codes refl _ _ _ _ refl (covers _ _ _))
        (λ v t. Meets-export p c Q read_codes refl covers _ _ v _)
  Meets-run_k8s (capabilities as_json) = Meets-show_get p c Q read_codes refl covers _ _ refl
  Meets-run_k8s (schema as_json) = Meets-show_get p c Q read_codes refl covers _ _ refl
