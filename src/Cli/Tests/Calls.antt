-- ===== src/Cli/Tests/Calls.antt =====
-- cli/src: the theorems on the commands at concrete arguments.
use Prim.Native.String.{◌++◌}
use quiltc.Prelude.{
  ℕ, suc, ◌/◌, ◌≡◌, ◌≢◌, refl, String, true, false, none, some, List, [], ◌∷◌, arith, str_eq,
  str_eq_iff, if◌then◌else◌,
}
use quiltc.Prelude.Maps.{lookup}
use quiltc.Prelude.Text.{join, has_char}
use quiltc.Control.Json.{Value, string, json, end}
use quiltc.Control.Json
use quiltc.Cli.Http.{get, post, send_loop, should_retry, retry_sleep}
use quiltc.Cli.Http
use quiltc.Cli.Console.{ServiceCall, Console, ok, err, or_else, ◌>>=◌}
use quiltc.Cli.Console.Contracts.{Meets, Goes}
use quiltc.Cli.Config.{Config, no_config, node_token_key}
use quiltc.Cli.Client.{call_bytes, send_attempts, build_url, request_headers}
use quiltc.Cli.Encode.{encode_query}
use quiltc.Cli.Encode.Safe.{encode_query_lem}
use quiltc.Cli.Operations.{
  parse_status, is_terminal, parse_operation_response, wait_for_operation_value, ask_operation,
}
use quiltc.Cli.Operations.Waiting.{wait_for_operation_value_lem, wait_for_operation_value_succeeds}
use quiltc.Cli.Capabilities.{capabilities_of, parse_capability_matrix}
use quiltc.Cli.Mutations.{lifecycle_body, run_operation_mutation, run_lifecycle_mutation}
use quiltc.Cli.Mutations.Guards.{run_operation_mutation_guarded}
use quiltc.Cli.Mutations.Keys.{run_lifecycle_mutation_keys}
use quiltc.Cli.Nodes.{allocation, run_agent, store_token, load_node_token, registered_node_id}
use quiltc.Cli.Nodes.Tokens.{store_token_lem}
use quiltc.Cli.Volumes.{save_download, upload_body}
use quiltc.Cli.Volumes.Files.{save_download-upload_body}
use quiltc.Cli.Kubernetes.Commands.{ApplyArgs, apply}
use quiltc.Cli.Kubernetes.{run_k8s}
use quiltc.Cli.Clusters.{list}
use quiltc.Cli.Main.{Args, clusters, load}
use quiltc.Cli.Commands.Changes.{HasEnded}
use quiltc.Cli.Commands.Kubernetes.{Exits}
use quiltc.Cli.Commands.Exits.{apply_codes}
use quiltc.Cli.Commands.Safety.{AsNode, IsHarmless, run_agent_lem, dry_run_lem}
use quiltc.Cli.Tests.Data.{platform, client, answering, snapshot_args, lifecycle_args, stored}

abbrev args : Args
args = record {
  base_url = "http://quilt";
  jwt = some "j";
  api_key = none;
  config = none;
  save_auth = true;
  retries = 2;
  cmd = clusters list;
}

run_agent_lem_example :
    Meets
      (AsNode platform client stored (allocation "c1" "n1"))
      (λ e. Unit)
      1
      (λ d. Unit)
      (run_agent platform client stored "config.json" (allocation "c1" "n1"))
run_agent_lem_example =
    run_agent_lem platform client stored "config.json" (allocation "c1" "n1") refl

apart : (a b : String) → str_eq a b ≡ false → some a ≢ some b
apart a b h e = elim (lie ((str_eq_iff a b).1 (same e))) [ ]
  where
    same : some a ≡ some b → a ≡ b
    same e = cc

    lie : str_eq a b ≡ true → ⊥
    lie k = cc

abbrev apply_args : ApplyArgs
apply_args = record {
  target = record { cluster_id = "c1"; application = "shop"; namespace = none };
  no_validate = false;
  dry_run = true;
  prune = false;
  strict = true;
  follow = true;
  timeout_secs = 60;
  as_json = false;
}

dry_run_lem_example :
    Meets
      (IsHarmless platform client)
      (Exits apply_codes)
      2
      (λ t. Unit)
      (run_k8s platform client (apply ("shop.yaml" ∷ []) apply_args))
dry_run_lem_example =
    dry_run_lem platform client ("shop.yaml" ∷ []) apply_args refl
      (apart "http://quilt/api/k8s/apply" "http://quilt/api/k8s/validate" refl)
      (apart "http://quilt/api/k8s/apply" "http://quilt/api/k8s/diff" refl)

wait_for_operation_value_lem_example :
    Meets
      (λ x. x.method ≡ get)
      (λ e. Unit)
      (suc (2000 / 400))
      HasEnded
      (wait_for_operation_value platform client "o1" 2000)
wait_for_operation_value_lem_example = wait_for_operation_value_lem platform client "o1" 2000

-- The operation runs at first and then has succeeded.
wait_for_operation_value_succeeds_example :
    (wait_for_operation_value platform client "o1" 2000 (answering "running" "done")).0
    ≡ ok (json (("status", string "succeeded") ∷ []))
unfolding ask_operation parse_operation_response parse_status is_terminal call_bytes send_attempts
    build_url Http.send_json_bytes send_loop Json.insert Json.lookup ◌>>=◌
wait_for_operation_value_succeeds_example =
    wait_for_operation_value_succeeds platform client "o1" 2000 1 (answering "running" "done")
      (json (("status", string "succeeded") ∷ [])) (omega arith, refl, (omega arith, refl))

-- The cluster has no snapshots.
run_operation_mutation_guarded_example :
    (run_operation_mutation platform client post "/api/snapshots/s1/pin" none snapshot_args
        (answering "capabilities" "")
      ≡ (
        err (
            "UNSUPPORTED_NODE_CAPABILITY: cluster_id="
            ++ "c1"
            ++ " missing_capabilities="
            ++ join "," ("snapshot" ∷ [])),
        (capabilities_of platform client "c1" (answering "capabilities" "")).1,
      ))
    × Goes
        (λ x. x.method ≡ get)
        2
        (answering "capabilities" "")
        (capabilities_of platform client "c1" (answering "capabilities" "")).1
unfolding capabilities_of parse_capability_matrix call_bytes send_attempts build_url
    Http.send_json_bytes send_loop or_else Json.insert Json.lookup ◌>>=◌
run_operation_mutation_guarded_example =
    run_operation_mutation_guarded platform client post "/api/snapshots/s1/pin" none snapshot_args
      "c1" "snapshot" [] (("snapshot", false) ∷ []) (answering "capabilities" "")
      (capabilities_of platform client "c1" (answering "capabilities" "")).1 refl refl refl refl

run_lifecycle_mutation_keys_example :
    (n : ℕ) × (more : List ServiceCall) × (run_lifecycle_mutation platform client post "/fork"
        lifecycle_args
        (answering "" "")).1.calls
      ≡ record {
        method = post;
        url = "http://quilt/fork";
        headers = request_headers platform client (("idempotency-key", "id1") ∷ []);
        body = some (lifecycle_body lifecycle_args end none "id0");
        attempts = n;
      }
        ∷ more
run_lifecycle_mutation_keys_example =
    run_lifecycle_mutation_keys platform client post "/fork" "http://quilt/fork" "id1"
      lifecycle_args (answering "" "") refl refl refl refl refl refl refl

abbrev registered : Value
registered = json (("node_id", string "n1") ∷ ("node_token", string "t1") ∷ [])

store_token_lem_example :
    (d : Config) × (u : Console) × (store_token platform client no_config "c" "c1" registered
        (answering "" "")
      ≡ (ok d, u))
    × (load platform "c" u ≡ (ok d, u))
    × (load_node_token d "http://quilt" "c1" "n1" u ≡ (ok "t1", u))
    × ((key : String)
        → str_eq (node_token_key "http://quilt" "c1" "n1") key ≡ false
        → lookup key d.node_tokens ≡ none)
unfolding registered_node_id Json.insert Json.lookup Json.str_lt
store_token_lem_example =
    store_token_lem platform client no_config "c" "c1" "n1" "t1" registered (answering "" "") refl
      refl refl refl

save_download-upload_body_example :
    ((save_download platform "up" "out" "file" (answering "" "")).0 ≡ ok tt)
    × ((f : String)
        → lookup f (save_download platform "up" "out" "file" (answering "" "")).1.files
          ≡ (if str_eq "out" f then some (120 ∷ []) else none))
unfolding upload_body
save_download-upload_body_example =
    save_download-upload_body platform "up" "up" "out" "file" none 420 (120 ∷ []) (answering "" "")
      refl refl refl

encode_query_lem_example : has_char b'&' (encode_query "a&b=c") ≡ false
encode_query_lem_example = encode_query_lem b'&' refl refl "a&b=c"

-- A manifest that the service refuses for its DNS name
