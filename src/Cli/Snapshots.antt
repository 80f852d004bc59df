-- ===== src/Cli/Snapshots.antt =====
-- cli/src/main.rs: run_snapshots and run_operations.
use Prim.Native.String.{◌++◌}
use quiltc.Prelude.{ℕ, ◌*◌, String, Option, none, some, List, [], ◌∷◌}
use quiltc.Control.Json.{Value}
use quiltc.Cli.Http.{get, post, delete}
use quiltc.Cli.Console.{Platform, M, ◌>>=◌, ◌>>◌, some_or, print, json_value}
use quiltc.Cli.Client.{Client, send_json, call_bytes}
use quiltc.Cli.Args.{query_part, with_query}
use quiltc.Cli.Clusters.{no_fields}
use quiltc.Cli.Operations.{
  status_as_str, parse_operation_response, operation_to_json, wait_for_operation_value,
}
use quiltc.Cli.Mutations.{
  MutationControlArgs, LifecycleRequestArgs, refuse_failure, run_operation_mutation,
  run_lifecycle_mutation,
}

pub data SnapshotCmd : Type 0 where
  list : (container_id : Option String) (label : List String) → SnapshotCmd
  get_snapshot : (id : String) → SnapshotCmd
  lineage : (id : String) → SnapshotCmd
  delete_snapshot : (id : String) (options : MutationControlArgs) → SnapshotCmd
  pin : (id : String) (options : MutationControlArgs) → SnapshotCmd
  unpin : (id : String) (options : MutationControlArgs) → SnapshotCmd
  clone : (id : String) (options : LifecycleRequestArgs) → SnapshotCmd

pub data OperationCmd : Type 0 where
  get_operation : (operation_id : String) → OperationCmd
  watch : (operation_id : String) (timeout_secs : ℕ) → OperationCmd

abbrev snapshot_path : String → String → String
snapshot_path id rest = "/api/snapshots/" ++ id ++ rest

abbrev label_parts : List String → List String
label_parts [] = []
label_parts (l ∷ ls) = query_part "label" (some l) (label_parts ls)

module _ (p : Platform) (c : Client) where
  unfoldable pub run_snapshots : SnapshotCmd → M String Unit
  run_snapshots (list container_id label) =
      send_json p c get
        (with_query "/api/snapshots" (query_part "container_id" container_id (label_parts label)))
        [] none
  run_snapshots (get_snapshot id) = send_json p c get (snapshot_path id "") [] none
  run_snapshots (lineage id) = send_json p c get (snapshot_path id "/lineage") [] none
  run_snapshots (delete_snapshot id options) =
      run_operation_mutation p c delete (snapshot_path id "") (some no_fields) options
  run_snapshots (pin id options) =
      run_operation_mutation p c post (snapshot_path id "/pin") (some no_fields) options
  run_snapshots (unpin id options) =
      run_operation_mutation p c post (snapshot_path id "/unpin") (some no_fields) options
  run_snapshots (clone id options) =
      run_lifecycle_mutation p c post (snapshot_path id "/clone") options

  -- A value of an operation is printed; one that has failed is an error.
  unfoldable pub show_operation : String → Value → M String Unit
  unfolding status_as_str parse_operation_response operation_to_json
  show_operation operation_id v = do
    print (json_value (operation_to_json (parse_operation_response v) (some v)))
    refuse_failure
        (λ s. "operation " ++ operation_id ++ " terminated with status=" ++ status_as_str s)
        (parse_operation_response v).status

  unfoldable pub run_operations : OperationCmd → M String Unit
  run_operations (get_operation operation_id) = do
    b ← call_bytes p c get ("/api/operations/" ++ operation_id) [] none
    v ← some_or "Failed to parse operation response JSON" (p.from_text b)
    show_operation operation_id v
  run_operations (watch operation_id timeout_secs) = do
    v ← wait_for_operation_value p c operation_id (1000 * timeout_secs)
    show_operation operation_id v
