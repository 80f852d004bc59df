-- ===== src/Cli/Clusters.antt =====
-- cli/src/main.rs: run_clusters.
use Prim.Native.String.{◌++◌}
use quiltc.Prelude.{ℕ, String, Option, none, some, [], ◌∷◌}
use quiltc.Control.Json.{Value, Fields, string, object, end, insert, json}
use quiltc.Cli.Http.{get, post, put, delete}
use quiltc.Cli.Console.{Platform, M, ◌>>=◌}
use quiltc.Cli.Client.{Client, send_json}
use quiltc.Cli.Args.{nat_value, parse_json_arg}

pub data ClusterCmd : Type 0 where
  create : (name pod_cidr : String) (node_cidr_prefix : ℕ) → ClusterCmd
  list : ClusterCmd
  get_cluster : (cluster_id : String) → ClusterCmd
  delete_cluster : (cluster_id : String) → ClusterCmd
  reconcile : (cluster_id : String) → ClusterCmd
  nodes : (cluster_id : String) → ClusterCmd
  node_get : (cluster_id node_id : String) → ClusterCmd
  node_drain : (cluster_id node_id : String) → ClusterCmd
  node_delete : (cluster_id node_id : String) → ClusterCmd
  workload_create : (cluster_id spec : String) → ClusterCmd
  workloads : (cluster_id : String) → ClusterCmd
  workload_get : (cluster_id workload_id : String) → ClusterCmd
  workload_update : (cluster_id workload_id spec : String) → ClusterCmd
  workload_delete : (cluster_id workload_id : String) → ClusterCmd
  placements : (cluster_id : String) → ClusterCmd
  join_token_create : (cluster_id : String) (ttl_secs max_uses : Option ℕ) → ClusterCmd
  capabilities : (cluster_id : String) → ClusterCmd

abbrev with_nat : String → Option ℕ → Fields → Fields
with_nat k none r = r
with_nat k (some n) r = insert k (nat_value n) r

abbrev pub no_fields : Value
no_fields = object end

module _ (p : Platform) (c : Client) where
  unfoldable pub run_clusters : ClusterCmd → M String Unit
  run_clusters (create name pod_cidr node_cidr_prefix) = send_json p c post "/api/clusters" [] (
      some (
        json (
          ("name", string name)
          ∷ ("pod_cidr", string pod_cidr)
          ∷ ("node_cidr_prefix", nat_value node_cidr_prefix)
          ∷ [])))
  run_clusters list = send_json p c get "/api/clusters" [] none
  run_clusters (get_cluster cluster_id) = send_json p c get ("/api/clusters/" ++ cluster_id) [] none
  run_clusters (delete_cluster cluster_id) =
      send_json p c delete ("/api/clusters/" ++ cluster_id) [] none
  run_clusters (reconcile cluster_id) =
      send_json p c post ("/api/clusters/" ++ cluster_id ++ "/reconcile") [] (some no_fields)
  run_clusters (nodes cluster_id) =
      send_json p c get ("/api/clusters/" ++ cluster_id ++ "/nodes") [] none
  run_clusters (node_get cluster_id node_id) =
      send_json p c get ("/api/clusters/" ++ cluster_id ++ "/nodes/" ++ node_id) [] none
  run_clusters (node_drain cluster_id node_id) =
      send_json p c post ("/api/clusters/" ++ cluster_id ++ "/nodes/" ++ node_id ++ "/drain") []
        (some no_fields)
  run_clusters (node_delete cluster_id node_id) =
      send_json p c delete ("/api/clusters/" ++ cluster_id ++ "/nodes/" ++ node_id) [] none
  run_clusters (workload_create cluster_id spec) = do
    body ← parse_json_arg p spec
    send_json p c post ("/api/clusters/" ++ cluster_id ++ "/workloads") [] (some body)
  run_clusters (workloads cluster_id) =
      send_json p c get ("/api/clusters/" ++ cluster_id ++ "/workloads") [] none
  run_clusters (workload_get cluster_id workload_id) =
      send_json p c get ("/api/clusters/" ++ cluster_id ++ "/workloads/" ++ workload_id) [] none
  run_clusters (workload_update cluster_id workload_id spec) = do
    body ← parse_json_arg p spec
    send_json p c put ("/api/clusters/" ++ cluster_id ++ "/workloads/" ++ workload_id) []
        (some body)
  run_clusters (workload_delete cluster_id workload_id) =
      send_json p c delete ("/api/clusters/" ++ cluster_id ++ "/workloads/" ++ workload_id) [] none
  run_clusters (placements cluster_id) =
      send_json p c get ("/api/clusters/" ++ cluster_id ++ "/placements") [] none
  run_clusters (join_token_create cluster_id ttl_secs max_uses) =
      send_json p c post ("/api/clusters/" ++ cluster_id ++ "/join-tokens") []
        (some (object (with_nat "max_uses" max_uses (with_nat "ttl_secs" ttl_secs end))))
  run_clusters (capabilities cluster_id) =
      send_json p c get ("/api/clusters/" ++ cluster_id ++ "/capabilities") [] none
