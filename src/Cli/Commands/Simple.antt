-- ===== src/Cli/Commands/Simple.antt =====
-- cli/src/main.rs: the commands that make one call at most.
use quiltc.Prelude.{String, Option, none, some}
use quiltc.Prelude.Text.{strip_prefix}
use quiltc.Control.Json.{Value}
use quiltc.Cli.Http.{Method}
use quiltc.Cli.Console.{Platform, ServiceCall, M, ◌>>=◌}
use quiltc.Cli.Console.Contracts.{
  Meets, Meets-bind, Meets-pure, Meets-some_or, Meets-read_file, Meets-write_file, Meets-print,
}
use quiltc.Cli.Client.{Client, Headers, send_json}
use quiltc.Cli.Client.Calls.{Covers, IsOwn, Meets-call, Meets-send_json}
use quiltc.Cli.Args.{read_json, parse_json_arg, parse_optional_json}
use quiltc.Cli.Clusters.{
  ClusterCmd, create, list, get_cluster, delete_cluster, reconcile, nodes, node_get, node_drain,
  node_delete, workload_create, workloads, workload_get, workload_update, workload_delete,
  placements, join_token_create, capabilities, run_clusters,
}
use quiltc.Cli.Accounts.{AuthCmd, ApiKeyCmd, credentials, run_auth, run_api_keys}
use quiltc.Cli.Accounts
use quiltc.Cli.Volumes.{VolumeCmd, save_download, run_volumes}
use quiltc.Cli.Volumes

module _ (p : Platform) (Q : ServiceCall → Type 0) (R : String → Type 0)
    (fails : (e : String) → R e) where
  pub Meets-parse_json_arg : (s : String) → Meets Q R 0 (λ v. Unit) (parse_json_arg p s)
  unfolding parse_json_arg
  Meets-parse_json_arg s = read (strip_prefix "@" s)
    where
      read : (o : Option String) → Meets Q R 0 (λ v. Unit) (read_json p s o)
      read none = Meets-some_or Q R _ _ _ (fails _) (λ v e. tt)
      read (some path) =
          Meets-bind Q R _ _ 0 0 _ _ (Meets-read_file Q R _ _ (fails _))
            (λ b t. Meets-some_or Q R _ _ _ (fails _) (λ v e. tt))

  pub Meets-optional_json : (o : Option String) → Meets Q R 0 (λ v. Unit) (parse_optional_json p o)
  Meets-optional_json none = Meets-pure Q R _ _ tt
  Meets-optional_json (some s) =
      Meets-bind Q R _ _ 0 0 _ _ (Meets-parse_json_arg s) (λ v t. Meets-pure Q R _ _ tt)

  Meets-credentials :
      (email password spec : Option String)
      → Meets Q R 0 (λ v. Unit) (credentials p email password spec)
  unfolding credentials
  Meets-credentials email password (some j) = Meets-parse_json_arg j
  Meets-credentials email password none =
      Meets-bind Q R (λ e. Unit) _ 0 0 _ _ (Meets-some_or Q R _ _ _ (fails _) (λ e h. tt))
        (λ e t.
          Meets-bind Q R (λ e. Unit) _ 0 0 _ _ (Meets-some_or Q R _ _ _ (fails _) (λ e h. tt))
            (λ s t. Meets-pure Q R _ _ tt))

module _ (p : Platform) (c : Client) (Q : ServiceCall → Type 0) (R : String → Type 0)
    (fails : (e : String) → R e)
    (covers : (method : Method) (path : String) (headers : Headers) (body : Option Value)
      → IsOwn headers
      → Covers Q p c method path headers body) where
  pub Meets-plain :
      (method : Method) (path : String) (headers : Headers) (body : Option Value)
      → IsOwn headers
      → Meets Q R 1 (λ t. Unit) (send_json p c method path headers body)
  Meets-plain method path headers body own =
      Meets-send_json p c Q R fails method path headers body (covers method path headers body own)

  -- A call after a body was read
  after_json :
      (m : M String Value) (f : Value → M String Unit)
      → Meets Q R 0 (λ v. Unit) m
      → ((v : Value) → Meets Q R 1 (λ t. Unit) (f v))
      → Meets Q R 1 (λ t. Unit) (m >>= f)
  after_json m f g h = Meets-bind Q R _ _ 0 1 m f g (λ v t. h v)

  pub Meets-run_clusters : (cmd : ClusterCmd) → Meets Q R 1 (λ t. Unit) (run_clusters p c cmd)
  unfolding run_clusters
  Meets-run_clusters (create name pod_cidr node_cidr_prefix) = Meets-plain _ _ _ _ tt
  Meets-run_clusters list = Meets-plain _ _ _ _ tt
  Meets-run_clusters (get_cluster cluster_id) = Meets-plain _ _ _ _ tt
  Meets-run_clusters (delete_cluster cluster_id) = Meets-plain _ _ _ _ tt
  Meets-run_clusters (reconcile cluster_id) = Meets-plain _ _ _ _ tt
  Meets-run_clusters (nodes cluster_id) = Meets-plain _ _ _ _ tt
  Meets-run_clusters (node_get cluster_id node_id) = Meets-plain _ _ _ _ tt
  Meets-run_clusters (node_drain cluster_id node_id) = Meets-plain _ _ _ _ tt
  Meets-run_clusters (node_delete cluster_id node_id) = Meets-plain _ _ _ _ tt
  Meets-run_clusters (workload_create cluster_id spec) =
      after_json _ _ (Meets-parse_json_arg p Q R fails spec) (λ v. Meets-plain _ _ _ _ tt)
  Meets-run_clusters (workloads cluster_id) = Meets-plain _ _ _ _ tt
  Meets-run_clusters (workload_get cluster_id workload_id) = Meets-plain _ _ _ _ tt
  Meets-run_clusters (workload_update cluster_id workload_id spec) =
      after_json _ _ (Meets-parse_json_arg p Q R fails spec) (λ v. Meets-plain _ _ _ _ tt)
  Meets-run_clusters (workload_delete cluster_id workload_id) = Meets-plain _ _ _ _ tt
  Meets-run_clusters (placements cluster_id) = Meets-plain _ _ _ _ tt
  Meets-run_clusters (join_token_create cluster_id ttl_secs max_uses) = Meets-plain _ _ _ _ tt
  Meets-run_clusters (capabilities cluster_id) = Meets-plain _ _ _ _ tt

  pub Meets-run_auth : (cmd : AuthCmd) → Meets Q R 1 (λ t. Unit) (run_auth p c cmd)
  unfolding run_auth
  Meets-run_auth (Accounts.register email password spec) =
      after_json _ _ (Meets-credentials p Q R fails email password spec)
        (λ v. Meets-plain _ _ _ _ tt)
  Meets-run_auth (Accounts.login email password spec) =
      after_json _ _ (Meets-credentials p Q R fails email password spec)
        (λ v. Meets-plain _ _ _ _ tt)
  Meets-run_auth (Accounts.refresh spec) =
      Meets-bind Q R _ _ 0 1 _ _ (Meets-optional_json p Q R fails spec)
        (λ v t. Meets-plain _ _ _ _ tt)
  Meets-run_auth Accounts.logout = Meets-plain _ _ _ _ tt
  Meets-run_auth Accounts.me = Meets-plain _ _ _ _ tt

  pub Meets-run_api_keys : (cmd : ApiKeyCmd) → Meets Q R 1 (λ t. Unit) (run_api_keys p c cmd)
  unfolding run_api_keys
  Meets-run_api_keys Accounts.list = Meets-plain _ _ _ _ tt
  Meets-run_api_keys (Accounts.create spec) =
      after_json _ _ (Meets-parse_json_arg p Q R fails spec) (λ v. Meets-plain _ _ _ _ tt)
  Meets-run_api_keys (Accounts.delete_key id) = Meets-plain _ _ _ _ tt
  Meets-run_api_keys (Accounts.container_list container_id) = Meets-plain _ _ _ _ tt
  Meets-run_api_keys (Accounts.container_create container_id spec) =
      after_json _ _ (Meets-parse_json_arg p Q R fails spec) (λ v. Meets-plain _ _ _ _ tt)

  Meets-save_download :
      (src out body : String) → Meets Q R 0 (λ t. Unit) (save_download p src out body)
  unfolding save_download
  Meets-save_download src out body =
      Meets-bind Q R (λ v. Unit) _ 0 0 _ _ (Meets-some_or Q R _ _ _ (fails _) (λ v e. tt))
        (λ v t.
          Meets-bind Q R (λ v. Unit) _ 0 0 _ _ (Meets-some_or Q R _ _ _ (fails _) (λ s e. tt))
            (λ s t.
              Meets-bind Q R (λ v. Unit) _ 0 0 _ _ (Meets-some_or Q R _ _ _ (fails _) (λ b e. tt))
                (λ b t.
                  Meets-bind Q R _ _ 0 0 _ _ (Meets-write_file Q R _ _ _ (fails _))
                    (λ u t. Meets-print Q R _))))

  pub Meets-run_volumes : (cmd : VolumeCmd) → Meets Q R 1 (λ t. Unit) (run_volumes p c cmd)
  unfolding run_volumes
  Meets-run_volumes Volumes.list = Meets-plain _ _ _ _ tt
  Meets-run_volumes (Volumes.create spec) =
      after_json _ _ (Meets-parse_json_arg p Q R fails spec) (λ v. Meets-plain _ _ _ _ tt)
  Meets-run_volumes (Volumes.get_volume name) = Meets-plain _ _ _ _ tt
  Meets-run_volumes (Volumes.delete_volume name) = Meets-plain _ _ _ _ tt
  Meets-run_volumes (Volumes.upload name file path mode) =
      Meets-bind Q R _ _ 0 1 _ _ (Meets-read_file Q R _ _ (fails _)) (λ b t. Meets-plain _ _ _ _ tt)
  Meets-run_volumes (Volumes.download name path out) =
      Meets-bind Q R _ _ 1 0 _ _ (Meets-call p c Q R fails _ _ _ _ (covers _ _ _ _ tt))
        (λ b t. Meets-save_download _ _ b)
  Meets-run_volumes (Volumes.archive_upload name archive path strip_components) =
      Meets-bind Q R _ _ 0 1 _ _ (Meets-read_file Q R _ _ (fails _)) (λ b t. Meets-plain _ _ _ _ tt)
