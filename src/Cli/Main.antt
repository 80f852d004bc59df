-- ===== src/Cli/Main.antt =====
-- cli/src/main.rs, main: the configuration, the two clients, and the command that is run.
use Prim.Native.String.{◌++◌}
use quiltc.Prelude.{ℕ, String, Bool, Option, none, some, [], if◌then◌else◌}
use quiltc.Prelude.Maps.{lookup}
use quiltc.Cli.Http.{get}
use quiltc.Cli.Console.{Bytes, Platform, M, ◌>>=◌, ◌>>◌, pure, skip, some_or, map_err, write_file}
use quiltc.Cli.Config.{Config, no_config}
use quiltc.Cli.Client.{TenantAuth, jwt, api_key, Client, stream_to_stdout}
use quiltc.Cli.Args.{value_or, build_events_path}
use quiltc.Cli.Clusters.{ClusterCmd, run_clusters}
use quiltc.Cli.Accounts.{AuthCmd, ApiKeyCmd, run_auth, run_api_keys}
use quiltc.Cli.Volumes.{VolumeCmd, run_volumes}
use quiltc.Cli.Nodes.{AgentCmd, run_agent}
use quiltc.Cli.Containers.{ContainerCmd, run_containers}
use quiltc.Cli.Snapshots.{SnapshotCmd, OperationCmd, run_snapshots, run_operations}
use quiltc.Cli.Requests.{RequestArgs, run_request}
use quiltc.Cli.Kubernetes.Commands.{K8sFailure, K8sCmd, failure}
use quiltc.Cli.Kubernetes.{run_k8s}

pub data Command : Type 0 where
  clusters : ClusterCmd → Command
  auth : AuthCmd → Command
  api_keys : ApiKeyCmd → Command
  volumes : VolumeCmd → Command
  agent : AgentCmd → Command
  containers : ContainerCmd → Command
  snapshots : SnapshotCmd → Command
  operations : OperationCmd → Command
  events : (operation_id snapshot_id container_id : Option String) → Command
  request : RequestArgs → Command
  k8s : K8sCmd → Command

pub record Args : Type 0 where
  pub base_url : String
  pub jwt : Option String
  pub api_key : Option String
  pub config : Option String
  pub save_auth : Bool
  pub retries : ℕ
  pub cmd : Command

-- `a.or_else(|| b)`
abbrev pub or_this {ℓ} : {A : Type ℓ} → Option A → Option A → Option A
or_this none b = b
or_this (some a) b = some a

abbrev auth_from : Option String → Option String → Option TenantAuth
auth_from (some j) k = some (jwt j)
auth_from none (some k) = some (api_key k)
auth_from none none = none

-- A token of the arguments, then one of the configuration; a JWT before a key.
unfoldable pub tenant_auth_of : Args → Config → Option TenantAuth
tenant_auth_of a cfg =
    auth_from (or_this a.jwt cfg.tenant_jwt) (or_this a.api_key cfg.tenant_api_key)

-- What `--save-auth` keeps
abbrev pub with_auth : Args → Config → Config
with_auth a cfg = record cfg {
  tenant_jwt = or_this a.jwt cfg.tenant_jwt;
  tenant_api_key = or_this a.api_key cfg.tenant_api_key;
  base_url = some a.base_url;
}

abbrev pub with_base_url : Args → Config → Config
with_base_url a cfg = record cfg { base_url = or_this cfg.base_url (some a.base_url) }

-- `main` returns an error, which is exit code 1.
abbrev pub fails_with_1 : {A : Type 0} → M String A → M K8sFailure A
fails_with_1 m = map_err (failure 1) m

module _ (p : Platform) where
  abbrev pub config_path : Args → String
  config_path a = value_or p.default_config_path a.config

  abbrev pub read_config : String → Option Bytes → M String Config
  read_config path none = pure no_config
  read_config path (some b) =
      some_or ("Failed to parse " ++ p.debug_text path) (p.config_from_bytes b)

  -- Config::load
  unfoldable pub load : String → M String Config
  load path w = read_config path (lookup path w.files) w

  -- Client::new
  unfoldable pub new_client : String → Option TenantAuth → ℕ → M String Client
  new_client base_url tenant retries = do
    url ← some_or "Invalid base URL" (p.parse_url base_url)
    pure (record {
      base_url = url;
      tenant_auth = tenant;
      user_agent = "quiltc/" ++ p.version;
      retries = retries;
    })

  -- The configuration after the merge, saved where that is asked for
  unfoldable pub merged_config : Args → M String Config
  merged_config a = do
    cfg ← load (config_path a)
    let merged : Config = with_base_url a cfg
    if a.save_auth
        then (write_file ("Failed to write " ++ p.debug_text (config_path a)) (config_path a)
              (p.config_to_bytes (with_auth a merged))
            >> pure (with_auth a merged))
        else pure merged

  unfoldable pub run_command : Client → Client → Config → String → Command → M K8sFailure Unit
  run_command tenant node cfg path (clusters cmd) = fails_with_1 (run_clusters p tenant cmd)
  run_command tenant node cfg path (auth cmd) = fails_with_1 (run_auth p tenant cmd)
  run_command tenant node cfg path (api_keys cmd) = fails_with_1 (run_api_keys p tenant cmd)
  run_command tenant node cfg path (volumes cmd) = fails_with_1 (run_volumes p tenant cmd)
  run_command tenant node cfg path (agent cmd) =
      fails_with_1 (run_agent p node cfg path cmd >> skip)
  run_command tenant node cfg path (containers cmd) = fails_with_1 (run_containers p tenant cmd)
  run_command tenant node cfg path (snapshots cmd) = fails_with_1 (run_snapshots p tenant cmd)
  run_command tenant node cfg path (operations cmd) = fails_with_1 (run_operations p tenant cmd)
  run_command tenant node cfg path (events operation_id snapshot_id container_id) = fails_with_1 (
      stream_to_stdout p tenant get (build_events_path operation_id snapshot_id container_id) []
        none)
  run_command tenant node cfg path (request a) = fails_with_1 (run_request p tenant a)
  run_command tenant node cfg path (k8s cmd) = run_k8s p tenant cmd

  unfoldable pub main : Args → M K8sFailure Unit
  main a = do
    cfg ← fails_with_1 (merged_config a)
    tenant ← fails_with_1 (new_client a.base_url (tenant_auth_of a cfg) a.retries)
    node ← fails_with_1 (new_client a.base_url none a.retries)
    run_command tenant node cfg (config_path a) a.cmd
