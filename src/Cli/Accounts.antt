-- ===== src/Cli/Accounts.antt =====
-- cli/src/main.rs: run_auth and run_api_keys.
use Prim.Native.String.{◌++◌}
use quiltc.Prelude.{String, Option, none, some, [], ◌∷◌}
use quiltc.Control.Json.{Value, string, json}
use quiltc.Cli.Http.{get, post, delete}
use quiltc.Cli.Console.{Platform, M, ◌>>=◌, pure, some_or}
use quiltc.Cli.Client.{Client, send_json}
use quiltc.Cli.Args.{parse_json_arg, parse_optional_json}
use quiltc.Cli.Clusters.{no_fields}

pub data AuthCmd : Type 0 where
  register : (email password json_spec : Option String) → AuthCmd
  login : (email password json_spec : Option String) → AuthCmd
  refresh : (json_spec : Option String) → AuthCmd
  logout : AuthCmd
  me : AuthCmd

pub data ApiKeyCmd : Type 0 where
  list : ApiKeyCmd
  create : (spec : String) → ApiKeyCmd
  delete_key : (id : String) → ApiKeyCmd
  container_list : (container_id : String) → ApiKeyCmd
  container_create : (container_id spec : String) → ApiKeyCmd

module _ (p : Platform) where
  -- The body of a registration or a login
  unfoldable pub credentials : Option String → Option String → Option String → M String Value
  credentials email password (some j) = parse_json_arg p j
  credentials email password none = do
    e ← some_or "Missing --email (or use --json)" email
    s ← some_or "Missing --password (or use --json)" password
    pure (json (("email", string e) ∷ ("password", string s) ∷ []))

module _ (p : Platform) (c : Client) where
  unfoldable pub run_auth : AuthCmd → M String Unit
  run_auth (register email password json_spec) = do
    body ← credentials p email password json_spec
    send_json p c post "/api/auth/register" [] (some body)
  run_auth (login email password json_spec) = do
    body ← credentials p email password json_spec
    send_json p c post "/api/auth/login" [] (some body)
  run_auth (refresh json_spec) = do
    body ← parse_optional_json p json_spec
    send_json p c post "/api/auth/refresh" [] body
  run_auth logout = send_json p c post "/api/auth/logout" [] (some no_fields)
  run_auth me = send_json p c get "/api/auth/me" [] none

  unfoldable pub run_api_keys : ApiKeyCmd → M String Unit
  run_api_keys list = send_json p c get "/api/api-keys" [] none
  run_api_keys (create spec) = do
    body ← parse_json_arg p spec
    send_json p c post "/api/api-keys" [] (some body)
  run_api_keys (delete_key id) = send_json p c delete ("/api/api-keys/" ++ id) [] none
  run_api_keys (container_list container_id) =
      send_json p c get ("/api/containers/" ++ container_id ++ "/api-keys") [] none
  run_api_keys (container_create container_id spec) = do
    body ← parse_json_arg p spec
    send_json p c post ("/api/containers/" ++ container_id ++ "/api-keys") [] (some body)
