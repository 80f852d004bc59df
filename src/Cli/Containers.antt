-- ===== src/Cli/Containers.antt =====
-- cli/src/main.rs: run_containers.
use Prim.Native.String.{◌++◌}
use quiltc.Prelude.{
  String, Bool, true, false, Option, none, some, List, [], ◌∷◌, is_some, if◌then◌else◌,
}
use quiltc.Control.Json.{Value, boolean, string, array, object, Fields, end, field, lookup, json}
use quiltc.Cli.Http.{get, post, put, delete}
use quiltc.Cli.Console.{Platform, M, ◌>>=◌, bail}
use quiltc.Cli.Client.{Client, send_json}
use quiltc.Cli.Args.{strings, parse_json_arg, maybe_set_async_mode, async_fields}
use quiltc.Cli.Clusters.{no_fields}
use quiltc.Cli.Mutations.{LifecycleRequestArgs, run_lifecycle_mutation}

pub data ContainerCmd : Type 0 where
  list : ContainerCmd
  create : (spec : String) (async_mode : Option Bool) → ContainerCmd
  batch_create : (spec : String) (async_mode : Option Bool) → ContainerCmd
  get_container : (id : String) → ContainerCmd
  delete_container : (id : String) (async_mode : Option Bool) → ContainerCmd
  start : (id : String) (async_mode : Option Bool) → ContainerCmd
  stop : (id : String) (async_mode : Option Bool) → ContainerCmd
  kill : (id : String) → ContainerCmd
  exec : (id : String) (command : List String) → ContainerCmd
  logs : (id : String) → ContainerCmd
  metrics : (id : String) → ContainerCmd
  network_get : (id : String) → ContainerCmd
  network_put : (id spec : String) → ContainerCmd
  network_setup : (id : String) → ContainerCmd
  route_add : (id destination : String) → ContainerCmd
  route_del : (id destination : String) → ContainerCmd
  snapshot : (id : String) (options : LifecycleRequestArgs) → ContainerCmd
  fork : (id : String) (options : LifecycleRequestArgs) → ContainerCmd
  resume_container : (id : String) (options : LifecycleRequestArgs) → ContainerCmd

abbrev container : String → String → String
container id rest = "/api/containers/" ++ id ++ rest

-- The query that asks for an asynchronous execution
abbrev async_path : Option Bool → String → String
async_path (some true) path = path ++ "?execution=async"
async_path _ path = path

abbrev destination_body : String → Value
destination_body destination = json (("destination", string destination) ∷ [])

abbrev pub start_body : Option Bool → Option Value
start_body none = none
start_body (some m) = some (json (("async_mode", boolean m) ∷ []))

module _ (p : Platform) (c : Client) where
  -- A batch that has items; it is asynchronous where nothing else is said.
  abbrev pub send_items : Option Bool → Fields → M String Unit
  send_items async_mode r =
      if is_some (lookup "items" r)
      then send_json p c post "/api/containers/batch" []
          (some (object (async_fields async_mode true r)))
      else bail "batch create request missing 'items' field"

  unfoldable pub send_batch : Option Bool → Value → M String Unit
  send_batch async_mode (array items) = send_items async_mode (field "items" (array items) end)
  send_batch async_mode (object r) = send_items async_mode r
  send_batch async_mode _ = bail "batch create spec must be an object or array"

  unfoldable pub run_containers : ContainerCmd → M String Unit
  run_containers list = send_json p c get "/api/containers" [] none
  run_containers (create spec async_mode) = do
    v ← parse_json_arg p spec
    body ← maybe_set_async_mode v async_mode false
    send_json p c post "/api/containers" [] (some body)
  run_containers (batch_create spec async_mode) = do
    v ← parse_json_arg p spec
    send_batch async_mode v
  run_containers (get_container id) = send_json p c get (container id "") [] none
  run_containers (delete_container id async_mode) =
      send_json p c delete (async_path async_mode (container id "")) [] none
  run_containers (start id async_mode) =
      send_json p c post (container id "/start") [] (start_body async_mode)
  run_containers (stop id async_mode) =
      send_json p c post (async_path async_mode (container id "/stop")) [] none
  run_containers (kill id) = send_json p c post (container id "/kill") [] (some no_fields)
  run_containers (exec id command) =
      send_json p c post (container id "/exec") []
        (some (json (("command", array (strings command)) ∷ [])))
  run_containers (logs id) = send_json p c get (container id "/logs") [] none
  run_containers (metrics id) = send_json p c get (container id "/metrics") [] none
  run_containers (network_get id) = send_json p c get (container id "/network") [] none
  run_containers (network_put id spec) = do
    body ← parse_json_arg p spec
    send_json p c put (container id "/network") [] (some body)
  run_containers (network_setup id) =
      send_json p c post (container id "/network/setup") [] (some no_fields)
  run_containers (route_add id destination) =
      send_json p c post (container id "/routes") [] (some (destination_body destination))
  run_containers (route_del id destination) =
      send_json p c delete (container id "/routes") [] (some (destination_body destination))
  run_containers (snapshot id options) =
      run_lifecycle_mutation p c post (container id "/snapshot") options
  run_containers (fork id options) = run_lifecycle_mutation p c post (container id "/fork") options
  run_containers (resume_container id options) =
      run_lifecycle_mutation p c post (container id "/resume") options
