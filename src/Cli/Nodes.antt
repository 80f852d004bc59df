-- ===== src/Cli/Nodes.antt =====
-- cli/src/main.rs: run_agent, the commands that act as a node, with the token of the node.
pub mod Tokens
use Prim.Native.String.{◌++◌}
use quiltc.Prelude.{ℕ, String, Option, none, some, [], ◌∷◌}
use quiltc.Prelude.Maps.{lookup, put}
use quiltc.Control.Json.{Value, string, json, as_str}
use quiltc.Control.Json
use quiltc.Cli.Http.{get, post}
use quiltc.Cli.Console.{Platform, M, ◌>>=◌, ◌>>◌, pure, some_or, write_file, print, json_value}
use quiltc.Cli.Config.{Config, node_token_key}
use quiltc.Cli.Client.{Client, Headers, send_json, call_bytes}
use quiltc.Cli.Args.{nat_value, optional}
use quiltc.Cli.Clusters.{no_fields}

-- What a registration says of the node
pub record Registration : Type 0 where
  pub name : String
  pub public_ip : Option String
  pub private_ip : Option String
  pub agent_version : Option String
  pub labels_json : Option String
  pub taints_json : Option String
  pub bridge_name : Option String
  pub dns_port : Option ℕ
  pub egress_limit_mbit : Option ℕ

pub record NodeState : Type 0 where
  pub state : String
  pub public_ip : Option String
  pub private_ip : Option String
  pub agent_version : Option String
  pub labels_json : Option String
  pub taints_json : Option String

pub data AgentCmd : Type 0 where
  register : (cluster_id : String) (join_token : Option String) (r : Registration) → AgentCmd
  heartbeat : (cluster_id node_id : String) (s : NodeState) → AgentCmd
  allocation : (cluster_id node_id : String) → AgentCmd
  placements : (cluster_id node_id : String) → AgentCmd
  report :
      (cluster_id node_id placement_id state : String) (container_id message : Option String)
      → AgentCmd
  deregister : (cluster_id node_id : String) → AgentCmd

abbrev text_or_null : Option String → Value
text_or_null o = optional string o

abbrev registration_body : Registration → Value
registration_body r = json (
    ("name", string r.name)
    ∷ ("public_ip", text_or_null r.public_ip)
    ∷ ("private_ip", text_or_null r.private_ip)
    ∷ ("agent_version", text_or_null r.agent_version)
    ∷ ("labels_json", text_or_null r.labels_json)
    ∷ ("taints_json", text_or_null r.taints_json)
    ∷ ("bridge_name", text_or_null r.bridge_name)
    ∷ ("dns_port", optional nat_value r.dns_port)
    ∷ ("egress_limit_mbit", optional nat_value r.egress_limit_mbit)
    ∷ [])

abbrev state_body : NodeState → Value
state_body s = json (
    ("state", string s.state)
    ∷ ("public_ip", text_or_null s.public_ip)
    ∷ ("private_ip", text_or_null s.private_ip)
    ∷ ("agent_version", text_or_null s.agent_version)
    ∷ ("labels_json", text_or_null s.labels_json)
    ∷ ("taints_json", text_or_null s.taints_json)
    ∷ [])

unfoldable pub load_node_token : Config → String → String → String → M String String
load_node_token cfg base_url cluster_id node_id =
    some_or
      ("No node_token found for cluster_id=" ++ cluster_id ++ " node_id=" ++ node_id
        ++ " (run `quiltc agent register ...` first)")
      (lookup (node_token_key base_url cluster_id node_id) cfg.node_tokens)

abbrev first_of : Option String → Option String → Option String
first_of none b = b
first_of (some a) b = some a

abbrev node_of : Option Value → Option String
node_of none = none
node_of (some n) = as_str (Json.get "id" n)

-- `{ node_id, … }` or `{ node: { id }, … }`
unfoldable pub registered_node_id : Value → Option String
registered_node_id v = first_of (as_str (Json.get "node_id" v)) (node_of (Json.get "node" v))

abbrev pub with_token : String → String → Config → Config
with_token key token cfg = record cfg { node_tokens = put key token cfg.node_tokens }

abbrev pub nodes_path : String → String → String
nodes_path cluster_id rest = "/api/agent/clusters/" ++ cluster_id ++ "/nodes/" ++ rest

module _ (p : Platform) (c : Client) (cfg : Config) (cfg_path : String) where
  -- Config::save
  unfoldable pub save : Config → M String Unit
  save d = write_file ("Failed to write " ++ p.debug_text cfg_path) cfg_path (p.config_to_bytes d)

  -- The token of a response is kept under the node's key, here and in the file.
  unfoldable pub store_token : String → Value → M String Config
  store_token cluster_id v = do
    node_id ← some_or "register response missing node_id" (registered_node_id v)
    token ← some_or "register response missing node_token" (as_str (Json.get "node_token" v))
    save (with_token (node_token_key c.base_url cluster_id node_id) token cfg)
    pure (with_token (node_token_key c.base_url cluster_id node_id) token cfg)

  unfoldable pub register_node : String → Option String → Registration → M String Config
  register_node cluster_id join_token r = do
    token ←
        some_or
          "Missing join token (set --join-token or QUILT_JOIN_TOKEN; mint via `quiltc clusters join-token-create <cluster_id> ...`)"
          join_token
    value ← some_or "failed to parse header value" (p.header_value token)
    body ←
        call_bytes p c post (nodes_path cluster_id "register") (("x-quilt-join-token", value) ∷ [])
          (some (registration_body r))
    v ← some_or "Failed to parse register response JSON" (p.from_text body)
    print (json_value v)
    store_token cluster_id v

  -- The header with the stored token of a node
  unfoldable pub node_headers : String → String → M String Headers
  node_headers cluster_id node_id = do
    token ← load_node_token cfg c.base_url cluster_id node_id
    value ← some_or "failed to parse header value" (p.header_value token)
    pure (("x-quilt-node-token", value) ∷ [])

  -- The configuration that a command leaves behind
  unfoldable pub run_agent : AgentCmd → M String Config
  run_agent (register cluster_id join_token r) = register_node cluster_id join_token r
  run_agent (heartbeat cluster_id node_id s) = do
    headers ← node_headers cluster_id node_id
    send_json p c post (nodes_path cluster_id (node_id ++ "/heartbeat")) headers
        (some (state_body s))
    pure cfg
  run_agent (allocation cluster_id node_id) = do
    headers ← node_headers cluster_id node_id
    send_json p c get (nodes_path cluster_id (node_id ++ "/allocation")) headers none
    pure cfg
  run_agent (placements cluster_id node_id) = do
    headers ← node_headers cluster_id node_id
    send_json p c get (nodes_path cluster_id (node_id ++ "/placements")) headers none
    pure cfg
  run_agent (report cluster_id node_id placement_id state container_id message) = do
    headers ← node_headers cluster_id node_id
    send_json p c post
        (nodes_path cluster_id (node_id ++ "/placements/" ++ placement_id ++ "/report")) headers
        (some (
          json (
            ("container_id", text_or_null container_id)
            ∷ ("state", string state)
            ∷ ("message", text_or_null message)
            ∷ [])))
    pure cfg
  run_agent (deregister cluster_id node_id) = do
    headers ← node_headers cluster_id node_id
    send_json p c post (nodes_path cluster_id (node_id ++ "/deregister")) headers (some no_fields)
    pure cfg
