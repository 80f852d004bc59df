-- ===== src/Agent/Life.antt =====
-- agent/src/main.rs: main, the two loops, and the shutdown, as a life of the agent.
pub mod Whole
use Prim.Native.String.{◌++◌}
use quiltc.Prelude.{
  ℕ, ◌/◌, String, Bool, not, ◌&&◌, Option, none, some, is_some, List, [], ◌∷◌, Res, ok, err,
  if◌then◌else◌,
}
use quiltc.Prelude.Text.{starts_with}
use quiltc.Agent.Address.{parse_ipv4}
use quiltc.Agent.Peers.{Mesh, AgentState, of_response}
use quiltc.Agent.Sync.{Node, peer_sync_step, graceful_shutdown}
use quiltc.Agent.Host.{
  Host, RegisterNodeRequest, RegisterNodeResponse, Act, give, context, given, ◌>>=◌, ◌>>◌,
}
use quiltc.Agent.Vxlan.{setup_vxlan}
use quiltc.Agent.ControlClient.{register_node, heartbeat, deregister, list_nodes}

pub record Args : Type 0 where
  pub control_plane : String
  pub host_ip : String
  pub hostname : Option String
  pub quilt_runtime : String
  pub log_level : String
  pub tls_ca : Option String
  pub tls_cert : Option String
  pub tls_key : Option String

-- A round of a loop, or the shutdown's signal
pub data Round : Type 0 where
  beat : Round
  peer_sync : Round

abbrev hostname_of : Option String → Res String → Res String
hostname_of (some name) system = ok name
hostname_of none system = system

-- `replace` is std's replacement of a text in another.
abbrev endpoint : (String → String → String → String) → Args → String
endpoint replace a =
    if is_some a.tls_ca && not (starts_with a.quilt_runtime "https://")
    then replace a.quilt_runtime "http://" "https://"
    else a.quilt_runtime

module _ (m : Mesh) (h : Host m.Env) (replace : String → String → String → String) (a : Args) where
  open m use {Env}

  -- QuiltClient::configure_node_subnet
  unfoldable pub configure_node_subnet : String → Act Env Unit
  configure_node_subnet subnet e =
      let r = h.configure subnet e in give (of_response m "ConfigureNodeSubnet failed: " r.0) r.1

  -- What main does before it starts the loops
  unfoldable pub start : Act Env RegisterNodeResponse
  start = do
    host_ip ← give (given "Invalid host IP address" (parse_ipv4 a.host_ip))
    hostname ←
        context "Failed to get system hostname" (give (hostname_of a.hostname h.system_hostname))
    context "Failed to create control plane client" (give h.control_client)
    node ← context "Failed to register with control plane" (
        register_node Env h a.control_plane (record {
          hostname = hostname;
          host_ip = h.show_ipv4 host_ip;
          cpu_cores = some h.cpu_cores;
          ram_mb = some (h.total_memory / 1024 / 1024);
        }))
    context "Failed to create VXLAN manager" h.netlink
    context "Failed to set up VXLAN interface" (setup_vxlan Env h)
    context "Failed to create Quilt client" (h.connect (endpoint replace a))
    context "Failed to configure node subnet" (configure_node_subnet node.subnet)
    give (ok node)

  -- The errors of a round are only logged.
  unfoldable pub round : String → Round → AgentState Env → AgentState Env
  round own beat st = record st { env = (heartbeat Env h a.control_plane own st.env).1 }
  round own peer_sync st =
      let r = list_nodes Env h a.control_plane st.env in
      peer_sync_step m own r.0 (record st { env = r.1 })

  unfoldable pub rounds : String → List Round → AgentState Env → AgentState Env
  rounds own [] st = st
  rounds own (t ∷ ts) st = rounds own ts (round own t st)

  -- graceful_shutdown, with its call of the control plane
  unfoldable pub shutdown : String → AgentState Env → AgentState Env
  shutdown own st =
      graceful_shutdown m (record st { env = (deregister Env h a.control_plane own st.env).1 })

  abbrev pub fresh : Env → AgentState Env
  fresh e = record { env = e; peers = []; known_peers = [] }

  abbrev pub live : List Round → Res RegisterNodeResponse × Env → Res (AgentState Env)
  live ts (err x, e) = err x
  live ts (ok node, e) = ok (shutdown node.node_id (rounds node.node_id ts (fresh e)))

  -- The rounds of the loops until the signal comes
  unfoldable pub main : List Round → Env → Res (AgentState Env)
  main ts e = live ts (start e)
