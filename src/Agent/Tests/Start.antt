-- ===== src/Agent/Tests/Start.antt =====
-- agent/src: the theorems of the whole agent, at the mesh of the tests and a control plane that
-- lists three nodes.
use quiltc.Prelude.{ℕ, String, ◌≡◌, refl, true, none, some, [], ◌∷◌, ok, str_eq, if◌then◌else◌}
use quiltc.Prelude.Maps.{lookup}
use quiltc.Runtime.Routes.{Routing, new_manager}
use quiltc.Runtime.Service.{inject_route}
use quiltc.Runtime.Tests.{kernel}
use quiltc.Agent.Address.{parse_ipv4}
use quiltc.Agent.Peers.{AgentState, add_fdb_entry, add_peer, call_inject_route}
use quiltc.Agent.Sync.{
  current_peers, subnets, sync, discover, discover_all, forget_all, peer_sync_step,
}
use quiltc.Agent.Sync.Known.{has}
use quiltc.Agent.Host.{Host, give, context, ◌>>=◌}
use quiltc.Agent.Vxlan.{interface_exists, setup_vxlan}
use quiltc.Agent.ControlClient.{register_node, heartbeat, list_nodes}
use quiltc.Agent.Life.{
  Args, beat, peer_sync, configure_node_subnet, start, round, rounds, shutdown, main, fresh,
}
use quiltc.Agent.Life.Whole.{rounds-peer_sync, main_peers}
use quiltc.Agent.Tests.{mesh, nodes}

-- A host where every call succeeds and the interface is there.
abbrev host : Host (ℕ × Routing ℕ)
host = record {
  netlink = λ e. (ok tt, e);
  link_index = λ name e. ok (some 7);
  add_vxlan = λ name vni e. (ok tt, e);
  set_up = λ index e. (ok tt, e);
  set_master = λ index master e. (ok tt, e);
  control_client = ok tt;
  post = λ url body e. (some (200, "registered"), e);
  get = λ url e. (some (200, "nodes"), e);
  read_registration = λ body. some (record { node_id = "me"; subnet = "10.42.0.0/24" });
  read_nodes = λ body. if str_eq body "nodes" then some nodes else none;
  show_status = λ s. "200 OK";
  show_ipv4 = λ ip. "192.168.0.1";
  connect = λ endpoint e. (ok tt, e);
  configure = λ subnet e. (ok (record { success = true; error = "" }), e);
  system_hostname = ok "me";
  cpu_cores = 4;
  total_memory = 8589934592;
}

abbrev keep_text : String → String → String → String
keep_text s old new = s

abbrev args : Args
args = record {
  control_plane = "http://127.0.0.1:8080";
  host_ip = "192.168.0.1";
  hostname = none;
  quilt_runtime = "http://127.0.0.1:50051";
  log_level = "info";
  tls_ca = none;
  tls_cert = none;
  tls_key = none;
}

abbrev begun : ℕ × Routing ℕ
begun = (0, new_manager kernel 0)

abbrev first : AgentState (ℕ × Routing ℕ)
first = rounds mesh host keep_text args "me" (beat ∷ []) (fresh mesh host keep_text args begun)

rounds-peer_sync_example : has "10.42.1.0/24" (subnets (current_peers "me" nodes)) ≡ true
unfolding rounds round list_nodes heartbeat give ◌>>=◌ peer_sync_step sync discover_all discover
    add_peer add_fdb_entry call_inject_route parse_ipv4 forget_all current_peers inject_route
rounds-peer_sync_example =
    rounds-peer_sync mesh host keep_text args "me" (beat ∷ []) begun begun first nodes
      "10.42.1.0/24" refl refl refl

main_peers_example :
    (main mesh host keep_text args (peer_sync ∷ beat ∷ []) begun
      ≡ ok (
          shutdown mesh host keep_text args "me" (
            rounds mesh host keep_text args "me"
              (peer_sync ∷ beat ∷ [])
              (fresh mesh host keep_text args begun))))
    × (lookup "10.42.1.0/24"
          (shutdown mesh host keep_text args "me" (
            rounds mesh host keep_text args "me"
              (peer_sync ∷ beat ∷ [])
              (fresh mesh host keep_text args begun))).peers
        ≡ none)
unfolding start context register_node setup_vxlan interface_exists configure_node_subnet give ◌>>=◌
    parse_ipv4
main_peers_example =
    main_peers mesh host keep_text args (peer_sync ∷ beat ∷ []) begun begun
      (record { node_id = "me"; subnet = "10.42.0.0/24" }) "10.42.1.0/24" refl
