-- ===== src/Agent/Tests.antt =====
-- agent/src: the theorems of the agent at a mesh whose runtime is the one of runtime/src.
mod Start
mod Beside
use quiltc.Prelude.{
  ℕ, suc, String, ◌≡◌, refl, false, none, some, List, [], ◌∷◌, ok, err, is_some, str_eq, Bool-cases,
  inl, inr,
}
use quiltc.Prelude.Int.{pos}
use quiltc.Prelude.Maps.{lookup}
use quiltc.Runtime.Routes.{Routing, new_manager}
use quiltc.Runtime.Service.{inject_route, remove_route_rpc}
use quiltc.Runtime.Tests.{kernel}
use quiltc.Agent.Address.{parse_ipv4}
use quiltc.Agent.Peers.{Mesh, AgentState, add_fdb_entry}
use quiltc.Agent.Sync.{Node, current_peers, sync, graceful_shutdown}
use quiltc.Agent.Sync.Known.{has, sync_settled}
use quiltc.Agent.Sync.Table.{str_eq_symm, sync_peers, graceful_shutdown_lem}

-- A forwarding table that takes every entry, beside the runtime's routes.
abbrev pub mesh : Mesh
mesh = record {
  Env = ℕ × Routing ℕ;
  vxlan_link = λ e. ok (some 7);
  fdb_add = λ index ip e. (ok tt, (suc e.0, e.1));
  fdb_del = λ index ip e. (err "no such entry", e);
  inject = λ d i e. (ok (inject_route kernel d i e.1).0, (e.0, (inject_route kernel d i e.1).1));
  remove = λ d e. (ok (remove_route_rpc kernel d e.1).0, (e.0, (remove_route_rpc kernel d e.1).1));
}

abbrev node : String → String → String → String → Node
node id ip subnet status = record {
  node_id = id;
  hostname = id;
  host_ip = ip;
  subnet = subnet;
  cpu_cores = none;
  ram_mb = none;
  status = status;
  registered_at = pos 0;
  last_heartbeat = pos 0;
}

abbrev pub nodes : List Node
nodes =
    node "me" "192.168.0.1" "10.42.0.0/24" "up"
    ∷ node "n1" "192.168.0.2" "10.42.1.0/24" "up"
    ∷ node "n2" "192.168.0.3" "10.42.2.0/24" "down"
    ∷ []

abbrev agent : AgentState (ℕ × Routing ℕ)
agent = record {
  env = (0, new_manager kernel 0);
  peers = ("10.42.2.0/24", 3232235523) ∷ [];
  known_peers = "10.42.2.0/24" ∷ [];
}

abbrev settled : AgentState (ℕ × Routing ℕ)
settled = record agent { known_peers = "10.42.1.0/24" ∷ [] }

sync_settled_example : sync mesh "me" nodes settled ≡ settled
unfolding current_peers
sync_settled_example = sync_settled mesh "me" nodes settled (λ s. refl)

agent-IsTabled : (s : String) → is_some (lookup s agent.peers) ≡ has s agent.known_peers
agent-IsTabled s =
    rw (str_eq_symm s "10.42.2.0/24")
      (elim (Bool-cases (str_eq "10.42.2.0/24" s)) [ inl e ↦ rw e refl | inr e ↦ rw e refl ])

sync_peers_example : is_some (lookup "10.42.2.0/24" (sync mesh "me" nodes agent).peers) ≡ false
unfolding current_peers add_fdb_entry parse_ipv4
sync_peers_example =
    sync_peers mesh (λ ip e. refl) "me" nodes agent (refl, tt) agent-IsTabled "10.42.2.0/24"
