-- ===== src/Agent/Sync.antt =====
-- agent/src/main.rs: an iteration of peer_sync_loop, and graceful_shutdown.
pub mod Known
pub mod Table
use quiltc.Prelude.{
  ℕ, String, Bool, not, ◌&&◌, Option, none, some, List, [], ◌∷◌, map, Res, ok, err, str_eq,
  if◌then◌else◌, keep,
}
use quiltc.Prelude.Sets.{member, insert, remove}
use quiltc.Prelude.Maps.{keys}
use quiltc.Prelude.Int.{ℤ}
use quiltc.Agent.Address.{parse_ipv4}
use quiltc.Agent.Peers.{
  Mesh, AgentState, add_peer, remove_peer, call_inject_route, call_remove_route,
}

pub record Node : Type 0 where
  pub node_id : String
  pub hostname : String
  pub host_ip : String
  pub subnet : String
  pub cpu_cores : Option ℕ
  pub ram_mb : Option ℕ
  pub status : String
  pub registered_at : ℤ
  pub last_heartbeat : ℤ

pub record PeerInfo : Type 0 where
  pub node_id : String
  pub host_ip : String
  pub subnet : String

abbrev peer_of : Node → PeerInfo
peer_of n = record { node_id = n.node_id; host_ip = n.host_ip; subnet = n.subnet }

-- The other nodes that are up.
unfoldable pub current_peers : String → List Node → List PeerInfo
current_peers own nodes =
    map peer_of (keep (λ n. not (str_eq n.node_id own) && str_eq n.status "up") nodes)

abbrev pub subnets : List PeerInfo → List String
subnets ps = map (λ p. p.subnet) ps

module _ (m : Mesh) where
  open m use {Env}

  -- The errors of both calls are only logged.
  abbrev pub connect : PeerInfo → Option ℕ → AgentState Env → AgentState Env
  connect peer none st = st
  connect peer (some peer_ip) st =
      (call_inject_route m peer.subnet "vxlan100" (add_peer m peer.subnet peer_ip st).1).1

  abbrev pub know : String → AgentState Env → AgentState Env
  know subnet st = record st { known_peers = insert str_eq subnet st.known_peers }

  unfoldable pub discover : PeerInfo → AgentState Env → AgentState Env
  unfolding add_peer call_inject_route parse_ipv4
  discover peer st =
      if member str_eq peer.subnet st.known_peers
      then st
      else know peer.subnet (connect peer (parse_ipv4 peer.host_ip) st)

  unfoldable pub discover_all : List PeerInfo → AgentState Env → AgentState Env
  discover_all [] st = st
  discover_all (p ∷ ps) st = discover_all ps (discover p st)

  unfoldable pub forget : String → AgentState Env → AgentState Env
  unfolding remove_peer call_remove_route
  forget subnet st =
      let st' = (call_remove_route m subnet (remove_peer m subnet st).1).1 in
      record st' { known_peers = remove str_eq subnet st'.known_peers }

  unfoldable pub forget_all : List String → AgentState Env → AgentState Env
  forget_all [] st = st
  forget_all (s ∷ ss) st = forget_all ss (forget s st)

  -- `known_peers.difference(&current_subnets)`; the order of a HashSet's elements is open.
  abbrev pub gone : List String → List String → List String
  gone known current = keep (λ s. not (member str_eq s current)) known

  unfoldable pub sync : String → List Node → AgentState Env → AgentState Env
  unfolding discover_all forget_all
  sync own nodes st =
      let peers = current_peers own nodes in
      let st' = discover_all peers st in forget_all (gone st'.known_peers (subnets peers)) st'

  -- An iteration, with the reply to list_nodes; an error skips it.
  unfoldable pub peer_sync_step : String → Res (List Node) → AgentState Env → AgentState Env
  peer_sync_step own (err e) st = st
  peer_sync_step own (ok nodes) st = sync own nodes st

  unfoldable pub remove_routes : List String → AgentState Env → AgentState Env
  unfolding call_remove_route
  remove_routes [] st = st
  remove_routes (s ∷ ss) st = remove_routes ss (call_remove_route m s st).1

  unfoldable pub remove_peers : List String → AgentState Env → AgentState Env
  remove_peers [] st = st
  remove_peers (s ∷ ss) st = remove_peers ss (remove_peer m s st).1

  -- After the deregistration, whose error is only logged.
  unfoldable pub graceful_shutdown : AgentState Env → AgentState Env
  unfolding remove_peers remove_routes
  graceful_shutdown st =
      let peer_subnets = keys st.peers in remove_peers peer_subnets (remove_routes peer_subnets st)
