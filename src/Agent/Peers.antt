-- ===== src/Agent/Peers.antt =====
-- agent/src/overlay/vxlan.rs, the Linux build, and agent/src/quilt_client/mod.rs: the table of
-- VXLAN peers, and the calls of the runtime.
use Prim.Native.String.{◌++◌}
use quiltc.Prelude.{ℕ, String, Option, none, some, List, Res, ok, err, if◌then◌else◌}
use quiltc.Prelude.Maps.{lookup, put, drop}
use quiltc.Runtime.Service.{RpcResponse}

-- The kernel behind the crate rtnetlink, and the runtime behind the generated gRPC client.
pub record Mesh : Type 1 where
  pub Env : Type 0
  pub vxlan_link : Env → Res (Option ℕ)
  pub fdb_add : ℕ → ℕ → Env → Res {0} Unit × Env
  pub fdb_del : ℕ → ℕ → Env → Res {0} Unit × Env
  pub inject : String → String → Env → Res RpcResponse × Env
  pub remove : String → Env → Res RpcResponse × Env

-- VxlanManager's map from subnets to the peers' host addresses, peer_sync_loop's known_peers, and
-- what is outside the agent.
pub record AgentState (Env : Type 0) : Type 0 where
  pub env : Env
  pub peers : List (String × ℕ)
  pub known_peers : List String

module _ (m : Mesh) where
  open m use {Env, vxlan_link, fdb_add, fdb_del, inject, remove}

  abbrev pub fdb_via :
      (ℕ → ℕ → Env → Res {0} Unit × Env) → ℕ → Res (Option ℕ) → Env → Res {0} Unit × Env
  fdb_via change ip (err e) env = (err e, env)
  fdb_via change ip (ok none) env = (err "VXLAN interface not found", env)
  fdb_via change ip (ok (some index)) env = change index ip env

  unfoldable pub add_fdb_entry : ℕ → Env → Res {0} Unit × Env
  add_fdb_entry ip env = fdb_via fdb_add ip (vxlan_link env) env

  unfoldable pub remove_fdb_entry : ℕ → Env → Res {0} Unit × Env
  remove_fdb_entry ip env = fdb_via fdb_del ip (vxlan_link env) env

  abbrev pub after_fdb :
      String → ℕ → Res {0} Unit × Env → AgentState Env → Res {0} Unit × AgentState Env
  after_fdb subnet ip (ok u, e) st = (ok tt, record st { env = e; peers = put subnet ip st.peers })
  after_fdb subnet ip (err x, e) st = (err x, record st { env = e })

  unfoldable pub add_peer : String → ℕ → AgentState Env → Res {0} Unit × AgentState Env
  add_peer subnet peer_host_ip st =
      after_fdb subnet peer_host_ip (add_fdb_entry peer_host_ip st.env) st

  abbrev pub remove_at : String → Option ℕ → AgentState Env → Res {0} Unit × AgentState Env
  remove_at subnet none st = (ok tt, st)
  remove_at subnet (some peer_host_ip) st =
      let r = remove_fdb_entry peer_host_ip st.env in
      (r.0, record st { env = r.1; peers = drop subnet st.peers })

  -- The peer leaves the table also if the kernel refuses to remove its entry.
  unfoldable pub remove_peer : String → AgentState Env → Res {0} Unit × AgentState Env
  remove_peer subnet st = remove_at subnet (lookup subnet st.peers) st

  abbrev pub of_response : String → Res RpcResponse → Res {0} Unit
  of_response context (err e) = err e
  of_response context (ok resp) = if resp.success then ok tt else err (context ++ resp.error)

  -- QuiltClient::inject_route
  unfoldable pub call_inject_route :
      String → String → AgentState Env → Res {0} Unit × AgentState Env
  call_inject_route destination via_interface st =
      let r = inject destination via_interface st.env in
      (of_response "InjectRoute failed: " r.0, record st { env = r.1 })

  -- QuiltClient::remove_route
  unfoldable pub call_remove_route : String → AgentState Env → Res {0} Unit × AgentState Env
  call_remove_route destination st =
      let r = remove destination st.env in
      (of_response "RemoveRoute failed: " r.0, record st { env = r.1 })
