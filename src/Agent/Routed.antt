-- ===== src/Agent/Routed.antt =====
-- The agent of agent/src beside the runtime of runtime/src on one node: the agent's calls of
-- inject_route and remove_route are the runtime's, and each arrives and is answered.
pub mod Tracked
pub mod Removed
use quiltc.Prelude.{ℕ, String, Option, Res, ok}
use quiltc.Runtime.Routes.{Netlink, Routing}
use quiltc.Runtime.Service.{inject_route, remove_route_rpc}
use quiltc.Agent.Peers.{Mesh}

-- The kernel's forwarding table, behind the crate rtnetlink.
pub record Forwarding : Type 1 where
  pub Table : Type 0
  pub link : Table → Res (Option ℕ)
  pub append : ℕ → ℕ → Table → Res {0} Unit × Table
  pub delete : ℕ → ℕ → Table → Res {0} Unit × Table

abbrev pub mesh_of : Forwarding → Netlink → Mesh
mesh_of f n = record {
  Env = f.Table × Routing n.Kernel;
  vxlan_link = λ e. f.link e.0;
  fdb_add = λ index ip e. ((f.append index ip e.0).0, ((f.append index ip e.0).1, e.1));
  fdb_del = λ index ip e. ((f.delete index ip e.0).0, ((f.delete index ip e.0).1, e.1));
  inject = λ d i e. (ok (inject_route n d i e.1).0, (e.0, (inject_route n d i e.1).1));
  remove = λ d e. (ok (remove_route_rpc n d e.1).0, (e.0, (remove_route_rpc n d e.1).1));
}
